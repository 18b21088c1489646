-- ===== src/Signup/Pending.antt =====
-- What `verify` of src/signup.rs reads of the pending file that `signup` wrote.
use cachee_cli.Base.{
  Str, true, none, some, [], ◌∷◌, ◌≡◌, refl, ap, ◌∙◌, ok, ascii, split_on, split_onto,
  split_onto-piece, lines, finish_lines, find_line, starts_with, second, ◌>>=◌,
}
use cachee_cli.Security.{quoted_line, toml_line, quoted_field}
use cachee_cli.Security.Lines.{Plain, quoted_line-Without, next_line, quoted_piece, unstripped}
use cachee_cli.Signup.{
  Toml, Disk, write_done, after_write, Files, SignupResponse, answered, email_plausible,
  load_credentials, pending_text, save_pending, signup, verify_request,
}

lines-pending_text :
    (email id : Str)
    → Plain email
    → Plain id
    → lines (pending_text email id)
      ≡ quoted_line (ascii "email") email ∷ quoted_line (ascii "verification_id") id ∷ []
unfolding lines finish_lines pending_text split_on split_onto
lines-pending_text email id e i =
    let q_email =
      quoted_line-Without (ascii "email") email (refl, (refl, (refl, (refl, (refl, tt))))) e.1 in
    let q_id =
      quoted_line-Without (ascii "verification_id") id
        (
          refl,
          (
            refl,
            (
              refl,
              (
                refl,
                (
                  refl,
                  (
                    refl,
                    (refl, (refl, (refl, (refl, (refl, (refl, (refl, (refl, (refl, tt))))))))),
                  ),
                ),
              ),
            ),
          ),
        )
        i.1 in
    rw
      (
        next_line (quoted_line (ascii "email") email) (toml_line (ascii "verification_id") id) _
            q_email
            (split_onto-piece 10 [] (quoted_line (ascii "verification_id") id) [] q_id refl),
        unstripped (ascii "email") email,
        unstripped (ascii "verification_id") id,
      )
      refl

request-pending_text :
    (email id code : Str) (files : Files)
    → Plain email
    → Plain id
    → verify_request none code (record files { pending_signup = some (pending_text email id) })
      ≡ ok (record { email = email; code = code; verification_id = id })
unfolding verify_request quoted_field find_line starts_with
request-pending_text email id code files e i =
    let whole = lines-pending_text email id e i in
    let found =
      λ (name : Str). ap (λ ls. find_line name ls >>= λ line. second (split_on 34 line)) whole in
    let at_email =
      found (ascii "email")
      ∙ quoted_piece (ascii "email") email (refl, (refl, (refl, (refl, (refl, tt))))) e.0 in
    let at_id =
      found (ascii "verification_id")
      ∙ quoted_piece (ascii "verification_id") id
          (
            refl,
            (
              refl,
              (
                refl,
                (
                  refl,
                  (
                    refl,
                    (
                      refl,
                      (refl, (refl, (refl, (refl, (refl, (refl, (refl, (refl, (refl, tt))))))))),
                    ),
                  ),
                ),
              ),
            ),
          )
          i.0 in
    rw (verify_request, quoted_field, at_email, at_id) refl

save_pending-written :
    (disk : Disk) (result : SignupResponse) (files : Files)
    → disk.pending_write ≡ write_done
    → (save_pending disk result files).0
      ≡ record files { pending_signup = some (pending_text result.email result.verification_id) }
unfolding save_pending
save_pending-written disk result files kept =
    let text = pending_text result.email result.verification_id in
    rw (save_pending, kept) (ap (λ d. record files { pending_signup = after_write d text }) kept)

-- After a signup that the server answered, `verify` without an address sends the address and the
-- number that the server gave, with the code, if the address that was typed has an @ and a dot,
-- nobody is signed in, the pending file is written, and what the server gave has no quotation mark and no newline.
pub verify_request-signup :
    (toml : Toml) (disk : Disk) (typed code : Str) (result : SignupResponse) (files : Files)
    → disk.pending_write ≡ write_done
    → email_plausible typed ≡ true
    → load_credentials toml files ≡ none
    → Plain result.email
    → Plain result.verification_id
    → verify_request none code (signup toml disk typed (answered result) files).0
      ≡ ok (record { email = result.email; code = code; verification_id = result.verification_id })
unfolding signup
verify_request-signup toml disk typed code result files kept plausible nobody e i =
    rw (signup, plausible, nobody, save_pending-written disk result files kept)
      (request-pending_text result.email result.verification_id code files e i)
