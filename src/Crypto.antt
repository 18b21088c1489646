-- ===== src/Crypto.antt =====
-- src/crypto.rs: verification under the three post-quantum families. The `pqcrypto_*` crates are
-- parameters: whether a key and a signature have a readable form, and the check itself.
use cachee_cli.Base.{ℕ, ◌+◌, Bytes, Bool, true, false, Result, ok, err, unwrap_or, not, leb, ◌==◌}
use cachee_cli.Base.{if◌then◌else◌}

pub record PqFamily : Type 0 where
  -- `PublicKey::from_bytes(…).is_ok()`
  pub public_key_ok : Bytes → Bool
  -- `DetachedSignature::from_bytes(…).is_ok()`
  pub signature_ok : Bytes → Bool
  -- `verify_detached_signature(sig, message, pk).is_ok()`
  pub verify_detached_signature : Bytes → Bytes → Bytes → Bool
  -- `SecretKey::from_bytes(…).is_ok()`
  pub secret_key_ok : Bytes → Bool
  -- `detached_sign(message, sk)`
  pub detached_sign : Bytes → Bytes → Bytes

pub record PqCrypto : Type 0 where
  pub dilithium3 : PqFamily
  pub falcon512 : PqFamily
  pub sphincssha2128fsimple : PqFamily

pub data CryptoError : Type 0 where
  invalid_public_key invalid_signature : CryptoError

-- The three functions of the source differ in the crate that they call.
unfoldable pub verify_family : PqFamily → Bytes → Bytes → Bytes → Result CryptoError Bool
verify_family f public_key message signature =
    if not (f.public_key_ok public_key)
    then err invalid_public_key
    else if not (f.signature_ok signature)
    then err invalid_signature
    else if f.verify_detached_signature signature message public_key
    then ok true
    else ok false

unfoldable pub verify_mldsa65 : PqCrypto → Bytes → Bytes → Bytes → Result CryptoError Bool
unfolding verify_family
verify_mldsa65 pq = verify_family pq.dilithium3

unfoldable pub verify_falcon512 : PqCrypto → Bytes → Bytes → Bytes → Result CryptoError Bool
unfolding verify_family
verify_falcon512 pq = verify_family pq.falcon512

unfoldable pub verify_slhdsa128f : PqCrypto → Bytes → Bytes → Bytes → Result CryptoError Bool
unfolding verify_family
verify_slhdsa128f pq = verify_family pq.sphincssha2128fsimple

-- `[a, b, c].iter().filter(|&&v| v).count()`
abbrev one : Bool → ℕ
one true = 1
one false = 0

unfoldable pub valid_count : Bool → Bool → Bool → ℕ
valid_count a b c = one a + one b + one c

pub record CryptoVerificationResult : Type 0 where
  pub mldsa_valid : Bool
  pub falcon_valid : Bool
  pub slhdsa_valid : Bool
  pub all_valid : Bool
  pub two_of_three : Bool

unfoldable pub verify_all :
    PqCrypto → Bytes → Bytes → Bytes → Bytes → Bytes → Bytes → Bytes → CryptoVerificationResult
verify_all pq message mldsa_pk mldsa_sig falcon_pk falcon_sig slhdsa_pk slhdsa_sig =
    let mldsa = unwrap_or (verify_mldsa65 pq mldsa_pk message mldsa_sig) false in
    let falcon = unwrap_or (verify_falcon512 pq falcon_pk message falcon_sig) false in
    let slhdsa = unwrap_or (verify_slhdsa128f pq slhdsa_pk message slhdsa_sig) false in
    let count = valid_count mldsa falcon slhdsa in
    record {
      mldsa_valid = mldsa;
      falcon_valid = falcon;
      slhdsa_valid = slhdsa;
      all_valid = count == 3;
      two_of_three = leb 2 count;
    }
