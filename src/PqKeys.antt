-- ===== src/PqKeys.antt =====
-- src/pq_keys.rs: key sets of the three families, their files, signing and rotation. The key pairs
-- that the crates draw, the clock, the directory and the JSON of the metadata are parameters.
pub mod Files
pub mod Rotation
use cachee_cli.Base.{
  ℕ, ◌+◌, ◌%◌, ◌^◌, Bytes, Str, Bool, true, false, not, ◌&&◌, Option, none, some, List, [], ◌∷◌,
  ◌++◌,
}
use cachee_cli.Base.{◌>>=◌, if◌then◌else◌, concat, ascii}
use cachee_cli.Archive.Types.{SignerPublicKeys}
use cachee_cli.Crypto.{PqFamily, PqCrypto}

pub data CryptoPosture : Type 0 where
  development testing production : CryptoPosture

pub record KeyMetadata : Type 0 where
  pub key_id : Bytes
  pub version : ℕ
  pub created_at : ℕ
  pub last_used_at : ℕ
  pub expires_at : Option ℕ
  pub revoked : Bool
  pub rotated_from : Option Bytes
  pub posture : CryptoPosture

pub record PqKeySet : Type 0 where
  pub mldsa_pk : Bytes
  pub mldsa_sk : Bytes
  pub falcon_pk : Bytes
  pub falcon_sk : Bytes
  pub slhdsa_pk : Bytes
  pub slhdsa_sk : Bytes
  pub metadata : KeyMetadata

pub record SignResult : Type 0 where
  pub mldsa_sig : Bytes
  pub falcon_sig : Bytes
  pub slhdsa_sig : Bytes

-- What `keypair()` of the three crates returned, each the public key and then the secret one.
pub record KeyPairs : Type 0 where
  pub mldsa : Bytes × Bytes
  pub falcon : Bytes × Bytes
  pub slhdsa : Bytes × Bytes

-- `std::fs` on one directory; `none` is an error.
pub record Directory : Type 1 where
  pub Dir : Type 0
  pub create_dir_all : Dir → Option Dir
  pub write : Dir → Str → Bytes → Option Dir
  pub set_permissions : Dir → Str → Dir
  pub read : Dir → Str → Option Bytes
  pub exists : Dir → Str → Bool

unfoldable pub compute_key_id : (Bytes → Bytes) → Bytes → Bytes → Bytes → Bytes
compute_key_id sha3_256 mldsa_pk falcon_pk slhdsa_pk =
    sha3_256 (concat (mldsa_pk ∷ falcon_pk ∷ slhdsa_pk ∷ []))

unfoldable pub generate : (Bytes → Bytes) → KeyPairs → ℕ → CryptoPosture → PqKeySet
generate sha3_256 drawn now posture = record {
  mldsa_pk = drawn.mldsa.0;
  mldsa_sk = drawn.mldsa.1;
  falcon_pk = drawn.falcon.0;
  falcon_sk = drawn.falcon.1;
  slhdsa_pk = drawn.slhdsa.0;
  slhdsa_sk = drawn.slhdsa.1;
  metadata = record {
    key_id = compute_key_id sha3_256 drawn.mldsa.0 drawn.falcon.0 drawn.slhdsa.0;
    version = 1;
    created_at = now;
    last_used_at = now;
    expires_at = none;
    revoked = false;
    rotated_from = none;
    posture = posture;
  };
}

-- The new key set, whose version wraps at 32 bits.
unfoldable pub rotate : (Bytes → Bytes) → KeyPairs → ℕ → PqKeySet → PqKeySet
unfolding generate
rotate sha3_256 drawn now keys =
    let new = generate sha3_256 drawn now keys.metadata.posture in
    record new {
      metadata = record new.metadata {
        version = (keys.metadata.version + 1) % 2 ^ 32;
        rotated_from = some keys.metadata.key_id;
      };
    }

-- A secret key that the crate cannot read is a panic: `none`.
unfoldable pub sign_one : PqFamily → Bytes → Bytes → Option Bytes
sign_one f message sk = if f.secret_key_ok sk then some (f.detached_sign message sk) else none

unfoldable pub sign : PqCrypto → PqKeySet → Bytes → Option SignResult
unfolding sign_one
sign pq keys message = do
  m ← sign_one pq.dilithium3 message keys.mldsa_sk
  f ← sign_one pq.falcon512 message keys.falcon_sk
  s ← sign_one pq.sphincssha2128fsimple message keys.slhdsa_sk
  some (record { mldsa_sig = m; falcon_sig = f; slhdsa_sig = s })

unfoldable pub sign_content : PqCrypto → PqKeySet → Bytes → Option SignResult
unfolding sign
sign_content = sign

unfoldable pub sign_content_address : PqCrypto → PqKeySet → Bytes → Option SignResult
unfolding sign
sign_content_address = sign

unfoldable pub public_keys : PqKeySet → SignerPublicKeys
public_keys keys = record {
  mldsa65 = keys.mldsa_pk;
  falcon512 = keys.falcon_pk;
  slhdsa128f = keys.slhdsa_pk;
}

abbrev pub key_files : PqKeySet → List (Str × Bytes)
key_files keys =
    (ascii "mldsa65.pub", keys.mldsa_pk)
    ∷ (ascii "falcon512.pub", keys.falcon_pk)
    ∷ (ascii "slhdsa128f.pub", keys.slhdsa_pk)
    ∷ (ascii "mldsa65.key", keys.mldsa_sk)
    ∷ (ascii "falcon512.key", keys.falcon_sk)
    ∷ (ascii "slhdsa128f.key", keys.slhdsa_sk)
    ∷ []

module _ (fs : Directory) where
  open fs use {Dir, write, set_permissions, exists}

  unfoldable pub write_all : List (Str × Bytes) → Dir → Option Dir
  write_all [] dir = some dir
  write_all ((name, text) ∷ files) dir = do next ← write dir name text; write_all files next

  unfoldable pub restrict : Dir → Dir
  restrict dir =
      set_permissions
        (set_permissions (set_permissions dir (ascii "mldsa65.key")) (ascii "falcon512.key"))
        (ascii "slhdsa128f.key")

  unfoldable pub keys_exist : Dir → Bool
  keys_exist dir =
      exists dir (ascii "mldsa65.pub")
      && exists dir (ascii "mldsa65.key")
      && exists dir (ascii "falcon512.pub")
      && exists dir (ascii "falcon512.key")
      && exists dir (ascii "slhdsa128f.pub")
      && exists dir (ascii "slhdsa128f.key")

module _ (fs : Directory) (metadata_to_json : KeyMetadata → Option Bytes)
    (metadata_of_json : Bytes → Option KeyMetadata) (sha3_256 : Bytes → Bytes) where
  open fs use {Dir, create_dir_all, write, read}

  -- On Unix. An error is `none`; the files that were written before it stay.
  unfoldable pub save : PqKeySet → Dir → Option Dir
  unfolding write_all restrict
  save keys dir = do
    made ← create_dir_all dir
    written ← write_all fs (key_files keys) made
    json ← metadata_to_json keys.metadata
    write (restrict fs written) (ascii "metadata.json") json

  abbrev pub fallback_metadata : Bytes → Bytes → Bytes → KeyMetadata
  fallback_metadata mldsa_pk falcon_pk slhdsa_pk = record {
    key_id = compute_key_id sha3_256 mldsa_pk falcon_pk slhdsa_pk;
    version = 1;
    created_at = 0;
    last_used_at = 0;
    expires_at = none;
    revoked = false;
    rotated_from = none;
    posture = production;
  }

  -- The metadata, or the fallback for a file that is missing or cannot be read.
  unfoldable pub read_metadata : Dir → Bytes → Bytes → Bytes → KeyMetadata
  read_metadata dir mldsa_pk falcon_pk slhdsa_pk = elim (read dir (ascii "metadata.json")) [
    | none ↦ fallback_metadata mldsa_pk falcon_pk slhdsa_pk
    | some text ↦ elim (metadata_of_json text) [
      | none ↦ fallback_metadata mldsa_pk falcon_pk slhdsa_pk
      | some m ↦ m
    ]
  ]

  unfoldable pub load : Dir → Option PqKeySet
  unfolding read_metadata
  load dir = do
    mldsa_pk ← read dir (ascii "mldsa65.pub")
    falcon_pk ← read dir (ascii "falcon512.pub")
    slhdsa_pk ← read dir (ascii "slhdsa128f.pub")
    mldsa_sk ← read dir (ascii "mldsa65.key")
    falcon_sk ← read dir (ascii "falcon512.key")
    slhdsa_sk ← read dir (ascii "slhdsa128f.key")
    some (record {
      mldsa_pk = mldsa_pk;
      mldsa_sk = mldsa_sk;
      falcon_pk = falcon_pk;
      falcon_sk = falcon_sk;
      slhdsa_pk = slhdsa_pk;
      slhdsa_sk = slhdsa_sk;
      metadata = read_metadata dir mldsa_pk falcon_pk slhdsa_pk;
    })
