-- ===== src/Examples.antt =====
-- Concrete crates, bundles and slots, and the theorems applied to them.
mod Bundles
mod Slots
mod Logs
mod Meters
mod Stores
mod Keys
mod Server
mod Readers
mod Clients
mod Accounts
mod Hosts
mod Revoked
mod Verifier
use cachee_cli.Base.{
  ℕ, Bytes, Str, Bool, true, Option, none, some, List, [], ◌∷◌, ◌++◌, leb, drop, bytes_eq, length,
  replicate, ascii,
}
use cachee_cli.Base.{false, refl}
use cachee_cli.Sled.{Sled, SledLaws, ordered_put, ordered_get, all_some, last_item}
use cachee_cli.Crypto.{PqFamily, PqCrypto}
use cachee_cli.Archive.Types.{
  ComputationFingerprint, H33Primitive, OnChainAnchor, CacheeArchiveBundle, Codecs,
}
use cachee_cli.Archive.Types.{non_deterministic, default_identity, custom, complete, cab_magic}

-- A family whose signature is the key before the message.
abbrev pub toy_family : PqFamily
toy_family = record {
  public_key_ok = λ k. leb 1 (length k);
  signature_ok = λ s. leb 1 (length s);
  verify_detached_signature = λ s m k. bytes_eq s (k ++ m);
  secret_key_ok = λ k. leb 1 (length k);
  detached_sign = λ m k. k ++ m;
}

abbrev pub toy_crypto : PqCrypto
toy_crypto = record {
  dilithium3 = toy_family;
  falcon512 = toy_family;
  sphincssha2128fsimple = toy_family;
}

-- A hash without collisions, and a JSON codec that keeps the issuer's name.
abbrev pub toy_codecs : Codecs
toy_codecs = record {
  sha3_256 = λ xs. xs;
  identity_to_json = λ i. some (b'"' ∷ i.issuer);
  identity_of_json = λ j. some (record default_identity { issuer = drop 1 j });
}

abbrev pub ones : ℕ → Bytes
ones n = replicate n 1

abbrev pub toy_fingerprint : ComputationFingerprint
toy_fingerprint = record {
  input_hash = replicate 32 1;
  computation_hash = replicate 32 2;
  parameter_hash = replicate 32 3;
  version = record { engine = ascii "fhe"; version = ascii "1.0"; circuit_id = some (ascii "c7") };
  hardware_class = some (non_deterministic (ascii "gpu"));
}

abbrev pub toy_primitive : H33Primitive
toy_primitive = record {
  version = 1;
  timestamp = replicate 8 9;
  value_hash = replicate 32 7;
  mldsa_prefix = ones 2;
  falcon_prefix = ones 2;
  slhdsa_prefix = ones 2;
  flags = ones 11;
}

abbrev pub toy_anchor : OnChainAnchor
toy_anchor = record { hash = replicate 32 4; retrieval_pointer = replicate 42 5 }

-- Two of the three signatures are right.
abbrev pub toy_bundle : CacheeArchiveBundle
toy_bundle = record {
  magic = cab_magic;
  version = 1;
  primitive = toy_primitive;
  content_hash = replicate 32 7;
  computation_type = custom 300;
  timestamp_ns = 1000;
  signer_keys = record { mldsa65 = 1 ∷ []; falcon512 = 2 ∷ []; slhdsa128f = 3 ∷ [] };
  signatures = record {
    mldsa65 = 1 ∷ replicate 32 7;
    falcon512 = 2 ∷ replicate 32 7;
    slhdsa128f = 3 ∷ [];
  };
  metadata = ascii "note";
  on_chain_anchor = some toy_anchor;
  completeness = complete;
  computation_fingerprint = toy_fingerprint;
  signer_identity = record default_identity { issuer = ascii "h33" };
}

-- A database as an association list.
abbrev pub toy_sled : Sled
toy_sled = record {
  Db = List (Bytes × Bytes);
  insert = λ db k v. some (ordered_put k v db);
  flush = λ db. true;
  get = λ db k. some (ordered_get k db);
  contains_key = λ db k. some (elim (ordered_get k db) [ none ↦ false | some v ↦ true ]);
  last = λ db. some (last_item db);
  iter = λ db. all_some db;
  len = λ db. length db;
}

abbrev pub toy_laws : SledLaws toy_sled
toy_laws = record {
  contents = λ db. db;
  contents-insert = λ db db' k v h. cc h;
  iter_lem = λ db. refl;
  last_lem = λ db. refl;
  get_lem = λ db k. refl;
}
