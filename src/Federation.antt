-- ===== src/Federation.antt =====
-- src/federation.rs: the trust boundary, and the acceptance of remote bundles.
pub mod Acceptance
use cachee_cli.Base.{
  ℕ, Bytes, Str, Bool, true, false, Option, List, [], ◌∷◌, not, ◌&&◌, ◌||◌, if◌then◌else◌,
}
use cachee_cli.Base.{bytes_eq}
use cachee_cli.Crypto.{PqCrypto}
use cachee_cli.Archive.Types.{CacheeArchiveBundle, Codecs, H33Primitive, ComputationType}
use cachee_cli.Keys.{KeyType}
use cachee_cli.Archive.Verify.{verify, is_valid, has_valid_fingerprint}

pub record FederationPeer : Type 0 where
  pub node_id : Bytes
  pub endpoint : Str
  pub public_key : Bytes
  pub last_seen : ℕ

pub record SyncRequest : Type 0 where
  pub since_timestamp : ℕ
  pub max_bundles : ℕ
  pub requester_node_id : Bytes

pub record SyncResponse : Type 0 where
  pub bundles : List CacheeArchiveBundle
  pub next_cursor : Option ℕ

pub data DeliveryStatus : Type 0 where
  pending delivered : DeliveryStatus
  -- attempts, last_error
  failed : ℕ → Str → DeliveryStatus

pub record Recipient : Type 0 where
  pub name : Str
  pub endpoint : Str
  pub key_type : KeyType
  pub delivery_status : DeliveryStatus

pub record WitnessDelivery : Type 0 where
  pub bundle : CacheeArchiveBundle
  pub recipients : List Recipient
  pub delivered_at : ℕ
  pub delivery_attestation : H33Primitive

pub record FederationReplicationFilter : Type 0 where
  pub computation_types : Option (List ComputationType)
  pub tenant_ids : Option (List Str)
  -- in thousandths
  pub min_trust_score : ℕ

pub data FederationReplicationStrategy : Type 0 where
  full : FederationReplicationStrategy
  partial : FederationReplicationFilter → FederationReplicationStrategy
  -- region, max_hops
  locality_aware : Str → ℕ → FederationReplicationStrategy

pub data TrustBoundary : Type 0 where
  self_only : TrustBoundary
  trusted_peers : List Bytes → TrustBoundary
  any_verifiable : TrustBoundary
  trusted_issuers : List Bytes → TrustBoundary

pub data ConflictResolution : Type 0 where
  most_recent most_verified recompute_locally flag_for_review : ConflictResolution

-- The messages of `Rejected`.
pub data Rejection : Type 0 where
  signature_verification_failed missing_fingerprint self_only_mode : Rejection
  issuer_not_in_peers issuer_not_in_issuers : Rejection

pub data AcceptanceResult : Type 0 where
  accepted : AcceptanceResult
  rejected : Rejection → AcceptanceResult

-- `trusted_issuers.contains(&issuer_hash)`
unfoldable pub contains : List Bytes → Bytes → Bool
contains [] h = false
contains (x ∷ xs) h = bytes_eq x h || contains xs h

unfoldable pub check_boundary : TrustBoundary → Bool → AcceptanceResult
check_boundary self_only issuer_trusted = rejected self_only_mode
check_boundary (trusted_peers _) issuer_trusted =
    if not issuer_trusted then rejected issuer_not_in_peers else accepted
check_boundary any_verifiable issuer_trusted = accepted
check_boundary (trusted_issuers _) issuer_trusted =
    if not issuer_trusted then rejected issuer_not_in_issuers else accepted

unfoldable pub accept_remote_bundle :
    Codecs → PqCrypto → CacheeArchiveBundle → TrustBoundary → List Bytes → AcceptanceResult
unfolding check_boundary
accept_remote_bundle c pq bundle trust issuers =
    let verification = verify pq bundle in
    if not (is_valid verification) && not verification.cryptographic.two_of_three
    then rejected signature_verification_failed
    else if not (has_valid_fingerprint bundle)
    then rejected missing_fingerprint
    else check_boundary trust (contains issuers (c.sha3_256 bundle.signer_keys.mldsa65))
