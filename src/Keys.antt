-- ===== src/Keys.antt =====
-- src/keys.rs: the scopes and constraints of regulator keys. The file has no operations; an `f64` is
-- a number of thousandths.
use cachee_cli.Base.{ℕ, Bytes, Str, Bool, Option, List}
use cachee_cli.Archive.Types.{H33Primitive}

pub data FieldType : Type 0 where
  integer boolean : FieldType
  fixed_bytes : ℕ → FieldType
  threshold : FieldType

pub data ComparisonOp : Type 0 where
  equals less_than greater_than in_range meets_threshold : ComparisonOp

pub record QueryableField : Type 0 where
  pub name : Str
  pub field_type : FieldType
  pub comparison_ops : List ComparisonOp

pub record QueryConstraint : Type 0 where
  pub max_fields : ℕ
  pub max_complexity : ℕ
  pub attest_query : Bool

pub record QueryModel : Type 0 where
  pub queryable_fields : List QueryableField
  pub constraints : List QueryConstraint
  pub max_proof_size_bytes : ℕ

pub data QueryType : Type 0 where
  aml_exposure_check compliance_score temperature_compliance : QueryType
  collateral_adequacy bias_metric conformance_check : QueryType
  custom : Str → QueryType

pub record QueryScope : Type 0 where
  pub allowed_queries : List QueryType
  pub tenant_id : Str
  pub issued_at : ℕ
  pub expires_at : Option ℕ
  pub revocable : Bool

pub data KeyType : Type 0 where
  owner : KeyType
  regulator : QueryScope → KeyType
  auditor : KeyType

pub record KeyConstraints : Type 0 where
  pub max_queries_per_hour : ℕ
  pub max_queries_per_day : ℕ
  pub max_proof_size_bytes : ℕ
  pub max_compute_secs_per_query : ℕ
  pub allowed_schemas : List Str

pub record RegulatorKey : Type 0 where
  pub key_id : Bytes
  pub scope : QueryScope
  pub issuer_pk : Bytes
  pub created_at : ℕ
  pub attestation : Option H33Primitive
  pub constraints : KeyConstraints
