-- ===== src/Protocol/Telemetry.antt =====
-- shared/dcs_copilot_protocol/telemetry.py: the telemetry messages.
use dcs_copilot.Prelude.{
  ◌↔◌, ℕ, String, ◌≡◌, subst, Bool, true, ◌&&◌, Option, List, arith, str_eq, eq_iff, ◌==◌,
}
use dcs_copilot.Prelude.Int.{ℤ}
use dcs_copilot.Prelude.Map.{Eq}

pub record ControlIdentity : Type 0 where
  pub module_name : String
  pub identifier : String
  pub output_type : String
  pub output_index : ℕ

pub record CatalogEntry : Type 0 where
  pub identity : ControlIdentity
  pub description : String
  pub integer_max : Option ℕ
  pub string_length : Option ℕ

-- `int | str`
pub data Scalar : Type 0 where
  integer : ℤ → Scalar
  text : String → Scalar

pub record DecodedValue : Type 0 where
  pub identity : ControlIdentity
  pub available : Bool
  pub value : Option Scalar
  pub observed_at_ms : Option ℕ

pub record TelemetryCatalog : Type 0 where
  pub epoch : String
  pub sequence : ℕ
  pub aircraft : String
  pub chunk_index : ℕ
  pub chunk_count : ℕ
  pub entries : List CatalogEntry

pub record TelemetrySnapshot : Type 0 where
  pub epoch : String
  pub sequence : ℕ
  pub aircraft : String
  pub chunk_index : ℕ
  pub chunk_count : ℕ
  pub contents : List DecodedValue

pub record TelemetryDelta : Type 0 where
  pub epoch : String
  pub sequence : ℕ
  pub aircraft : String
  pub chunk_index : ℕ
  pub chunk_count : ℕ
  pub contents : List DecodedValue

-- The equality of the frozen dataclass.
unfoldable pub same_identity : ControlIdentity → ControlIdentity → Bool
same_identity a b =
    str_eq a.module_name b.module_name
    && str_eq a.identifier b.identifier
    && str_eq a.output_type b.output_type
    && a.output_index == b.output_index

same_identity→eq : (a b : ControlIdentity) → same_identity a b ≡ true → a ≡ b
unfolding same_identity
same_identity→eq a b h = ground (
  arith,
  eq_iff a.module_name b.module_name,
  eq_iff a.identifier b.identifier,
  eq_iff a.output_type b.output_type,
)

same_identity_refl : (a : ControlIdentity) → same_identity a a ≡ true
unfolding same_identity
same_identity_refl a = ground (
  arith,
  eq_iff a.module_name a.module_name,
  eq_iff a.identifier a.identifier,
  eq_iff a.output_type a.output_type,
)

pub same_identity_iff : (a b : ControlIdentity) → (same_identity a b ≡ true) ↔ (a ≡ b)
same_identity_iff a b =
    (same_identity→eq a b, λ e. subst (λ c. same_identity a c ≡ true) e (same_identity_refl a))

instance abbrev pub identity_eq : Eq ControlIdentity
identity_eq = record { same = same_identity; same_iff = same_identity_iff }
