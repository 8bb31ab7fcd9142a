-- ===== src/Ingress/Typed.antt =====
-- Values and entries that their constructors accept are never of the wrong type to the ingress.
use dcs_copilot.Prelude.{ℕ, ◌≡◌, refl, ap, ◌≢◌, true, false, Option, none, some, arith, str_eq}
use dcs_copilot.Prelude.Int.{pos, negsuc}
use dcs_copilot.Prelude.Map.{Map, lookup}
use dcs_copilot.Protocol.Telemetry
use dcs_copilot.Protocol.Telemetry.{
  ControlIdentity, CatalogEntry, DecodedValue, Scalar, identity_eq,
}
use dcs_copilot.Protocol.Checks.{
  identity_fits, entry_fits, value_fits, known_type, absent, is_integer, is_short_text, length_fits,
}
use dcs_copilot.Ingress.{validate_value, check_value, integer_fits, string_fits, wrong_type}

integer_fits-typed :
    (v : Option Scalar) (bound : Option ℕ)
    → is_integer v ≡ true
    → absent bound ≡ false
    → integer_fits v bound ≢ some wrong_type
unfolding is_integer integer_fits
integer_fits-typed none bound h k e = cc
integer_fits-typed (some (Telemetry.text s)) bound h k e = cc
integer_fits-typed (some (Telemetry.integer z)) none h k e = cc
integer_fits-typed (some (Telemetry.integer (pos n))) (some b) h k e = ground arith
integer_fits-typed (some (Telemetry.integer (negsuc n))) (some b) h k e = cc

string_fits-typed :
    (v : Option Scalar) (bound : Option ℕ)
    → is_short_text v ≡ true
    → absent bound ≡ false
    → string_fits v bound ≢ some wrong_type
unfolding is_short_text string_fits
string_fits-typed none bound h k e = cc
string_fits-typed (some (Telemetry.integer z)) bound h k e = cc
string_fits-typed (some (Telemetry.text s)) none h k e = cc
string_fits-typed (some (Telemetry.text s)) (some b) h k e = ground arith

present_length : (o : Option ℕ) → length_fits o ≡ true → absent o ≡ false
unfolding length_fits
present_length none h = cc
present_length (some n) h = refl

-- A value of a known identity that its constructor accepts is never refused by the ingress as being
-- of the wrong type, when the entry of its identity in the catalog is one that the entry's
-- constructor accepts: only its bound can be exceeded.
pub validate_value-typed :
    (catalog : Map ControlIdentity CatalogEntry) (v : DecodedValue) (e : CatalogEntry)
    → lookup v.identity catalog ≡ some e
    → e.identity ≡ v.identity
    → identity_fits v.identity ≡ true
    → entry_fits e ≡ true
    → value_fits v ≡ true
    → validate_value catalog v ≢ some wrong_type
unfolding validate_value check_value identity_fits entry_fits value_fits known_type
validate_value-typed catalog v e found same i f g bad =
    let typed : str_eq e.identity.output_type "integer" ≡ str_eq v.identity.output_type "integer" =
      ap (λ (x : ControlIdentity). str_eq x.output_type "integer") same in
    let texts : str_eq e.identity.output_type "string" ≡ str_eq v.identity.output_type "string" =
      ap (λ (x : ControlIdentity). str_eq x.output_type "string") same in
    ground (
      arith,
      integer_fits-typed v.value e.integer_max,
      string_fits-typed v.value e.string_length,
      present_length e.string_length,
    )
