-- ===== src/Ingress/Valid.antt =====
-- The invariant of the ingress, kept by every message whether it is accepted or refused.
use dcs_copilot.Prelude.{
  ℕ, ◌+◌, ◌≤◌, String, ◌≡◌, refl, subst, ◌∙◌, inl, inr, Bool, true, false, Option, none, some, List,
  [], ◌∷◌, arith, leb, Bool-cases, length, All,
}
use dcs_copilot.Prelude.Map.{Map, lookup, insert, values}
use dcs_copilot.Protocol.Telemetry.{ControlIdentity, CatalogEntry, DecodedValue, identity_eq}
use dcs_copilot.Ingress.{
  Ingress, IngressError, Result, ok, err, Method, and_then, bind, require, max_session_controls,
  cleared, is_some, is_count, start_epoch, catalog_complete, add_entries, validate_value,
}

-- A value that the catalog vouches for.
abbrev pub Vouched : Map ControlIdentity CatalogEntry → DecodedValue → Type 0
Vouched catalog v = validate_value catalog v ≡ none

abbrev pub AllVouched : Map ControlIdentity CatalogEntry → Map ControlIdentity DecodedValue → Type 0
AllVouched catalog m = All (Vouched catalog) (values m)

-- Before the first snapshot chunk nothing of a snapshot is held.
abbrev pub Unopened : Option ℕ → Map ControlIdentity DecodedValue → Bool → ℕ → Type 0
Unopened none m ready chunks = (m ≡ []) × (ready ≡ false) × (chunks ≡ 0)
Unopened (some n) m ready chunks = Unit {0}

pub record IsValid (s : Ingress) : Type 0 where
  pub catalog_bound : length s.catalog ≤ max_session_controls
  pub snapshot_bound : length s.snapshot ≤ max_session_controls
  pub vouched : AllVouched s.catalog s.snapshot
  pub unopened : Unopened s.snapshot_chunk_count s.snapshot s.ready s.snapshot_chunks
  pub whole : is_some s.snapshot_chunk_count ≡ true → catalog_complete s ≡ true
  pub finished : s.ready ≡ true → is_count s.snapshot_chunk_count s.snapshot_chunks ≡ true

-- What holds after a method that returns; one that raises leaves a valid state.
abbrev pub Post : {A : Type 0} → (Ingress → Type 0) → Result A × Ingress → Type 0
Post Q (ok a, t) = Q t
Post Q (err e, t) = IsValid t

abbrev pub Ensures : {A : Type 0} → (Ingress → Type 0) → Method A → (Ingress → Type 0) → Type 0
Ensures P m Q = (s : Ingress) → P s → Post Q (m s)

pub Ensures-bind :
    {A B : Type 0} (P Q R : Ingress → Type 0) (m : Method A) (f : A → Method B)
    → Ensures P m Q
    → ((a : A) → Ensures Q (f a) R)
    → Ensures P (bind m f) R
Ensures-bind {A} {B} P Q R m f h k s p = go (m s) (h s p)
  where
    go : (r : Result A × Ingress) → Post Q r → Post R (and_then r f)
    go (ok a, t) w = k a t w
    go (err e, t) w = w

pub Ensures-weaken :
    {A : Type 0} (P Q R : Ingress → Type 0) (m : Method A)
    → ((s : Ingress) → Q s → R s)
    → Ensures P m Q
    → Ensures P m R
Ensures-weaken {A} P Q R m f h s p = go (m s) (h s p)
  where
    go : (r : Result A × Ingress) → Post Q r → Post R r
    go (ok a, t) w = f t w
    go (err e, t) w = w

pub Post-IsValid : {A : Type 0} (r : Result A × Ingress) → Post IsValid r → IsValid r.1
Post-IsValid (ok a, t) h = h
Post-IsValid (err e, t) h = h

-- A test passes the state on, and what it tests is known afterwards.
pub Ensures-require :
    (P : Ingress → Type 0) (test : Ingress → Bool) (e : IngressError)
    → ((s : Ingress) → P s → IsValid s)
    → Ensures P (λ s. require (test s) e s) (λ s. P s × (test s ≡ true))
Ensures-require P test e valid s p = elim (Bool-cases (test s)) [
  | inl y ↦ rw y (p, y)
  | inr z ↦ rw z (valid s p)
]

-- No snapshot chunk has been seen in this epoch.
abbrev pub Closed : Ingress → Type 0
Closed s = IsValid s × (s.snapshot_chunk_count ≡ none)

pub unopened-of :
    (s : Ingress) → Closed s → (s.snapshot ≡ []) × (s.ready ≡ false) × (s.snapshot_chunks ≡ 0)
unopened-of s (v, n) = subst (λ c. Unopened c s.snapshot s.ready s.snapshot_chunks) n v.unopened

length-insert :
    (k : ControlIdentity) (w : CatalogEntry) (m : Map ControlIdentity CatalogEntry)
    → length (insert k w m) ≤ length m + 1
unfolding insert
length-insert k w [] = omega arith
length-insert k w ((j, u) ∷ m) = ground (arith, length-insert k w m)

pub cleared-IsValid : IsValid cleared
cleared-IsValid = record {
  catalog_bound = omega arith;
  snapshot_bound = omega arith;
  vouched = tt;
  unopened = (refl, refl, refl);
  whole = λ e. cc;
  finished = λ e. cc;
}

pub start_epoch-Closed :
    (epoch aircraft : String) (s : Ingress) → Closed (start_epoch epoch aircraft s)
unfolding start_epoch
start_epoch-Closed epoch aircraft s = (
  record {
    catalog_bound = omega arith;
    snapshot_bound = omega arith;
    vouched = tt;
    unopened = (refl, refl, refl);
    whole = λ e. cc;
    finished = λ e. cc;
  },
  refl,
)

-- Changes to the catalog and its chunks, while there is no snapshot.
pub Closed-change :
    (s t : Ingress)
    → Closed s
    → t.snapshot_chunk_count ≡ s.snapshot_chunk_count
    → t.snapshot ≡ s.snapshot
    → t.ready ≡ s.ready
    → t.snapshot_chunks ≡ s.snapshot_chunks
    → length t.catalog ≤ max_session_controls
    → Closed t
Closed-change s t c e f g h b =
    let (empty, idle, zero_chunks) = unopened-of s c in
    let n : t.snapshot_chunk_count ≡ none = e ∙ c.1 in
    (
      record {
        catalog_bound = b;
        snapshot_bound = rw (f, empty) (omega arith);
        vouched = rw (f, empty) tt;
        unopened = rw n (f ∙ empty, g ∙ idle, h ∙ zero_chunks);
        whole = rw n (λ e. cc);
        finished = rw (g, idle) (λ e. cc);
      },
      n,
    )

pub add_entries-Closed : (entries : List CatalogEntry) → Ensures Closed (add_entries entries) Closed
unfolding add_entries
add_entries-Closed [] s c = c
add_entries-Closed (entry ∷ rest) s c =
    elim (Bool-cases (is_some (lookup entry.identity s.catalog))) [
      | inl y ↦ rw y c.0
      | inr z ↦ rw z (elim (Bool-cases (leb max_session_controls (length s.catalog))) [
        | inl full ↦ rw full c.0
        | inr room ↦ rw room (
            add_entries-Closed rest _ (
              Closed-change s _ c refl refl refl refl
                (ground (arith, length-insert entry.identity entry s.catalog))))
      ])
    ]
