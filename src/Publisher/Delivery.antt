-- ===== src/Publisher/Delivery.antt =====
-- The ingress takes what the publisher sends, one chunk after the other.
use mathlib.Core.List.{append-nil, append_assoc}
use dcs_copilot.Prelude.{
  ℕ, ◌+◌, ◌≤◌, ◌<◌, String, ◌≡◌, refl, sym, ap, subst, ◌∙◌, inl, inr, Bool, true, false, Option,
  none, some, List, [], ◌∷◌, ◌++◌, map, arith, eq_iff, leb, ◌==◌, Bool-cases, length, length-append,
  All,
}
use dcs_copilot.Prelude.Map.{Map, lookup, insert}
use dcs_copilot.Protocol.Telemetry.{
  ControlIdentity, CatalogEntry, DecodedValue, TelemetryCatalog, identity_eq, same_identity,
  same_identity_iff,
}
use dcs_copilot.Ingress.{
  Ingress, cleared, Result, ok, err, max_session_controls, same_option, start_epoch,
  require_context, follows, require_sequence, catalog_complete, agreed, add_entries, open_catalog,
  note_catalog_count, finish_catalog, accept_catalog, note_snapshot_count, add_values,
  finish_snapshot, accept_snapshot, Message, accept,
}
use dcs_copilot.Ingress.Valid.{Vouched}

-- No key comes twice.
abbrev pub Distinct : {V : Type 0} → Map ControlIdentity V → Type 0
Distinct [] = Unit
Distinct ((k, v) ∷ m) = (lookup k m ≡ none) × Distinct m

pub same_identity_sym : (a b : ControlIdentity) → same_identity a b ≡ same_identity b a
same_identity_sym a b = ground (arith, same_identity_iff a b, same_identity_iff b a)

module _ {V : Type 0} where
  lookup-middle :
      (j k : ControlIdentity) (v : V) (front back : Map ControlIdentity V)
      → lookup j (front ++ (k, v) ∷ back) ≡ none
      → same_identity k j ≡ false
  unfolding lookup
  lookup-middle j k v [] back h = ground (arith, h)
  lookup-middle j k v ((i, w) ∷ front) back h = ground (arith, h, lookup-middle j k v front back)

  -- A key in the middle is none of those before it.
  Distinct-middle :
      (k : ControlIdentity) (v : V) (front back : Map ControlIdentity V)
      → Distinct (front ++ (k, v) ∷ back)
      → lookup k front ≡ none
  unfolding lookup
  Distinct-middle k v [] back d = refl
  Distinct-middle k v ((j, w) ∷ front) back d = ground (
    arith,
    lookup-middle j k v front back d.0,
    same_identity_sym j k,
    Distinct-middle k v front back d.1,
  )

  insert-new :
      (k : ControlIdentity) (v : V) (m : Map ControlIdentity V)
      → lookup k m ≡ none
      → insert k v m ≡ m ++ (k, v) ∷ []
  unfolding lookup insert
  insert-new k v [] h = refl
  insert-new k v ((j, w) ∷ m) h = ground (arith, h, insert-new k v m)

abbrev pub keyed : List CatalogEntry → Map ControlIdentity CatalogEntry
keyed entries = map (λ e. (e.identity, e)) entries

-- The room that is left before an entry.
room_lem :
    {V : Type 0} (k : ControlIdentity) (v : V) (front back : Map ControlIdentity V)
    → length (front ++ (k, v) ∷ back) ≤ max_session_controls
    → leb max_session_controls (length front) ≡ false
room_lem k v front back l =
    let less : length front < max_session_controls =
      omega (arith, l, length-append front ((k, v) ∷ back)) in
    ground (arith, less)

add_entries-new :
    (entries : List CatalogEntry) (s : Ingress)
    → Distinct (s.catalog ++ keyed entries)
    → length (s.catalog ++ keyed entries) ≤ max_session_controls
    → add_entries entries s ≡ (ok tt, record s { catalog = s.catalog ++ keyed entries })
unfolding add_entries
add_entries-new [] s d l = ap (λ c. (ok tt, record s { catalog = c })) (sym (append-nil s.catalog))
add_entries-new (e ∷ rest) s d l =
    let new = Distinct-middle e.identity e s.catalog (keyed rest) d in
    let place = room_lem e.identity e s.catalog (keyed rest) l in
    let t : Ingress = record s { catalog = s.catalog ++ (e.identity, e) ∷ [] } in
    let joined = append_assoc s.catalog ((e.identity, e) ∷ []) (keyed rest) in
    let here : add_entries (e ∷ rest) s
        ≡ add_entries rest (record s { catalog = insert e.identity e s.catalog }) =
      ground (arith, new, place) in
    here
    ∙ ap (λ c. add_entries rest (record s { catalog = c })) (insert-new e.identity e s.catalog new)
    ∙ add_entries-new rest t (subst Distinct (sym joined) d)
        (subst (λ c. length c ≤ max_session_controls) (sym joined) l)
    ∙ ap (λ c. (ok tt, record s { catalog = c })) joined

abbrev pub keyed_values : List DecodedValue → Map ControlIdentity DecodedValue
keyed_values contents = map (λ v. (v.identity, v)) contents

add_values-new :
    (contents : List DecodedValue) (s : Ingress)
    → Distinct (s.snapshot ++ keyed_values contents)
    → length (s.snapshot ++ keyed_values contents) ≤ max_session_controls
    → All (Vouched s.catalog) contents
    → add_values contents s ≡ (ok tt, record s { snapshot = s.snapshot ++ keyed_values contents })
unfolding add_values
add_values-new [] s d l a =
    ap (λ c. (ok tt, record s { snapshot = c })) (sym (append-nil s.snapshot))
add_values-new (v ∷ rest) s d l a =
    let new = Distinct-middle v.identity v s.snapshot (keyed_values rest) d in
    let place = room_lem v.identity v s.snapshot (keyed_values rest) l in
    let t : Ingress = record s { snapshot = s.snapshot ++ (v.identity, v) ∷ [] } in
    let joined = append_assoc s.snapshot ((v.identity, v) ∷ []) (keyed_values rest) in
    let here : add_values (v ∷ rest) s
        ≡ add_values rest (record s { snapshot = insert v.identity v s.snapshot }) =
      ground (arith, new, place, a.0) in
    here
    ∙ ap (λ c. add_values rest (record s { snapshot = c })) (insert-new v.identity v s.snapshot new)
    ∙ add_values-new rest t (subst Distinct (sym joined) d)
        (subst (λ c. length c ≤ max_session_controls) (sym joined) l) a.1
    ∙ ap (λ c. (ok tt, record s { snapshot = c })) joined

-- One chunk of the catalog, and one of the snapshot, at their places.
pub same_text : (a : String) → same_option (some a) a ≡ true
same_text a = (eq_iff a a).1 refl

-- The ingress while the catalog of an epoch arrives.
abbrev pub in_catalog : String → String → ℕ → ℕ → Map ControlIdentity CatalogEntry → ℕ → Ingress
in_catalog epoch aircraft count chunks catalog sequence = record cleared {
  epoch = some epoch;
  aircraft = some aircraft;
  last_sequence = some sequence;
  catalog_chunk_count = some count;
  catalog_chunks = chunks;
  catalog = catalog;
}

-- The ingress while the snapshot arrives, and after it.
abbrev pub in_snapshot :
    String
    → String
    → ℕ
    → Map ControlIdentity CatalogEntry
    → Option ℕ
    → ℕ
    → Map ControlIdentity DecodedValue
    → ℕ
    → Bool
    → Ingress
in_snapshot epoch aircraft count catalog expected chunks snapshot sequence ready =
    record (in_catalog epoch aircraft count count catalog sequence) {
      snapshot_chunk_count = expected;
      snapshot_chunks = chunks;
      snapshot = snapshot;
      ready = ready;
    }

abbrev pub continue_ok :
    {A : Type 0} → Result A × Ingress → (Ingress → Option Ingress) → Option Ingress
continue_ok (ok a, t) f = f t
continue_ok (err e, t) f = none

-- The ingress after messages that it all accepts.
unfoldable pub accepts : List Message → Ingress → Option Ingress
unfolding accept
accepts [] s = some s
accepts (m ∷ rest) s = continue_ok (accept m s) (accepts rest)

pub same_number : (n : ℕ) → (n == n) ≡ true
same_number n = ground arith

abbrev in_catalog_start : String → String → ℕ → Ingress
in_catalog_start epoch aircraft count = record cleared {
  epoch = some epoch;
  aircraft = some aircraft;
  catalog_chunk_count = some count;
}

module _ (epoch aircraft : String) (count : ℕ) where
  open_catalog-next :
      (m : TelemetryCatalog) (chunks sequence : ℕ) (catalog : Map ControlIdentity CatalogEntry)
      → m.epoch ≡ epoch
      → m.aircraft ≡ aircraft
      → m.sequence ≡ sequence + 1
      → open_catalog false m (in_catalog epoch aircraft count chunks catalog sequence)
        ≡ (ok tt, in_catalog epoch aircraft count chunks catalog sequence)
  unfolding open_catalog require_context require_sequence follows
  open_catalog-next m chunks sequence catalog e a q =
      rw (e, a, q, same_text epoch, same_text aircraft, same_number (sequence + 1)) refl

  pub accept_catalog-next :
      (entries : List CatalogEntry) (chunks sequence : ℕ)
      (catalog : Map ControlIdentity CatalogEntry)
      → Distinct (catalog ++ keyed entries)
      → length (catalog ++ keyed entries) ≤ max_session_controls
      → (f : Ingress → Option Ingress)
      → continue_ok
          (accept_catalog
            (record {
              epoch = epoch;
              sequence = sequence + 1;
              aircraft = aircraft;
              chunk_index = chunks;
              chunk_count = count;
              entries = entries;
            })
            (in_catalog epoch aircraft count chunks catalog sequence))
          f
        ≡ f (in_catalog epoch aircraft count (chunks + 1) (catalog ++ keyed entries) (sequence + 1))
  unfolding accept_catalog agreed note_catalog_count finish_catalog
  accept_catalog-next entries chunks sequence catalog d l f =
      let added =
        add_entries-new entries (in_catalog epoch aircraft count chunks catalog sequence) d l in
      let m : TelemetryCatalog = record {
        epoch = epoch;
        sequence = sequence + 1;
        aircraft = aircraft;
        chunk_index = chunks;
        chunk_count = count;
        entries = entries;
      } in
      let opened = open_catalog-next m chunks sequence catalog refl refl refl in
      rw (same_text epoch, opened, same_number chunks, same_number count, added) refl

  pub accept_catalog-first :
      (entries : List CatalogEntry) (s : Ingress)
      → same_option s.epoch epoch ≡ false
      → Distinct (keyed entries)
      → length (keyed entries) ≤ max_session_controls
      → (f : Ingress → Option Ingress)
      → continue_ok
          (accept_catalog
            (record {
              epoch = epoch;
              sequence = 0;
              aircraft = aircraft;
              chunk_index = 0;
              chunk_count = count;
              entries = entries;
            })
            s)
          f
        ≡ f (in_catalog epoch aircraft count 1 (keyed entries) 0)
  unfolding accept_catalog open_catalog start_epoch agreed note_catalog_count finish_catalog
  accept_catalog-first entries s h d l f =
      let added = add_entries-new entries (in_catalog_start epoch aircraft count) d l in
      rw (h, added) refl

  pub accept_snapshot-next :
      (catalog : Map ControlIdentity CatalogEntry) (expected : Option ℕ) (total : ℕ)
      (contents : List DecodedValue) (chunks sequence : ℕ)
      (snapshot : Map ControlIdentity DecodedValue)
      → agreed expected total ≡ true
      → Distinct (snapshot ++ keyed_values contents)
      → length (snapshot ++ keyed_values contents) ≤ max_session_controls
      → All (Vouched catalog) contents
      → (f : Ingress → Option Ingress)
      → continue_ok
          (accept_snapshot
            (record {
              epoch = epoch;
              sequence = sequence + 1;
              aircraft = aircraft;
              chunk_index = chunks;
              chunk_count = total;
              contents = contents;
            })
            (in_snapshot epoch aircraft count catalog expected chunks snapshot sequence false))
          f
        ≡ f (
            in_snapshot epoch aircraft count catalog
              (some total)
              (chunks + 1)
              (snapshot ++ keyed_values contents)
              (sequence + 1)
              (chunks + 1 == total))
  unfolding accept_snapshot require_context require_sequence follows catalog_complete
      note_snapshot_count finish_snapshot
  accept_snapshot-next catalog expected total contents chunks sequence snapshot a d l v f =
      let added =
        add_values-new contents
          (in_snapshot epoch aircraft count catalog (some total) chunks snapshot sequence false) d l
          v in
      rw
        (
          same_text epoch,
          same_text aircraft,
          same_number (sequence + 1),
          same_number count,
          same_number chunks,
          a,
          added,
        )
        (elim (Bool-cases (chunks + 1 == total)) [ inl e ↦ rw e refl | inr e ↦ rw e refl ])

abbrev pub concat {ℓ} : {A : Type ℓ} → List (List A) → List A
concat [] = []
concat (xs ∷ rest) = xs ++ concat rest
