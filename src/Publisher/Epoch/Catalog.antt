-- ===== src/Publisher/Epoch/Catalog.antt =====
-- The catalog of an epoch is keyed by identity.
use dcs_copilot.Prelude.{
  String, ◌≡◌, refl, sym, ap, subst, ◌∙◌, inl, inr, Bool, true, false, none, some, List, [], ◌∷◌,
  arith, Bool-cases, Option-cases, all_of, All,
}
use dcs_copilot.Prelude.Map.{Map, lookup, insert, values}
use dcs_copilot.Protocol.Telemetry.{
  ControlIdentity, CatalogEntry, DecodedValue, identity_eq, same_identity, same_identity_iff,
}
use dcs_copilot.Ingress.Payload.{entry_read, value_read}
use dcs_copilot.Publisher.{ControlDefinition, ControlChange, identity_of, decoded_value}
use dcs_copilot.Publisher.Start.{catalog_of, catalog_entry, decode_all}
use dcs_copilot.Rules.Engine.Evaluate.{some_eq}
use dcs_copilot.Publisher.Delivery.{Distinct, keyed, same_identity_sym}

-- A catalog whose keys are the identities of its entries.
abbrev pub Keyed : Map ControlIdentity CatalogEntry → Type 0
Keyed m = All (λ (entry : ControlIdentity × CatalogEntry). entry.1.identity ≡ entry.0) m

pub insert-Keyed :
    (k : ControlIdentity) (e : CatalogEntry) (m : Map ControlIdentity CatalogEntry)
    → e.identity ≡ k
    → Keyed m
    → Keyed (insert k e m)
unfolding insert
insert-Keyed k e [] i h = (i, tt)
insert-Keyed k e ((j, w) ∷ m) i h = elim (Bool-cases (same_identity j k)) [
  | inl t ↦ rw t (i ∙ sym ((same_identity_iff j k).0 t), h.1)
  | inr t ↦ rw t (h.0, insert-Keyed k e m i h.1)
]

pub lookup-insert-other :
    (j k : ControlIdentity) (e : CatalogEntry) (m : Map ControlIdentity CatalogEntry)
    → same_identity k j ≡ false
    → lookup j m ≡ none
    → lookup j (insert k e m) ≡ none
unfolding lookup insert
lookup-insert-other j k e [] n h = ground (arith, n)
lookup-insert-other j k e ((i, w) ∷ m) n h = ground (arith, n, h, lookup-insert-other j k e m n)

pub insert-Distinct :
    (k : ControlIdentity) (e : CatalogEntry) (m : Map ControlIdentity CatalogEntry)
    → Distinct m
    → Distinct (insert k e m)
unfolding insert lookup
insert-Distinct k e [] d = (refl, tt)
insert-Distinct k e ((j, w) ∷ m) d = elim (Bool-cases (same_identity j k)) [
  | inl t ↦ rw t (d.0, d.1)
  | inr t ↦
      rw t (lookup-insert-other j k e m (same_identity_sym k j ∙ t) d.0, insert-Distinct k e m d.1)
]

-- Every entry passes the constructors.
abbrev pub Readable : Map ControlIdentity CatalogEntry → Type 0
Readable m = All (λ (entry : ControlIdentity × CatalogEntry). entry_read entry.1 ≡ true) m

insert-Readable :
    (k : ControlIdentity) (e : CatalogEntry) (m : Map ControlIdentity CatalogEntry)
    → entry_read e ≡ true
    → Readable m
    → Readable (insert k e m)
unfolding insert
insert-Readable k e [] r h = (r, tt)
insert-Readable k e ((j, w) ∷ m) r h = elim (Bool-cases (same_identity j k)) [
  | inl t ↦ rw t (r, h.1)
  | inr t ↦ rw t (h.0, insert-Readable k e m r h.1)
]

pub entries_read :
    (m : Map ControlIdentity CatalogEntry) → Readable m → all_of entry_read (values m) ≡ true
entries_read [] h = refl
entries_read ((k, e) ∷ m) h = rw (h.0, entries_read m h.1) refl

pub record IsCatalog (m : Map ControlIdentity CatalogEntry) : Type 0 where
  pub by_identity : Keyed m
  pub once : Distinct m
  pub readable : Readable m

module _ (uuid : String → Bool) (first_256 : String → String) where
  catalog_entry-read :
      (d : ControlDefinition) (e : CatalogEntry)
      → catalog_entry uuid first_256 d ≡ some e
      → (e.identity ≡ identity_of d) × (entry_read e ≡ true)
  unfolding catalog_entry entry_read
  catalog_entry-read d e h = ground (arith, h)

  -- What the dictionary of the definitions is.
  pub catalog_of-IsCatalog :
      (ds : List ControlDefinition) (m c : Map ControlIdentity CatalogEntry)
      → IsCatalog m
      → catalog_of uuid first_256 ds m ≡ some c
      → IsCatalog c
  unfolding catalog_of
  catalog_of-IsCatalog [] m c i h = subst IsCatalog (some_eq h) i
  catalog_of-IsCatalog (d ∷ ds) m c i h = elim (Option-cases (catalog_entry uuid first_256 d)) [
    | inl e ↦ cc (rw e at h)
    | inr (x, e) ↦
        let (j, r) = catalog_entry-read d x e in
        catalog_of-IsCatalog ds (insert (identity_of d) x m) c
          (record {
            by_identity = insert-Keyed (identity_of d) x m j i.by_identity;
            once = insert-Distinct (identity_of d) x m i.once;
            readable = insert-Readable (identity_of d) x m r i.readable;
          })
          (rw e at h)
  ]

decoded_value-read :
    (c : ControlChange) (v : DecodedValue) → decoded_value c ≡ some v → value_read v ≡ true
unfolding decoded_value value_read
decoded_value-read c v h = ground (arith, h)

pub decode_all-read :
    (cs : List ControlChange) (vs : List DecodedValue)
    → decode_all cs ≡ some vs
    → all_of value_read vs ≡ true
unfolding decode_all
decode_all-read [] vs h = ap (all_of value_read) (sym (some_eq h))
decode_all-read (c ∷ cs) vs h = elim (Option-cases (decoded_value c)) [
  | inl e ↦ cc (rw e at h)
  | inr (v, e) ↦ elim (Option-cases (decode_all cs)) [
    | inl e' ↦ cc (rw (e, e') at h)
    | inr (ws, e') ↦
        let joined : v ∷ ws ≡ vs = some_eq (rw (e, e') at h) in
        subst (λ l. all_of value_read l ≡ true) joined
          (rw (decoded_value-read c v e, decode_all-read cs ws e') refl)
  ]
]

pub keyed-values : (m : Map ControlIdentity CatalogEntry) → Keyed m → keyed (values m) ≡ m
keyed-values [] h = refl
keyed-values ((k, e) ∷ m) h =
    ap (λ i. (i, e) ∷ keyed (values m)) h.0 ∙ ap (λ l. (k, e) ∷ l) (keyed-values m h.1)
