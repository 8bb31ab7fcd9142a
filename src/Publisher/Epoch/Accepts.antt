-- ===== src/Publisher/Epoch/Accepts.antt =====
-- The ingress accepts the chunks of a catalog and then those of a snapshot.
use dcs_copilot.Prelude.{
  ℕ, suc, ◌+◌, ◌≤◌, ◌<◌, String, ◌≡◌, refl, sym, ap, subst, ◌∙◌, true, false, Option, none, some,
  List, [], ◌∷◌, ◌++◌, arith, ◌==◌, length, All,
}
use mathlib.Core.List.{append-nil, append_assoc}
use dcs_copilot.Prelude.Map.{Map}
use dcs_copilot.Protocol.Telemetry.{ControlIdentity, CatalogEntry, DecodedValue, identity_eq}
use dcs_copilot.Ingress.{Ingress, max_session_controls, same_option, agreed, Message, accept}
use dcs_copilot.Ingress.Valid.{Vouched}
use dcs_copilot.Publisher.Start.{catalog_messages, snapshot_messages}
use dcs_copilot.Publisher.Delivery.{
  Distinct, keyed, keyed_values, in_catalog, in_snapshot, accepts, accept_catalog-next,
  accept_catalog-first, accept_snapshot-next, concat, same_number,
}
use dcs_copilot.Publisher.Epoch.Lists.{
  Distinct-front, keyed-append, keyed_values-append, length-front, All-parts,
}

module _ (epoch aircraft : String) (count : ℕ) where
  in_catalog-eq :
      {A : Type 0} (f : Ingress → A) (k l q r : ℕ) (c d : Map ControlIdentity CatalogEntry)
      → k ≡ l
      → c ≡ d
      → q ≡ r
      → f (in_catalog epoch aircraft count k c q) ≡ f (in_catalog epoch aircraft count l d r)
  in_catalog-eq f k l q r c d e g h =
      ap (λ n. f (in_catalog epoch aircraft count n c q)) e
      ∙ ap (λ m. f (in_catalog epoch aircraft count l m q)) g
      ∙ ap (λ n. f (in_catalog epoch aircraft count l d n)) h

  accepts-catalogs :
      (cs : List (List CatalogEntry)) (k q : ℕ) (catalog : Map ControlIdentity CatalogEntry)
      (more : List Message)
      → Distinct (catalog ++ keyed (concat cs))
      → length (catalog ++ keyed (concat cs)) ≤ max_session_controls
      → accepts
          (catalog_messages epoch aircraft count k (q + 1) cs ++ more)
          (in_catalog epoch aircraft count k catalog q)
        ≡ accepts more (
            in_catalog epoch aircraft count
              (k + length cs)
              (catalog ++ keyed (concat cs))
              (q + length cs))
  unfolding accepts accept catalog_messages
  accepts-catalogs [] k q catalog more d l =
      in_catalog-eq (accepts more) k (k + 0) q (q + 0) catalog (catalog ++ []) (omega arith)
        (sym (append-nil catalog)) (omega arith)
  accepts-catalogs (c ∷ cs) k q catalog more d l =
      let joined : (catalog ++ keyed c) ++ keyed (concat cs) ≡ catalog ++ keyed (c ++ concat cs) =
        append_assoc catalog (keyed c) (keyed (concat cs))
        ∙ ap (λ m. catalog ++ m) (sym (keyed-append c (concat cs))) in
      let d' = subst Distinct (sym joined) d in
      let l' = subst (λ m. length m ≤ max_session_controls) (sym joined) l in
      accept_catalog-next epoch aircraft count c k q catalog
        (Distinct-front (catalog ++ keyed c) (keyed (concat cs)) d')
        (length-front _ (keyed (concat cs)) _ l')
        (accepts (catalog_messages epoch aircraft count (k + 1) (q + 1 + 1) cs ++ more))
      ∙ accepts-catalogs cs (k + 1) (q + 1) (catalog ++ keyed c) more d' l'
      ∙ in_catalog-eq (accepts more) (k + 1 + length cs) (k + suc (length cs)) (q + 1 + length cs)
          (q + suc (length cs)) _ _ (omega arith) joined (omega arith)

  in_snapshot-eq :
      (catalog : Map ControlIdentity CatalogEntry) (n m k l q r : ℕ)
      (c d : Map ControlIdentity DecodedValue)
      → n ≡ m
      → k ≡ l
      → c ≡ d
      → q ≡ r
      → some (in_snapshot epoch aircraft count catalog (some n) k c q true)
        ≡ some (in_snapshot epoch aircraft count catalog (some m) l d r true)
  in_snapshot-eq catalog n m k l q r c d a e g h =
      ap (λ x. some (in_snapshot epoch aircraft count catalog (some x) k c q true)) a
      ∙ ap (λ x. some (in_snapshot epoch aircraft count catalog (some m) x c q true)) e
      ∙ ap (λ x. some (in_snapshot epoch aircraft count catalog (some m) l x q true)) g
      ∙ ap (λ x. some (in_snapshot epoch aircraft count catalog (some m) l d x true)) h

  accepts-snapshots :
      (catalog : Map ControlIdentity CatalogEntry) (expected : Option ℕ) (total : ℕ)
      (c : List DecodedValue) (cs : List (List DecodedValue)) (k q : ℕ)
      (snapshot : Map ControlIdentity DecodedValue)
      → total ≡ k + suc (length cs)
      → agreed expected total ≡ true
      → Distinct (snapshot ++ keyed_values (concat (c ∷ cs)))
      → length (snapshot ++ keyed_values (concat (c ∷ cs))) ≤ max_session_controls
      → All (Vouched catalog) (concat (c ∷ cs))
      → accepts
          (snapshot_messages epoch aircraft total k (q + 1) (c ∷ cs))
          (in_snapshot epoch aircraft count catalog expected k snapshot q false)
        ≡ some (
            in_snapshot epoch aircraft count catalog
              (some total)
              total
              (snapshot ++ keyed_values (concat (c ∷ cs)))
              (q + suc (length cs))
              true)
  unfolding accepts accept snapshot_messages
  accepts-snapshots catalog expected total c [] k q snapshot t g d l v =
      let joined = ap (λ x. snapshot ++ keyed_values x) (append-nil c) in
      accept_snapshot-next epoch aircraft count catalog expected total c k q snapshot g
        (subst Distinct joined d) (subst (λ x. length x ≤ max_session_controls) joined l)
        (subst (All (Vouched catalog)) (append-nil c) v) (accepts [])
      ∙ ap
          (λ b. some (
            in_snapshot epoch aircraft count catalog (some total) (k + 1)
              (snapshot ++ keyed_values c) (q + 1) b))
          (ground (arith, t))
      ∙ in_snapshot-eq catalog total total (k + 1) total (q + 1) (q + 1) _ _ refl (omega (arith, t))
          (sym joined) refl
  accepts-snapshots catalog expected total c (e ∷ cs) k q snapshot t g d l v =
      let joined : (snapshot ++ keyed_values c) ++ keyed_values (concat (e ∷ cs))
          ≡ snapshot ++ keyed_values (c ++ concat (e ∷ cs)) =
        append_assoc snapshot (keyed_values c) (keyed_values (concat (e ∷ cs)))
        ∙ ap (λ m. snapshot ++ m) (sym (keyed_values-append c (concat (e ∷ cs)))) in
      let d' = subst Distinct (sym joined) d in
      let l' = subst (λ m. length m ≤ max_session_controls) (sym joined) l in
      let (vc, ve) = All-parts catalog c (concat (e ∷ cs)) v in
      let open_still : (k + 1 == total) ≡ false = ground (arith, t) in
      accept_snapshot-next epoch aircraft count catalog expected total c k q snapshot g
        (Distinct-front (snapshot ++ keyed_values c) (keyed_values (concat (e ∷ cs))) d')
        (length-front _ (keyed_values (concat (e ∷ cs))) _ l') vc
        (accepts (snapshot_messages epoch aircraft total (k + 1) (q + 1 + 1) (e ∷ cs)))
      ∙ ap
          (λ b. accepts (snapshot_messages epoch aircraft total (k + 1) (q + 1 + 1) (e ∷ cs)) (
            in_snapshot epoch aircraft count catalog (some total) (k + 1)
              (snapshot ++ keyed_values c) (q + 1) b))
          open_still
      ∙ accepts-snapshots catalog (some total) total e cs (k + 1) (q + 1)
          (snapshot ++ keyed_values c) (omega (arith, t)) (same_number total) d' l' ve
      ∙ in_snapshot-eq catalog total total total total (q + 1 + suc (length cs))
          (q + suc (suc (length cs))) _ _ refl refl joined (omega arith)

suc_add_one : (n : ℕ) → suc n ≡ n + 1
suc_add_one n = omega arith

accepts-epoch :
    (epoch aircraft : String) (e : List CatalogEntry) (es : List (List CatalogEntry))
    (c : List DecodedValue) (cs : List (List DecodedValue)) (s : Ingress)
    → same_option s.epoch epoch ≡ false
    → Distinct (keyed (concat (e ∷ es)))
    → length (keyed (concat (e ∷ es))) ≤ max_session_controls
    → Distinct (keyed_values (concat (c ∷ cs)))
    → length (keyed_values (concat (c ∷ cs))) ≤ max_session_controls
    → All (Vouched (keyed (concat (e ∷ es)))) (concat (c ∷ cs))
    → accepts
        (catalog_messages epoch aircraft (suc (length es)) 0 0 (e ∷ es)
          ++ snapshot_messages epoch aircraft (suc (length cs)) 0 (suc (length es)) (c ∷ cs))
        s
      ≡ some (
          in_snapshot epoch aircraft
            (suc (length es))
            (keyed (concat (e ∷ es)))
            (some (suc (length cs)))
            (suc (length cs))
            (keyed_values (concat (c ∷ cs)))
            (length es + suc (length cs))
            true)
unfolding accepts accept catalog_messages
accepts-epoch epoch aircraft e es c cs s h d l dv lv v =
    let later = snapshot_messages epoch aircraft (suc (length cs)) 0 (suc (length es)) (c ∷ cs) in
    let joined = sym (keyed-append e (concat es)) in
    let d' = subst Distinct (sym joined) d in
    let l' = subst (λ m. length m ≤ max_session_controls) (sym joined) l in
    accept_catalog-first epoch aircraft (suc (length es)) e s h
      (Distinct-front (keyed e) (keyed (concat es)) d') (length-front _ (keyed (concat es)) _ l')
      (accepts (catalog_messages epoch aircraft (suc (length es)) 1 1 es ++ later))
    ∙ accepts-catalogs epoch aircraft (suc (length es)) es 1 0 (keyed e) later d' l'
    ∙ in_catalog-eq epoch aircraft (suc (length es)) (accepts later) (1 + length es)
        (suc (length es)) (0 + length es) (length es) _ _ (omega arith) joined (omega arith)
    ∙ ap
        (λ n. accepts (snapshot_messages epoch aircraft (suc (length cs)) 0 n (c ∷ cs)) (
          in_catalog epoch aircraft (suc (length es)) (suc (length es)) (keyed (concat (e ∷ es)))
            (length es)))
        (suc_add_one (length es))
    ∙ accepts-snapshots epoch aircraft (suc (length es)) (keyed (concat (e ∷ es))) none
        (suc (length cs)) c cs 0 (length es) [] (omega arith) refl dv lv v

pub accepts-lists :
    (epoch aircraft : String) (entries : List (List CatalogEntry))
    (contents : List (List DecodedValue)) (s : Ingress)
    → 0 < length entries
    → 0 < length contents
    → same_option s.epoch epoch ≡ false
    → Distinct (keyed (concat entries))
    → length (keyed (concat entries)) ≤ max_session_controls
    → Distinct (keyed_values (concat contents))
    → length (keyed_values (concat contents)) ≤ max_session_controls
    → All (Vouched (keyed (concat entries))) (concat contents)
    → (q : ℕ) × (accepts
          (catalog_messages epoch aircraft (length entries) 0 0 entries
            ++ snapshot_messages epoch aircraft (length contents) 0 (length entries) contents)
          s
        ≡ some (
            in_snapshot epoch aircraft
              (length entries)
              (keyed (concat entries))
              (some (length contents))
              (length contents)
              (keyed_values (concat contents))
              q
              true))
      × (length entries + length contents ≡ q + 1)
accepts-lists epoch aircraft [] contents s a b h d l dv lv v = absurd (omega (arith, a))
accepts-lists epoch aircraft (e ∷ es) [] s a b h d l dv lv v = absurd (omega (arith, b))
accepts-lists epoch aircraft (e ∷ es) (c ∷ cs) s a b h d l dv lv v = (
  length es + suc (length cs),
  accepts-epoch epoch aircraft e es c cs s h d l dv lv v,
  omega arith,
)
