-- ===== src/Publisher/Epoch/Lists.antt =====
-- The chunks of an epoch make up its lists.
use dcs_copilot.Prelude.{
  ℕ, zero, suc, ◌≤◌, ◌<◌, ◌≡◌, refl, ap, ◌∙◌, none, List, [], ◌∷◌, ◌++◌, arith, length,
  length-append, take, drop, length-drop, All,
}
use dcs_copilot.Prelude.Map.{Map, lookup}
use dcs_copilot.Protocol.Telemetry.{ControlIdentity, CatalogEntry, DecodedValue, identity_eq}
use dcs_copilot.Ingress.Valid.{Vouched}
use dcs_copilot.Publisher.{chunks_from, chunks, at_least_one}
use dcs_copilot.Publisher.Delivery.{Distinct, keyed, keyed_values, concat}

pub take-drop {ℓ} : {A : Type ℓ} (n : ℕ) (xs : List A) → take n xs ++ drop n xs ≡ xs
take-drop zero xs = refl
take-drop (suc n) [] = refl
take-drop (suc n) (x ∷ xs) = ap (λ l. x ∷ l) (take-drop n xs)

pub concat-chunks_from {ℓ} :
    {A : Type ℓ} (fuel size : ℕ) (xs : List A)
    → length xs ≤ fuel
    → 0 < size
    → concat (chunks_from fuel size xs) ≡ xs
unfolding chunks_from
concat-chunks_from zero size [] h s = refl
concat-chunks_from zero size (x ∷ xs) h s = absurd (omega (arith, h))
concat-chunks_from (suc fuel) size [] h s = refl
concat-chunks_from (suc fuel) size (x ∷ xs) h s =
    ap (λ l. take size (x ∷ xs) ++ l)
      (concat-chunks_from fuel size (drop size (x ∷ xs))
        (omega (arith, h, s, length-drop size (x ∷ xs))) s)
    ∙ take-drop size (x ∷ xs)

pub concat-at_least_one {ℓ} :
    {A : Type ℓ} (xs : List (List A)) → concat (at_least_one xs) ≡ concat xs
unfolding at_least_one
concat-at_least_one [] = refl
concat-at_least_one (x ∷ xs) = refl

-- The chunks, as they are sent, make up the values.
pub concat-sent {ℓ} :
    {A : Type ℓ} (size : ℕ) (xs : List A) → 0 < size → concat (at_least_one (chunks xs size)) ≡ xs
unfolding chunks
concat-sent size xs s =
    concat-at_least_one (chunks_from (length xs) size xs)
    ∙ concat-chunks_from (length xs) size xs (omega arith) s

pub lookup-front :
    {V : Type 0} (k : ControlIdentity) (front back : Map ControlIdentity V)
    → lookup k (front ++ back) ≡ none
    → lookup k front ≡ none
unfolding lookup
lookup-front k [] back h = refl
lookup-front k ((j, w) ∷ front) back h = ground (arith, h, lookup-front k front back)

pub Distinct-front :
    {V : Type 0} (front back : Map ControlIdentity V) → Distinct (front ++ back) → Distinct front
Distinct-front [] back d = tt
Distinct-front ((k, v) ∷ front) back d =
    (lookup-front k front back d.0, Distinct-front front back d.1)

pub keyed-append : (xs ys : List CatalogEntry) → keyed (xs ++ ys) ≡ keyed xs ++ keyed ys
keyed-append [] ys = refl
keyed-append (x ∷ xs) ys = ap (λ l. (x.identity, x) ∷ l) (keyed-append xs ys)

pub keyed_values-append :
    (xs ys : List DecodedValue) → keyed_values (xs ++ ys) ≡ keyed_values xs ++ keyed_values ys
keyed_values-append [] ys = refl
keyed_values-append (x ∷ xs) ys = ap (λ l. (x.identity, x) ∷ l) (keyed_values-append xs ys)

pub length-front {ℓ} :
    {A : Type ℓ} (front back : List A) (n : ℕ) → length (front ++ back) ≤ n → length front ≤ n
length-front front back n h = omega (arith, h, length-append front back)

pub All-parts :
    (catalog : Map ControlIdentity CatalogEntry) (xs ys : List DecodedValue)
    → All (Vouched catalog) (xs ++ ys)
    → All (Vouched catalog) xs × All (Vouched catalog) ys
All-parts catalog [] ys h = (tt, h)
All-parts catalog (x ∷ xs) ys h = let (a, b) = All-parts catalog xs ys h.1 in ((h.0, a), b)
