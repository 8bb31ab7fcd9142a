-- ===== src/Publisher/Epoch/Fits.antt =====
-- The constructors accept the messages of an epoch, so that the publisher queues them all.
use dcs_copilot.Prelude.{
  ℕ, zero, suc, ◌+◌, ◌*◌, ◌≤◌, ◌<◌, String, ◌≡◌, refl, sym, ap, subst, ◌∙◌, Bool, true, false,
  Option, none, some, List, [], ◌∷◌, ◌++◌, map, arith, length, take, drop, length-drop, all_of,
  any_of, All,
}
use mathlib.Core.List.{append-nil, append_assoc}
use native.Mathlib.Nat.{suc-mul}
use dcs_copilot.Prelude.Map.{Map, lookup}
use dcs_copilot.Protocol.Telemetry.{
  ControlIdentity, CatalogEntry, DecodedValue, identity_eq, same_identity,
}
use dcs_copilot.Protocol.Checks.{
  bounded_text, unique_identities, common_fits, catalog_fits, snapshot_fits,
}
use dcs_copilot.Ingress.{
  catalog_message, snapshot_message, delta_message, malformed, other, Ingress, Message, accept,
}
use dcs_copilot.Ingress.Payload.{
  message_fits, parts_read, entry_read, value_read, from_control, receive, max_payload_bytes,
}
use dcs_copilot.Publisher.{TelemetryPublisher, chunks_from, chunks, at_least_one}
use dcs_copilot.Publisher.Start.{catalog_messages, snapshot_messages, append_all}
use dcs_copilot.Publisher.Delivery.{
  Distinct, keyed, keyed_values, concat, same_identity_sym, accepts, continue_ok,
}
use dcs_copilot.Publisher.Epoch.Lists.{Distinct-front, keyed-append, keyed_values-append}

-- Both the constructor at the sender and the one at the receiver accept the message.
abbrev pub Sound : (String → Bool) → Message → Type 0
Sound uuid m = (message_fits uuid m ≡ true) × (parts_read m ≡ true)

pub append_all-Sound :
    (uuid : String → Bool) (ms : List Message) (p : TelemetryPublisher)
    → All (Sound uuid) ms
    → append_all uuid ms p
      ≡ (true, record p { next_sequence = p.next_sequence + length ms; initial = p.initial ++ ms })
unfolding append_all
append_all-Sound uuid [] p h =
    let n : p.next_sequence ≡ p.next_sequence + 0 = omega arith in
    λ i. (true, record p { next_sequence = n i; initial = sym (append-nil p.initial) i })
append_all-Sound uuid (m ∷ ms) p h =
    let n : p.next_sequence + 1 + length ms ≡ p.next_sequence + suc (length ms) = omega arith in
    rw (append_all, h.0.0)
      (append_all-Sound uuid ms
          (record p { next_sequence = p.next_sequence + 1; initial = p.initial ++ m ∷ [] }) h.1
        ∙ λ i. (
          true,
          record p { next_sequence = n i; initial = append_assoc p.initial (m ∷ []) ms i },
        ))

-- The ingress after messages that it receives and accepts.
unfoldable pub receives : (String → Bool) → (Message → ℕ) → List Message → Ingress → Option Ingress
unfolding receive
receives uuid payload_size [] s = some s
receives uuid payload_size (m ∷ rest) s =
    continue_ok (receive uuid payload_size m s) (receives uuid payload_size rest)

from_control-Sound :
    (uuid : String → Bool) (payload_size : Message → ℕ) (m : Message)
    → Sound uuid m
    → payload_size m ≤ max_payload_bytes
    → from_control uuid payload_size m ≡ m
unfolding from_control
from_control-Sound uuid payload_size (catalog_message m) h l = ground (arith, h, l)
from_control-Sound uuid payload_size (snapshot_message m) h l = ground (arith, h, l)
from_control-Sound uuid payload_size (delta_message m) h l = ground (arith, h, l)
from_control-Sound uuid payload_size malformed h l = ground (arith, h, l)
from_control-Sound uuid payload_size other h l = refl

-- Sound messages that are not too large are received as they were sent.
pub receives-Sound :
    (uuid : String → Bool) (payload_size : Message → ℕ) (ms : List Message) (s : Ingress)
    → All (Sound uuid) ms
    → All (λ m. payload_size m ≤ max_payload_bytes) ms
    → receives uuid payload_size ms s ≡ accepts ms s
unfolding receives receive accepts
receives-Sound uuid payload_size [] s h l = refl
receives-Sound uuid payload_size (m ∷ ms) s h l =
    ap (λ x. continue_ok (accept x s) (receives uuid payload_size ms))
      (from_control-Sound uuid payload_size m h.0 l.0)
    ∙ ap (continue_ok (accept m s)) (λ i t. receives-Sound uuid payload_size ms t h.1 l.1 i)

distinct_entries :
    (k : ControlIdentity) (c : List CatalogEntry)
    → lookup k (keyed c) ≡ none
    → any_of (same_identity k) (map (λ e. e.identity) c) ≡ false
unfolding lookup
distinct_entries k [] h = refl
distinct_entries k (e ∷ c) h =
    ground (arith, h, same_identity_sym k e.identity, distinct_entries k c)

unique_entries :
    (c : List CatalogEntry)
    → Distinct (keyed c)
    → unique_identities (map (λ e. e.identity) c) ≡ true
unfolding unique_identities
unique_entries [] d = refl
unique_entries (e ∷ c) d = ground (arith, distinct_entries e.identity c d.0, unique_entries c d.1)

distinct_values :
    (k : ControlIdentity) (c : List DecodedValue)
    → lookup k (keyed_values c) ≡ none
    → any_of (same_identity k) (map (λ v. v.identity) c) ≡ false
unfolding lookup
distinct_values k [] h = refl
distinct_values k (v ∷ c) h = ground (arith, h, same_identity_sym k v.identity, distinct_values k c)

unique_values :
    (c : List DecodedValue)
    → Distinct (keyed_values c)
    → unique_identities (map (λ v. v.identity) c) ≡ true
unfolding unique_identities
unique_values [] d = refl
unique_values (v ∷ c) d = ground (arith, distinct_values v.identity c d.0, unique_values c d.1)

Distinct-back :
    {V : Type 0} (front back : Map ControlIdentity V) → Distinct (front ++ back) → Distinct back
Distinct-back [] back d = d
Distinct-back ((k, v) ∷ front) back d = Distinct-back front back d.1

all_of-append {ℓ} :
    {A : Type ℓ} (f : A → Bool) (xs ys : List A)
    → all_of f (xs ++ ys) ≡ true
    → (all_of f xs ≡ true) × (all_of f ys ≡ true)
all_of-append f [] ys h = (refl, h)
all_of-append f (x ∷ xs) ys h = ground (arith, h, all_of-append f xs ys)

-- A chunk that the constructors accept.
abbrev EntriesFit : List CatalogEntry → Type 0
EntriesFit c =
    (length c ≤ 256)
    × (unique_identities (map (λ e. e.identity) c) ≡ true)
    × (all_of entry_read c ≡ true)

abbrev ValuesFit : List DecodedValue → Type 0
ValuesFit c =
    (length c ≤ 1024)
    × (unique_identities (map (λ v. v.identity) c) ≡ true)
    × (all_of value_read c ≡ true)

pub All-EntriesFit :
    (cs : List (List CatalogEntry))
    → All (λ c. length c ≤ 256) cs
    → Distinct (keyed (concat cs))
    → all_of entry_read (concat cs) ≡ true
    → All EntriesFit cs
All-EntriesFit [] l d r = tt
All-EntriesFit (c ∷ cs) l d r =
    let d' = subst Distinct (keyed-append c (concat cs)) d in
    let (here, later) = all_of-append entry_read c (concat cs) r in
    (
      (l.0, unique_entries c (Distinct-front (keyed c) (keyed (concat cs)) d'), here),
      All-EntriesFit cs l.1 (Distinct-back (keyed c) (keyed (concat cs)) d') later,
    )

pub All-ValuesFit :
    (cs : List (List DecodedValue))
    → All (λ c. length c ≤ 1024) cs
    → Distinct (keyed_values (concat cs))
    → all_of value_read (concat cs) ≡ true
    → All ValuesFit cs
All-ValuesFit [] l d r = tt
All-ValuesFit (c ∷ cs) l d r =
    let d' = subst Distinct (keyed_values-append c (concat cs)) d in
    let (here, later) = all_of-append value_read c (concat cs) r in
    (
      (l.0, unique_values c (Distinct-front (keyed_values c) (keyed_values (concat cs)) d'), here),
      All-ValuesFit cs l.1 (Distinct-back (keyed_values c) (keyed_values (concat cs)) d') later,
    )

length-take {ℓ} : {A : Type ℓ} (n : ℕ) (xs : List A) → length (take n xs) ≤ n
length-take zero xs = omega arith
length-take (suc n) [] = omega arith
length-take (suc n) (x ∷ xs) = omega (arith, length-take n xs)

chunks_from-short {ℓ} :
    {A : Type ℓ} (fuel size : ℕ) (xs : List A)
    → All (λ c. length c ≤ size) (chunks_from fuel size xs)
unfolding chunks_from
chunks_from-short zero size xs = tt
chunks_from-short (suc fuel) size [] = tt
chunks_from-short (suc fuel) size (x ∷ xs) =
    (length-take size (x ∷ xs), chunks_from-short fuel size (drop size (x ∷ xs)))

All-at_least_one {ℓ} :
    {A : Type ℓ} (P : List A → Type 0) (xs : List (List A))
    → P []
    → All P xs
    → All P (at_least_one xs)
unfolding at_least_one
All-at_least_one P [] n h = (n, tt)
All-at_least_one P (x ∷ xs) n h = h

pub sent-short {ℓ} :
    {A : Type ℓ} (size : ℕ) (xs : List A)
    → All (λ c. length c ≤ size) (at_least_one (chunks xs size))
unfolding chunks
sent-short size xs =
    All-at_least_one _ (chunks_from (length xs) size xs) (omega arith)
      (chunks_from-short (length xs) size xs)

length-chunks_from {ℓ} :
    {A : Type ℓ} (fuel size n : ℕ) (xs : List A)
    → length xs ≤ n * size
    → length (chunks_from fuel size xs) ≤ n
unfolding chunks_from
length-chunks_from zero size n xs h = omega arith
length-chunks_from (suc fuel) size n [] h = omega arith
length-chunks_from (suc fuel) size zero (x ∷ xs) h = absurd (omega (arith, h))
length-chunks_from (suc fuel) size (suc n) (x ∷ xs) h =
    let left : length (drop size (x ∷ xs)) ≤ n * size =
      omega (arith, h, length-drop size (x ∷ xs), suc-mul n size) in
    omega (arith, length-chunks_from fuel size n (drop size (x ∷ xs)) left)

length-at_least_one_le {ℓ} :
    {A : Type ℓ} (xs : List (List A)) (n : ℕ) → length xs ≤ suc n → length (at_least_one xs) ≤ suc n
unfolding at_least_one
length-at_least_one_le [] n h = omega arith
length-at_least_one_le (x ∷ xs) n h = h

-- So many values fill at most so many chunks.
pub length-sent {ℓ} :
    {A : Type ℓ} (size n : ℕ) (xs : List A)
    → length xs ≤ suc n * size
    → length (at_least_one (chunks xs size)) ≤ suc n
unfolding chunks
length-sent size n xs h =
    length-at_least_one_le (chunks_from (length xs) size xs) n
      (length-chunks_from (length xs) size (suc n) xs h)

module _ (uuid : String → Bool) (epoch aircraft : String) (u : uuid epoch ≡ true)
    (b : bounded_text 64 aircraft ≡ true) (count : ℕ) (few : count ≤ 64) where
  common :
      (index sequence : ℕ)
      → index < count
      → sequence < 1000
      → common_fits uuid epoch sequence aircraft index count ≡ true
  unfolding common_fits
  common index sequence i s = ground (arith, u, b, few, i, s)

  pub catalog_messages-Sound :
      (cs : List (List CatalogEntry)) (index sequence : ℕ)
      → index + length cs ≡ count
      → sequence + length cs ≤ 1000
      → All EntriesFit cs
      → All (Sound uuid) (catalog_messages epoch aircraft count index sequence cs)
  unfolding catalog_messages message_fits catalog_fits parts_read
  catalog_messages-Sound [] index sequence i s f = tt
  catalog_messages-Sound (c ∷ cs) index sequence i s f =
      let ok_here = common index sequence (omega (arith, i)) (omega (arith, s)) in
      (
        (ground (arith, ok_here, f.0), f.0.2),
        catalog_messages-Sound cs (index + 1) (sequence + 1) (omega (arith, i)) (omega (arith, s))
            f.1,
      )

  pub snapshot_messages-Sound :
      (cs : List (List DecodedValue)) (index sequence : ℕ)
      → index + length cs ≡ count
      → sequence + length cs ≤ 1000
      → All ValuesFit cs
      → All (Sound uuid) (snapshot_messages epoch aircraft count index sequence cs)
  unfolding snapshot_messages message_fits snapshot_fits parts_read
  snapshot_messages-Sound [] index sequence i s f = tt
  snapshot_messages-Sound (c ∷ cs) index sequence i s f =
      let ok_here = common index sequence (omega (arith, i)) (omega (arith, s)) in
      (
        (ground (arith, ok_here, f.0), f.0.2),
        snapshot_messages-Sound cs (index + 1) (sequence + 1) (omega (arith, i)) (omega (arith, s))
            f.1,
      )
