-- ===== src/Publisher/Epoch.antt =====
-- The messages of an epoch, from the publisher through the ingress.
mod Lists
mod Catalog
pub mod Fits
mod Accepts
use dcs_copilot.Prelude.{
  ◌↔◌, Never, All-imp, All-select, select-All, >>=-some, Returns, Returns-bind, Returns-some, ◌>>=◌,
  >>=-assoc, ℕ, zero, suc, ◌+◌, ◌-◌, ◌*◌, ◌/◌, ◌%◌, ◌^◌, ◌≤◌, ◌<◌, String, ◌≡◌, refl, sym, ap,
  subst, ◌∙◌, ◌≢◌, ◌⊎◌, inl, inr, Bool, true, false, ◌&&◌, ◌||◌, not, Option, none, some, List, [],
  ◌∷◌, ◌++◌, map, arith, str_eq, eq_iff, ltb, leb, ◌==◌, if◌then◌else◌, ltb→lt, ltb→le, leb→le,
  ==→eq, tests, Bool-cases, Option-cases, length, length-append, get_or, take, drop, length-drop,
  all_of, any_of, select, All, All-append,
}
use mathlib.Core.List.{append-nil, append_assoc}
use dcs_copilot.Prelude.Map.{Map, lookup, insert, values}
use dcs_copilot.Protocol.Telemetry.{
  ControlIdentity, CatalogEntry, DecodedValue, identity_eq, same_identity, same_identity_iff,
}
use dcs_copilot.Ingress.{
  Ingress, max_session_controls, same_option, agreed, follows, Message, accept,
}
use dcs_copilot.Ingress.Valid.{Vouched}
use dcs_copilot.Publisher.{
  ControlDefinition, Client, TelemetryPublisher, chunks_from, chunks, at_least_one, reset,
}
use dcs_copilot.Publisher.Start.{
  catalog_messages, snapshot_messages, catalog_of, decode_all, append_snapshot, after_catalog,
  append_catalog, open_epoch, begin_for, begin_epoch,
}
use dcs_copilot.Protocol.Checks.{bounded_text}
use dcs_copilot.Ingress.Payload.{entry_read, value_read, max_payload_bytes}
use Prim.Native.String.{count}
use dcs_copilot.Publisher.Epoch.Fits.{
  Sound, append_all-Sound, receives, receives-Sound, All-EntriesFit, All-ValuesFit, sent-short,
  length-sent, catalog_messages-Sound, snapshot_messages-Sound,
}
use dcs_copilot.Publisher.Delivery.{
  Distinct, keyed, keyed_values, in_catalog, in_snapshot, accepts, accept_catalog-next,
  accept_catalog-first, accept_snapshot-next, concat, same_number, same_identity_sym,
}
use dcs_copilot.Publisher.Epoch.Accepts.{accepts-lists}
use dcs_copilot.Publisher.Epoch.Lists.{
  take-drop, concat-chunks_from, concat-at_least_one, concat-sent, lookup-front, Distinct-front,
  keyed-append, keyed_values-append, length-front, All-parts,
}
use dcs_copilot.Publisher.Epoch.Catalog.{
  IsCatalog, Keyed, keyed-values, catalog_of-IsCatalog, entries_read, decode_all-read,
}

-- The ingress has taken an epoch as a whole, and waits for its first delta.
pub record Taken (p : TelemetryPublisher) (epoch aircraft : String) (sent : List DecodedValue)
    (t : Ingress) : Type 0 where
  pub in_epoch : t.epoch ≡ some epoch
  pub for_aircraft : t.aircraft ≡ some aircraft
  pub is_ready : t.ready ≡ true
  pub all_entries : t.catalog ≡ p.catalog
  pub all_values : t.snapshot ≡ keyed_values sent
  pub in_turn : follows t.last_sequence p.next_sequence ≡ true

length-at_least_one {ℓ} : {A : Type ℓ} (xs : List (List A)) → 0 < length (at_least_one xs)
unfolding at_least_one
length-at_least_one [] = omega arith
length-at_least_one (x ∷ xs) = omega arith

catalog-sent :
    (catalog : Map ControlIdentity CatalogEntry)
    → Keyed catalog
    → keyed (concat (at_least_one (chunks (values catalog) 256))) ≡ catalog
catalog-sent catalog k =
    ap keyed (concat-sent 256 (values catalog) (omega arith)) ∙ keyed-values catalog k

values-sent : (sent : List DecodedValue) → concat (at_least_one (chunks sent 1024)) ≡ sent
values-sent sent = concat-sent 1024 sent (omega arith)

empty_IsCatalog : IsCatalog []
empty_IsCatalog = record { by_identity = tt; once = tt; readable = tt }

-- What an epoch sends, from its catalog and its values.
abbrev epoch_messages :
    String → String → List (List CatalogEntry) → List (List DecodedValue) → List Message
epoch_messages epoch aircraft entries contents =
    catalog_messages epoch aircraft (length entries) 0 0 entries
    ++ snapshot_messages epoch aircraft (length contents) 0 (length entries) contents

sent-Taken :
    (epoch aircraft : String) (entries : List (List CatalogEntry))
    (contents : List (List DecodedValue)) (catalog : Map ControlIdentity CatalogEntry)
    (sent : List DecodedValue) (p : TelemetryPublisher) (s : Ingress)
    → keyed (concat entries) ≡ catalog
    → concat contents ≡ sent
    → p.catalog ≡ catalog
    → p.next_sequence ≡ length entries + length contents
    → (q : ℕ) → length entries + length contents ≡ q + 1
    → Taken p epoch aircraft sent (
        in_snapshot epoch aircraft
          (length entries)
          (keyed (concat entries))
          (some (length contents))
          (length contents)
          (keyed_values (concat contents))
          q
          true)
unfolding follows
sent-Taken epoch aircraft entries contents catalog sent p s e c pc pn q n = record {
  in_epoch = refl;
  for_aircraft = refl;
  is_ready = refl;
  all_entries = e ∙ sym pc;
  all_values = ap keyed_values c;
  in_turn = rw (pn ∙ n) (same_number (q + 1));
}

lists-Taken :
    (epoch aircraft : String) (entries : List (List CatalogEntry))
    (contents : List (List DecodedValue)) (catalog : Map ControlIdentity CatalogEntry)
    (sent : List DecodedValue) (p : TelemetryPublisher) (s : Ingress)
    → keyed (concat entries) ≡ catalog
    → concat contents ≡ sent
    → 0 < length entries
    → 0 < length contents
    → p.catalog ≡ catalog
    → p.next_sequence ≡ length entries + length contents
    → p.initial ≡ epoch_messages epoch aircraft entries contents
    → same_option s.epoch epoch ≡ false
    → Distinct catalog
    → length catalog ≤ max_session_controls
    → Distinct (keyed_values sent)
    → length (keyed_values sent) ≤ max_session_controls
    → All (Vouched catalog) sent
    → (t : Ingress) × (accepts p.initial s ≡ some t) × Taken p epoch aircraft sent t
lists-Taken epoch aircraft entries contents catalog sent p s e c ne nc pc pn pi other d l dv lv v =
    let (q, a, n) =
      accepts-lists epoch aircraft entries contents s ne nc other (subst Distinct (sym e) d)
        (subst (λ m. length m ≤ max_session_controls) (sym e) l)
        (subst (λ x. Distinct (keyed_values x)) (sym c) dv)
        (subst (λ x. length (keyed_values x) ≤ max_session_controls) (sym c) lv)
        (subst (λ m. All (Vouched m) (concat contents)) (sym e)
          (subst (All (Vouched catalog)) (sym c) v)) in
    (
      in_snapshot epoch aircraft (length entries) (keyed (concat entries)) (some (length contents))
          (length contents) (keyed_values (concat contents)) q true,
      ap (λ m. accepts m s) pi ∙ a,
      sent-Taken epoch aircraft entries contents catalog sent p s e c pc pn q n,
    )

length-catalog_messages :
    (epoch aircraft : String) (count index sequence : ℕ) (cs : List (List CatalogEntry))
    → length (catalog_messages epoch aircraft count index sequence cs) ≡ length cs
unfolding catalog_messages
length-catalog_messages epoch aircraft count index sequence [] = refl
length-catalog_messages epoch aircraft count index sequence (c ∷ cs) =
    ap suc (length-catalog_messages epoch aircraft count (index + 1) (sequence + 1) cs)

length-snapshot_messages :
    (epoch aircraft : String) (count index sequence : ℕ) (cs : List (List DecodedValue))
    → length (snapshot_messages epoch aircraft count index sequence cs) ≡ length cs
unfolding snapshot_messages
length-snapshot_messages epoch aircraft count index sequence [] = refl
length-snapshot_messages epoch aircraft count index sequence (c ∷ cs) =
    ap suc (length-snapshot_messages epoch aircraft count (index + 1) (sequence + 1) cs)

length-values : (m : Map ControlIdentity CatalogEntry) → length (values m) ≡ length m
length-values [] = refl
length-values ((k, e) ∷ m) = ap suc (length-values m)

length-keyed_values : (vs : List DecodedValue) → length (keyed_values vs) ≡ length vs
length-keyed_values [] = refl
length-keyed_values (v ∷ vs) = ap suc (length-keyed_values vs)

named_lem :
    (aircraft : String) → aircraft ≢ "" → count aircraft ≤ 64 → bounded_text 64 aircraft ≡ true
unfolding bounded_text
named_lem aircraft n l = ground (arith, n, l, eq_iff aircraft "")

module _ (uuid : String → Bool) (first_256 : String → String) (client : Client) (epoch : String)
    (now : ℕ) (aircraft : String) (p : TelemetryPublisher) where
  -- The publisher at the end.
  abbrev opened : Map ControlIdentity CatalogEntry → List Message → ℕ → TelemetryPublisher
  opened catalog initial n = record (reset p) {
    epoch = some epoch;
    aircraft = some aircraft;
    next_refresh_at = some (now + p.refresh_interval);
    next_sequence = n;
    initial = initial;
    catalog = catalog;
    active_modules = map (λ (d : ControlDefinition). d.module_name) client.active_definitions;
  }

  begin_epoch-opened :
      p.session_active ≡ true
      → begin_epoch uuid first_256 client epoch now (some aircraft) p
        ≡ open_epoch uuid first_256 client epoch now aircraft (reset p)
  unfolding begin_epoch begin_for reset
  begin_epoch-opened a =
      ap
        (λ x.
          if not x
          then (true, reset p)
          else open_epoch uuid first_256 client epoch now aircraft (reset p))
        a

  open_epoch-opened :
      (catalog : Map ControlIdentity CatalogEntry) (sent : List DecodedValue)
      → catalog_of uuid first_256 client.active_definitions [] ≡ some catalog
      → decode_all client.decoded_snapshot ≡ some sent
      → let entries = at_least_one (chunks (values catalog) 256) in
        let contents = at_least_one (chunks sent 1024) in
        let first = catalog_messages epoch aircraft (length entries) 0 0 entries in
        let n = 0 + length first in
        let then_sent = snapshot_messages epoch aircraft (length contents) 0 n contents in
        All (Sound uuid) first
        → All (Sound uuid) then_sent
        → open_epoch uuid first_256 client epoch now aircraft (reset p)
          ≡ (true, opened catalog (first ++ then_sent) (n + length then_sent))
  unfolding open_epoch append_catalog after_catalog append_snapshot reset
  open_epoch-opened catalog sent c d h k =
      let entries = at_least_one (chunks (values catalog) 256) in
      let contents = at_least_one (chunks sent 1024) in
      let first = catalog_messages epoch aircraft (length entries) 0 0 entries in
      let n = 0 + length first in
      let then_sent = snapshot_messages epoch aircraft (length contents) 0 n contents in
      ap
        (λ o.
          append_catalog uuid first_256 client epoch aircraft o
            (record (opened [] [] 0) { catalog = []; active_modules = [] }))
        c
      ∙ ap (after_catalog uuid first_256 client epoch aircraft)
          (append_all-Sound uuid first (opened catalog [] 0) h)
      ∙ ap (λ o. append_snapshot uuid first_256 epoch aircraft o (opened catalog first n)) d
      ∙ append_all-Sound uuid then_sent (opened catalog first n) k

-- The chunks of a catalog or of values that fit a session.
module _ (uuid : String → Bool) (epoch aircraft : String) (u : uuid epoch ≡ true)
    (b : bounded_text 64 aircraft ≡ true) where
  catalog-Sound :
      (catalog : Map ControlIdentity CatalogEntry)
      → IsCatalog catalog
      → length catalog ≤ max_session_controls
      → let entries = at_least_one (chunks (values catalog) 256) in
        (length entries ≤ 16)
        × All (Sound uuid) (catalog_messages epoch aircraft (length entries) 0 0 entries)
  catalog-Sound catalog i l =
      let entries = at_least_one (chunks (values catalog) 256) in
      let few : length entries ≤ 16 =
        length-sent 256 15 (values catalog) (omega (arith, l, length-values catalog)) in
      (
        few,
        catalog_messages-Sound uuid epoch aircraft u b (length entries) (omega (arith, few)) entries
            0 0 (omega arith) (omega (arith, few))
            (All-EntriesFit entries (sent-short 256 (values catalog))
              (subst Distinct (sym (catalog-sent catalog i.by_identity)) i.once)
              (ap (all_of entry_read) (concat-sent 256 (values catalog) (omega arith))
                ∙ entries_read catalog i.readable)),
      )

  snapshot-Sound :
      (sent : List DecodedValue) (sequence : ℕ)
      → sequence ≤ 16
      → all_of value_read sent ≡ true
      → Distinct (keyed_values sent)
      → length (keyed_values sent) ≤ max_session_controls
      → let contents = at_least_one (chunks sent 1024) in
        All (Sound uuid) (snapshot_messages epoch aircraft (length contents) 0 sequence contents)
  snapshot-Sound sent sequence m r d l =
      let contents = at_least_one (chunks sent 1024) in
      let few : length contents ≤ 4 =
        length-sent 1024 3 sent (omega (arith, l, length-keyed_values sent)) in
      snapshot_messages-Sound uuid epoch aircraft u b (length contents) (omega (arith, few))
        contents 0 sequence (omega arith) (omega (arith, few, m))
        (All-ValuesFit contents (sent-short 1024 sent)
          (subst (λ x. Distinct (keyed_values x)) (sym (values-sent sent)) d)
          (ap (all_of value_read) (values-sent sent) ∙ r))

-- In a session an epoch begins for an aircraft with a name of at most 64 characters, under an
-- identifier that is a UUID. The constructors accept the client's definitions and values, which are
-- of different controls, no more than the ingress takes, and each value vouched for by the catalog.
-- Then no constructor of a message raises; and where the payloads are of at most 256 KiB, an ingress
-- that is not in that epoch receives and accepts all of the messages in their order. After them it is
-- ready, holds the publisher's catalog and the client's values, and takes the publisher's next
-- message as the one that follows.
pub begin_epoch-Taken :
    (uuid : String → Bool) (payload_size : Message → ℕ) (first_256 : String → String)
    (client : Client) (epoch : String) (now : ℕ) (aircraft : String) (p : TelemetryPublisher)
    (s : Ingress) (catalog : Map ControlIdentity CatalogEntry) (sent : List DecodedValue)
    → p.session_active ≡ true
    → same_option s.epoch epoch ≡ false
    → uuid epoch ≡ true
    → aircraft ≢ ""
    → count aircraft ≤ 64
    → catalog_of uuid first_256 client.active_definitions [] ≡ some catalog
    → decode_all client.decoded_snapshot ≡ some sent
    → length catalog ≤ max_session_controls
    → Distinct (keyed_values sent)
    → length (keyed_values sent) ≤ max_session_controls
    → All (Vouched catalog) sent
    → All
        (λ m. payload_size m ≤ max_payload_bytes)
        (begin_epoch uuid first_256 client epoch now (some aircraft) p).1.initial
    → let (returned, q) = begin_epoch uuid first_256 client epoch now (some aircraft) p in
      (returned ≡ true)
      × ((t : Ingress) × (receives uuid payload_size q.initial s ≡ some t)
          × Taken q epoch aircraft sent t)
begin_epoch-Taken uuid payload_size first_256 client epoch now aircraft p s catalog sent active
      other u named short c d lc dv lv v small =
    let b = named_lem aircraft named short in
    let entries = at_least_one (chunks (values catalog) 256) in
    let contents = at_least_one (chunks sent 1024) in
    let first = catalog_messages epoch aircraft (length entries) 0 0 entries in
    let then_sent =
      snapshot_messages epoch aircraft (length contents) 0 (0 + length first) contents in
    let is =
      catalog_of-IsCatalog uuid first_256 client.active_definitions [] catalog empty_IsCatalog c in
    let (few, h) = catalog-Sound uuid epoch aircraft u b catalog is lc in
    let size : length first ≡ length entries =
      length-catalog_messages epoch aircraft (length entries) 0 0 entries in
    let k =
      snapshot-Sound uuid epoch aircraft u b sent (0 + length first) (omega (arith, size, few))
        (decode_all-read client.decoded_snapshot sent d) dv lv in
    let q =
      opened uuid first_256 client epoch now aircraft p catalog (first ++ then_sent)
        (0 + length first + length then_sent) in
    let at_end : begin_epoch uuid first_256 client epoch now (some aircraft) p ≡ (true, q) =
      begin_epoch-opened uuid first_256 client epoch now aircraft p active
      ∙ open_epoch-opened uuid first_256 client epoch now aircraft p catalog sent c d h k in
    let (t, a, taken) =
      lists-Taken epoch aircraft entries contents catalog sent q s
        (catalog-sent catalog is.by_identity) (values-sent sent)
        (length-at_least_one (chunks (values catalog) 256)) (length-at_least_one (chunks sent 1024))
        refl
        (omega (
          arith,
          size,
          length-snapshot_messages epoch aircraft (length contents) 0 (0 + length first) contents,
        ))
        (ap (λ n. first ++ snapshot_messages epoch aircraft (length contents) 0 n contents)
          (omega (arith, size)))
        other is.once lc dv lv v in
    let received =
      receives-Sound uuid payload_size (first ++ then_sent) s
        (All-append (Sound uuid) first then_sent h k)
        (subst
          (λ (r : Bool × TelemetryPublisher).
            All (λ m. payload_size m ≤ max_payload_bytes) r.1.initial)
          at_end small) in
    subst
      (λ (r : Bool × TelemetryPublisher).
        (r.0 ≡ true)
        × ((t : Ingress) × (receives uuid payload_size r.1.initial s ≡ some t)
            × Taken r.1 epoch aircraft sent t))
      (sym at_end) (refl, (t, received ∙ a, taken))
