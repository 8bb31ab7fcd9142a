-- ===== src/Ingress/Keeps.antt =====
-- Every message, accepted or refused, leaves the ingress valid.
use dcs_copilot.Prelude.{
  ℕ, ◌+◌, ◌≤◌, ◌<◌, String, ◌≡◌, refl, inl, inr, Bool, true, false, ◌&&◌, ◌||◌, not, Option, none,
  some, List, [], ◌∷◌, arith, leb, ◌==◌, Bool-cases, length,
}
use dcs_copilot.Prelude.Map.{Map, lookup, insert}
use dcs_copilot.Protocol.Telemetry.{
  ControlIdentity, CatalogEntry, DecodedValue, TelemetryCatalog, TelemetrySnapshot, TelemetryDelta,
  identity_eq,
}
use dcs_copilot.Ingress.{
  Ingress, IngressError, Result, require, max_session_controls, is_some, is_count, require_context,
  require_sequence, catalog_complete, agreed, add_entries, add_values, unless, validate_value,
  open_catalog, accept_catalog, same_option, note_catalog_count, finish_catalog,
  note_snapshot_count, check_delta, finish_delta, finish_snapshot, accept_snapshot, accept_delta,
  Message, catalog_message, snapshot_message, delta_message, malformed, other, accept,
  bad_epoch_start, catalog_closed, chunk_order, chunk_count_changed, catalog_incomplete,
  already_ready, not_ready, delta_chunked,
}
use dcs_copilot.Ingress.Valid.{
  Vouched, AllVouched, Unopened, IsValid, Post, Ensures, Ensures-bind, Ensures-weaken, Post-IsValid,
  Ensures-require, Closed, Closed-change, start_epoch-Closed, add_entries-Closed,
}

require_context-Ensures :
    (P : Ingress → Type 0) (epoch aircraft : String)
    → ((s : Ingress) → P s → IsValid s)
    → Ensures P (require_context epoch aircraft) P
unfolding require_context
require_context-Ensures P epoch aircraft valid s p = ground (arith, valid s p)

require_sequence-Ensures :
    (P : Ingress → Type 0) (sequence : ℕ)
    → ((s : Ingress) → P s → IsValid s)
    → Ensures P (require_sequence sequence) P
unfolding require_sequence
require_sequence-Ensures P sequence valid s p = ground (arith, valid s p)

not_opened :
    (s : Ingress)
    → not (s.ready || is_some s.snapshot_chunk_count) ≡ true
    → s.snapshot_chunk_count ≡ none
not_opened s h = ground arith

-- A test whose answer is not needed afterwards.
Ensures-test :
    (P : Ingress → Type 0) (test : Ingress → Bool) (e : IngressError)
    → ((s : Ingress) → P s → IsValid s)
    → Ensures P (λ s. require (test s) e s) P
Ensures-test P test e valid =
    Ensures-weaken P (λ s. P s × (test s ≡ true)) P (λ s. require (test s) e s) (λ s h. h.0)
      (Ensures-require P test e valid)

IsValid-self : (s : Ingress) → IsValid s → IsValid s
IsValid-self s v = v

IsValid-Closed : (s : Ingress) → Closed s → IsValid s
IsValid-Closed s c = c.0

open_catalog-Closed : (b : Bool) (m : TelemetryCatalog) → Ensures IsValid (open_catalog b m) Closed
unfolding open_catalog
open_catalog-Closed true m =
    Ensures-bind IsValid IsValid Closed
      (require ((m.sequence == 0) && (m.chunk_index == 0)) bad_epoch_start) _
      (Ensures-test IsValid (λ _. (m.sequence == 0) && (m.chunk_index == 0)) bad_epoch_start
        IsValid-self)
      (λ _ s v. start_epoch-Closed m.epoch m.aircraft s)
open_catalog-Closed false m =
    Ensures-bind IsValid IsValid Closed (require_context m.epoch m.aircraft) _
      (require_context-Ensures IsValid m.epoch m.aircraft IsValid-self)
      λ _.
        Ensures-bind IsValid IsValid Closed (require_sequence m.sequence) _
          (require_sequence-Ensures IsValid m.sequence IsValid-self)
          λ _.
            Ensures-weaken IsValid
              (λ s. IsValid s × (not (s.ready || is_some s.snapshot_chunk_count) ≡ true)) Closed _
              (λ s h. (h.0, not_opened s h.1))
              (Ensures-require IsValid (λ s. not (s.ready || is_some s.snapshot_chunk_count))
                catalog_closed IsValid-self)

note_catalog_count-Closed : (n : ℕ) → Ensures Closed (note_catalog_count n) Closed
unfolding note_catalog_count
note_catalog_count-Closed n s c = Closed-change s _ c refl refl refl refl c.0.catalog_bound

finish_catalog-Ensures :
    (b : Bool) (m : TelemetryCatalog) → Ensures Closed (finish_catalog b m) IsValid
unfolding finish_catalog
finish_catalog-Ensures b m s c = (Closed-change s _ c refl refl refl refl c.0.catalog_bound).0

accept_catalog-Ensures : (m : TelemetryCatalog) → Ensures IsValid (accept_catalog m) IsValid
unfolding accept_catalog
accept_catalog-Ensures m s v =
    let fresh = not (same_option s.epoch m.epoch) in
    Ensures-bind IsValid Closed IsValid (open_catalog fresh m) _ (open_catalog-Closed fresh m)
      (λ _.
        Ensures-bind Closed Closed IsValid
          (λ t. require (m.chunk_index == t.catalog_chunks) chunk_order t) _
          (Ensures-test Closed (λ t. m.chunk_index == t.catalog_chunks) chunk_order IsValid-Closed)
          λ _.
            Ensures-bind Closed Closed IsValid
              (λ t. require (agreed t.catalog_chunk_count m.chunk_count) chunk_count_changed t) _
              (Ensures-test Closed (λ t. agreed t.catalog_chunk_count m.chunk_count)
                chunk_count_changed IsValid-Closed)
              λ _.
                Ensures-bind Closed Closed IsValid (note_catalog_count m.chunk_count) _
                  (note_catalog_count-Closed m.chunk_count)
                  λ _.
                    Ensures-bind Closed Closed IsValid (add_entries m.entries)
                      (λ _. finish_catalog fresh m) (add_entries-Closed m.entries)
                      λ _. finish_catalog-Ensures fresh m)
      s v

-- A complete catalog and no complete snapshot, with some chunk of the snapshot begun.
abbrev Open : Ingress → Type 0
Open s = IsValid s × (s.ready ≡ false) × (catalog_complete s ≡ true)

abbrev Begun : Ingress → Type 0
Begun s = Open s × (is_some s.snapshot_chunk_count ≡ true)

IsValid-Begun : (s : Ingress) → Begun s → IsValid s
IsValid-Begun s b = b.0.0

note_snapshot_count-Begun : (n : ℕ) → Ensures Open (note_snapshot_count n) Begun
unfolding note_snapshot_count catalog_complete
note_snapshot_count-Begun n s (v, r, c) = (
  (
    record {
      catalog_bound = v.catalog_bound;
      snapshot_bound = v.snapshot_bound;
      vouched = v.vouched;
      unopened = tt;
      whole = λ _. c;
      finished = rw r (λ e. cc);
    },
    r,
    c,
  ),
  refl,
)

length-insert :
    (k : ControlIdentity) (w : DecodedValue) (m : Map ControlIdentity DecodedValue)
    → length (insert k w m) ≤ length m + 1
unfolding insert
length-insert k w [] = omega arith
length-insert k w ((j, u) ∷ m) = ground (arith, length-insert k w m)

AllVouched-insert :
    (c : Map ControlIdentity CatalogEntry) (k : ControlIdentity) (w : DecodedValue)
    (m : Map ControlIdentity DecodedValue)
    → Vouched c w
    → AllVouched c m
    → AllVouched c (insert k w m)
unfolding insert
AllVouched-insert c k w [] h a = (h, tt)
AllVouched-insert c k w ((j, u) ∷ m) h a = ground (arith, AllVouched-insert c k w m h a.1)

unless-Post :
    (o : Option IngressError) (next : Result (Unit {0}) × Ingress) (s : Ingress)
    → IsValid s
    → (o ≡ none → Post Begun next)
    → Post Begun (unless o next s)
unfolding unless
unless-Post none next s v h = h refl
unless-Post (some e) next s v h = v

Unopened-begun :
    (o : Option ℕ) (m : Map ControlIdentity DecodedValue) (ready : Bool) (n : ℕ)
    → is_some o ≡ true
    → Unopened o m ready n
Unopened-begun none m ready n h = cc
Unopened-begun (some c) m ready n h = tt

stored-Begun :
    (w : DecodedValue) (s : Ingress)
    → Begun s
    → Vouched s.catalog w
    → length s.snapshot < max_session_controls
    → Begun (record s { snapshot = insert w.identity w s.snapshot })
unfolding catalog_complete
stored-Begun w s ((v, r, c), b) fine room = (
  (
    record {
      catalog_bound = v.catalog_bound;
      snapshot_bound = omega (arith, length-insert w.identity w s.snapshot);
      vouched = AllVouched-insert s.catalog w.identity w s.snapshot fine v.vouched;
      unopened = Unopened-begun s.snapshot_chunk_count _ s.ready s.snapshot_chunks b;
      whole = v.whole;
      finished = v.finished;
    },
    r,
    c,
  ),
  b,
)

add_values-Begun : (vs : List DecodedValue) → Ensures Begun (add_values vs) Begun
unfolding add_values
add_values-Begun [] s b = b
add_values-Begun (w ∷ rest) s b = unless-Post (validate_value s.catalog w) _ s b.0.0 λ fine.
    elim (Bool-cases (is_some (lookup w.identity s.snapshot))) [
      | inl y ↦ rw y b.0.0
      | inr z ↦ rw z (elim (Bool-cases (leb max_session_controls (length s.snapshot))) [
        | inl full ↦ rw full b.0.0
        | inr room ↦
            rw room (add_values-Begun rest _ (stored-Begun w s b fine (ground (arith, room))))
      ])
    ]

finish_snapshot-Ensures : (m : TelemetrySnapshot) → Ensures Begun (finish_snapshot m) IsValid
unfolding finish_snapshot catalog_complete
finish_snapshot-Ensures m s ((v, r, c), b) =
    elim (Bool-cases (is_count s.snapshot_chunk_count (s.snapshot_chunks + 1))) [
      | inl y ↦ rw y (record {
        catalog_bound = v.catalog_bound;
        snapshot_bound = v.snapshot_bound;
        vouched = v.vouched;
        unopened = Unopened-begun s.snapshot_chunk_count s.snapshot true (s.snapshot_chunks + 1) b;
        whole = v.whole;
        finished = λ _. y;
      })
      | inr z ↦ rw z (record {
        catalog_bound = v.catalog_bound;
        snapshot_bound = v.snapshot_bound;
        vouched = v.vouched;
        unopened =
            Unopened-begun s.snapshot_chunk_count s.snapshot s.ready (s.snapshot_chunks + 1) b;
        whole = v.whole;
        finished = rw r (λ e. cc);
      })
    ]

-- What the tests of a snapshot message have established so far.
abbrev Complete : Ingress → Type 0
Complete s = IsValid s × (catalog_complete s ≡ true)

IsValid-Complete : (s : Ingress) → Complete s → IsValid s
IsValid-Complete s c = c.0

IsValid-Open : (s : Ingress) → Open s → IsValid s
IsValid-Open s o = o.0

idle-Open : (s : Ingress) → Complete s × (not s.ready ≡ true) → Open s
idle-Open s h = (h.0.0, ground (arith, h.1), h.0.1)

accept_snapshot-Ensures : (m : TelemetrySnapshot) → Ensures IsValid (accept_snapshot m) IsValid
unfolding accept_snapshot
accept_snapshot-Ensures m =
    Ensures-bind IsValid IsValid IsValid (require_context m.epoch m.aircraft) _
      (require_context-Ensures IsValid m.epoch m.aircraft IsValid-self)
      λ _.
        Ensures-bind IsValid IsValid IsValid (require_sequence m.sequence) _
          (require_sequence-Ensures IsValid m.sequence IsValid-self)
          λ _.
            Ensures-bind IsValid Complete IsValid
              (λ t. require (catalog_complete t) catalog_incomplete t) _
              (Ensures-require IsValid catalog_complete catalog_incomplete IsValid-self)
              λ _.
                Ensures-bind Complete Open IsValid (λ t. require (not t.ready) already_ready t) _
                  (Ensures-weaken Complete (λ t. Complete t × (not t.ready ≡ true)) Open
                    (λ t. require (not t.ready) already_ready t) idle-Open
                    (Ensures-require Complete (λ t. not t.ready) already_ready IsValid-Complete))
                  λ _.
                    Ensures-bind Open Open IsValid
                      (λ t. require (m.chunk_index == t.snapshot_chunks) chunk_order t) _
                      (Ensures-test Open (λ t. m.chunk_index == t.snapshot_chunks) chunk_order
                        IsValid-Open)
                      λ _.
                        Ensures-bind Open Open IsValid
                          (λ t.
                            require (agreed t.snapshot_chunk_count m.chunk_count)
                              chunk_count_changed t)
                          _
                          (Ensures-test Open (λ t. agreed t.snapshot_chunk_count m.chunk_count)
                            chunk_count_changed IsValid-Open)
                          λ _.
                            Ensures-bind Open Begun IsValid (note_snapshot_count m.chunk_count) _
                              (note_snapshot_count-Begun m.chunk_count)
                              λ _.
                                Ensures-bind Begun Begun IsValid (add_values m.contents) _
                                  (add_values-Begun m.contents) λ _. finish_snapshot-Ensures m

check_delta-Ensures : (m : TelemetryDelta) → Ensures IsValid (check_delta m) IsValid
unfolding check_delta
check_delta-Ensures m s v = ground (arith, v)

finish_delta-Ensures : (m : TelemetryDelta) → Ensures IsValid (finish_delta m) IsValid
unfolding finish_delta catalog_complete
finish_delta-Ensures m s v = record {
  catalog_bound = v.catalog_bound;
  snapshot_bound = v.snapshot_bound;
  vouched = v.vouched;
  unopened = v.unopened;
  whole = v.whole;
  finished = v.finished;
}

accept_delta-Ensures : (m : TelemetryDelta) → Ensures IsValid (accept_delta m) IsValid
unfolding accept_delta
accept_delta-Ensures m =
    Ensures-bind IsValid IsValid IsValid (require_context m.epoch m.aircraft) _
      (require_context-Ensures IsValid m.epoch m.aircraft IsValid-self)
      λ _.
        Ensures-bind IsValid IsValid IsValid (require_sequence m.sequence) _
          (require_sequence-Ensures IsValid m.sequence IsValid-self)
          λ _.
            Ensures-bind IsValid IsValid IsValid (λ t. require t.ready not_ready t) _
              (Ensures-test IsValid (λ t. t.ready) not_ready IsValid-self)
              λ _.
                Ensures-bind IsValid IsValid IsValid
                  (require ((m.chunk_index == 0) && (m.chunk_count == 1)) delta_chunked) _
                  (Ensures-test IsValid (λ _. (m.chunk_index == 0) && (m.chunk_count == 1))
                    delta_chunked IsValid-self)
                  λ _.
                    Ensures-bind IsValid IsValid IsValid (check_delta m) (λ _. finish_delta m)
                      (check_delta-Ensures m) λ _. finish_delta-Ensures m

-- Whatever message arrives, and whether it is accepted or refused, a valid ingress stays valid: the
-- catalog and the snapshot hold at most 4096 controls each, every snapshot value is vouched for by
-- the catalog, a snapshot is begun only after the complete catalog, and the ingress is ready only
-- once all announced snapshot chunks are there.
pub accept-IsValid : (m : Message) (s : Ingress) → IsValid s → IsValid (accept m s).1
unfolding accept
accept-IsValid (catalog_message m) s v = Post-IsValid _ (accept_catalog-Ensures m s v)
accept-IsValid (snapshot_message m) s v = Post-IsValid _ (accept_snapshot-Ensures m s v)
accept-IsValid (delta_message m) s v = Post-IsValid _ (accept_delta-Ensures m s v)
accept-IsValid malformed s v = v
accept-IsValid other s v = v
