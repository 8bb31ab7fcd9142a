-- ===== src/Ingress/Batches.antt =====
-- What the batches that the ingress hands on carry, and the order of the messages that it accepts.
use dcs_copilot.Prelude.{
  ℕ, ◌+◌, String, ◌≡◌, refl, subst, ◌⊎◌, inl, inr, true, false, Option, none, some, List, [], ◌∷◌,
  arith, All,
}
use dcs_copilot.Prelude.Map.{Map, values}
use dcs_copilot.Protocol.Telemetry.{
  ControlIdentity, CatalogEntry, DecodedValue, TelemetryCatalog, TelemetrySnapshot, TelemetryDelta,
}
use dcs_copilot.Ingress.{
  catalog_message, snapshot_message, delta_message, malformed, other, Ingress, TelemetryBatch, ok,
  validate_all, accept_catalog, accept_snapshot, accept_delta, Message, accept, same_option,
  follows, Result,
}
use dcs_copilot.Ingress.Keeps.{accept-IsValid}
use dcs_copilot.Ingress.Valid.{Vouched, IsValid}

validate_all_sound :
    (c : Map ControlIdentity CatalogEntry) (vs : List DecodedValue)
    → validate_all c vs ≡ none
    → All (Vouched c) vs
unfolding validate_all
validate_all_sound c [] h = tt
validate_all_sound c (v ∷ vs) h = ground (arith, validate_all_sound c vs)

snapshot_contents :
    (m : TelemetrySnapshot) (s t : Ingress) (b : TelemetryBatch)
    → accept_snapshot m s ≡ (ok (some b), t)
    → b.contents ≡ values t.snapshot
unfolding accept_snapshot
snapshot_contents m s t b e = ground arith

delta_contents :
    (m : TelemetryDelta) (s t : Ingress) (b : TelemetryBatch)
    → accept_delta m s ≡ (ok (some b), t)
    → (b.contents ≡ m.contents) × (validate_all t.catalog m.contents ≡ none)
unfolding accept_delta
delta_contents m s t b e = ground arith

catalog_contents :
    (m : TelemetryCatalog) (s t : Ingress) (b : TelemetryBatch)
    → accept_catalog m s ≡ (ok (some b), t)
    → b.contents ≡ []
unfolding accept_catalog
catalog_contents m s t b e = ground arith

snapshot-Vouched :
    (m : TelemetrySnapshot) (s : Ingress)
    → IsValid s
    → (r : Result (Option TelemetryBatch)) (t : Ingress) → accept (snapshot_message m) s ≡ (r, t)
    → All (Vouched t.catalog) (values t.snapshot)
snapshot-Vouched m s v r t e =
    subst
      (λ (q : Result (Option TelemetryBatch) × Ingress).
        All (Vouched q.1.catalog) (values q.1.snapshot))
      e (accept-IsValid (snapshot_message m) s v).vouched

-- Every value of every batch that a valid ingress hands on is vouched for by the catalog of its
-- epoch: its control is known, and an available value has the type of its output and lies within the
-- bound of its entry.
pub accept-Vouched :
    (m : Message) (s t : Ingress) (b : TelemetryBatch)
    → IsValid s
    → accept m s ≡ (ok (some b), t)
    → All (Vouched t.catalog) b.contents
unfolding accept
accept-Vouched (catalog_message m) s t b v e = rw (catalog_contents m s t b e) tt
accept-Vouched (snapshot_message m) s t b v e =
    rw (snapshot_contents m s t b e) (snapshot-Vouched m s v (ok (some b)) t e)
accept-Vouched (delta_message m) s t b v e =
    let (same, fine) = delta_contents m s t b e in
    rw same (validate_all_sound t.catalog m.contents fine)
accept-Vouched malformed s t b v e = cc
accept-Vouched other s t b v e = cc

abbrev pub sequence_of : Message → ℕ
sequence_of (catalog_message m) = m.sequence
sequence_of (snapshot_message m) = m.sequence
sequence_of (delta_message m) = m.sequence
sequence_of _ = 0

abbrev pub epoch_of : Message → String
epoch_of (catalog_message m) = m.epoch
epoch_of (snapshot_message m) = m.epoch
epoch_of (delta_message m) = m.epoch
epoch_of _ = ""

-- A message that opens another epoch and counts from 0, or one of the current epoch that follows the
-- last accepted message directly.
abbrev pub InTurn : Message → Ingress → Type 0
InTurn m s =
    ((same_option s.epoch (epoch_of m) ≡ false) × (sequence_of m ≡ 0))
    ⊎ ((same_option s.epoch (epoch_of m) ≡ true)
        × (n : ℕ) × (s.last_sequence ≡ some n)
        × (sequence_of m ≡ n + 1))

in_sequence : (o : Option ℕ) (q : ℕ) → follows o q ≡ true → (n : ℕ) × (o ≡ some n) × (q ≡ n + 1)
unfolding follows
in_sequence none q h = cc
in_sequence (some n) q h = (n, refl, ground (arith, h))

catalog_turn :
    (m : TelemetryCatalog) (s t : Ingress) (b : Option TelemetryBatch)
    → accept_catalog m s ≡ (ok b, t)
    → (((same_option s.epoch m.epoch ≡ false) × (m.sequence ≡ 0))
        ⊎ ((same_option s.epoch m.epoch ≡ true) × (follows s.last_sequence m.sequence ≡ true)))
      × (t.last_sequence ≡ some m.sequence)
unfolding accept_catalog
catalog_turn m s t b e = ground arith

snapshot_turn :
    (m : TelemetrySnapshot) (s t : Ingress) (b : Option TelemetryBatch)
    → accept_snapshot m s ≡ (ok b, t)
    → (same_option s.epoch m.epoch ≡ true)
      × (follows s.last_sequence m.sequence ≡ true)
      × (t.last_sequence ≡ some m.sequence)
unfolding accept_snapshot
snapshot_turn m s t b e = ground arith

delta_turn :
    (m : TelemetryDelta) (s t : Ingress) (b : Option TelemetryBatch)
    → accept_delta m s ≡ (ok b, t)
    → (same_option s.epoch m.epoch ≡ true)
      × (follows s.last_sequence m.sequence ≡ true)
      × (t.last_sequence ≡ some m.sequence)
unfolding accept_delta
delta_turn m s t b e = ground arith

turn :
    (m : Message) (s : Ingress)
    → ((same_option s.epoch (epoch_of m) ≡ false) × (sequence_of m ≡ 0))
      ⊎ ((same_option s.epoch (epoch_of m) ≡ true)
          × (follows s.last_sequence (sequence_of m) ≡ true))
    → InTurn m s
turn m s (inl h) = inl h
turn m s (inr h) =
    let (n, e, f) = in_sequence s.last_sequence (sequence_of m) h.1 in inr (h.0, n, e, f)

-- A message is accepted only in its turn: it opens another epoch with number 0, or belongs to the
-- current epoch and has the number directly after the last one accepted. Its number is then the last
-- one accepted.
pub accept-InTurn :
    (m : Message) (s t : Ingress) (b : Option TelemetryBatch)
    → accept m s ≡ (ok b, t)
    → InTurn m s × (t.last_sequence ≡ some (sequence_of m))
unfolding accept
accept-InTurn (catalog_message m) s t b e =
    let (h, k) = catalog_turn m s t b e in (turn (catalog_message m) s h, k)
accept-InTurn (snapshot_message m) s t b e =
    let (h, f, k) = snapshot_turn m s t b e in (turn (snapshot_message m) s (inr (h, f)), k)
accept-InTurn (delta_message m) s t b e =
    let (h, f, k) = delta_turn m s t b e in (turn (delta_message m) s (inr (h, f)), k)
accept-InTurn malformed s t b e = cc
accept-InTurn other s t b e = cc
