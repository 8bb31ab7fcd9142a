-- ===== src/Bios/Parser/Runs.antt =====
-- Pending sync bytes: a stream without a run of four is handed on byte by byte.
use dcs_copilot.Prelude.{
  >>=-some, ◌>>=◌, >>=-assoc, ℕ, zero, suc, ◌+◌, ◌≡◌, refl, sym, ap, ◌∙◌, inl, inr, true, false,
  ◌&&◌, some, List, [], ◌∷◌, ◌++◌, arith, ltb, ◌==◌, ==→eq, Bool-cases,
}
use dcs_copilot.Bios.State.{apply_write}
use dcs_copilot.Bios.Parser.{
  Parser, ParserState, wait_for_sync, address_low, address_high, count_low, count_high,
  payload_bytes, consume_in, consume, flush_run, feed_byte, feed, sync_length, sync_byte,
}
use dcs_copilot.Bios.Parser.Encode.{stamp, calm, consume_all, consume_all-append}

-- `consume` neither reads nor changes the run of sync bytes.
pub consume_in-run :
    (s : ParserState) (p : Parser) (k v now : ℕ)
    → consume_in s (record p { sync_run = k }) v now
      ≡ (consume_in s p v now >>= λ q. some (record q { sync_run = k }))
unfolding consume_in apply_write
consume_in-run wait_for_sync p k v now = refl
consume_in-run address_low p k v now = refl
consume_in-run address_high p k v now = ground arith
consume_in-run count_low p k v now = refl
consume_in-run count_high p k v now = ground arith
consume_in-run payload_bytes p k v now = ground arith

pub consume-run :
    (p : Parser) (k v now : ℕ)
    → consume (record p { sync_run = k }) v now
      ≡ (consume p v now >>= λ q. some (record q { sync_run = k }))
unfolding consume
consume-run p k v now = consume_in-run p.state p k v now

abbrev pub pending : ℕ → List ℕ → List ℕ
pending zero vs = vs
pending (suc k) vs = sync_byte ∷ pending k vs

pub pending-sync : (k : ℕ) (vs : List ℕ) → pending (suc k) vs ≡ pending k (sync_byte ∷ vs)
pending-sync zero vs = refl
pending-sync (suc k) vs = ap (λ l. sync_byte ∷ l) (pending-sync k vs)

abbrev pub at_run : ℕ → Parser → Parser
at_run k p = record p { sync_run = k }

pub flush_run-consume_all :
    (k : ℕ) (p : Parser) (vs : List ℕ) (now : ℕ)
    → (flush_run k (at_run k p) now >>= λ q. consume_all q vs now)
      ≡ consume_all (at_run 0 p) (pending k vs) now
unfolding flush_run consume_all
flush_run-consume_all zero p vs now = refl
flush_run-consume_all (suc k) p vs now =
    rw (consume-run p (suc k) sync_byte now, consume-run p 0 sync_byte now)
      (simp (>>=-assoc, λ (q : Parser). flush_run-consume_all k q vs now))

pub consume_all-run :
    (p : Parser) (vs : List ℕ) (now k : ℕ)
    → consume_all (at_run k p) vs now ≡ (consume_all p vs now >>= λ q. some (at_run k q))
unfolding consume_all
consume_all-run p [] now k = refl
consume_all-run p (v ∷ vs) now k =
    rw (consume-run p k v now) (simp (>>=-assoc, λ (q : Parser). consume_all-run q vs now k))

pub pending-append : (k v : ℕ) (vs : List ℕ) → pending k (v ∷ vs) ≡ pending k (v ∷ []) ++ vs
pending-append zero v vs = refl
pending-append (suc k) v vs = ap (λ l. sync_byte ∷ l) (pending-append k v vs)

pub consume_all-one : (p : Parser) (v now : ℕ) → consume_all p (v ∷ []) now ≡ consume p v now
unfolding consume_all
consume_all-one p v now = >>=-some (consume p v now)

pub flush_then :
    (k v : ℕ) (p : Parser) (now : ℕ)
    → (flush_run k (at_run k p) now >>= λ q. consume q v now)
      ≡ (consume_all p (pending k (v ∷ [])) now >>= λ q. some (at_run 0 q))
flush_then k v p now =
    simp consume_all-one at (flush_run-consume_all k p (v ∷ []) now)
    ∙ consume_all-run p (pending k (v ∷ [])) now 0

pub feed_byte-other :
    (k v : ℕ) (p : Parser) (now : ℕ)
    → (v == sync_byte) ≡ false
    → feed_byte (at_run k p) v now
      ≡ (consume_all p (pending k (v ∷ [])) now >>= λ q. some (at_run 0 q, []))
unfolding feed_byte
feed_byte-other k v p now z = rw z (
    sym (>>=-assoc (flush_run k (at_run k p) now) (λ q. consume q v now) (λ r. some (r, [])))
    ∙ rw (flush_then k v p now) (simp >>=-assoc))

pub feed_byte-sync :
    (k v : ℕ) (p : Parser) (now : ℕ)
    → (v == sync_byte) ≡ true
    → (k + 1 == sync_length) ≡ false
    → feed_byte (at_run k p) v now ≡ some (at_run (suc k) p, [])
unfolding feed_byte
feed_byte-sync k v p now y z = let e : k + 1 ≡ suc k = omega arith in rw y (rw z (rw e))

pub calm-sync :
    (k v : ℕ) (vs : List ℕ)
    → (v == sync_byte) ≡ true
    → calm k (v ∷ vs) ≡ true
    → ((k + 1 == sync_length) ≡ false) × (calm (suc k) vs ≡ true)
calm-sync k v vs y h =
    let both : (ltb (k + 1) sync_length && calm (k + 1) vs) ≡ true = rw y at h in
    let e : k + 1 ≡ suc k = omega arith in (ground arith, rw (← e) (ground arith))

-- A stream with no run of four sync bytes is handed on byte by byte.
pub feed-calm :
    (k : ℕ) (p : Parser) (vs : List ℕ) (now : ℕ)
    → calm k vs ≡ true
    → feed (at_run k p) (stamp now vs)
      ≡ (consume_all (at_run 0 p) (pending k vs) now >>= λ q. some (q, []))
unfolding feed
feed-calm zero p [] now h = unfold consume_all in refl
feed-calm (suc k) p [] now h = absurd (ground (arith, h))
feed-calm k p (v ∷ vs) now h = elim (Bool-cases (v == sync_byte)) [
  | inl y ↦
      let (few, still) = calm-sync k v vs y h in
      rw (feed_byte-sync k v p now y few) (
        >>=-some _
        ∙ feed-calm (suc k) p vs now still
        ∙ rw (==→eq v sync_byte y, ← pending-sync k vs))
  | inr z ↦
      let quiet : calm 0 vs ≡ true = rw z at h in
      rw (feed_byte-other k v p now z, pending-append k v vs)
        (simp (>>=-assoc, consume_all-append, consume_all-run)
          (simp (λ (q : Parser). feed-calm 0 q vs now quiet, >>=-assoc, >>=-some, consume_all-run)))
]
