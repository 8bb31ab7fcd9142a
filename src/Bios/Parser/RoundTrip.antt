-- ===== src/Bios/Parser/RoundTrip.antt =====
-- A frame that is written out by the protocol's layout is read back by the parser.
use dcs_copilot.Prelude.{
  >>=-some, ◌>>=◌, ℕ, ◌+◌, ◌≡◌, refl, sym, ap, subst, ◌∙◌, true, some, List, [], ◌∷◌, ◌++◌, All,
}
use dcs_copilot.Bios.State.{BiosState, StateWrite}
use dcs_copilot.Bios.Parser.{
  Parser, address_low, close_frame, handle_sync, feed_byte, feed, to_list,
}
use mathlib.Core.List.{append_assoc, append-nil}
use dcs_copilot.Bios.Parser.Chunks.{feed-append}
use dcs_copilot.Bios.Parser.Encode.{
  stamp, calm, sync_bytes, encode, Sound, apply_all, consume_all, after, after_all, body,
}
use dcs_copilot.Bios.Parser.Runs.{at_run, feed-calm}

stamp-append : (now : ℕ) (xs ys : List ℕ) → stamp now (xs ++ ys) ≡ stamp now xs ++ stamp now ys
stamp-append now [] ys = refl
stamp-append now (x ∷ xs) ys = rw (stamp-append now xs ys)

-- The fields that the writes of a frame leave alone, and those that they change.
record Done (p q : Parser) (s : BiosState) (new : List StateWrite) : Type 0 where
  low : q.state ≡ address_low
  run : q.sync_run ≡ p.sync_run
  started : q.frame_started ≡ p.frame_started
  errors : q.error_count ≡ p.error_count
  frames : q.frame_count ≡ p.frame_count
  memory : q.bios_state ≡ s
  writes : q.frame_writes ≡ p.frame_writes ++ new

after_all-Done :
    (p : Parser) (ws : List (ℕ × List ℕ)) (now : ℕ)
    → Done p
        (after_all p ws now)
        (apply_all now p.bios_state ws).0
        (apply_all now p.bios_state ws).1
unfolding after_all
after_all-Done p [] now = record {
  low = refl;
  run = refl;
  started = refl;
  errors = refl;
  frames = refl;
  memory = refl;
  writes = sym (append-nil p.frame_writes);
}
after_all-Done p ((a, d) ∷ ws) now =
    let r = after_all-Done (after p a d now) ws now in
    record {
      low = r.low;
      run = r.run;
      started = r.started;
      errors = r.errors;
      frames = r.frames;
      memory = r.memory;
      writes = r.writes ∙ append_assoc p.frame_writes _ _;
    }

four_syncs :
    (p : Parser) (now : ℕ)
    → feed (at_run 0 p) (stamp now sync_bytes)
      ≡ some ((handle_sync (at_run 4 p)).0, to_list (handle_sync (at_run 4 p)).1)
unfolding feed feed_byte
four_syncs p now = simp append-nil

at_run_self : (k : ℕ) (p : Parser) → p.sync_run ≡ k → at_run k p ≡ p
at_run_self k p e = λ i. record p { sync_run = sym e i }

-- A parser with no pending sync bytes, between two writes of a frame.
record Between (p : Parser) : Type 0 where
  low : p.state ≡ address_low
  run : p.sync_run ≡ 0
  started : p.frame_started ≡ true

close-Between :
    (p : Parser) (now : ℕ)
    → Between p
    → (q : Parser) × (feed p (stamp now sync_bytes)
        ≡ some (q, record { number = p.frame_count + 1; writes = p.frame_writes } ∷ []))
      × (q.bios_state ≡ p.bios_state)
      × (q.error_count ≡ p.error_count)
close-Between p now b =
    let e =
      subst
        (λ r.
          feed r (stamp now sync_bytes)
          ≡ some ((handle_sync (at_run 4 p)).0, to_list (handle_sync (at_run 4 p)).1))
        (at_run_self 0 p b.run) (four_syncs p now) in
    (
      (handle_sync (at_run 4 p)).0,
      e ∙ unfold handle_sync close_frame in rw (b.started, b.low),
      unfold handle_sync close_frame in rw (b.started, b.low),
      unfold handle_sync close_frame in rw (b.started, b.low),
    )

consume_all-encode :
    (p : Parser) (ws : List (ℕ × List ℕ)) (now : ℕ)
    → All Sound ws
    → p.state ≡ address_low
    → consume_all p (encode ws) now ≡ some (after_all p ws now)
consume_all-encode p ws now h low =
    subst (λ r. consume_all r (encode ws) now ≡ some (after_all p ws now))
      (λ i. record p { state = sym low i }) (body p ws now h)

feed-writes :
    (p : Parser) (ws : List (ℕ × List ℕ)) (now : ℕ)
    → All Sound ws
    → calm 0 (encode ws) ≡ true
    → Between p
    → feed p (stamp now (encode ws)) ≡ some (after_all p ws now, [])
feed-writes p ws now h c b =
    subst
      (λ r. feed r (stamp now (encode ws)) ≡ (consume_all r (encode ws) now >>= λ q. some (q, [])))
      (at_run_self 0 p b.run) (feed-calm 0 p (encode ws) now c)
    ∙ rw (consume_all-encode p ws now h b.low)

feed-body :
    (p : Parser) (ws : List (ℕ × List ℕ)) (now : ℕ)
    → All Sound ws
    → calm 0 (encode ws) ≡ true
    → Between p
    → feed p (stamp now (encode ws ++ sync_bytes))
      ≡ feed (after_all p ws now) (stamp now sync_bytes)
feed-body p ws now h c b =
    rw
      (
        stamp-append now (encode ws) sync_bytes,
        feed-append p (stamp now (encode ws)) (stamp now sync_bytes),
      )
      (rw (feed-writes p ws now h c b) (>>=-some _))

-- In a synchronized parser (just after any four sync bytes), the encoding of sound writes whose
-- bytes hold no run of four sync bytes and end in none, followed by four sync bytes, completes
-- exactly one frame: it carries those writes in their order and the next frame number. The memory
-- is what the writes make of it one after the other, and no error is counted.
pub feed-encode :
    (p : Parser) (ws : List (ℕ × List ℕ)) (now : ℕ)
    → All Sound ws
    → calm 0 (encode ws) ≡ true
    → let o = (handle_sync p).0 in
      let (memory, writes) = apply_all now o.bios_state ws in
      (q : Parser) × (feed o (stamp now (encode ws ++ sync_bytes))
        ≡ some (q, record { number = o.frame_count + 1; writes = writes } ∷ []))
      × (q.bios_state ≡ memory)
      × (q.error_count ≡ o.error_count)
feed-encode p ws now h c =
    let o = (handle_sync p).0 in
    let d = after_all-Done o ws now in
    let b : Between o = unfold handle_sync in record { low = refl; run = refl; started = refl } in
    let fresh : o.frame_writes ≡ [] = unfold handle_sync in refl in
    let (q, e, memory, errors) =
      close-Between (after_all o ws now) now
        (record { low = d.low; run = d.run ∙ b.run; started = d.started ∙ b.started }) in
    (
      q,
      feed-body o ws now h c b ∙ e ∙ (λ i. some (
        q,
        record {
          number = d.frames i + 1;
          writes = (d.writes ∙ ap (λ l. l ++ (apply_all now o.bios_state ws).1) fresh) i;
        }
            ∷ [],
      )),
      memory ∙ d.memory,
      errors ∙ d.errors,
    )
