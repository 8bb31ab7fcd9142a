-- ===== src/Bios/Parser/Valid.antt =====
-- The parser's invariant, and that no stream makes it raise.
use dcs_copilot.Prelude.{
  ℕ, zero, suc, ◌+◌, ◌*◌, ◌%◌, ◌≤◌, ◌<◌, ◌≡◌, refl, sym, subst, ◌≢◌, inl, inr, Bool, true, false,
  List, [], ◌∷◌, ◌++◌, arith, ltb, ◌==◌, if◌then◌else◌, ==→eq, tests, Bool-cases, length,
  length-append, All, All-append, Returns, Returns-bind,
}
use dcs_copilot.Bios.State.{BiosState, StateWrite, apply_write, address_space_size}
use dcs_copilot.Bios.Parser.{
  Parser, ParserState, FrameComplete, init, wait_for_sync, address_low, address_high, count_low,
  count_high, payload_bytes, malformed, finish_write, consume_in, consume, handle_sync, flush_run,
  feed_byte, feed, to_list, sync_length, sync_byte,
}

-- A write that the parser lets through: a non-empty run of 16-bit words within the address space.
abbrev pub Fits : StateWrite → Type 0
Fits w =
    (w.address + length w.payload ≤ address_space_size)
    × (0 < length w.payload)
    × (length w.payload % 2 ≡ 0)

abbrev pub Collecting : ParserState → Parser → Type 0
Collecting payload_bytes p =
    (p.address + p.count ≤ address_space_size) × (length p.payload < p.count) × (p.count % 2 ≡ 0)
Collecting _ p = Unit {0}

-- What each stage of a write has established.
pub record IsValid (p : Parser) : Type 0 where
  pub collecting : Collecting p.state p
  pub writes : All Fits p.frame_writes
  pub waiting : p.frame_started ≡ false → p.state ≡ wait_for_sync

abbrev pub FrameFits : FrameComplete → Type 0
FrameFits f = All Fits f.writes

-- The result of a step that leaves the run of sync bytes alone.
abbrev Keeps : Parser → Parser → Type 0
Keeps p q = IsValid q × (q.sync_run ≡ p.sync_run)

if-Keeps :
    (p : Parser) (b : Bool) (x y : Parser)
    → (b ≡ true → Keeps p x)
    → (b ≡ false → Keeps p y)
    → Keeps p (if b then x else y)
if-Keeps p true x y h k = h refl
if-Keeps p false x y h k = k refl

malformed-Keeps : (p : Parser) → Keeps p (malformed p)
unfolding malformed
malformed-Keeps p = (record { collecting = tt; writes = tt; waiting = λ _. refl }, refl)

finish_write-Keeps :
    (p : Parser) (now : ℕ)
    → p.address + length p.payload ≤ address_space_size
    → 0 < length p.payload
    → length p.payload % 2 ≡ 0
    → All Fits p.frame_writes
    → p.frame_started ≡ true
    → Returns (Keeps p) (finish_write p now)
unfolding finish_write apply_write
finish_write-Keeps p now fit pos even ws st =
    elim (Bool-cases (ltb address_space_size (p.address + length p.payload))) [
      | inl h ↦ absurd (omega tests)
      | inr h ↦ rw h (
        record {
          collecting = tt;
          writes = All-append Fits p.frame_writes _ ws ((fit, pos, even), tt);
          waiting = λ e. cc;
        },
        refl,
      )
    ]

started : (p : Parser) → payload_bytes ≡ p.state → IsValid p → p.frame_started ≡ true
started p e h = elim (Bool-cases p.frame_started) [ inl y ↦ y | inr z ↦ cc (e, h.waiting z) ]

ne_of_test : (a b : ℕ) → (a == b) ≡ false → a ≢ b
ne_of_test a b h = ground arith

consume_in-Keeps :
    (s : ParserState) (p : Parser) (v now : ℕ)
    → s ≡ p.state
    → IsValid p
    → Returns (Keeps p) (consume_in s p v now)
unfolding consume_in
consume_in-Keeps wait_for_sync p v now e h = (h, refl)
consume_in-Keeps address_low p v now e h =
    (record { collecting = tt; writes = h.writes; waiting = λ f. cc (e, h.waiting f) }, refl)
consume_in-Keeps address_high p v now e h =
    let q = record p { address = p.address + v * 256 } in
    if-Keeps q (q.address == 0x5555) _ _ (λ _. malformed-Keeps q)
      (λ _.
        (record { collecting = tt; writes = h.writes; waiting = λ f. cc (e, h.waiting f) }, refl))
consume_in-Keeps count_low p v now e h =
    (record { collecting = tt; writes = h.writes; waiting = λ f. cc (e, h.waiting f) }, refl)
consume_in-Keeps count_high p v now e h =
    let q = record p { count = p.count + v * 256 } in
    if-Keeps q _ _ _ (λ _. malformed-Keeps q)
      (λ fits. (
        record { collecting = ground arith; writes = h.writes; waiting = λ f. cc (e, h.waiting f) },
        refl,
      ))
consume_in-Keeps payload_bytes p v now e h =
    let c = subst (λ s. Collecting s p) (sym e) h.collecting in
    let n = length-append p.payload (v ∷ []) in
    elim (Bool-cases (length (p.payload ++ v ∷ []) == p.count)) [
      | inl full ↦ rw full (
          let m = ==→eq _ _ full in
          finish_write-Keeps (record p { payload = p.payload ++ v ∷ [] }) now
            (omega (arith, c, n, m)) (omega (arith, c, n, m)) (subst (λ k. k % 2 ≡ 0) (sym m) c.2)
            h.writes (started p e h))
      | inr more ↦ rw more (
        record {
          collecting =
              subst (λ s. Collecting s (record p { payload = p.payload ++ v ∷ [] })) e
                (c.0, omega (tests, c, n, ne_of_test _ _ more), c.2);
          writes = h.writes;
          waiting = h.waiting;
        },
        refl,
      )
    ]

consume-Keeps : (p : Parser) (v now : ℕ) → IsValid p → Returns (Keeps p) (consume p v now)
unfolding consume
consume-Keeps p v now h = consume_in-Keeps p.state p v now refl h

set_run-IsValid : (p : Parser) (k : ℕ) → IsValid p → IsValid (record p { sync_run = k })
set_run-IsValid p k h = record {
  collecting = collecting_any p.state p k h.collecting;
  writes = h.writes;
  waiting = h.waiting;
}
  where
    collecting_any :
        (s : ParserState) (p : Parser) (k : ℕ)
        → Collecting s p
        → Collecting s (record p { sync_run = k })
    collecting_any payload_bytes p k c = c
    collecting_any _ p k c = tt

flush_run-Keeps :
    (k : ℕ) (p : Parser) (now : ℕ)
    → p.sync_run ≡ k
    → IsValid p
    → Returns (λ q. IsValid q × (q.sync_run ≡ 0)) (flush_run k p now)
unfolding flush_run
flush_run-Keeps zero p now e h = (h, e)
flush_run-Keeps (suc k) p now e h =
    Returns-bind (Keeps p) _ (consume p sync_byte now) _ (consume-Keeps p sync_byte now h)
      (λ q v. flush_run-Keeps k (record q { sync_run = k }) now refl (set_run-IsValid q k v.0))

handle_sync-IsValid : (p : Parser) → IsValid (handle_sync p).0
unfolding handle_sync
handle_sync-IsValid p = record { collecting = tt; writes = tt; waiting = λ e. cc }

frames-FrameFits : (p : Parser) → IsValid p → All FrameFits (to_list (handle_sync p).1)
unfolding handle_sync
frames-FrameFits p h = ground (arith, h.writes)

run-handle_sync : (p : Parser) → (handle_sync p).0.sync_run < sync_length
unfolding handle_sync
run-handle_sync p = omega arith

-- Between two bytes fewer than four sync bytes are pending.
abbrev pub Good : Parser × List FrameComplete → Type 0
Good r = IsValid r.0 × (r.0.sync_run < sync_length) × All FrameFits r.1

feed_byte-Good :
    (p : Parser) (v now : ℕ)
    → IsValid p
    → p.sync_run < sync_length
    → Returns Good (feed_byte p v now)
unfolding feed_byte
feed_byte-Good p v now h r = elim (Bool-cases (v == sync_byte)) [
  | inl y ↦ rw y (elim (Bool-cases (p.sync_run + 1 == sync_length)) [
    | inl full ↦ rw full (
      handle_sync-IsValid bumped,
      run-handle_sync bumped,
      frames-FrameFits bumped (set_run-IsValid p (p.sync_run + 1) h),
    )
    | inr more ↦
        rw more (set_run-IsValid p (p.sync_run + 1) h, omega (tests, r, ne_of_test _ _ more), tt)
  ])
  | inr z ↦ rw z (
      Returns-bind (λ q. IsValid q × (q.sync_run ≡ 0)) _ (flush_run p.sync_run p now) _
        (flush_run-Keeps p.sync_run p now refl h)
        (λ q v'.
          Returns-bind (Keeps q) _ (consume q v now) _ (consume-Keeps q v now v'.0)
            (λ t w. (w.0, omega (arith, w.1, v'.1), tt))))
]
  where
    bumped : Parser
    bumped = record p { sync_run = p.sync_run + 1 }

-- From a valid parser, any stream of bytes whatever is consumed without an exception; the parser
-- stays valid, fewer than four sync bytes stay pending, and each completed frame holds only
-- non-empty writes of whole 16-bit words within the 64 KiB address space.
pub feed-Good :
    (p : Parser) (input : List (ℕ × ℕ))
    → IsValid p
    → p.sync_run < sync_length
    → Returns Good (feed p input)
unfolding feed
feed-Good p [] h r = (h, r, tt)
feed-Good p ((v, now) ∷ rest) h r =
    Returns-bind Good Good (feed_byte p v now) _ (feed_byte-Good p v now h r) λ (q, fs) g.
      Returns-bind Good Good (feed q rest) _ (feed-Good q rest g.0 g.1)
        λ (t, gs) k. (k.0, k.1, All-append FrameFits fs gs g.2 k.2)

pub init-IsValid : (s : BiosState) → IsValid (init s)
init-IsValid s = record { collecting = tt; writes = tt; waiting = λ _. refl }
