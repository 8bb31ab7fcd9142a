-- ===== src/Bios/Parser/Encode.antt =====
-- The layout of a frame, and how the parser consumes it byte by byte.
use dcs_copilot.Prelude.{
  >>=-some, ◌>>=◌, >>=-assoc, ℕ, ◌+◌, ◌*◌, ◌/◌, ◌%◌, ◌≤◌, ◌<◌, ◌≡◌, refl, ap, ◌∙◌, ◌≢◌, Bool, true,
  false, ◌&&◌, Option, some, List, [], ◌∷◌, ◌++◌, arith, ltb, ◌==◌, if◌then◌else◌, length,
  length-append, All,
}
use dcs_copilot.Bios.State.{
  BiosState, StateWrite, written, changes, apply_write, address_space_size,
}
use dcs_copilot.Bios.Parser.{
  Parser, on_write, address_low, payload_bytes, finish_write, consume, sync_length, sync_byte,
}
use mathlib.Core.List.{append_assoc}

-- The layout of a write: address and count as 16-bit little-endian words, then the bytes.
abbrev pub encode_write : ℕ × List ℕ → List ℕ
encode_write (a, d) = a % 256 ∷ a / 256 ∷ length d % 256 ∷ length d / 256 ∷ d

abbrev pub encode : List (ℕ × List ℕ) → List ℕ
encode [] = []
encode (w ∷ ws) = encode_write w ++ encode ws

-- Whole 16-bit words, inside the address space, and not at the address that looks like a sync.
abbrev pub Sound : ℕ × List ℕ → Type 0
Sound (a, d) =
    (0 < length d) × (length d % 2 ≡ 0) × (a + length d ≤ address_space_size) × (a ≢ 0x5555)

abbrev pub stamp : ℕ → List ℕ → List (ℕ × ℕ)
stamp now [] = []
stamp now (v ∷ vs) = (v, now) ∷ stamp now vs

-- With `k` sync bytes pending: no four sync bytes stand in a row, and the last byte is none.
abbrev pub calm : ℕ → List ℕ → Bool
calm k [] = k == 0
calm k (v ∷ vs) = if v == sync_byte then ltb (k + 1) sync_length && calm (k + 1) vs else calm 0 vs

abbrev pub sync_bytes : List ℕ
sync_bytes = sync_byte ∷ sync_byte ∷ sync_byte ∷ sync_byte ∷ []

-- What the writes do to the memory, one after the other, and the records that they leave.
abbrev pub apply_all : ℕ → BiosState → List (ℕ × List ℕ) → BiosState × List StateWrite
apply_all now s [] = (s, [])
apply_all now s ((a, d) ∷ ws) =
    let (t, rest) = apply_all now (written s a d now) ws in
    (t, record { address = a; payload = d; changed = changes s a d; received_at = now } ∷ rest)

unfoldable pub consume_all : Parser → List ℕ → ℕ → Option Parser
consume_all p [] now = some p
consume_all p (v ∷ vs) now = consume p v now >>= λ q. consume_all q vs now

pub consume_all-append :
    (p : Parser) (xs ys : List ℕ) (now : ℕ)
    → consume_all p (xs ++ ys) now ≡ (consume_all p xs now >>= λ q. consume_all q ys now)
unfolding consume_all
consume_all-append p [] ys now = refl
consume_all-append p (x ∷ xs) ys now =
    simp (λ (q : Parser). consume_all-append q xs ys now, >>=-assoc)

abbrev pub collecting : Parser → List ℕ → Parser
collecting p xs = record p { state = payload_bytes; payload = xs }

pub collect :
    (p : Parser) (pre xs : List ℕ) (now : ℕ)
    → 0 < length xs
    → length pre + length xs ≡ p.count
    → consume_all (collecting p pre) xs now ≡ finish_write (collecting p (pre ++ xs)) now
unfolding consume_all consume
collect p pre [] now h e = elim h [ ]
collect p pre (x ∷ []) now h e =
    let full : (length (pre ++ x ∷ []) == p.count) ≡ true =
      ground (arith, length-append pre (x ∷ [])) in
    rw full (>>=-some _)
collect p pre (x ∷ y ∷ ys) now h e =
    let more : (length (pre ++ x ∷ []) == p.count) ≡ false =
      ground (arith, length-append pre (x ∷ [])) in
    rw more (
      collect p (pre ++ x ∷ []) (y ∷ ys) now (omega arith)
        (omega (arith, length-append pre (x ∷ [])))
      ∙ ap (λ l. finish_write (collecting p l) now) (append_assoc pre (x ∷ []) (y ∷ ys)))

abbrev pub after : Parser → ℕ → List ℕ → ℕ → Parser
after p a d now = record p {
  bios_state = written p.bios_state a d now;
  frame_writes =
      p.frame_writes
      ++ record { address = a; payload = d; changed = changes p.bios_state a d; received_at = now }
        ∷ [];
  calls =
      on_write
        (record { address = a; payload = d; changed = changes p.bios_state a d; received_at = now })
      ∷ p.calls;
  payload = [];
  state = address_low;
  address = a;
  count = length d;
}

pub finish_write-after :
    (p : Parser) (a : ℕ) (d : List ℕ) (now : ℕ)
    → a + length d ≤ address_space_size
    → finish_write
        (record p { state = payload_bytes; address = a; count = length d; payload = d })
        now
      ≡ some (after p a d now)
unfolding finish_write apply_write
finish_write-after p a d now h =
    let fits : ltb address_space_size (a + length d) ≡ false = ground arith in rw fits

pub header :
    (p : Parser) (a : ℕ) (d : List ℕ) (now : ℕ)
    → Sound (a, d)
    → consume_all
        (record p { state = address_low })
        (a % 256 ∷ a / 256 ∷ length d % 256 ∷ length d / 256 ∷ [])
        now
      ≡ some (record p { state = payload_bytes; address = a; count = length d; payload = [] })
unfolding consume_all consume
header p a d now h =
    let whole_a : a % 256 + a / 256 * 256 ≡ a = omega arith in
    let whole_d : length d % 256 + length d / 256 * 256 ≡ length d = omega arith in
    let no_sync : (a == 0x5555) ≡ false = ground (arith, h.3) in
    let some_bytes : (length d == 0) ≡ false = ground (arith, h.0) in
    let even : (length d % 2 == 0) ≡ true = ground (arith, h.1) in
    let fits : ltb address_space_size (a + length d) ≡ false = ground (arith, h.2) in
    rw whole_a (rw no_sync (rw whole_d (rw some_bytes (rw even (rw fits)))))

pub one_write :
    (p : Parser) (a : ℕ) (d : List ℕ) (now : ℕ)
    → Sound (a, d)
    → consume_all (record p { state = address_low }) (encode_write (a, d)) now
      ≡ some (after p a d now)
one_write p a d now h =
    consume_all-append (record p { state = address_low })
      (a % 256 ∷ a / 256 ∷ length d % 256 ∷ length d / 256 ∷ []) d now
    ∙ rw (header p a d now h) (
        collect (record p { address = a; count = length d }) [] d now h.0 (omega arith)
        ∙ finish_write-after p a d now h.2)

-- The parser after all the writes of a body.
unfoldable pub after_all : Parser → List (ℕ × List ℕ) → ℕ → Parser
after_all p [] now = record p { state = address_low }
after_all p ((a, d) ∷ ws) now = after_all (after p a d now) ws now

pub body :
    (p : Parser) (ws : List (ℕ × List ℕ)) (now : ℕ)
    → All Sound ws
    → consume_all (record p { state = address_low }) (encode ws) now ≡ some (after_all p ws now)
unfolding after_all
body p [] now h = unfold consume_all in refl
body p ((a, d) ∷ ws) now h =
    consume_all-append (record p { state = address_low }) (encode_write (a, d)) (encode ws) now
    ∙ rw (one_write p a d now h.0) (body (after p a d now) ws now h.1)
