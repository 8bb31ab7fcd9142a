-- ===== src/Bios/Examples.antt =====
-- The DCS-BIOS parser and its memory on concrete streams.
use dcs_copilot.Prelude.{
  Returns, ℕ, ◌+◌, ◌≡◌, refl, inl, true, Option, none, some, List, [], ◌∷◌, ◌++◌, map, arith,
}
use dcs_copilot.Bios.State
use dcs_copilot.Bios.State.{
  BiosState, StateWrite, apply_write, written, changes, read, bytes, missing, clear_availability,
}
use dcs_copilot.Bios.State.Laws.{
  read-apply_write, read-apply_write_disjoint, read-clear_availability,
}
use dcs_copilot.Bios.Parser.{Parser, FrameComplete, init, feed, handle_sync}
use dcs_copilot.Bios.Parser.Valid.{Good, feed-Good, init-IsValid}
use dcs_copilot.Bios.Parser.Encode.{encode, stamp, sync_bytes, apply_all}
use dcs_copilot.Bios.Parser.RoundTrip.{feed-encode}

abbrev stream : List ℕ
stream = 0x55 ∷ 0x55 ∷ 0x55 ∷ 0x55 ∷ 0 ∷ 4 ∷ 2 ∷ 0 ∷ 0x55 ∷ 65 ∷ 0x55 ∷ 0x55 ∷ 0x55 ∷ 0x55 ∷ []

abbrev places : List StateWrite → List (ℕ × List ℕ)
places [] = []
places (w ∷ ws) = (w.address, w.payload) ∷ places ws

abbrev shown : Option (Parser × List FrameComplete) → List (List (ℕ × List ℕ))
shown none = []
shown (some (p, fs)) = map (λ f. places f.writes) fs

one_frame : shown (feed (init State.init) (stamp 7 stream)) ≡ ((1024, 0x55 ∷ 65 ∷ []) ∷ []) ∷ []
unfolding feed State.apply_write
one_frame = refl

feed-Good_example : Returns Good (feed (init State.init) (stamp 7 stream))
feed-Good_example =
    feed-Good (init State.init) (stamp 7 stream) (init-IsValid State.init) (omega arith)

abbrev written_once : BiosState
written_once = written State.init 1024 (65 ∷ 66 ∷ []) 7

abbrev first_write : StateWrite
first_write = record { address = 1024; payload = 65 ∷ 66 ∷ []; changed = true; received_at = 7 }

abbrev second_write : StateWrite
second_write = record { address = 1026; payload = 67 ∷ 68 ∷ []; changed = true; received_at = 9 }

accepted_once : apply_write State.init 1024 (65 ∷ 66 ∷ []) 7 ≡ some (written_once, first_write)
unfolding apply_write changes
accepted_once = refl

accepted_again :
    apply_write written_once 1026 (67 ∷ 68 ∷ []) 9
    ≡ some (written written_once 1026 (67 ∷ 68 ∷ []) 9, second_write)
unfolding apply_write changes written
accepted_again = refl

read-apply_write_example : read written_once 1024 2 ≡ bytes (65 ∷ 66 ∷ [])
read-apply_write_example =
    read-apply_write State.init written_once 1024 (65 ∷ 66 ∷ []) 7 first_write accepted_once

read-apply_write_disjoint_example :
    read (written written_once 1026 (67 ∷ 68 ∷ []) 9) 1024 2 ≡ read written_once 1024 2
read-apply_write_disjoint_example =
    read-apply_write_disjoint written_once (written written_once 1026 (67 ∷ 68 ∷ []) 9) 1026
      (67 ∷ 68 ∷ []) 9 second_write 1024 2 accepted_again (inl (omega arith))

read-clear_availability_example : read (clear_availability written_once) 1024 2 ≡ missing
read-clear_availability_example =
    read-clear_availability written_once 1024 2 (omega arith) (omega arith)

abbrev some_writes : List (ℕ × List ℕ)
some_writes = (1024, 0x55 ∷ 65 ∷ []) ∷ (1030, 1 ∷ 2 ∷ 3 ∷ 4 ∷ []) ∷ []

abbrev opened : Parser
opened = (handle_sync (init State.init)).0

feed-encode_example :
    let (memory, writes) = apply_all 7 opened.bios_state some_writes in
    (q : Parser) × (feed opened (stamp 7 (encode some_writes ++ sync_bytes))
      ≡ some (q, record { number = opened.frame_count + 1; writes = writes } ∷ []))
    × (q.bios_state ≡ memory)
    × (q.error_count ≡ opened.error_count)
feed-encode_example =
    feed-encode (init State.init) some_writes 7
      (
        (omega arith, refl, omega arith, λ e. omega (arith, e)),
        ((omega arith, refl, omega arith, λ e. omega (arith, e)), tt),
      )
      refl
