-- ===== src/Bios/Parser.antt =====
-- client/dcs_copilot/dcs/bios_protocol.py: the incremental parser of the binary export stream.
-- A byte comes with the reading of the clock while it is handled. `calls` lists the callbacks made,
-- latest first.
pub mod Valid
pub mod Chunks
pub mod Encode
mod Runs
pub mod RoundTrip
use dcs_copilot.Prelude.{
  ◌↔◌, Never, All-imp, All-select, select-All, >>=-some, Returns, Returns-bind, Returns-some, ◌>>=◌,
  >>=-assoc, ℕ, zero, suc, ◌+◌, ◌-◌, ◌*◌, ◌/◌, ◌%◌, ◌^◌, ◌≤◌, ◌<◌, String, ◌≡◌, refl, sym, ap,
  subst, ◌∙◌, ◌≢◌, ◌⊎◌, inl, inr, Bool, true, false, ◌&&◌, ◌||◌, not, Option, none, some, List, [],
  ◌∷◌, ◌++◌, map, arith, str_eq, eq_iff, ltb, leb, ◌==◌, if◌then◌else◌, ltb→lt, ltb→le, leb→le,
  ==→eq, tests, Bool-cases, Option-cases, length, length-append, get_or, take, drop, length-drop,
  all_of, any_of, select, All, All-append,
}
use dcs_copilot.Bios.State.{BiosState, StateWrite, apply_write, address_space_size}

abbrev pub sync_byte : ℕ
sync_byte = 0x55

abbrev pub sync_length : ℕ
sync_length = 4

pub data ParserState : Type 0 where
  wait_for_sync address_low address_high count_low count_high payload_bytes : ParserState

pub record FrameComplete : Type 0 where
  pub number : ℕ
  pub writes : List StateWrite

pub data Call : Type 0 where
  on_write : StateWrite → Call
  on_frame_complete : FrameComplete → Call

pub record Parser : Type 0 where
  pub bios_state : BiosState
  pub error_count : ℕ
  pub frame_count : ℕ
  pub state : ParserState
  pub sync_run : ℕ
  pub address : ℕ
  pub count : ℕ
  pub payload : List ℕ
  pub frame_started : Bool
  pub frame_writes : List StateWrite
  pub calls : List Call

abbrev pub init : BiosState → Parser
init s = record {
  bios_state = s;
  error_count = 0;
  frame_count = 0;
  state = wait_for_sync;
  sync_run = 0;
  address = 0;
  count = 0;
  payload = [];
  frame_started = false;
  frame_writes = [];
  calls = [];
}

unfoldable pub malformed : Parser → Parser
malformed p = record p {
  error_count = p.error_count + 1;
  payload = [];
  frame_writes = [];
  frame_started = false;
  state = wait_for_sync;
}

-- What follows a complete payload.
unfoldable pub finish_write : Parser → ℕ → Option Parser
finish_write p now = apply_write p.bios_state p.address p.payload now >>= λ (s, write).
    some (record p {
      bios_state = s;
      frame_writes = p.frame_writes ++ write ∷ [];
      calls = on_write write ∷ p.calls;
      payload = [];
      state = address_low;
    })

-- `low | value << 8` is `low + value * 256`, since `low` is a byte.
unfoldable pub consume_in : ParserState → Parser → ℕ → ℕ → Option Parser
unfolding malformed finish_write
consume_in wait_for_sync p value now = some p
consume_in address_low p value now = some (record p { address = value; state = address_high })
consume_in address_high p value now =
    let q = record p { address = p.address + value * 256 } in
    some (if q.address == 0x5555 then malformed q else record q { state = count_low })
consume_in count_low p value now = some (record p { count = value; state = count_high })
consume_in count_high p value now =
    let q = record p { count = p.count + value * 256 } in
    some (
      if (q.count == 0) || not (q.count % 2 == 0) || ltb address_space_size (q.address + q.count)
      then malformed q
      else record q { payload = []; state = payload_bytes })
consume_in payload_bytes p value now =
    let q = record p { payload = p.payload ++ value ∷ [] } in
    if length q.payload == q.count then finish_write q now else some q

unfoldable pub consume : Parser → ℕ → ℕ → Option Parser
unfolding consume_in
consume p value now = consume_in p.state p value now

abbrev pub is_address_low : ParserState → Bool
is_address_low address_low = true
is_address_low _ = false

-- The counters and the frame that a sync ends, before the fields are reset.
unfoldable pub close_frame : Parser → Parser × Option FrameComplete
close_frame p =
    if p.frame_started && not (is_address_low p.state)
    then (record p { error_count = p.error_count + 1 }, none)
    else if p.frame_started
    then (let frame : FrameComplete = record {
      number = p.frame_count + 1;
      writes = p.frame_writes;
    } in
        (
          record p { frame_count = p.frame_count + 1; calls = on_frame_complete frame ∷ p.calls },
          some frame,
        ))
    else (p, none)

unfoldable pub handle_sync : Parser → Parser × Option FrameComplete
unfolding close_frame
handle_sync p =
    let (q, frame) = close_frame p in
    (
      record q {
        frame_started = true;
        frame_writes = [];
        payload = [];
        state = address_low;
        sync_run = 0;
      },
      frame,
    )

-- while self._sync_run: self._consume(SYNC_BYTE); self._sync_run -= 1
unfoldable pub flush_run : ℕ → Parser → ℕ → Option Parser
unfolding consume
flush_run zero p now = some p
flush_run (suc k) p now =
    consume p sync_byte now >>= λ q. flush_run k (record q { sync_run = k }) now

abbrev pub to_list {ℓ} : {A : Type ℓ} → Option A → List A
to_list none = []
to_list (some a) = a ∷ []

-- One turn of the loop of `feed`: the new parser and the frames that this byte completes.
unfoldable pub feed_byte : Parser → ℕ → ℕ → Option (Parser × List FrameComplete)
unfolding handle_sync flush_run consume
feed_byte p value now =
    if value == sync_byte
    then (let q = record p { sync_run = p.sync_run + 1 } in
        if q.sync_run == sync_length
        then some ((handle_sync q).0, to_list (handle_sync q).1)
        else some (q, []))
    else (flush_run p.sync_run p now >>= λ q. consume q value now >>= λ r. some (r, []))

unfoldable pub feed : Parser → List (ℕ × ℕ) → Option (Parser × List FrameComplete)
unfolding feed_byte
feed p [] = some (p, [])
feed p ((value, now) ∷ rest) = feed_byte p value now >>= λ (q, completed).
    feed q rest >>= λ (r, later). some (r, completed ++ later)
