-- ===== src/Protocol/Media.antt =====
-- shared/dcs_copilot_protocol/media.py: the audio format and the binary envelope of media packets.
-- Bytes are numbers below 256; the fields of the header are in network order, as `struct` lays out
-- "!4sBBIQ".
pub mod RoundTrip
use dcs_copilot.Prelude.{
  ◌↔◌, Never, All-imp, All-select, select-All, >>=-some, Returns, Returns-bind, Returns-some,
  >>=-assoc, ℕ, zero, suc, ◌+◌, ◌-◌, ◌*◌, ◌/◌, ◌%◌, ◌^◌, ◌≤◌, ◌<◌, String, ◌≡◌, refl, sym, ap,
  subst, ◌∙◌, ◌≢◌, ◌⊎◌, inl, inr, Bool, true, false, ◌&&◌, ◌||◌, not, Option, none, some, List, [],
  ◌∷◌, ◌++◌, map, arith, str_eq, eq_iff, ltb, leb, ◌==◌, if◌then◌else◌, ltb→lt, ltb→le, leb→le,
  ==→eq, tests, Bool-cases, Option-cases, length, length-append, get_or, take, drop, length-drop,
  all_of, any_of, select, All, All-append,
}
use dcs_copilot.Prelude.Int.{ℤ, pos}
use dcs_copilot.Prelude.Result.{Result, ok, err, ◌>>=◌, ◌>>◌, guard, present_or}
use dcs_copilot.Protocol.Json.{
  Json, integer, text, object, Fields, end, field, get, as_text, as_positive,
}
use dcs_copilot.Protocol.Message.{protocol_version}

pub data MediaKind : Type 0 where
  audio_input audio_output : MediaKind

unfoldable pub kind_value : MediaKind → ℕ
kind_value audio_input = 1
kind_value audio_output = 2

-- `MediaKind(encoded)`
unfoldable pub kind_of : ℕ → Option MediaKind
kind_of n = if n == 1 then some audio_input else if n == 2 then some audio_output else none

pub data MediaError : Type 0 where
  bad_encoding bad_format : MediaError
  bad_sample_rate bad_channels bad_chunk_ms : MediaError
  bad_sequence bad_timestamp : MediaError
  too_short bad_magic unsupported_version unknown_kind empty_payload : MediaError

pub record AudioFormat : Type 0 where
  pub encoding : String
  pub sample_rate : ℕ
  pub channels : ℕ
  pub chunk_ms : ℕ

-- `AudioFormat.__post_init__`
unfoldable pub new_format : String → ℕ → ℕ → ℕ → Result MediaError AudioFormat
new_format encoding sample_rate channels chunk_ms = do
  guard (str_eq encoding "pcm_s16le") bad_encoding
  guard (ltb 0 sample_rate && ltb 0 channels && ltb 0 chunk_ms) bad_format
  ok (record {
    encoding = encoding;
    sample_rate = sample_rate;
    channels = channels;
    chunk_ms = chunk_ms;
  })

unfoldable pub format_to_dict : AudioFormat → Fields
format_to_dict f = field "encoding" (text f.encoding) (
    field "sample_rate" (integer (pos f.sample_rate)) (
      field "channels" (integer (pos f.channels))
        (field "chunk_ms" (integer (pos f.chunk_ms)) end)))

unfoldable pub is_pcm : Option String → Bool
is_pcm none = false
is_pcm (some s) = str_eq s "pcm_s16le"

unfoldable pub format_from_fields : Fields → Result MediaError AudioFormat
unfolding get as_text as_positive is_pcm new_format
format_from_fields d = do
  guard (is_pcm (as_text (get "encoding" d))) bad_encoding
  sample_rate ← present_or (as_positive (get "sample_rate" d)) bad_sample_rate
  channels ← present_or (as_positive (get "channels" d)) bad_channels
  chunk_ms ← present_or (as_positive (get "chunk_ms" d)) bad_chunk_ms
  new_format "pcm_s16le" sample_rate channels chunk_ms

-- `AudioFormat.from_dict`
unfoldable pub format_from_dict : Option Json → Result MediaError AudioFormat
unfolding format_from_fields
format_from_dict (some (object d)) = format_from_fields d
format_from_dict v = err bad_format

pub record MediaPacket : Type 0 where
  pub kind : MediaKind
  pub sequence : ℕ
  pub timestamp_ms : ℕ
  pub payload : List ℕ
  pub version : ℕ

abbrev pub is_empty {ℓ} : {A : Type ℓ} → List A → Bool
is_empty [] = true
is_empty (x ∷ xs) = false

-- `MediaPacket.__post_init__`
unfoldable pub new_packet : MediaKind → ℕ → ℕ → List ℕ → ℕ → Result MediaError MediaPacket
new_packet kind sequence timestamp_ms payload version = do
  guard (version == protocol_version) unsupported_version
  guard (not (is_empty payload)) empty_payload
  ok (record {
    kind = kind;
    sequence = sequence;
    timestamp_ms = timestamp_ms;
    payload = payload;
    version = version;
  })

-- b"DCSC"
abbrev pub magic : List ℕ
magic = 68 ∷ 67 ∷ 83 ∷ 67 ∷ []

abbrev pub header_size : ℕ
header_size = 18

unfoldable pub u32_bytes : ℕ → List ℕ
u32_bytes n = n / 2 ^ 24 ∷ n / 2 ^ 16 % 256 ∷ n / 2 ^ 8 % 256 ∷ n % 256 ∷ []

unfoldable pub u64_bytes : ℕ → List ℕ
unfolding u32_bytes
u64_bytes n = u32_bytes (n / 2 ^ 32) ++ u32_bytes (n % 2 ^ 32)

-- The header before the payload.
unfoldable pub pack : ℕ → ℕ → ℕ → ℕ → List ℕ
unfolding u32_bytes u64_bytes
pack version kind sequence timestamp_ms =
    magic ++ version ∷ kind ∷ u32_bytes sequence ++ u64_bytes timestamp_ms

unfoldable pub to_bytes : MediaPacket → Result MediaError (List ℕ)
unfolding kind_value pack
to_bytes p = do
  guard (ltb p.sequence (2 ^ 32)) bad_sequence
  guard (ltb p.timestamp_ms (2 ^ 64)) bad_timestamp
  ok (pack p.version (kind_value p.kind) p.sequence p.timestamp_ms ++ p.payload)

-- The number of four bytes from an offset.
unfoldable pub u32_at : List ℕ → ℕ → ℕ
u32_at raw i =
    get_or raw i 0 * 2 ^ 24
    + get_or raw (i + 1) 0 * 2 ^ 16
    + get_or raw (i + 2) 0 * 2 ^ 8
    + get_or raw (i + 3) 0

unfoldable pub has_magic : List ℕ → Bool
has_magic raw =
    get_or raw 0 0 == 68 && get_or raw 1 0 == 67 && get_or raw 2 0 == 83 && get_or raw 3 0 == 67

unfoldable pub from_bytes : List ℕ → Result MediaError MediaPacket
unfolding kind_of u32_at has_magic new_packet
from_bytes raw = do
  guard (leb header_size (length raw)) too_short
  guard (has_magic raw) bad_magic
  guard (get_or raw 4 0 == protocol_version) unsupported_version
  kind ← present_or (kind_of (get_or raw 5 0)) unknown_kind
  guard (not (is_empty (drop header_size raw))) empty_payload
  new_packet kind (u32_at raw 6) (u32_at raw 10 * 2 ^ 32 + u32_at raw 14) (drop header_size raw)
      (get_or raw 4 0)
