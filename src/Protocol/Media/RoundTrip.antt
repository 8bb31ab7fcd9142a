-- ===== src/Protocol/Media/RoundTrip.antt =====
-- Media packets and their bytes determine each other.
use dcs_copilot.Prelude.{
  ◌↔◌, ℕ, zero, suc, ◌+◌, ◌*◌, ◌/◌, ◌%◌, ◌^◌, ◌≤◌, ◌<◌, ◌≡◌, refl, sym, ap, subst, ◌∙◌, true, false,
  some, List, [], ◌∷◌, ◌++◌, arith, leb, length, get_or, drop, All,
}
use dcs_copilot.Prelude.Result.{ok}
use dcs_copilot.Protocol.Message.{protocol_version}
use dcs_copilot.Protocol.Media.{
  MediaKind, audio_input, audio_output, MediaPacket, new_packet, to_bytes, from_bytes, pack,
  u32_bytes, u64_bytes, u32_at, has_magic, kind_of, kind_value, is_empty, header_size,
}

-- The packets that the constructor returns.
abbrev pub Fits : MediaPacket → Type 0
Fits p = new_packet p.kind p.sequence p.timestamp_ms p.payload p.version ≡ ok p

-- A list of bytes.
abbrev pub Bytes : List ℕ → Type 0
Bytes raw = All (λ b. b < 256) raw

u32_bytes-join :
    (n : ℕ)
    → n < 2 ^ 32
    → n / 2 ^ 24 * 2 ^ 24 + n / 2 ^ 16 % 256 * 2 ^ 16 + n / 2 ^ 8 % 256 * 2 ^ 8 + n % 256 ≡ n
u32_bytes-join n h = omega arith

kind_of-kind_value : (k : MediaKind) → kind_of (kind_value k) ≡ some k
unfolding kind_of kind_value
kind_of-kind_value audio_input = refl
kind_of-kind_value audio_output = refl

abbrev packet : MediaKind → ℕ → ℕ → List ℕ → MediaPacket
packet k q t payload = record {
  kind = k;
  sequence = q;
  timestamp_ms = t;
  payload = payload;
  version = protocol_version;
}

leb-true : (a b : ℕ) → a ≤ b → leb a b ≡ true
leb-true a b h = ground arith

from_bytes-reads :
    (raw : List ℕ) (k : MediaKind)
    → header_size ≤ length raw
    → has_magic raw ≡ true
    → get_or raw 4 0 ≡ protocol_version
    → kind_of (get_or raw 5 0) ≡ some k
    → is_empty (drop header_size raw) ≡ false
    → from_bytes raw
      ≡ ok (packet k (u32_at raw 6) (u32_at raw 10 * 2 ^ 32 + u32_at raw 14) (drop header_size raw))
unfolding from_bytes new_packet
from_bytes-reads raw k h m v e n = rw (leb-true header_size (length raw) h, m, v, e, n) refl

from_bytes-pack :
    (k : MediaKind) (q t : ℕ) (payload : List ℕ)
    → is_empty payload ≡ false
    → q < 2 ^ 32
    → t < 2 ^ 64
    → from_bytes (pack protocol_version (kind_value k) q t ++ payload) ≡ ok (packet k q t payload)
unfolding pack u32_bytes u64_bytes u32_at has_magic
from_bytes-pack k q t payload e hq ht =
    let raw = pack protocol_version (kind_value k) q t ++ payload in
    let a : u32_at raw 6 ≡ q = u32_bytes-join q hq in
    let b : u32_at raw 10 ≡ t / 2 ^ 32 = u32_bytes-join (t / 2 ^ 32) (omega (arith, ht)) in
    let c : u32_at raw 14 ≡ t % 2 ^ 32 = u32_bytes-join (t % 2 ^ 32) (omega arith) in
    let d : t / 2 ^ 32 * 2 ^ 32 + t % 2 ^ 32 ≡ t = omega arith in
    from_bytes-reads raw k (omega arith) refl refl (kind_of-kind_value k) e
    ∙ ap (λ n. ok (packet k n (u32_at raw 10 * 2 ^ 32 + u32_at raw 14) payload)) a
    ∙ ap (λ n. ok (packet k q (n * 2 ^ 32 + u32_at raw 14) payload)) b
    ∙ ap (λ n. ok (packet k q (t / 2 ^ 32 * 2 ^ 32 + n) payload)) c
    ∙ ap (λ n. ok (packet k q n payload)) d

-- The bytes from an index on, read one by one.
abbrev reads : ℕ → ℕ → List ℕ → List ℕ
reads zero i raw = []
reads (suc n) i raw = get_or raw i 0 ∷ reads n (i + 1) raw

drop-head : (i : ℕ) (raw : List ℕ) → i < length raw → drop i raw ≡ get_or raw i 0 ∷ drop (i + 1) raw
drop-head i [] h = absurd (omega (arith, h))
drop-head zero (x ∷ raw) h = refl
drop-head (suc i) (x ∷ raw) h =
    let e : suc i + 1 ≡ suc (i + 1) = omega arith in rw e (drop-head i raw (omega (arith, h)))

drop-reads :
    (n i : ℕ) (raw : List ℕ) → i + n ≤ length raw → drop i raw ≡ reads n i raw ++ drop (i + n) raw
drop-reads zero i raw h = let e : i + 0 ≡ i = omega arith in rw e refl
drop-reads (suc n) i raw h =
    let e : i + 1 + n ≡ i + suc n = omega arith in
    drop-head i raw (omega (arith, h))
    ∙ ap (λ l. get_or raw i 0 ∷ l)
        (drop-reads n (i + 1) raw (omega (arith, h))
          ∙ ap (λ k. reads n (i + 1) raw ++ drop k raw) e)

get_or-Bytes : (raw : List ℕ) (i : ℕ) → Bytes raw → get_or raw i 0 < 256
get_or-Bytes [] i h = omega arith
get_or-Bytes (x ∷ raw) zero h = h.0
get_or-Bytes (x ∷ raw) (suc i) h = get_or-Bytes raw i h.1

u32_at-lt : (raw : List ℕ) (i : ℕ) → Bytes raw → u32_at raw i < 2 ^ 32
unfolding u32_at
u32_at-lt raw i h = omega (
  arith,
  get_or-Bytes raw i h,
  get_or-Bytes raw (i + 1) h,
  get_or-Bytes raw (i + 2) h,
  get_or-Bytes raw (i + 3) h,
)

u32_bytes-bytes :
    (a b c d : ℕ)
    → a < 256
    → b < 256
    → c < 256
    → d < 256
    → u32_bytes (a * 2 ^ 24 + b * 2 ^ 16 + c * 2 ^ 8 + d) ≡ a ∷ b ∷ c ∷ d ∷ []
unfolding u32_bytes
u32_bytes-bytes a b c d ha hb hc hd =
    let n = a * 2 ^ 24 + b * 2 ^ 16 + c * 2 ^ 8 + d in
    let e : n / 2 ^ 24 ≡ a = omega arith in
    let f : n / 2 ^ 16 % 256 ≡ b = omega arith in
    let g : n / 2 ^ 8 % 256 ≡ c = omega arith in
    let i : n % 256 ≡ d = omega arith in rw (e, f, g, i) refl

u32_bytes-u32_at :
    (raw : List ℕ) (i : ℕ)
    → Bytes raw
    → u32_bytes (u32_at raw i)
      ≡ get_or raw i 0 ∷ get_or raw (i + 1) 0 ∷ get_or raw (i + 2) 0 ∷ get_or raw (i + 3) 0 ∷ []
unfolding u32_at
u32_bytes-u32_at raw i h =
    u32_bytes-bytes (get_or raw i 0) (get_or raw (i + 1) 0) (get_or raw (i + 2) 0)
      (get_or raw (i + 3) 0) (get_or-Bytes raw i h) (get_or-Bytes raw (i + 1) h)
      (get_or-Bytes raw (i + 2) h) (get_or-Bytes raw (i + 3) h)

u64_bytes-join : (x y : ℕ) → y < 2 ^ 32 → u64_bytes (x * 2 ^ 32 + y) ≡ u32_bytes x ++ u32_bytes y
unfolding u64_bytes
u64_bytes-join x y h =
    let e : (x * 2 ^ 32 + y) / 2 ^ 32 ≡ x = omega arith in
    let f : (x * 2 ^ 32 + y) % 2 ^ 32 ≡ y = omega arith in
    ap (λ n. u32_bytes n ++ u32_bytes ((x * 2 ^ 32 + y) % 2 ^ 32)) e
    ∙ ap (λ n. u32_bytes x ++ u32_bytes n) f

-- What a packet that is read has in its header.
record Header (raw : List ℕ) (p : MediaPacket) : Type 0 where
  long : header_size ≤ length raw
  magic_0 : get_or raw 0 0 ≡ 68
  magic_1 : get_or raw 1 0 ≡ 67
  magic_2 : get_or raw 2 0 ≡ 83
  magic_3 : get_or raw 3 0 ≡ 67
  version : p.version ≡ get_or raw 4 0
  kind : kind_value p.kind ≡ get_or raw 5 0
  sequence : p.sequence ≡ u32_at raw 6
  timestamp : p.timestamp_ms ≡ u32_at raw 10 * 2 ^ 32 + u32_at raw 14
  payload : p.payload ≡ drop header_size raw

from_bytes-Header : (raw : List ℕ) (p : MediaPacket) → from_bytes raw ≡ ok p → Header raw p
unfolding from_bytes new_packet kind_value
from_bytes-Header raw p h = record {
  long = ground (arith, h);
  magic_0 = ground (arith, h);
  magic_1 = ground (arith, h);
  magic_2 = ground (arith, h);
  magic_3 = ground (arith, h);
  version = ground (arith, h);
  kind = ground (arith, h);
  sequence = ground (arith, h);
  timestamp = ground (arith, h);
  payload = ground (arith, h);
}

Header-pack :
    (raw : List ℕ) (p : MediaPacket)
    → Bytes raw
    → Header raw p
    → pack p.version (kind_value p.kind) p.sequence p.timestamp_ms ++ p.payload ≡ raw
unfolding pack
Header-pack raw p b h =
    let e = u32_bytes-u32_at raw 6 b in
    let f = u64_bytes-join (u32_at raw 10) (u32_at raw 14) (u32_at-lt raw 14 b) in
    let start : ℕ → ℕ → ℕ → ℕ → List ℕ → List ℕ → List ℕ =
      (λ i j k l m n. i ∷ j ∷ k ∷ l ∷ get_or raw 4 0 ∷ get_or raw 5 0 ∷ m ++ n ++ drop 18 raw) in
    rw (h.version, h.kind, h.sequence, h.timestamp, h.payload)
      (ap (λ m. start 68 67 83 67 m (u64_bytes (u32_at raw 10 * 2 ^ 32 + u32_at raw 14))) e
        ∙ ap (start 68 67 83 67 (reads 4 6 raw)) (
            f
            ∙ ap (λ l. l ++ u32_bytes (u32_at raw 14)) (u32_bytes-u32_at raw 10 b)
            ∙ ap (λ l. reads 4 10 raw ++ l) (u32_bytes-u32_at raw 14 b))
        ∙ ap (λ n. start 68 n 83 67 (reads 4 6 raw) (reads 8 10 raw)) (sym h.magic_1)
        ∙ rw (sym h.magic_0, sym h.magic_2, sym h.magic_3) (sym (drop-reads 18 0 raw h.long)))

to_bytes-pack :
    (p : MediaPacket) (raw : List ℕ)
    → to_bytes p ≡ ok raw
    → (p.sequence < 2 ^ 32)
      × (p.timestamp_ms < 2 ^ 64)
      × (pack p.version (kind_value p.kind) p.sequence p.timestamp_ms ++ p.payload ≡ raw)
unfolding to_bytes
to_bytes-pack p raw h = (ground (arith, h), ground (arith, h), ground (arith, h))

pack-to_bytes :
    (p : MediaPacket)
    → p.sequence < 2 ^ 32
    → p.timestamp_ms < 2 ^ 64
    → to_bytes p ≡ ok (pack p.version (kind_value p.kind) p.sequence p.timestamp_ms ++ p.payload)
unfolding to_bytes
pack-to_bytes p hs ht = ground (arith, hs, ht)

Fits-fields :
    (p : MediaPacket) → Fits p → (p.version ≡ protocol_version) × (is_empty p.payload ≡ false)
unfolding new_packet
Fits-fields p h = (ground (arith, h), ground (arith, h))

-- For a packet that the constructor returns and a list of bytes: the packet is encoded as those bytes
-- exactly when those bytes are decoded as that packet.
pub to_bytes-from_bytes :
    (p : MediaPacket) (raw : List ℕ)
    → Fits p
    → Bytes raw
    → (to_bytes p ≡ ok raw) ↔ (from_bytes raw ≡ ok p)
to_bytes-from_bytes p raw f b =
    let (v, e) = Fits-fields p f in
    (
      λ h.
          let (hs, ht, g) = to_bytes-pack p raw h in
          subst (λ r. from_bytes r ≡ ok p) g
            (rw v (from_bytes-pack p.kind p.sequence p.timestamp_ms p.payload e hs ht)),
      λ h.
          let s = from_bytes-Header raw p h in
          pack-to_bytes p (rw s.sequence (u32_at-lt raw 6 b))
            (omega (arith, s.timestamp, u32_at-lt raw 10 b, u32_at-lt raw 14 b))
          ∙ ap ok (Header-pack raw p b s),
    )
