-- ===== src/Bios/State.antt =====
-- client/dcs_copilot/dcs/bios_state.py: the 64 KiB address space, updated atomically by each write.
-- The arrays are functions from addresses; a clock reading is a number of ticks.
pub mod Laws
use dcs_copilot.Prelude.{
  ℕ, zero, suc, ◌+◌, ◌-◌, Bool, true, false, ◌&&◌, ◌||◌, not, Option, none, some, List, [], ◌∷◌,
  leb, ltb, ◌==◌, if◌then◌else◌, length, get_or,
}

-- 1 << 16
abbrev pub address_space_size : ℕ
address_space_size = 65536

pub record StateWrite : Type 0 where
  pub address : ℕ
  pub payload : List ℕ
  pub changed : Bool
  pub received_at : ℕ

pub record BiosState : Type 0 where
  pub buffer : ℕ → ℕ
  pub available : ℕ → Bool
  pub updated_at : ℕ → ℕ
  pub latest_write_at : Option ℕ

abbrev pub init : BiosState
init = record {
  buffer = λ _. 0;
  available = λ _. false;
  updated_at = λ _. 0;
  latest_write_at = none;
}

-- xs[address:address + n]
unfoldable pub slice {ℓ} : {A : Type ℓ} → (ℕ → A) → ℕ → ℕ → List A
slice f address zero = []
slice f address (suc n) = f address ∷ slice f (address + 1) n

-- address <= i < address + n
abbrev pub within : ℕ → ℕ → ℕ → Bool
within address n i = leb address i && ltb i (address + n)

unfoldable pub all_true : List Bool → Bool
all_true [] = true
all_true (b ∷ bs) = b && all_true bs

unfoldable pub same_bytes : List ℕ → List ℕ → Bool
same_bytes [] [] = true
same_bytes (x ∷ xs) (y ∷ ys) = x == y && same_bytes xs ys
same_bytes _ _ = false

-- The assignments of a write that fits.
unfoldable pub written : BiosState → ℕ → List ℕ → ℕ → BiosState
written s address bytes timestamp =
    let n = length bytes in
    record {
      buffer = λ i. if within address n i then get_or bytes (i - address) 0 else s.buffer i;
      available = λ i. if within address n i then true else s.available i;
      updated_at = λ i. if within address n i then timestamp else s.updated_at i;
      latest_write_at = some timestamp;
    }

-- Whether a write brings new bytes, or bytes that were never seen.
unfoldable pub changes : BiosState → ℕ → List ℕ → Bool
unfolding slice all_true same_bytes
changes s address bytes =
    not (same_bytes (slice s.buffer address (length bytes)) bytes)
    || not (all_true (slice s.available address (length bytes)))

-- The error is the `ValueError` of a write that falls outside the address space.
unfoldable pub apply_write : BiosState → ℕ → List ℕ → ℕ → Option (BiosState × StateWrite)
apply_write s address bytes timestamp =
    if ltb address_space_size (address + length bytes)
    then none
    else some (
      written s address bytes timestamp,
      record {
        address = address;
        payload = bytes;
        changed = changes s address bytes;
        received_at = timestamp;
      },
    )

-- What `read` answers: the `ValueError`, `None` where a byte was never written, or the bytes.
pub data Reading (A : Type 0) : Type 0 where
  outside missing : Reading A
  bytes : A → Reading A

unfoldable pub read : BiosState → ℕ → ℕ → Reading (List ℕ)
unfolding slice all_true
read s address n =
    if ltb address_space_size (address + n)
    then outside
    else if ltb 0 n && not (all_true (slice s.available address n))
    then missing
    else bytes (slice s.buffer address n)

unfoldable pub clear_availability : BiosState → BiosState
clear_availability s = record s { available = λ _. false }

unfoldable pub minimum : List ℕ → ℕ → ℕ
minimum [] m = m
minimum (x ∷ xs) m = minimum xs (if ltb x m then x else m)

unfoldable pub min_of : List ℕ → Option ℕ
unfolding minimum
min_of [] = none
min_of (x ∷ xs) = some (minimum xs x)

-- The time of the oldest byte of a range.
unfoldable pub oldest_update : BiosState → ℕ → ℕ → Reading (Option ℕ)
unfolding slice all_true min_of
oldest_update s address n =
    if ltb address_space_size (address + n)
    then outside
    else if (n == 0) || not (all_true (slice s.available address n))
    then bytes none
    else bytes (min_of (slice s.updated_at address n))
