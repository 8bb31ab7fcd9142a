-- ===== src/Bios/State/Laws.antt =====
-- What a write to the address space does to later reads.
use dcs_copilot.Prelude.{
  ℕ, zero, suc, ◌+◌, ◌-◌, ◌≤◌, ◌<◌, ◌≡◌, refl, sym, ap, subst, ◌∙◌, ◌⊎◌, Bool, true, some, List, [],
  ◌∷◌, arith, length, get_or,
}
use dcs_copilot.Bios.State.{
  BiosState, StateWrite, slice, all_true, written, apply_write, read, bytes, missing,
  address_space_size, clear_availability,
}

-- Two arrays that agree on a range have the same slice there.
slice-agree {ℓ} :
    {A : Type ℓ} (f g : ℕ → A) (a n : ℕ)
    → ((i : ℕ) → a ≤ i → i < a + n → f i ≡ g i)
    → slice f a n ≡ slice g a n
unfolding slice
slice-agree f g a zero h = refl
slice-agree f g a (suc n) h = λ i.
    h a (omega arith) (omega arith) i
    ∷ slice-agree f g (a + 1) n (λ j p q. h j (omega arith) (omega arith)) i

-- An array that holds a list from an address on has it as its slice there.
slice-list :
    (f : ℕ → ℕ) (xs : List ℕ) (a : ℕ)
    → ((i : ℕ) → i < length xs → f (a + i) ≡ get_or xs i 0)
    → slice f a (length xs) ≡ xs
unfolding slice
slice-list f [] a h = refl
slice-list f (x ∷ xs) a h = λ i.
    (ap f (sym (add_zero a)) ∙ h 0 (omega arith)) i
    ∷ slice-list f xs (a + 1) (λ j p. ap f (omega arith) ∙ h (suc j) (omega arith)) i
  where
    add_zero : (n : ℕ) → n + 0 ≡ n
    add_zero n = omega arith

all_true-slice :
    (f : ℕ → Bool) (a n : ℕ)
    → ((i : ℕ) → a ≤ i → i < a + n → f i ≡ true)
    → all_true (slice f a n) ≡ true
unfolding slice all_true
all_true-slice f a zero h = refl
all_true-slice f a (suc n) h = ground (
  arith,
  h a (omega arith) (omega arith),
  all_true-slice f (a + 1) n (λ j p q. h j (omega arith) (omega arith)),
)

apply_write-fits :
    (s : BiosState) (a : ℕ) (xs : List ℕ) (now : ℕ) {t : BiosState} {w : StateWrite}
    → apply_write s a xs now ≡ some (t, w)
    → a + length xs ≤ address_space_size
unfolding apply_write
apply_write-fits s a xs now e = ground arith

apply_write-written :
    (s : BiosState) (a : ℕ) (xs : List ℕ) (now : ℕ) {t : BiosState} {w : StateWrite}
    → apply_write s a xs now ≡ some (t, w)
    → written s a xs now ≡ t
unfolding apply_write
apply_write-written s a xs now e = ground arith

buffer-written :
    (s : BiosState) (a : ℕ) (xs : List ℕ) (now i : ℕ)
    → i < length xs
    → (written s a xs now).buffer (a + i) ≡ get_or xs i 0
unfolding written
buffer-written s a xs now i h = let e : a + i - a ≡ i = omega arith in rw (← e) (ground arith)

slice-buffer-written :
    (s : BiosState) (a : ℕ) (xs : List ℕ) (now : ℕ)
    → slice (written s a xs now).buffer a (length xs) ≡ xs
slice-buffer-written s a xs now =
    slice-list (written s a xs now).buffer xs a (buffer-written s a xs now)

slice-available-written :
    (s : BiosState) (a : ℕ) (xs : List ℕ) (now : ℕ)
    → all_true (slice (written s a xs now).available a (length xs)) ≡ true
slice-available-written s a xs now = all_true-slice _ a (length xs) inside
  where
    inside : (i : ℕ) → a ≤ i → i < a + length xs → (written s a xs now).available i ≡ true
    inside i p q = unfold written in ground arith

read-written :
    (s : BiosState) (a : ℕ) (xs : List ℕ) (now : ℕ)
    → a + length xs ≤ address_space_size
    → read (written s a xs now) a (length xs) ≡ bytes xs
unfolding read
read-written s a xs now h =
    ground (arith, slice-buffer-written s a xs now, slice-available-written s a xs now)

-- A write that is accepted is read back as it was written, over its whole range.
pub read-apply_write :
    (s t : BiosState) (a : ℕ) (xs : List ℕ) (now : ℕ) (w : StateWrite)
    → apply_write s a xs now ≡ some (t, w)
    → read t a (length xs) ≡ bytes xs
read-apply_write s t a xs now w e =
    subst (λ u. read u a (length xs) ≡ bytes xs) (apply_write-written s a xs now e)
      (read-written s a xs now (apply_write-fits s a xs now e))

-- A write leaves every range that it does not overlap as it was.
pub read-apply_write_disjoint :
    (s t : BiosState) (a : ℕ) (xs : List ℕ) (now : ℕ) (w : StateWrite) (b n : ℕ)
    → apply_write s a xs now ≡ some (t, w)
    → (b + n ≤ a) ⊎ (a + length xs ≤ b)
    → read t b n ≡ read s b n
unfolding read written
read-apply_write_disjoint s t a xs now w b n e apart =
    subst (λ u. read u b n ≡ read s b n) (apply_write-written s a xs now e)
      (ground (arith, buffers, flags))
  where
    buffers : slice (written s a xs now).buffer b n ≡ slice s.buffer b n
    buffers = slice-agree _ _ b n (λ i p q. ground arith)

    flags : slice (written s a xs now).available b n ≡ slice s.available b n
    flags = slice-agree _ _ b n (λ i p q. ground arith)

-- Once the availability is cleared, as on a change of aircraft, a range of at least one byte reads as missing.
pub read-clear_availability :
    (s : BiosState) (a n : ℕ)
    → 0 < n
    → a + n ≤ address_space_size
    → read (clear_availability s) a n ≡ missing
unfolding read clear_availability slice all_true
read-clear_availability s a zero h k = elim h [ ]
read-clear_availability s a (suc n) h k = ground arith
