-- ===== src/Bios/Parser/Chunks.antt =====
-- The parser is incremental: how the stream is cut into chunks makes no difference.
use dcs_copilot.Prelude.{◌>>=◌, >>=-assoc, ℕ, ◌≡◌, refl, Option, none, some, List, [], ◌∷◌, ◌++◌}
use dcs_copilot.Bios.Parser.{Parser, FrameComplete, feed}
use mathlib.Core.List.{append_assoc}

-- Feeding two chunks one after the other.
abbrev pub feed_twice : Parser → List (ℕ × ℕ) → List (ℕ × ℕ) → Option (Parser × List FrameComplete)
feed_twice p xs ys = feed p xs >>= λ (q, fs). feed q ys >>= λ (r, gs). some (r, fs ++ gs)

prefix_nil : (m : Option (Parser × List FrameComplete)) → m ≡ (m >>= λ (r, gs). some (r, [] ++ gs))
prefix_nil none = refl
prefix_nil (some m) = refl

-- For every way to cut a stream in two, feeding the parts one after the other gives the same
-- parser, the same callbacks and the same frames in the same order, or the same exception.
pub feed-append : (p : Parser) (xs ys : List (ℕ × ℕ)) → feed p (xs ++ ys) ≡ feed_twice p xs ys
unfolding feed
feed-append p [] ys = prefix_nil (feed p ys)
feed-append p ((v, now) ∷ xs) ys =
    simp (λ (q : Parser). feed-append q xs ys, >>=-assoc, append_assoc)
