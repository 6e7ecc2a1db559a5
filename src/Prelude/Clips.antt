-- ===== src/Prelude/Clips.antt =====
-- `s[:n]` of a text: its first `n` characters.
use Prim.Native.Nat.{ℕ, zero, suc, ◌≤◌}
use Prim.Native.String.{String, [], ◌∷◌, count}
use native.Mathlib.Omega.{arith}
use text.Mathlib.TextLemmas.{length-cons}

unfoldable pub clip : ℕ → String → String
clip zero s = []
clip (suc n) [] = []
clip (suc n) (c ∷ s) = c ∷ clip n s

pub count-clip : (n : ℕ) (s : String) → count (clip n s) ≤ n
unfolding clip
count-clip zero s = omega arith
count-clip (suc n) [] = omega arith
count-clip (suc n) (c ∷ s) = omega (arith, length-cons c (clip n s), count-clip n s)
