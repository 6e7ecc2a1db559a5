-- ===== src/Prelude/Orders.antt =====
-- The order of texts: comparing them the other way round.
use Prim.Native.Nat.{ℕ, zero, suc, Ordering, compare as compare_ℕ}
use Prim.Native.Nat.compare as compare_ℕ
use Prim.Native.Char.{code}
use Prim.Native.String.{String, [], ◌∷◌, then, compare}
use Prim.Native.String.compare
use mathlib.Core.Path.{◌≡◌, refl, sym, ap, ◌∙◌}
use mathlib.Core.Logic.{◌⊎◌, inl, inr}

abbrev pub swap : Ordering → Ordering
swap Ordering.lt = Ordering.gt
swap Ordering.eq = Ordering.eq
swap Ordering.gt = Ordering.lt

swap-compare_ℕ : (m n : ℕ) → compare_ℕ n m ≡ swap (compare_ℕ m n)
swap-compare_ℕ zero zero = compare_ℕ.zero-zero ∙ sym (ap swap compare_ℕ.zero-zero)
swap-compare_ℕ zero (suc n) = compare_ℕ.suc-zero n ∙ sym (ap swap (compare_ℕ.zero-suc n))
swap-compare_ℕ (suc m) zero = compare_ℕ.zero-suc m ∙ sym (ap swap (compare_ℕ.suc-zero m))
swap-compare_ℕ (suc m) (suc n) =
    compare_ℕ.suc-suc n m ∙ swap-compare_ℕ m n ∙ sym (ap swap (compare_ℕ.suc-suc m n))

swap-then : (o r : Ordering) → then (swap o) (swap r) ≡ swap (then o r)
swap-then Ordering.lt r = refl
swap-then Ordering.eq r = refl
swap-then Ordering.gt r = refl

pub swap-compare : (s t : String) → compare t s ≡ swap (compare s t)
swap-compare [] [] = compare.nil-nil ∙ sym (ap swap compare.nil-nil)
swap-compare [] (d ∷ t) = compare.cons-nil d t ∙ sym (ap swap (compare.nil-cons d t))
swap-compare (c ∷ s) [] = compare.nil-cons c s ∙ sym (ap swap (compare.cons-nil c s))
swap-compare (c ∷ s) (d ∷ t) =
    compare.cons-cons d c t s
    ∙ ap (λ o. then o (compare t s)) (swap-compare_ℕ (code c) (code d))
    ∙ ap (λ r. then (swap (compare_ℕ (code c) (code d))) r) (swap-compare s t)
    ∙ swap-then (compare_ℕ (code c) (code d)) (compare s t)
    ∙ sym (ap swap (compare.cons-cons c d s t))

pub Ordering-cases : (o : Ordering) → (o ≡ Ordering.lt) ⊎ ((o ≡ Ordering.eq) ⊎ (o ≡ Ordering.gt))
Ordering-cases Ordering.lt = inl refl
Ordering-cases Ordering.eq = inr (inl refl)
Ordering-cases Ordering.gt = inr (inr refl)
