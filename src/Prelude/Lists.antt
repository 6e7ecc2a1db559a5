-- ===== src/Prelude/Lists.antt =====
-- Lists: Boolean searches, counts of texts, and predicates by recursion.
use Prim.Native.Nat.{ℕ, suc, ◌+◌}
use Prim.Native.String.{String}
use mathlib.Core.Path.{◌≡◌, refl, sym, subst}
use mathlib.Core.Bool.{Bool, true, false, ◌&&◌, ◌||◌}
use mathlib.Core.Option.{Option, none, some}
use mathlib.Core.List.{List, [], ◌∷◌, ◌++◌, Memᴰ}
use native.Mathlib.Omega.{arith}
use text.Mathlib.Text.{◌==◌}
use mathlib.Core.Logic.{inl, inr}
use prism_agent.Prelude.Tests.{Bool-cases, if◌then◌else◌}

module _ {ℓ} {A : Type ℓ} where
  abbrev pub length : List A → ℕ
  length [] = 0
  length (x ∷ xs) = suc (length xs)

  abbrev pub all : (A → Bool) → List A → Bool
  all p [] = true
  all p (x ∷ xs) = p x && all p xs

  abbrev pub any : (A → Bool) → List A → Bool
  any p [] = false
  any p (x ∷ xs) = p x || any p xs

  -- The first element that passes the test: `next((x for x in xs if p(x)), None)`.
  abbrev pub find? : (A → Bool) → List A → Option A
  find? p [] = none
  find? p (x ∷ xs) = if p x then some x else find? p xs

  -- `[x for x in xs if p(x)]`
  abbrev pub select : (A → Bool) → List A → List A
  select p [] = []
  select p (x ∷ xs) = let rest = select p xs in if p x then x ∷ rest else rest

  abbrev pub count : (A → Bool) → List A → ℕ
  count p [] = 0
  count p (x ∷ xs) = (if p x then 1 else 0) + count p xs

  abbrev pub is_empty : List A → Bool
  is_empty [] = true
  is_empty (x ∷ xs) = false

  abbrev pub All {κ} : (A → Type κ) → List A → Type κ
  All P [] = Unit
  All P (x ∷ xs) = P x × All P xs

  pub length-append : (xs ys : List A) → length (xs ++ ys) ≡ length xs + length ys
  length-append [] ys = omega arith
  length-append (x ∷ xs) ys = omega (arith, length-append xs ys)

  pub count-append : (p : A → Bool) (xs ys : List A) → count p (xs ++ ys) ≡ count p xs + count p ys
  count-append p [] ys = omega arith
  count-append p (x ∷ xs) ys = omega (arith, count-append p xs ys)

  pub All-impl {κ μ} :
      (P : A → Type κ) (Q : A → Type μ) (xs : List A) → ((x : A) → P x → Q x) → All P xs → All Q xs
  All-impl P Q [] f h = tt
  All-impl P Q (x ∷ xs) f h = (f x h.0, All-impl P Q xs f h.1)

  -- A statement about each element and the whole list.
  pub All-self {κ} :
      (P : A → List A → Type κ)
      → ((x : A) (xs : List A) → P x (x ∷ xs))
      → ((x y : A) (xs : List A) → P y xs → P y (x ∷ xs))
      → (xs : List A) → All (λ y. P y xs) xs
  All-self P here there [] = tt
  All-self P here there (x ∷ xs) =
      (here x xs, All-impl _ _ xs (λ y. there x y xs) (All-self P here there xs))

  pub All-select {κ} :
      (P : A → Type κ) (p : A → Bool) (xs : List A) → All P xs → All P (select p xs)
  All-select P p [] h = tt
  All-select P p (x ∷ xs) h = elim (Bool-cases (p x)) [
    | inl e ↦ rw e (h.0, All-select P p xs h.1)
    | inr e ↦ rw e (All-select P p xs h.1)
  ]

  pub All-select_test : (p : A → Bool) (xs : List A) → All (λ x. p x ≡ true) (select p xs)
  All-select_test p [] = tt
  All-select_test p (x ∷ xs) = elim (Bool-cases (p x)) [
    | inl e ↦ rw e (e, All-select_test p xs)
    | inr e ↦ rw e (All-select_test p xs)
  ]

pub any-false {ℓ} :
    {A : Type ℓ} (p : A → Bool) (xs : List A) → any p xs ≡ false → All (λ x. p x ≡ false) xs
any-false p [] h = tt
any-false p (x ∷ xs) h = (ground arith, any-false p xs (ground arith))

pub select-none {ℓ} :
    {A : Type ℓ} (p : A → Bool) (xs : List A)
    → is_empty (select p xs) ≡ true
    → All (λ x. p x ≡ false) xs
select-none p [] h = tt
select-none p (x ∷ xs) h = (ground arith, select-none p xs (ground arith))

pub all-All {ℓ} :
    {A : Type ℓ} (p : A → Bool) (xs : List A) → All (λ x. p x ≡ true) xs → all p xs ≡ true
all-All p [] h = refl
all-All p (x ∷ xs) h = ground (arith, all-All p xs h.1)

pub All-× {ℓ κ μ} :
    {A : Type ℓ} (P : A → Type κ) (Q : A → Type μ) (xs : List A)
    → All P xs
    → All Q xs
    → All (λ x. P x × Q x) xs
All-× P Q [] p q = tt
All-× P Q (x ∷ xs) p q = ((p.0, q.0), All-× P Q xs p.1 q.1)

module _ {ℓ} {A : Type ℓ} (p : A → Bool) where
  pub find?-some : (xs : List A) {x : A} → find? p xs ≡ some x → Memᴰ x xs × (p x ≡ true)
  find?-some [] h = cc
  find?-some (y ∷ xs) {x} h = elim (Bool-cases (p y)) [
    | inl e ↦ let same : x ≡ y = ground (arith, e, h) in (Memᴰ.head same, ground (arith, e, same))
    | inr e ↦ let rest = find?-some xs {x = x} (ground (arith, e, h)) in (Memᴰ.tail rest.0, rest.1)
  ]

  pub find?-none : (xs : List A) → find? p xs ≡ none → is_empty (select p xs) ≡ true
  find?-none [] h = refl
  find?-none (x ∷ xs) h = elim (Bool-cases (p x)) [
    | inl e ↦ absurd (ground (arith, e))
    | inr e ↦ let rest : find? p xs ≡ none = rw e at h in rw e (find?-none xs rest)
  ]

pub All-mem {ℓ κ} : {A : Type ℓ} (P : A → Type κ) (xs : List A) {x : A} → All P xs → Memᴰ x xs → P x
All-mem P [] h m = elim m [ ]
All-mem P (y ∷ xs) h (Memᴰ.head e) = subst P (sym e) h.0
All-mem P (y ∷ xs) h (Memᴰ.tail m) = All-mem P xs h.1 m

-- Membership of a text in a list, which also stands for a Python set of texts.
abbrev pub elem : String → List String → Bool
elem a = any (λ b. b == a)
