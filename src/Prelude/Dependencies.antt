-- ===== src/Prelude/Dependencies.antt =====
-- Items that wait for one another by name: when none can start, and the dependencies have no cycle,
-- all of them are completed. Task graphs and plans are instances.
use Prim.Native.Nat.{ℕ, zero, suc, ◌≤◌, ◌<◌}
use Prim.Native.String.{String}
use mathlib.Core.Path.{◌≡◌, refl, ap}
use mathlib.Core.Logic.{◌⊎◌, inl, inr}
use mathlib.Core.Bool.{Bool, true, false, ◌&&◌}
use mathlib.Core.List.{List, [], ◌∷◌, map}
use native.Mathlib.Omega.{arith}
use text.Mathlib.Text.{◌==◌}
use text.Mathlib.TextEquality.{eq_iff}
use prism_agent.Prelude.Lists.{
  All, All-impl, All-×, all, all-All, select, select-none, is_empty, elem,
}

all-below {κ} :
    (P : String → Type κ) (Q : String → Type κ) (R : String → Bool) (deps : List String)
    → ((d : String) → P d → Q d → R d ≡ true)
    → All P deps
    → All Q deps
    → all R deps ≡ true
all-below P Q R [] f p q = refl
all-below P Q R (d ∷ deps) f p q = ground (arith, f d p.0 q.0, all-below P Q R deps f p.1 q.1)

module _ {A : Type 0} (id : A → String) (deps : A → List String) where
  -- `rank` puts every dependency of an item below it, so the dependencies have no cycle.
  abbrev pub IsRanked : (String → ℕ) → List A → Type 0
  IsRanked rank = All (λ item. All (λ d. rank d < rank (id item)) (deps item))

  -- Every dependency is one of the names `known`.
  abbrev pub IsClosed : List String → List A → Type 0
  IsClosed known = All (λ item. All (λ d. elem d known ≡ true) (deps item))

module _ {A : Type 0} (id : A → String) (deps : A → List String) (waits completed : A → Bool)
    (rank : String → ℕ) (items : List A) where
  -- A name whose every bearer is completed is one of the completed names.
  elem-completed :
      (d : String) (part : List A)
      → elem d (map id part) ≡ true
      → All (λ m. (id m == d) ≡ true → completed m ≡ true) part
      → elem d (map id (select completed part)) ≡ true
  elem-completed d [] h settled = h
  elem-completed d (m ∷ part) h settled =
      ground
        (arith, settled.0, λ (r : elem d (map id part) ≡ true). elem-completed d part r settled.1)

  abbrev done : List String
  done = map id (select completed items)

  abbrev can_start : A → Bool
  can_start item = waits item && all (λ d. elem d done) (deps item)

  abbrev IsWaiting : A → Type 0
  IsWaiting n =
      All (λ d. rank d < rank (id n)) (deps n)
      × (All (λ d. elem d (map id items) ≡ true) (deps n)
          × ((can_start n ≡ false) × ((waits n ≡ true) ⊎ (completed n ≡ true))))

  abbrev CompletedBelow : ℕ → A → Type 0
  CompletedBelow k n = rank (id n) < k → completed n ≡ true

  named-completed :
      (k : ℕ) (d : String) (m : A)
      → rank d < k
      → CompletedBelow k m
      → (id m == d) ≡ true
      → completed m ≡ true
  named-completed k d m lt below named =
      let same = (eq_iff (id m) d).0 named in below (omega (arith, ap rank same))

  unblocked-of_below :
      (k : ℕ) (n : A)
      → IsWaiting n
      → rank (id n) ≤ k
      → All (CompletedBelow k) items
      → all (λ d. elem d done) (deps n) ≡ true
  unblocked-of_below k n w le below =
      all-below (λ d. rank d < rank (id n)) (λ d. elem d (map id items) ≡ true) (λ d. elem d done)
        (deps n)
        (λ d lt known.
          elem-completed d items known
            (All-impl _ _ items (λ m. named-completed k d m (omega arith)) below))
        w.0 w.1.0

  item-completed :
      (k : ℕ) (n : A) → All (CompletedBelow k) items → IsWaiting n → CompletedBelow (suc k) n
  item-completed k n below w lt = elim w.1.1.1 [
    | inl waiting ↦
        absurd (ground (arith, waiting, unblocked-of_below k n w (omega arith) below, w.1.1.0))
    | inr ended ↦ ended
  ]

  descent : (k : ℕ) → All IsWaiting items → All (CompletedBelow k) items
  descent zero waiting = All-impl IsWaiting _ items (λ n _ h. absurd (omega arith)) waiting
  descent (suc k) waiting =
      All-impl IsWaiting (CompletedBelow (suc k)) items
        (λ n. item-completed k n (descent k waiting)) waiting

  -- No item can start, and each one waits or is completed: then all are completed.
  pub all_completed-of_idle :
      IsRanked id deps rank items
      → IsClosed id deps (map id items) items
      → is_empty (select can_start items) ≡ true
      → All (λ n. (waits n ≡ true) ⊎ (completed n ≡ true)) items
      → all completed items ≡ true
  all_completed-of_idle ranked closed idle settled = all-All completed items (
      All-impl IsWaiting _ items
        (λ n w. item-completed (rank (id n)) n (descent (rank (id n)) waiting) w (omega arith))
        waiting)
    where
      waiting : All IsWaiting items
      waiting =
          All-× _ _ items ranked
            (All-× _ _ items closed (All-× _ _ items (select-none can_start items idle) settled))
