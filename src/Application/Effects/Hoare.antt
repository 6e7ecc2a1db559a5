-- ===== src/Application/Effects/Hoare.antt =====
-- What holds after an action, by what it returns, with one rule for each way to build an action.
use prism_agent.Prelude.{Bool, true, false, if◌then◌else◌, ◌≡◌, refl}
use mathlib.Core.Path.{subst}
use prism_agent.Prelude.Fallible.{Fallible, ok, missing, invalid}
use prism_agent.Application.Effects.{
  Runtime, Action, Error, Result, return, raise, pure, throw, gets, modify, of_fallible, ◌>>=◌,
  continue,
}
use prism_agent.Application.Effects.Keeps.{Keeps}

abbrev pub After :
    {A : Type 0} → (A → Runtime → Type 0) → (Runtime → Type 0) → Result A → Runtime → Type 0
After Q E (return a) s = Q a s
After Q E (raise e) s = E s

-- From a state with `P`, the action ends in `Q` with its value, or raises and ends in `E`.
pub record Hoare {A : Type 0} (P : Runtime → Type 0) (m : Action A) (Q : A → Runtime → Type 0)
    (E : Runtime → Type 0) : Type 0 where
  pub at : (s : Runtime) → P s → After Q E (m s).0 (m s).1

module _ {A : Type 0} {P : Runtime → Type 0} {Q : A → Runtime → Type 0} {E : Runtime → Type 0} where
  pub Hoare-pure : (a : A) → ((s : Runtime) → P s → Q a s) → Hoare P (pure a) Q E
  unfolding pure
  Hoare-pure a k = record { at = k }

  pub Hoare-throw : (e : Error) → ((s : Runtime) → P s → E s) → Hoare P (throw {A = A} e) Q E
  unfolding throw
  Hoare-throw e k = record { at = k }

  pub Hoare-if :
      (b : Bool) (m n : Action A)
      → (b ≡ true → Hoare P m Q E)
      → (b ≡ false → Hoare P n Q E)
      → Hoare P (if b then m else n) Q E
  Hoare-if true m n km kn = km refl
  Hoare-if false m n km kn = kn refl

  pub Hoare-weaken :
      (P' : Runtime → Type 0) (m : Action A)
      → ((s : Runtime) → P' s → P s)
      → Hoare P m Q E
      → Hoare P' m Q E
  Hoare-weaken P' m k h = record { at = λ s p. h.at s (k s p) }

  -- What is known of a value that is returned.
  pub Hoare-return :
      (m : Action A) {a : A}
      → Hoare P m Q E
      → (s : Runtime) → P s
      → (m s).0 ≡ return a
      → Q a (m s).1
  Hoare-return m h s p e = subst (λ r. After Q E r (m s).1) e (h.at s p)

  After-of_Keeps :
      (r : Result A) (s : Runtime)
      → ((a : A) (s : Runtime) → P s → Q a s)
      → ((s : Runtime) → P s → E s)
      → P s
      → After Q E r s
  After-of_Keeps (return a) s q e h = q a s h
  After-of_Keeps (raise x) s q e h = e s h

  -- An action that keeps `P` ends in whatever follows from `P`.
  pub Hoare-of_Keeps :
      (m : Action A)
      → Keeps P m
      → ((a : A) (s : Runtime) → P s → Q a s)
      → ((s : Runtime) → P s → E s)
      → Hoare P m Q E
  Hoare-of_Keeps m k q e = record { at = λ s h. After-of_Keeps (m s).0 (m s).1 q e (k.at s h) }

pub Hoare-modify :
    {P : Runtime → Type 0} {Q : Unit {0} → Runtime → Type 0} {E : Runtime → Type 0}
    (f : Runtime → Runtime)
    → ((s : Runtime) → P s → Q tt (f s))
    → Hoare P (modify f) Q E
unfolding modify
Hoare-modify f k = record { at = k }

module _ {A B : Type 0} {Q : B → Runtime → Type 0} {E : Runtime → Type 0} where
  After-continue :
      (R : A → Runtime → Type 0) (r : Result A) (f : A → Action B) (s : Runtime)
      → ((a : A) → Hoare (R a) (f a) Q E)
      → After R E r s
      → After Q E (continue r f s).0 (continue r f s).1
  After-continue R (return a) f s kf h = (kf a).at s h
  After-continue R (raise e) f s kf h = h

module _ {A B : Type 0} {P : Runtime → Type 0} {Q : B → Runtime → Type 0}
    {E : Runtime → Type 0} where
  pub Hoare-gets :
      (f : Runtime → A) (g : A → Action B)
      → ((a : A) → Hoare (λ s. P s × (a ≡ f s)) (g a) Q E)
      → Hoare P (gets f >>= g) Q E
  unfolding ◌>>=◌ gets
  Hoare-gets f g k = record { at = λ s h. (k (f s)).at s (h, refl) }

  pub Hoare-bind :
      (R : A → Runtime → Type 0) (m : Action A) (f : A → Action B)
      → Hoare P m R E
      → ((a : A) → Hoare (R a) (f a) Q E)
      → Hoare P (m >>= f) Q E
  unfolding ◌>>=◌
  Hoare-bind R m f km kf = record { at = λ s h. After-continue R (m s).0 f (m s).1 kf (km.at s h) }

  -- A first part that keeps `P`.
  pub Hoare-then :
      (m : Action A) (f : A → Action B)
      → Keeps P m
      → ((s : Runtime) → P s → E s)
      → ((a : A) → Hoare P (f a) Q E)
      → Hoare P (m >>= f) Q E
  Hoare-then m f k e kf = Hoare-bind (λ _. P) m f (Hoare-of_Keeps m k (λ _ _ h. h) e) kf

  -- A lookup that may raise.
  pub Hoare-of_fallible :
      (m : Fallible A) (f : A → Action B)
      → ((s : Runtime) → P s → E s)
      → ((a : A) → m ≡ ok a → Hoare P (f a) Q E)
      → Hoare P (of_fallible m >>= f) Q E
  unfolding ◌>>=◌ of_fallible
  Hoare-of_fallible (ok a) f e k = record { at = λ s h. (k a refl).at s h }
  Hoare-of_fallible (missing message) f e k = record { at = e }
  Hoare-of_fallible (invalid message) f e k = record { at = e }
