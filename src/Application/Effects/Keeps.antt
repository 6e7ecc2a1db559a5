-- ===== src/Application/Effects/Keeps.antt =====
-- Invariants of actions, one rule for each way to build one.
use prism_agent.Prelude.{Bool, true, false, if◌then◌else◌, ◌++◌, ◌∷◌, [], List}
use prism_agent.Prelude.Fallible.{Fallible, ok, missing, invalid}
use prism_agent.Application.Effects.{
  of_fallible, Runtime, Action, Error, Result, return, raise, Answer, OutsideCall, pure, throw,
  gets, outside, try_except, modify, ◌>>=◌, continue, result_or,
}

-- `m` keeps `P`, whether it returns or raises.
pub record Keeps {A : Type 0} (P : Runtime → Type 0) (m : Action A) : Type 0 where
  pub at : (s : Runtime) → P s → P (m s).1

module _ {A : Type 0} {P : Runtime → Type 0} where
  pub Keeps-pure : (a : A) → Keeps P (pure a)
  unfolding pure
  Keeps-pure a = record { at = λ s h. h }

  pub Keeps-throw : (e : Error) → Keeps P (throw {A = A} e)
  unfolding throw
  Keeps-throw e = record { at = λ s h. h }

  pub Keeps-of_fallible : (m : Fallible A) → Keeps P (of_fallible m)
  unfolding of_fallible
  Keeps-of_fallible (ok a) = record { at = λ s h. h }
  Keeps-of_fallible (missing message) = record { at = λ s h. h }
  Keeps-of_fallible (invalid message) = record { at = λ s h. h }

  pub Keeps-gets : (f : Runtime → A) → Keeps P (gets f)
  unfolding gets
  Keeps-gets f = record { at = λ s h. h }

  pub Keeps-outside :
      (call : OutsideCall) (answer : List OutsideCall → Answer A)
      → ((s : Runtime) → P s → P (record s { calls = s.calls ++ call ∷ [] }))
      → Keeps P (outside call answer)
  unfolding outside
  Keeps-outside call answer k = record { at = k }

  pub Keeps-if : (b : Bool) (m n : Action A) → Keeps P m → Keeps P n → Keeps P (if b then m else n)
  Keeps-if true m n km kn = km
  Keeps-if false m n km kn = kn

  pub Keeps-result_or :
      (r : Result A) (handler : Error → Action A)
      → ((e : Error) → Keeps P (handler e))
      → Keeps P (result_or r handler)
  Keeps-result_or (return a) handler kh = record { at = λ s h. h }
  Keeps-result_or (raise e) handler kh = kh e

  pub Keeps-try_except :
      (m : Action A) (handler : Error → Action A)
      → Keeps P m
      → ((e : Error) → Keeps P (handler e))
      → Keeps P (try_except m handler)
  unfolding try_except
  Keeps-try_except m handler km kh = record {
    at = λ s h. let (r, s') = m s in (Keeps-result_or r handler kh).at s' (km.at s h);
  }

pub Keeps-modify :
    {P : Runtime → Type 0} (f : Runtime → Runtime)
    → ((s : Runtime) → P s → P (f s))
    → Keeps P (modify f)
unfolding modify
Keeps-modify f k = record { at = k }

module _ {A B : Type 0} {P : Runtime → Type 0} where
  pub Keeps-continue :
      (r : Result A) (f : A → Action B) → ((a : A) → Keeps P (f a)) → Keeps P (continue r f)
  Keeps-continue (return a) f kf = kf a
  Keeps-continue (raise e) f kf = record { at = λ s h. h }

  pub Keeps-bind :
      (first : Action A) (next : A → Action B)
      → Keeps P first
      → ((a : A) → Keeps P (next a))
      → Keeps P (first >>= next)
  unfolding ◌>>=◌
  Keeps-bind first next k l = record {
    at = λ s h. let (ended, s') = first s in (Keeps-continue ended next l).at s' (k.at s h);
  }

pub ruleset keeps_rules =
    (Keeps-pure, Keeps-throw, Keeps-of_fallible, Keeps-gets, Keeps-if, Keeps-bind)
