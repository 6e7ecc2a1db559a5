-- ===== src/Prelude/Fallible.antt =====
-- A computation that may raise `KeyError` or `ValueError`.
use Prim.Native.String.{String}
use mathlib.Core.Option.{Option, none, some}
use mathlib.Core.List.{List, [], ◌∷◌}

pub data Fallible (A : Type 0) : Type 0 where
  ok : A → Fallible A
  missing : (message : String) → Fallible A
  invalid : (message : String) → Fallible A

abbrev pub or_missing : {A : Type 0} → String → Option A → Fallible A
or_missing message none = missing message
or_missing message (some a) = ok a

module _ {A B : Type 0} where
  infixl 5 ◌>>=◌ ◌>>◌
  abbrev pub ◌>>=◌ : Fallible A → (A → Fallible B) → Fallible B
  ok a >>= f = f a
  missing message >>= f = missing message
  invalid message >>= f = invalid message

  abbrev pub ◌>>◌ : Fallible A → Fallible B → Fallible B
  m >> n = m >>= λ _. n

-- `[f(x) for x in xs]`
module _ {A B : Type 0} where
  unfoldable pub each : (A → Fallible B) → List A → Fallible (List B)
  each f [] = ok []
  each f (x ∷ xs) = f x >>= λ y. each f xs >>= λ ys. ok (y ∷ ys)
