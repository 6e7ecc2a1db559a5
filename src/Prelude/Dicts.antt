-- ===== src/Prelude/Dicts.antt =====
-- Python's `dict` as an association list in insertion order: an update in place keeps its place.
use Prim.Native.String.{String}
use mathlib.Core.Path.{◌≡◌, refl}
use mathlib.Core.Logic.{◌↔◌}
use mathlib.Core.Bool.{Bool, true, false, not, ◌&&◌, ◌||◌}
use mathlib.Core.Option.{Option, none, some}
use mathlib.Core.List.{List, [], ◌∷◌}
use native.Mathlib.Omega.{arith}
use text.Mathlib.Text.{◌==◌ as str_eq}
use text.Mathlib.TextEquality.{eq_iff}
use prism_agent.Prelude.Tests.{if◌then◌else◌}

pub record Eq (K : Type 0) : Type 0 where
  pub beq : K → K → Bool
  pub beq_iff : (a b : K) → (beq a b ≡ true) ↔ (a ≡ b)

abbrev pub Key : Type 0
Key = String × String

abbrev pub key_eq : Key → Key → Bool
key_eq (a, b) (c, d) = str_eq a c && str_eq b d

pub key_eq_iff : (j k : Key) → (key_eq j k ≡ true) ↔ (j ≡ k)
key_eq_iff (a, b) (c, d) = ground (arith, eq_iff a c, eq_iff b d)

instance abbrev pub string_eq : Eq String
string_eq = record { beq = str_eq; beq_iff = eq_iff }

instance abbrev pub pair_eq : Eq Key
pair_eq = record { beq = key_eq; beq_iff = key_eq_iff }

abbrev pub Dict : Type 0 → Type 0 → Type 0
Dict K V = List (K × V)

module _ {K V : Type 0} ⦃e : Eq K⦄ where
  unfoldable pub lookup : K → Dict K V → Option V
  lookup k [] = none
  lookup k ((j, v) ∷ m) = if e.beq j k then some v else lookup k m

  unfoldable pub insert : K → V → Dict K V → Dict K V
  insert k v [] = (k, v) ∷ []
  insert k v ((j, w) ∷ m) = if e.beq j k then (k, v) ∷ m else (j, w) ∷ insert k v m

  pub lookup-insert :
      (k j : K) (v : V) (m : Dict K V)
      → lookup j (insert k v m) ≡ (if e.beq k j then some v else lookup j m)
  unfolding lookup insert
  lookup-insert k j v [] = refl
  lookup-insert k j v ((other, w) ∷ rest) =
      ground (arith, e.beq_iff other k, e.beq_iff other j, e.beq_iff k j, lookup-insert k j v rest)

  pub lookup-nil : (k : K) → lookup k [] ≡ none
  unfolding lookup
  lookup-nil k = refl

  pub lookup-cons :
      (k j : K) (v : V) (m : Dict K V)
      → lookup k ((j, v) ∷ m) ≡ (if e.beq j k then some v else lookup k m)
  unfolding lookup
  lookup-cons k j v m = refl

  pub lookup-insert_self : (k : K) (v : V) (m : Dict K V) → lookup k (insert k v m) ≡ some v
  lookup-insert_self k v m = ground (arith, lookup-insert k k v m, e.beq_iff k k)

module _ {V : Type 0} where
  abbrev pub has_key : String → Dict String V → Bool
  has_key k [] = false
  has_key k ((j, _) ∷ entries) = str_eq j k || has_key k entries

  -- A Python dict has each key once.
  abbrev pub distinct_keys : Dict String V → Bool
  distinct_keys [] = true
  distinct_keys ((j, _) ∷ entries) = not (has_key j entries) && distinct_keys entries

  pub lookup-absent : (k : String) (m : Dict String V) → has_key k m ≡ false → lookup k m ≡ none
  unfolding lookup
  lookup-absent k [] h = refl
  lookup-absent k ((j, v) ∷ m) h = ground (arith, lookup-absent k m)
