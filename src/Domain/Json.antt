-- ===== src/Domain/Json.antt =====
-- The values of the `dict[str, Any]` fields of the models: JSON.
use prism_agent.Prelude.{
  ℕ, zero, suc, String, Bool, true, false, not, ◌||◌, Option, none, some, if◌then◌else◌, ◌==◌,
}

-- An integer that is not negative is a number; any other number is kept as it is written.
mutual
  pub data Json : Type 0 where
    null : Json
    boolean : Bool → Json
    integer : ℕ → Json
    number : String → Json
    text : String → Json
    array : Items → Json
    object : Fields → Json

  pub data Items : Type 0 where
    nil : Items
    cons : Json → Items → Items

  pub data Fields : Type 0 where
    end : Fields
    field : String → Json → Fields → Fields

-- `data.get(key)`
unfoldable pub get : Fields → String → Option Json
get end key = none
get (field k v rest) key = if k == key then some v else get rest key

-- `data.pop(key, None)`. A key stands once in a dict.
unfoldable pub remove : Fields → String → Fields
remove end key = end
remove (field k v rest) key = if k == key then rest else field k v (remove rest key)

-- `data[key] = value`
unfoldable pub set : Fields → String → Json → Fields
set end key value = field key value end
set (field k v rest) key value =
    if k == key then field k value rest else field k v (set rest key value)

-- Python's truth of a JSON value.
abbrev pub is_true : Json → Bool
is_true null = false
is_true (boolean b) = b
is_true (integer zero) = false
is_true (integer (suc n)) = true
is_true (number written) = not (written == "0.0" || written == "-0.0")
is_true (text t) = not (t == "")
is_true (array nil) = false
is_true (array (cons v rest)) = true
is_true (object end) = false
is_true (object (field k v rest)) = true

-- `a or b` for two values of which either may be absent.
abbrev pub json_or : Option Json → Option Json → Option Json
json_or none b = b
json_or (some a) b = if is_true a then some a else b
