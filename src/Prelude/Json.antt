-- ===== src/Prelude/Json.antt =====
-- The values that `json.loads` gives: `dict` is a list of fields in insertion order with distinct
-- keys, and a float is its text.
use Prim.Native.String.{String}
use mathlib.Core.Path.{◌≡◌, refl}
use mathlib.Core.Logic.{◌⊎◌, inl, inr}
use mathlib.Core.Bool.{Bool}
use mathlib.Core.Option.{Option, none, some}
use mathlib.Core.List.{List, [], ◌∷◌}
use specflow_agent.Prelude.Tests.{if◌then◌else◌}
use specflow_agent.Prelude.Equality.{◌==◌, string_eq}
use specflow_agent.Prelude.Int.{ℤ}

mutual
  pub data Value : Type 0 where
    null : Value
    bool : Bool → Value
    int : ℤ → Value
    float : String → Value
    str : String → Value
    arr : Items → Value
    obj : Fields → Value

  pub data Items : Type 0 where
    nil : Items
    item : Value → Items → Items

  pub data Fields : Type 0 where
    end : Fields
    field : String → Value → Fields → Fields

unfoldable pub items_of : Items → List Value
items_of nil = []
items_of (item v vs) = v ∷ items_of vs

unfoldable pub keys_of : Fields → List Value
keys_of end = []
keys_of (field k v fs) = str k ∷ keys_of fs

unfoldable pub chars_of : String → List Value
chars_of String.[] = []
chars_of (String.◌∷◌ c s) = str (String.◌∷◌ c String.[]) ∷ chars_of s

-- d.get(key)
unfoldable pub field_of : Fields → String → Option Value
field_of end key = none
field_of (field k v fs) key = if k == key then some v else field_of fs key

-- d.get(key, default)
abbrev pub or_default : Option Value → Value → Value
or_default none default = default
or_default (some v) default = v

-- What `tuple(v)` has, where `v` is iterable.
unfoldable pub iterate : Value → Option (List Value)
unfolding items_of keys_of chars_of
iterate (str s) = some (chars_of s)
iterate (arr vs) = some (items_of vs)
iterate (obj fs) = some (keys_of fs)
iterate _ = none

-- What `json.loads` does with a text: a value, a JSONDecodeError, or another exception, such as the
-- ValueError of a number with too many digits or a RecursionError
pub data Parsed : Type 0 where
  parsed : Value → Parsed
  decode_error : Parsed
  other_error : String → Parsed

pub Parsed-cases :
    (p : Parsed)
    → ((v : Value) × (p ≡ parsed v)) ⊎ ((p ≡ decode_error) ⊎ ((e : String) × (p ≡ other_error e)))
Parsed-cases (parsed v) = inl (v, refl)
Parsed-cases decode_error = inr (inl refl)
Parsed-cases (other_error e) = inr (inr (e, refl))
