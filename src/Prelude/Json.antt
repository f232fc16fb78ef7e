-- ===== src/Prelude/Json.antt =====
-- The values that `json.loads` returns. A number is kept as whether it is zero, which
-- Python counts as false, and the text that `str` gives for it.
use Prim.Native.String.{String}
use mathlib.Core.Bool.{Bool, true, false}
use mathlib.Core.Option.{Option}
use text.Mathlib.Text.{◌==◌ as str_eq}
use human_llm_gateway.Prelude.Tests.{if◌then◌else◌}

mutual
  pub data Json : Type 0 where
    null : Json
    bool : Bool → Json
    num : Bool → String → Json
    str : String → Json
    arr : Items → Json
    obj : Fields → Json

  pub data Items : Type 0 where
    nil : Items
    cons : Json → Items → Items

  pub data Fields : Type 0 where
    end : Fields
    field : String → Json → Fields → Fields

-- `d.get(key)`; a missing key and a null are both `None`.
abbrev pub get_field : Fields → String → Json
get_field end key = null
get_field (field k v rest) key = let later = get_field rest key in if str_eq k key then v else later

-- `d.get(key)` of a value that may be no dict.
abbrev pub dict_get : Json → String → Json
dict_get (obj fields) key = get_field fields key
dict_get _ key = null

abbrev pub is_dict : Json → Bool
is_dict (obj fields) = true
is_dict _ = false

-- The text of a value that is a `str`.
abbrev pub as_text : Json → Option String
as_text (str s) = Option.some s
as_text _ = Option.none
