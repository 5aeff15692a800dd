-- ===== src/Json.antt =====
-- The values of encoding/json as Go's `any` holds them. A map is a list of its entries.
use openspmregistry.Prelude.{Bool, Option, none, some, if◌then◌else◌}
use openspmregistry.Strings.{Bytes, eq_bytes}

mutual
  pub data Json : Type 0 where
    null : Json
    boolean : Bool → Json
    -- a number, by its text
    number : Bytes → Json
    string : Bytes → Json
    array : Items → Json
    object : Fields → Json

  pub data Items : Type 0 where
    nil : Items
    cons : Json → Items → Items

  pub data Fields : Type 0 where
    end : Fields
    field : Bytes → Json → Fields → Fields

-- m[key]
unfoldable pub at : Bytes → Fields → Option Json
at key end = none
at key (field k v fs) = if eq_bytes k key then some v else at key fs

-- m[key].(string) with its ok
abbrev pub as_string : Option Json → Option Bytes
as_string (some (string s)) = some s
as_string _ = none

-- m[key].([]any)
abbrev pub as_array : Option Json → Option Items
as_array (some (array xs)) = some xs
as_array _ = none

-- m[key].(map[string]any)
abbrev pub as_object : Option Json → Option Fields
as_object (some (object fs)) = some fs
as_object _ = none
