-- ===== src/Store/Json.antt =====
-- Parsed JSON, the type of a webhook's payload. Numbers are integers: all that the code reads from
-- a payload are amounts and identifiers.
use graph_node_be.Common.{Bool, String, Option, none, some, if◌then◌else◌}
use graph_node_be.Common.Int.{ℤ}
use graph_node_be.Common.Text.{◌==◌}

mutual
  pub data Json : Type 0 where
    null : Json
    boolean : Bool → Json
    number : ℤ → Json
    text : String → Json
    array : Items → Json
    object : Fields → Json

  pub data Items : Type 0 where
    nil : Items
    cons : Json → Items → Items

  pub data Fields : Type 0 where
    end : Fields
    field : String → Json → Fields → Fields

-- `o[key]`; `JSON.parse` keeps one value per key, so the first is the only one. A missing key and
-- `null` are both `none`: the code only tests them together, by `??`.
abbrev pub get : String → Fields → Option Json
get key end = none
get key (field k null fs) = if k == key then none else get key fs
get key (field k v fs) = if k == key then some v else get key fs

-- `typeof v === 'object' ? v : null` for a value that is not null; an array has no string keys
-- that the code reads.
abbrev pub as_object : Option Json → Option Fields
as_object (some (object fs)) = some fs
as_object (some (array xs)) = some end
as_object _ = none

-- `o?.[key]`
abbrev pub get_in : String → Option Fields → Option Json
get_in key none = none
get_in key (some fs) = get key fs
