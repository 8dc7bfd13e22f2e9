-- ===== src/Json.antt =====
-- The values that Python's json module reads and writes, and the text columns that hold them.
use mem0_platform_sidecar.Prelude.{ℕ, String, Bool, Option, none, some, if◌then◌else◌, ◌==◌}

-- `negsuc n` is -(n + 1).
pub data ℤ : Type 0 where
  pos : ℕ → ℤ
  negsuc : ℕ → ℤ

mutual
  pub data Json : Type 0 where
    null : Json
    boolean : Bool → Json
    int : ℤ → Json
    float : ℕ → Json  -- the 64 bits of an IEEE 754 double
    text : String → Json
    array : Items → Json
    object : Fields → Json

  pub data Items : Type 0 where
    nil : Items
    cons : Json → Items → Items

  pub data Fields : Type 0 where
    end : Fields
    field : String → Json → Fields → Fields

-- A text column. `none` is a text that `json.loads` refuses.
abbrev pub Column : Type 0
Column = Option Json

-- `json.dumps`, of a value that it can write
abbrev pub dumps : Json → Column
dumps value = some value

abbrev pub empty_object : Column
empty_object = some (object end)

-- `mapping.get(key)`
unfoldable pub get : String → Fields → Option Json
get key end = none
get key (field k value rest) = if k == key then some value else get key rest

-- `json.loads` of a column, and `{}` for what is not an object
unfoldable pub loads_object : Column → Fields
loads_object (some (object fields)) = fields
loads_object (some _) = end
loads_object none = end

abbrev pub single : String → Json → Fields
single key value = field key value end
