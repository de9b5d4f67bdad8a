-- ===== src/Specification/Json.antt =====
-- An untyped JSON document, as `encoding/json` decodes it into `map[string]interface{}`.
use swagger_hub_controller.Base.{String, Option, none, some, Bool, if◌then◌else◌, ◌==◌}

mutual
  pub data Json : Type 0 where
    null : Json
    boolean : Bool → Json
    -- a number, by its digits
    number : String → Json
    string : String → Json
    array : Items → Json
    object : Fields → Json

  pub data Items : Type 0 where
    nil : Items
    cons : Json → Items → Items

  pub data Fields : Type 0 where
    end : Fields
    field : String → Json → Fields → Fields

-- `v, ok := m[k]`
unfoldable pub get_field : String → Fields → Option Json
get_field k end = none
get_field k (field j v fs) = if j == k then some v else get_field k fs

-- `m[k] = v`
unfoldable pub set_field : String → Json → Fields → Fields
set_field k v end = field k v end
set_field k v (field j w fs) = if j == k then field k v fs else field j w (set_field k v fs)
