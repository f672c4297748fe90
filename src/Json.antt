-- ===== src/Json.antt =====
-- Decoded JSON documents, as json.loads gives them. Of a number that is no integer only its
-- kind is kept.
use fcapsule_lab.Prelude.{String, Bool, Option, none, some, ℤ, str_eq, if◌then◌else◌}

mutual
  pub data Json : Type 0 where
    null : Json
    boolean : Bool → Json
    number : ℤ → Json
    real : Json
    text : String → Json
    array : Items → Json
    object : Fields → Json

  pub data Items : Type 0 where
    nil : Items
    cons : Json → Items → Items

  pub data Fields : Type 0 where
    end : Fields
    field : String → Json → Fields → Fields

-- d.get(k); `none` where the key is absent
unfoldable pub get : String → Fields → Option Json
get k end = none
get k (field j v d) = if str_eq j k then some v else get k d
