-- ===== src/Config/Metadata.antt =====
-- `checkMetadata` of internal/config/config.go, over the values that decoded JSON holds.
use docker_smartclips.Prelude.{ℕ, ◌+◌, Bool, Option, none, some, ltb, if◌then◌else◌}
use docker_smartclips.Config.Names.{Text, valid_key}

mutual
  -- A JSON number is the bit pattern of its float64.
  pub data Value : Type 0 where
    null : Value
    text : Text → Value
    number : ℕ → Value
    boolean : Bool → Value
    array : Items → Value
    object : Fields → Value

  pub data Items : Type 0 where
    no_items : Items
    item : Value → Items → Items

  -- A map, in the order in which the loop meets its keys.
  pub data Fields : Type 0 where
    no_fields : Fields
    field : Text → Value → Fields → Fields

pub data MetadataError : Type 0 where
  too_deep : MetadataError
  bad_key : Text → MetadataError

abbrev pub first_error : Option MetadataError → Option MetadataError → Option MetadataError
first_error none e = e
first_error (some e) f = some e

-- `none` is the nil error; decoded JSON has no value of another type.
unfoldable mutual
  pub check_metadata : Value → ℕ → Option MetadataError
  check_metadata null depth = if ltb 3 depth then some too_deep else none
  check_metadata (text s) depth = if ltb 3 depth then some too_deep else none
  check_metadata (number f) depth = if ltb 3 depth then some too_deep else none
  check_metadata (boolean b) depth = if ltb 3 depth then some too_deep else none
  check_metadata (array items) depth =
      if ltb 3 depth then some too_deep else check_items items (depth + 1)
  check_metadata (object fields) depth =
      if ltb 3 depth then some too_deep else check_fields fields (depth + 1)

  pub check_items : Items → ℕ → Option MetadataError
  check_items no_items depth = none
  check_items (item v items) depth = first_error (check_metadata v depth) (check_items items depth)

  pub check_fields : Fields → ℕ → Option MetadataError
  check_fields no_fields depth = none
  check_fields (field k v fields) depth =
      if valid_key k
      then first_error (check_metadata v depth) (check_fields fields depth)
      else some (bad_key k)
