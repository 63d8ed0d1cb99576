-- ===== src/Config/Nesting.antt =====
-- `checkMetadata` against the depth and the keys of a value.
use docker_smartclips.Prelude.{
  ℕ, ◌+◌, ◌≤◌, ◌≡◌, ◌↔◌, refl, max, inl, inr, arith, true, Bool-cases, Option, none, some, ltb,
  if◌then◌else◌,
}
use docker_smartclips.Config.Names.{valid_key}
use docker_smartclips.Config.Metadata.{
  Value, null, text, number, boolean, array, object, Items, no_items, item, Fields, no_fields,
  field, MetadataError, too_deep, first_error, check_metadata, check_items, check_fields,
}

-- How deep maps and arrays are nested in a value.
unfoldable mutual
  pub nesting : Value → ℕ
  nesting null = 0
  nesting (text s) = 0
  nesting (number f) = 0
  nesting (boolean b) = 0
  nesting (array items) = items_nesting items
  nesting (object fields) = fields_nesting fields

  -- One level for a member, and those below it.
  pub items_nesting : Items → ℕ
  items_nesting no_items = 0
  items_nesting (item v items) = max (1 + nesting v) (items_nesting items)

  pub fields_nesting : Fields → ℕ
  fields_nesting no_fields = 0
  fields_nesting (field k v fields) = max (1 + nesting v) (fields_nesting fields)

-- Every key of every map is a valid one.
unfoldable mutual
  pub HasValidKeys : Value → Type 0
  HasValidKeys null = Unit
  HasValidKeys (text s) = Unit
  HasValidKeys (number f) = Unit
  HasValidKeys (boolean b) = Unit
  HasValidKeys (array items) = ItemsHaveValidKeys items
  HasValidKeys (object fields) = FieldsHaveValidKeys fields

  pub ItemsHaveValidKeys : Items → Type 0
  ItemsHaveValidKeys no_items = Unit
  ItemsHaveValidKeys (item v items) = HasValidKeys v × ItemsHaveValidKeys items

  pub FieldsHaveValidKeys : Fields → Type 0
  FieldsHaveValidKeys no_fields = Unit
  FieldsHaveValidKeys (field k v fields) =
      (valid_key k ≡ true) × HasValidKeys v × FieldsHaveValidKeys fields

first_error-none : (e f : Option MetadataError) → first_error e f ≡ none → (e ≡ none) × (f ≡ none)
first_error-none none f h = (refl, h)
first_error-none (some e) f h = absurd (cc)

-- Three levels below depth `d` at most, and only valid keys.
abbrev pub IsTidy : ℕ → ℕ → Type 0 → Type 0
IsTidy d levels Keys = (d + levels ≤ 3) × Keys

abbrev scalar : ℕ → Option MetadataError
scalar d = if ltb 3 d then some too_deep else none

scalar→IsTidy : (d : ℕ) → scalar d ≡ none → IsTidy d 0 Unit
scalar→IsTidy d h = (ground arith, tt)

IsTidy→scalar : (d : ℕ) → IsTidy d 0 Unit → scalar d ≡ none
IsTidy→scalar d h = let le = h.0 in ground arith

shallow :
    (d : ℕ) (e : Option MetadataError)
    → (if ltb 3 d then some too_deep else e) ≡ none
    → (d ≤ 3) × (e ≡ none)
shallow d e h = (ground arith, ground arith)

not_deep :
    (d : ℕ) (e : Option MetadataError)
    → d ≤ 3
    → e ≡ none
    → (if ltb 3 d then some too_deep else e) ≡ none
not_deep d e le h = ground arith

mutual
  unfolding check_metadata nesting HasValidKeys

  check_metadata→IsTidy :
      (v : Value) (d : ℕ) → check_metadata v d ≡ none → IsTidy d (nesting v) (HasValidKeys v)
  check_metadata→IsTidy null d h = scalar→IsTidy d h
  check_metadata→IsTidy (text s) d h = scalar→IsTidy d h
  check_metadata→IsTidy (number f) d h = scalar→IsTidy d h
  check_metadata→IsTidy (boolean b) d h = scalar→IsTidy d h
  check_metadata→IsTidy (array items) d h =
      let (le, k) = shallow d (check_items items (d + 1)) h in check_items→IsTidy items d le k
  check_metadata→IsTidy (object fields) d h =
      let (le, k) = shallow d (check_fields fields (d + 1)) h in check_fields→IsTidy fields d le k

  check_items→IsTidy :
      (items : Items) (d : ℕ)
      → d ≤ 3
      → check_items items (d + 1) ≡ none
      → IsTidy d (items_nesting items) (ItemsHaveValidKeys items)
  check_items→IsTidy no_items d le h = (omega arith, tt)
  check_items→IsTidy (item v items) d le h =
      let (first, rest) =
        first_error-none (check_metadata v (d + 1)) (check_items items (d + 1)) h in
      let (a, keys) = check_metadata→IsTidy v (d + 1) first in
      let (b, more) = check_items→IsTidy items d le rest in (omega (arith, a, b), (keys, more))

  check_fields→IsTidy :
      (fields : Fields) (d : ℕ)
      → d ≤ 3
      → check_fields fields (d + 1) ≡ none
      → IsTidy d (fields_nesting fields) (FieldsHaveValidKeys fields)
  check_fields→IsTidy no_fields d le h = (omega arith, tt)
  check_fields→IsTidy (field k v fields) d le h = elim (Bool-cases (valid_key k)) [
    | inr f ↦ absurd (ground arith)
    | inl t ↦
        let both : first_error (check_metadata v (d + 1)) (check_fields fields (d + 1)) ≡ none =
          rw t at h in
        let (first, rest) =
          first_error-none (check_metadata v (d + 1)) (check_fields fields (d + 1)) both in
        let (a, keys) = check_metadata→IsTidy v (d + 1) first in
        let (b, more) = check_fields→IsTidy fields d le rest in
        (omega (arith, a, b), (t, keys, more))
  ]

mutual
  unfolding check_metadata nesting HasValidKeys

  IsTidy→check_metadata :
      (v : Value) (d : ℕ) → IsTidy d (nesting v) (HasValidKeys v) → check_metadata v d ≡ none
  IsTidy→check_metadata null d h = IsTidy→scalar d h
  IsTidy→check_metadata (text s) d h = IsTidy→scalar d h
  IsTidy→check_metadata (number f) d h = IsTidy→scalar d h
  IsTidy→check_metadata (boolean b) d h = IsTidy→scalar d h
  IsTidy→check_metadata (array items) d h =
      not_deep d (check_items items (d + 1)) (omega (arith, h.0)) (IsTidy→check_items items d h)
  IsTidy→check_metadata (object fields) d h =
      not_deep d (check_fields fields (d + 1)) (omega (arith, h.0)) (IsTidy→check_fields fields d h)

  IsTidy→check_items :
      (items : Items) (d : ℕ)
      → IsTidy d (items_nesting items) (ItemsHaveValidKeys items)
      → check_items items (d + 1) ≡ none
  IsTidy→check_items no_items d h = refl
  IsTidy→check_items (item v items) d h =
      let first = IsTidy→check_metadata v (d + 1) (omega (arith, h.0), h.1.0) in
      let rest = IsTidy→check_items items d (omega (arith, h.0), h.1.1) in rw (first, rest) refl

  IsTidy→check_fields :
      (fields : Fields) (d : ℕ)
      → IsTidy d (fields_nesting fields) (FieldsHaveValidKeys fields)
      → check_fields fields (d + 1) ≡ none
  IsTidy→check_fields no_fields d h = refl
  IsTidy→check_fields (field k v fields) d h =
      let first = IsTidy→check_metadata v (d + 1) (omega (arith, h.0), h.1.1) in
      let rest = IsTidy→check_fields fields d (omega (arith, h.0), h.1.2) in
      rw (h.1.0, first, rest) refl

-- The metadata check accepts a value exactly where its maps and arrays are nested three levels deep at
-- most and every key of every map is a valid XML element name that does not start with "xml".
pub check_metadata_iff :
    (v : Value) → (check_metadata v 0 ≡ none) ↔ ((nesting v ≤ 3) × HasValidKeys v)
check_metadata_iff v = (
  λ h. let (a, keys) = check_metadata→IsTidy v 0 h in (omega (arith, a), keys),
  λ h. IsTidy→check_metadata v 0 (omega (arith, h.0), h.1),
)
