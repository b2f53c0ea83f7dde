-- ===== src/PointReceiver/Attributes.antt =====
-- The attributes that `pointreceiver_dequeue_point_cloud` of src/pointreceiver/pointreceiver.cc hands
-- out, and their functions. The memory of a vector, and the order of names, are parameters.
pub mod Decoded
pub mod Delivered
use pointcaster.Prelude.{
  ℕ, zero, suc, ◌+◌, ◌*◌, ◌%◌, ◌^◌, ◌==◌, ltb, String, Bool, true, false, Option, none, some, List,
  [], ◌∷◌, ◌++◌, str_eq, if◌then◌else◌, ◌&&◌, length,
}
use pointcaster.Prelude.Int.{pos}
use pointcaster.PointCloud.{
  Floats, Attribute, AttributeEncoding, RawType, uint8, uint16, int8, int16, Storage, of_positions,
  of_floats, of_integers, PointCloud, to_value, same_encoding, default_encoding, storage_size,
}
use pointcaster.PointReceiver.{Status, ok, invalid_argument}

-- `pointreceiver_attribute_type`
pub data AttributeType : Type 0 where
  attribute_float32 : AttributeType
  attribute_uint8 : AttributeType
  attribute_uint16 : AttributeType
  attribute_uint32 : AttributeType
  attribute_int8 : AttributeType
  attribute_int16 : AttributeType
  attribute_int32 : AttributeType
  attribute_other : AttributeType

-- `sizeof` of the type
abbrev pub bytes_of : AttributeType → ℕ
bytes_of attribute_float32 = 4
bytes_of attribute_uint8 = 1
bytes_of attribute_uint16 = 2
bytes_of attribute_uint32 = 4
bytes_of attribute_int8 = 1
bytes_of attribute_int16 = 2
bytes_of attribute_int32 = 4
bytes_of attribute_other = 0

abbrev pub wire_type : RawType → AttributeType
wire_type uint8 = attribute_uint8
wire_type uint16 = attribute_uint16
wire_type int8 = attribute_int8
wire_type int16 = attribute_int16

abbrev pub is_known : AttributeType → Bool
is_known attribute_other = false
is_known _ = true

abbrev pub is_float32 : AttributeType → Bool
is_float32 attribute_float32 = true
is_float32 _ = false

-- `pointreceiver_attribute`
pub record Descriptor (F : Type 0) : Type 0 where
  pub name : String
  -- The field `data`: null, or the value of a type at an offset in bytes, cast to `float`.
  pub contents : Option (AttributeType → ℕ → F)
  pub element_type : AttributeType
  pub element_count : ℕ
  pub component_count : ℕ
  pub stride : ℕ
  -- `quantisation_step` and `quantisation_offset`
  pub encoding : AttributeEncoding F

module _ {F : Type 0} where
  abbrev pub type_of : Storage F → AttributeType
  type_of (of_positions values) = attribute_int16
  type_of (of_floats values) = attribute_float32
  type_of (of_integers t values) = wire_type t

  -- Four for `position`, with its padding.
  abbrev pub components_of : Storage F → ℕ
  components_of (of_positions values) = 4
  components_of (of_floats values) = 1
  components_of (of_integers t values) = 1

  unfoldable pub describe :
      (Storage F → Option (AttributeType → ℕ → F)) → String → Attribute F → Descriptor F
  describe memory name a = record {
    name = name;
    contents = memory a.storage;
    element_type = type_of a.storage;
    element_count = storage_size a.storage;
    component_count = components_of a.storage;
    stride = bytes_of (type_of a.storage) * components_of a.storage;
    encoding = a.encoding;
  }

-- `std::ranges::sort` by name
module _ {F : Type 0} (before : String → String → Bool) where
  unfoldable pub insert_by_name : Descriptor F → List (Descriptor F) → List (Descriptor F)
  insert_by_name d [] = d ∷ []
  insert_by_name d (e ∷ ds) =
      let rest = insert_by_name d ds in if before e.name d.name then e ∷ rest else d ∷ e ∷ ds

  unfoldable pub described :
      (Storage F → Option (AttributeType → ℕ → F))
      → List (String × Attribute F)
      → List (Descriptor F)
  described memory [] = []
  described memory ((name, a) ∷ rest) =
      insert_by_name (describe memory name a) (described memory rest)

module _ {F : Type 0} where
  unfoldable pub find_named : String → List (Descriptor F) → Option (Descriptor F)
  find_named name [] = none
  find_named name (d ∷ ds) =
      let rest = find_named name ds in if str_eq d.name name then some d else rest

  -- The name and the table of a frame. A null pointer is `none`.
  unfoldable pub pointreceiver_find_attribute :
      Option String → Option (List (Descriptor F)) → Option (Descriptor F)
  pointreceiver_find_attribute none attributes = none
  pointreceiver_find_attribute (some name) none = none
  pointreceiver_find_attribute (some name) (some attributes) = find_named name attributes

  -- The values of consecutive components.
  unfoldable pub component_values : (ℕ → F) → ℕ → ℕ → ℕ → List F
  component_values value width start zero = []
  component_values value width start (suc n) =
      value start ∷ component_values value width (start + width) n

  -- The loop of `copy_as`.
  unfoldable pub copy_as : (ℕ → F) → ℕ → ℕ → ℕ → ℕ → ℕ → List F
  copy_as value width component_count stride start zero = []
  copy_as value width component_count stride start (suc n) =
      component_values value width start component_count
      ++ copy_as value width component_count stride (start + stride) n

module _ {F : Type 0} (floats : Floats F) where
  -- What is written from the start of `out`. A null pointer, and a null `out`, is `none`.
  unfoldable pub attribute_copy_floats : Option (Descriptor F) → Option ℕ → Status × List F
  attribute_copy_floats none out = (invalid_argument, [])
  attribute_copy_floats (some d) none = (invalid_argument, [])
  attribute_copy_floats (some d) (some out_capacity) = elim d.contents [
    | none ↦ (invalid_argument, [])
    | some value ↦
        let value_count = d.element_count * d.component_count % 2 ^ 64 in
        if ltb out_capacity value_count
        then (invalid_argument, [])
        else if is_float32 d.element_type
            && same_encoding floats d.encoding (default_encoding floats)
            && (d.stride == 4 * d.component_count)
        then (ok, component_values (value attribute_float32) 4 0 value_count)
        else if is_known d.element_type
        then (
          ok,
          copy_as (λ start. to_value floats d.encoding (value d.element_type start))
              (bytes_of d.element_type) d.component_count d.stride 0 d.element_count,
        )
        else (invalid_argument, [])
  ]
