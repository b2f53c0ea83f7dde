-- ===== src/PlyLayout/Targets.antt =====
-- How the properties of points are imported: src/config/attribute_config.h, the encodings of
-- include/pointcaster/core_types.h and the targets of `read_point_cloud` in
-- src/plugins/devices/ply/ply_layout.cc.
pub mod First
use pointcaster.Prelude.{
  ℕ, String, Bool, true, false, Option, none, some, List, [], ◌∷◌, ◌++◌, str_eq, not, ◌||◌,
  if◌then◌else◌,
}
use pointcaster.Prelude.Int.{pos}
use pointcaster.PointCloud.{
  Floats, AttributeEncoding, RawType, uint8, uint16, int8, int16, lowest, highest, default_encoding,
  zero_float,
}
use pointcaster.PlyLayout.{Element, property_of}

pub data AttributeTarget : Type 0 where
  no_target : AttributeTarget
  point_scale : AttributeTarget

pub data AttributePrecision : Type 0 where
  full : AttributePrecision
  bits16 : AttributePrecision
  bits8 : AttributePrecision

pub record AttributeConfiguration (F : Type 0) : Type 0 where
  pub name : String
  pub target : AttributeTarget
  pub precision : AttributePrecision
  pub range_min : F
  pub range_max : F

abbrev pub cloud_attribute_name : AttributeTarget → String
cloud_attribute_name point_scale = "point_scale"
cloud_attribute_name no_target = ""

abbrev pub same_target : AttributeTarget → AttributeTarget → Bool
same_target no_target no_target = true
same_target point_scale point_scale = true
same_target _ _ = false

module _ {F : Type 0} (floats : Floats F) where
  open floats use {sub, mul, div, lt, of_int}

  -- `visit_raw_type`: no type at full precision.
  unfoldable pub raw_type_for : AttributePrecision → Bool → Option RawType
  raw_type_for full signed_raw_type = none
  raw_type_for bits16 signed_raw_type = some (if signed_raw_type then int16 else uint16)
  raw_type_for bits8 signed_raw_type = some (if signed_raw_type then int8 else uint8)

  unfoldable pub visit_raw_type : AttributeConfiguration F → Option RawType
  visit_raw_type c = raw_type_for c.precision (lt c.range_min (zero_float floats))

  unfoldable pub attribute_encoding_for_range : RawType → F → F → AttributeEncoding F
  attribute_encoding_for_range t range_min range_max =
      let low = of_int (lowest t) in
      let step = div (sub range_max range_min) (sub (of_int (highest t)) low) in
      if not (lt range_min range_max)
      then default_encoding floats
      else record { step = step; offset = sub range_min (mul low step) }

module _ {F : Type 0} where
  -- The first configuration of a name.
  unfoldable pub find_configuration :
      String → List (AttributeConfiguration F) → Option (AttributeConfiguration F)
  find_configuration name [] = none
  find_configuration name (c ∷ cs) =
      let rest = find_configuration name cs in if str_eq c.name name then some c else rest

  unfoldable pub is_claimed : AttributeTarget → List (ℕ × AttributeConfiguration F) → Bool
  is_claimed t [] = false
  is_claimed t ((index, c) ∷ claimed) = same_target c.target t || is_claimed t claimed

  -- One turn of the loop over the layout's attributes, for a property with the configuration found.
  unfoldable pub claim_target :
      ℕ
      → Option (AttributeConfiguration F)
      → List (ℕ × AttributeConfiguration F)
      → List (ℕ × AttributeConfiguration F)
  claim_target index none claimed = claimed
  claim_target index (some c) claimed =
      if same_target c.target no_target || is_claimed c.target claimed
      then claimed
      else claimed ++ (index, c) ∷ []

  unfoldable pub targeted :
      Element
      → List (AttributeConfiguration F)
      → List ℕ
      → List (ℕ × AttributeConfiguration F)
      → List (ℕ × AttributeConfiguration F)
  targeted e cs [] claimed = claimed
  targeted e cs (index ∷ rest) claimed =
      targeted e cs rest
        (claim_target index (find_configuration (property_of e index).name cs) claimed)
