-- ===== src/PlyLayout/Clouds.antt =====
-- `read_point_cloud` of src/plugins/devices/ply/ply_layout.cc.
pub mod Attributes
pub mod Finished
pub mod Sized
use pointcaster.Prelude.{
  ℕ, ◌==◌, Bool, true, false, Option, none, some, List, [], ◌∷◌, String, str_eq, map, not, ◌&&◌,
  if◌then◌else◌,
}
use pointcaster.Prelude.Int.{ℤ, pos}
use pointcaster.PointCloud.{
  Floats, PointCloud, Attribute, Storage, of_positions, of_floats, of_integers, empty_cloud,
  default_encoding, quantise, RawType,
}
use pointcaster.PlyLayout.{
  Reader, Element, VertexLayout, FileType, ascii, binary_little_endian, binary_big_endian,
  PositionUnits, property_of, is_floating_point, position_scale_for, seek_vertex_element, layout_of,
}
use pointcaster.PlyLayout.Numbers.{Conversions}
use pointcaster.PlyLayout.Targets.{
  AttributeConfiguration, point_scale, same_target, cloud_attribute_name, targeted, visit_raw_type,
  attribute_encoding_for_range,
}
use pointcaster.PlyLayout.Files.{
  Mapping, exception, Vertices, Reading, failed, outside, has_vertices, read_mapped, read_ascii,
}

-- How `read_point_cloud` ends: with a null pointer, with a cloud, with an exception that leaves it,
-- or, after a read outside the mapped file, undefined.
pub data CloudRead (F : Type 0) : Type 0 where
  null_cloud : CloudRead F
  returned_cloud : PointCloud F → CloudRead F
  exception_left : CloudRead F
  undefined_read : CloudRead F

module _ {F : Type 0} where
  -- `PointCloud::add`, with the values then written: an attribute is made or replaced.
  unfoldable pub put_attribute :
      String → Attribute F → List (String × Attribute F) → List (String × Attribute F)
  put_attribute name a [] = (name, a) ∷ []
  put_attribute name a ((n, b) ∷ rest) =
      let others = put_attribute name a rest in
      if str_eq n name then (n, a) ∷ rest else (n, b) ∷ others

  unfoldable pub update_attribute :
      String
      → (Attribute F → Attribute F)
      → List (String × Attribute F)
      → List (String × Attribute F)
  update_attribute name f [] = []
  update_attribute name f ((n, a) ∷ rest) =
      let others = update_attribute name f rest in
      if str_eq n name then (n, f a) ∷ rest else (n, a) ∷ others

  abbrev pub indices_of : List (ℕ × AttributeConfiguration F) → List ℕ
  indices_of [] = []
  indices_of ((index, c) ∷ cs) = index ∷ indices_of cs

  abbrev pub no_values : List (ℕ × AttributeConfiguration F) → List (List F)
  no_values [] = []
  no_values (c ∷ cs) = [] ∷ no_values cs

module _ {F : Type 0} (floats : Floats F) where
  unfoldable pub add_attributes :
      List (ℕ × AttributeConfiguration F)
      → List (List F)
      → List (String × Attribute F)
      → List (String × Attribute F)
  add_attributes [] columns attributes = attributes
  add_attributes (c ∷ cs) [] attributes = attributes
  add_attributes ((index, c) ∷ cs) (values ∷ columns) attributes = add_attributes cs columns (
      put_attribute (cloud_attribute_name c.target)
        (record { storage = of_floats values; encoding = default_encoding floats }) attributes)

  unfoldable pub cloud_of : List (ℕ × AttributeConfiguration F) → Vertices F → PointCloud F
  cloud_of claims vertices = record empty_cloud {
    positions = vertices.positions;
    colors = vertices.colors;
    attributes = add_attributes claims vertices.attribute_values [];
  }

  -- Values in the units of positions; no values of other types.
  unfoldable pub scaled_storage : F → Storage F → Storage F
  scaled_storage position_scale (of_positions values) = of_positions values
  scaled_storage position_scale (of_floats values) =
      of_floats (map (λ v. floats.mul v position_scale) values)
  scaled_storage position_scale (of_integers t values) = of_integers t values

  unfoldable pub quantised :
      AttributeConfiguration F → RawType → Attribute F → Storage F → Attribute F
  quantised c t a (of_positions values) = a
  quantised c t a (of_integers s values) = a
  quantised c t a (of_floats []) = a
  quantised c t a (of_floats (v ∷ vs)) =
      let encoding = attribute_encoding_for_range floats t c.range_min c.range_max in
      record {
        storage = of_integers t (map (λ value. quantise floats t value encoding) (v ∷ vs));
        encoding = encoding;
      }

  unfoldable pub quantise_attribute : AttributeConfiguration F → Attribute F → Attribute F
  quantise_attribute c a = elim (visit_raw_type floats c) [
    | none ↦ a
    | some t ↦ quantised c t a a.storage
  ]

  unfoldable pub scale_attribute : F → AttributeConfiguration F → Attribute F → Attribute F
  scale_attribute position_scale c a =
      if same_target c.target point_scale && not (floats.eq position_scale (floats.of_int (pos 1)))
      then record a { storage = scaled_storage position_scale a.storage }
      else a

  -- The last loop.
  unfoldable pub finish_attributes :
      F
      → List (ℕ × AttributeConfiguration F)
      → List (String × Attribute F)
      → List (String × Attribute F)
  finish_attributes position_scale [] attributes = attributes
  finish_attributes position_scale ((index, c) ∷ cs) attributes =
      finish_attributes position_scale cs (
        update_attribute (cloud_attribute_name c.target)
          (λ a. quantise_attribute c (scale_attribute position_scale c a)) attributes)

  unfoldable pub finished_cloud : F → List (ℕ × AttributeConfiguration F) → Reading F → CloudRead F
  finished_cloud position_scale claims failed = null_cloud
  finished_cloud position_scale claims outside = undefined_read
  finished_cloud position_scale claims exception = exception_left
  finished_cloud position_scale claims (has_vertices vertices) =
      let cloud = cloud_of claims vertices in
      returned_cloud
        (record cloud { attributes = finish_attributes position_scale claims cloud.attributes })

module _ {F : Type 0} (floats : Floats F) (conversions : Conversions F) where
  unfoldable pub read_file :
      FileType → Reader F → Element → VertexLayout → ℕ × ℕ × ℕ → F → Mapping → Reading F
  read_file ascii reader e layout position position_scale contents =
      read_ascii floats conversions reader e position_scale layout position
  read_file binary_little_endian reader e layout position position_scale contents =
      read_mapped floats conversions reader e layout position position_scale contents
  read_file binary_big_endian reader e layout position position_scale contents =
      read_mapped floats conversions reader e layout position position_scale contents

  unfoldable pub read_element :
      Reader F
      → Element
      → Mapping
      → PositionUnits
      → List (AttributeConfiguration F)
      → Option (ℕ × ℕ × ℕ)
      → CloudRead F
  read_element reader e contents units attributes none = null_cloud
  read_element reader e contents units attributes (some position) =
      let position_scale =
        position_scale_for floats units (is_floating_point (property_of e position.0).value_type) in
      let claims = targeted e attributes (layout_of reader e).attributes [] in
      let layout = record (layout_of reader e) { attributes = indices_of claims } in
      let none_read : Vertices F = record {
        positions = [];
        colors = [];
        attribute_values = no_values claims;
      } in
      if e.count == 0
      then returned_cloud (cloud_of floats claims none_read)
      else finished_cloud floats position_scale claims
          (read_file reader.file_type reader e layout position position_scale contents)

  unfoldable pub read_point_cloud :
      Reader F → Mapping → PositionUnits → List (AttributeConfiguration F) → CloudRead F
  read_point_cloud reader contents units attributes = elim (seek_vertex_element reader) [
    | none ↦ null_cloud
    | some e ↦ read_element reader e contents units attributes (layout_of reader e).position
  ]
