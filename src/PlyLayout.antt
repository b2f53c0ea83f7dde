-- ===== src/PlyLayout.antt =====
-- The types and the layout of a PLY file in src/plugins/devices/ply/ply_layout.cc. The reader of the
-- header is the library miniply: what it gives is the record `Reader`. An invalid index is `none`.
pub mod Numbers
pub mod Files
pub mod Targets
pub mod Clouds
use pointcaster.Prelude.{
  ℕ, suc, ◌==◌, ltb, String, Bool, true, false, Option, none, some, List, [], ◌∷◌, ◌++◌, length,
  str_eq, not, ◌&&◌, ◌||◌, get_or, if◌then◌else◌,
}
use pointcaster.Prelude.Int.{pos}
use pointcaster.PointCloud.{Floats}

-- `miniply::PLYPropertyType`
pub data PropertyType : Type 0 where
  char_type : PropertyType
  uchar_type : PropertyType
  short_type : PropertyType
  ushort_type : PropertyType
  int_type : PropertyType
  uint_type : PropertyType
  float_type : PropertyType
  double_type : PropertyType
  no_type : PropertyType

pub data FileType : Type 0 where
  ascii : FileType
  binary_little_endian : FileType
  binary_big_endian : FileType

unfoldable pub is_floating_point : PropertyType → Bool
is_floating_point float_type = true
is_floating_point double_type = true
is_floating_point _ = false

abbrev pub type_name : PropertyType → String
type_name char_type = "int8"
type_name uchar_type = "uint8"
type_name short_type = "int16"
type_name ushort_type = "uint16"
type_name int_type = "int32"
type_name uint_type = "uint32"
type_name float_type = "float32"
type_name double_type = "float64"
type_name no_type = "unknown"

pub data PositionUnits : Type 0 where
  automatic : PositionUnits
  millimetres : PositionUnits
  centimetres : PositionUnits
  metres : PositionUnits

module _ {F : Type 0} (floats : Floats F) where
  open floats use {of_int, div}

  unfoldable pub position_scale_for : PositionUnits → Bool → F
  position_scale_for millimetres floating_point_positions = of_int (pos 1)
  position_scale_for centimetres floating_point_positions = of_int (pos 10)
  position_scale_for metres floating_point_positions = of_int (pos 1000)
  position_scale_for automatic floating_point_positions =
      if floating_point_positions then of_int (pos 1000) else of_int (pos 1)

  unfoldable pub color_gain_for : PropertyType → F
  color_gain_for float_type = of_int (pos 255)
  color_gain_for double_type = of_int (pos 255)
  color_gain_for ushort_type = div (of_int (pos 255)) (of_int (pos 65535))
  color_gain_for short_type = div (of_int (pos 255)) (of_int (pos 65535))
  color_gain_for _ = of_int (pos 1)

pub record Property : Type 0 where
  pub name : String
  pub offset : ℕ
  pub value_type : PropertyType
  -- `countType`, of a list
  pub count_type : PropertyType

pub record Element : Type 0 where
  pub name : String
  pub properties : List Property
  pub count : ℕ
  pub row_stride : ℕ

pub record Reader (F : Type 0) : Type 0 where
  pub valid : Bool
  -- From the current element on.
  pub elements : List Element
  pub file_type : FileType
  pub find_pos : Element → Option (ℕ × ℕ × ℕ)
  pub find_color : Element → Option (ℕ × ℕ × ℕ)
  pub find_property : Element → String → Option ℕ
  pub load_element : Bool
  -- What `extract_properties` writes for the indices, as floats, row after row.
  pub extract_properties : List ℕ → List F

-- An index is of a property that is there.
abbrev pub property_of : Element → ℕ → Property
property_of e index =
    get_or e.properties index
      (record { name = ""; offset = 0; value_type = no_type; count_type = no_type })

-- `kPLYVertexElement` is the name "vertex" of the format.
unfoldable pub seek_element : List Element → Option Element
seek_element [] = none
seek_element (e ∷ es) =
    let rest = seek_element es in if str_eq e.name "vertex" then some e else rest

unfoldable pub seek_vertex_element : {F : Type 0} → Reader F → Option Element
seek_vertex_element reader = if reader.valid then seek_element reader.elements else none

pub record VertexLayout : Type 0 where
  -- The indices of x, y and z, where there are all three.
  pub position : Option (ℕ × ℕ × ℕ)
  pub color : Option (ℕ × ℕ × ℕ)
  pub alpha : Option ℕ
  pub attributes : List ℕ

unfoldable pub is_one_of : Option (ℕ × ℕ × ℕ) → ℕ → Bool
is_one_of none index = false
is_one_of (some (x, y, z)) index = (index == x) || (index == y) || (index == z)

unfoldable pub is_index : Option ℕ → ℕ → Bool
is_index none index = false
is_index (some i) index = index == i

unfoldable pub is_reserved : VertexLayout → ℕ → Bool
is_reserved layout index =
    is_one_of layout.position index || is_one_of layout.color index || is_index layout.alpha index

abbrev pub is_list : PropertyType → Bool
is_list no_type = false
is_list _ = true

-- The loop over the properties from an index on.
unfoldable pub attribute_indices : VertexLayout → ℕ → List Property → List ℕ
attribute_indices layout index [] = []
attribute_indices layout index (p ∷ ps) =
    let rest = attribute_indices layout (suc index) ps in
    if is_list p.count_type || is_reserved layout index then rest else index ∷ rest

unfoldable pub alpha_of : {F : Type 0} → Reader F → Element → Option (ℕ × ℕ × ℕ) → Option ℕ
alpha_of reader e none = none
alpha_of reader e (some (red, green, blue)) =
    reader.find_property e (if str_eq (property_of e red).name "r" then "a" else "alpha")

unfoldable pub layout_of : {F : Type 0} → Reader F → Element → VertexLayout
layout_of reader e =
    let color = reader.find_color e in
    let layout : VertexLayout = record {
      position = reader.find_pos e;
      color = color;
      alpha = alpha_of reader e color;
      attributes = [];
    } in
    record layout { attributes = attribute_indices layout 0 e.properties }

pub record FileInfo : Type 0 where
  pub vertex_count : ℕ
  pub floating_point_positions : Bool
  -- Names and names of types
  pub attributes : List (String × String)

unfoldable pub attribute_infos : Element → List ℕ → List (String × String)
attribute_infos e [] = []
attribute_infos e (index ∷ rest) =
    ((property_of e index).name, type_name (property_of e index).value_type)
    ∷ attribute_infos e rest

unfoldable pub has_floating_point : Element → Option (ℕ × ℕ × ℕ) → Bool
has_floating_point e none = false
has_floating_point e (some (x, y, z)) = is_floating_point (property_of e x).value_type

unfoldable pub scan_file_info : {F : Type 0} → Reader F → Option FileInfo
scan_file_info reader = elim (seek_vertex_element reader) [
  | none ↦ none
  | some e ↦ some (record {
    vertex_count = e.count;
    floating_point_positions = has_floating_point e (layout_of reader e).position;
    attributes = attribute_infos e (layout_of reader e).attributes;
  })
]
