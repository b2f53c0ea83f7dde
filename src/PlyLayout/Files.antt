-- ===== src/PlyLayout/Files.antt =====
-- The vertices of a PLY file: `read_mapped` and `read_ascii` of src/plugins/devices/ply/ply_layout.cc.
-- The file is the list of its bytes. The rows are independent: which thread reads one is left out.
pub mod Offsets
pub mod Within
pub mod Inside
pub mod Same
use pointcaster.Prelude.{
  ℕ, zero, suc, ◌+◌, ◌*◌, ◌%◌, ◌^◌, ◌==◌, ltb, Bool, true, false, Option, none, some, List, [], ◌∷◌,
  take, drop, length, get_or, ◌||◌, if◌then◌else◌,
}
use pointcaster.Prelude.Int.{pos}
use pointcaster.PointCloud.{Floats, Position, Color, zero_float}
use pointcaster.Wire.{Bytes, starts_with}
use pointcaster.PlyLayout.{
  Reader, Element, VertexLayout, FileType, ascii, binary_little_endian, binary_big_endian,
  property_of, color_gain_for,
}
use pointcaster.PlyLayout.Numbers.{Conversions, to_millimetres, to_color_component, read_value}

-- "end_header"
abbrev pub end_header : Bytes
end_header = 101 ∷ 110 ∷ 100 ∷ 95 ∷ 104 ∷ 101 ∷ 97 ∷ 100 ∷ 101 ∷ 114 ∷ []

-- Where a text that is not empty first stands.
unfoldable pub find_bytes : Bytes → Bytes → Option ℕ
find_bytes wanted [] = none
find_bytes wanted (x ∷ xs) =
    let later : Option ℕ = elim (find_bytes wanted xs) [ none ↦ none | some i ↦ some (suc i) ] in
    if starts_with (x ∷ xs) wanted then some 0 else later

unfoldable pub line_after : Bytes → Option ℕ → ℕ
line_after header none = 0
line_after header (some found) = elim (find_bytes (10 ∷ []) (drop found header)) [
  | none ↦ 0
  | some line_end ↦ found + line_end + 1
]

unfoldable pub data_offset_of : Bytes → ℕ
data_offset_of contents =
    let header = take 65536 contents in line_after header (find_bytes end_header header)

abbrev pub is_big_endian : FileType → Bool
is_big_endian ascii = false
is_big_endian binary_little_endian = false
is_big_endian binary_big_endian = true

-- What is written into the slots of the cloud; a list for each attribute.
pub record Vertices (F : Type 0) : Type 0 where
  pub positions : List Position
  pub colors : List Color
  pub attribute_values : List (List F)

-- What becomes of the file to map: `file_mapping` throws, and `read_mapped` catches that; or
-- `mapped_region` throws, outside of its `try`; or the file's bytes are there.
pub data Mapping : Type 0 where
  not_opened : Mapping
  not_mapped : Mapping
  mapped : Bytes → Mapping

pub data Reading (F : Type 0) : Type 0 where
  -- a null pointer
  failed : Reading F
  -- a read outside the mapped file, which is undefined
  outside : Reading F
  -- an exception of `mapped_region` leaves
  exception : Reading F
  has_vertices : Vertices F → Reading F

-- The slots from one on, and a value for each, where there are all.
unfoldable pub each : {A : Type 0} → ℕ → ℕ → (ℕ → Option A) → Option (List A)
each i zero f = some []
each i (suc n) f = elim (f i) [
  | none ↦ none
  | some a ↦ elim (each (suc i) n f) [ none ↦ none | some rest ↦ some (a ∷ rest) ]
]

unfoldable pub tabulate : {A : Type 0} → ℕ → ℕ → (ℕ → A) → List A
tabulate i zero f = []
tabulate i (suc n) f = f i ∷ tabulate (suc i) n f

unfoldable pub each_of : {A B : Type 0} → (A → Option B) → List A → Option (List B)
each_of f [] = some []
each_of f (a ∷ rest) = elim (f a) [
  | none ↦ none
  | some b ↦ elim (each_of f rest) [ none ↦ none | some bs ↦ some (b ∷ bs) ]
]

module _ {F : Type 0} (floats : Floats F) (conversions : Conversions F) where
  -- From the three values of a row.
  unfoldable pub position_from : F → F → F → F → Position
  position_from position_scale x y z = record {
    x = to_millimetres floats (floats.mul x position_scale);
    y = to_millimetres floats (floats.mul y position_scale);
    z = to_millimetres floats (floats.mul z position_scale);
  }

  unfoldable pub component_from : F → F → ℕ
  component_from gain value = to_color_component conversions (floats.mul value gain)

  unfoldable pub color_from : F → F → F → F → ℕ → Color
  color_from color_gain red green blue alpha = record {
    r = component_from color_gain red;
    g = component_from color_gain green;
    b = component_from color_gain blue;
    a = alpha;
  }

  abbrev pub gain_of : Element → ℕ → F
  gain_of e index = color_gain_for floats (property_of e index).value_type

  module _ (e : Element) (swap_bytes : Bool) (position_scale : F) (layout : VertexLayout)
      (contents : Bytes) where
    -- `read_source` of a property in row `i`.
    unfoldable pub read_source : ℕ → ℕ → Option F
    read_source i index =
        read_value floats conversions contents
          (data_offset_of contents + i * e.row_stride + (property_of e index).offset)
          (property_of e index).value_type swap_bytes

    unfoldable pub mapped_position : ℕ × ℕ × ℕ → ℕ → Option Position
    mapped_position (x, y, z) i = elim (read_source i x) [
      | none ↦ none
      | some u ↦ elim (read_source i y) [
        | none ↦ none
        | some v ↦ elim (read_source i z) [
          | none ↦ none
          | some w ↦ some (position_from position_scale u v w)
        ]
      ]
    ]

    unfoldable pub mapped_alpha : Option ℕ → ℕ → Option ℕ
    mapped_alpha none i = some 255
    mapped_alpha (some index) i = elim (read_source i index) [
      | none ↦ none
      | some value ↦ some (component_from (gain_of e index) value)
    ]

    unfoldable pub mapped_color : Option (ℕ × ℕ × ℕ) → ℕ → Option Color
    mapped_color none i = some (record { r = 255; g = 255; b = 255; a = 255 })
    mapped_color (some (red, green, blue)) i = elim (read_source i red) [
      | none ↦ none
      | some u ↦ elim (read_source i green) [
        | none ↦ none
        | some v ↦ elim (read_source i blue) [
          | none ↦ none
          | some w ↦ elim (mapped_alpha layout.alpha i) [
            | none ↦ none
            | some a ↦ some (color_from (gain_of e red) u v w a)
          ]
        ]
      ]
    ]

    -- The loop over the rows.
    unfoldable pub read_rows : ℕ × ℕ × ℕ → Reading F
    read_rows position = elim (each 0 e.count (mapped_position position)) [
      | none ↦ outside
      | some positions ↦ elim (each 0 e.count (mapped_color layout.color)) [
        | none ↦ outside
        | some colors ↦
            elim (each_of (λ index. each 0 e.count (λ i. read_source i index)) layout.attributes) [
              | none ↦ outside
              | some attribute_values ↦ has_vertices (record {
                positions = positions;
                colors = colors;
                attribute_values = attribute_values;
              })
            ]
      ]
    ]

  -- The sum is of `size_t`.
  unfoldable pub read_mapped :
      Reader F → Element → VertexLayout → ℕ × ℕ × ℕ → F → Mapping → Reading F
  read_mapped reader e layout position position_scale not_opened = failed
  read_mapped reader e layout position position_scale not_mapped = exception
  read_mapped reader e layout position position_scale (mapped contents) =
      let data_offset = data_offset_of contents in
      if (data_offset == 0)
        || ltb (length contents) ((data_offset + e.count * e.row_stride) % 2 ^ 64)
      then failed
      else read_rows e (is_big_endian reader.file_type) position_scale layout contents position

  module _ (reader : Reader F) (e : Element) (position_scale : F) (layout : VertexLayout) where
    -- A vector of the values that miniply extracts for properties that are there.
    abbrev pub extracted : List ℕ → ℕ → F
    extracted indices k = get_or (reader.extract_properties indices) k (zero_float floats)

    unfoldable pub ascii_position : ℕ × ℕ × ℕ → ℕ → Position
    ascii_position (x, y, z) i =
        let values = extracted (x ∷ y ∷ z ∷ []) in
        position_from position_scale (values (i * 3)) (values (i * 3 + 1)) (values (i * 3 + 2))

    unfoldable pub ascii_alpha : Option ℕ → ℕ → ℕ
    ascii_alpha none i = 255
    ascii_alpha (some index) i = component_from (gain_of e index) (extracted (index ∷ []) i)

    unfoldable pub ascii_color : Option (ℕ × ℕ × ℕ) → ℕ → Color
    ascii_color none i = record { r = 255; g = 255; b = 255; a = 255 }
    ascii_color (some (red, green, blue)) i =
        let values = extracted (red ∷ green ∷ blue ∷ []) in
        color_from (gain_of e red) (values (i * 3)) (values (i * 3 + 1)) (values (i * 3 + 2))
          (ascii_alpha layout.alpha i)

    unfoldable pub ascii_values : List ℕ → List (List F)
    ascii_values [] = []
    ascii_values (index ∷ rest) = tabulate 0 e.count (extracted (index ∷ [])) ∷ ascii_values rest

    unfoldable pub read_ascii : ℕ × ℕ × ℕ → Reading F
    read_ascii position =
        if reader.load_element
        then has_vertices (record {
          positions = tabulate 0 e.count (ascii_position position);
          colors = tabulate 0 e.count (ascii_color layout.color);
          attribute_values = ascii_values layout.attributes;
        })
        else failed
