-- ===== src/Tests/PlyLayout.antt =====
-- Two vertices of a PLY file, with numbers in place of floats.
use pointcaster.Prelude.{
  ℕ, zero, suc, ◌+◌, ◌*◌, ◌^◌, ◌<◌, ◌≤◌, ◌≡◌, ◌≢◌, ◌⊎◌, inl, inr, String, Bool, true, false, Option,
  none, some, List, [], ◌∷◌, ◌++◌, length, refl, arith, get_or, str_eq,
}
use pointcaster.Prelude.Int.{ℤ, pos, negsuc}
use pointcaster.PointCloud.{PointCloud, Position, Color, of_floats, empty_cloud, default_encoding}
use pointcaster.Wire.{Bytes}
use pointcaster.PlyLayout.{
  Property, Element, Reader, VertexLayout, PropertyType, short_type, uchar_type, no_type, FileType,
  ascii, binary_big_endian, automatic, layout_of, seek_vertex_element, scan_file_info, property_of,
}
use pointcaster.PlyLayout.Numbers.{Conversions, read_value, width_of}
use pointcaster.PlyLayout.Numbers.Stored.{stored, bits_of, read_value-stored}
use pointcaster.PlyLayout.Targets.{
  AttributeConfiguration, point_scale, no_target, full, targeted, AttributeTarget,
}
use pointcaster.PlyLayout.Targets.First.{AreClaims, claim_of, first_for, targeted-first_for}
use pointcaster.PlyLayout.Files.{
  mapped, failed, Reading, Vertices, has_vertices, read_mapped, read_ascii, data_offset_of,
  end_header,
}
use pointcaster.PlyLayout.Files.Offsets.{FitsRow}
use pointcaster.PlyLayout.Files.Inside.{IsSized, read_mapped-inside}
use pointcaster.PlyLayout.Files.Same.{HasRows, IsExtracted, read_mapped-read_ascii}
use pointcaster.PlyLayout.Clouds.{returned_cloud, read_point_cloud}
use pointcaster.PlyLayout.Clouds.Finished.{Returns}
use pointcaster.PlyLayout.Clouds.Sized.{throws, is_readable, read_point_cloud-Returns}
use pointcaster.Tests.PointCloud.{numbers}

abbrev conversions : Conversions ℕ
conversions = record { of_bits = λ n. n; of_double_bits = λ n. n; lround = pos }

abbrev scalar : String → ℕ → PropertyType → Property
scalar name offset t = record { name = name; offset = offset; value_type = t; count_type = no_type }

abbrev vertex : Element
vertex = record {
  name = "vertex";
  properties =
      scalar "x" 0 short_type
      ∷ scalar "y" 2 short_type
      ∷ scalar "z" 4 short_type
      ∷ scalar "size" 6 uchar_type
      ∷ scalar "width" 7 uchar_type
      ∷ [];
  count = 2;
  row_stride = 8;
}

-- The values of a row: of a property by its index.
abbrev vertex_value : ℕ → ℕ → ℕ
vertex_value zero index = get_or (1 ∷ 2 ∷ 3 ∷ 4 ∷ 5 ∷ []) index 0
vertex_value (suc i) index = get_or (6 ∷ 7 ∷ 8 ∷ 9 ∷ 10 ∷ []) index 0

abbrev text_values : List ℕ → List ℕ
text_values (x ∷ y ∷ z ∷ _) =
    vertex_value 0 x
    ∷ vertex_value 0 y
    ∷ vertex_value 0 z
    ∷ vertex_value 1 x
    ∷ vertex_value 1 y
    ∷ vertex_value 1 z
    ∷ []
text_values (x ∷ _) = vertex_value 0 x ∷ vertex_value 1 x ∷ []
text_values [] = []

abbrev reader_of : FileType → Reader ℕ
reader_of t = record {
  valid = true;
  elements = record vertex { name = "face" } ∷ vertex ∷ [];
  file_type = t;
  find_pos = λ e. some (0, 1, 2);
  find_color = λ e. none;
  find_property = λ e name. none;
  load_element = true;
  extract_properties = text_values;
}

abbrev ply : Bytes
ply =
    112 ∷ 10 ∷ end_header
    ++ 10 ∷ 0 ∷ 1 ∷ 0 ∷ 2 ∷ 0 ∷ 3 ∷ 4 ∷ 5 ∷ 0 ∷ 6 ∷ 0 ∷ 7 ∷ 0 ∷ 8 ∷ 9 ∷ 10 ∷ []

abbrev import : String → AttributeTarget → AttributeConfiguration ℕ
import name t = record { name = name; target = t; precision = full; range_min = 0; range_max = 1 }

abbrev imports : List (AttributeConfiguration ℕ)
imports = import "width" point_scale ∷ import "size" point_scale ∷ []

targeted-first_for_example :
    AreClaims (targeted vertex imports (3 ∷ 4 ∷ []) [])
    × ((t : AttributeTarget)
        → t ≢ no_target
        → claim_of t (targeted vertex imports (3 ∷ 4 ∷ []) [])
          ≡ first_for vertex imports t (3 ∷ 4 ∷ []))
targeted-first_for_example = targeted-first_for vertex imports (3 ∷ 4 ∷ [])

read_value-stored_example :
    read_value numbers conversions
      (9 ∷ [] ++ (stored 2 true (bits_of short_type (negsuc 4)) ++ 7 ∷ []))
      1
      short_type
      true
    ≡ some (numbers.of_int (negsuc 4))
read_value-stored_example =
    read_value-stored numbers conversions (9 ∷ []) (7 ∷ []) short_type (negsuc 4) true
      (omega arith, omega arith)

vertex-FitsRow : FitsRow vertex
vertex-FitsRow zero h = omega arith
vertex-FitsRow (suc zero) h = omega arith
vertex-FitsRow (suc (suc zero)) h = omega arith
vertex-FitsRow (suc (suc (suc zero))) h = omega arith
vertex-FitsRow (suc (suc (suc (suc zero)))) h = omega arith
vertex-FitsRow (suc (suc (suc (suc (suc index))))) h = absurd (omega (arith, h))

read_point_cloud-Returns_example :
    Returns numbers
      (throws
        (reader_of binary_big_endian)
        vertex
        (mapped ply)
        (layout_of (reader_of binary_big_endian) vertex).position)
      (is_readable
        (reader_of binary_big_endian)
        vertex
        (mapped ply)
        (layout_of (reader_of binary_big_endian) vertex).position)
      vertex
      (read_point_cloud numbers conversions
        (reader_of binary_big_endian)
        (mapped ply)
        automatic
        imports)
unfolding seek_vertex_element pointcaster.PlyLayout.seek_element
read_point_cloud-Returns_example =
    read_point_cloud-Returns numbers conversions (reader_of binary_big_endian) vertex (mapped ply)
      automatic imports refl (omega arith) (omega arith) vertex-FitsRow

abbrev with_size : VertexLayout
with_size = record { position = some (0, 1, 2); color = none; alpha = none; attributes = 3 ∷ [] }

ply_starts : data_offset_of ply ≡ 13
unfolding data_offset_of pointcaster.PlyLayout.Files.line_after
    pointcaster.PlyLayout.Files.find_bytes pointcaster.Wire.starts_with
ply_starts = refl

read_mapped-inside_example :
    ((0 < data_offset_of ply)
      × (data_offset_of ply + 2 * 8 ≤ length ply)
      × ((vertices : Vertices ℕ) × (read_mapped numbers conversions
              (reader_of binary_big_endian)
              vertex
              with_size
              (0, 1, 2)
              1
              (mapped ply)
            ≡ has_vertices vertices)
          × IsSized vertex with_size vertices))
    ⊎ (((data_offset_of ply ≡ 0) ⊎ (length ply < data_offset_of ply + 2 * 8))
        × (read_mapped numbers conversions
              (reader_of binary_big_endian)
              vertex
              with_size
              (0, 1, 2)
              1
              (mapped ply)
            ≡ failed))
read_mapped-inside_example =
    read_mapped-inside numbers conversions (reader_of binary_big_endian) vertex with_size (0, 1, 2)
      1 ply (omega arith) (omega arith) vertex-FitsRow

ply-HasRows : HasRows numbers conversions (reader_of ascii) vertex 1 with_size ply vertex_value true
unfolding pointcaster.PlyLayout.Files.read_source read_value
    pointcaster.PlyLayout.Numbers.load_scalar pointcaster.PlyLayout.Numbers.little_endian
    pointcaster.PlyLayout.Numbers.reversed pointcaster.PlyLayout.Numbers.signed
    pointcaster.PlyLayout.Numbers.cast data_offset_of pointcaster.PlyLayout.Files.line_after
    pointcaster.PlyLayout.Files.find_bytes pointcaster.Wire.starts_with
ply-HasRows zero zero h k = refl
ply-HasRows zero (suc zero) h k = refl
ply-HasRows zero (suc (suc zero)) h k = refl
ply-HasRows zero (suc (suc (suc zero))) h k = refl
ply-HasRows zero (suc (suc (suc (suc zero)))) h k = refl
ply-HasRows zero (suc (suc (suc (suc (suc index))))) h k = absurd (omega (arith, k))
ply-HasRows (suc zero) zero h k = refl
ply-HasRows (suc zero) (suc zero) h k = refl
ply-HasRows (suc zero) (suc (suc zero)) h k = refl
ply-HasRows (suc zero) (suc (suc (suc zero))) h k = refl
ply-HasRows (suc zero) (suc (suc (suc (suc zero)))) h k = refl
ply-HasRows (suc zero) (suc (suc (suc (suc (suc index))))) h k = absurd (omega (arith, k))
ply-HasRows (suc (suc i)) index h k = absurd (omega (arith, h))

ply-IsExtracted :
    IsExtracted numbers conversions (reader_of ascii) vertex 1 with_size ply vertex_value true
ply-IsExtracted = (one, three)
  where
    one :
        (i index : ℕ)
        → i < 2
        → index < 5
        → get_or (text_values (index ∷ [])) i 0 ≡ vertex_value i index
    one zero index h k = refl
    one (suc zero) index h k = refl
    one (suc (suc i)) index h k = absurd (omega (arith, h))

    three :
        (i x y z : ℕ)
        → i < 2
        → (x < 5) × (y < 5) × (z < 5)
        → (get_or (text_values (x ∷ y ∷ z ∷ [])) (i * 3) 0 ≡ vertex_value i x)
          × (get_or (text_values (x ∷ y ∷ z ∷ [])) (i * 3 + 1) 0 ≡ vertex_value i y)
          × (get_or (text_values (x ∷ y ∷ z ∷ [])) (i * 3 + 2) 0 ≡ vertex_value i z)
    three zero x y z h k = (refl, refl, refl)
    three (suc zero) x y z h k = (refl, refl, refl)
    three (suc (suc i)) x y z h k = absurd (omega (arith, h))

read_mapped-read_ascii_example :
    (vertices : Vertices ℕ) × (read_mapped numbers conversions
        (reader_of binary_big_endian)
        vertex
        with_size
        (0, 1, 2)
        1
        (mapped ply)
      ≡ has_vertices vertices)
    × (read_ascii numbers conversions (reader_of ascii) vertex 1 with_size (0, 1, 2)
        ≡ has_vertices vertices)
read_mapped-read_ascii_example =
    read_mapped-read_ascii numbers conversions (reader_of binary_big_endian) (reader_of ascii)
      vertex with_size (0, 1, 2) 1 ply vertex_value (rw ply_starts (omega arith))
      (rw ply_starts (omega arith)) (omega arith) ply-HasRows ply-IsExtracted refl
      (omega arith, omega arith, omega arith) tt tt (omega arith, tt)

abbrev short : ℕ → ℕ → ℕ → Position
short x y z = record { x = pos x; y = pos y; z = pos z }

abbrev white : Color
white = record { r = 255; g = 255; b = 255; a = 255 }

-- The size is read, as its property stands first, though the width is configured first.
sizes :
    read_point_cloud numbers conversions
      (reader_of binary_big_endian)
      (mapped ply)
      automatic
      imports
    ≡ returned_cloud (record empty_cloud {
      positions = short 1 2 3 ∷ short 6 7 8 ∷ [];
      colors = white ∷ white ∷ [];
      attributes =
          (
            "point_scale",
            record { storage = of_floats (4 ∷ 9 ∷ []); encoding = default_encoding numbers },
          )
          ∷ [];
    })
unfolding pointcaster.PlyLayout.is_floating_point pointcaster.PlyLayout.position_scale_for
    pointcaster.PlyLayout.color_gain_for pointcaster.PlyLayout.seek_element
    pointcaster.PlyLayout.seek_vertex_element pointcaster.PlyLayout.is_one_of
    pointcaster.PlyLayout.is_index pointcaster.PlyLayout.is_reserved
    pointcaster.PlyLayout.attribute_indices pointcaster.PlyLayout.alpha_of
    pointcaster.PlyLayout.layout_of pointcaster.PlyLayout.attribute_infos
    pointcaster.PlyLayout.has_floating_point pointcaster.PlyLayout.scan_file_info
    pointcaster.PlyLayout.Numbers.to_millimetres pointcaster.PlyLayout.Numbers.to_color_component
    pointcaster.PlyLayout.Numbers.little_endian pointcaster.PlyLayout.Numbers.reversed
    pointcaster.PlyLayout.Numbers.load_scalar pointcaster.PlyLayout.Numbers.signed
    pointcaster.PlyLayout.Numbers.cast pointcaster.PlyLayout.Numbers.read_value
    pointcaster.PlyLayout.Targets.raw_type_for pointcaster.PlyLayout.Targets.visit_raw_type
    pointcaster.PlyLayout.Targets.attribute_encoding_for_range
    pointcaster.PlyLayout.Targets.find_configuration pointcaster.PlyLayout.Targets.is_claimed
    pointcaster.PlyLayout.Targets.claim_target pointcaster.PlyLayout.Targets.targeted
    pointcaster.PlyLayout.Files.find_bytes pointcaster.PlyLayout.Files.line_after
    pointcaster.PlyLayout.Files.data_offset_of pointcaster.PlyLayout.Files.each
    pointcaster.PlyLayout.Files.tabulate pointcaster.PlyLayout.Files.each_of
    pointcaster.PlyLayout.Files.position_from pointcaster.PlyLayout.Files.component_from
    pointcaster.PlyLayout.Files.color_from pointcaster.PlyLayout.Files.read_source
    pointcaster.PlyLayout.Files.mapped_position pointcaster.PlyLayout.Files.mapped_alpha
    pointcaster.PlyLayout.Files.mapped_color pointcaster.PlyLayout.Files.read_rows
    pointcaster.PlyLayout.Files.read_mapped pointcaster.PlyLayout.Files.ascii_position
    pointcaster.PlyLayout.Files.ascii_alpha pointcaster.PlyLayout.Files.ascii_color
    pointcaster.PlyLayout.Files.ascii_values pointcaster.PlyLayout.Files.read_ascii
    pointcaster.PlyLayout.Clouds.put_attribute pointcaster.PlyLayout.Clouds.update_attribute
    pointcaster.PlyLayout.Clouds.add_attributes pointcaster.PlyLayout.Clouds.cloud_of
    pointcaster.PlyLayout.Clouds.scaled_storage pointcaster.PlyLayout.Clouds.quantised
    pointcaster.PlyLayout.Clouds.quantise_attribute pointcaster.PlyLayout.Clouds.scale_attribute
    pointcaster.PlyLayout.Clouds.finish_attributes pointcaster.PlyLayout.Clouds.finished_cloud
    pointcaster.PlyLayout.Clouds.read_file pointcaster.PlyLayout.Clouds.read_element
    pointcaster.PlyLayout.Clouds.read_point_cloud pointcaster.Wire.starts_with
    pointcaster.PointCloud.quantise pointcaster.Prelude.Int.clamp_ℤ
    pointcaster.PointCloud.same_encoding
sizes = refl
