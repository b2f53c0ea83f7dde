-- ===== src/PlyLayout/Clouds/Sized.antt =====
-- The cloud that `read_point_cloud` of src/plugins/devices/ply/ply_layout.cc returns.
use pointcaster.Prelude.{
  ℕ, ◌+◌, ◌*◌, ◌^◌, ◌<◌, ltb, leb, ◌&&◌, ◌||◌, ◌⊎◌, true, false, not, ◌≡◌, ◌==◌, inl, inr, Bool,
  Option, none, some, List, [], if◌then◌else◌, length, arith, refl, sym, Bool-cases, subst,
}
use pointcaster.PointCloud.{Floats, size}
use pointcaster.PlyLayout.{
  is_floating_point, position_scale_for, property_of, Reader, Element, VertexLayout, FileType,
  ascii, binary_little_endian, binary_big_endian, PositionUnits, seek_vertex_element, layout_of,
}
use pointcaster.PlyLayout.Numbers.{Conversions}
use pointcaster.PlyLayout.Targets.{AttributeConfiguration, targeted}
use pointcaster.PlyLayout.Files.{
  Mapping, not_opened, not_mapped, mapped, read_mapped, data_offset_of,
}
use pointcaster.PlyLayout.Files.Offsets.{FitsRow}
use pointcaster.PlyLayout.Files.Inside.{read_mapped-inside, read_ascii-IsSized}
use pointcaster.PlyLayout.Clouds.{
  null_cloud, returned_cloud, cloud_of, finished_cloud, indices_of, no_values, read_file,
  read_element, read_point_cloud,
}
use pointcaster.PlyLayout.Clouds.Finished.{
  Returns, no_vertices-IsCloudOf, IsReading, finished_cloud-IsReading,
}

-- The header of a binary file has an end, and all rows follow it.
abbrev pub is_complete_binary : Element → Mapping → Bool
is_complete_binary e not_opened = false
is_complete_binary e not_mapped = false
is_complete_binary e (mapped contents) =
    ltb 0 (data_offset_of contents)
    && leb (data_offset_of contents + e.count * e.row_stride) (length contents)

-- The exception of `mapped_region`, which only a binary file meets.
abbrev pub is_unmapped : Mapping → Bool
is_unmapped not_opened = false
is_unmapped not_mapped = true
is_unmapped (mapped contents) = false

abbrev pub throws_for : FileType → Mapping → Bool
throws_for ascii contents = false
throws_for binary_little_endian contents = is_unmapped contents
throws_for binary_big_endian contents = is_unmapped contents

module _ {F : Type 0} where
  -- Positions and vertices are there, and the file is binary and cannot be mapped.
  abbrev pub throws : Reader F → Element → Mapping → Option (ℕ × ℕ × ℕ) → Bool
  throws reader e contents none = false
  throws reader e contents (some position) =
      not (e.count == 0) && throws_for reader.file_type contents

  abbrev pub is_complete : FileType → Reader F → Element → Mapping → Bool
  is_complete ascii reader e contents = reader.load_element
  is_complete binary_little_endian reader e contents = is_complete_binary e contents
  is_complete binary_big_endian reader e contents = is_complete_binary e contents

  -- Positions are there, and there is no vertex or the file is complete.
  abbrev pub is_readable : Reader F → Element → Mapping → Option (ℕ × ℕ × ℕ) → Bool
  is_readable reader e contents none = false
  is_readable reader e contents (some position) =
      (e.count == 0) || is_complete reader.file_type reader e contents

incomplete :
    (offset size rows : ℕ)
    → (offset ≡ 0) ⊎ (size < offset + rows)
    → (ltb 0 offset && leb (offset + rows) size) ≡ false
incomplete offset size rows (inl z) = ground (arith, z)
incomplete offset size rows (inr h) = ground (arith, h)

module _ {F : Type 0} (floats : Floats F) (conversions : Conversions F) where
  read_mapped-IsReading :
      (reader : Reader F) (e : Element) (layout : VertexLayout) (position : ℕ × ℕ × ℕ) (scale : F)
      (contents : Mapping)
      → e.count < 2 ^ 32
      → e.row_stride < 2 ^ 32
      → FitsRow e
      → IsReading floats
          (is_unmapped contents)
          (is_complete_binary e contents)
          e
          layout
          (read_mapped floats conversions reader e layout position scale contents)
  unfolding read_mapped
  read_mapped-IsReading reader e layout position scale not_opened c s fits = (refl, refl)
  read_mapped-IsReading reader e layout position scale not_mapped c s fits = refl
  read_mapped-IsReading reader e layout position scale (mapped contents) c s fits =
      elim (read_mapped-inside floats conversions reader e layout position scale contents c s
        fits) [
          | inl (starts, complete, (vertices, r, sized)) ↦
              subst (IsReading floats false (is_complete_binary e (mapped contents)) e layout)
                (sym r) (refl, ground (arith, starts, complete), sized)
          | inr (why, r) ↦
              subst (IsReading floats false (is_complete_binary e (mapped contents)) e layout)
                (sym r)
                (
                  refl,
                  incomplete (data_offset_of contents) (length contents) (e.count * e.row_stride)
                      why,
                )
        ]

  read_file-IsReading :
      (type : FileType) (reader : Reader F) (e : Element) (layout : VertexLayout)
      (position : ℕ × ℕ × ℕ) (scale : F) (contents : Mapping)
      → e.count < 2 ^ 32
      → e.row_stride < 2 ^ 32
      → FitsRow e
      → IsReading floats
          (throws_for type contents)
          (is_complete type reader e contents)
          e
          layout
          (read_file floats conversions type reader e layout position scale contents)
  unfolding read_file
  read_file-IsReading binary_little_endian reader e layout position scale contents c s fits =
      read_mapped-IsReading reader e layout position scale contents c s fits
  read_file-IsReading binary_big_endian reader e layout position scale contents c s fits =
      read_mapped-IsReading reader e layout position scale contents c s fits
  read_file-IsReading ascii reader e layout position scale contents c s fits =
      elim (read_ascii-IsSized floats conversions reader e scale layout position) [
        | inl (loaded, (vertices, r, sized)) ↦
            subst (IsReading floats false reader.load_element e layout) (sym r)
              (refl, loaded, sized)
        | inr (loaded, r) ↦
            subst (IsReading floats false reader.load_element e layout) (sym r) (refl, loaded)
      ]

  read_element-Returns :
      (reader : Reader F) (e : Element) (contents : Mapping) (units : PositionUnits)
      (attributes : List (AttributeConfiguration F)) (position : Option (ℕ × ℕ × ℕ))
      → e.count < 2 ^ 32
      → e.row_stride < 2 ^ 32
      → FitsRow e
      → Returns floats
          (throws reader e contents position)
          (is_readable reader e contents position)
          e
          (read_element floats conversions reader e contents units attributes position)
  unfolding read_element
  read_element-Returns reader e contents units attributes none c s fits = (refl, refl)
  read_element-Returns reader e contents units attributes (some position) c s fits =
      let claims = targeted e attributes (layout_of reader e).attributes [] in
      let layout : VertexLayout = record (layout_of reader e) { attributes = indices_of claims } in
      let scale =
        position_scale_for floats units (is_floating_point (property_of e position.0).value_type) in
      let reading =
        read_file floats conversions reader.file_type reader e layout position scale contents in
      elim (Bool-cases (e.count == 0)) [
        | inl z ↦
            subst
              (λ (b : Bool).
                Returns floats (not b && throws_for reader.file_type contents)
                  (b || is_complete reader.file_type reader e contents) e
                  (if b
                    then returned_cloud (
                        cloud_of floats claims (record {
                          positions = [];
                          colors = [];
                          attribute_values = no_values claims;
                        }))
                    else finished_cloud floats scale claims reading))
              (sym z) (refl, refl, no_vertices-IsCloudOf floats e claims (ground (arith, z)))
        | inr z ↦
            subst
              (λ (b : Bool).
                Returns floats (not b && throws_for reader.file_type contents)
                  (b || is_complete reader.file_type reader e contents) e
                  (if b
                    then returned_cloud (
                        cloud_of floats claims (record {
                          positions = [];
                          colors = [];
                          attribute_values = no_values claims;
                        }))
                    else finished_cloud floats scale claims reading))
              (sym z)
              (finished_cloud-IsReading floats (throws_for reader.file_type contents)
                (is_complete reader.file_type reader e contents) e layout scale claims reading
                (read_file-IsReading reader.file_type reader e layout position scale contents c s
                  fits))
      ]

  -- Let the reader find a vertex element, its count and the stride of its rows fit 32 bits, and
  -- each of its properties lie within the row. Then `read_point_cloud` reads nothing outside the
  -- file. An exception leaves it exactly when the element has x, y and z and a vertex and the file
  -- is binary, opened, and cannot be mapped into memory. Otherwise it returns a cloud exactly when
  -- the element has x, y and z and has no vertex or the file is complete: a text file that loads,
  -- or a binary one whose header ends within 65536 bytes and whose rows are all there. The cloud
  -- has a position, a color and an element of each attribute for each vertex, and no two attributes
  -- of one name. In all other cases it returns null.
  pub read_point_cloud-Returns :
      (reader : Reader F) (e : Element) (contents : Mapping) (units : PositionUnits)
      (attributes : List (AttributeConfiguration F))
      → seek_vertex_element reader ≡ some e
      → e.count < 2 ^ 32
      → e.row_stride < 2 ^ 32
      → FitsRow e
      → Returns floats
          (throws reader e contents (layout_of reader e).position)
          (is_readable reader e contents (layout_of reader e).position)
          e
          (read_point_cloud floats conversions reader contents units attributes)
  unfolding read_point_cloud
  read_point_cloud-Returns reader e contents units attributes found c s fits =
      subst
        (λ (o : Option Element).
          Returns floats (throws reader e contents (layout_of reader e).position)
            (is_readable reader e contents (layout_of reader e).position) e
            (elim o [
              | none ↦ null_cloud
              | some x ↦
                  read_element floats conversions reader x contents units attributes
                    (layout_of reader x).position
            ]))
        (sym found)
        (read_element-Returns reader e contents units attributes (layout_of reader e).position c s
          fits)
