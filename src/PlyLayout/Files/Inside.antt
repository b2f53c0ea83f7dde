-- ===== src/PlyLayout/Files/Inside.antt =====
-- Where src/plugins/devices/ply/ply_layout.cc reads a mapped file, and how many values it gets.
use pointcaster.Prelude.{
  false, true, ℕ, suc, ◌+◌, ◌*◌, ◌%◌, ◌^◌, ◌==◌, ◌<◌, ◌≤◌, ltb, ◌≡◌, ◌⊎◌, inl, inr, Bool, Option,
  some, List, [], ◌∷◌, length, ◌||◌, arith, refl, ap, Bool-cases,
}
use pointcaster.PointCloud.{Floats}
use pointcaster.Wire.{Bytes}
use pointcaster.PlyLayout.{Reader, Element, VertexLayout}
use pointcaster.PlyLayout.Numbers.{Conversions}
use pointcaster.PlyLayout.Files.{
  Vertices, mapped, has_vertices, failed, is_big_endian, data_offset_of, each, tabulate, each_of,
  read_source, mapped_position, mapped_color, read_rows, read_mapped, ascii_position, ascii_color,
  ascii_values, read_ascii,
}
use pointcaster.PlyLayout.Files.Offsets.{
  data_offset_of_le, FitsRow, rows_small, each-length, length-tabulate,
}
use pointcaster.PlyLayout.Files.Within.{
  read_source-within, mapped_position-within, mapped_color-within,
}

module _ {F : Type 0} where
  -- There is a value for each slot.
  abbrev pub AreColumns : ℕ → List (List F) → Type 0
  AreColumns n [] = Unit {0}
  AreColumns n (values ∷ rest) = (length values ≡ n) × AreColumns n rest

  abbrev pub IsSized : Element → VertexLayout → Vertices F → Type 0
  IsSized e layout vertices =
      (length vertices.positions ≡ e.count)
      × (length vertices.colors ≡ e.count)
      × (length vertices.attribute_values ≡ length layout.attributes)
      × AreColumns e.count vertices.attribute_values

module _ {F : Type 0} (floats : Floats F) (conversions : Conversions F) where
  columns-within :
      (count : ℕ) (f : ℕ → ℕ → Option F) (indices : List ℕ)
      → ((j index : ℕ) → j < count → (v : F) × (f j index ≡ some v))
      → (columns : List (List F)) × (each_of (λ index. each 0 count (λ i. f i index)) indices
          ≡ some columns)
        × (length columns ≡ length indices)
        × AreColumns count columns
  unfolding each_of
  columns-within count f [] h = ([], refl, refl, tt)
  columns-within count f (index ∷ rest) h =
      let (values, e, n) =
        each-length 0 count (λ i. f i index) (λ j k. h j index (omega (arith, k))) in
      let (columns, r, m, sized) = columns-within count f rest h in
      (values ∷ columns, ground (arith, e, r), ap suc m, (n, sized))

  module _ (e : Element) (swap_bytes : Bool) (position_scale : F) (layout : VertexLayout)
      (contents : Bytes)
      (complete : data_offset_of contents + e.count * e.row_stride ≤ length contents)
      (fits : FitsRow e) where
    pub read_rows-IsSized :
        (position : ℕ × ℕ × ℕ)
        → (vertices : Vertices F) × (read_rows floats conversions e swap_bytes position_scale layout
              contents position
            ≡ has_vertices vertices)
          × IsSized e layout vertices
    unfolding read_rows
    read_rows-IsSized position =
        let (positions, a, n) =
          each-length 0 e.count
            (mapped_position floats conversions e swap_bytes position_scale layout contents
              position)
            (λ j h.
              mapped_position-within floats conversions e swap_bytes position_scale layout contents
                complete fits position j (omega (arith, h))) in
        let (colors, b, m) =
          each-length 0 e.count
            (mapped_color floats conversions e swap_bytes position_scale layout contents
              layout.color)
            (λ j h.
              mapped_color-within floats conversions e swap_bytes position_scale layout contents
                complete fits layout.color j (omega (arith, h))) in
        let (columns, c, k, sized) =
          columns-within e.count
            (read_source floats conversions e swap_bytes position_scale layout contents)
            layout.attributes
            (λ j index h.
              read_source-within floats conversions e swap_bytes position_scale layout contents
                complete fits j index h) in
        (
          record { positions = positions; colors = colors; attribute_values = columns },
          ground (arith, a, b, c),
          (n, m, k, sized),
        )

  -- Let the count and the stride of the rows fit 32 bits, and each property lie within its row. Then
  -- `read_mapped` never reads outside the file. When the header has an end within its first 65536 bytes
  -- and the file holds all rows after it, there is a position, a color and a value of each attribute for each
  -- vertex; otherwise it returns null.
  pub read_mapped-inside :
      (reader : Reader F) (e : Element) (layout : VertexLayout) (position : ℕ × ℕ × ℕ)
      (position_scale : F) (contents : Bytes)
      → e.count < 2 ^ 32
      → e.row_stride < 2 ^ 32
      → FitsRow e
      → ((0 < data_offset_of contents)
          × (data_offset_of contents + e.count * e.row_stride ≤ length contents)
          × ((vertices : Vertices F) × (read_mapped floats conversions reader e layout position
                  position_scale
                  (mapped contents)
                ≡ has_vertices vertices)
              × IsSized e layout vertices))
        ⊎ (((data_offset_of contents ≡ 0)
              ⊎ (length contents < data_offset_of contents + e.count * e.row_stride))
            × (read_mapped floats conversions reader e layout position position_scale
                  (mapped contents)
                ≡ failed))
  unfolding read_mapped
  read_mapped-inside reader e layout position position_scale contents c s fits =
      let offset = data_offset_of contents in
      let exact : (offset + e.count * e.row_stride) % 2 ^ 64 ≡ offset + e.count * e.row_stride =
        omega (arith, data_offset_of_le contents, rows_small e.count e.row_stride c s) in
      elim (Bool-cases
        ((offset == 0) || ltb (length contents) ((offset + e.count * e.row_stride) % 2 ^ 64))) [
          | inl t ↦ inr (
            elim (Bool-cases (offset == 0)) [
              | inl z ↦ inl (ground (arith, z))
              | inr z ↦ inr (ground (arith, t, z, exact))
            ],
            ground (arith, t),
          )
          | inr t ↦
              let complete : offset + e.count * e.row_stride ≤ length contents =
                ground (arith, t, exact) in
              let (vertices, r, sized) =
                read_rows-IsSized e (is_big_endian reader.file_type) position_scale layout contents
                  complete fits position in
              inl (ground (arith, t), complete, (vertices, ground (arith, t, r), sized))
        ]

  ascii_values-AreColumns :
      (reader : Reader F) (e : Element) (position_scale : F) (layout : VertexLayout)
      (indices : List ℕ)
      → (length (ascii_values floats conversions reader e position_scale layout indices)
          ≡ length indices)
        × AreColumns e.count
            (ascii_values floats conversions reader e position_scale layout indices)
  unfolding ascii_values
  ascii_values-AreColumns reader e position_scale layout [] = (refl, tt)
  ascii_values-AreColumns reader e position_scale layout (index ∷ rest) =
      let (n, sized) = ascii_values-AreColumns reader e position_scale layout rest in
      (ap suc n, (length-tabulate 0 e.count _, sized))

  pub read_ascii-IsSized :
      (reader : Reader F) (e : Element) (position_scale : F) (layout : VertexLayout)
      (position : ℕ × ℕ × ℕ)
      → ((reader.load_element ≡ true)
          × ((vertices : Vertices F) × (read_ascii floats conversions reader e position_scale layout
                  position
                ≡ has_vertices vertices)
              × IsSized e layout vertices))
        ⊎ ((reader.load_element ≡ false)
            × (read_ascii floats conversions reader e position_scale layout position ≡ failed))
  unfolding read_ascii
  read_ascii-IsSized reader e position_scale layout position =
      elim (Bool-cases reader.load_element) [
        | inl h ↦ inl (
          h,
          (
            record {
              positions =
                  tabulate 0 e.count
                    (ascii_position floats conversions reader e position_scale layout position);
              colors =
                  tabulate 0 e.count
                    (ascii_color floats conversions reader e position_scale layout layout.color);
              attribute_values =
                  ascii_values floats conversions reader e position_scale layout layout.attributes;
            },
            ground (arith, h),
            (
              length-tabulate 0 e.count _,
              length-tabulate 0 e.count _,
              (ascii_values-AreColumns reader e position_scale layout layout.attributes).0,
              (ascii_values-AreColumns reader e position_scale layout layout.attributes).1,
            ),
          ),
        )
        | inr h ↦ inr (h, ground (arith, h))
      ]
