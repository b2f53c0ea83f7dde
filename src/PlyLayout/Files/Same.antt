-- ===== src/PlyLayout/Files/Same.antt =====
-- The two readers of vertices in src/plugins/devices/ply/ply_layout.cc.
use pointcaster.Prelude.{
  ℕ, zero, suc, ◌+◌, ◌*◌, ◌%◌, ◌^◌, ◌==◌, ◌<◌, ◌≤◌, ltb, ◌≡◌, Bool, true, false, Option, none, some,
  List, [], ◌∷◌, length, ◌||◌, if◌then◌else◌, arith, refl, ap, sym, ◌∙◌,
}
use pointcaster.PointCloud.{Floats}
use pointcaster.Wire.{Bytes}
use pointcaster.PlyLayout.{Reader, Element, VertexLayout}
use pointcaster.PlyLayout.Numbers.{Conversions}
use pointcaster.PlyLayout.Files.{
  Vertices, mapped, has_vertices, failed, is_big_endian, data_offset_of, each, tabulate, each_of,
  read_source, mapped_position, mapped_alpha, mapped_color, read_rows, read_mapped, ascii_position,
  ascii_alpha, ascii_color, ascii_values, read_ascii, extracted,
}

each-tabulate :
    {A : Type 0} (i n : ℕ) (f : ℕ → Option A) (g : ℕ → A)
    → ((j : ℕ) → j < i + n → f j ≡ some (g j))
    → each i n f ≡ some (tabulate i n g)
unfolding each tabulate
each-tabulate i zero f g same = refl
each-tabulate i (suc n) f g same =
    ground (arith, same i (omega arith), each-tabulate (suc i) n f g (λ j h. same j (omega arith)))

-- The indices are of properties of the element.
module _ (e : Element) where
  abbrev pub IsThere : ℕ → Type 0
  IsThere index = index < length e.properties

  abbrev pub AreThere : ℕ × ℕ × ℕ → Type 0
  AreThere (x, y, z) = IsThere x × IsThere y × IsThere z

  abbrev pub AlphaIsThere : Option ℕ → Type 0
  AlphaIsThere none = Unit {0}
  AlphaIsThere (some index) = IsThere index

  abbrev pub ColorIsThere : Option (ℕ × ℕ × ℕ) → Type 0
  ColorIsThere none = Unit {0}
  ColorIsThere (some c) = AreThere c

  abbrev pub AllAreThere : List ℕ → Type 0
  AllAreThere [] = Unit {0}
  AllAreThere (index ∷ rest) = IsThere index × AllAreThere rest

module _ {F : Type 0} (floats : Floats F) (conversions : Conversions F) (reader : Reader F)
    (e : Element) (position_scale : F) (layout : VertexLayout) (contents : Bytes)
    (value : ℕ → ℕ → F) (swap_bytes : Bool) where
  -- The file has the values in its rows.
  abbrev pub HasRows : Type 0
  HasRows =
      (i index : ℕ)
      → i < e.count
      → IsThere e index
      → read_source floats conversions e swap_bytes position_scale layout contents i index
        ≡ some (value i index)

  -- miniply extracts the values, row after row.
  abbrev pub IsExtracted : Type 0
  IsExtracted =
      ((i index : ℕ)
        → i < e.count
        → IsThere e index
        → extracted floats conversions reader e position_scale layout (index ∷ []) i
          ≡ value i index)
      × ((i x y z : ℕ)
          → i < e.count
          → AreThere e (x, y, z)
          → (extracted floats conversions reader e position_scale layout (x ∷ y ∷ z ∷ []) (i * 3)
              ≡ value i x)
            × (extracted floats conversions reader e position_scale layout (x ∷ y ∷ z ∷ [])
                  (i * 3 + 1)
                ≡ value i y)
            × (extracted floats conversions reader e position_scale layout (x ∷ y ∷ z ∷ [])
                  (i * 3 + 2)
                ≡ value i z))

  module _ (rows : HasRows) (taken : IsExtracted) where
    mapped_position-ascii_position :
        (p : ℕ × ℕ × ℕ) (i : ℕ)
        → i < e.count
        → AreThere e p
        → mapped_position floats conversions e swap_bytes position_scale layout contents p i
          ≡ some (ascii_position floats conversions reader e position_scale layout p i)
    unfolding mapped_position ascii_position
    mapped_position-ascii_position (x, y, z) i h (hx, hy, hz) =
        let (a, b, c) = taken.1 i x y z h (hx, hy, hz) in
        ground (arith, rows i x h hx, rows i y h hy, rows i z h hz, a, b, c)

    mapped_alpha-ascii_alpha :
        (alpha : Option ℕ) (i : ℕ)
        → i < e.count
        → AlphaIsThere e alpha
        → mapped_alpha floats conversions e swap_bytes position_scale layout contents alpha i
          ≡ some (ascii_alpha floats conversions reader e position_scale layout alpha i)
    unfolding mapped_alpha ascii_alpha
    mapped_alpha-ascii_alpha none i h t = refl
    mapped_alpha-ascii_alpha (some index) i h t =
        ground (arith, rows i index h t, taken.0 i index h t)

    mapped_color-ascii_color :
        (color : Option (ℕ × ℕ × ℕ)) (i : ℕ)
        → i < e.count
        → ColorIsThere e color
        → AlphaIsThere e layout.alpha
        → mapped_color floats conversions e swap_bytes position_scale layout contents color i
          ≡ some (ascii_color floats conversions reader e position_scale layout color i)
    unfolding mapped_color ascii_color
    mapped_color-ascii_color none i h t alpha = refl
    mapped_color-ascii_color (some (x, y, z)) i h (hx, hy, hz) alpha =
        let (a, b, c) = taken.1 i x y z h (hx, hy, hz) in
        ground (
          arith,
          rows i x h hx,
          rows i y h hy,
          rows i z h hz,
          a,
          b,
          c,
          mapped_alpha-ascii_alpha layout.alpha i h alpha,
        )

    each_of-ascii_values :
        (indices : List ℕ)
        → AllAreThere e indices
        → each_of
            (λ index. each 0 e.count (λ i.
              read_source floats conversions e swap_bytes position_scale layout contents i index))
            indices
          ≡ some (ascii_values floats conversions reader e position_scale layout indices)
    unfolding each_of ascii_values
    each_of-ascii_values [] t = refl
    each_of-ascii_values (index ∷ rest) (t, ts) =
        let column =
          each-tabulate 0 e.count
            (λ i.
              read_source floats conversions e swap_bytes position_scale layout contents i index)
            (extracted floats conversions reader e position_scale layout (index ∷ []))
            (λ j h.
              rows j index (omega (arith, h)) t
              ∙ ap some (sym (taken.0 j index (omega (arith, h)) t))) in
        ground (arith, column, each_of-ascii_values rest ts)

    read_rows-read_ascii :
        (position : ℕ × ℕ × ℕ)
        → reader.load_element ≡ true
        → AreThere e position
        → ColorIsThere e layout.color
        → AlphaIsThere e layout.alpha
        → AllAreThere e layout.attributes
        → read_rows floats conversions e swap_bytes position_scale layout contents position
          ≡ read_ascii floats conversions reader e position_scale layout position
    unfolding read_rows read_ascii
    read_rows-read_ascii position loaded p color alpha attributes =
        let positions =
          each-tabulate 0 e.count _ _
            (λ j h. mapped_position-ascii_position position j (omega (arith, h)) p) in
        let colors =
          each-tabulate 0 e.count _ _
            (λ j h. mapped_color-ascii_color layout.color j (omega (arith, h)) color alpha) in
        let values = each_of-ascii_values layout.attributes attributes in
        ground (arith, loaded, positions, colors, values)

read_ascii-has_vertices :
    {F : Type 0} (floats : Floats F) (conversions : Conversions F) (reader : Reader F) (e : Element)
    (position_scale : F) (layout : VertexLayout) (position : ℕ × ℕ × ℕ)
    → reader.load_element ≡ true
    → (vertices : Vertices F) × (read_ascii floats conversions reader e position_scale layout
          position
        ≡ has_vertices vertices)
unfolding read_ascii
read_ascii-has_vertices floats conversions reader e position_scale layout position loaded =
    let vertices : Vertices _ = record {
      positions =
          tabulate 0 e.count
            (ascii_position floats conversions reader e position_scale layout position);
      colors =
          tabulate 0 e.count
            (ascii_color floats conversions reader e position_scale layout layout.color);
      attribute_values =
          ascii_values floats conversions reader e position_scale layout layout.attributes;
    } in
    (vertices, ap (λ (b : Bool). if b then has_vertices vertices else failed) loaded)

-- Let a binary file of fewer than 2^64 bytes be complete, its rows hold the values that miniply
-- extracts from a text file of the same element, the text file load, and the properties of the layout
-- be there. Then both readers fill a cloud, with the same positions, colors and attributes.
pub read_mapped-read_ascii :
    {F : Type 0} (floats : Floats F) (conversions : Conversions F) (binary text : Reader F)
    (e : Element) (layout : VertexLayout) (position : ℕ × ℕ × ℕ) (position_scale : F)
    (contents : Bytes) (value : ℕ → ℕ → F)
    → 0 < data_offset_of contents
    → data_offset_of contents + e.count * e.row_stride ≤ length contents
    → length contents < 2 ^ 64
    → HasRows floats conversions text e position_scale layout contents value
        (is_big_endian binary.file_type)
    → IsExtracted floats conversions text e position_scale layout contents value
        (is_big_endian binary.file_type)
    → text.load_element ≡ true
    → AreThere e position
    → ColorIsThere e layout.color
    → AlphaIsThere e layout.alpha
    → AllAreThere e layout.attributes
    → (vertices : Vertices F) × (read_mapped floats conversions binary e layout position
          position_scale
          (mapped contents)
        ≡ has_vertices vertices)
      × (read_ascii floats conversions text e position_scale layout position
          ≡ has_vertices vertices)
unfolding read_mapped
read_mapped-read_ascii floats conversions binary text e layout position position_scale contents
      value starts fits small rows taken loaded p color alpha attributes =
    let same =
      read_rows-read_ascii floats conversions text e position_scale layout contents value
        (is_big_endian binary.file_type) rows taken position loaded p color alpha attributes in
    let complete : ((data_offset_of contents == 0)
          || ltb (length contents) ((data_offset_of contents + e.count * e.row_stride) % 2 ^ 64))
        ≡ false =
      ground (arith, starts, fits, small) in
    let (vertices, read) =
      read_ascii-has_vertices floats conversions text e position_scale layout position loaded in
    (
      vertices,
      ap
            (λ (b : Bool).
              if b
              then failed
              else read_rows floats conversions e (is_big_endian binary.file_type) position_scale
                  layout contents position)
            complete
          ∙ same
          ∙ read,
      read,
    )
