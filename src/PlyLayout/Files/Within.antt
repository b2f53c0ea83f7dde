-- ===== src/PlyLayout/Files/Within.antt =====
-- Each row of a complete file can be read by src/plugins/devices/ply/ply_layout.cc.
use pointcaster.Prelude.{
  ℕ, ◌+◌, ◌*◌, ◌==◌, ◌<◌, ◌≤◌, ◌≡◌, inl, inr, Bool, Option, none, some, length, arith, refl,
  Bool-cases,
}
use pointcaster.Prelude.Int.{pos}
use pointcaster.PointCloud.{Floats, Position, Color}
use pointcaster.Wire.{Bytes}
use pointcaster.PlyLayout.{Element, VertexLayout, property_of, Property}
use pointcaster.PlyLayout.Numbers.{Conversions, width_of, cast, read_value}
use pointcaster.PlyLayout.Files.{
  position_from, color_from, gain_of, component_from, data_offset_of, read_source, mapped_position,
  mapped_alpha, mapped_color,
}
use pointcaster.PlyLayout.Files.Offsets.{FitsRow, load_scalar-within, row_end, property_of-fits}

module _ {F : Type 0} (floats : Floats F) (conversions : Conversions F) where
  read_value-within :
      (contents : Bytes) (offset : ℕ) (p : Property) (swap_bytes : Bool)
      → offset + width_of p.value_type ≤ length contents
      → (v : F) × (read_value floats conversions contents offset p.value_type swap_bytes ≡ some v)
  unfolding read_value
  read_value-within contents offset p swap_bytes h =
      elim (Bool-cases (width_of p.value_type == 0)) [
        | inl e ↦ (floats.of_int (pos 0), ground (arith, e))
        | inr e ↦
            let (n, r) = load_scalar-within contents offset (width_of p.value_type) swap_bytes h in
            (cast floats conversions p.value_type n, ground (arith, e, r))
      ]

  module _ (e : Element) (swap_bytes : Bool) (position_scale : F) (layout : VertexLayout)
      (contents : Bytes)
      (complete : data_offset_of contents + e.count * e.row_stride ≤ length contents)
      (fits : FitsRow e) where
    pub read_source-within :
        (i index : ℕ)
        → i < e.count
        → (v : F) × (read_source floats conversions e swap_bytes position_scale layout contents i
              index
            ≡ some v)
    unfolding read_source
    read_source-within i index h =
        read_value-within contents _ (property_of e index) swap_bytes
          (omega (arith, complete, row_end i e.count e.row_stride h, property_of-fits e index fits))

    pub mapped_position-within :
        (p : ℕ × ℕ × ℕ) (i : ℕ)
        → i < e.count
        → (v : Position) × (mapped_position floats conversions e swap_bytes position_scale layout
              contents p i
            ≡ some v)
    unfolding mapped_position
    mapped_position-within (x, y, z) i h =
        let (u, a) = read_source-within i x h in
        let (v, b) = read_source-within i y h in
        let (w, c) = read_source-within i z h in
        (position_from floats conversions position_scale u v w, ground (arith, a, b, c))

    mapped_alpha-within :
        (alpha : Option ℕ) (i : ℕ)
        → i < e.count
        → (v : ℕ) × (mapped_alpha floats conversions e swap_bytes position_scale layout contents
              alpha i
            ≡ some v)
    unfolding mapped_alpha
    mapped_alpha-within none i h = (255, refl)
    mapped_alpha-within (some index) i h =
        let (u, a) = read_source-within i index h in
        (
          component_from floats conversions (gain_of floats conversions e index) u,
          ground (arith, a),
        )

    pub mapped_color-within :
        (color : Option (ℕ × ℕ × ℕ)) (i : ℕ)
        → i < e.count
        → (v : Color) × (mapped_color floats conversions e swap_bytes position_scale layout contents
              color i
            ≡ some v)
    unfolding mapped_color
    mapped_color-within none i h = (_, refl)
    mapped_color-within (some (x, y, z)) i h =
        let (u, a) = read_source-within i x h in
        let (v, b) = read_source-within i y h in
        let (w, c) = read_source-within i z h in
        let (t, d) = mapped_alpha-within layout.alpha i h in
        (
          color_from floats conversions (gain_of floats conversions e x) u v w t,
          ground (arith, a, b, c, d),
        )
