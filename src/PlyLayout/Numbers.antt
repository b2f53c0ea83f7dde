-- ===== src/PlyLayout/Numbers.antt =====
-- Scalars read from memory in src/plugins/devices/ply/ply_layout.cc. The floats of bit patterns, and
-- `std::lround`, are parameters; the host is little endian.
pub mod Stored
use pointcaster.Prelude.{
  ℕ, zero, suc, ◌+◌, ◌-◌, ◌*◌, ◌/◌, ◌%◌, ◌^◌, ◌<◌, ◌≤◌, ◌≡◌, ltb, leb, ◌==◌, Bool, true, false,
  Option, none, some, List, [], ◌∷◌, ◌++◌, length, take, drop, ◌&&◌, if◌then◌else◌, refl, arith, ap,
  ◌∙◌, sym,
}
use pointcaster.Prelude.Int.{ℤ, pos, negsuc, pos_part, clamp_ℤ}
use pointcaster.PointCloud.{Floats, quantise, int16, default_encoding}
use pointcaster.Wire.{Bytes}
use pointcaster.PlyLayout.{
  PropertyType, char_type, uchar_type, short_type, ushort_type, int_type, uint_type, float_type,
  double_type, no_type,
}

pub record Conversions (F : Type 0) : Type 0 where
  -- `std::bit_cast` from 32 bits; from 64 bits and `static_cast` to `float`.
  pub of_bits : ℕ → F
  pub of_double_bits : ℕ → F
  pub lround : F → ℤ

unfoldable pub to_millimetres : {F : Type 0} → Floats F → F → ℤ
to_millimetres floats value = quantise floats int16 value (default_encoding floats)

unfoldable pub to_color_component : {F : Type 0} → Conversions F → F → ℕ
to_color_component conversions value =
    pos_part (clamp_ℤ (conversions.lround value) (pos 0) (pos 255))

-- `sizeof` of the scalar, where the type has one.
abbrev pub width_of : PropertyType → ℕ
width_of char_type = 1
width_of uchar_type = 1
width_of short_type = 2
width_of ushort_type = 2
width_of int_type = 4
width_of uint_type = 4
width_of float_type = 4
width_of double_type = 8
width_of no_type = 0

unfoldable pub little_endian : Bytes → ℕ
little_endian [] = 0
little_endian (b ∷ bs) = b + 256 * little_endian bs

unfoldable pub reversed : Bytes → Bytes
reversed [] = []
reversed (b ∷ bs) = reversed bs ++ b ∷ []

-- The bits of a scalar of some width; `none` where the memory ends before it.
unfoldable pub load_scalar : Bytes → ℕ → ℕ → Bool → Option ℕ
load_scalar memory offset width swap_bytes =
    if leb (offset + width) (length memory)
    then some (
        let value = take width (drop offset memory) in
        if swap_bytes && ltb 1 width then little_endian (reversed value) else little_endian value)
    else none

-- Two's complement.
unfoldable pub signed : ℕ → ℕ → ℤ
signed bits value = if ltb value (2 ^ (bits - 1)) then pos value else negsuc (2 ^ bits - 1 - value)

module _ {F : Type 0} (floats : Floats F) (conversions : Conversions F) where
  -- The `float` of a scalar's bits.
  unfoldable pub cast : PropertyType → ℕ → F
  cast char_type value = floats.of_int (signed 8 value)
  cast uchar_type value = floats.of_int (pos value)
  cast short_type value = floats.of_int (signed 16 value)
  cast ushort_type value = floats.of_int (pos value)
  cast int_type value = floats.of_int (signed 32 value)
  cast uint_type value = floats.of_int (pos value)
  cast float_type value = conversions.of_bits value
  cast double_type value = conversions.of_double_bits value
  cast no_type value = floats.of_int (pos 0)

  unfoldable pub read_value : Bytes → ℕ → PropertyType → Bool → Option F
  read_value memory offset t swap_bytes =
      if width_of t == 0
      then some (floats.of_int (pos 0))
      else elim (load_scalar memory offset (width_of t) swap_bytes) [
        | none ↦ none
        | some value ↦ some (cast t value)
      ]
