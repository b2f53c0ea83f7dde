-- ===== src/PlyLayout/Numbers/Stored.antt =====
-- Scalars in either byte order, as src/plugins/devices/ply/ply_layout.cc reads them.
use native.Mathlib.Nat.{pow-suc}
use pointcaster.Prelude.{
  ℕ, zero, suc, ◌+◌, ◌-◌, ◌*◌, ◌/◌, ◌%◌, ◌^◌, ◌<◌, ◌≡◌, ltb, leb, ◌==◌, Bool, true, false, some, [],
  ◌∷◌, ◌++◌, length, take, drop, ◌&&◌, if◌then◌else◌, refl, arith, ap, ◌∙◌, sym, length-append,
  Bool-cases, inl, inr,
}
use pointcaster.Prelude.Int.{ℤ, pos, negsuc, ◌≤ℤ◌}
use pointcaster.PointCloud.{Floats}
use pointcaster.Wire.{Bytes}
use pointcaster.PlyLayout.{
  PropertyType, char_type, uchar_type, short_type, ushort_type, int_type, uint_type, float_type,
  double_type, no_type,
}
use pointcaster.PlyLayout.Numbers.{
  Conversions, width_of, little_endian, reversed, load_scalar, signed, cast, read_value,
}

-- A number as `width` bytes in one of the two orders.
unfoldable pub stored : ℕ → Bool → ℕ → Bytes
stored zero big n = []
stored (suc width) big n =
    let rest = stored width big (n / 256) in if big then rest ++ n % 256 ∷ [] else n % 256 ∷ rest

length-stored : (width : ℕ) (big : Bool) (n : ℕ) → length (stored width big n) ≡ width
unfolding stored
length-stored zero big n = refl
length-stored (suc width) true n =
    length-append (stored width true (n / 256)) (n % 256 ∷ [])
    ∙ omega (arith, length-stored width true (n / 256))
length-stored (suc width) false n = ap suc (length-stored width false (n / 256))

reversed-append : (xs : Bytes) (y : ℕ) → reversed (xs ++ y ∷ []) ≡ y ∷ reversed xs
unfolding reversed
reversed-append [] y = refl
reversed-append (x ∷ xs) y = ap (λ zs. zs ++ x ∷ []) (reversed-append xs y)

reversed-stored : (width n : ℕ) → reversed (stored width true n) ≡ stored width false n
unfolding stored reversed
reversed-stored zero n = refl
reversed-stored (suc width) n =
    reversed-append (stored width true (n / 256)) (n % 256)
    ∙ ap (λ bs. n % 256 ∷ bs) (reversed-stored width (n / 256))

little_endian-stored : (width n : ℕ) → n < 256 ^ width → little_endian (stored width false n) ≡ n
unfolding stored little_endian
little_endian-stored zero n h = omega (arith, h)
little_endian-stored (suc width) n h =
    let smaller : n / 256 < 256 ^ width = omega (arith, h, pow-suc 256 width) in
    omega (arith, little_endian-stored width (n / 256) smaller)

drop-before : (xs ys : Bytes) → drop (length xs) (xs ++ ys) ≡ ys
drop-before [] ys = refl
drop-before (x ∷ xs) ys = drop-before xs ys

take-before : (xs ys : Bytes) → take (length xs) (xs ++ ys) ≡ xs
take-before [] ys = refl
take-before (x ∷ xs) ys = ap (λ zs. x ∷ zs) (take-before xs ys)

single : (width n : ℕ) → ltb 1 width ≡ false → stored width true n ≡ stored width false n
unfolding stored
single zero n h = refl
single (suc zero) n h = refl
single (suc (suc width)) n h = absurd (ground (arith, h))

window :
    (before after : Bytes) (width n : ℕ) (big : Bool)
    → take width (drop (length before) (before ++ (stored width big n ++ after)))
      ≡ stored width big n
window before after width n big =
    ap (take width) (drop-before before (stored width big n ++ after))
    ∙ ap (λ w. take w (stored width big n ++ after)) (sym (length-stored width big n))
    ∙ take-before (stored width big n) after

-- The bytes of a number in the file's order, put right, are the number.
swapped :
    (width n : ℕ) (big : Bool)
    → n < 256 ^ width
    → (if big && ltb 1 width
        then little_endian (reversed (stored width big n))
        else little_endian (stored width big n))
      ≡ n
swapped width n false h = little_endian-stored width n h
swapped width n true h = elim (Bool-cases (ltb 1 width)) [
  | inl e ↦ rw (e, reversed-stored width n) (little_endian-stored width n h)
  | inr e ↦ rw (e, single width n e) (little_endian-stored width n h)
]

-- A number stored in the order of the file loads as itself.
load_scalar-stored :
    (before after : Bytes) (width n : ℕ) (big : Bool)
    → n < 256 ^ width
    → load_scalar (before ++ (stored width big n ++ after)) (length before) width big ≡ some n
unfolding load_scalar
load_scalar-stored before after width n big h =
    let fits : leb (length before + width) (length (before ++ (stored width big n ++ after)))
        ≡ true =
      ground (
        arith,
        length-append before (stored width big n ++ after),
        length-append (stored width big n) after,
        length-stored width big n,
      ) in
    rw (fits, window before after width n big) (ap some (swapped width n big h))

-- The integers of a type.
abbrev pub IsHeld : PropertyType → ℤ → Type 0
IsHeld char_type v = (negsuc 127 ≤ℤ v) × (v ≤ℤ pos 127)
IsHeld uchar_type v = (pos 0 ≤ℤ v) × (v ≤ℤ pos 255)
IsHeld short_type v = (negsuc 32767 ≤ℤ v) × (v ≤ℤ pos 32767)
IsHeld ushort_type v = (pos 0 ≤ℤ v) × (v ≤ℤ pos 65535)
IsHeld int_type v = (negsuc 2147483647 ≤ℤ v) × (v ≤ℤ pos 2147483647)
IsHeld uint_type v = (pos 0 ≤ℤ v) × (v ≤ℤ pos 4294967295)
IsHeld float_type v = ⊥
IsHeld double_type v = ⊥
IsHeld no_type v = ⊥

abbrev pub bits_of : PropertyType → ℤ → ℕ
bits_of t (pos n) = n
bits_of t (negsuc n) = 256 ^ width_of t - 1 - n

bits_of_lt : (t : PropertyType) (v : ℤ) → IsHeld t v → bits_of t v < 256 ^ width_of t
bits_of_lt char_type (pos n) h = omega arith
bits_of_lt char_type (negsuc n) h = omega arith
bits_of_lt uchar_type (pos n) h = omega arith
bits_of_lt uchar_type (negsuc n) h = omega arith
bits_of_lt short_type (pos n) h = omega arith
bits_of_lt short_type (negsuc n) h = omega arith
bits_of_lt ushort_type (pos n) h = omega arith
bits_of_lt ushort_type (negsuc n) h = omega arith
bits_of_lt int_type (pos n) h = omega arith
bits_of_lt int_type (negsuc n) h = omega arith
bits_of_lt uint_type (pos n) h = omega arith
bits_of_lt uint_type (negsuc n) h = omega arith
bits_of_lt float_type v h = absurd h
bits_of_lt double_type v h = absurd h
bits_of_lt no_type v h = absurd h

signed-pos : (bits n : ℕ) → n < 2 ^ (bits - 1) → signed bits n ≡ pos n
unfolding signed
signed-pos bits n h = ground (arith, h)

signed-negsuc :
    (bits n m : ℕ)
    → n < 2 ^ (bits - 1)
    → m ≡ 2 ^ bits - 1 - n
    → 2 ^ bits ≡ 2 * 2 ^ (bits - 1)
    → signed bits m ≡ negsuc n
unfolding signed
signed-negsuc bits n m h e k = ground (arith, h, e, k)

module _ {F : Type 0} (floats : Floats F) (conversions : Conversions F) where
  cast-bits_of :
      (t : PropertyType) (v : ℤ)
      → IsHeld t v
      → cast floats conversions t (bits_of t v) ≡ floats.of_int v
  unfolding cast
  cast-bits_of char_type (pos n) h = ap floats.of_int (signed-pos 8 n (omega arith))
  cast-bits_of char_type (negsuc n) h =
      ap floats.of_int (signed-negsuc 8 n _ (omega arith) refl refl)
  cast-bits_of uchar_type (pos n) h = refl
  cast-bits_of uchar_type (negsuc n) h = absurd (omega arith)
  cast-bits_of short_type (pos n) h = ap floats.of_int (signed-pos 16 n (omega arith))
  cast-bits_of short_type (negsuc n) h =
      ap floats.of_int (signed-negsuc 16 n _ (omega arith) refl refl)
  cast-bits_of ushort_type (pos n) h = refl
  cast-bits_of ushort_type (negsuc n) h = absurd (omega arith)
  cast-bits_of int_type (pos n) h = ap floats.of_int (signed-pos 32 n (omega arith))
  cast-bits_of int_type (negsuc n) h =
      ap floats.of_int (signed-negsuc 32 n _ (omega arith) refl refl)
  cast-bits_of uint_type (pos n) h = refl
  cast-bits_of uint_type (negsuc n) h = absurd (omega arith)
  cast-bits_of float_type v h = absurd h
  cast-bits_of double_type v h = absurd h
  cast-bits_of no_type v h = absurd h

  IsHeld-width : (t : PropertyType) (v : ℤ) → IsHeld t v → (width_of t == 0) ≡ false
  IsHeld-width char_type v h = refl
  IsHeld-width uchar_type v h = refl
  IsHeld-width short_type v h = refl
  IsHeld-width ushort_type v h = refl
  IsHeld-width int_type v h = refl
  IsHeld-width uint_type v h = refl
  IsHeld-width float_type v h = refl
  IsHeld-width double_type v h = refl
  IsHeld-width no_type v h = absurd h

  -- An integer that its type holds, stored in the byte order of the file anywhere in it, reads as the
  -- `float` of that integer.
  pub read_value-stored :
      (before after : Bytes) (t : PropertyType) (v : ℤ) (big : Bool)
      → IsHeld t v
      → read_value floats conversions
          (before ++ (stored (width_of t) big (bits_of t v) ++ after))
          (length before)
          t
          big
        ≡ some (floats.of_int v)
  unfolding read_value
  read_value-stored before after t v big h =
      rw
        (
          IsHeld-width t v h,
          load_scalar-stored before after (width_of t) (bits_of t v) big (bits_of_lt t v h),
        )
        (ap some (cast-bits_of t v h))
