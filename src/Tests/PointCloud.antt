-- ===== src/Tests/PointCloud.antt =====
-- Point clouds put together, with numbers in place of floats.
use pointcaster.Prelude.{
  ℕ, ◌+◌, ◌-◌, ◌*◌, ◌/◌, ◌==◌, ◌≡◌, List, [], ◌∷◌, ltb, leb, arith, refl, ==_iff, some,
}
use pointcaster.Prelude.Int.{ℤ, pos, negsuc, pos_part}
use pointcaster.PointCloud.{
  Floats, Position, PositionBounds, Color, Attribute, AttributeEncoding, PointCloud, of_floats,
  of_integers, uint8, attribute_values_as_float, find_attribute, to_value, read_storage,
  same_storage, holds_scalar, default_float,
}
use pointcaster.PointCloud.Append.{
  append, adopt_all, adopt_one, grow_all, grown, right_holds_same, promoted, adopted,
}
use pointcaster.PointCloud.Sizes.{IsValid}
use pointcaster.PointCloud.Readings.{specified_values, attribute_values_as_float-append}

abbrev pub numbers : Floats ℕ
numbers = record {
  add = λ a b. a + b;
  sub = λ a b. a - b;
  mul = λ a b. a * b;
  div = λ a b. a / b;
  eq = λ a b. a == b;
  lt = ltb;
  le = leb;
  of_int = pos_part;
  truncated = pos;
}

abbrev at : ℤ → Position
at v = record { x = v; y = pos 0; z = pos 0 }

abbrev around : Position → Position → PositionBounds
around p q = record { lower = p; upper = q }

abbrev white : Color
white = record { r = 255; g = 255; b = 255; a = 255 }

abbrev by_step : ℕ → AttributeEncoding ℕ
by_step s = record { step = s; offset = 0 }

abbrev pub bytes : List ℤ → Attribute ℕ
bytes vs = record { storage = of_integers uint8 vs; encoding = by_step 10 }

abbrev reals : List ℕ → Attribute ℕ
reals vs = record { storage = of_floats vs; encoding = by_step 1 }

-- Intensity is kept in tens, and a scale is given.
abbrev pub left : PointCloud ℕ
left = record {
  positions = at (pos 3) ∷ at (negsuc 0) ∷ [];
  colors = white ∷ white ∷ [];
  bounds = around (at (negsuc 0)) (at (pos 3));
  attributes = ("intensity", bytes (pos 1 ∷ pos 2 ∷ [])) ∷ ("point_scale", reals (4 ∷ 5 ∷ [])) ∷ [];
}

abbrev pub right : PointCloud ℕ
right = record {
  positions = at (pos 9) ∷ [];
  colors = white ∷ [];
  bounds = around (at (pos 9)) (at (pos 9));
  attributes = ("intensity", reals (7 ∷ [])) ∷ ("heat", reals (8 ∷ [])) ∷ [];
}

promotes :
    attribute_values_as_float numbers (append numbers left right) "intensity" ≡ 10 ∷ 20 ∷ 7 ∷ []
unfolding attribute_values_as_float append find_attribute read_storage to_value adopt_all adopt_one
    grow_all grown right_holds_same same_storage holds_scalar promoted
promotes = refl

pads : attribute_values_as_float numbers (append numbers left right) "heat" ≡ 0 ∷ 0 ∷ 8 ∷ []
unfolding attribute_values_as_float append find_attribute read_storage to_value adopt_all adopt_one
    grow_all adopted default_float
pads = refl

pub left-IsValid : IsValid left
unfolding find_attribute
left-IsValid = ground arith

attribute_values_as_float-append_example :
    attribute_values_as_float numbers (append numbers left right) "intensity"
    ≡ specified_values numbers 2 1 "intensity"
        (some (bytes (pos 1 ∷ pos 2 ∷ [])))
        (some (reals (7 ∷ [])))
unfolding find_attribute to_value
attribute_values_as_float-append_example =
    attribute_values_as_float-append numbers unchanged (λ u v. (==_iff u v).0) left right
      "intensity" (refl, (refl, tt)) (refl, (refl, tt)) (omega arith)
  where
    unchanged : (v : ℕ) → v * 1 + 0 ≡ v
    unchanged v = omega arith
