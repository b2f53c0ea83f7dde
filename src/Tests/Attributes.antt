-- ===== src/Tests/Attributes.antt =====
-- The attributes of a cloud of the point cloud tests, read by a client.
use pointcaster.Prelude.{
  ℕ, suc, zero, ◌*◌, ◌/◌, ◌≡◌, String, Bool, true, false, Option, some, List, [], ◌∷◌, str_eq,
  eq_iff, refl, arith, ◌∙◌, ap, get_or, get_elem?, ◌&&◌, not, ==_iff, some,
}
use pointcaster.Prelude.Int.{pos}
use pointcaster.PointCloud.{
  Storage, of_positions, of_floats, of_integers, uint8, uint16, int8, int16, find_attribute,
  holds_scalar, to_value, attribute_values_as_float,
}
use pointcaster.PointReceiver.{ok}
use pointcaster.PointReceiver.Attributes.{
  AttributeType, type_of, bytes_of, Descriptor, described, pointreceiver_find_attribute,
  attribute_copy_floats,
}
use pointcaster.PointReceiver.Attributes.Delivered.{
  raw_values, IsMemory, attribute_copy_floats-delivered,
}
use pointcaster.Tests.PointCloud.{numbers}
use pointcaster.Tests.PointCloud

abbrev memory : Storage ℕ → Option (AttributeType → ℕ → ℕ)
memory s = some (λ t o. get_or (raw_values numbers s) (o / bytes_of t) 0)

get_or-found : (xs : List ℕ) (i x : ℕ) → get_elem? xs i ≡ some x → get_or xs i 0 ≡ x
get_or-found [] i x h = cc
get_or-found (y ∷ ys) zero x h = ground (arith, h)
get_or-found (y ∷ ys) (suc i) x h = get_or-found ys i x h

index : (s : Storage ℕ) (i : ℕ) → bytes_of (type_of s) * i / bytes_of (type_of s) ≡ i
index (of_positions values) i = omega arith
index (of_floats values) i = omega arith
index (of_integers uint8 values) i = omega arith
index (of_integers uint16 values) i = omega arith
index (of_integers int8 values) i = omega arith
index (of_integers int16 values) i = omega arith

memory-IsMemory : IsMemory numbers memory
memory-IsMemory s h = (
  λ t o. get_or (raw_values numbers s) (o / bytes_of t) 0,
  refl,
  λ i x e.
      ap (λ k. get_or (raw_values numbers s) k 0) (index s i)
      ∙ get_or-found (raw_values numbers s) i x e,
)

abbrev scale_first : String → String → Bool
scale_first p q = str_eq p "point_scale" && not (str_eq q "point_scale")

scale_first_irrefl : (p q : String) → str_eq p q ≡ true → scale_first p q ≡ false
scale_first_irrefl p q h = ground (arith, h, eq_iff p q)

attribute_copy_floats-delivered_example :
    (d : Descriptor ℕ) × (pointreceiver_find_attribute
        (some "intensity")
        (some (described scale_first memory PointCloud.left.attributes))
      ≡ some d)
    × (attribute_copy_floats numbers (some d) (some 2)
        ≡ (ok, attribute_values_as_float numbers PointCloud.left "intensity"))
unfolding find_attribute holds_scalar to_value
attribute_copy_floats-delivered_example =
    attribute_copy_floats-delivered numbers memory scale_first PointCloud.left "intensity"
      (PointCloud.bytes (pos 1 ∷ pos 2 ∷ [])) 2 (λ v. omega arith) (λ u v. (==_iff u v).0)
      scale_first_irrefl memory-IsMemory refl refl (omega arith) (omega arith) (omega arith)
