-- ===== src/PointCloud/Append.antt =====
-- `operator+=` of src/core/point_cloud.cc. The two clouds are different objects.
use pointcaster.Prelude.{
  ℕ, ◌+◌, ◌==◌, String, Bool, Option, none, some, List, [], ◌∷◌, ◌++◌, length, replicate,
  if◌then◌else◌, ◌&&◌,
}
use pointcaster.Prelude.Int.{ℤ, pos}
use pointcaster.PointCloud.{
  Floats, Position, PositionBounds, encompass, origin, RawType, same_type, Storage, of_positions,
  of_floats, of_integers, Attribute, AttributeEncoding, PointCloud, resized, size, find_attribute,
  holds_scalar, same_storage, zero_float, default_encoding, same_encoding, read_scalar_values,
  default_float, default_integer,
}

unfoldable pub encompass_all : PositionBounds → List Position → PositionBounds
encompass_all b [] = b
encompass_all b (p ∷ ps) = encompass_all (encompass b p) ps

-- The visitor that grows one vector: `zero` fills up to the left size, `missing` beyond it.
unfoldable pub extended : {A : Type 0} → ℕ → ℕ → A → A → Option (List A) → List A → List A
extended original_size appended_size zero missing appended values =
    let padded =
      resized (original_size + appended_size) missing (resized original_size zero values) in
    elim appended [
      | none ↦ padded
      | some more ↦
          if length more == appended_size then resized original_size zero values ++ more else padded
    ]

module _ {F : Type 0} where
  -- `std::get_if`
  abbrev pub as_positions : Storage F → Option (List Position)
  as_positions (of_positions values) = some values
  as_positions _ = none

  abbrev pub as_floats : Storage F → Option (List F)
  as_floats (of_floats values) = some values
  as_floats _ = none

  abbrev pub as_integers : RawType → Storage F → Option (List ℤ)
  as_integers t (of_integers s values) = if same_type t s then some values else none
  as_integers t _ = none

module _ {F : Type 0} (floats : Floats F) (original_size appended_size : ℕ) where
  unfoldable pub right_holds_same : Attribute F → Attribute F → Bool
  right_holds_same attribute right =
      same_storage right.storage attribute.storage
      && same_encoding floats right.encoding attribute.encoding

  unfoldable pub promoted : String → Attribute F → Attribute F → Attribute F
  promoted name attribute right = record {
    storage = of_floats (
        resized (original_size + appended_size) (default_float floats name) (
          resized original_size (default_float floats name) (read_scalar_values floats attribute)
          ++ read_scalar_values floats right));
    encoding = default_encoding floats;
  }

  -- The second argument is `right->second.storage` if the right cloud holds the same.
  unfoldable pub grown_storage :
      String → AttributeEncoding F → Option (Storage F) → Storage F → Storage F
  grown_storage name e same (of_positions values) = of_positions (
      extended original_size appended_size origin origin
        (elim same [ none ↦ none | some s ↦ as_positions s ]) values)
  grown_storage name e same (of_floats values) = of_floats (
      extended original_size appended_size (zero_float floats) (default_float floats name)
        (elim same [ none ↦ none | some s ↦ as_floats s ]) values)
  grown_storage name e same (of_integers t values) = of_integers t (
      extended original_size appended_size (pos 0) (default_integer floats t name e)
        (elim same [ none ↦ none | some s ↦ as_integers t s ]) values)

  unfoldable pub grown : String → Attribute F → Option (Attribute F) → Attribute F
  grown name attribute none = record attribute {
    storage = grown_storage name attribute.encoding none attribute.storage;
  }
  grown name attribute (some right) =
      if right_holds_same attribute right
      then record attribute {
        storage = grown_storage name attribute.encoding (some right.storage) attribute.storage;
      }
      else if holds_scalar attribute.storage && holds_scalar right.storage
      then promoted name attribute right
      else record attribute {
        storage = grown_storage name attribute.encoding none attribute.storage;
      }

  unfoldable pub grow_all :
      List (String × Attribute F) → List (String × Attribute F) → List (String × Attribute F)
  grow_all rights [] = []
  grow_all rights ((name, a) ∷ rest) =
      (name, grown name a (find_attribute name rights)) ∷ grow_all rights rest

  abbrev pub defaulted : {A : Type 0} → A → List A → List A
  defaulted missing values =
      resized (original_size + appended_size) missing (replicate original_size missing ++ values)

  -- An attribute that only the right cloud has.
  unfoldable pub adopted : String → AttributeEncoding F → Storage F → Storage F
  adopted name e (of_positions values) = of_positions (defaulted origin values)
  adopted name e (of_floats values) = of_floats (defaulted (default_float floats name) values)
  adopted name e (of_integers t values) =
      of_integers t (defaulted (default_integer floats t name e) values)

  unfoldable pub adopt_one :
      String → Attribute F → List (String × Attribute F) → List (String × Attribute F)
  adopt_one name a lefts = elim (find_attribute name lefts) [
    | some _ ↦ lefts
    | none ↦ lefts ++ (name, record a { storage = adopted name a.encoding a.storage }) ∷ []
  ]

  unfoldable pub adopt_all :
      List (String × Attribute F) → List (String × Attribute F) → List (String × Attribute F)
  adopt_all [] lefts = lefts
  adopt_all ((name, a) ∷ rest) lefts = adopt_all rest (adopt_one name a lefts)

module _ {F : Type 0} (floats : Floats F) where
  -- What is left when the right cloud has points.
  abbrev pub joined : PointCloud F → PointCloud F → PointCloud F
  joined lhs rhs =
      let n = size lhs in
      let m = size rhs in
      record {
        positions = lhs.positions ++ rhs.positions;
        colors = lhs.colors ++ rhs.colors;
        bounds = encompass_all lhs.bounds rhs.positions;
        attributes =
            adopt_all floats n m rhs.attributes (grow_all floats n m rhs.attributes lhs.attributes);
      }

  unfoldable pub append : PointCloud F → PointCloud F → PointCloud F
  append lhs rhs = if size rhs == 0 then lhs else joined lhs rhs
