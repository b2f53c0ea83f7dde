-- ===== src/PointCloud.antt =====
-- include/pointcaster/point_cloud.h, include/pointcaster/core_types.h and the attribute functions of
-- src/core/point_cloud.cc. `float` is a parameter, the record `Floats` of the operations used. The
-- padding of `position` is left out. The map of attributes is a list of pairs in some order.
pub mod Append
mod Vectors
mod Lookup
pub mod Bounds
pub mod Elements
pub mod Sizes
pub mod Points
pub mod Readings
pub mod Gather
use pointcaster.Prelude.{
  ℕ, ◌+◌, ◌-◌, ◌==◌, String, Bool, true, false, Option, none, some, List, [], ◌∷◌, ◌++◌, map,
  length, take, replicate, get_or, str_eq, ltb, if◌then◌else◌, ◌&&◌,
}
use pointcaster.Prelude.Int.{ℤ, pos, negsuc, ltb_ℤ}

pub record Floats (F : Type 0) : Type 0 where
  pub add : F → F → F
  pub sub : F → F → F
  pub mul : F → F → F
  pub div : F → F → F
  pub eq : F → F → Bool
  pub lt : F → F → Bool
  pub le : F → F → Bool
  pub of_int : ℤ → F
  -- `static_cast` to an integer
  pub truncated : F → ℤ

pub record Position : Type 0 where
  pub x : ℤ
  pub y : ℤ
  pub z : ℤ

abbrev pub origin : Position
origin = record { x = pos 0; y = pos 0; z = pos 0 }

pub record PositionBounds : Type 0 where
  pub lower : Position
  pub upper : Position

abbrev pub lower_ℤ : ℤ → ℤ → ℤ
lower_ℤ p m = if ltb_ℤ p m then p else m

abbrev pub upper_ℤ : ℤ → ℤ → ℤ
upper_ℤ p m = if ltb_ℤ m p then p else m

unfoldable pub encompass : PositionBounds → Position → PositionBounds
encompass b p = record {
  lower = record {
    x = lower_ℤ p.x b.lower.x;
    y = lower_ℤ p.y b.lower.y;
    z = lower_ℤ p.z b.lower.z;
  };
  upper = record {
    x = upper_ℤ p.x b.upper.x;
    y = upper_ℤ p.y b.upper.y;
    z = upper_ℤ p.z b.upper.z;
  };
}

pub record Color : Type 0 where
  pub r : ℕ
  pub g : ℕ
  pub b : ℕ
  pub a : ℕ

pub record AttributeEncoding (F : Type 0) : Type 0 where
  pub step : F
  pub offset : F

-- The integers that an attribute can hold.
pub data RawType : Type 0 where
  uint8 : RawType
  uint16 : RawType
  int8 : RawType
  int16 : RawType

abbrev pub lowest : RawType → ℤ
lowest uint8 = pos 0
lowest uint16 = pos 0
lowest int8 = negsuc 127
lowest int16 = negsuc 32767

abbrev pub highest : RawType → ℤ
highest uint8 = pos 255
highest uint16 = pos 65535
highest int8 = pos 127
highest int16 = pos 32767

abbrev pub same_type : RawType → RawType → Bool
same_type uint8 uint8 = true
same_type uint16 uint16 = true
same_type int8 int8 = true
same_type int16 int16 = true
same_type _ _ = false

pub data Storage (F : Type 0) : Type 0 where
  of_positions : List Position → Storage F
  of_floats : List F → Storage F
  of_integers : RawType → List ℤ → Storage F

pub record Attribute (F : Type 0) : Type 0 where
  pub storage : Storage F
  pub encoding : AttributeEncoding F

pub record PointCloud (F : Type 0) : Type 0 where
  pub positions : List Position
  pub colors : List Color
  pub bounds : PositionBounds
  pub attributes : List (String × Attribute F)

-- `std::vector::resize`
abbrev pub resized : {A : Type 0} → ℕ → A → List A → List A
resized n value values = take n values ++ replicate (n - length values) value

module _ {F : Type 0} where
  -- `PointCloud{}`, with bounds that hold no point.
  abbrev pub empty_cloud : PointCloud F
  empty_cloud = record {
    positions = [];
    colors = [];
    bounds = record {
      lower = record { x = pos 32767; y = pos 32767; z = pos 32767 };
      upper = record { x = negsuc 32767; y = negsuc 32767; z = negsuc 32767 };
    };
    attributes = [];
  }

module _ {F : Type 0} where
  abbrev pub size : PointCloud F → ℕ
  size cloud = length cloud.positions

  abbrev pub storage_size : Storage F → ℕ
  storage_size (of_positions values) = length values
  storage_size (of_floats values) = length values
  storage_size (of_integers t values) = length values

  unfoldable pub find_attribute : String → List (String × Attribute F) → Option (Attribute F)
  find_attribute name [] = none
  find_attribute name ((n, a) ∷ rest) =
      let found = find_attribute name rest in if str_eq n name then some a else found

  unfoldable pub holds_scalar : Storage F → Bool
  holds_scalar (of_positions values) = false
  holds_scalar (of_floats values) = true
  holds_scalar (of_integers t values) = true

  -- `storage.index()` compared
  unfoldable pub same_storage : Storage F → Storage F → Bool
  same_storage (of_positions _) (of_positions _) = true
  same_storage (of_floats _) (of_floats _) = true
  same_storage (of_integers s _) (of_integers t _) = same_type s t
  same_storage _ _ = false

module _ {F : Type 0} (floats : Floats F) where
  open floats use {add, sub, mul, div, eq, lt, le, of_int, truncated}

  abbrev pub zero_float : F
  zero_float = of_int (pos 0)

  abbrev pub half : F
  half = div (of_int (pos 1)) (of_int (pos 2))

  -- 2.5
  abbrev pub default_point_radius_mm : F
  default_point_radius_mm = div (of_int (pos 5)) (of_int (pos 2))

  abbrev pub default_encoding : AttributeEncoding F
  default_encoding = record { step = of_int (pos 1); offset = zero_float }

  unfoldable pub to_value : AttributeEncoding F → F → F
  to_value e raw = add (mul raw e.step) e.offset

  unfoldable pub same_encoding : AttributeEncoding F → AttributeEncoding F → Bool
  same_encoding a b = eq a.step b.step && eq a.offset b.offset

  unfoldable pub quantise : RawType → F → AttributeEncoding F → ℤ
  quantise t value e =
      let steps = div (sub value e.offset) e.step in
      let rounded = if lt steps zero_float then sub steps half else add steps half in
      if le rounded (of_int (lowest t))
      then lowest t
      else if le (of_int (highest t)) rounded
      then highest t
      else truncated rounded

  unfoldable pub read_storage : AttributeEncoding F → Storage F → List F
  read_storage e (of_positions values) = []
  read_storage e (of_floats values) = map (to_value e) values
  read_storage e (of_integers t values) = map (λ value. to_value e (of_int value)) values

  abbrev pub read_scalar_values : Attribute F → List F
  read_scalar_values a = read_storage a.encoding a.storage

  abbrev pub is_point_scale : String → Bool
  is_point_scale name = str_eq name "point_scale"

  -- `default_attribute_value` for each type of element
  unfoldable pub default_float : String → F
  default_float name = if is_point_scale name then default_point_radius_mm else zero_float

  unfoldable pub default_integer : RawType → String → AttributeEncoding F → ℤ
  default_integer t name e =
      if is_point_scale name then quantise t default_point_radius_mm e else quantise t zero_float e

  unfoldable pub attribute_values_as_float : PointCloud F → String → List F
  attribute_values_as_float cloud name = elim (find_attribute name cloud.attributes) [
    | none ↦ []
    | some a ↦ read_scalar_values a
  ]

module _ {F : Type 0} (floats : Floats F) where
  -- `PointCloud::resize`: new elements are zero.
  unfoldable pub resize_storage : ℕ → Storage F → Storage F
  resize_storage n (of_positions values) = of_positions (resized n origin values)
  resize_storage n (of_floats values) = of_floats (resized n (zero_float floats) values)
  resize_storage n (of_integers t values) = of_integers t (resized n (pos 0) values)

  unfoldable pub resize_attributes : ℕ → List (String × Attribute F) → List (String × Attribute F)
  resize_attributes n [] = []
  resize_attributes n ((name, a) ∷ rest) =
      (name, record a { storage = resize_storage n a.storage }) ∷ resize_attributes n rest

  unfoldable pub resize : ℕ → PointCloud F → PointCloud F
  resize n cloud = record cloud {
    positions = resized n origin cloud.positions;
    colors = resized n (record { r = 0; g = 0; b = 0; a = 0 }) cloud.colors;
    attributes = resize_attributes n cloud.attributes;
  }

  -- `kept` of `gather_attributes_into`
  unfoldable pub gathered : List ℕ → Storage F → Storage F
  gathered indices (of_positions values) = of_positions (map (λ i. get_or values i origin) indices)
  gathered indices (of_floats values) =
      of_floats (map (λ i. get_or values i (zero_float floats)) indices)
  gathered indices (of_integers t values) =
      of_integers t (map (λ i. get_or values i (pos 0)) indices)

  unfoldable pub gather_all : List ℕ → List (String × Attribute F) → List (String × Attribute F)
  gather_all indices [] = []
  gather_all indices ((name, a) ∷ rest) =
      (name, record a { storage = gathered indices a.storage }) ∷ gather_all indices rest

  unfoldable pub gather_attributes_into : PointCloud F → PointCloud F → List ℕ → PointCloud F
  gather_attributes_into cloud destination indices = record destination {
    attributes = gather_all indices cloud.attributes;
  }
