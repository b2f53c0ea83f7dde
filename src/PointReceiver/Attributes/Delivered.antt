-- ===== src/PointReceiver/Attributes/Delivered.antt =====
-- The attributes of a dequeued cloud as a client of src/pointreceiver/pointreceiver.cc reads them.
use mathlib.Core.Option.{some-injective}
use pointcaster.Prelude.{
  ℕ, suc, ◌+◌, ◌*◌, ◌^◌, ◌<◌, ◌≤◌, ltb, ◌≡◌, String, Bool, true, false, Option, some, List, [], ◌∷◌,
  map, str_eq, eq_iff, if◌then◌else◌, length, arith, refl, ap, ◌∙◌, sym, Bool-cases, inl, inr,
  get_elem?, length-map,
}
use pointcaster.Prelude.Int.{ℤ}
use pointcaster.PointCloud.{
  Floats, Attribute, AttributeEncoding, RawType, uint8, uint16, int8, int16, Storage, of_positions,
  of_floats, of_integers, PointCloud, to_value, default_encoding, storage_size, holds_scalar,
  find_attribute, read_storage, attribute_values_as_float,
}
use pointcaster.PointReceiver.{ok}
use pointcaster.PointReceiver.Attributes.{
  AttributeType, type_of, components_of, wire_type, bytes_of, is_known, Descriptor, describe,
  insert_by_name, described, find_named, pointreceiver_find_attribute, component_values, copy_as,
  attribute_copy_floats,
}
use pointcaster.PointReceiver.Attributes.Decoded.{attribute_copy_floats-decodes, decoded_values}

module _ {F : Type 0} (memory : Storage F → Option (AttributeType → ℕ → F))
    (before : String → String → Bool) where
  find-insert_by_name :
      (irrefl : (p q : String) → str_eq p q ≡ true → before p q ≡ false) (name : String)
      (d : Descriptor F) (ds : List (Descriptor F))
      → find_named name (insert_by_name before d ds)
        ≡ (if str_eq d.name name then some d else find_named name ds)
  unfolding insert_by_name find_named
  find-insert_by_name irrefl name d [] = refl
  find-insert_by_name irrefl name d (e ∷ ds) = ground (
    arith,
    eq_iff d.name name,
    eq_iff e.name name,
    eq_iff e.name d.name,
    irrefl e.name d.name,
    find-insert_by_name irrefl name d ds,
  )

  describe-same :
      {n name : String} {b a : Attribute F}
      → n ≡ name
      → b ≡ a
      → some (describe memory n b) ≡ some (describe memory name a)
  describe-same {name = name} {b = b} e q =
      ap (λ k. some (describe memory k b)) e ∙ ap (λ x. some (describe memory name x)) q

  find-described :
      (irrefl : (p q : String) → str_eq p q ≡ true → before p q ≡ false) (name : String)
      (attributes : List (String × Attribute F)) (a : Attribute F)
      → find_attribute name attributes ≡ some a
      → find_named name (described before memory attributes) ≡ some (describe memory name a)
  unfolding find_attribute described describe
  find-described irrefl name [] a h = cc
  find-described irrefl name ((n, b) ∷ rest) a h =
      let found =
        find-insert_by_name irrefl name (describe memory n b) (described before memory rest) in
      elim (Bool-cases (str_eq n name)) [
        | inl e ↦
            found
            ∙ ground (arith, e)
            ∙ describe-same ((eq_iff n name).0 e) (some-injective b a (ground (arith, e, h)))
        | inr e ↦
            found ∙ ground (arith, e, find-described irrefl name rest a (ground (arith, e, h)))
      ]

module _ {F : Type 0} (floats : Floats F) where
  -- The elements of a storage of scalars, cast to `float`.
  abbrev pub raw_values : Storage F → List F
  raw_values (of_positions values) = []
  raw_values (of_floats values) = values
  raw_values (of_integers t values) = map floats.of_int values

  -- The elements of a vector that is not empty lie one after another from its data.
  abbrev pub IsMemory : (Storage F → Option (AttributeType → ℕ → F)) → Type 0
  IsMemory memory =
      (s : Storage F)
      → 0 < length (raw_values s)
      → (value : AttributeType → ℕ → F) × (memory s ≡ some value)
        × ((i : ℕ) (x : F)
            → get_elem? (raw_values s) i ≡ some x
            → value (type_of s) (bytes_of (type_of s) * i) ≡ x)

  scalar-one :
      (s : Storage F)
      → holds_scalar s ≡ true
      → (components_of s ≡ 1)
        × (storage_size s ≡ length (raw_values s))
        × (is_known (type_of s) ≡ true)
  unfolding holds_scalar
  scalar-one (of_positions values) h = cc
  scalar-one (of_floats values) h = (refl, refl, refl)
  scalar-one (of_integers t values) h = (refl, sym (length-map values floats.of_int), known t)
    where
      known : (t : RawType) → is_known (wire_type t) ≡ true
      known uint8 = refl
      known uint16 = refl
      known int8 = refl
      known int16 = refl

  read_storage-raw :
      (e : AttributeEncoding F) (s : Storage F)
      → read_storage floats e s ≡ map (to_value floats e) (raw_values s)
  unfolding read_storage
  read_storage-raw e (of_positions values) = refl
  read_storage-raw e (of_floats values) = refl
  read_storage-raw e (of_integers t values) = go values
    where
      go :
          (values : List ℤ)
          → map (λ v. to_value floats e (floats.of_int v)) values
            ≡ map (to_value floats e) (map floats.of_int values)
      go [] = refl
      go (v ∷ vs) = ap (λ ws. to_value floats e (floats.of_int v) ∷ ws) (go vs)

module _ {F : Type 0} where
  copy_as-map :
      (value : ℕ → F) (g : F → F) (width start : ℕ) (vs : List F)
      → ((i : ℕ) (x : F) → get_elem? vs i ≡ some x → value (start + width * i) ≡ g x)
      → copy_as value width 1 (width * 1) start (length vs) ≡ map g vs
  unfolding copy_as component_values
  copy_as-map value g width start [] h = refl
  copy_as-map value g width start (v ∷ vs) h =
      let first : value start ≡ g v =
        ap value {x = start} {y = start + width * 0} (omega arith) ∙ h 0 v refl in
      let rest = copy_as-map value g width (start + width * 1) vs (λ i x e.
        ap value {x = start + width * 1 + width * i} {y = start + width * suc i} (omega arith)
        ∙ h (suc i) x e) in
      rw (first, rest) refl

module _ {F : Type 0} (floats : Floats F)
    (memory : Storage F → Option (AttributeType → ℕ → F)) where
  decoded-read :
      (name : String) (a : Attribute F) (value : AttributeType → ℕ → F)
      → holds_scalar a.storage ≡ true
      → ((i : ℕ) (x : F)
          → get_elem? (raw_values floats a.storage) i ≡ some x
          → value (type_of a.storage) (bytes_of (type_of a.storage) * i) ≡ x)
      → decoded_values floats (describe memory name a) value
        ≡ read_storage floats a.encoding a.storage
  unfolding describe
  decoded-read name a value h m =
      let (one, sized, known) = scalar-one floats a.storage h in
      rw (one, sized)
        (copy_as-map _ (to_value floats a.encoding) (bytes_of (type_of a.storage)) 0
            (raw_values floats a.storage)
            (λ i x e. ap (to_value floats a.encoding) (
              ap (value (type_of a.storage)) {x = 0 + bytes_of (type_of a.storage) * i}
                {y = bytes_of (type_of a.storage) * i} (omega arith)
              ∙ m i x e))
          ∙ sym (read_storage-raw floats a.encoding a.storage))

  -- Let a float encoded by step 1 and offset 0 read as itself, floats that compare equal be equal, no
  -- name come before itself, and the elements of a vector that is not empty lie one after another. A
  -- client that looks up a scalar attribute of a dequeued cloud by its name finds it. If it has a value,
  -- and all fit in the client's buffer and are fewer than 2^64, the copy then delivers the values that
  -- attribute_values_as_float reads from the cloud.
  pub attribute_copy_floats-delivered :
      (before : String → String → Bool) (cloud : PointCloud F) (name : String) (a : Attribute F)
      (out_capacity : ℕ)
      → ((v : F) → to_value floats (default_encoding floats) v ≡ v)
      → ((u v : F) → floats.eq u v ≡ true → u ≡ v)
      → ((p q : String) → str_eq p q ≡ true → before p q ≡ false)
      → IsMemory floats memory
      → find_attribute name cloud.attributes ≡ some a
      → holds_scalar a.storage ≡ true
      → 0 < storage_size a.storage
      → storage_size a.storage ≤ out_capacity
      → storage_size a.storage < 2 ^ 64
      → (d : Descriptor F) × (pointreceiver_find_attribute
            (some name)
            (some (described before memory cloud.attributes))
          ≡ some d)
        × (attribute_copy_floats floats (some d) (some out_capacity)
            ≡ (ok, attribute_values_as_float floats cloud name))
  unfolding describe pointreceiver_find_attribute attribute_values_as_float
  attribute_copy_floats-delivered before cloud name a out_capacity reads eq_same irrefl laid h
        scalar some_value fits small =
      let (one, sized, known) = scalar-one floats a.storage scalar in
      let (value, e, m) = laid a.storage (omega (arith, sized, some_value)) in
      let (copied, counted) =
        attribute_copy_floats-decodes floats (describe memory name a) value out_capacity reads
          eq_same e known (rw one (omega (arith, small))) in
      let bound : ltb out_capacity (storage_size a.storage * components_of a.storage) ≡ false =
        rw one (ground (arith, fits)) in
      let all = decoded-read name a value scalar m in
      (
        describe memory name a,
        find-described memory before irrefl name cloud.attributes a h,
        copied ∙ rw bound (ap (λ vs. (ok, vs)) all ∙ rw (attribute_values_as_float, h) refl),
      )
