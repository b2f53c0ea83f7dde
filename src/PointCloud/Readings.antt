-- ===== src/PointCloud/Readings.antt =====
-- What the attributes read as after `operator+=` of src/core/point_cloud.cc.
use mathlib.Core.Option
use mathlib.Core.Option.{some-injective}
use pointcaster.Prelude.{
  or_else, ℕ, ◌+◌, ◌<◌, ◌≡◌, String, true, false, Option, none, some, List, [], ◌∷◌, ◌++◌, map,
  length, str_eq, if◌then◌else◌, arith, refl, ap, sym, ◌∙◌, length-append, Bool-cases, inl, inr,
  subst, ◌&&◌,
}
use pointcaster.PointCloud.{
  Floats, storage_size, Attribute, AttributeEncoding, PointCloud, resized, size, find_attribute,
  holds_scalar, same_storage, same_encoding, to_value, default_encoding, default_float,
  read_storage, read_scalar_values, attribute_values_as_float,
}
use pointcaster.PointCloud.Append.{promoted, grown, grow_all, append, right_holds_same, joined}
use pointcaster.PointCloud.Sizes.{HasSize, append-joined}
use pointcaster.PointCloud.Vectors.{resized-same, &&_split}
use pointcaster.PointCloud.Lookup.{
  adopted_attribute, find_attribute-adopt_all, find_attribute-grow_all,
}
use pointcaster.PointCloud.Elements.{
  missing_storage, read-adopted, read-grown_storage-none, read-grown_storage-some,
  length-read_storage, missing_storage-other, holds_scalar-same, ap2_encoding,
}

module _ {F : Type 0} (floats : Floats F) where
  abbrev pub missing_values : ℕ → String → Attribute F → List F
  missing_values n name a = missing_storage floats n name a.encoding a.storage

  -- The readings of `n` points with the left attribute, then of `m` points with the right one.
  unfoldable pub specified_values :
      ℕ → ℕ → String → Option (Attribute F) → Option (Attribute F) → List F
  specified_values n m name none none = []
  specified_values n m name none (some b) = missing_values n name b ++ read_scalar_values floats b
  specified_values n m name (some a) none = read_scalar_values floats a ++ missing_values m name a
  specified_values n m name (some a) (some b) =
      read_scalar_values floats a
      ++ (if holds_scalar a.storage && holds_scalar b.storage
          then read_scalar_values floats b
          else missing_values m name a)

  -- The encoding that a float storage takes leaves each value as it is, and floats that compare
  -- equal are equal.
  module _ (reads_unchanged : (v : F) → to_value floats (default_encoding floats) v ≡ v)
      (eq_same : (u v : F) → floats.eq u v ≡ true → u ≡ v) where
    map_unchanged : (vs : List F) → map (to_value floats (default_encoding floats)) vs ≡ vs
    map_unchanged [] = refl
    map_unchanged (v ∷ vs) = rw (reads_unchanged v, map_unchanged vs) refl

    pub same_encoding-equal : (a b : AttributeEncoding F) → same_encoding floats a b ≡ true → a ≡ b
    unfolding same_encoding
    same_encoding-equal a b h =
        let (step, offset) = &&_split h in
        ap2_encoding floats (eq_same a.step b.step step) (eq_same a.offset b.offset offset)

    read-promoted :
        (n m : ℕ) (name : String) (a b : Attribute F)
        → storage_size a.storage ≡ n
        → storage_size b.storage ≡ m
        → holds_scalar a.storage ≡ true
        → holds_scalar b.storage ≡ true
        → read_scalar_values floats (promoted floats n m name a b)
          ≡ read_scalar_values floats a ++ read_scalar_values floats b
    unfolding read_storage promoted
    read-promoted n m name a b h k p q =
        let d = default_float floats name in
        let ra = read_scalar_values floats a in
        let rb = read_scalar_values floats b in
        let la : length ra ≡ n = length-read_storage floats a.encoding a.storage p ∙ h in
        let lb : length rb ≡ m = length-read_storage floats b.encoding b.storage q ∙ k in
        map_unchanged _
        ∙ ap (λ l. resized (n + m) d (l ++ rb)) (resized-same n d ra la)
        ∙ resized-same (n + m) d (ra ++ rb) (omega (arith, length-append ra rb, la, lb))

    -- The same storage read the same way appends.
    read-same :
        (n m : ℕ) (name : String) (a b : Attribute F)
        → right_holds_same floats n m a b ≡ true
        → read_scalar_values floats a ++ read_storage floats a.encoding b.storage
          ≡ specified_values n m name (some a) (some b)
    unfolding right_holds_same specified_values
    read-same n m name a b e =
        let (same, encodings) = &&_split e in
        let one = same_encoding-equal b.encoding a.encoding encodings in
        elim (Bool-cases (holds_scalar a.storage && holds_scalar b.storage)) [
          | inl f ↦
              rw f
                (ap (λ x. read_scalar_values floats a ++ read_storage floats x b.storage) (sym one))
          | inr f ↦
              let both = holds_scalar-same floats b.storage a.storage same in
              let left_other : holds_scalar a.storage ≡ false = ground (arith, f, both) in
              let (left, missing) =
                missing_storage-other floats m name a.encoding a.storage left_other in
              let (right, _) =
                missing_storage-other floats n name a.encoding b.storage (both ∙ left_other) in
              rw (f, missing, right) refl
        ]

    read-grown :
        (n m : ℕ) (name : String) (a : Attribute F) (right : Option (Attribute F))
        → storage_size a.storage ≡ n
        → ((b : Attribute F) → right ≡ some b → storage_size b.storage ≡ m)
        → read_scalar_values floats (grown floats n m name a right)
          ≡ specified_values n m name (some a) right
    unfolding grown specified_values right_holds_same
    read-grown n m name a none h k = read-grown_storage-none floats n m name a.encoding a.storage h
    read-grown n m name a (some b) h k = elim (Bool-cases (right_holds_same floats n m a b)) [
      | inl e ↦ rw e (
          read-grown_storage-some floats n m name a.encoding a.storage b.storage h (k b refl)
            (&&_split {a = same_storage b.storage a.storage} e).0
          ∙ read-same n m name a b e)
      | inr e ↦ elim (Bool-cases (holds_scalar a.storage && holds_scalar b.storage)) [
        | inl f ↦ let (p, q) = &&_split f in rw (e, f) (read-promoted n m name a b h (k b refl) p q)
        | inr f ↦ rw (e, f) (read-grown_storage-none floats n m name a.encoding a.storage h)
      ]
    ]

module _ {F : Type 0} where
  storage_size-found :
      (n : ℕ) (name : String) (xs : List (String × Attribute F)) (a : Attribute F)
      → HasSize n xs
      → find_attribute name xs ≡ some a
      → storage_size a.storage ≡ n
  unfolding find_attribute
  storage_size-found n name [] a h e = ground (arith, e)
  storage_size-found n name ((k, b) ∷ xs) a (h, hs) e = elim (Bool-cases (str_eq k name)) [
    | inl f ↦
        let same : some b ≡ some a = ground (arith, e, f) in
        subst (λ x. storage_size x.storage ≡ n) (some-injective b a same) h
    | inr f ↦ storage_size-found n name xs a hs (ground (arith, e, f))
  ]

module _ {F : Type 0} (floats : Floats F) where
  abbrev values_of : Option (Attribute F) → List F
  values_of found = elim found [ none ↦ [] | some a ↦ read_scalar_values floats a ]

  module _ (reads_unchanged : (v : F) → to_value floats (default_encoding floats) v ≡ v)
      (eq_same : (u v : F) → floats.eq u v ≡ true → u ≡ v) where
    read-either :
        (n m : ℕ) (name : String) (l r : Option (Attribute F))
        → ((a : Attribute F) → l ≡ some a → storage_size a.storage ≡ n)
        → ((b : Attribute F) → r ≡ some b → storage_size b.storage ≡ m)
        → values_of (
            or_else
              (Option.map (λ a. grown floats n m name a r) l)
              (Option.map (adopted_attribute floats n m name) r))
          ≡ specified_values floats n m name l r
    unfolding specified_values
    read-either n m name none none h k = refl
    read-either n m name none (some b) h k =
        read-adopted floats n m name b.encoding b.storage (k b refl)
    read-either n m name (some a) r h k =
        read-grown floats reads_unchanged eq_same n m name a r (h a refl) k

    read-joined :
        (lhs rhs : PointCloud F) (name : String)
        → HasSize (size lhs) lhs.attributes
        → HasSize (size rhs) rhs.attributes
        → attribute_values_as_float floats (joined floats lhs rhs) name
          ≡ specified_values floats
              (size lhs)
              (size rhs)
              name
              (find_attribute name lhs.attributes)
              (find_attribute name rhs.attributes)
    unfolding attribute_values_as_float
    read-joined lhs rhs name h k =
        let n = size lhs in
        let m = size rhs in
        let left = grow_all floats n m rhs.attributes lhs.attributes in
        ap values_of (find_attribute-adopt_all floats n m name rhs.attributes left)
        ∙ ap
            (λ o. values_of (
              or_else o (
                Option.map (adopted_attribute floats n m name)
                  (find_attribute name rhs.attributes))))
            (find_attribute-grow_all floats n m name rhs.attributes lhs.attributes)
        ∙ read-either n m name (find_attribute name lhs.attributes)
            (find_attribute name rhs.attributes) (λ a. storage_size-found n name lhs.attributes a h)
            (λ b. storage_size-found m name rhs.attributes b k)

    -- Let a float encoded by step 1 and offset 0 read back as it is, and floats that compare equal be
    -- equal. When the attributes of two clouds have an element for each point and the right cloud
    -- has points, an attribute of the combined cloud reads as specified: the left readings then
    -- the right ones where both clouds have it as scalars, whether it is kept in its storage or
    -- promoted to floats, and otherwise the readings of the default for the points without it.
    pub attribute_values_as_float-append :
        (lhs rhs : PointCloud F) (name : String)
        → HasSize (size lhs) lhs.attributes
        → HasSize (size rhs) rhs.attributes
        → 0 < size rhs
        → attribute_values_as_float floats (append floats lhs rhs) name
          ≡ specified_values floats
              (size lhs)
              (size rhs)
              name
              (find_attribute name lhs.attributes)
              (find_attribute name rhs.attributes)
    attribute_values_as_float-append lhs rhs name h k more =
        ap (λ c. attribute_values_as_float floats c name) (append-joined floats lhs rhs more)
        ∙ read-joined lhs rhs name h k
