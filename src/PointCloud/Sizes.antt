-- ===== src/PointCloud/Sizes.antt =====
-- The sizes, names and bounds that `operator+=` of src/core/point_cloud.cc leaves.
use pointcaster.Prelude.{
  ltb, tests, ℕ, ◌+◌, ◌<◌, ◌≡◌, ◌==◌, String, true, false, Option, none, some, List, [], ◌∷◌, ◌++◌,
  length, arith, refl, sym, length-append, Bool-cases, inl, inr, subst, ◌&&◌,
}
use pointcaster.PointCloud.{
  resize, resize_storage, resize_attributes, Floats, Storage, of_positions, of_floats, of_integers,
  storage_size, Attribute, PointCloud, size, find_attribute, holds_scalar,
}
use pointcaster.PointCloud.Bounds.{AreWithin, AreWithin-append}
use pointcaster.PointCloud.Vectors.{length-resized, length-extended}
use pointcaster.PointCloud.Lookup.{
  find_attribute-other, find_attribute-absent, find_attribute-grow_all, adopt_all-induction,
}
use pointcaster.PointCloud.Append.{
  promoted, grown_storage, grown, grow_all, adopted, adopt_all, append, right_holds_same, joined,
}

-- Each attribute has an element for each point.
abbrev pub HasSize : {F : Type 0} → ℕ → List (String × Attribute F) → Type 0
HasSize n [] = Unit {0}
HasSize n ((name, a) ∷ rest) = (storage_size a.storage ≡ n) × HasSize n rest

abbrev pub HasDistinctNames : {F : Type 0} → List (String × Attribute F) → Type 0
HasDistinctNames [] = Unit {0}
HasDistinctNames ((name, a) ∷ rest) = (find_attribute name rest ≡ none) × HasDistinctNames rest

abbrev pub IsValid : {F : Type 0} → PointCloud F → Type 0
IsValid cloud =
    (length cloud.colors ≡ size cloud)
    × HasSize (size cloud) cloud.attributes
    × HasDistinctNames cloud.attributes
    × AreWithin cloud.bounds cloud.positions

module _ {F : Type 0} (floats : Floats F) (n m : ℕ) where
  storage_size-grown_storage :
      (name : String) (e : _) (same : Option (Storage F)) (s : Storage F)
      → storage_size (grown_storage floats n m name e same s) ≡ n + m
  unfolding grown_storage
  storage_size-grown_storage name e same (of_positions values) = length-extended n m _ _ _ values
  storage_size-grown_storage name e same (of_floats values) = length-extended n m _ _ _ values
  storage_size-grown_storage name e same (of_integers t values) = length-extended n m _ _ _ values

  storage_size-grown :
      (name : String) (a : Attribute F) (right : Option (Attribute F))
      → storage_size (grown floats n m name a right).storage ≡ n + m
  unfolding grown promoted
  storage_size-grown name a none = storage_size-grown_storage name a.encoding none a.storage
  storage_size-grown name a (some b) = elim (Bool-cases (right_holds_same floats n m a b)) [
    | inl e ↦ rw e (storage_size-grown_storage name a.encoding (some b.storage) a.storage)
    | inr e ↦ elim (Bool-cases (holds_scalar a.storage && holds_scalar b.storage)) [
      | inl f ↦ rw (e, f) (length-resized (n + m) _ _)
      | inr f ↦ rw (e, f) (storage_size-grown_storage name a.encoding none a.storage)
    ]
  ]

  HasSize-grow_all :
      (rights lefts : List (String × Attribute F))
      → HasSize (n + m) (grow_all floats n m rights lefts)
  unfolding grow_all
  HasSize-grow_all rights [] = tt
  HasSize-grow_all rights ((name, a) ∷ rest) =
      (storage_size-grown name a (find_attribute name rights), HasSize-grow_all rights rest)

  HasSize-append :
      (k : ℕ) (xs ys : List (String × Attribute F))
      → HasSize k xs
      → HasSize k ys
      → HasSize k (xs ++ ys)
  HasSize-append k [] ys h g = g
  HasSize-append k ((name, a) ∷ xs) ys (h, hs) g = (h, HasSize-append k xs ys hs g)

  storage_size-adopted :
      (name : String) (e : _) (s : Storage F) → storage_size (adopted floats n m name e s) ≡ n + m
  unfolding adopted
  storage_size-adopted name e (of_positions values) = length-resized (n + m) _ _
  storage_size-adopted name e (of_floats values) = length-resized (n + m) _ _
  storage_size-adopted name e (of_integers t values) = length-resized (n + m) _ _

  HasSize-adopt_all :
      (rights lefts : List (String × Attribute F))
      → HasSize (n + m) lefts
      → HasSize (n + m) (adopt_all floats n m rights lefts)
  HasSize-adopt_all = adopt_all-induction floats n m (HasSize (n + m)) λ name a lefts e h.
      HasSize-append (n + m) lefts _ h (storage_size-adopted name a.encoding a.storage, tt)

  HasDistinctNames-grow_all :
      (rights lefts : List (String × Attribute F))
      → HasDistinctNames lefts
      → HasDistinctNames (grow_all floats n m rights lefts)
  unfolding grow_all
  HasDistinctNames-grow_all rights [] h = tt
  HasDistinctNames-grow_all rights ((name, a) ∷ rest) (h, hs) = (
    rw (find_attribute-grow_all floats n m name rights rest, h) refl,
    HasDistinctNames-grow_all rights rest hs,
  )

module _ {F : Type 0} where
  HasDistinctNames-append :
      (name : String) (a : Attribute F) (xs : List (String × Attribute F))
      → find_attribute name xs ≡ none
      → HasDistinctNames xs
      → HasDistinctNames (xs ++ (name, a) ∷ [])
  unfolding find_attribute
  HasDistinctNames-append name a [] e h = (refl, tt)
  HasDistinctNames-append name a ((k, b) ∷ xs) e (h, hs) =
      let (other, absent) = find_attribute-absent k name b xs e in
      (find_attribute-other k name a xs h other, HasDistinctNames-append name a xs absent hs)

module _ {F : Type 0} (floats : Floats F) (n m : ℕ) where
  HasDistinctNames-adopt_all :
      (rights lefts : List (String × Attribute F))
      → HasDistinctNames lefts
      → HasDistinctNames (adopt_all floats n m rights lefts)
  HasDistinctNames-adopt_all =
      adopt_all-induction floats n m HasDistinctNames
        λ name a lefts e h. HasDistinctNames-append name _ lefts e h

module _ {F : Type 0} (floats : Floats F) where
  pub append-joined :
      (lhs rhs : PointCloud F) → 0 < size rhs → append floats lhs rhs ≡ joined floats lhs rhs
  unfolding append
  append-joined lhs rhs h = let e : (size rhs == 0) ≡ false = ground (arith, h) in rw e refl

  pub append-empty : (lhs rhs : PointCloud F) → size rhs ≡ 0 → append floats lhs rhs ≡ lhs
  unfolding append
  append-empty lhs rhs h = let e : (size rhs == 0) ≡ true = ground (arith, h) in rw e refl

  joined-IsValid :
      (lhs rhs : PointCloud F)
      → IsValid lhs
      → length rhs.colors ≡ size rhs
      → IsValid (joined floats lhs rhs)
  joined-IsValid lhs rhs (colors, sizes, names, within) more = (
    omega (
      arith,
      colors,
      more,
      length-append lhs.colors rhs.colors,
      length-append lhs.positions rhs.positions,
    ),
    subst (λ k. HasSize k (joined floats lhs rhs).attributes)
        (sym (length-append lhs.positions rhs.positions))
        (HasSize-adopt_all floats (size lhs) (size rhs) rhs.attributes _
          (HasSize-grow_all floats (size lhs) (size rhs) rhs.attributes lhs.attributes)),
    HasDistinctNames-adopt_all floats (size lhs) (size rhs) rhs.attributes _ (
        HasDistinctNames-grow_all floats (size lhs) (size rhs) rhs.attributes lhs.attributes names),
    AreWithin-append lhs.bounds lhs.positions rhs.positions within,
  )

  -- Appending a cloud that has a color for each point leaves a valid cloud with the points of both:
  -- it has as many colors as points, each attribute has an element for each point, even where an
  -- attribute of the right cloud had too few or too many, no name occurs twice, and the bounds hold
  -- all positions.
  pub append-IsValid :
      (lhs rhs : PointCloud F)
      → IsValid lhs
      → length rhs.colors ≡ size rhs
      → (size (append floats lhs rhs) ≡ size lhs + size rhs) × IsValid (append floats lhs rhs)
  append-IsValid lhs rhs valid more = elim (Bool-cases (ltb 0 (size rhs))) [
    | inl e ↦
        subst (λ c. (size c ≡ size lhs + size rhs) × IsValid c)
          (sym (append-joined lhs rhs (omega (tests, e))))
          (length-append lhs.positions rhs.positions, joined-IsValid lhs rhs valid more)
    | inr e ↦
        let none_added : size rhs ≡ 0 = ground (arith, e) in
        subst (λ c. (size c ≡ size lhs + size rhs) × IsValid c)
          (sym (append-empty lhs rhs none_added)) (omega (arith, none_added), valid)
  ]

  storage_size-resize_storage :
      (n : ℕ) (s : Storage F) → storage_size (resize_storage floats n s) ≡ n
  unfolding resize_storage
  storage_size-resize_storage n (of_positions values) = length-resized n _ values
  storage_size-resize_storage n (of_floats values) = length-resized n _ values
  storage_size-resize_storage n (of_integers t values) = length-resized n _ values

  HasSize-resize_attributes :
      (n : ℕ) (xs : List (String × Attribute F)) → HasSize n (resize_attributes floats n xs)
  unfolding resize_attributes
  HasSize-resize_attributes n [] = tt
  HasSize-resize_attributes n ((name, a) ∷ rest) =
      (storage_size-resize_storage n a.storage, HasSize-resize_attributes n rest)

  -- Resizing any cloud leaves `n` points, colors and elements of each attribute.
  resize-HasSize :
      (n : ℕ) (cloud : PointCloud F)
      → (size (resize floats n cloud) ≡ n)
        × (length (resize floats n cloud).colors ≡ n)
        × HasSize n (resize floats n cloud).attributes
  unfolding resize
  resize-HasSize n cloud = (
    length-resized n _ cloud.positions,
    length-resized n _ cloud.colors,
    HasSize-resize_attributes n cloud.attributes,
  )
