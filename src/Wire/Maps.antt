-- ===== src/Wire/Maps.antt =====
-- Maps from addresses, as `StringMap` of src/core/util/string_map.h: lists without an order of use.
use pointcaster.Prelude.{
  ◌≡◌, Option, none, some, List, [], ◌∷◌, if◌then◌else◌, arith, refl, Bool-cases, Option-cases, inl,
  inr, or_else, ap, subst, ◌∙◌,
}
use pointcaster.Wire.{Bytes, bytes_eq, bytes_eq_iff}

module _ {ℓ} {V : Type ℓ} where
  unfoldable pub find : List (Bytes × V) → Bytes → Option V
  find [] q = none
  find ((k, v) ∷ m) q = let rest = find m q in if bytes_eq k q then some v else rest

  unfoldable pub assign : Bytes → V → List (Bytes × V) → List (Bytes × V)
  assign k v [] = (k, v) ∷ []
  assign k v ((l, w) ∷ m) =
      let rest = assign k v m in if bytes_eq l k then (l, v) ∷ m else (l, w) ∷ rest

  unfoldable pub erase : Bytes → List (Bytes × V) → List (Bytes × V)
  erase k [] = []
  erase k ((l, w) ∷ m) = let rest = erase k m in if bytes_eq l k then rest else (l, w) ∷ rest

  pub find-assign :
      (k q : Bytes) (v : V) (m : List (Bytes × V))
      → find (assign k v m) q ≡ (if bytes_eq k q then some v else find m q)
  unfolding find assign
  find-assign k q v [] = refl
  find-assign k q v ((l, w) ∷ m) =
      ground (arith, bytes_eq_iff l k, bytes_eq_iff l q, bytes_eq_iff k q, find-assign k q v m)

  pub find-erase :
      (k q : Bytes) (m : List (Bytes × V))
      → find (erase k m) q ≡ (if bytes_eq k q then none else find m q)
  unfolding find erase
  find-erase k q [] = ground arith
  find-erase k q ((l, w) ∷ m) =
      ground (arith, bytes_eq_iff l k, bytes_eq_iff l q, bytes_eq_iff k q, find-erase k q m)

module _ {ℓ} {V : Type ℓ} where
  -- No address has two entries.
  abbrev pub AreDistinct : List (Bytes × V) → Type ℓ
  AreDistinct [] = Unit {ℓ}
  AreDistinct ((k, v) ∷ m) = (find m k ≡ none) × AreDistinct m

  pub assign-AreDistinct :
      (k : Bytes) (v : V) (m : List (Bytes × V)) → AreDistinct m → AreDistinct (assign k v m)
  unfolding assign find
  assign-AreDistinct k v [] d = (refl, tt)
  assign-AreDistinct k v ((l, w) ∷ m) (n, d) = elim (Bool-cases (bytes_eq l k)) [
    | inl e ↦ rw e (n, d)
    | inr e ↦ rw e (
      find-assign k l v m ∙ ground (arith, e, n, bytes_eq_iff l k, bytes_eq_iff k l),
      assign-AreDistinct k v m d,
    )
  ]

module _ {ℓ κ} {V : Type ℓ} {W : Type κ} where
  -- The entries for which a test has a result, with it.
  unfoldable pub selected : (Bytes → V → Option W) → List (Bytes × V) → List (Bytes × W)
  selected f [] = []
  selected f ((k, v) ∷ m) =
      let rest = selected f m in elim (f k v) [ none ↦ rest | some w ↦ (k, w) ∷ rest ]

  abbrev pub chosen : (Bytes → V → Option W) → Bytes → Option V → Option W
  chosen f k none = none
  chosen f k (some v) = f k v

  pub find-selected :
      (f : Bytes → V → Option W) (m : List (Bytes × V)) (q : Bytes)
      → AreDistinct m
      → find (selected f m) q ≡ chosen f q (find m q)
  unfolding find selected
  find-selected f [] q d = refl
  find-selected f ((k, v) ∷ m) q (n, d) = elim (Bool-cases (bytes_eq k q)) [
    | inl e ↦ elim (Option-cases (f k v)) [
      | inl g ↦ ground (arith, e, (bytes_eq_iff k q).0 e, g, n, find-selected f m q d)
      | inr (w, g) ↦ ground (arith, e, (bytes_eq_iff k q).0 e, g)
    ]
    | inr e ↦ elim (Option-cases (f k v)) [
      | inl g ↦ ground (arith, e, g, find-selected f m q d)
      | inr (w, g) ↦ ground (arith, e, g, find-selected f m q d)
    ]
  ]

  pub selected-AreDistinct :
      (f : Bytes → V → Option W) (m : List (Bytes × V)) → AreDistinct m → AreDistinct (selected f m)
  unfolding selected find
  selected-AreDistinct f [] d = tt
  selected-AreDistinct f ((k, v) ∷ m) (n, d) =
      let rest = selected-AreDistinct f m d in
      elim (Option-cases (f k v)) [
        | inl g ↦
            subst AreDistinct {x = selected f m} {y = selected f ((k, v) ∷ m)} (ground (arith, g))
              rest
        | inr (w, g) ↦
            subst AreDistinct {x = (k, w) ∷ selected f m} {y = selected f ((k, v) ∷ m)}
              (ground (arith, g)) (find-selected f m k d ∙ ap (chosen f k) n, rest)
      ]

module _ {ℓ} {V : Type ℓ} where
  unfoldable pub assign_all : List (Bytes × V) → List (Bytes × V) → List (Bytes × V)
  assign_all [] m = m
  assign_all ((k, v) ∷ es) m = assign_all es (assign k v m)

  pub find-assign_all :
      (es m : List (Bytes × V)) (q : Bytes)
      → AreDistinct es
      → find (assign_all es m) q ≡ or_else (find es q) (find m q)
  unfolding assign_all find
  find-assign_all [] m q d = refl
  find-assign_all ((k, v) ∷ es) m q (n, d) =
      find-assign_all es (assign k v m) q d
      ∙ rw (find-assign k q v m) (elim (Bool-cases (bytes_eq k q)) [
        | inl e ↦ ground (arith, e, (bytes_eq_iff k q).0 e, n)
        | inr e ↦ rw e refl
      ])
