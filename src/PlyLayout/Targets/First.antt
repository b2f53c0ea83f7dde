-- ===== src/PlyLayout/Targets/First.antt =====
-- Which properties `read_point_cloud` of src/plugins/devices/ply/ply_layout.cc reads, and into what.
use pointcaster.Prelude.{
  ℕ, ◌≡◌, ◌≢◌, Bool, true, false, Option, none, some, List, [], ◌∷◌, ◌++◌, ◌||◌, if◌then◌else◌,
  arith, refl, ◌∙◌, Bool-cases, inl, inr, or_else, or_else-none, or_else_assoc, sym, ap, subst,
}
use pointcaster.PlyLayout.{Element, property_of}
use pointcaster.PlyLayout.Targets.{
  AttributeTarget, no_target, point_scale, AttributeConfiguration, same_target, find_configuration,
  is_claimed, claim_target, targeted,
}

same_target_eq : (s t : AttributeTarget) → same_target s t ≡ true → s ≡ t
same_target_eq no_target no_target h = refl
same_target_eq no_target point_scale h = cc
same_target_eq point_scale no_target h = cc
same_target_eq point_scale point_scale h = refl

same_target_refl : (t : AttributeTarget) → same_target t t ≡ true
same_target_refl no_target = refl
same_target_refl point_scale = refl

same_target_sym : (s t : AttributeTarget) → same_target s t ≡ same_target t s
same_target_sym no_target no_target = refl
same_target_sym no_target point_scale = refl
same_target_sym point_scale no_target = refl
same_target_sym point_scale point_scale = refl

not_target : (t : AttributeTarget) → t ≢ no_target → same_target t no_target ≡ false
not_target no_target n = absurd (n refl)
not_target point_scale n = refl

module _ {F : Type 0} where
  -- The property that is read into a target.
  unfoldable pub claim_of :
      AttributeTarget → List (ℕ × AttributeConfiguration F) → Option (ℕ × AttributeConfiguration F)
  claim_of t [] = none
  claim_of t ((index, c) ∷ claimed) =
      let rest = claim_of t claimed in if same_target c.target t then some (index, c) else rest

  -- Whether a property's configuration names a target.
  abbrev names_target :
      AttributeTarget
      → ℕ
      → Option (AttributeConfiguration F)
      → Option (ℕ × AttributeConfiguration F)
  names_target t index none = none
  names_target t index (some c) = if same_target c.target t then some (index, c) else none

  -- The first property whose configuration names a target.
  unfoldable pub first_for :
      Element
      → List (AttributeConfiguration F)
      → AttributeTarget
      → List ℕ
      → Option (ℕ × AttributeConfiguration F)
  first_for e cs t [] = none
  first_for e cs t (index ∷ rest) =
      let others = first_for e cs t rest in
      or_else (names_target t index (find_configuration (property_of e index).name cs)) others

  claim_of-append :
      (t : AttributeTarget) (index : ℕ) (c : AttributeConfiguration F)
      (xs : List (ℕ × AttributeConfiguration F))
      → claim_of t (xs ++ (index, c) ∷ []) ≡ or_else (claim_of t xs) (names_target t index (some c))
  unfolding claim_of
  claim_of-append t index c [] = refl
  claim_of-append t index c ((i, d) ∷ xs) = ground (arith, claim_of-append t index c xs)

  claim_of-is_claimed :
      (t : AttributeTarget) (xs : List (ℕ × AttributeConfiguration F))
      → is_claimed t xs ≡ true
      → (x : ℕ × AttributeConfiguration F) × (claim_of t xs ≡ some x)
  unfolding claim_of is_claimed
  claim_of-is_claimed t [] h = cc
  claim_of-is_claimed t ((i, d) ∷ xs) h = elim (Bool-cases (same_target d.target t)) [
    | inl e ↦ ((i, d), ground (arith, e))
    | inr e ↦
        let (x, found) = claim_of-is_claimed t xs (ground (arith, e, h)) in
        (x, ground (arith, e, found))
  ]

  claim_of-claim_target :
      (index : ℕ) (found : Option (AttributeConfiguration F))
      (xs : List (ℕ × AttributeConfiguration F)) (t : AttributeTarget)
      → t ≢ no_target
      → claim_of t (claim_target index found xs)
        ≡ or_else (claim_of t xs) (names_target t index found)
  unfolding claim_target
  claim_of-claim_target index none xs t n = sym (or_else-none (claim_of t xs))
  claim_of-claim_target index (some c) xs t n =
      elim (Bool-cases (same_target c.target no_target || is_claimed c.target xs)) [
        | inr add ↦ rw add (claim_of-append t index c xs)
        | inl skip ↦ elim (Bool-cases (same_target c.target t)) [
          | inl m ↦
              let taken =
                subst (λ s. (same_target s no_target || is_claimed s xs) ≡ true)
                  (same_target_eq c.target t m) skip in
              let (x, e) = claim_of-is_claimed t xs (ground (arith, taken, not_target t n)) in
              rw (skip, e) refl
          | inr m ↦ rw (skip, m) (sym (or_else-none (claim_of t xs)))
        ]
      ]

  claim_of-targeted :
      (e : Element) (cs : List (AttributeConfiguration F)) (indices : List ℕ)
      (xs : List (ℕ × AttributeConfiguration F)) (t : AttributeTarget)
      → t ≢ no_target
      → claim_of t (targeted e cs indices xs) ≡ or_else (claim_of t xs) (first_for e cs t indices)
  unfolding targeted first_for
  claim_of-targeted e cs [] xs t n = sym (or_else-none (claim_of t xs))
  claim_of-targeted e cs (index ∷ rest) xs t n =
      claim_of-targeted e cs rest
        (claim_target index (find_configuration (property_of e index).name cs) xs) t n
      ∙ ap (λ o. or_else o (first_for e cs t rest))
          (claim_of-claim_target index (find_configuration (property_of e index).name cs) xs t n)
      ∙ or_else_assoc (claim_of t xs) _ (first_for e cs t rest)

  -- No two have a target in common, and none has no target.
  abbrev pub AreClaims : List (ℕ × AttributeConfiguration F) → Type 0
  AreClaims [] = Unit {0}
  AreClaims ((index, c) ∷ rest) =
      (same_target c.target no_target ≡ false) × (is_claimed c.target rest ≡ false) × AreClaims rest

  is_claimed-append :
      (t : AttributeTarget) (index : ℕ) (c : AttributeConfiguration F)
      (xs : List (ℕ × AttributeConfiguration F))
      → is_claimed t (xs ++ (index, c) ∷ []) ≡ (is_claimed t xs || same_target c.target t)
  unfolding is_claimed
  is_claimed-append t index c [] = ground arith
  is_claimed-append t index c ((i, d) ∷ xs) = ground (arith, is_claimed-append t index c xs)

  AreClaims-append :
      (index : ℕ) (c : AttributeConfiguration F) (xs : List (ℕ × AttributeConfiguration F))
      → AreClaims xs
      → same_target c.target no_target ≡ false
      → is_claimed c.target xs ≡ false
      → AreClaims (xs ++ (index, c) ∷ [])
  unfolding is_claimed
  AreClaims-append index c [] v n f = (n, refl, tt)
  AreClaims-append index c ((i, d) ∷ xs) (m, g, v) n f = (
    m,
    is_claimed-append d.target index c xs ∙ ground (arith, g, f, same_target_sym c.target d.target),
    AreClaims-append index c xs v n (ground (arith, f)),
  )

  AreClaims-claim_target :
      (index : ℕ) (found : Option (AttributeConfiguration F))
      (xs : List (ℕ × AttributeConfiguration F))
      → AreClaims xs
      → AreClaims (claim_target index found xs)
  unfolding claim_target
  AreClaims-claim_target index none xs v = v
  AreClaims-claim_target index (some c) xs v =
      elim (Bool-cases (same_target c.target no_target || is_claimed c.target xs)) [
        | inl skip ↦
            subst (λ (b : Bool). AreClaims (if b then xs else xs ++ (index, c) ∷ [])) (sym skip) v
        | inr add ↦
            subst (λ (b : Bool). AreClaims (if b then xs else xs ++ (index, c) ∷ [])) (sym add)
              (AreClaims-append index c xs v (ground (arith, add)) (ground (arith, add)))
      ]

  AreClaims-targeted :
      (e : Element) (cs : List (AttributeConfiguration F)) (indices : List ℕ)
      (xs : List (ℕ × AttributeConfiguration F))
      → AreClaims xs
      → AreClaims (targeted e cs indices xs)
  unfolding targeted
  AreClaims-targeted e cs [] xs v = v
  AreClaims-targeted e cs (index ∷ rest) xs v =
      AreClaims-targeted e cs rest
        (claim_target index (find_configuration (property_of e index).name cs) xs)
        (AreClaims-claim_target index (find_configuration (property_of e index).name cs) xs v)

  -- No two of the properties that are read share a target. What is read into a target is the first
  -- property of the layout whose configuration names that target, and nothing where there is none.
  pub targeted-first_for :
      (e : Element) (cs : List (AttributeConfiguration F)) (indices : List ℕ)
      → AreClaims (targeted e cs indices [])
        × ((t : AttributeTarget)
            → t ≢ no_target
            → claim_of t (targeted e cs indices []) ≡ first_for e cs t indices)
  unfolding claim_of
  targeted-first_for e cs indices =
      (AreClaims-targeted e cs indices [] tt, λ t n. claim_of-targeted e cs indices [] t n)
