-- ===== src/PointCloud/Lookup.antt =====
-- The attributes that the two loops of `operator+=` of src/core/point_cloud.cc leave under a name.
use mathlib.Core.Option
use pointcaster.Prelude.{
  ℕ, ◌≡◌, String, false, none, some, List, [], ◌∷◌, ◌++◌, str_eq, if◌then◌else◌, arith, refl, ap,
  sym, ◌∙◌, Bool-cases, Option-cases, inl, inr, subst, eq_iff, or_else, or_else-none, or_else_assoc,
  str_eq_comm,
}
use pointcaster.PointCloud.{Floats, Attribute, find_attribute}
use pointcaster.PointCloud.Append.{grown, grow_all, adopted, adopt_all, adopt_one}

module _ {F : Type 0} where
  pub find_attribute-append :
      (name : String) (xs ys : List (String × Attribute F))
      → find_attribute name (xs ++ ys) ≡ or_else (find_attribute name xs) (find_attribute name ys)
  unfolding find_attribute
  find_attribute-append name [] ys = refl
  find_attribute-append name ((k, a) ∷ xs) ys = elim (Bool-cases (str_eq k name)) [
    | inl e ↦ rw e refl
    | inr e ↦ rw e (find_attribute-append name xs ys)
  ]

  -- The name of an attribute that stands before an appended one is another one.
  pub find_attribute-other :
      (k name : String) (a : Attribute F) (xs : List (String × Attribute F))
      → find_attribute k xs ≡ none
      → str_eq name k ≡ false
      → find_attribute k (xs ++ (name, a) ∷ []) ≡ none
  unfolding find_attribute
  find_attribute-other k name a xs e f = rw (find_attribute-append k xs ((name, a) ∷ []), e, f) refl

  pub find_attribute-absent :
      (k name : String) (b : Attribute F) (xs : List (String × Attribute F))
      → find_attribute name ((k, b) ∷ xs) ≡ none
      → (str_eq name k ≡ false) × (find_attribute name xs ≡ none)
  unfolding find_attribute
  find_attribute-absent k name b xs e = ground (arith, e, str_eq_comm name k)

module _ {F : Type 0} (floats : Floats F) (n m : ℕ) where
  abbrev pub kept_right : String → Attribute F → String × Attribute F
  kept_right name a = (name, record a { storage = adopted floats n m name a.encoding a.storage })

  -- What each adoption keeps, all of them keep.
  pub adopt_all-induction :
      (P : List (String × Attribute F) → Type 0)
      → ((name : String) (a : Attribute F) (lefts : List (String × Attribute F))
          → find_attribute name lefts ≡ none
          → P lefts
          → P (lefts ++ kept_right name a ∷ []))
      → (rights lefts : List (String × Attribute F)) → P lefts
      → P (adopt_all floats n m rights lefts)
  unfolding adopt_all adopt_one
  adopt_all-induction P keeps [] lefts h = h
  adopt_all-induction P keeps ((name, a) ∷ rest) lefts h =
      elim (Option-cases (find_attribute name lefts)) [
        | inl e ↦ adopt_all-induction P keeps rest _ (rw (adopt_one, e) (keeps name a lefts e h))
        | inr (b, e) ↦ adopt_all-induction P keeps rest _ (rw (adopt_one, e) h)
      ]

  pub find_attribute-grow_all :
      (name : String) (rights lefts : List (String × Attribute F))
      → find_attribute name (grow_all floats n m rights lefts)
        ≡ Option.map
            (λ a. grown floats n m name a (find_attribute name rights))
            (find_attribute name lefts)
  unfolding grow_all find_attribute
  find_attribute-grow_all name rights [] = refl
  find_attribute-grow_all name rights ((k, a) ∷ rest) = elim (Bool-cases (str_eq k name)) [
    | inl e ↦
        let same = (eq_iff k name).0 e in
        rw e (ap (λ w. some (grown floats n m w a (find_attribute w rights))) same)
    | inr e ↦ rw e (find_attribute-grow_all name rights rest)
  ]

module _ {F : Type 0} (floats : Floats F) where
  abbrev pub adopted_attribute : ℕ → ℕ → String → Attribute F → Attribute F
  adopted_attribute n m name a = record a { storage = adopted floats n m name a.encoding a.storage }

  pub find_attribute-adopt_one :
      (n m : ℕ) (name k : String) (a : Attribute F) (lefts : List (String × Attribute F))
      → find_attribute name (adopt_one floats n m k a lefts)
        ≡ or_else
            (find_attribute name lefts)
            (if str_eq k name then some (adopted_attribute n m k a) else none)
  unfolding find_attribute adopt_one
  find_attribute-adopt_one n m name k a lefts = elim (Option-cases (find_attribute k lefts)) [
    | inl e ↦ rw (adopt_one, e) (find_attribute-append name lefts _)
    | inr (b, e) ↦ elim (Bool-cases (str_eq k name)) [
      | inl f ↦
          let found : find_attribute name lefts ≡ some b =
            subst (λ w. find_attribute w lefts ≡ some b) ((eq_iff k name).0 f) e in
          rw (adopt_one, e, found) refl
      | inr f ↦ rw (adopt_one, e, f) (sym (or_else-none (find_attribute name lefts)))
    ]
  ]

  pub find_attribute-adopt_all :
      (n m : ℕ) (name : String) (rights lefts : List (String × Attribute F))
      → find_attribute name (adopt_all floats n m rights lefts)
        ≡ or_else
            (find_attribute name lefts)
            (Option.map (adopted_attribute n m name) (find_attribute name rights))
  unfolding adopt_all find_attribute
  find_attribute-adopt_all n m name [] lefts = sym (or_else-none _)
  find_attribute-adopt_all n m name ((k, a) ∷ rest) lefts =
      find_attribute-adopt_all n m name rest (adopt_one floats n m k a lefts)
      ∙ elim (Bool-cases (str_eq k name)) [
        | inl f ↦
            let same = (eq_iff k name).0 f in
            rw (find_attribute-adopt_one n m name k a lefts, f)
              (or_else_assoc (find_attribute name lefts) (some (adopted_attribute n m k a)) _
                ∙ ap (λ w. or_else (find_attribute name lefts) (some (adopted_attribute n m w a)))
                    same)
        | inr f ↦
            rw (find_attribute-adopt_one n m name k a lefts, f)
              (or_else_assoc (find_attribute name lefts) none _)
      ]
