-- ===== src/Workspace/Index.antt =====
-- The index of instances by id that `sync_operators` of src/plugins/operators/operator_host.cc and
-- `sync_devices` of src/workspace/workspace.cc build, use up and read the instances by.
use pointcaster.Prelude.{
  ℕ, zero, suc, ◌+◌, ◌≡◌, ◌≢◌, String, Bool, true, false, Option, none, some, List, [], ◌∷◌, ◌++◌,
  get_elem?-set_ne, set, str_eq, if◌then◌else◌, arith, refl, ap, sym, ◌∙◌, subst, inl, inr, ◌⊎◌,
  Bool-cases, Option-cases, eq_iff, or_else, or_else-none, or_else_assoc, str_eq_comm,
}
use pointcaster.Workspace.{Instance, is_empty, index_of, try_emplace, erase_index, slot, index_from}

or_else-if :
    {A : Type 0} (b : Bool) (a : A) (o : Option A)
    → or_else (if b then some a else none) o ≡ (if b then some a else o)
or_else-if true a o = refl
or_else-if false a o = refl

index_of-append :
    (id : String) (m n : List (String × ℕ))
    → index_of id (m ++ n) ≡ or_else (index_of id m) (index_of id n)
unfolding index_of
index_of-append id [] n = refl
index_of-append id ((k, i) ∷ m) n = elim (Bool-cases (str_eq k id)) [
  | inl e ↦ rw e refl
  | inr e ↦ rw e (index_of-append id m n)
]

index_of-try_emplace :
    (id k : String) (i : ℕ) (m : List (String × ℕ))
    → index_of id (try_emplace k i m)
      ≡ or_else (index_of id m) (if str_eq k id then some i else none)
unfolding index_of try_emplace
index_of-try_emplace id k i m = elim (Option-cases (index_of k m)) [
  | inl e ↦ rw (try_emplace, e) (index_of-append id m ((k, i) ∷ []))
  | inr (j, e) ↦ elim (Bool-cases (str_eq k id)) [
    | inl f ↦
        let found : index_of id m ≡ some j =
          subst (λ w. index_of w m ≡ some j) ((eq_iff k id).0 f) e in
        rw (try_emplace, e, found) refl
    | inr f ↦ rw (try_emplace, e, f) (sym (or_else-none (index_of id m)))
  ]
]

pub index_of-erase_index :
    (id k : String) (m : List (String × ℕ))
    → index_of id (erase_index k m) ≡ (if str_eq k id then none else index_of id m)
unfolding index_of erase_index
index_of-erase_index id k [] = ground arith
index_of-erase_index id k ((j, i) ∷ m) = elim (Bool-cases (str_eq j k)) [
  | inl e ↦ elim (Bool-cases (str_eq k id)) [
    | inl f ↦ rw (e, f) (index_of-erase_index id k m ∙ rw f refl)
    | inr f ↦
        let other : str_eq j id ≡ false =
          subst (λ w. str_eq w id ≡ false) (sym ((eq_iff j k).0 e)) f in
        rw (e, f, other) (index_of-erase_index id k m ∙ rw f refl)
  ]
  | inr e ↦ elim (Bool-cases (str_eq k id)) [
    | inl f ↦
        let other : str_eq j id ≡ false = subst (λ w. str_eq j w ≡ false) ((eq_iff k id).0 f) e in
        rw (e, f, other) (index_of-erase_index id k m ∙ rw f refl)
    | inr f ↦ rw (e, f, index_of-erase_index id k m, f) refl
  ]
]

module _ {V : Type 0} where
  pub slot-set_self :
      (slots : List (Option (Instance V))) (i : ℕ) → slot (set slots i none) i ≡ none
  slot-set_self [] i = refl
  slot-set_self (p ∷ slots) zero = refl
  slot-set_self (p ∷ slots) (suc i) = slot-set_self slots i

  pub slot-set_ne :
      (slots : List (Option (Instance V))) (i j : ℕ)
      → i ≢ j
      → slot (set slots i none) j ≡ slot slots j
  slot-set_ne slots i j h =
      ap (λ o. elim o [ none ↦ none | some pointer ↦ pointer ]) (get_elem?-set_ne slots none h)

  -- The first instance with an id.
  unfoldable pub first_with : String → List (Option (Instance V)) → Option (Instance V)
  first_with id [] = none
  first_with id (none ∷ slots) = first_with id slots
  first_with id (some o ∷ slots) =
      let rest = first_with id slots in if str_eq o.config.id id then some o else rest

  first_index : ℕ → String → List (Option (Instance V)) → Option ℕ
  first_index i id [] = none
  first_index i id (none ∷ slots) = first_index (suc i) id slots
  first_index i id (some o ∷ slots) =
      let rest = first_index (suc i) id slots in if str_eq o.config.id id then some i else rest

  index_of-index_from :
      (id : String) (i : ℕ) (slots : List (Option (Instance V))) (m : List (String × ℕ))
      → is_empty id ≡ false
      → index_of id (index_from i slots m) ≡ or_else (index_of id m) (first_index i id slots)
  unfolding index_from first_index
  index_of-index_from id i [] m h = sym (or_else-none (index_of id m))
  index_of-index_from id i (none ∷ slots) m h = index_of-index_from id (suc i) slots m h
  index_of-index_from id i (some o ∷ slots) m h = elim (Bool-cases (is_empty o.config.id)) [
    | inl e ↦
        let same = (eq_iff o.config.id "").0 e in
        let other : str_eq o.config.id id ≡ false =
          subst (λ w. str_eq w id ≡ false) (sym same) (str_eq_comm "" id ∙ h) in
        rw (e, other) (index_of-index_from id (suc i) slots m h)
    | inr e ↦
        let rest = first_index (suc i) id slots in
        let here = str_eq o.config.id id in
        rw e (
          index_of-index_from id (suc i) slots (try_emplace o.config.id i m) h
          ∙ ap (λ l. or_else l rest) (index_of-try_emplace id o.config.id i m)
          ∙ or_else_assoc (index_of id m) (if here then some i else none) rest
          ∙ ap (or_else (index_of id m)) (or_else-if here i rest))
  ]

  -- The instance that an id finds in the index, if any.
  abbrev pub Finds :
      List (String × ℕ) → List (Option (Instance V)) → String → Option (Instance V) → Type 0
  Finds m slots id none = index_of id m ≡ none
  Finds m slots id (some o) =
      (o.config.id ≡ id) × (i : ℕ) × (index_of id m ≡ some i) × (slot slots i ≡ some o)

  first_index-first_with :
      (id : String) (i : ℕ) (slots : List (Option (Instance V)))
      → ((first_index i id slots ≡ none) × (first_with id slots ≡ none))
        ⊎ ((o : Instance V) × (k : ℕ) × (first_with id slots ≡ some o)
            × (o.config.id ≡ id)
            × (first_index i id slots ≡ some (i + k))
            × (slot slots k ≡ some o))
  unfolding first_index first_with
  first_index-first_with id i [] = inl (refl, refl)
  first_index-first_with id i (none ∷ slots) = elim (first_index-first_with id (suc i) slots) [
    | inl h ↦ inl h
    | inr (o, k, p, q, r, t) ↦ inr (o, suc k, p, q, r ∙ ap some (omega arith), t)
  ]
  first_index-first_with id i (some o ∷ slots) = elim (Bool-cases (str_eq o.config.id id)) [
    | inl e ↦ inr (o, 0, rw e refl, (eq_iff o.config.id id).0 e, rw e (ap some (omega arith)), refl)
    | inr e ↦ elim (first_index-first_with id (suc i) slots) [
      | inl (p, q) ↦ inl (rw e p, rw e q)
      | inr (o', k, p, q, r, t) ↦ inr (o', suc k, rw e p, q, rw e (r ∙ ap some (omega arith)), t)
    ]
  ]

  pub index_from-Finds :
      (id : String) (slots : List (Option (Instance V)))
      → is_empty id ≡ false
      → Finds (index_from 0 slots []) slots id (first_with id slots)
  unfolding index_of
  index_from-Finds id slots h =
      let found = index_of-index_from id 0 slots [] h in
      elim (first_index-first_with id 0 slots) [
        | inl (p, q) ↦ subst (Finds (index_from 0 slots []) slots id) (sym q) (found ∙ p)
        | inr (o, k, p, q, r, t) ↦
            subst (Finds (index_from 0 slots []) slots id) (sym p)
              (q, k, found ∙ r ∙ ap some (omega arith), t)
      ]
