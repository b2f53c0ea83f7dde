-- ===== src/Labels.antt =====
-- `next_available_label` of src/core/util/string_utils.h. `std::format("{}_{}", ...)` is a
-- parameter, which gives different labels for different numbers. The search runs on fuel.
use pointcaster.Prelude.{
  ℕ, zero, suc, ◌+◌, ◌<◌, ◌≤◌, ◌≡◌, String, true, false, Option, none, some, List, [], ◌∷◌, arith,
  refl, inl, inr, str_eq, eq_iff, if◌then◌else◌, Bool-cases, length, ◌∙◌, sym, ap, subst,
}
use pointcaster.DeviceTree.{contains}

module _ (format : String → ℕ → String) where
  unfoldable pub label_from : ℕ → List String → String → ℕ → Option String
  label_from zero taken prefix index = none
  label_from (suc f) taken prefix index =
      let rest = label_from f taken prefix (suc index) in
      let candidate = format prefix index in
      if contains taken candidate then rest else some candidate

  unfoldable pub next_available_label : ℕ → String → List String → Option String
  next_available_label f prefix existing_labels = label_from f existing_labels prefix 1

  -- The labels other than one.
  unfoldable others : String → List String → List String
  others l [] = []
  others l (x ∷ xs) = let rest = others l xs in if str_eq x l then rest else x ∷ rest

  contains-others :
      (l q : String) (xs : List String)
      → str_eq l q ≡ false
      → contains (others l xs) q ≡ contains xs q
  unfolding contains others
  contains-others l q [] h = refl
  contains-others l q (x ∷ xs) h =
      ground (arith, h, eq_iff x l, eq_iff l q, eq_iff x q, contains-others l q xs h)

  length-others_le : (l : String) (xs : List String) → length (others l xs) ≤ length xs
  unfolding others
  length-others_le l [] = omega arith
  length-others_le l (x ∷ xs) = ground (arith, length-others_le l xs)

  length-others :
      (l : String) (xs : List String) → contains xs l ≡ true → length (others l xs) < length xs
  unfolding contains others
  length-others l [] h = cc
  length-others l (x ∷ xs) h = ground (arith, h, length-others_le l xs, length-others l xs)

  -- The search sees only the labels of the numbers from `index` on.
  label_from-same :
      (f : ℕ) (taken taken' : List String) (prefix : String) (index : ℕ)
      → ((n : ℕ) → index ≤ n → contains taken (format prefix n) ≡ contains taken' (format prefix n))
      → label_from f taken prefix index ≡ label_from f taken' prefix index
  unfolding label_from
  label_from-same zero taken taken' prefix index same = refl
  label_from-same (suc f) taken taken' prefix index same = ground (
    arith,
    same index (omega arith),
    label_from-same f taken taken' prefix (suc index) (λ n h. same n (omega arith)),
  )

  -- The labels of `k` numbers, from `index` on, are taken.
  abbrev pub AreTaken : List String → String → ℕ → ℕ → Type 0
  AreTaken taken prefix index zero = Unit {0}
  AreTaken taken prefix index (suc k) =
      (contains taken (format prefix index) ≡ true) × AreTaken taken prefix (suc index) k

  -- The label of the lowest number, from `index` on, that is not taken.
  abbrev pub IsLowest : List String → String → ℕ → String → Type 0
  IsLowest taken prefix index label =
      (k : ℕ) × (label ≡ format prefix (index + k))
      × (contains taken label ≡ false)
      × AreTaken taken prefix index k

  module _ (prefix : String)
      (injective : (m n : ℕ) → format prefix m ≡ format prefix n → m ≡ n) where
    apart : (m n : ℕ) → m < n → str_eq (format prefix m) (format prefix n) ≡ false
    apart m n h = elim (Bool-cases (str_eq (format prefix m) (format prefix n))) [
      | inl e ↦
          absurd (omega (arith, injective m n ((eq_iff (format prefix m) (format prefix n)).0 e)))
      | inr e ↦ e
    ]

    label_from-returns :
        (f : ℕ) (taken : List String) (index : ℕ)
        → length taken < f
        → (l : String) × (label_from f taken prefix index ≡ some l)
    unfolding label_from
    label_from-returns zero taken index h = absurd (omega arith)
    label_from-returns (suc f) taken index h =
        let c = format prefix index in
        elim (Bool-cases (contains taken c)) [
          | inl e ↦
              let (l, r) =
                label_from-returns f (others c taken) (suc index)
                  (omega (arith, length-others c taken e)) in
              let same = label_from-same f taken (others c taken) prefix (suc index) (λ n k.
                sym (contains-others c (format prefix n) taken (apart index n (omega arith)))) in
              (l, rw e (same ∙ r))
          | inr e ↦ (c, rw e refl)
        ]

    label_from-IsLowest :
        (f : ℕ) (taken : List String) (index : ℕ) (l : String)
        → label_from f taken prefix index ≡ some l
        → IsLowest taken prefix index l
    unfolding label_from
    label_from-IsLowest zero taken index l h = cc
    label_from-IsLowest (suc f) taken index l h =
        let c = format prefix index in
        elim (Bool-cases (contains taken c)) [
          | inl e ↦
              let (k, a, u, lower) =
                label_from-IsLowest f taken (suc index) l (ground (arith, e, h)) in
              let sum : suc index + k ≡ index + suc k = omega arith in
              (suc k, a ∙ ap (format prefix) sum, u, (e, lower))
          | inr e ↦
              let sum : index ≡ index + 0 = omega arith in
              let same : c ≡ l = ground (arith, e, h) in
              (
                0,
                sym same ∙ ap (format prefix) sum,
                subst (λ z. contains taken z ≡ false) same e,
                tt,
              )
        ]

    -- When different numbers give different labels, as many tries as there are labels, and one more,
    -- find the lowest numbered label, from 1, that is not taken.
    pub next_available_label-IsLowest :
        (existing_labels : List String)
        → (label : String) × (next_available_label
              (length existing_labels + 1)
              prefix
              existing_labels
            ≡ some label)
          × IsLowest existing_labels prefix 1 label
    unfolding next_available_label
    next_available_label-IsLowest existing_labels =
        let (l, e) =
          label_from-returns (length existing_labels + 1) existing_labels 1 (omega arith) in
        (l, e, label_from-IsLowest (length existing_labels + 1) existing_labels 1 l e)
