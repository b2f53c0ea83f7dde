-- ===== src/PointCloud/Points.antt =====
-- What `operator+=` of src/core/point_cloud.cc does to the positions and the colors.
use mathlib.Core.List.{append-nil}
use pointcaster.Prelude.{
  ◌≡◌, ◌==◌, List, [], ◌∷◌, ◌++◌, length, arith, refl, sym, Bool-cases, inl, inr,
}
use pointcaster.PointCloud.{Floats, PointCloud, size}
use pointcaster.PointCloud.Append.{append}

no_elements : {A : Type 0} (xs : List A) → length xs ≡ 0 → xs ≡ []
no_elements [] e = refl
no_elements (x ∷ xs) e = absurd (omega arith)

module _ {F : Type 0} (floats : Floats F) where
  -- A reading of a cloud's points that appending joins in order.
  pub record PointReading {A : Type 0} (read : PointCloud F → List A) : Type 0 where
    pub joins :
        (lhs rhs : PointCloud F)
        → length rhs.colors ≡ size rhs
        → read (append floats lhs rhs) ≡ read lhs ++ read rhs
    pub empties :
        (cloud : PointCloud F) → length cloud.colors ≡ size cloud → size cloud ≡ 0 → read cloud ≡ []

  positions-joins :
      (lhs rhs : PointCloud F) → (append floats lhs rhs).positions ≡ lhs.positions ++ rhs.positions
  unfolding append
  positions-joins lhs rhs = elim (Bool-cases (size rhs == 0)) [
    | inl e ↦ rw (e, no_elements rhs.positions (ground (arith, e))) (sym (append-nil lhs.positions))
    | inr e ↦ rw e refl
  ]

  colors-joins :
      (lhs rhs : PointCloud F)
      → length rhs.colors ≡ size rhs
      → (append floats lhs rhs).colors ≡ lhs.colors ++ rhs.colors
  unfolding append
  colors-joins lhs rhs h = elim (Bool-cases (size rhs == 0)) [
    | inl e ↦ rw (e, no_elements rhs.colors (ground (arith, e, h))) (sym (append-nil lhs.colors))
    | inr e ↦ rw e refl
  ]

  pub read_positions : PointReading (λ cloud. cloud.positions)
  read_positions = record {
    joins = λ lhs rhs h. positions-joins lhs rhs;
    empties = λ cloud h e. no_elements cloud.positions e;
  }

  pub read_colors : PointReading (λ cloud. cloud.colors)
  read_colors = record {
    joins = colors-joins;
    empties = λ cloud h e. no_elements cloud.colors (omega (arith, h, e));
  }
