-- ===== src/DeviceTree/Edits/Order.antt =====
-- Where `moveDeviceNode` of src/ui/models/workspace_model.cc puts the node among its siblings.
use pointcaster.Prelude.{
  ℕ, suc, ◌+◌, ◌≡◌, ◌≤◌, String, true, false, List, [], ◌∷◌, ◌++◌, arith, refl, str_eq, length,
  ◌||◌, not, eq_iff, Bool-cases, inl, inr,
}
use pointcaster.DeviceTree.{Config, is_empty, contains}
use pointcaster.DeviceTree.Edits.{Sibling, insertion_index, ordered_from, siblings, new_order}

abbrev pub ids_of : List Sibling → List String
ids_of [] = []
ids_of (s ∷ ss) = s.id ∷ ids_of ss

ordered_from_end :
    (i k : ℕ) (id : String) (ss : List Sibling)
    → i + length ss ≡ k
    → ordered_from i k id ss ≡ ids_of ss ++ id ∷ []
unfolding ordered_from
ordered_from_end i k id [] e = ground arith
ordered_from_end i k id (s ∷ ss) e = ground (arith, ordered_from_end (suc i) k id ss)

ordered_from_past :
    (i k : ℕ) (id : String) (ss : List Sibling) → suc k ≤ i → ordered_from i k id ss ≡ ids_of ss
unfolding ordered_from
ordered_from_past i k id [] e = ground arith
ordered_from_past i k id (s ∷ ss) e = ground (arith, ordered_from_past (suc i) k id ss)

insertion_index_end :
    (before : String) (ss : List Sibling)
    → is_empty before ≡ true
    → insertion_index before ss ≡ length ss
unfolding insertion_index
insertion_index_end before [] e = refl
insertion_index_end before (s ∷ ss) e = ground arith

insertion_index_missing :
    (before : String) (ss : List Sibling)
    → contains (ids_of ss) before ≡ false
    → insertion_index before ss ≡ length ss
unfolding insertion_index contains
insertion_index_missing before [] e = refl
insertion_index_missing before (s ∷ ss) e = ground (arith, insertion_index_missing before ss)

ordered_found :
    (i : ℕ) (id before : String) (ss : List Sibling)
    → is_empty before ≡ false
    → contains (ids_of ss) before ≡ true
    → (xs : List String) × (ys : List String) × (ordered_from i
          (i + insertion_index before ss)
          id
          ss
        ≡ xs ++ id ∷ before ∷ ys)
      × (ids_of ss ≡ xs ++ before ∷ ys)
unfolding ordered_from insertion_index contains
ordered_found i id before [] n h = cc
ordered_found i id before (s ∷ ss) n h = elim (Bool-cases (str_eq s.id before)) [
  | inl e ↦ (
    [],
    ids_of ss,
    ground (arith, n, e, eq_iff s.id before, ordered_from_past (suc i) i id ss),
    ground (arith, e, eq_iff s.id before),
  )
  | inr e ↦
      let (xs, ys, p, q) = ordered_found (suc i) id before ss n (ground (arith, e, h)) in
      (s.id ∷ xs, ys, ground (arith, n, e, p), ground (arith, q))
]

module _ {T : Type 0} (c : Config T) (id parent before : String) where
  -- Asked to stand before one of its new siblings, the node stands right before it, and the others keep their
  -- order.
  pub new_order_before :
      is_empty before ≡ false
      → contains (ids_of (siblings c id parent)) before ≡ true
      → (xs : List String) × (ys : List String) × (new_order c id parent before
          ≡ xs ++ id ∷ before ∷ ys)
        × (ids_of (siblings c id parent) ≡ xs ++ before ∷ ys)
  unfolding new_order
  new_order_before n h =
      let (xs, ys, p, q) = ordered_found 0 id before (siblings c id parent) n h in
      (xs, ys, ground (arith, p), q)

  -- Otherwise it stands after all of them.
  pub new_order_last :
      is_empty before || not (contains (ids_of (siblings c id parent)) before) ≡ true
      → new_order c id parent before ≡ ids_of (siblings c id parent) ++ id ∷ []
  unfolding new_order
  new_order_last h =
      let ss = siblings c id parent in
      ground (
        arith,
        ordered_from_end 0 (insertion_index before ss) id ss,
        insertion_index_end before ss,
        insertion_index_missing before ss,
      )
