-- ===== src/DeviceTree/Lookup.antt =====
-- The lookups of src/plugins/devices/device_tree.cc without their indices.
use mathlib.Core.Option
use pointcaster.Prelude.{
  ℕ, suc, ◌+◌, ◌≡◌, ◌⊎◌, String, Option, none, some, List, [], ◌∷◌, arith, refl, inl, inr, str_eq,
  if◌then◌else◌, get_elem?, Bool-cases,
}
use pointcaster.DeviceTree.{
  Config, Group, Device, index_from, group_index_by_id, group_by_id, find_device, node_parent,
}

module _ {T : Type 0} where
  unfoldable pub find_group : List (Group T) → String → Option (Group T)
  find_group [] id = none
  find_group (g ∷ gs) id = let rest = find_group gs id in if str_eq g.id id then some g else rest

  -- What an index found stands for: `i` is the index of the first group of the list.
  IndexFinds : ℕ → List (Group T) → String → Type 0
  IndexFinds i gs id =
      ((index_from i gs id ≡ none) × (find_group gs id ≡ none))
      ⊎ ((k : ℕ) × (g : Group T) × (index_from i gs id ≡ some (i + k))
          × (get_elem? gs k ≡ some g)
          × (find_group gs id ≡ some g))

  index_from-finds : (i : ℕ) (gs : List (Group T)) (id : String) → IndexFinds i gs id
  unfolding IndexFinds index_from find_group
  index_from-finds i [] id = inl (refl, refl)
  index_from-finds i (g ∷ gs) id = elim (Bool-cases (str_eq g.id id)) [
    | inl e ↦ inr (0, g, ground (arith, e), refl, ground (arith, e))
    | inr e ↦ elim (index_from-finds (suc i) gs id) [
      | inl (n, m) ↦ inl (ground (arith, e, n), ground (arith, e, m))
      | inr (k, h, x, y, z) ↦ inr (suc k, h, ground (arith, e, x), y, ground (arith, e, z))
    ]
  ]

  pub group_by_id-find : (c : Config T) (id : String) → group_by_id c id ≡ find_group c.groups id
  unfolding group_by_id group_index_by_id IndexFinds
  group_by_id-find c id = elim (index_from-finds 0 c.groups id) [
    | inl (n, m) ↦ ground (arith, n, m)
    | inr (k, g, x, y, z) ↦
        let x' : index_from 0 c.groups id ≡ some k = ground (arith, x) in ground (arith, x', y, z)
  ]

  -- The index is there exactly when the group is.
  pub index_cases :
      (c : Config T) (id : String)
      → ((group_index_by_id c id ≡ none) × (find_group c.groups id ≡ none))
        ⊎ ((k : ℕ) × (g : Group T) × (group_index_by_id c id ≡ some k)
            × (find_group c.groups id ≡ some g))
  unfolding group_index_by_id IndexFinds
  index_cases c id = elim (index_from-finds 0 c.groups id) [
    | inl (n, m) ↦ inl (n, m)
    | inr (k, g, x, y, z) ↦ inr (k, g, ground (arith, x), z)
  ]

  -- The parent of a node, over the lists alone.
  unfoldable pub parent_in : List (Group T) → List Device → String → Option String
  parent_in gs ds id = elim (find_group gs id) [
    | some g ↦ some g.parent_id
    | none ↦ Option.map (λ d. d.parent_id) (find_device ds id)
  ]

  pub node_parent-lists :
      (c : Config T) (id : String) → node_parent c id ≡ parent_in c.groups c.devices id
  unfolding node_parent parent_in
  node_parent-lists c id = ground (arith, group_by_id-find c id)
