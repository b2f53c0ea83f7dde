-- ===== src/DeviceTree/Edits/Create.antt =====
-- `createDeviceGroup` of src/ui/models/workspace_model.cc. The id comes from a generator of unique
-- ids, and the transform of a new group from its type: both are parameters.
use pointcaster.Prelude.{
  ℕ, ◌+◌, ◌≡◌, ◌⊎◌, String, true, false, Option, none, some, List, [], ◌∷◌, ◌++◌, arith, refl, inl,
  inr, str_eq, eq_iff, if◌then◌else◌, Bool-cases, length, ◌∙◌, sym, ap, subst,
}
use pointcaster.Prelude.Int.{pos}
use pointcaster.DeviceTree.{Config, Group, is_empty, group_index_by_id, node_parent}
use pointcaster.DeviceTree.Chain.{Chain, root, orphan, up}
use pointcaster.DeviceTree.Lookup.{find_group, parent_in, node_parent-lists, index_cases}
use pointcaster.DeviceTree.Edits.Parents.{IsAcyclic}
use pointcaster.Labels.{next_available_label, next_available_label-IsLowest, IsLowest}

module _ {T : Type 0} (format : String → ℕ → String) (transform : T) where
  unfoldable pub group_labels : List (Group T) → List String
  group_labels [] = []
  group_labels (g ∷ gs) = g.label ∷ group_labels gs

  unfoldable pub push_group : Config T → String → String → String → Config T
  push_group c parent id label = record c {
    groups =
        c.groups
        ++ record {
          id = id;
          label = label;
          parent_id = parent;
          order = pos 0;
          transform = transform;
        }
          ∷ [];
  }

  -- A parent that does not exist is rejected; the empty id is the root.
  unfoldable pub create_device_group : ℕ → Config T → String → String → Option (Config T)
  create_device_group f c parent id =
      let created : Option (Config T) =
        elim (next_available_label format f "group" (group_labels c.groups)) [
          | none ↦ none
          | some label ↦ some (push_group c parent id label)
        ] in
      if is_empty parent
      then created
      else elim (group_index_by_id c parent) [ none ↦ some c | some _ ↦ created ]

  find_group-push :
      (gs : List (Group T)) (g : Group T) (q : String)
      → find_group (gs ++ g ∷ []) q
        ≡ elim (find_group gs q) [ some h ↦ some h | none ↦ if str_eq g.id q then some g else none ]
  unfolding find_group
  find_group-push [] g q = refl
  find_group-push (h ∷ gs) g q = elim (Bool-cases (str_eq h.id q)) [
    | inl e ↦ ground (arith, e)
    | inr e ↦ ground (arith, e, find_group-push gs g q)
  ]

  -- With an unused id, the new group alone gets a parent.
  node_parent-push_group :
      (c : Config T) (parent id label q : String)
      → node_parent c id ≡ none
      → node_parent (push_group c parent id label) q
        ≡ (if str_eq id q then some parent else node_parent c q)
  unfolding push_group parent_in
  node_parent-push_group c parent id label q fresh =
      let g : Group T = record {
        id = id;
        label = label;
        parent_id = parent;
        order = pos 0;
        transform = transform;
      } in
      node_parent-lists (push_group c parent id label) q
      ∙ ground (
        arith,
        fresh,
        eq_iff id q,
        node_parent-lists c id,
        node_parent-lists c q,
        find_group-push c.groups g q,
      )

  -- A chain that starts elsewhere never meets an id that no node names as its parent.
  Chain-new :
      (c : Config T) (next : String → Option String) (id : String)
      → ((q : String) → str_eq id q ≡ false → next q ≡ node_parent c q)
      → ((q : String) → ¬ (node_parent c q ≡ some id))
      → {p : String} → str_eq id p ≡ false
      → Chain (node_parent c) p
      → Chain next p
  Chain-new c next id same unnamed x (root e) = root e
  Chain-new c next id same unnamed x (orphan {p} e n) = orphan e (same p x ∙ n)
  Chain-new c next id same unnamed x (up {p} {q} e n ch) = elim (Bool-cases (str_eq id q)) [
    | inl y ↦ absurd (unnamed p (n ∙ ap some (sym ((eq_iff id q).0 y))))
    | inr y ↦ up e (same p x ∙ n) (Chain-new c next id same unnamed y ch)
  ]

  push_group-IsAcyclic :
      (c : Config T) (parent id label : String)
      → node_parent c id ≡ none
      → ((q : String) → ¬ (node_parent c q ≡ some id))
      → is_empty id ≡ false
      → str_eq id parent ≡ false
      → IsAcyclic c
      → IsAcyclic (push_group c parent id label)
  push_group-IsAcyclic c parent id label fresh unnamed nonempty apart a p =
      let c' = push_group c parent id label in
      let same : (q : String) → str_eq id q ≡ false → node_parent c' q ≡ node_parent c q =
        λ q x. node_parent-push_group c parent id label q fresh ∙ ground (arith, x) in
      elim (Bool-cases (str_eq id p)) [
        | inl x ↦ subst (Chain (node_parent c')) {x = id} {y = p} ((eq_iff id p).0 x) (
            up nonempty
              (node_parent-push_group c parent id label id fresh ∙ ground (arith, eq_iff id id))
              (Chain-new c (node_parent c') id same unnamed apart (a parent)))
        | inr x ↦ Chain-new c (node_parent c') id same unnamed x (a p)
      ]

  -- What a creation that returns may leave: the same configuration, when the parent does not exist,
  -- or one more group below a parent that exists, or the root, whose label is the lowest free one.
  abbrev pub Created : Config T → String → String → Config T → Type 0
  Created c parent id c' =
      ((c' ≡ c) × (is_empty parent ≡ false) × (find_group c.groups parent ≡ none))
      ⊎ ((label : String) × ((is_empty parent ≡ true)
            ⊎ ((g : Group T) × (find_group c.groups parent ≡ some g)))
          × IsLowest format (group_labels c.groups) "group" 1 label
          × (c' ≡ push_group c parent id label))

  module _ (injective : (m n : ℕ) → format "group" m ≡ format "group" n → m ≡ n) where
    -- With an id that is not empty and that no node has or names as its parent, a creation in a tree
    -- without cycles ends, when different numbers give different labels. It leaves no cycles, and
    -- either the parent is no group and nothing changes, or the parent is a group or the root and a
    -- group with the lowest free label is added below it.
    pub create_device_group-returns :
        (c : Config T) (parent id : String)
        → node_parent c id ≡ none
        → ((q : String) → ¬ (node_parent c q ≡ some id))
        → is_empty id ≡ false
        → IsAcyclic c
        → (c' : Config T) × (create_device_group (length (group_labels c.groups) + 1) c parent id
            ≡ some c')
          × IsAcyclic c'
          × Created c parent id c'
    unfolding create_device_group parent_in
    create_device_group-returns c parent id fresh unnamed nonempty a =
        let (label, found, low) =
          next_available_label-IsLowest format "group" injective (group_labels c.groups) in
        let pushed = push_group c parent id label in
        elim (Bool-cases (is_empty parent)) [
          | inl e ↦ (
            pushed,
            ground (arith, e, found),
            push_group-IsAcyclic c parent id label fresh unnamed nonempty
                (ground (arith, e, nonempty, eq_iff id parent)) a,
            inr (label, inl e, low, refl),
          )
          | inr e ↦ elim (index_cases c parent) [
            | inl (n, m) ↦ (c, ground (arith, e, n), a, inl (refl, e, m))
            | inr (k, g, n, m) ↦ (
              pushed,
              ground (arith, e, n, found),
              push_group-IsAcyclic c parent id label fresh unnamed nonempty
                  (ground (arith, m, fresh, eq_iff id parent, node_parent-lists c id)) a,
              inr (label, inr (g, m), low, refl),
            )
          ]
        ]
