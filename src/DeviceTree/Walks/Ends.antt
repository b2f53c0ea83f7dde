-- ===== src/DeviceTree/Walks/Ends.antt =====
-- When the walks of src/plugins/devices/device_tree.cc end, and what they then return.
use mathlib.Core.List.{reverse, foldl}
use Prim.Native.String.{◌++◌ as append}
use pointcaster.Prelude.{
  ℕ, zero, suc, ◌<◌, ◌≡◌, ◌↔◌, String, Bool, true, none, some, List, [], ◌∷◌, arith, length, not,
  ◌&&◌, ◌||◌, Bool-cases, Option-cases, inl, inr, refl, map, if◌then◌else◌,
}
use pointcaster.DeviceTree.{
  Config, Group, Device, is_empty, contains, group_by_id, group_parent, node_parent,
}
use pointcaster.DeviceTree.Chain.{Chain, root, orphan, up, visited, groups_at}
use pointcaster.DeviceTree.Walks.{
  enabled_loop, label_loop, member_loop, label_or_id, effective_session_enabled, device_address,
  join_address, label_and_parent, device_id_of, ids_in_group, device_ids_in_group, world_loop,
  effective_world_transform,
}

-- No id of the list is in the set.
abbrev pub none_in : List String → List String → Bool
none_in disabled [] = true
none_in disabled (p ∷ ps) = not (contains disabled p) && none_in disabled ps

none_in-nil : (ps : List String) → none_in [] ps ≡ true
unfolding contains
none_in-nil [] = refl
none_in-nil (p ∷ ps) = none_in-nil ps

module _ {T : Type 0} (c : Config T) where
  group_of_parent :
      (p : String) {q : String}
      → group_parent c p ≡ some q
      → (g : Group T) × (group_by_id c p ≡ some g) × (g.parent_id ≡ q)
  unfolding group_parent
  group_of_parent p e = elim (Option-cases (group_by_id c p)) [
    | inl n ↦ absurd (ground (arith, n, e))
    | inr (g, s) ↦ (g, s, ground (arith, s, e))
  ]

  group_none : (p : String) → group_parent c p ≡ none → group_by_id c p ≡ none
  unfolding group_parent
  group_none p e = ground arith

  -- A parent chain that ends, shorter than the fuel, is walked to its end.
  enabled_loop-Chain :
      (f : ℕ) (disabled : List String) {p : String} (ch : Chain (group_parent c) p)
      → length (visited ch) < f
      → enabled_loop f c disabled p ≡ some (none_in disabled (visited ch))
  unfolding enabled_loop
  enabled_loop-Chain zero disabled ch h = absurd (omega arith)
  enabled_loop-Chain (suc f) disabled (root e) h = ground arith
  enabled_loop-Chain (suc f) disabled (orphan {p} e n) h = ground (arith, group_none p n)
  enabled_loop-Chain (suc f) disabled (up {p} e n ch) h =
      let found = group_of_parent p n in ground (arith, found, enabled_loop-Chain f disabled ch)

  label_loop-Chain :
      (f : ℕ) {p : String} (ch : Chain (group_parent c) p)
      → length (visited ch) < f
      → label_loop f c p ≡ some (map (λ g. label_or_id g.label g.id) (groups_at c (visited ch)))
  unfolding label_loop groups_at
  label_loop-Chain zero ch h = absurd (omega arith)
  label_loop-Chain (suc f) (root e) h = ground arith
  label_loop-Chain (suc f) (orphan {p} e n) h = ground (arith, group_none p n)
  label_loop-Chain (suc f) (up {p} e n ch) h =
      let found = group_of_parent p n in ground (arith, found, label_loop-Chain f ch)

  member_loop-Chain :
      (f : ℕ) (group_id : String) {p : String} (ch : Chain (group_parent c) p)
      → length (visited ch) < f
      → member_loop f c group_id p ≡ some (contains (visited ch) group_id)
  unfolding member_loop contains
  member_loop-Chain zero group_id ch h = absurd (omega arith)
  member_loop-Chain (suc f) group_id (root e) h = ground arith
  member_loop-Chain (suc f) group_id (orphan {p} e n) h = ground (arith, group_none p n)
  member_loop-Chain (suc f) group_id (up {p} e n ch) h =
      let found = group_of_parent p n in ground (arith, found, member_loop-Chain f group_id ch)

  -- The transform of a node's ancestors is their product, the farthest outermost.
  module _ {M : Type 0} (multiply : M → M → M) (identity : M) (to_float4x4 : T → M) where
    world_loop-Chain :
        (f : ℕ) (world : M) {p : String} (ch : Chain (group_parent c) p)
        → length (visited ch) < f
        → world_loop multiply identity to_float4x4 f c p world
          ≡ some
              (foldl (λ w g. multiply (to_float4x4 g.transform) w) world (groups_at c (visited ch)))
    unfolding world_loop groups_at
    world_loop-Chain zero world ch h = absurd (omega arith)
    world_loop-Chain (suc f) world (root e) h = ground arith
    world_loop-Chain (suc f) world (orphan {p} e n) h = ground (arith, group_none p n)
    world_loop-Chain (suc f) world (up {p} e n ch) h =
        let (g, s, q) = group_of_parent p n in
        ground (arith, s, q, world_loop-Chain f (multiply (to_float4x4 g.transform) world) ch)

    -- With fuel above the length of its parents' chain, the world transform of a node is the product
    -- of the transforms of the groups on the chain, the farthest leftmost.
    pub effective_world_transform-Chain :
        (f : ℕ) (node : String) {p : String} (ch : Chain (group_parent c) p)
        → node_parent c node ≡ some p
        → length (visited ch) < f
        → effective_world_transform multiply identity to_float4x4 f c node
          ≡ some (
              foldl
                (λ w g. multiply (to_float4x4 g.transform) w)
                identity
                (groups_at c (visited ch)))
    unfolding effective_world_transform
    effective_world_transform-Chain f node ch e h = ground (arith, world_loop-Chain f identity ch h)

  -- A walk that returns has met the end of the chain.
  Chain-label_loop :
      (f : ℕ) (p : String) (ls : List String)
      → label_loop f c p ≡ some ls
      → Chain (group_parent c) p
  unfolding label_loop group_parent
  Chain-label_loop zero p ls h = cc
  Chain-label_loop (suc f) p ls h = elim (Bool-cases (is_empty p)) [
    | inl e ↦ root e
    | inr e ↦ elim (Option-cases (group_by_id c p)) [
      | inl n ↦ orphan e (ground (arith, n))
      | inr (g, s) ↦ elim (Option-cases (label_loop f c g.parent_id)) [
        | inl n ↦ absurd (ground (arith, e, s, n, h))
        | inr (ls', r) ↦ up e (ground (arith, s)) (Chain-label_loop f g.parent_id ls' r)
      ]
    ]
  ]

  -- The address of a node is built with any fuel above the length of its parents' chain.
  pub device_address-Chain :
      (f : ℕ) (id own p : String) (ch : Chain (group_parent c) p)
      → label_and_parent c id ≡ some (own, p)
      → length (visited ch) < f
      → (a : String) × (device_address f c id ≡ some a)
  unfolding device_address
  device_address-Chain f id own p ch e h = (
    append
        (join_address (reverse (map (λ g. label_or_id g.label g.id) (groups_at c (visited ch)))) "")
        own,
    ground (arith, e, label_loop-Chain f ch h),
  )

  -- With fuel above the length of its parents' chain, a node of the tree is found switched on exactly
  -- when neither it nor an id on the chain is switched off.
  pub effective_session_enabled-Chain :
      (f : ℕ) (disabled : List String) (node : String) {p : String} (ch : Chain (group_parent c) p)
      → node_parent c node ≡ some p
      → length (visited ch) < f
      → effective_session_enabled f c disabled node
        ≡ some (not (contains disabled node) && none_in disabled (visited ch))
  unfolding effective_session_enabled contains
  effective_session_enabled-Chain f [] node ch e h = ground (arith, none_in-nil (visited ch))
  effective_session_enabled-Chain f (x ∷ xs) node ch e h =
      ground (arith, enabled_loop-Chain f (x ∷ xs) ch h)

  -- The address of a node of the tree is built with some fuel exactly when the chain of its parents
  -- ends.
  pub device_address-returns_iff :
      (id own p : String)
      → label_and_parent c id ≡ some (own, p)
      → ((f : ℕ) × (a : String) × (device_address f c id ≡ some a)) ↔ Chain (group_parent c) p
  unfolding device_address
  device_address-returns_iff id own p e = (returned, built)
    where
      returned :
          ((f : ℕ) × (a : String) × (device_address f c id ≡ some a)) → Chain (group_parent c) p
      returned (f, a, r) = elim (Option-cases (label_loop f c p)) [
        | inl n ↦ absurd (ground (arith, e, n, r))
        | inr (ls, s) ↦ Chain-label_loop f p ls s
      ]

      built : Chain (group_parent c) p → (f : ℕ) × (a : String) × (device_address f c id ≡ some a)
      built ch = (
        suc (length (visited ch)),
        append
            (join_address (reverse (map (λ g. label_or_id g.label g.id) (groups_at c (visited ch))))
              "")
            own,
        ground (arith, e, label_loop-Chain (suc (length (visited ch))) ch (omega arith)),
      )

  -- Reference: the ids of the devices whose parent chain meets the group.
  module _ (chains : (p : String) → Chain (group_parent c) p) where
    unfoldable pub members : String → List Device → List String
    members group_id [] = []
    members group_id (d ∷ ds) =
        let rest = members group_id ds in
        if is_empty (device_id_of d) || not (contains (visited (chains d.parent_id)) group_id)
        then rest
        else device_id_of d ∷ rest

    ids_in_group-members :
        (f : ℕ) (group_id : String) (ds : List Device)
        → ((p : String) → length (visited (chains p)) < f)
        → ids_in_group f c group_id ds ≡ some (members group_id ds)
    unfolding ids_in_group members
    ids_in_group-members f group_id [] h = refl
    ids_in_group-members f group_id (d ∷ ds) h = ground (
      arith,
      ids_in_group-members f group_id ds h,
      member_loop-Chain f group_id (chains d.parent_id) (h d.parent_id),
    )

    -- When every parent chain ends, with fuel above the length of each, `device_ids_in_group` returns
    -- the ids of the devices whose chain meets the group, in the order of the configuration.
    pub device_ids_in_group-members :
        (f : ℕ) (group_id : String)
        → ((p : String) → length (visited (chains p)) < f)
        → device_ids_in_group f c group_id ≡ some (members group_id c.devices)
    unfolding device_ids_in_group
    device_ids_in_group-members f group_id h = ids_in_group-members f group_id c.devices h
