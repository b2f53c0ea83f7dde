-- ===== src/DeviceTree/Edits/Parents.antt =====
-- What the edits of src/ui/models/workspace_model.cc do to the parents of the nodes.
use mathlib.Core.Option
use pointcaster.Prelude.{
  ℕ, zero, suc, ◌≡◌, String, true, false, Option, some, List, [], ◌∷◌, arith, refl, inl, inr,
  str_eq, eq_iff, if◌then◌else◌, Bool-cases, Option-cases, sym, subst, ◌∙◌, ◌⊎◌, ◌||◌,
}
use pointcaster.Prelude.Int.{ℤ, pos}
use pointcaster.DeviceTree.{Config, Group, Device, is_empty, find_device, node_parent}
use pointcaster.DeviceTree.Chain.{Chain, root, orphan, up}
use pointcaster.DeviceTree.Lookup.{find_group, parent_in, node_parent-lists, index_cases}
use pointcaster.DeviceTree.Edits.{
  update_group, update_devices, set_parent, set_order, assign_orders, inside_loop, reparent,
  move_device_node, new_order,
}
use pointcaster.DeviceTree.Edits.Paths.{node_path_prefix, reroot_node_paths, reroot_paths_between}

module _ {T : Type 0} where
  find_group-update :
      (new : Group T → Group T) (id q : String) (gs : List (Group T))
      → ((g : Group T) → (new g).id ≡ g.id)
      → find_group (update_group new id gs) q
        ≡ (if str_eq id q then Option.map new (find_group gs q) else find_group gs q)
  unfolding update_group find_group
  find_group-update new id q [] same = ground arith
  find_group-update new id q (g ∷ gs) same = ground (
    arith,
    same g,
    eq_iff g.id id,
    eq_iff g.id q,
    eq_iff id q,
    find_group-update new id q gs same,
  )

find_device-update :
    (new : Device → Device) (id q : String) (ds : List Device)
    → ((d : Device) → (new d).id ≡ d.id)
    → find_device (update_devices new id ds) q
      ≡ (if str_eq id q then Option.map new (find_device ds q) else find_device ds q)
unfolding update_devices find_device
find_device-update new id q [] same = ground arith
find_device-update new id q (d ∷ ds) same =
    ground (
      arith,
      same d,
      eq_iff d.id id,
      eq_iff d.id q,
      eq_iff id q,
      find_device-update new id q ds same,
    )

module _ {T : Type 0} where
  -- `set_parent` gives one node a parent and leaves every other node's parent.
  pub node_parent-set_parent :
      (c : Config T) (id parent q : String)
      → node_parent (set_parent c id parent) q
        ≡ (if str_eq id q then Option.map (λ _. parent) (node_parent c q) else node_parent c q)
  unfolding set_parent parent_in
  node_parent-set_parent c id parent q = elim (index_cases c id) [
    | inl (n, m) ↦ ground (
      arith,
      n,
      m,
      eq_iff id q,
      node_parent-lists c q,
      node_parent-lists (set_parent c id parent) q,
      find_device-update (λ d. record d { parent_id = parent }) id q c.devices (λ d. refl),
    )
    | inr (k, g, n, m) ↦ ground (
      arith,
      n,
      m,
      eq_iff id q,
      node_parent-lists c q,
      node_parent-lists (set_parent c id parent) q,
      find_group-update (λ (h : Group T). record h { parent_id = parent }) id q c.groups
          (λ h. refl),
    )
  ]

  node_parent-set_order :
      (c : Config T) (id : String) (order : ℤ) (q : String)
      → node_parent (set_order c id order) q ≡ node_parent c q
  unfolding set_order parent_in
  node_parent-set_order c id order q = elim (index_cases c id) [
    | inl (n, m) ↦ ground (
      arith,
      n,
      m,
      eq_iff id q,
      node_parent-lists c q,
      node_parent-lists (set_order c id order) q,
      find_device-update (λ d. record d { order = order }) id q c.devices (λ d. refl),
    )
    | inr (k, g, n, m) ↦ ground (
      arith,
      n,
      m,
      eq_iff id q,
      node_parent-lists c q,
      node_parent-lists (set_order c id order) q,
      find_group-update (λ (h : Group T). record h { order = order }) id q c.groups (λ h. refl),
    )
  ]

  node_parent-assign_orders :
      (i : ℕ) (ids : List String) (c : Config T) (q : String)
      → node_parent (assign_orders i ids c) q ≡ node_parent c q
  unfolding assign_orders
  node_parent-assign_orders i [] c q = refl
  node_parent-assign_orders i (id ∷ ids) c q =
      node_parent-assign_orders (suc i) ids (set_order c id (pos i)) q
      ∙ node_parent-set_order c id (pos i) q

  pub node_parent-reparent :
      (c : Config T) (id parent before q : String)
      → node_parent (reparent c id parent before) q
        ≡ (if str_eq id q then Option.map (λ _. parent) (node_parent c q) else node_parent c q)
  unfolding reparent
  node_parent-reparent c id parent before q =
      node_parent-assign_orders 0 (new_order (set_parent c id parent) id parent before)
        (set_parent c id parent) q
      ∙ node_parent-set_parent c id parent q

  pub node_parent-reroot :
      (c : Config T) (previous new q : String)
      → node_parent (reroot_paths_between c previous new) q ≡ node_parent c q
  unfolding reroot_paths_between parent_in
  node_parent-reroot c previous new q =
      ground
        (arith, node_parent-lists c q, node_parent-lists (reroot_paths_between c previous new) q)

  -- Every node's chain of parents ends.
  abbrev pub IsAcyclic : Config T → Type 0
  IsAcyclic c = (p : String) → Chain (node_parent c) p

  -- A walk that ends without meeting the node walks the same way after an edit of that node alone.
  inside_loop-Chain :
      (c : Config T) (next : String → Option String) (id : String)
      → ((q : String) → str_eq q id ≡ false → next q ≡ node_parent c q)
      → (f : ℕ) (p : String) → inside_loop f c id p ≡ some false
      → Chain next p
  unfolding inside_loop
  inside_loop-Chain c next id same zero p h = cc
  inside_loop-Chain c next id same (suc f) p h = elim (Bool-cases (is_empty p)) [
    | inl e ↦ root e
    | inr e ↦ elim (Bool-cases (str_eq p id)) [
      | inl x ↦ absurd (ground (arith, e, x, h))
      | inr x ↦ elim (Option-cases (node_parent c p)) [
        | inl n ↦ orphan e (same p x ∙ n)
        | inr (q, n) ↦
            up e (same p x ∙ n) (inside_loop-Chain c next id same f q (ground (arith, e, x, n, h)))
      ]
    ]
  ]

  Chain-edit :
      (c : Config T) (next : String → Option String) (id parent : String)
      → ((q : String) → str_eq q id ≡ false → next q ≡ node_parent c q)
      → ((q : String) → str_eq q id ≡ true → next q ≡ some parent)
      → Chain next parent
      → {p : String} → Chain (node_parent c) p
      → Chain next p
  Chain-edit c next id parent same moved above (root e) = root e
  Chain-edit c next id parent same moved above (orphan {p} e n) = elim (Bool-cases (str_eq p id)) [
    | inl x ↦ up e (moved p x) above
    | inr x ↦ orphan e (same p x ∙ n)
  ]
  Chain-edit c next id parent same moved above (up {p} e n ch) = elim (Bool-cases (str_eq p id)) [
    | inl x ↦ up e (moved p x) above
    | inr x ↦ up e (same p x ∙ n) (Chain-edit c next id parent same moved above ch)
  ]

  -- What a move that returns has done: nothing, or the new parent after a clean walk.
  pub move_cases :
      (f : ℕ) (c : Config T) (id parent before : String) {c' : Config T}
      → move_device_node f c id parent before ≡ some c'
      → (c' ≡ c)
        ⊎ ((old : String) × (node_parent c id ≡ some old)
            × (inside_loop f c id parent ≡ some false)
            × ((q : String) → node_parent c' q ≡ node_parent (reparent c id parent before) q))
  unfolding move_device_node reroot_node_paths
  move_cases f c id parent before {c'} h = elim (Option-cases (node_parent c id)) [
    | inl n ↦ inl (ground (arith, n, h))
    | inr (old, n) ↦ elim (Option-cases (node_path_prefix f c id)) [
      | inl m ↦ inl (ground (arith, n, m, h))
      | inr (previous, m) ↦ elim (Option-cases (inside_loop f c id parent)) [
        | inl l ↦ inl (ground (arith, n, m, l, h))
        | inr (true, l) ↦ inl (ground (arith, n, m, l, h))
        | inr (false, l) ↦
            elim (Option-cases (node_path_prefix f (reparent c id parent before) id)) [
              | inl k ↦ inl (ground (arith, n, m, l, k, h))
              | inr (new, k) ↦ elim (Bool-cases (is_empty id || str_eq id parent)) [
                | inl b ↦ inl (ground (arith, b, h))
                | inr b ↦ inr (
                  old,
                  n,
                  l,
                  λ q.
                      subst (λ z. node_parent z q ≡ node_parent (reparent c id parent before) q)
                        {x = reroot_paths_between (reparent c id parent before) previous new}
                        {y = c'} (ground (arith, n, m, l, k, b, h))
                        (node_parent-reroot (reparent c id parent before) previous new q),
                )
              ]
            ]
      ]
    ]
  ]

  -- A clean walk up from the new parent leaves the tree without cycles.
  pub moved-IsAcyclic :
      (f : ℕ) (c c' : Config T) (id parent before old : String)
      → node_parent c id ≡ some old
      → inside_loop f c id parent ≡ some false
      → ((q : String) → node_parent c' q ≡ node_parent (reparent c id parent before) q)
      → IsAcyclic c
      → IsAcyclic c'
  moved-IsAcyclic f c c' id parent before old n l same a p =
      let others : (q : String) → str_eq q id ≡ false → node_parent c' q ≡ node_parent c q = λ q x.
        same q
        ∙ node_parent-reparent c id parent before q
        ∙ ground (arith, x, eq_iff id q, eq_iff q id) in
      let itself : (q : String) → str_eq q id ≡ true → node_parent c' q ≡ some parent = λ q x.
        same q
        ∙ node_parent-reparent c id parent before q
        ∙ ground (arith, x, n, eq_iff id q, eq_iff q id) in
      Chain-edit c (node_parent c') id parent others itself
        (inside_loop-Chain c (node_parent c') id others f parent l) (a p)

  pub move_device_node-IsAcyclic :
      (f : ℕ) (c : Config T) (id parent before : String) {c' : Config T}
      → move_device_node f c id parent before ≡ some c'
      → IsAcyclic c
      → IsAcyclic c'
  move_device_node-IsAcyclic f c id parent before {c'} h a =
      elim (move_cases f c id parent before h) [
        | inl e ↦ subst IsAcyclic (sym e) a
        | inr (old, n, l, same) ↦ moved-IsAcyclic f c c' id parent before old n l same a
      ]
