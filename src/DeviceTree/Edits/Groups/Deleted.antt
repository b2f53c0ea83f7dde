-- ===== src/DeviceTree/Edits/Groups/Deleted.antt =====
-- `deleteDeviceGroup` of src/ui/models/workspace_model.cc ends on a tree without cycles.
use mathlib.Core.Option
use pointcaster.Prelude.{
  ℕ, zero, suc, ◌+◌, ◌<◌, ◌≡◌, String, true, false, none, some, List, [], ◌∷◌, str_eq,
  if◌then◌else◌, arith, refl, ap, sym, ◌∙◌, subst, inl, inr, Bool-cases, Option-cases,
}
use pointcaster.DeviceTree.{
  Config, Group, is_empty, find_device, group_by_id, group_index_by_id, node_parent,
}
use pointcaster.DeviceTree.Walks.{device_address, label_loop, label_and_parent}
use pointcaster.DeviceTree.Chain.{Chain}
use pointcaster.DeviceTree.Lookup.{node_parent-lists}
use pointcaster.DeviceTree.Edits.Paths.{
  node_path_prefix, reroot_paths_between, reroot_node_paths, erase_node_paths,
}
use pointcaster.DeviceTree.Edits.Parents.{IsAcyclic, node_parent-reroot}
use pointcaster.DeviceTree.Edits.Delete.{erase_session_node_state, NoneHolds, NoneHolds-without}
use pointcaster.DeviceTree.Edits.Returns.{prefix_bound}
use pointcaster.DeviceTree.Edits.Groups.{
  lifted_parent, child_ids, child_prefixes, reroot_children, lift_children, delete_device_group,
}
use pointcaster.DeviceTree.Edits.Groups.Lifted.{
  HasOnce, node_parent-lift_children, lift_children-IsAcyclic,
}

ids_of : List (String × String) → List String
ids_of [] = []
ids_of ((id, prefix) ∷ ps) = id ∷ ids_of ps

module _ {T : Type 0} where
  -- The prefix of each node of a list is found with the fuel given.
  AreFound : ℕ → Config T → List String → Type 0
  AreFound f c [] = Unit {0}
  AreFound f c (id ∷ ids) = ((a : String) × (node_path_prefix f c id ≡ some a)) × AreFound f c ids

  found_bound :
      (c : Config T) (ids : List String)
      → IsAcyclic c
      → (b : ℕ) × ((f : ℕ) → b < f → AreFound f c ids)
  unfolding AreFound
  found_bound c [] a = (0, λ f h. tt)
  found_bound c (id ∷ ids) a =
      let (b, one) = prefix_bound c id a in
      let (b', more) = found_bound c ids a in
      (b + b', λ f h. (one f (omega (arith, h)), more f (omega (arith, h))))

  abbrev with_paths : Config T → List String → List String → List String → Config T
  with_paths c publish push render = record c {
    publish_paths = publish;
    push_paths = push;
    render_paths = render;
  }

  -- The sets of registry paths have no part in a node's prefix.
  label_loop-with_paths :
      (f : ℕ) (c : Config T) (x y z : List String) (p : String)
      → label_loop f (with_paths c x y z) p ≡ label_loop f c p
  unfolding label_loop group_by_id group_index_by_id
  label_loop-with_paths zero c x y z p = refl
  label_loop-with_paths (suc f) c x y z p = elim (Option-cases (group_by_id c p)) [
    | inl e ↦ rw e refl
    | inr (g, e) ↦ rw (e, label_loop-with_paths f c x y z g.parent_id) refl
  ]

  prefix-with_paths :
      (f : ℕ) (c : Config T) (x y z : List String) (id : String)
      → node_path_prefix f (with_paths c x y z) id ≡ node_path_prefix f c id
  unfolding node_path_prefix device_address label_and_parent group_by_id group_index_by_id
  prefix-with_paths f c x y z id = elim (Option-cases (label_and_parent c id)) [
    | inl e ↦ rw (device_address, e) refl
    | inr ((own, parent), e) ↦ rw (device_address, e, label_loop-with_paths f c x y z parent) refl
  ]

  prefix-reroot :
      (f : ℕ) (c : Config T) (previous new id : String)
      → node_path_prefix f (reroot_paths_between c previous new) id ≡ node_path_prefix f c id
  unfolding reroot_paths_between
  prefix-reroot f c previous new id = elim (Bool-cases (str_eq new previous)) [
    | inl e ↦ rw e refl
    | inr e ↦ rw e (prefix-with_paths f c _ _ _ id)
  ]

  child_prefixes-AreFound :
      (f : ℕ) (c : Config T) (ids : List String)
      → AreFound f c ids
      → (ps : List (String × String)) × (child_prefixes f c ids ≡ some ps) × (ids_of ps ≡ ids)
  unfolding AreFound child_prefixes ids_of
  child_prefixes-AreFound f c [] h = ([], refl, refl)
  child_prefixes-AreFound f c (id ∷ ids) ((prefix, e), h) =
      let (ps, found, same) = child_prefixes-AreFound f c ids h in
      ((id, prefix) ∷ ps, rw (child_prefixes, e, found) refl, ap (id ∷◌) same)

  -- The children are rerooted one by one, in configurations with the same prefixes.
  reroot_children-AreFound :
      (f : ℕ) (c c' : Config T) (ps : List (String × String))
      → AreFound f c (ids_of ps)
      → ((id : String) → node_path_prefix f c' id ≡ node_path_prefix f c id)
      → (c'' : Config T) × (reroot_children f c' ps ≡ some c'')
        × ((q : String) → node_parent c'' q ≡ node_parent c' q)
  unfolding AreFound reroot_children reroot_node_paths ids_of
  reroot_children-AreFound f c c' [] h same = (c', refl, λ q. refl)
  reroot_children-AreFound f c c' ((id, previous) ∷ ps) ((prefix, e), h) same =
      let next = reroot_paths_between c' previous prefix in
      let (c'', rerooted, parents) =
        reroot_children-AreFound f c next ps h
          (λ q. prefix-reroot f c' previous prefix q ∙ same q) in
      let found : node_path_prefix f c' id ≡ some prefix = same id ∙ e in
      (
        c'',
        rw (reroot_children, reroot_node_paths, found) rerooted,
        λ q. parents q ∙ node_parent-reroot c' previous prefix q,
      )

  IsAcyclic-same :
      (c c' : Config T)
      → ((q : String) → node_parent c' q ≡ node_parent c q)
      → IsAcyclic c
      → IsAcyclic c'
  IsAcyclic-same c c' same acyclic =
      subst (λ next. (p : String) → Chain next p) (λ i q. sym (same q) i) acyclic

  deleted_group :
      (f : ℕ) (c : Config T) (id prefix : String) (g : Group T) (ps : List (String × String))
      (c' : Config T)
      → group_by_id c id ≡ some g
      → node_path_prefix f c id ≡ some prefix
      → child_prefixes f c (child_ids c id) ≡ some ps
      → reroot_children f (lift_children c id g.parent_id) ps ≡ some c'
      → delete_device_group f c id
        ≡ some (true, erase_session_node_state id (erase_node_paths c' prefix))
  unfolding delete_device_group
  deleted_group f c id prefix g ps c' found e e' e'' =
      rw (delete_device_group, found, e, e', e'') refl

  -- On a tree without cycles, deleting a group with an id that no other node has ends. Its children
  -- then stand under the group's parent, every other node keeps its parent, no session names the
  -- group, and the tree has no cycles.
  pub delete_device_group-returns :
      (c : Config T) (id : String) (g : Group T)
      → is_empty id ≡ false
      → group_by_id c id ≡ some g
      → HasOnce id c.groups
      → find_device c.devices id ≡ none
      → IsAcyclic c
      → (f : ℕ) × (c' : Config T) × (delete_device_group f c id ≡ some (true, c'))
        × ((q : String)
            → node_parent c' q ≡ (
                if str_eq id q
                then none
                else Option.map (lifted_parent id g.parent_id) (node_parent c q)))
        × NoneHolds id c'.sessions
        × IsAcyclic c'
  unfolding delete_device_group erase_session_node_state erase_node_paths
  delete_device_group-returns c id g named found once absent acyclic =
      let lifted = lift_children c id g.parent_id in
      let lifted_acyclic = lift_children-IsAcyclic c id g named found once absent acyclic in
      let (b, enough) = prefix_bound c id acyclic in
      let (b', before) = found_bound c (child_ids c id) acyclic in
      let (b'', after) = found_bound lifted (child_ids c id) lifted_acyclic in
      let f = suc (b + b' + b'') in
      let (prefix, e) = enough f (omega arith) in
      let (ps, e', same) = child_prefixes-AreFound f c (child_ids c id) (before f (omega arith)) in
      let (c', e'', parents) =
        reroot_children-AreFound f lifted lifted ps
          (subst (AreFound f lifted) (sym same) (after f (omega arith))) (λ q. refl) in
      let final = erase_session_node_state id (erase_node_paths c' prefix) in
      let kept : (q : String) → node_parent final q ≡ node_parent lifted q =
        λ q. node_parent-lists final q ∙ sym (node_parent-lists c' q) ∙ parents q in
      (
        f,
        final,
        deleted_group f c id prefix g ps c' found e e' e'',
        λ q. kept q ∙ node_parent-lift_children c id g.parent_id q once absent,
        NoneHolds-without id c'.sessions,
        IsAcyclic-same lifted final kept lifted_acyclic,
      )
