-- ===== src/DeviceTree/Edits/Groups/Lifted.antt =====
-- The parents of the nodes when `deleteDeviceGroup` of src/ui/models/workspace_model.cc has moved the
-- children of the group up and erased it.
use mathlib.Core.Option
use mathlib.Core.Option.{some-injective}
use pointcaster.Prelude.{
  ◌≡◌, String, true, false, none, some, List, [], ◌∷◌, str_eq, if◌then◌else◌, arith, refl, ap, sym,
  ◌∙◌, subst, inl, inr, Bool-cases, Option-cases, eq_iff, str_eq_comm,
}
use pointcaster.DeviceTree.{Config, Group, Device, is_empty, find_device, group_by_id, node_parent}
use pointcaster.DeviceTree.Chain.{Chain, root, orphan, up}
use pointcaster.DeviceTree.Lookup.{find_group, parent_in, node_parent-lists}
use pointcaster.DeviceTree.Edits.Parents.{IsAcyclic}
use pointcaster.DeviceTree.Edits.Groups.{
  lifted_parent, lift_devices, lift_groups, remove_group, lift_children,
}

find_device-lift_devices :
    (id surviving q : String) (ds : List Device)
    → Option.map (λ d. d.parent_id) (find_device (lift_devices id surviving ds) q)
      ≡ Option.map (lifted_parent id surviving) (Option.map (λ d. d.parent_id) (find_device ds q))
unfolding find_device lift_devices
find_device-lift_devices id surviving q [] = refl
find_device-lift_devices id surviving q (d ∷ ds) = elim (Bool-cases (str_eq d.id q)) [
  | inl e ↦ rw e refl
  | inr e ↦ rw e (find_device-lift_devices id surviving q ds)
]

module _ {T : Type 0} where
  lifted_group : String → String → Group T → Group T
  lifted_group id surviving g = record g { parent_id = lifted_parent id surviving g.parent_id }

  find_group-lift_groups :
      (id surviving q : String) (gs : List (Group T))
      → find_group (lift_groups id surviving gs) q
        ≡ Option.map (lifted_group id surviving) (find_group gs q)
  unfolding find_group lift_groups lifted_group
  find_group-lift_groups id surviving q [] = refl
  find_group-lift_groups id surviving q (g ∷ gs) = elim (Bool-cases (str_eq g.id q)) [
    | inl e ↦ rw e refl
    | inr e ↦ rw e (find_group-lift_groups id surviving q gs)
  ]

  find_group-remove_group :
      (id q : String) (gs : List (Group T))
      → str_eq id q ≡ false
      → find_group (remove_group id gs) q ≡ find_group gs q
  unfolding find_group remove_group
  find_group-remove_group id q [] h = refl
  find_group-remove_group id q (g ∷ gs) h = elim (Bool-cases (str_eq g.id id)) [
    | inl e ↦
        let other : str_eq g.id q ≡ false =
          subst (λ w. str_eq w q ≡ false) (sym ((eq_iff g.id id).0 e)) h in
        rw (e, other) refl
    | inr e ↦ elim (Bool-cases (str_eq g.id q)) [
      | inl f ↦ rw (e, f) refl
      | inr f ↦ rw (e, f) (find_group-remove_group id q gs h)
    ]
  ]

  -- No other group has the id.
  abbrev pub HasOnce : String → List (Group T) → Type 0
  HasOnce id gs = find_group (remove_group id gs) id ≡ none

  HasOnce-lift_groups :
      (id surviving : String) (gs : List (Group T))
      → HasOnce id gs
      → HasOnce id (lift_groups id surviving gs)
  unfolding find_group remove_group lift_groups
  HasOnce-lift_groups id surviving [] h = refl
  HasOnce-lift_groups id surviving (g ∷ gs) h = elim (Bool-cases (str_eq g.id id)) [
    | inl e ↦
        let rest : find_group gs id ≡ none = ground (arith, h, e) in
        rw e (
          find_group-lift_groups id surviving id gs
          ∙ ap (Option.map (lifted_group id surviving)) rest)
    | inr e ↦
        let rest : HasOnce id gs = ground (arith, h, e) in
        rw (e, e) (HasOnce-lift_groups id surviving gs rest)
  ]

  parent_in-lifted :
      (id surviving q : String) (gs gs' : List (Group T)) (ds : List Device)
      → find_group gs' q ≡ Option.map (lifted_group id surviving) (find_group gs q)
      → parent_in gs' (lift_devices id surviving ds) q
        ≡ Option.map (lifted_parent id surviving) (parent_in gs ds q)
  unfolding parent_in lifted_group
  parent_in-lifted id surviving q gs gs' ds same = elim (Option-cases (find_group gs q)) [
    | inl e ↦
        let e' : find_group gs' q ≡ none = same ∙ rw e refl in
        rw (parent_in, e, e') (find_device-lift_devices id surviving q ds)
    | inr (g, e) ↦
        let e' : find_group gs' q ≡ some (lifted_group id surviving g) = same ∙ rw e refl in
        rw (parent_in, e, e') refl
  ]

  parent_in-absent :
      (q : String) (gs : List (Group T)) (ds : List Device)
      → find_group gs q ≡ none
      → Option.map (λ d. d.parent_id) (find_device ds q) ≡ none
      → parent_in gs ds q ≡ none
  unfolding parent_in
  parent_in-absent q gs ds e f = rw (parent_in, e) f

  -- Each node keeps its parent, but for the children of the group, and the group is gone.
  pub node_parent-lift_children :
      (c : Config T) (id surviving q : String)
      → HasOnce id c.groups
      → find_device c.devices id ≡ none
      → node_parent (lift_children c id surviving) q
        ≡ (if str_eq id q then none else Option.map (lifted_parent id surviving) (node_parent c q))
  unfolding lift_children
  node_parent-lift_children c id surviving q once absent =
      let c' = lift_children c id surviving in
      elim (Bool-cases (str_eq id q)) [
        | inl e ↦
            let gone : node_parent c' id ≡ none =
              node_parent-lists c' id
              ∙ parent_in-absent id c'.groups c'.devices
                  (HasOnce-lift_groups id surviving c.groups once)
                  (find_device-lift_devices id surviving id c.devices ∙ rw absent refl) in
            rw e (subst (λ w. node_parent c' w ≡ none) ((eq_iff id q).0 e) gone)
        | inr e ↦ rw e (
            node_parent-lists c' q
            ∙ parent_in-lifted id surviving q c.groups c'.groups c.devices (
                find_group-remove_group id q (lift_groups id surviving c.groups) e
                ∙ find_group-lift_groups id surviving q c.groups)
            ∙ ap (Option.map (lifted_parent id surviving)) (sym (node_parent-lists c q)))
      ]

  -- Chains of parents end after as they did before, from a node and from what it is lifted to.
  lifted_chain :
      (c c' : Config T) (id surviving : String)
      → is_empty id ≡ false
      → node_parent c id ≡ some surviving
      → ((q : String)
          → node_parent c' q ≡ (
              if str_eq id q
              then none
              else Option.map (lifted_parent id surviving) (node_parent c q)))
      → (p : String) → Chain (node_parent c) p
      → Chain (node_parent c') p × Chain (node_parent c') (lifted_parent id surviving p)
  lifted_chain c c' id surviving named found same p (root e) =
      let other : str_eq p id ≡ false = ground (arith, e, named, eq_iff p id) in
      rw other (root e, root e)
  lifted_chain c c' id surviving named found same p (orphan e n) = elim (Bool-cases (str_eq p id)) [
    | inl f ↦
        let at : node_parent c p ≡ some surviving =
          subst (λ w. node_parent c w ≡ some surviving) (sym ((eq_iff p id).0 f)) found in
        ground (arith, at, n)
    | inr f ↦
        let other : str_eq id p ≡ false = str_eq_comm id p ∙ f in
        let orphaned : node_parent c' p ≡ none = same p ∙ rw (other, n) refl in
        rw f (orphan e orphaned, orphan e orphaned)
  ]
  lifted_chain c c' id surviving named found same p (up {q = q} e n ch) =
      let (here, above) = lifted_chain c c' id surviving named found same q ch in
      elim (Bool-cases (str_eq p id)) [
        | inl f ↦
            let equal = (eq_iff p id).0 f in
            let at : node_parent c p ≡ some surviving =
              subst (λ w. node_parent c w ≡ some surviving) (sym equal) found in
            let to : q ≡ surviving = some-injective q surviving (sym n ∙ at) in
            let turned : str_eq id p ≡ true = str_eq_comm id p ∙ f in
            let gone : node_parent c' p ≡ none = same p ∙ rw turned refl in
            rw f (orphan e gone, subst (Chain (node_parent c')) to here)
        | inr f ↦
            let other : str_eq id p ≡ false = str_eq_comm id p ∙ f in
            let next : node_parent c' p ≡ some (lifted_parent id surviving q) =
              same p ∙ rw (other, n) refl in
            rw f (up e next above, up e next above)
      ]

  pub lift_children-IsAcyclic :
      (c : Config T) (id : String) (g : Group T)
      → is_empty id ≡ false
      → group_by_id c id ≡ some g
      → HasOnce id c.groups
      → find_device c.devices id ≡ none
      → IsAcyclic c
      → IsAcyclic (lift_children c id g.parent_id)
  unfolding node_parent
  lift_children-IsAcyclic c id g named found once absent acyclic p =
      (lifted_chain c (lift_children c id g.parent_id) id g.parent_id named
        (rw (node_parent, found) refl)
        (λ q. node_parent-lift_children c id g.parent_id q once absent) p (acyclic p)).0
