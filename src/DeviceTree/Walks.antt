-- ===== src/DeviceTree/Walks.antt =====
-- The four walks of src/plugins/devices/device_tree.cc up the parent chain. `while` loops run on
-- fuel, and `none` means that the fuel ran out.
pub mod Ends
pub mod Paths
use mathlib.Core.Option
use mathlib.Core.List.{reverse}
use Prim.Native.String.{◌++◌ as append}
use pointcaster.Prelude.{
  ℕ, zero, suc, String, Bool, true, false, Option, none, some, List, [], ◌∷◌, str_eq, if◌then◌else◌,
  not, map, ◌++◌,
}
use pointcaster.DeviceTree.{
  Config, Group, Device, Kind, device_kind, group_kind, is_empty, contains, group_by_id,
  find_device, node_parent,
}

-- The id that the loop over the devices reads: a group entry leaves it empty.
unfoldable pub device_id_of : Device → String
device_id_of d = elim d.kind [ device_kind ↦ d.id | group_kind ↦ "" ]

unfoldable pub label_or_id : String → String → String
label_or_id label id = if not (is_empty label) then label else id

-- `address += *label; address += '/'` over the labels in reverse, then the node's own.
unfoldable pub join_address : List String → String → String
join_address [] address = address
join_address (l ∷ ls) address = join_address ls (append (append address l) "/")

module _ {T : Type 0} where
  -- `for (ancestor_id = parent_id; !ancestor_id.empty();)` of `effective_session_enabled`.
  unfoldable pub enabled_loop : ℕ → Config T → List String → String → Option Bool
  enabled_loop zero c disabled a = none
  enabled_loop (suc f) c disabled a =
      let above : Option Bool = elim (group_by_id c a) [
        | none ↦ some true
        | some g ↦ enabled_loop f c disabled g.parent_id
      ] in
      if is_empty a then some true else if contains disabled a then some false else above

  unfoldable pub effective_session_enabled : ℕ → Config T → List String → String → Option Bool
  effective_session_enabled f c [] node = some true
  effective_session_enabled f c (x ∷ xs) node =
      if contains (x ∷ xs) node
      then some false
      else elim (node_parent c node) [ none ↦ some true | some p ↦ enabled_loop f c (x ∷ xs) p ]

  -- A session is the set of the node ids that it switches off.
  unfoldable pub in_any_session : ℕ → Config T → List (List String) → String → Option Bool
  in_any_session f c [] node = some false
  in_any_session f c (d ∷ ds) node = elim (effective_session_enabled f c d node) [
    | none ↦ none
    | some true ↦ some true
    | some false ↦ in_any_session f c ds node
  ]

  unfoldable pub all_node_ids : Config T → List String
  all_node_ids c = map (λ d. d.id) c.devices ++ map (λ g. g.id) c.groups

  -- The labels of the ancestors, the nearest first.
  unfoldable pub label_loop : ℕ → Config T → String → Option (List String)
  label_loop zero c a = none
  label_loop (suc f) c a =
      let above : Option (List String) = elim (group_by_id c a) [
        | none ↦ some []
        | some g ↦ Option.map (λ ls. label_or_id g.label g.id ∷ ls) (label_loop f c g.parent_id)
      ] in
      if is_empty a then some [] else above

  -- What the lookup at the head of `device_address` finds: the node's label and its parent.
  unfoldable pub label_and_parent : Config T → String → Option (String × String)
  unfolding label_or_id
  label_and_parent c id = elim (group_by_id c id) [
    | some g ↦ some (label_or_id g.label g.id, g.parent_id)
    | none ↦ Option.map (λ d. (label_or_id d.label d.id, d.parent_id)) (find_device c.devices id)
  ]

  unfoldable pub device_address : ℕ → Config T → String → Option String
  device_address f c id = elim (label_and_parent c id) [
    | none ↦ some id
    | some (own, parent) ↦
        Option.map (λ ls. append (join_address (reverse ls) "") own) (label_loop f c parent)
  ]

  -- `while (!current_id.empty())` of `device_ids_in_group`.
  unfoldable pub member_loop : ℕ → Config T → String → String → Option Bool
  member_loop zero c group_id a = none
  member_loop (suc f) c group_id a =
      let above : Option Bool = elim (group_by_id c a) [
        | none ↦ some false
        | some g ↦ member_loop f c group_id g.parent_id
      ] in
      if is_empty a then some false else if str_eq a group_id then some true else above

  unfoldable pub ids_in_group : ℕ → Config T → String → List Device → Option (List String)
  ids_in_group f c group_id [] = some []
  ids_in_group f c group_id (d ∷ ds) =
      let rest = ids_in_group f c group_id ds in
      if is_empty (device_id_of d) then rest else elim (member_loop f c group_id d.parent_id) [
        | none ↦ none
        | some true ↦ Option.map (λ ids. device_id_of d ∷ ids) rest
        | some false ↦ rest
      ]

  unfoldable pub device_ids_in_group : ℕ → Config T → String → Option (List String)
  device_ids_in_group f c group_id = ids_in_group f c group_id c.devices

  -- Matrices with their product are a parameter: nothing below rests on a law of theirs.
  module _ {M : Type 0} (multiply : M → M → M) (identity : M) (to_float4x4 : T → M) where
    unfoldable pub world_loop : ℕ → Config T → String → M → Option M
    world_loop zero c p world = none
    world_loop (suc f) c p world =
        let above : Option M = elim (group_by_id c p) [
          | none ↦ some world
          | some g ↦ world_loop f c g.parent_id (multiply (to_float4x4 g.transform) world)
        ] in
        if is_empty p then some world else above

    unfoldable pub effective_world_transform : ℕ → Config T → String → Option M
    effective_world_transform f c node = elim (node_parent c node) [
      | none ↦ some identity
      | some p ↦ world_loop f c p identity
    ]
