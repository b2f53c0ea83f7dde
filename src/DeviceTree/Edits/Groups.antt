-- ===== src/DeviceTree/Edits/Groups.antt =====
-- `deleteDeviceGroup` of src/ui/models/workspace_model.cc. The children of the group move up to its
-- parent, and their registry paths with them.
pub mod Lifted
pub mod Deleted
use pointcaster.Prelude.{
  ℕ, String, Bool, true, false, Option, none, some, List, [], ◌∷◌, ◌++◌, str_eq, if◌then◌else◌,
}
use pointcaster.DeviceTree.{Config, Group, Device, group_by_id}
use pointcaster.DeviceTree.Edits.Paths.{node_path_prefix, reroot_node_paths, erase_node_paths}
use pointcaster.DeviceTree.Edits.Delete.{erase_session_node_state}

-- The parent that a node gets when the group `id` gives its children to `surviving`.
abbrev pub lifted_parent : String → String → String → String
lifted_parent id surviving p = if str_eq p id then surviving else p

unfoldable pub lift_devices : String → String → List Device → List Device
lift_devices id surviving [] = []
lift_devices id surviving (d ∷ ds) =
    record d { parent_id = lifted_parent id surviving d.parent_id } ∷ lift_devices id surviving ds

unfoldable pub child_devices : String → List Device → List String
child_devices id [] = []
child_devices id (d ∷ ds) =
    let rest = child_devices id ds in if str_eq d.parent_id id then d.id ∷ rest else rest

module _ {T : Type 0} where
  unfoldable pub lift_groups : String → String → List (Group T) → List (Group T)
  lift_groups id surviving [] = []
  lift_groups id surviving (g ∷ gs) =
      record g { parent_id = lifted_parent id surviving g.parent_id } ∷ lift_groups id surviving gs

  unfoldable pub child_groups : String → List (Group T) → List String
  child_groups id [] = []
  child_groups id (g ∷ gs) =
      let rest = child_groups id gs in if str_eq g.parent_id id then g.id ∷ rest else rest

  -- The group found by its index is erased.
  unfoldable pub remove_group : String → List (Group T) → List (Group T)
  remove_group id [] = []
  remove_group id (g ∷ gs) =
      let rest = remove_group id gs in if str_eq g.id id then gs else g ∷ rest

  unfoldable pub child_ids : Config T → String → List String
  child_ids c id = child_groups id c.groups ++ child_devices id c.devices

  -- Each child with its prefix before the edit.
  unfoldable pub child_prefixes : ℕ → Config T → List String → Option (List (String × String))
  child_prefixes f c [] = some []
  child_prefixes f c (id ∷ ids) = elim (node_path_prefix f c id) [
    | none ↦ none
    | some prefix ↦ elim (child_prefixes f c ids) [
      | none ↦ none
      | some ps ↦ some ((id, prefix) ∷ ps)
    ]
  ]

  unfoldable pub reroot_children : ℕ → Config T → List (String × String) → Option (Config T)
  reroot_children f c [] = some c
  reroot_children f c ((id, previous) ∷ ps) = elim (reroot_node_paths f c previous id) [
    | none ↦ none
    | some c' ↦ reroot_children f c' ps
  ]

  unfoldable pub lift_children : Config T → String → String → Config T
  lift_children c id surviving = record c {
    groups = remove_group id (lift_groups id surviving c.groups);
    devices = lift_devices id surviving c.devices;
  }

  unfoldable pub delete_device_group : ℕ → Config T → String → Option (Bool × Config T)
  delete_device_group f c id = elim (group_by_id c id) [
    | none ↦ some (false, c)
    | some g ↦ elim (node_path_prefix f c id) [
      | none ↦ none
      | some prefix ↦ elim (child_prefixes f c (child_ids c id)) [
        | none ↦ none
        | some ps ↦ elim (reroot_children f (lift_children c id g.parent_id) ps) [
          | none ↦ none
          | some c' ↦ some (true, erase_session_node_state id (erase_node_paths c' prefix))
        ]
      ]
    ]
  ]
