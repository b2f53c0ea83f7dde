-- ===== src/Tests/Moves.antt =====
-- Moves of nodes and rewritten paths in the workspace of the device tree's tests.
use pointcaster.Prelude.{ℕ, ◌≡◌, String, refl, true, some, [], ◌∷◌}
use pointcaster.Prelude.Int.{pos}
use pointcaster.DeviceTree.{
  Config, node_parent, contains, group_by_id, find_device, group_index_by_id,
}
use pointcaster.DeviceTree.Walks.{
  effective_session_enabled, device_address, label_and_parent, enabled_loop, in_any_session,
  all_node_ids, label_loop, join_address, label_or_id,
}
use pointcaster.DeviceTree.Edits.{
  move_device_node, new_order, siblings, update_group, update_devices, insert_sibling, stable_sort,
  insertion_index, ordered_from, set_parent, set_order, inside_loop, sibling_groups,
  sibling_devices, assign_orders, reparent,
}
use pointcaster.DeviceTree.Edits.Paths.{
  node_path_prefix, reroot_node_paths, reroot_paths_between, strip_prefix, under_prefix, insert,
  erase_paths, reroot_paths, starts_with_slash,
}
use pointcaster.DeviceTree.Edits.Parents.{IsAcyclic}
use pointcaster.DeviceTree.Edits.Returns.{move_device_node-returns}
use pointcaster.Tests.DeviceTree.{camera, workspace, workspace-IsAcyclic}

abbrev moved : Config ℕ
moved = record workspace {
  devices =
      record (camera "cam" "stage") { order = pos 2 }
      ∷ record (camera "top" "stage") { order = pos 1 }
      ∷ [];
  publish_paths = "device/Stage/cam/transform" ∷ [];
}

camera_moves : move_device_node 4 workspace "cam" "stage" "" ≡ some moved
unfolding move_device_node node_parent group_by_id group_index_by_id find_device node_path_prefix
    device_address label_and_parent label_or_id label_loop join_address inside_loop
    reroot_node_paths reroot_paths_between reroot_paths under_prefix strip_prefix starts_with_slash
    insert contains reparent new_order assign_orders set_order set_parent siblings stable_sort
    insert_sibling insertion_index ordered_from sibling_groups sibling_devices update_group
    update_devices
camera_moves = refl

move_device_node-returns_example :
    (f : ℕ) × (c' : Config ℕ) × (move_device_node f workspace "cam" "stage" "" ≡ some c')
    × IsAcyclic c'
move_device_node-returns_example =
    move_device_node-returns workspace "cam" "stage" "" workspace-IsAcyclic

-- A group does not move into the group inside it.
group_stays : move_device_node 4 workspace "stage" "left" "" ≡ some workspace
unfolding move_device_node node_parent group_by_id group_index_by_id find_device node_path_prefix
    device_address label_and_parent label_or_id label_loop join_address inside_loop
group_stays = refl

any_session : in_any_session 3 workspace (("stage" ∷ []) ∷ ("top" ∷ []) ∷ []) "cam" ≡ some true
unfolding in_any_session effective_session_enabled node_parent group_by_id group_index_by_id
    find_device enabled_loop contains
any_session = refl

node_ids : all_node_ids workspace ≡ "cam" ∷ "top" ∷ "stage" ∷ "left" ∷ []
unfolding all_node_ids
node_ids = refl

abbrev old_prefix : String
old_prefix = "device/Stage/left/cam"

erased_path : erase_paths workspace.publish_paths old_prefix ≡ []
unfolding erase_paths under_prefix strip_prefix starts_with_slash
erased_path = refl
