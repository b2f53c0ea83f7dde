-- ===== src/Tests/Groups.antt =====
-- Deleting the group `left` of the workspace, whose camera moves up to the group `stage`.
use mathlib.Core.Option
use pointcaster.Prelude.{ℕ, ◌≡◌, String, true, none, some, [], ◌∷◌, refl, str_eq, if◌then◌else◌}
use pointcaster.DeviceTree.{
  Config, contains, find_device, group_by_id, group_index_by_id, index_from, node_parent,
}
use pointcaster.DeviceTree.Lookup.{find_group}
use pointcaster.DeviceTree.Walks.{
  device_address, label_and_parent, label_loop, join_address, label_or_id,
}
use pointcaster.DeviceTree.Edits.Parents.{IsAcyclic}
use pointcaster.DeviceTree.Edits.Paths.{
  node_path_prefix, reroot_node_paths, reroot_paths_between, reroot_paths, under_prefix,
  strip_prefix, starts_with_slash, insert, erase_node_paths, erase_paths,
}
use pointcaster.DeviceTree.Edits.Delete.{erase_session_node_state, NoneHolds}
use pointcaster.DeviceTree.Edits.Groups.{
  delete_device_group, lifted_parent, child_ids, child_groups, child_devices, child_prefixes,
  reroot_children, lift_children, lift_groups, lift_devices, remove_group,
}
use pointcaster.DeviceTree.Edits.Groups.Deleted.{delete_device_group-returns}
use pointcaster.Tests.DeviceTree.{left, workspace, workspace-IsAcyclic}

paths_follow :
    Option.map (λ r. r.1.publish_paths) (delete_device_group 6 workspace "left")
    ≡ some ("device/Stage/cam/transform" ∷ [])
unfolding delete_device_group child_ids child_groups child_devices child_prefixes reroot_children
    lift_children lift_groups lift_devices remove_group erase_session_node_state erase_node_paths
    erase_paths node_path_prefix device_address label_and_parent label_loop join_address label_or_id
    group_by_id group_index_by_id index_from find_device reroot_node_paths reroot_paths_between
    reroot_paths under_prefix strip_prefix starts_with_slash insert contains
paths_follow = refl

delete_device_group-returns_example :
    (f : ℕ) × (c' : Config ℕ) × (delete_device_group f workspace "left" ≡ some (true, c'))
    × ((q : String)
        → node_parent c' q ≡ (
            if str_eq "left" q
            then none
            else Option.map (lifted_parent "left" "stage") (node_parent workspace q)))
    × NoneHolds "left" c'.sessions
    × IsAcyclic c'
unfolding group_by_id group_index_by_id find_group remove_group find_device
delete_device_group-returns_example =
    delete_device_group-returns workspace "left" left refl refl refl refl workspace-IsAcyclic
