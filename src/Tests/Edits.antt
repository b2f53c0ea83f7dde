-- ===== src/Tests/Edits.antt =====
-- Renaming and deleting the camera of a workspace with the groups `stage` and, inside it, `left`.
use pointcaster.Prelude.{ℕ, ◌≡◌, String, refl, some, [], ◌∷◌, map}
use pointcaster.DeviceTree.{Config, contains, find_device, group_by_id, group_index_by_id}
use pointcaster.DeviceTree.Walks.{
  device_address, label_and_parent, label_loop, join_address, label_or_id,
}
use pointcaster.DeviceTree.Edits.Paths.{
  node_path_prefix, reroot_node_paths, reroot_paths_between, reroot_paths, under_prefix,
  strip_prefix, starts_with_slash, insert, erase_node_paths, erase_paths,
}
use pointcaster.DeviceTree.Edits.Rerooted.{rerooted}
use pointcaster.DeviceTree.Edits.Rename.{
  LabelState, relabel, apply_label, renamed, label_states, label_states-redo_undo,
}
use pointcaster.DeviceTree.Edits.Delete.{
  without, remove_device, erase_session_node_state, delete_device,
}
use pointcaster.Tests.DeviceTree.{camera, workspace}

prefix_before : node_path_prefix 4 workspace "cam" ≡ some "device/Stage/left/cam"
unfolding node_path_prefix device_address label_and_parent label_loop join_address label_or_id
    group_by_id group_index_by_id find_device
prefix_before = refl

prefix_after :
    node_path_prefix 4 (renamed workspace "cam" "Front") "cam" ≡ some "device/Stage/left/Front"
unfolding node_path_prefix device_address label_and_parent label_loop join_address label_or_id
    group_by_id group_index_by_id find_device relabel
prefix_after = refl

states :
    label_states 4 workspace "cam" "Front"
    ≡ some (
        some (
          record {
            label = "";
            publish_paths = "device/Stage/left/cam/transform" ∷ [];
            push_paths = [];
          },
          record {
            label = "Front";
            publish_paths = "device/Stage/left/Front/transform" ∷ [];
            push_paths = [];
          },
        ))
unfolding label_states node_path_prefix device_address label_and_parent label_loop join_address
    label_or_id group_by_id group_index_by_id find_device relabel reroot_node_paths
    reroot_paths_between reroot_paths under_prefix strip_prefix starts_with_slash insert contains
states = refl

label_states-redo_undo_example :
    (before : LabelState) × (after : LabelState) × (label_states 4 workspace "cam" "Front"
      ≡ some (some (before, after)))
    × (apply_label workspace "cam" before ≡ workspace)
    × ((q : String)
        → contains (apply_label workspace "cam" after).publish_paths q
          ≡ contains
              (map
                (rerooted "device/Stage/left/cam" "device/Stage/left/Front")
                workspace.publish_paths)
              q)
    × ((q : String)
        → contains (apply_label workspace "cam" after).push_paths q
          ≡ contains
              (map
                (rerooted "device/Stage/left/cam" "device/Stage/left/Front")
                workspace.push_paths)
              q)
    × ((apply_label workspace "cam" after).render_paths ≡ workspace.render_paths)
unfolding find_device
label_states-redo_undo_example =
    label_states-redo_undo 4 workspace "cam" "Front" "device/Stage/left/cam"
      "device/Stage/left/Front" (camera "cam" "left") refl refl prefix_before prefix_after

abbrev bare : Config ℕ
bare = record workspace { devices = camera "top" "stage" ∷ []; publish_paths = [] }

deleted : delete_device 4 workspace "cam" ≡ some bare
unfolding delete_device erase_session_node_state remove_device node_path_prefix device_address
    label_and_parent label_loop join_address label_or_id group_by_id group_index_by_id find_device
    erase_node_paths erase_paths under_prefix strip_prefix starts_with_slash
deleted = refl

forgotten : without "cam" ("stage" ∷ "cam" ∷ []) ≡ "stage" ∷ []
unfolding without
forgotten = refl
