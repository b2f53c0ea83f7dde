-- ===== src/Tests/Update.antt =====
-- Passes of a session's loop, with numbers in place of floats.
use pointcaster.Prelude.{
  ℕ, ◌≡◌, Bool, true, false, Option, none, some, List, [], ◌∷◌, ◌++◌, refl, arith,
}
use pointcaster.Prelude.Int.{ℤ, pos, negsuc, max_ℤ}
use pointcaster.PointCloud.{PointCloud}
use pointcaster.PointCloud.Sizes.{IsValid}
use pointcaster.Session.Update.{
  SharedCloud, DeviceView, Updating, playback_changed, fed, cloud_updated, update_once, update_pass,
  publish_length, length_changed, feed, clouds_of, clouds_changed, any_differs, aggregated,
  total_frames, has_sequence,
}
use pointcaster.Session.Update.Merged.{all_contents, update_pass-fed}
use pointcaster.Session.Update.Included.{
  AreIncluded, no_device, null_device, discovery_device, excluded_device, included_device,
}
use pointcaster.DeviceTree.Walks.{effective_session_enabled, enabled_loop}
use pointcaster.DeviceTree.{contains, node_parent, group_by_id, group_index_by_id, find_device}
use pointcaster.Tests.DeviceTree.{workspace}
use pointcaster.Tests.PointCloud.{numbers, left, left-IsValid}

abbrev shared : ℕ → PointCloud ℕ → Option (SharedCloud ℕ)
shared k cloud = some (record { pointer = k; cloud = cloud })

abbrev device : Bool → ℤ → Option (SharedCloud ℕ) → DeviceView ℕ
device sequence frames cloud = record {
  id = "d";
  is_discovery_instance = false;
  is_sequence = sequence;
  frame_count = frames;
  point_cloud = cloud;
}

-- A player, a camera without a frame yet, and another camera.
abbrev devices : List (DeviceView ℕ)
devices =
    device true (pos 12) (shared 1 left)
    ∷ device false (pos 0) none
    ∷ device false (pos 0) (shared 2 left)
    ∷ []

abbrev begun : Updating ℕ
begun = record {
  last_clouds = [];
  last_total_frames = negsuc 0;
  last_has_sequence = false;
  cached_total_frames = pos 1;
  cached_session_length = pos 1;
  cached_has_sequence = false;
  force_reprocess = false;
  has_current = false;
}

-- Without devices, the cloud that is shown is cleared.
clears :
    (update_once numbers
      (λ total. total)
      []
      (record begun {
        last_clouds = shared 1 left ∷ [];
        last_total_frames = pos 1;
        has_current = true;
      })).1
    ≡ cloud_updated ∷ []
unfolding update_once publish_length length_changed feed clouds_of clouds_changed any_differs
    total_frames has_sequence aggregated
clears = refl

-- The workspace's devices: between those that the session includes, a null one, a discovery instance
-- and one that the session has disabled.
abbrev listed : List (Option (DeviceView ℕ))
listed =
    some (device true (pos 12) (shared 1 left))
    ∷ none
    ∷ some (device false (pos 0) none)
    ∷ some (record (device true (pos 90) (shared 3 left)) { is_discovery_instance = true })
    ∷ some (record (device true (pos 80) (shared 4 left)) { id = "top" })
    ∷ some (device false (pos 0) (shared 2 left))
    ∷ []

taken : AreIncluded 3 workspace ("top" ∷ []) listed devices
unfolding effective_session_enabled enabled_loop contains node_parent group_by_id group_index_by_id
    find_device
taken = included_device (device true (pos 12) (shared 1 left)) refl refl (
    null_device (
      included_device (device false (pos 0) none) refl refl (
        discovery_device
          (record (device true (pos 90) (shared 3 left)) { is_discovery_instance = true }) refl
          (excluded_device (record (device true (pos 80) (shared 4 left)) { id = "top" }) refl refl
            (included_device (device false (pos 0) (shared 2 left)) refl refl no_device)))))

update_pass-fed_example :
    (cloud : PointCloud ℕ) × (t : Updating ℕ) × (update_pass numbers 3 workspace
        ("top" ∷ [])
        (λ total. total)
        listed
        begun
      ≡ some (t, playback_changed ∷ fed cloud ∷ []))
    × IsValid cloud
    × (cloud.positions ≡ left.positions ++ left.positions)
    × (cloud.colors ≡ left.colors ++ left.colors)
    × (t.last_clouds ≡ shared 1 left ∷ none ∷ shared 2 left ∷ [])
    × (t.force_reprocess ≡ false)
unfolding clouds_of clouds_changed publish_length length_changed total_frames has_sequence max_ℤ
    all_contents
update_pass-fed_example =
    update_pass-fed numbers 3 workspace ("top" ∷ []) (λ total. total) begun taken
      (left-IsValid, (left-IsValid, tt)) (omega arith) refl
