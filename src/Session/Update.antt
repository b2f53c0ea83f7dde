-- ===== src/Session/Update.antt =====
-- One pass of `update_loop` of src/session/session.cc, from the choice of the devices to the call of
-- `advance_playback`, of a session that is still in the configuration. A shared pointer to a
-- cloud is the number of its object with the cloud, or null. The exchange of the flag that forces
-- a pass and the store of the cloud shown are part of the pass.
pub mod Included
pub mod Merged
pub mod Again
use pointcaster.Prelude.{
  ℕ, ◌==◌, String, Bool, true, false, Option, none, some, List, [], ◌∷◌, ◌++◌, length,
  if◌then◌else◌, not, ◌||◌, ◌&&◌,
}
use pointcaster.Prelude.Int.{ℤ, pos, max_ℤ, eq_ℤ}
use pointcaster.DeviceTree.{Config}
use pointcaster.DeviceTree.Walks.{effective_session_enabled}
use pointcaster.PointCloud.{Floats, PointCloud, size, empty_cloud}
use pointcaster.PointCloud.Append.{append}

pub record SharedCloud (F : Type 0) : Type 0 where
  pub pointer : ℕ
  pub cloud : PointCloud F

pub record DeviceView (F : Type 0) : Type 0 where
  pub id : String
  pub is_discovery_instance : Bool
  pub is_sequence : Bool
  -- Cast to `int`.
  pub frame_count : ℤ
  pub point_cloud : Option (SharedCloud F)

-- The locals that last from pass to pass, and the members of the session that a pass reads or writes.
pub record Updating (F : Type 0) : Type 0 where
  pub last_clouds : List (Option (SharedCloud F))
  pub last_total_frames : ℤ
  pub last_has_sequence : Bool
  pub cached_total_frames : ℤ
  pub cached_session_length : ℤ
  pub cached_has_sequence : Bool
  pub force_reprocess : Bool
  -- Whether `_current_point_cloud` is not null.
  pub has_current : Bool

abbrev pub same_bool : Bool → Bool → Bool
same_bool true b = b
same_bool false b = not b

pub data Update (F : Type 0) : Type 0 where
  playback_changed : Update F
  fed : PointCloud F → Update F
  cloud_updated : Update F

module _ {F T : Type 0} where
  -- The devices that the session includes. A walk up the tree that does not end is `none`.
  unfoldable pub included :
      ℕ → Config T → List String → List (Option (DeviceView F)) → Option (List (DeviceView F))
  included f c disabled [] = some []
  included f c disabled (none ∷ devices) = included f c disabled devices
  included f c disabled (some d ∷ devices) =
      let rest = included f c disabled devices in
      if d.is_discovery_instance then rest else elim (effective_session_enabled f c disabled d.id) [
        | none ↦ none
        | some false ↦ rest
        | some true ↦ elim rest [ none ↦ none | some ds ↦ some (d ∷ ds) ]
      ]

module _ {F : Type 0} where
  unfoldable pub total_frames : ℤ → List (DeviceView F) → ℤ
  total_frames total [] = total
  total_frames total (d ∷ ds) =
      total_frames (if d.is_sequence then max_ℤ total d.frame_count else total) ds

  unfoldable pub has_sequence : List (DeviceView F) → Bool
  has_sequence [] = false
  has_sequence (d ∷ ds) = d.is_sequence || has_sequence ds

  unfoldable pub clouds_of : List (DeviceView F) → List (Option (SharedCloud F))
  clouds_of [] = []
  clouds_of (d ∷ ds) = d.point_cloud ∷ clouds_of ds

  -- Equality of the pointers.
  unfoldable pub same_cloud : Option (SharedCloud F) → Option (SharedCloud F) → Bool
  same_cloud none none = true
  same_cloud (some a) (some b) = a.pointer == b.pointer
  same_cloud _ _ = false

  unfoldable pub any_differs : List (Option (SharedCloud F)) → List (Option (SharedCloud F)) → Bool
  any_differs (a ∷ xs) (b ∷ ys) =
      let rest = any_differs xs ys in if same_cloud a b then rest else true
  any_differs _ _ = false

  unfoldable pub clouds_changed :
      List (Option (SharedCloud F)) → List (Option (SharedCloud F)) → Bool
  clouds_changed clouds last_clouds =
      not (length clouds == length last_clouds) || any_differs clouds last_clouds

module _ {F : Type 0} (resolve_length : ℤ → ℤ) where
  -- `resolve_length` is the session's, with the state of the playback.
  unfoldable pub length_changed : List (DeviceView F) → Updating F → Bool
  length_changed devices s =
      not (eq_ℤ (resolve_length (total_frames (pos 1) devices)) s.last_total_frames)
      || not (same_bool (has_sequence devices) s.last_has_sequence)

  unfoldable pub publish_length : List (DeviceView F) → Updating F → Updating F × List (Update F)
  publish_length devices s =
      let total = total_frames (pos 1) devices in
      let session_total = resolve_length total in
      let sequence = has_sequence devices in
      if length_changed devices s
      then (
        record s {
          last_total_frames = session_total;
          last_has_sequence = sequence;
          cached_total_frames = total;
          cached_session_length = session_total;
          cached_has_sequence = sequence;
        },
        playback_changed ∷ [],
      )
      else (s, [])

module _ {F : Type 0} (floats : Floats F) where
  -- A null or empty cloud is passed over.
  unfoldable pub merged_with : PointCloud F → Option (SharedCloud F) → PointCloud F
  merged_with sum none = sum
  merged_with sum (some s) = if size s.cloud == 0 then sum else append floats sum s.cloud

  unfoldable pub aggregated : PointCloud F → List (Option (SharedCloud F)) → PointCloud F
  aggregated sum [] = sum
  aggregated sum (cloud ∷ clouds) = aggregated (merged_with sum cloud) clouds

  unfoldable pub feed : List (Option (SharedCloud F)) → Updating F → Updating F × List (Update F)
  feed clouds s =
      let forced = record s { force_reprocess = false } in
      let kept = record forced { last_clouds = clouds } in
      let merged = aggregated empty_cloud clouds in
      if clouds_changed clouds s.last_clouds || s.force_reprocess
      then (if size merged == 0
          then (if s.has_current
              then (record kept { has_current = false }, cloud_updated ∷ [])
              else (kept, []))
          else (kept, fed merged ∷ []))
      else (forced, [])

  unfoldable pub update_once :
      (ℤ → ℤ) → List (DeviceView F) → Updating F → Updating F × List (Update F)
  update_once resolve_length devices s =
      let (s', published) = publish_length resolve_length devices s in
      let (s'', updates) = feed (clouds_of devices) s' in (s'', published ++ updates)

module _ {F T : Type 0} (floats : Floats F) where
  -- The pass over the workspace's devices.
  unfoldable pub update_pass :
      ℕ
      → Config T
      → List String
      → (ℤ → ℤ)
      → List (Option (DeviceView F))
      → Updating F
      → Option (Updating F × List (Update F))
  update_pass f c disabled resolve_length devices s = elim (included f c disabled devices) [
    | none ↦ none
    | some ds ↦ some (update_once floats resolve_length ds s)
  ]
