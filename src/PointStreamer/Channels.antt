-- ===== src/PointStreamer/Channels.antt =====
-- `collect_point_streams` of src/point_streamer/stream_channels.cc. What the session of an id shows is
-- a parameter; a null plugin or cloud is `none`. A walk up the tree that does not end is `none`.
pub mod Merged
use pointcaster.Prelude.{
  ℕ, ◌==◌, String, Bool, true, false, Option, none, some, List, [], ◌∷◌, ◌++◌, str_eq, not,
  if◌then◌else◌,
}
use pointcaster.DeviceTree.{Config, Group, is_empty}
use pointcaster.DeviceTree.Walks.{device_address, device_ids_in_group, in_any_session}
use pointcaster.PointCloud.{Floats, PointCloud, size}
use pointcaster.PointCloud.Append.{append}

pub record Plugin (F : Type 0) : Type 0 where
  pub id : String
  pub point_cloud : Option (PointCloud F)

-- The id and the label of a session's configuration.
pub record SessionLabel : Type 0 where
  pub id : String
  pub label : String

module _ {F : Type 0} where
  unfoldable pub session_streams :
      (String → Option (PointCloud F)) → List SessionLabel → List (String × Option (PointCloud F))
  session_streams session_cloud [] = []
  session_streams session_cloud (s ∷ ss) =
      ((if not (is_empty s.label) then s.label else s.id), session_cloud s.id)
      ∷ session_streams session_cloud ss

  -- The cloud of the first device of an id.
  unfoldable pub plugin_cloud : String → List (Option (Plugin F)) → Option (PointCloud F)
  plugin_cloud id [] = none
  plugin_cloud id (none ∷ ps) = plugin_cloud id ps
  plugin_cloud id (some p ∷ ps) =
      let rest = plugin_cloud id ps in if str_eq p.id id then p.point_cloud else rest

module _ {F T : Type 0} where
  unfoldable pub device_streams :
      ℕ → Config T → List (Option (Plugin F)) → Option (List (String × Option (PointCloud F)))
  device_streams f c [] = some []
  device_streams f c (none ∷ ps) = device_streams f c ps
  device_streams f c (some p ∷ ps) =
      let others = device_streams f c ps in
      elim (in_any_session f c c.sessions p.id) [
        | none ↦ none
        | some b ↦ elim (device_address f c p.id) [
          | none ↦ none
          | some address ↦ elim others [
            | none ↦ none
            | some rest ↦ some ((address, (if b then p.point_cloud else none)) ∷ rest)
          ]
        ]
      ]

module _ {F : Type 0} (floats : Floats F) where
  -- An empty cloud is passed over; the first other is copied.
  unfoldable pub merge_into : Option (PointCloud F) → Option (PointCloud F) → Option (PointCloud F)
  merge_into merged none = merged
  merge_into none (some cloud) = if size cloud == 0 then none else some cloud
  merge_into (some sum) (some cloud) =
      if size cloud == 0 then some sum else some (append floats sum cloud)

  unfoldable pub merged_cloud :
      List (Option (Plugin F)) → List String → Option (PointCloud F) → Option (PointCloud F)
  merged_cloud ps [] merged = merged
  merged_cloud ps (id ∷ ids) merged = merged_cloud ps ids (merge_into merged (plugin_cloud id ps))

module _ {F T : Type 0} (floats : Floats F) where
  -- A group without devices has no stream.
  unfoldable pub group_stream :
      ℕ
      → Config T
      → List (Option (Plugin F))
      → Group T
      → Option (List (String × Option (PointCloud F)))
  group_stream f c ps g = elim (device_ids_in_group f c g.id) [
    | none ↦ none
    | some [] ↦ some []
    | some (id ∷ ids) ↦ elim (device_address f c g.id) [
      | none ↦ none
      | some address ↦ some ((address, merged_cloud floats ps (id ∷ ids) none) ∷ [])
    ]
  ]

  unfoldable pub group_streams :
      ℕ
      → Config T
      → List (Option (Plugin F))
      → List (Group T)
      → Option (List (String × Option (PointCloud F)))
  group_streams f c ps [] = some []
  group_streams f c ps (g ∷ gs) = elim (group_stream f c ps g) [
    | none ↦ none
    | some own ↦ elim (group_streams f c ps gs) [ none ↦ none | some rest ↦ some (own ++ rest) ]
  ]

  unfoldable pub collect_point_streams :
      ℕ
      → Config T
      → (String → Option (PointCloud F))
      → List SessionLabel
      → List (Option (Plugin F))
      → Option (List (String × Option (PointCloud F)))
  collect_point_streams f c session_cloud sessions ps = elim (device_streams f c ps) [
    | none ↦ none
    | some devices ↦ elim (group_streams f c ps c.groups) [
      | none ↦ none
      | some groups ↦ some (session_streams session_cloud sessions ++ devices ++ groups)
    ]
  ]
