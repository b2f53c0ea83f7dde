-- ===== src/Tests/Channels.antt =====
-- Streams and members of the workspace of the device tree's tests, and its sessions.
use pointcaster.Prelude.{
  ℕ, ◌≡◌, String, Bool, true, Option, none, some, List, [], ◌∷◌, str_eq, arith, inl, inr,
  Bool-cases,
}
use pointcaster.DeviceTree.{Config, Group, node_parent, find_device, contains, group_parent}
use pointcaster.DeviceTree.Walks.{label_or_id}
use pointcaster.PointCloud.{PointCloud}
use pointcaster.PointStreamer.Channels.{Plugin}
use pointcaster.Workspace.Membership.{
  Member, refresh_device_session_membership, AreMembers, refresh-AreMembers,
}
use pointcaster.Workspace.Sessions.{SessionConfig, Sessions, sync_sessions, find_session}
use pointcaster.Workspace.Sessions.Left.{config_of, IsLeft, sync_sessions-IsLeft, HasNoNull}
use pointcaster.Tests.PointCloud
use pointcaster.Tests.DeviceTree.{workspace, left_chain, stage_chain, cam_parent}

abbrev plugins : List (Option (Plugin ℕ))
plugins =
    some (record { id = "cam"; point_cloud = some PointCloud.left })
    ∷ none
    ∷ some (record { id = "top"; point_cloud = none })
    ∷ []

abbrev members : List (Option Member)
members = none ∷ some (record { id = "cam"; in_any_session = true }) ∷ []

refresh-AreMembers_example :
    (ds : List (Option Member)) × (changed : List (String × Bool))
    × (refresh_device_session_membership 3 workspace members ≡ some (ds, changed))
    × AreMembers 3 workspace ds
    × (refresh_device_session_membership 3 workspace ds ≡ some (ds, []))
unfolding left_chain stage_chain
refresh-AreMembers_example =
    refresh-AreMembers 3 workspace members (("left", left_chain, cam_parent, omega arith), tt)

abbrev opened : Sessions ℕ
opened = record {
  sessions =
      ("a", some (record { instance_id = 4; config = record { id = "a"; settings = 1 } }))
      ∷ ("b", some (record { instance_id = 5; config = record { id = "b"; settings = 2 } }))
      ∷ [];
  deleted_sessions = [];
  next_instance = 6;
}

-- `a` changes, `c` is new and `b` is gone.
abbrev configured : List (SessionConfig ℕ)
configured = record { id = "c"; settings = 7 } ∷ record { id = "a"; settings = 8 } ∷ []

opened-HasNoNull : HasNoNull opened.sessions
unfolding find_session
opened-HasNoNull q h = elim (Bool-cases (str_eq "a" q)) [
  | inl e ↦ ground (arith, e, h)
  | inr e ↦ elim (Bool-cases (str_eq "b" q)) [
    | inl f ↦ ground (arith, e, f, h)
    | inr f ↦ ground (arith, e, f, h)
  ]
]

sync_sessions-IsLeft_example :
    ((q : String)
      → IsLeft
          (config_of configured q)
          (find_session opened.sessions q)
          (find_session (sync_sessions configured opened).sessions q))
    × HasNoNull (sync_sessions configured opened).sessions
sync_sessions-IsLeft_example = sync_sessions-IsLeft configured opened opened-HasNoNull
