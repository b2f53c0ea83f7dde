-- ===== src/PointStreamer/Channels/Merged.antt =====
-- The clouds of groups that src/point_streamer/stream_channels.cc collects.
use pointcaster.Prelude.{◌++◌, ◌<◌, String, Option, none, some, List, [], ◌∷◌}
use pointcaster.PointCloud.{PointCloud, size}
use pointcaster.PointCloud.Sizes.{IsValid}
use pointcaster.PointStreamer.Channels.{Plugin, plugin_cloud}

module _ {F : Type 0} where
  abbrev pub IsCloud : Option (PointCloud F) → Type 0
  IsCloud none = Unit {0}
  IsCloud (some cloud) = IsValid cloud

  abbrev pub AreClouds : List (Option (Plugin F)) → Type 0
  AreClouds [] = Unit {0}
  AreClouds (none ∷ ps) = AreClouds ps
  AreClouds (some p ∷ ps) = IsCloud p.point_cloud × AreClouds ps

  -- A merged cloud is valid and not empty.
  abbrev pub IsMerged : Option (PointCloud F) → Type 0
  IsMerged none = Unit {0}
  IsMerged (some cloud) = IsValid cloud × (0 < size cloud)

module _ {F A : Type 0} (read : PointCloud F → List A) where
  abbrev pub contents : Option (PointCloud F) → List A
  contents none = []
  contents (some cloud) = read cloud

  -- What is read of the clouds of the devices of some ids, one after the other.
  unfoldable pub contents_of : List (Option (Plugin F)) → List String → List A
  contents_of ps [] = []
  contents_of ps (id ∷ ids) = contents (plugin_cloud id ps) ++ contents_of ps ids
