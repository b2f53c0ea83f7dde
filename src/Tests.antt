-- ===== src/Tests.antt =====
-- Tests on small inputs, and each theorem with hypotheses applied to an input that meets them.
mod DeviceTree
mod Moves
mod Create
mod Edits
mod Session
mod Pipeline
mod Registry
mod Recorder
mod PlyLoader
mod Labels
mod PointCloud
mod Workspace
mod Update
mod Groups
mod FrameTasks
mod PointReceiver
mod PointStreamer
mod Attributes
mod PlyLayout
mod Channels
