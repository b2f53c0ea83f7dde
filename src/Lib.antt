-- ===== src/Lib.antt =====
-- Pointcaster: a workspace of depth cameras and point cloud players, arranged in a tree of groups,
-- whose clouds are merged by sessions and processed by a pipeline of operators.
--
-- The parts and how they interact:
--
-- * DeviceTree (src/plugins/devices/device_tree.cc, src/ui/models/workspace_model.cc): devices and
--   groups name their parent by its id. Walks up the parents give a node's address, its world
--   transform, its membership of a group and whether a session includes it (DeviceTree/Walks).
--   moveDeviceNode is move_device_node (DeviceTree/Edits), deleteDevice is delete_device
--   (DeviceTree/Edits/Delete), deleteDeviceGroup is delete_device_group (DeviceTree/Edits/Groups),
--   createDeviceGroup is create_device_group (DeviceTree/Edits/Create),
--   setDeviceLabel and its undo command are in DeviceTree/Edits/Rename,
--   and the sets of registry paths that follow a node are in DeviceTree/Edits/Paths.
-- * Session (src/session/session.cc): the playback clock, advance_playback and the methods that the
--   window calls (Session/Playback), and scrub_devices, which the clock calls with its frame
--   (Session/Scrub). It reads device membership from the tree. A pass of update_loop, which merges
--   the clouds of the devices that the session includes and feeds them to the pipeline, is update_pass
--   (Session/Update).
-- * Pipeline (src/pipeline/concurrent_operator_pipeline.cc): the session submits each merged cloud;
--   worker threads take frames from a bounded queue, process them and show the newest. A step of
--   Pipeline/Steps is one access to shared state by one thread, and a run is any sequence of them.
-- * Registry (src/config/config_registry.cc): every field of the configuration by its path, with
--   get, set, and subscriptions that `set` notifies. The paths are those that DeviceTree builds.
-- * Recorder (src/recorder/session_recorder.cc): the thread that samples the devices and the thread
--   that writes them to files, as steps on the queue and the counters that they share.
-- * PlyLoader (src/plugins/devices/ply/ply_sequence_loader.cc): the ring of decoded frames behind a
--   device that plays a directory of files: the accesses of its threads to the ring as steps
--   (PlyLoader/Steps), and the arithmetic of the frames to prefetch (PlyLoader/Window). The frame asked
--   for is the one to which the session's clock scrubs the device.
-- * PlyLayout (src/plugins/devices/ply/ply_layout.cc, src/config/attribute_config.h): how the loader
--   decodes a file into a point cloud: the numbers (PlyLayout/Numbers), which properties become
--   attributes (PlyLayout/Targets), the vertices of binary and text files (PlyLayout/Files) and
--   read_point_cloud (PlyLayout/Clouds).
-- * PointCloud (include/pointcaster/point_cloud.h, src/core/point_cloud.cc): a cloud with its named
--   attributes, operator+= by which a session merges the clouds of its devices (PointCloud/Append),
--   and gather_attributes_into by which operators keep attributes in step with the points.
-- * Workspace (src/workspace/workspace.cc, src/plugins/operators/operator_host.cc): sync_devices and
--   sync_operators, which bring the plugin instances in line with the configuration, sync_sessions
--   (Workspace/Sessions) and refresh_device_session_membership (Workspace/Membership). Clouds and the
--   instances are values here: which object a pointer is to is a number.
-- * FrameTasks (src/plugins/devices/device_plugin.h): the slots that bound the frames that a device
--   processes at a time, as steps of the threads that claim and release them.
-- * Wire (src/point_streamer/point_streamer.cc, src/pointreceiver/pointreceiver.cc): addresses and
--   frames as bytes, the maps from addresses, and the buffers of callers (Wire/Buffer).
-- * PointStreamer (src/point_streamer/point_streamer.cc): a tick of the thread that sends the clouds
--   to clients: which streams are sent, when, and what is kept of them. The streams there are, of
--   sessions, devices and groups, are collected in PointStreamer/Channels
--   (src/point_streamer/stream_channels.cc).
-- * PointReceiver (src/pointreceiver/pointreceiver.cc): the library that clients call. Its two threads
--   and its calls are functions on the context that they share: the clouds (PointReceiver/Frames), the
--   subscriptions and the other calls. It reads the frames that PointStreamer sends. The attributes of a
--   cloud that it passes out, and their copy as floats, are in PointReceiver/Attributes.
-- * Labels (src/core/util/string_utils.h): the label that a new node is given.
--
-- Conventions. `int` is ℤ and `size_t` or `uint64_t` is ℕ where the code cannot reach the bound
-- without first exceeding the memory or 2^63 frames; signed overflow is undefined in the source. The
-- accumulator of the clock is a parameter with the operations that the clock uses. Matrices, and the
-- clouds of the pipeline, are parameters. A `std::set` is a list. An index that is -1 when nothing is
-- found is an Option. The unique id and the transform of a new group are parameters. The
-- `float` of point clouds is a record of the operations used.
--
-- Fuel. The walks up the parents run on fuel and return `none` when it runs out. Fuel above the length
-- of the parent chain is enough; on a chain with a cycle no fuel is, as the source's loop does not end.
-- The search for a label needs as many tries as there are labels, and one more.
--
-- Not modelled: the window, its models and undo commands other than the tree edits; camera devices,
-- and of file devices all but the ring and the decoding of files; operators, backends and codecs; the
-- bytes of recorded files; publishers and the OSC receiver. The code behind them is mostly input,
-- output, floating point and calls of libraries. What miniply reads of a file's header and text is a
-- parameter, as is whether the file can be opened and mapped. Sockets are whether they are there, what
-- they deliver, which sends succeed and what is sent or set; whether a recorded file can be opened is
-- left to the run; times are whether they have come. The rebuild and signals after an
-- edit are left out of the edit's model, as are the locks and the logging of sync_devices and
-- sync_operators. A configuration that a device gets in sync_devices is kept by the device, as
-- DevicePlugin::update_config does; what each plugin does with it further is not modelled. compress and
-- decompress of a cloud are parameters. An exception in a call of PointReceiver is a call of its own:
-- one at the call's start, or one while a cloud's attributes are copied.
mod Prelude
pub mod DeviceTree
pub mod Session
pub mod Pipeline
pub mod Registry
pub mod Recorder
pub mod PlyLoader
pub mod PlyLayout
pub mod Labels
pub mod PointCloud
pub mod Workspace
pub mod FrameTasks
pub mod Wire
pub mod PointReceiver
pub mod PointStreamer
mod Tests
