-- ===== src/PointStreamer.antt =====
-- The streaming thread of src/point_streamer/point_streamer.cc. A shared pointer to a cloud is a
-- number; whether its cloud is empty, and its bytes compressed with a configuration of the codec,
-- which is a number too, are parameters, and so is which sends succeed.
pub mod Entries
pub mod Passed
pub mod View
pub mod Channels
use pointcaster.Prelude.{
  ℕ, suc, ◌-◌, Bool, true, false, Option, none, some, List, [], ◌∷◌, ◌++◌, ◌==◌, ltb, not, ◌&&◌,
  ◌||◌, if◌then◌else◌,
}
use pointcaster.Prelude.Int.{ℤ, pos, max_ℤ, eq_ℤ, ◌*ℤ◌}
use pointcaster.Wire.{Bytes, bytes_eq, starts_with, framed, subscribed_topic, is_nil}
use pointcaster.Wire.Maps.{find, assign, erase, selected, assign_all}

-- The clouds behind the pointers, and the one that the thread makes for streams that stop.
pub record Clouds : Type 0 where
  pub cloud_empty : ℕ → Bool
  -- by the configuration of the codec and the cloud
  pub compress : ℕ → ℕ → Bytes
  pub stopped_cloud : ℕ

pub record SocketSettings : Type 0 where
  pub address : Bytes
  pub port : ℤ
  pub send_high_water_mark : ℤ

-- The variables of the thread that last from tick to tick.
pub record Streaming : Type 0 where
  pub pub_socket : Bool
  pub attempted_settings : SocketSettings
  pub last_clouds : List (Bytes × ℕ)
  pub last_data : List (Bytes × Bytes)
  pub subscriber_counts : List (Bytes × ℕ)
  pub subscriber_counts_dirty : Bool
  pub newly_subscribed_addresses : List Bytes
  -- What the counts' readers see.
  pub subscriber_counts_out : Option (List (Bytes × ℕ))

-- The configuration read at a tick, and the streams collected.
pub record Settings : Type 0 where
  pub address : Bytes
  pub port : ℤ
  -- The ticks in a second: it sets the wait between ticks only.
  pub publish_hz : ℤ
  pub codec_config : ℕ
  pub publish_every_frame : Bool
  pub max_queued_frames : Option ℤ
  pub channels : List (Bytes × Bool)
  pub point_streams : List (Bytes × Option ℕ)

abbrev pub or_zero : Option ℕ → ℕ
or_zero none = 0
or_zero (some n) = n

abbrev or_true : Option Bool → Bool
or_true none = true
or_true (some b) = b

-- A channel without a configuration is on.
unfoldable pub channel_enabled : List (Bytes × Bool) → Bytes → Bool
channel_enabled channels address = or_true (find channels address)

unfoldable pub has_subscriber : List (Bytes × ℕ) → Bytes → Bool
has_subscriber [] address = false
has_subscriber ((topic, count) ∷ counts) address =
    (ltb 0 count && starts_with address topic) || has_subscriber counts address

unfoldable pub handle_subscriber_message : Bytes → Streaming → Streaming
handle_subscriber_message [] s = s
handle_subscriber_message (kind ∷ rest) s =
    let topic = subscribed_topic rest in
    let count = or_zero (find s.subscriber_counts topic) in
    let counted : ℕ → List Bytes → Streaming = λ n new. record s {
      subscriber_counts = assign topic n s.subscriber_counts;
      newly_subscribed_addresses = new;
      subscriber_counts_dirty = true;
    } in
    if kind == 1
    then counted (suc count) (s.newly_subscribed_addresses ++ topic ∷ [])
    else counted (count - 1) s.newly_subscribed_addresses

unfoldable pub handle_messages : List Bytes → Streaming → Streaming
handle_messages [] s = s
handle_messages (m ∷ ms) s = handle_messages ms (handle_subscriber_message m s)

unfoldable pub enabled_channel_count : Settings → List (Bytes × Option ℕ) → ℕ
enabled_channel_count c [] = 0
enabled_channel_count c ((address, cloud) ∷ streams) =
    let rest = enabled_channel_count c streams in
    if channel_enabled c.channels address then suc rest else rest

unfoldable pub queued_frame_limit : Settings → ℤ
queued_frame_limit c = elim c.max_queued_frames [
  | some value ↦ max_ℤ value (pos 1)
  | none ↦ max_ℤ (pos 2 *ℤ pos (enabled_channel_count c c.point_streams)) (pos 2)
]

unfoldable pub socket_settings : Settings → SocketSettings
socket_settings c = record {
  address = if is_nil c.address then 42 ∷ [] else c.address;
  port = c.port;
  send_high_water_mark = queued_frame_limit c;
}

unfoldable pub same_settings : SocketSettings → SocketSettings → Bool
same_settings s t =
    bytes_eq s.address t.address
    && (eq_ℤ s.port t.port && eq_ℤ s.send_high_water_mark t.send_high_water_mark)

-- A socket is bound when the settings differ from those last tried, or when a retry is due.
unfoldable pub connect : (SocketSettings → Bool) → Bool → Settings → Streaming → Streaming
connect binds retry_time c s =
    let settings = socket_settings c in
    if not (same_settings settings s.attempted_settings) || (not s.pub_socket && retry_time)
    then record s {
      pub_socket = binds settings;
      attempted_settings = settings;
      subscriber_counts = [];
      newly_subscribed_addresses = [];
      subscriber_counts_dirty = true;
    }
    else s

-- The addresses for which a test holds.
unfoldable pub addresses_where {ℓ} : {V : Type ℓ} → (Bytes → Bool) → List (Bytes × V) → List Bytes
addresses_where f [] = []
addresses_where f ((a, v) ∷ m) = let rest = addresses_where f m in if f a then a ∷ rest else rest

unfoldable pub erase_all {ℓ} : {V : Type ℓ} → List Bytes → List (Bytes × V) → List (Bytes × V)
erase_all [] m = m
erase_all (a ∷ rest) m = erase_all rest (erase a m)

unfoldable pub any_topic : List Bytes → Bytes → Bool
any_topic [] address = false
any_topic (t ∷ ts) address = starts_with address t || any_topic ts address

module _ (clouds : Clouds) where
  open clouds use {cloud_empty, compress, stopped_cloud}

  abbrev pub publishes : Settings → Streaming → Bytes → Option ℕ → Option (Option ℕ)
  publishes c s address cloud =
      if has_subscriber s.subscriber_counts address && channel_enabled c.channels address
      then some cloud
      else none

  unfoldable pub publishing : Settings → Streaming → List (Bytes × Option ℕ)
  publishing c s = selected (publishes c s) c.point_streams

  -- The cloud of a stream that is there and not empty.
  abbrev pub shown_cloud : Option (Option ℕ) → Option ℕ
  shown_cloud none = none
  shown_cloud (some none) = none
  shown_cloud (some (some cloud)) = if cloud_empty cloud then none else some cloud

  abbrev pub is_none : Option ℕ → Bool
  is_none none = true
  is_none (some cloud) = false

  unfoldable pub stopped_streams : List (Bytes × Option ℕ) → Streaming → List Bytes
  stopped_streams streams s =
      addresses_where (λ address. is_none (shown_cloud (find streams address))) s.last_clouds

  -- A stopped stream gets the empty cloud, in its place or at the end.
  unfoldable pub with_stopped : List Bytes → List (Bytes × Option ℕ) → List (Bytes × Option ℕ)
  with_stopped [] streams = streams
  with_stopped (a ∷ rest) streams = with_stopped rest (assign a (some stopped_cloud) streams)

  unfoldable pub same_cloud : Option ℕ → ℕ → Bool
  same_cloud none cloud = false
  same_cloud (some last) cloud = last == cloud

  abbrev pub dirty_cloud : List (Bytes × ℕ) → Bytes → Option ℕ → Option ℕ
  dirty_cloud last address none = none
  dirty_cloud last address (some cloud) =
      if cloud_empty cloud && not (cloud == stopped_cloud)
      then none
      else if same_cloud (find last address) cloud
      then none
      else some cloud

  unfoldable pub streams_to_serialize :
      List (Bytes × Option ℕ) → List (Bytes × ℕ) → List (Bytes × ℕ)
  streams_to_serialize streams last = selected (dirty_cloud last) streams

  abbrev pub frame_of : ℕ → Bytes → ℕ → Option Bytes
  frame_of codec address cloud = some (framed address (compress codec cloud))

  abbrev pub sendable : Option Bytes → Option Bytes
  sendable none = none
  sendable (some frame) = if is_nil frame then none else some frame

  -- The message sent for a stream, if any.
  abbrev pub message_of :
      Bool → List (Bytes × ℕ) → List Bytes → List (Bytes × Bytes) → Bytes → Option ℕ → Option Bytes
  message_of every changed new frames address cloud =
      if every || not (is_none (find changed address)) || any_topic new address
      then sendable (find frames address)
      else none

  -- A send that throws loses its message; the caches stay as after one that succeeds.
  abbrev pub delivered : (Bytes → Bool) → Bytes → Bytes → Option Bytes
  delivered sends address frame = if sends address then some frame else none

  -- The part of a tick after the messages of subscribers, with the messages sent. `sends` tells for
  -- which addresses `pub_socket->send` does not throw.
  unfoldable pub stream_pass :
      (Bytes → Bool) → Settings → Streaming → Streaming × List (Bytes × Bytes)
  stream_pass sends c s =
      let streams = publishing c s in
      let stopped = stopped_streams streams s in
      let streams' = with_stopped stopped streams in
      let changed = streams_to_serialize streams' s.last_clouds in
      let clouds = assign_all changed s.last_clouds in
      let frames = assign_all (selected (frame_of c.codec_config) changed) s.last_data in
      (
        record s {
          last_clouds = erase_all stopped clouds;
          last_data = erase_all stopped frames;
          newly_subscribed_addresses = [];
          subscriber_counts_out =
              if s.subscriber_counts_dirty
              then some s.subscriber_counts
              else s.subscriber_counts_out;
          subscriber_counts_dirty = false;
        },
        if s.pub_socket
            then selected (delivered sends) (
                selected
                  (message_of c.publish_every_frame changed s.newly_subscribed_addresses frames)
                  streams')
            else [],
      )

  unfoldable pub tick :
      (SocketSettings → Bool)
      → (Bytes → Bool)
      → Bool
      → List Bytes
      → Settings
      → Streaming
      → Streaming × List (Bytes × Bytes)
  tick binds sends retry_time messages c s =
      let s' = connect binds retry_time c s in
      stream_pass sends c (if s'.pub_socket then handle_messages messages s' else s')
