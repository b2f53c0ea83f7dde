-- ===== src/Tests/PointStreamer.antt =====
-- A tick that streams one cloud, and the tick in which it stops. Clouds are numbers, 0 the empty one.
use pointcaster.Prelude.{
  Option, ◌⊎◌, ◌≡◌, ◌≢◌, ◌==◌, refl, true, false, none, some, [], ◌∷◌, inl, inr, Bool-cases, arith,
}
use pointcaster.Prelude.Int.{pos, max_ℤ, ◌*ℤ◌}
use pointcaster.Wire.{Bytes, bytes_eq, starts_with, framed, subscribed_topic}
use pointcaster.Wire.Maps.{find, assign, erase, selected, assign_all}
use pointcaster.PointStreamer.{
  Clouds, Streaming, Settings, tick, connect, same_settings, socket_settings, queued_frame_limit,
  enabled_channel_count, handle_messages, handle_subscriber_message, stream_pass, publishing,
  channel_enabled, has_subscriber, stopped_streams, addresses_where, with_stopped,
  streams_to_serialize, same_cloud, erase_all, any_topic,
}
use pointcaster.PointStreamer.Passed.{IsCached, seen}
use pointcaster.PointStreamer.View.{stream_pass-IsConsistent}

abbrev numbered : Clouds
numbered = record {
  cloud_empty = λ c. c == 0;
  compress = λ codec c. codec ∷ c ∷ [];
  stopped_cloud = 0;
}

abbrev stage : Bytes
stage = 115 ∷ []

abbrev settings : Settings
settings = record {
  address = [];
  port = pos 9992;
  publish_hz = pos 30;
  codec_config = 5;
  publish_every_frame = false;
  max_queued_frames = none;
  channels = [];
  point_streams = (stage, some 7) ∷ [];
}

abbrev fresh : Streaming
fresh = record {
  pub_socket = true;
  attempted_settings = socket_settings settings;
  last_clouds = [];
  last_data = [];
  subscriber_counts = (stage, 1) ∷ [];
  subscriber_counts_dirty = false;
  newly_subscribed_addresses = [];
  subscriber_counts_out = none;
}

-- A subscription arrives, the cloud is sent, and after the client leaves the empty cloud.
first_sent :
    (tick numbered
      (λ s. true)
      (λ a. true)
      false
      ((1 ∷ 115 ∷ 0 ∷ []) ∷ [])
      settings
      (record fresh { subscriber_counts = [] })).1
    ≡ (stage, framed stage (5 ∷ 7 ∷ [])) ∷ []
unfolding tick connect same_settings socket_settings queued_frame_limit enabled_channel_count
    handle_messages handle_subscriber_message stream_pass publishing channel_enabled has_subscriber
    stopped_streams addresses_where with_stopped streams_to_serialize same_cloud erase_all any_topic
    bytes_eq starts_with framed subscribed_topic find assign erase selected assign_all max_ℤ ◌*ℤ◌
first_sent = refl

lacks_stopped : (a : Bytes) → find settings.point_streams a ≢ some (some 0)
unfolding find
lacks_stopped a h = elim (Bool-cases (bytes_eq stage a)) [
  | inl e ↦ ground (arith, e, h)
  | inr e ↦ ground (arith, e, h)
]

-- A client has just subscribed to a stream whose cloud is cached already.
abbrev joined : Streaming
joined = record fresh {
  last_clouds = (stage, 7) ∷ [];
  last_data = (stage, framed stage (5 ∷ 7 ∷ [])) ∷ [];
  newly_subscribed_addresses = stage ∷ [];
}

abbrev joined_shown : Bytes → Option Bytes
joined_shown a = some (framed stage (5 ∷ 7 ∷ []))

stream_pass-IsConsistent_example :
    let passed = stream_pass numbered (λ a. true) settings joined in
    (find passed.0.last_clouds stage ≡ some 7)
    × (((true ≡ true)
          × (seen numbered joined_shown passed.1 stage ≡ some (framed stage (5 ∷ 7 ∷ [])))
          × IsCached numbered 5
              (find passed.0.last_clouds stage)
              (find passed.0.last_data stage)
              (seen numbered joined_shown passed.1 stage)
              stage
          × (find passed.1 stage ≡ some (framed stage (5 ∷ 7 ∷ []))))
        ⊎ ((true ≡ false)
            × (seen numbered joined_shown passed.1 stage ≡ some (framed stage (5 ∷ 7 ∷ [])))))
unfolding find publishing selected channel_enabled has_subscriber starts_with bytes_eq any_topic
stream_pass-IsConsistent_example =
    stream_pass-IsConsistent numbered settings joined (refl, tt) (λ a. true) joined_shown stage refl
      refl (lacks_stopped stage) (refl, refl, refl)
