-- ===== src/PointStreamer/View.antt =====
-- What the clients of src/point_streamer/point_streamer.cc see: for each address the last message
-- sent.
use pointcaster.Prelude.{
  ℕ, ◌≡◌, ◌≢◌, inl, inr, Bool, true, Option, none, some, List, [], ◌&&◌, ◌||◌, if◌then◌else◌, arith,
  refl, Bool-cases, or_else, ap, sym, subst, false, ◌⊎◌, ◌∙◌,
}
use pointcaster.Wire.{Bytes}
use pointcaster.Wire.Maps.{
  chosen, find, AreDistinct, selected, find-selected, selected-AreDistinct, assign_all,
  find-assign_all,
}
use pointcaster.PointReceiver.{member}
use pointcaster.PointStreamer.{
  Clouds, Streaming, Settings, has_subscriber, channel_enabled, publishes, any_topic, erase_all,
  publishing, is_none, stopped_streams, with_stopped, streams_to_serialize, frame_of, message_of,
  stream_pass, delivered,
}
use pointcaster.PointStreamer.Entries.{
  is_there, member-addresses_where, find-erase_all, find-with_stopped, with_stopped-AreDistinct,
}
use pointcaster.PointStreamer.Passed.{
  Resent, IsCached-same, IsCached, streamed, expected, changed_at, frame_at, sent_at,
  Passed-same_as, Passed, one_address, chosen-dirty_cloud, chosen-frame_of, chosen-message_of,
  allowed, seen,
}

module _ (clouds : Clouds) where
  open clouds use {cloud_empty, stopped_cloud}

  -- The entries of an address after a pass are those that `Passed` speaks of.
  module _ (c : Settings) (s : Streaming) (distinct : AreDistinct c.point_streams) where
    streams : List (Bytes × Option ℕ)
    streams = publishing clouds c s

    stopped : List Bytes
    stopped = stopped_streams clouds streams s

    streams' : List (Bytes × Option ℕ)
    streams' = with_stopped clouds stopped streams

    changed : List (Bytes × ℕ)
    changed = streams_to_serialize clouds streams' s.last_clouds

    frames : List (Bytes × Bytes)
    frames = assign_all (selected (frame_of clouds c.codec_config) changed) s.last_data

    distinct' : AreDistinct streams'
    unfolding streams streams' publishing
    distinct' =
        with_stopped-AreDistinct clouds stopped streams
          (selected-AreDistinct _ c.point_streams distinct)

    distinct_changed : AreDistinct changed
    unfolding changed streams_to_serialize
    distinct_changed = selected-AreDistinct _ streams' distinct'

    stopped_at :
        (a : Bytes)
        → member stopped a
          ≡ is_there (find s.last_clouds a) && is_none clouds (streamed clouds c s a)
    unfolding stopped stopped_streams streams
    stopped_at a = member-addresses_where _ s.last_clouds a

    stream_at :
        (a : Bytes)
        → find streams' a ≡ (if member stopped a then some (some stopped_cloud) else find streams a)
    unfolding streams'
    stream_at a = find-with_stopped clouds stopped streams a

    cloud_at :
        (a : Bytes)
        → find changed a ≡ changed_at clouds c.codec_config (find s.last_clouds a) (find streams' a)
    unfolding changed streams_to_serialize
    cloud_at a =
        find-selected _ streams' a distinct'
        ∙ chosen-dirty_cloud clouds c.codec_config s.last_clouds a (find streams' a)

    frame_found :
        (a : Bytes)
        → find frames a
          ≡ or_else (frame_at clouds c.codec_config (find changed a) a) (find s.last_data a)
    unfolding frames
    frame_found a =
        find-assign_all (selected (frame_of clouds c.codec_config) changed) s.last_data a
          (selected-AreDistinct _ changed distinct_changed)
        ∙ ap (λ z. or_else z (find s.last_data a))
            (find-selected _ changed a distinct_changed
              ∙ chosen-frame_of clouds c.codec_config a (find changed a))

    again_at : Bytes → Bool
    again_at a = c.publish_every_frame || any_topic s.newly_subscribed_addresses a

    sent : List (Bytes × Bytes)
    sent =
        selected
          (message_of clouds c.publish_every_frame changed s.newly_subscribed_addresses frames)
          streams'

    message_at :
        (a : Bytes)
        → find sent a
          ≡ sent_at clouds c.codec_config
              (again_at a || is_there (find changed a))
              (find streams' a)
              (find frames a)
    unfolding sent again_at
    message_at a =
        find-selected _ streams' a distinct'
        ∙ chosen-message_of clouds c.codec_config c.publish_every_frame changed
            s.newly_subscribed_addresses frames a (find streams' a)

    streams_lack :
        (a : Bytes)
        → find c.point_streams a ≢ some (some stopped_cloud)
        → find streams a ≢ some (some stopped_cloud)
    unfolding streams publishing
    streams_lack a n h = n (
        allowed clouds c.codec_config (publishes clouds c s) a (find c.point_streams a)
          (sym (find-selected _ c.point_streams a distinct) ∙ h)
          (λ cloud.
            elim (Bool-cases
              (has_subscriber s.subscriber_counts a && channel_enabled c.channels a)) [
                | inl q ↦ inr (ground (arith, q))
                | inr q ↦ inl (ground (arith, q))
              ]))

    -- What the pass does to one address.
    one_pass :
        (shown : Bytes → Option Bytes) (a : Bytes)
        → cloud_empty stopped_cloud ≡ true
        → find c.point_streams a ≢ some (some stopped_cloud)
        → IsCached clouds c.codec_config (find s.last_clouds a) (find s.last_data a) (shown a) a
        → Passed clouds c.codec_config a
            (find streams' a)
            (find changed a)
            (find s.last_clouds a)
            (find s.last_data a)
            (shown a)
            (again_at a)
            (member stopped a)
            (streamed clouds c s a)
    unfolding streams
    one_pass shown a e n v =
        let m = stopped_at a in
        let t = stream_at a ∙ ap (λ b. if b then some (some stopped_cloud) else find streams a) m in
        Passed-same_as clouds c.codec_config a (find s.last_clouds a) (find s.last_data a) (shown a)
          (again_at a) t
          (cloud_at a ∙ ap (changed_at clouds c.codec_config (find s.last_clouds a)) t) m refl
          (one_address clouds c.codec_config a (find streams a) (find s.last_clouds a)
            (find s.last_data a) (shown a) (again_at a) e (streams_lack a n) v)

    clouds_after :
        (a : Bytes)
        → find (erase_all stopped (assign_all changed s.last_clouds)) a
          ≡ (if member stopped a then none else or_else (find changed a) (find s.last_clouds a))
    clouds_after a =
        find-erase_all stopped (assign_all changed s.last_clouds) a
        ∙ ap (λ z. if member stopped a then none else z)
            (find-assign_all changed s.last_clouds a distinct_changed)

    frames_after :
        (a : Bytes)
        → find (erase_all stopped frames) a ≡ (
            if member stopped a
            then none
            else or_else (frame_at clouds c.codec_config (find changed a) a) (find s.last_data a))
    frames_after a =
        find-erase_all stopped frames a
        ∙ ap (λ z. if member stopped a then none else z) (frame_found a)

    attempted_at :
        (a : Bytes)
        → find sent a
          ≡ sent_at clouds c.codec_config
              (again_at a || is_there (find changed a))
              (find streams' a)
              (or_else (frame_at clouds c.codec_config (find changed a) a) (find s.last_data a))
    attempted_at a =
        message_at a
        ∙ ap
            (sent_at clouds c.codec_config (again_at a || is_there (find changed a))
              (find streams' a))
            (frame_found a)

    distinct_sent : AreDistinct sent
    unfolding sent
    distinct_sent = selected-AreDistinct _ streams' distinct'

    chosen-delivered :
        (sends : Bytes → Bool) (a : Bytes) (o : Option Bytes)
        → chosen (delivered clouds sends) a o ≡ (if sends a then o else none)
    chosen-delivered sends a none = elim (Bool-cases (sends a)) [
      | inl e ↦ rw e refl
      | inr e ↦ rw e refl
    ]
    chosen-delivered sends a (some frame) = refl

    delivered_at :
        (sends : Bytes → Bool) (a : Bytes)
        → find (selected (delivered clouds sends) sent) a ≡ (if sends a then find sent a else none)
    delivered_at sends a =
        find-selected _ sent a distinct_sent ∙ chosen-delivered sends a (find sent a)

    -- Of an address in a pass with a socket, in which no two streams have one address and the address
    -- does not stream the thread's own empty cloud, when what its clients see is the cloud cached
    -- under the present configuration of the codec: the cloud cached afterwards is the one streamed.
    -- If the send succeeds, the last message sent carries the cloud streamed, or the empty cloud once
    -- the stream has stopped, and a message of the cloud streamed is sent in this pass if a client has
    -- just subscribed or each frame is to be published. If it fails, the clients see what they saw.
    pub stream_pass-IsConsistent :
        (sends : Bytes → Bool) (shown : Bytes → Option Bytes) (a : Bytes)
        → s.pub_socket ≡ true
        → cloud_empty stopped_cloud ≡ true
        → find c.point_streams a ≢ some (some stopped_cloud)
        → IsCached clouds c.codec_config (find s.last_clouds a) (find s.last_data a) (shown a) a
        → let passed = stream_pass clouds sends c s in
          (find passed.0.last_clouds a ≡ streamed clouds c s a)
          × (((sends a ≡ true)
                × (seen clouds shown passed.1 a
                    ≡ expected clouds c.codec_config
                        (streamed clouds c s a)
                        (find s.last_clouds a)
                        (shown a)
                        a)
                × IsCached clouds c.codec_config
                    (find passed.0.last_clouds a)
                    (find passed.0.last_data a)
                    (seen clouds shown passed.1 a)
                    a
                × Resent clouds c.codec_config
                    (streamed clouds c s a)
                    (c.publish_every_frame || any_topic s.newly_subscribed_addresses a)
                    (find passed.1 a)
                    a)
              ⊎ ((sends a ≡ false) × (seen clouds shown passed.1 a ≡ shown a)))
    unfolding stream_pass Passed streams streams' stopped changed frames sent again_at
    stream_pass-IsConsistent sends shown a on e n v =
        let p : Passed clouds c.codec_config a (find streams' a) (find changed a)
            (find s.last_clouds a) (find s.last_data a) (shown a) (again_at a) (member stopped a)
            (streamed clouds c s a) =
          one_pass shown a e n v in
        let messages : (stream_pass clouds sends c s).1 ≡ selected (delivered clouds sends) sent =
          ap (λ b. if b then selected (delivered clouds sends) sent else []) on in
        let found : find (stream_pass clouds sends c s).1 a
            ≡ (if sends a then find sent a else none) =
          ap (λ z. find z a) messages ∙ delivered_at sends a in
        (
          clouds_after a ∙ p.0,
          elim (Bool-cases (sends a)) [
            | inl succeeds ↦
                let sent_now =
                  found ∙ ap (λ b. if b then find sent a else none) succeeds ∙ attempted_at a in
                let seen_now = ap (λ z. or_else z (shown a)) sent_now in
                inl (
                  succeeds,
                  seen_now ∙ p.1,
                  IsCached-same clouds c.codec_config a (clouds_after a) (frames_after a) seen_now
                      p.2,
                  subst (λ z. Resent clouds c.codec_config (streamed clouds c s a) (again_at a) z a)
                      (sym sent_now) p.3,
                )
            | inr fails ↦ inr (
              fails,
              ap (λ z. or_else z (shown a))
                  (found ∙ ap (λ b. if b then find sent a else none) fails),
            )
          ],
        )
