-- ===== src/PointReceiver/Mailbox.antt =====
-- The frames of the receiver as a mailbox: for each address the last cloud not handed out yet.
use pointcaster.Prelude.{
  ℕ, suc, ◌≤◌, ◌<◌, ◌≡◌, ◌⊎◌, inl, inr, true, Option, none, some, if◌then◌else◌, arith, refl,
  Option-cases, ◌∙◌, ap,
}
use pointcaster.Wire.{Bytes, bytes_eq}
use pointcaster.Wire.Maps.{find, assign, find-assign}
use pointcaster.Wire.Buffer.{copy_to_buffer}
use pointcaster.PointReceiver.{Context, ok, timeout, answer}
use pointcaster.PointReceiver.Frames.{receive_cloud, handed_out, dequeue_point_cloud}
use pointcaster.PointReceiver.Oldest.{
  waiting, age, AreFrames, AreFrames-later, AreFrames-assign, oldest_pending_lem,
}

module _ {C F : Type 0} where
  abbrev pub undelivered : Context C F → Bytes → Option C
  undelivered c q = waiting (find c.point_cloud_frames q)

  abbrev pub arrival : Context C F → Bytes → ℕ
  arrival c q = age (find c.point_cloud_frames q)

  abbrev pub IsValid : Context C F → Type 0
  IsValid c = AreFrames c.point_cloud_stream_timestamp c.point_cloud_frames

  receive_cloud-frames :
      (c : Context C F) (a : Bytes) (cloud : C)
      → (current : Option C) × ((receive_cloud a cloud c).point_cloud_frames
          ≡ assign a
              (record {
                timestamp = suc c.point_cloud_stream_timestamp;
                pending = true;
                incoming_cloud = some cloud;
                current_cloud = current;
              })
              c.point_cloud_frames)
        × ((receive_cloud a cloud c).point_cloud_stream_timestamp
            ≡ suc c.point_cloud_stream_timestamp)
  unfolding receive_cloud
  receive_cloud-frames c a cloud = elim (Option-cases (find c.point_cloud_frames a)) [
    | inl n ↦ (none, ground (arith, n), ground (arith, n))
    | inr (f, n) ↦ (f.current_cloud, ground (arith, n), ground (arith, n))
  ]

  -- A cloud that arrives takes the place of the one of its address that still waits.
  pub receive_cloud-undelivered :
      (c : Context C F) (a q : Bytes) (cloud : C)
      → undelivered (receive_cloud a cloud c) q
        ≡ (if bytes_eq a q then some cloud else undelivered c q)
  receive_cloud-undelivered c a q cloud =
      let (current, e, t) = receive_cloud-frames c a cloud in
      ap (λ m. waiting (find m q)) e ∙ rw find-assign (ground arith)

  pub receive_cloud-arrival :
      (c : Context C F) (a q : Bytes) (cloud : C)
      → (arrival (receive_cloud a cloud c) q
          ≡ (if bytes_eq a q then suc c.point_cloud_stream_timestamp else arrival c q))
        × ((receive_cloud a cloud c).point_cloud_stream_timestamp
            ≡ suc c.point_cloud_stream_timestamp)
  receive_cloud-arrival c a q cloud =
      let (current, e, t) = receive_cloud-frames c a cloud in
      (ap (λ m. age (find m q)) e ∙ rw find-assign (ground arith), t)

  pub receive_cloud-IsValid :
      (c : Context C F) (a : Bytes) (cloud : C) → IsValid c → IsValid (receive_cloud a cloud c)
  receive_cloud-IsValid c a cloud v =
      let (current, e, t) = receive_cloud-frames c a cloud in
      rw (e, t)
        (AreFrames-assign (suc c.point_cloud_stream_timestamp) a _ c.point_cloud_frames
          (inr (cloud, refl)) (omega arith)
          (AreFrames-later c.point_cloud_stream_timestamp c.point_cloud_frames v))

  -- What a call that waits for a cloud finds, in a context that is valid.
  abbrev pub Dequeued : ℕ → Context C F → Type 0
  Dequeued capacity c =
      ((dequeue_point_cloud (some capacity) true c ≡ some (answer timeout c))
        × ((q : Bytes) → undelivered c q ≡ none))
      ⊎ ((a : Bytes) × (cloud : C) × (c' : Context C F) × (dequeue_point_cloud (some capacity) true
              c
            ≡ some (record (answer ok c') {
              address = (copy_to_buffer capacity a).0;
              cloud = some cloud;
            }))
          × (undelivered c a ≡ some cloud)
          × ((q : Bytes) → undelivered c' q ≡ (if bytes_eq a q then none else undelivered c q))
          × ((q : Bytes) (b : C) → undelivered c q ≡ some b → arrival c a ≤ arrival c q)
          × IsValid c')

  -- In a valid context and with a buffer, the call hands out, of the clouds that wait, the one whose
  -- address was last updated first, which then waits no longer, and leaves the others. It times out
  -- only when no cloud waits.
  pub dequeue_point_cloud-Dequeued :
      (c : Context C F) (capacity : ℕ) → IsValid c → 0 < capacity → Dequeued capacity c
  unfolding dequeue_point_cloud
  dequeue_point_cloud-Dequeued c capacity v h =
      elim (oldest_pending_lem c.point_cloud_stream_timestamp c.point_cloud_frames v) [
        | inl (n, all) ↦ inl (ground (arith, h, n), all)
        | inr (a, f, cloud, n, s, i, p, t, least) ↦
            let frames = assign a (handed_out f) c.point_cloud_frames in
            inr (
              a,
              cloud,
              record c { point_cloud_frames = frames },
              ground (arith, h, n, i),
              rw s (ground (arith, p, i)),
              λ q. rw find-assign (ground arith),
              λ q b w. rw s (least q b w),
              AreFrames-assign _ a (handed_out f) c.point_cloud_frames (inl refl) t v,
            )
      ]
