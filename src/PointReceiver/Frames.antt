-- ===== src/PointReceiver/Frames.antt =====
-- The clouds between the thread that receives them and `pointreceiver_dequeue_point_cloud` of
-- src/pointreceiver/pointreceiver.cc.
use pointcaster.Prelude.{
  ℕ, suc, Bool, true, false, Option, none, some, List, [], ◌∷◌, ltb, ◌==◌, if◌then◌else◌,
}
use pointcaster.Wire.{Bytes, separated}
use pointcaster.Wire.Maps.{find, assign}
use pointcaster.Wire.Buffer.{copy_to_buffer}
use pointcaster.PointReceiver.{
  PointCloudFrame, Context, Answer, ok, invalid_argument, timeout, answer, emplace,
}

-- `latest_payloads` after the messages of one pass. A message without a zero byte is skipped.
unfoldable pub collect_payloads : List (Bytes × Bytes) → List Bytes → List (Bytes × Bytes)
collect_payloads latest [] = latest
collect_payloads latest (message ∷ messages) = elim (separated message) [
  | none ↦ collect_payloads latest messages
  | some (address, payload) ↦ collect_payloads (assign address payload latest) messages
]

module _ {C F : Type 0} where
  -- A cloud of one address enters the shared frames.
  unfoldable pub receive_cloud : Bytes → C → Context C F → Context C F
  receive_cloud address cloud c =
      let time = suc c.point_cloud_stream_timestamp in
      let entered : Option C → PointCloudFrame C = λ current. record {
        timestamp = time;
        pending = true;
        incoming_cloud = some cloud;
        current_cloud = current;
      } in
      elim (find c.point_cloud_frames address) [
        | none ↦ record c {
          point_cloud_frames = assign address (entered none) c.point_cloud_frames;
          known_point_cloud_addresses = emplace address c.known_point_cloud_addresses;
          point_cloud_stream_timestamp = time;
        }
        | some frame ↦ record c {
          point_cloud_frames = assign address (entered frame.current_cloud) c.point_cloud_frames;
          point_cloud_stream_timestamp = time;
        }
      ]

  -- The payloads of one pass, in the order of the map. One that does not decode is skipped.
  unfoldable pub receive_payloads :
      (Bytes → Option C) → List (Bytes × Bytes) → Context C F → Context C F
  receive_payloads decompress [] c = c
  receive_payloads decompress ((address, payload) ∷ rest) c = elim (decompress payload) [
    | none ↦ receive_payloads decompress rest c
    | some cloud ↦ receive_payloads decompress rest (receive_cloud address cloud c)
  ]

  unfoldable pub receive_pass : (Bytes → Option C) → List Bytes → Context C F → Context C F
  receive_pass decompress messages c = receive_payloads decompress (collect_payloads [] messages) c

module _ {C : Type 0} where
  -- The first of the pending frames with the least timestamp.
  unfoldable pub oldest_pending :
      List (Bytes × PointCloudFrame C) → Option (Bytes × PointCloudFrame C)
  oldest_pending [] = none
  oldest_pending ((a, f) ∷ m) =
      let oldest : Option (Bytes × PointCloudFrame C) = elim (oldest_pending m) [
        | none ↦ some (a, f)
        | some (b, g) ↦ if ltb g.timestamp f.timestamp then some (b, g) else some (a, f)
      ] in
      let rest = oldest_pending m in if f.pending then oldest else rest

  -- The frame after its cloud is handed out.
  abbrev pub handed_out : PointCloudFrame C → PointCloudFrame C
  handed_out frame = record frame {
    pending = false;
    current_cloud = frame.incoming_cloud;
    incoming_cloud = none;
  }

module _ {C F : Type 0} where
  -- The call at the end of its wait. `none` is the use of a null cloud.
  unfoldable pub dequeue_point_cloud : Option ℕ → Bool → Context C F → Option (Answer C F)
  dequeue_point_cloud none out_frame c = some (answer invalid_argument c)
  dequeue_point_cloud (some capacity) false c = some (answer invalid_argument c)
  dequeue_point_cloud (some capacity) true c =
      let found : Option (Answer C F) = elim (oldest_pending c.point_cloud_frames) [
        | none ↦ some (answer timeout c)
        | some (address, frame) ↦ elim frame.incoming_cloud [
          | none ↦ none
          | some cloud ↦
              let c' : Context C F = record c {
                point_cloud_frames = assign address (handed_out frame) c.point_cloud_frames;
              } in
              some (record (answer ok c') {
                address = (copy_to_buffer capacity address).0;
                cloud = some cloud;
              })
        ]
      ] in
      if capacity == 0 then some (answer invalid_argument c) else found
