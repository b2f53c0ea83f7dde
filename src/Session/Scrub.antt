-- ===== src/Session/Scrub.antt =====
-- `Session::scrub_devices` of src/session/session.cc: the frame that each sequence device shows at a
-- frame of the session. Whether the session includes a device is decided elsewhere.
use pointcaster.Prelude.{
  ℕ, ◌-◌, ◌%◌, ◌^◌, ◌≡◌, String, Bool, true, false, Option, none, some, List, [], ◌∷◌, arith,
  if◌then◌else◌, ltb, not, ◌||◌, Bool-cases, Option-cases, inl, inr,
}
use pointcaster.Prelude.Int.{
  ℤ, pos, negsuc, ◌+ℤ◌, ◌-ℤ◌, ◌%ℤ◌, ◌≤ℤ◌, max_ℤ, min_ℤ, clamp_ℤ, ltb_ℤ, int_laws, max_ℤ_le_left,
  clamp_ℤ_ge, clamp_ℤ_le, min_ℤ_le_right, min_ℤ_glb, %ℤ_parts,
}

pub record Sequence : Type 0 where
  pub playing : Bool
  pub looping : Bool
  pub start_frame : ℤ
  pub end_frame : ℤ
  pub current_frame : ℤ

pub record Device : Type 0 where
  pub id : String
  -- `!device || device->is_discovery_instance()`, and `includes_device`.
  pub skipped : Bool
  pub included : Bool
  pub is_sequence : Bool
  -- `size_t`
  pub frame_count : ℕ
  -- A configuration without a sequence has none.
  pub sequence : Option Sequence

-- `static_cast<int>` of a `size_t`.
unfoldable pub to_int : ℕ → ℤ
to_int n = let w = n % 2 ^ 32 in if ltb w (2 ^ 31) then pos w else negsuc (2 ^ 32 - w - 1)

unfoldable pub out_point : Sequence → ℤ → ℤ
out_point seq count =
    if ltb_ℤ (negsuc 0) seq.end_frame then min_ℤ seq.end_frame (count -ℤ pos 1) else count -ℤ pos 1

unfoldable pub in_point : Sequence → ℤ → ℤ
in_point seq count = clamp_ℤ seq.start_frame (pos 0) (out_point seq count)

unfoldable pub device_frame : Sequence → ℤ → ℤ → ℤ
device_frame seq count offset =
    let dev_in = in_point seq count in
    let dev_out = out_point seq count in
    let dev_len = dev_out -ℤ dev_in +ℤ pos 1 in
    if seq.looping then dev_in +ℤ offset %ℤ dev_len else min_ℤ (dev_in +ℤ offset) dev_out

unfoldable pub scrub_sequence : Sequence → ℤ → ℤ → Sequence
scrub_sequence seq count offset = record seq {
  playing = false;
  current_frame = device_frame seq count offset;
}

-- The device afterwards, and whether it was told of a new `sequence/current_frame`.
unfoldable pub scrub_device : ℤ → Device → Device × Bool
scrub_device session_frame d =
    let offset = max_ℤ (pos 0) session_frame in
    let count = to_int d.frame_count in
    if d.skipped || not d.included || not d.is_sequence || not (ltb_ℤ (pos 0) count)
    then (d, false)
    else (
      record d {
        sequence = elim d.sequence [
          | none ↦ none
          | some seq ↦ some (scrub_sequence seq count offset)
        ];
      },
      true,
    )

-- All devices afterwards, and the ids of those told, in order.
unfoldable pub scrub_devices : ℤ → List Device → List Device × List String
scrub_devices session_frame [] = ([], [])
scrub_devices session_frame (d ∷ ds) =
    let (d', told) = scrub_device session_frame d in
    let (rest, ids) = scrub_devices session_frame ds in
    (d' ∷ rest, if told then d.id ∷ ids else ids)

out_point_bounds :
    (seq : Sequence) (count : ℤ)
    → pos 1 ≤ℤ count
    → (pos 0 ≤ℤ out_point seq count) × (out_point seq count ≤ℤ count -ℤ pos 1)
unfolding out_point
out_point_bounds seq count h =
    let last : pos 0 ≤ℤ count -ℤ pos 1 = omega int_laws in
    ground (
      arith,
      last,
      min_ℤ_le_right seq.end_frame (count -ℤ pos 1),
      min_ℤ_glb seq.end_frame (count -ℤ pos 1) (pos 0),
    )

-- The device's own loop region lies among the frames that it has.
pub device_region :
    (seq : Sequence) (count : ℤ)
    → pos 1 ≤ℤ count
    → (pos 0 ≤ℤ in_point seq count)
      × (in_point seq count ≤ℤ out_point seq count)
      × (out_point seq count ≤ℤ count -ℤ pos 1)
unfolding in_point
device_region seq count h =
    let (lo, hi) = out_point_bounds seq count h in
    (
      clamp_ℤ_ge seq.start_frame (pos 0) (out_point seq count) lo,
      clamp_ℤ_le seq.start_frame (pos 0) (out_point seq count) lo,
      hi,
    )

-- At an offset that is not negative, the frame that a scrub picks for a device that has frames is one
-- of its loop region, which lies among the frames that it has.
pub device_frame_region :
    (seq : Sequence) (count offset : ℤ)
    → pos 1 ≤ℤ count
    → pos 0 ≤ℤ offset
    → (in_point seq count ≤ℤ device_frame seq count offset)
      × (device_frame seq count offset ≤ℤ out_point seq count)
      × (pos 0 ≤ℤ in_point seq count)
      × (out_point seq count ≤ℤ count -ℤ pos 1)
unfolding device_frame
device_frame_region seq count offset h k =
    let i = in_point seq count in
    let o = out_point seq count in
    let (a, b, c) = device_region seq count h in
    let y : pos 1 ≤ℤ o -ℤ i +ℤ pos 1 = omega int_laws in
    let (r, t, _) = %ℤ_parts offset (o -ℤ i +ℤ pos 1) k y in
    let lo : i ≤ℤ i +ℤ offset %ℤ (o -ℤ i +ℤ pos 1) = omega int_laws in
    let hi : i +ℤ offset %ℤ (o -ℤ i +ℤ pos 1) ≤ℤ o = omega int_laws in
    let on : i ≤ℤ i +ℤ offset = omega int_laws in
    ground (arith, lo, hi, a, c, min_ℤ_le_right (i +ℤ offset) o, min_ℤ_glb (i +ℤ offset) o i on b)

-- A device that the session includes, with frames and a sequence to show them in.
abbrev pub HasFrames : Device → Type 0
HasFrames d =
    (d.skipped ≡ false)
    × (d.included ≡ true)
    × (d.is_sequence ≡ true)
    × (pos 1 ≤ℤ to_int d.frame_count)
    × ((seq : Sequence) × (d.sequence ≡ some seq))

-- What a scrub does to a device: nothing without frames to show, or else show one of them with
-- playback stopped.
pub data Scrubbed (d e : Device) : Type 0 where
  kept : ¬ HasFrames d → e ≡ d → Scrubbed d e
  shown :
      (seq : Sequence) (frame : ℤ)
      → HasFrames d
      → d.sequence ≡ some seq
      → e ≡ record d { sequence = some (record seq { playing = false; current_frame = frame }) }
      → pos 0 ≤ℤ frame
      → frame ≤ℤ to_int d.frame_count -ℤ pos 1
      → Scrubbed d e

included_device :
    (d : Device)
    → (d.skipped
        || not d.included
        || not d.is_sequence
        || not (ltb_ℤ (pos 0) (to_int d.frame_count)))
      ≡ false
    → (seq : Sequence) → d.sequence ≡ some seq
    → HasFrames d
included_device d go seq e =
    (ground (arith, go), ground (arith, go), ground (arith, go), ground (arith, go), (seq, e))

scrub_device-Scrubbed : (f : ℤ) (d : Device) → Scrubbed d (scrub_device f d).0
unfolding scrub_device scrub_sequence
scrub_device-Scrubbed f d =
    elim (Bool-cases (
      d.skipped
      || not d.included
      || not d.is_sequence
      || not (ltb_ℤ (pos 0) (to_int d.frame_count)))) [
        | inl skip ↦
            kept (λ (a, b, c, h, _). ground (arith, skip, a, b, c, h)) (ground (arith, skip))
        | inr go ↦ elim (Option-cases d.sequence) [
          | inl n ↦ kept (λ (_, _, _, _, (seq, h)). cc) (ground (arith, go, n))
          | inr (seq, e) ↦
              let count = to_int d.frame_count in
              let some_frames : pos 1 ≤ℤ count = ground (arith, go) in
              let offset = max_ℤ (pos 0) f in
              let (a, b, c, o) =
                device_frame_region seq count offset some_frames (max_ℤ_le_left (pos 0) f) in
              shown seq (device_frame seq count offset) (included_device d go seq e) e
                (ground (arith, go, e)) (omega arith) (omega arith)
        ]
      ]

abbrev pub AllScrubbed : List Device → List Device → Type 0
AllScrubbed [] [] = Unit {0}
AllScrubbed [] (e ∷ es) = ⊥
AllScrubbed (d ∷ ds) [] = ⊥
AllScrubbed (d ∷ ds) (e ∷ es) = Scrubbed d e × AllScrubbed ds es

-- A scrub of the session to any frame shows, on each device that the session includes and that has
-- frames and a sequence, a frame that it has, with the device's own playback stopped; it leaves each
-- other device as it was, and the devices keep their order.
pub scrub_devices-AllScrubbed : (f : ℤ) (ds : List Device) → AllScrubbed ds (scrub_devices f ds).0
unfolding scrub_devices
scrub_devices-AllScrubbed f [] = tt
scrub_devices-AllScrubbed f (d ∷ ds) = (scrub_device-Scrubbed f d, scrub_devices-AllScrubbed f ds)
