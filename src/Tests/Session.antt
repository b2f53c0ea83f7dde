-- ===== src/Tests/Session.antt =====
-- A session at 30 frames in a second, with milliseconds as its accumulator.
use pointcaster.Prelude.{ℕ, ◌≡◌, ◌+◌, ◌-◌, ◌*◌, ◌/◌, refl, true, false, some, [], ◌∷◌}
use pointcaster.Prelude.Int.{pos, negsuc, pos_part, ◌≤ℤ◌, ◌+ℤ◌, ◌-ℤ◌, ◌%ℤ◌, max_ℤ, min_ℤ, clamp_ℤ}
use pointcaster.Session.{Double}
use pointcaster.Session.Playback.{
  playback_loop_out, Playback, init, loop_start, loop_end, last_frame, step_frames,
  advance_playback, resolve_length, snap, wrap,
}
use pointcaster.Session.Playback.Advance.{advance_playback_region}
use pointcaster.Session.Scrub.{
  Sequence, Device, AllScrubbed, scrub_devices, scrub_devices-AllScrubbed, device_frame, in_point,
  out_point,
}

abbrev thousandths : Double
thousandths = record {
  Value = ℕ;
  zero = 0;
  accumulate = λ v dt fps. v + dt * pos_part fps;
  truncate = λ v. pos (v / 1000);
  subtract = λ v frames. v - 1000 * pos_part frames;
}

abbrev looped : Playback thousandths
looped = record {
  playing = true;
  current_frame = pos 8;
  start_frame = pos 5;
  end_frame = pos 9;
  looping = true;
  fps = pos 30;
  explicit_length = negsuc 0;
  accum = 500;
  config_frame = pos 0;
}

-- 100 ms complete three frames: 8, 9, 5, 6.
looped_runs : (advance_playback 100 (pos 20) looped).0.current_frame ≡ pos 6
unfolding advance_playback step_frames snap wrap loop_start loop_end last_frame resolve_length max_ℤ
    clamp_ℤ ◌+ℤ◌ ◌-ℤ◌ ◌%ℤ◌
looped_runs = refl

advance_playback_region_example :
    (loop_start looped (pos 20) ≤ℤ (advance_playback 100 (pos 20) looped).0.current_frame)
    × ((advance_playback 100 (pos 20) looped).0.current_frame ≤ℤ loop_end looped (pos 20))
    × (pos 0 ≤ℤ loop_start looped (pos 20))
    × (loop_end looped (pos 20) ≤ℤ last_frame looped (pos 20))
advance_playback_region_example = advance_playback_region {D = thousandths} 100 (pos 20) looped refl

abbrev clip : Sequence
clip = record {
  playing = true;
  looping = true;
  start_frame = pos 2;
  end_frame = negsuc 0;
  current_frame = pos 0;
}

abbrev player : Device
player = record {
  id = "clip";
  skipped = false;
  included = true;
  is_sequence = true;
  frame_count = 5;
  sequence = some clip;
}

-- Frame 7 of the session is the second frame of the clip's third pass over 2, 3, 4.
clip_runs : device_frame clip (pos 5) (pos 7) ≡ pos 3
unfolding device_frame in_point out_point clamp_ℤ min_ℤ ◌+ℤ◌ ◌-ℤ◌ ◌%ℤ◌
clip_runs = refl

scrub_devices-AllScrubbed_example :
    AllScrubbed (player ∷ []) (scrub_devices (pos 7) (player ∷ [])).0
scrub_devices-AllScrubbed_example = scrub_devices-AllScrubbed (pos 7) (player ∷ [])

loop_out : playback_loop_out (init {D = thousandths}) (pos 40) ≡ pos 39
unfolding playback_loop_out init max_ℤ ◌-ℤ◌
loop_out = refl
