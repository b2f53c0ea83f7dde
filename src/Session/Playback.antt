-- ===== src/Session/Playback.antt =====
-- The playback methods of src/session/session.cc.
pub mod Advance
pub mod Invariant
use pointcaster.Prelude.{Bool, true, false, List, [], ◌∷◌, ◌++◌, if◌then◌else◌, ◌||◌, not}
use pointcaster.Prelude.Int.{ℤ, pos, negsuc, ◌+ℤ◌, ◌-ℤ◌, ◌%ℤ◌, max_ℤ, clamp_ℤ, ltb_ℤ, eq_ℤ}
use pointcaster.Session.{Timeline, Double, Effect, scrub, notify}

pub record Playback (D : Double) : Type 0 where
  pub playing : Bool
  pub current_frame : ℤ
  pub start_frame : ℤ
  -- Below 0: the end of the timeline.
  pub end_frame : ℤ
  pub looping : Bool
  pub fps : ℤ
  pub explicit_length : ℤ
  pub accum : Double.Value D
  -- `_config.timeline.current_frame`, kept from the last configuration.
  pub config_frame : ℤ

-- The frame after `next = current_frame + advance`, and whether playback goes on.
unfoldable pub wrap : Bool → ℤ → ℤ → ℤ → ℤ × Bool
wrap looping start last next =
    let span = last -ℤ start +ℤ pos 1 in
    if ltb_ℤ last next
    then (if looping
        then ((if ltb_ℤ (pos 0) span then start +ℤ (next -ℤ start) %ℤ span else start), true)
        else (last, false))
    else (next, true)

module _ {D : Double} where
  open D use {Value, zero, accumulate, truncate, subtract}

  unfoldable pub init : Playback D
  init = record {
    playing = false;
    current_frame = pos 0;
    start_frame = pos 0;
    end_frame = negsuc 0;
    looping = true;
    fps = pos 30;
    explicit_length = negsuc 0;
    accum = zero;
    config_frame = pos 0;
  }

  -- The playback part of `update_config`.
  unfoldable pub update_config : Timeline → Playback D → Playback D
  update_config tl s =
      let start = max_ℤ (pos 0) tl.start_frame in
      record s {
        looping = tl.looping;
        fps = max_ℤ (pos 1) tl.fps;
        start_frame = start;
        end_frame = tl.end_frame;
        explicit_length = tl.length;
        current_frame =
            if not (eq_ℤ tl.current_frame s.config_frame)
            then max_ℤ start tl.current_frame
            else max_ℤ start s.current_frame;
        config_frame = tl.current_frame;
      }

  unfoldable pub playback_play : Playback D → Playback D × List Effect
  playback_play s = (record s { playing = true; accum = zero }, scrub s.current_frame ∷ notify ∷ [])

  unfoldable pub playback_pause : Playback D → Playback D × List Effect
  playback_pause s = (record s { playing = false }, notify ∷ [])

  unfoldable pub playback_stop : Playback D → Playback D × List Effect
  playback_stop s =
      let frame = max_ℤ (pos 0) s.start_frame in
      (record s { playing = false; accum = zero; current_frame = frame }, scrub frame ∷ notify ∷ [])

  unfoldable pub playback_scrub : ℤ → Playback D → Playback D × List Effect
  playback_scrub frame s =
      let f = max_ℤ s.start_frame frame in (record s { current_frame = f }, scrub f ∷ notify ∷ [])

  unfoldable pub playback_set_loop : ℤ → ℤ → Playback D → Playback D × List Effect
  playback_set_loop in_frame out_frame s =
      (record s { start_frame = max_ℤ (pos 0) in_frame; end_frame = out_frame }, notify ∷ [])

  unfoldable pub playback_set_looping : Bool → Playback D → Playback D × List Effect
  playback_set_looping looping s = (record s { looping = looping }, notify ∷ [])

  unfoldable pub playback_set_fps : ℤ → Playback D → Playback D × List Effect
  playback_set_fps fps s = (record s { fps = max_ℤ (pos 1) fps }, notify ∷ [])

  unfoldable pub resolve_length : Playback D → ℤ → ℤ
  resolve_length s total_device_frames =
      if ltb_ℤ (pos 0) s.explicit_length
      then s.explicit_length
      else max_ℤ (pos 1) total_device_frames

  -- `length` is the cached session length.
  unfoldable pub playback_loop_out : Playback D → ℤ → ℤ
  playback_loop_out s length =
      if ltb_ℤ s.end_frame (pos 0) then max_ℤ (pos 0) (length -ℤ pos 1) else s.end_frame

  -- The locals `last`, `start` and `end` of `advance_playback`.
  unfoldable pub last_frame : Playback D → ℤ → ℤ
  last_frame s total = max_ℤ (pos 0) (resolve_length s total -ℤ pos 1)

  unfoldable pub loop_start : Playback D → ℤ → ℤ
  loop_start s total = clamp_ℤ s.start_frame (pos 0) (last_frame s total)

  unfoldable pub loop_end : Playback D → ℤ → ℤ
  loop_end s total =
      if ltb_ℤ s.end_frame (pos 0)
      then last_frame s total
      else clamp_ℤ s.end_frame (loop_start s total) (last_frame s total)

  -- Snap into the loop region.
  unfoldable pub snap : Playback D → ℤ → ℤ → Playback D
  snap s start last =
      if ltb_ℤ s.current_frame start || ltb_ℤ last s.current_frame
      then record s { current_frame = start; accum = zero }
      else s

  -- The locked part after the snap: nothing moves until a whole frame has passed.
  unfoldable pub step_frames : ℤ → ℤ → Value → Playback D → Playback D × List Effect
  step_frames start last dt s =
      let accum = accumulate s.accum dt (max_ℤ (pos 1) s.fps) in
      let advance = truncate accum in
      let (next, goes_on) = wrap s.looping start last (s.current_frame +ℤ advance) in
      if not (ltb_ℤ (pos 0) advance) then (record s { accum = accum }, []) else (
        record s { accum = subtract accum advance; current_frame = next; playing = goes_on },
        (if ltb_ℤ next (pos 0) then notify ∷ [] else scrub next ∷ notify ∷ []),
      )

  unfoldable pub advance_playback : Value → ℤ → Playback D → Playback D × List Effect
  advance_playback dt total s =
      let start = loop_start s total in
      let last = loop_end s total in
      if s.playing then step_frames start last dt (snap s start last) else (s, [])

-- A call of a method, or a pass of the update loop with its `dt` and the devices' frame total.
pub data Call (D : Double) : Type 0 where
  play pause stop : Call D
  to_frame set_fps : ℤ → Call D
  set_loop : ℤ → ℤ → Call D
  set_looping : Bool → Call D
  configure : Timeline → Call D
  advance : Double.Value D → ℤ → Call D

module _ {D : Double} where
  unfoldable pub step : Playback D → Call D → Playback D × List Effect
  step s play = playback_play s
  step s pause = playback_pause s
  step s stop = playback_stop s
  step s (to_frame frame) = playback_scrub frame s
  step s (set_fps fps) = playback_set_fps fps s
  step s (set_loop in_frame out_frame) = playback_set_loop in_frame out_frame s
  step s (set_looping looping) = playback_set_looping looping s
  step s (configure tl) = (update_config tl s, [])
  step s (advance dt total) = advance_playback dt total s

  -- A history of calls, with the effects in order.
  unfoldable pub run : Playback D → List (Call D) → Playback D × List Effect
  run s [] = (s, [])
  run s (c ∷ cs) = let (s', es) = step s c in let (s'', fs) = run s' cs in (s'', es ++ fs)
