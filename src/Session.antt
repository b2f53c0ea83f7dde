-- ===== src/Session.antt =====
-- src/session/session.cc: the session's playback clock and the scrubbing of its devices. `int` is
-- ℤ: signed overflow is undefined in the source. The `double` accumulator is a parameter.
-- A method returns the new state and, in order, what it sets off after its lock is released.
pub mod Playback
pub mod Scrub
pub mod Update
use pointcaster.Prelude.{Bool}
use pointcaster.Prelude.Int.{ℤ}

pub record Timeline : Type 0 where
  pub looping : Bool
  pub fps : ℤ
  pub start_frame : ℤ
  pub current_frame : ℤ
  pub end_frame : ℤ
  pub length : ℤ

-- `double`, with the three operations that the clock makes.
pub record Double : Type 1 where
  pub Value : Type 0
  pub zero : Value
  -- accum + dt * fps
  pub accumulate : Value → Value → ℤ → Value
  -- static_cast<int>(accum)
  pub truncate : Value → ℤ
  -- accum - frames
  pub subtract : Value → ℤ → Value

pub data Effect : Type 0 where
  -- scrub_devices(frame)
  scrub : ℤ → Effect
  -- notify_playback_changed()
  notify : Effect
