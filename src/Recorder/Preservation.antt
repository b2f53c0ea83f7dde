-- ===== src/Recorder/Preservation.antt =====
-- The steps of the recorder keep its invariant.
use pointcaster.Prelude.{◌+◌, ◌≡◌, ◌∷◌, ◌++◌, arith, refl, length, subst, sym}
use pointcaster.Recorder.{
  checking, enqueuing, counting, leaving, polling, dequeued, writing, waiting, finished, Recorder,
  start_recording,
}
use pointcaster.Recorder.Steps.{
  Step, stop, leave, room, drop, enqueue, deepen, count, dequeue, shallow, detach, next_frame,
  write, fail_open, drained, finish, Reach, here, next,
}
use pointcaster.Recorder.Invariant.{Drained, Room, Inv}
use pointcaster.Recorder.Moves.{
  recorder-Inv, writer-Inv, enqueue-Inv, deepen-Inv, shallow-Inv, tally-append, Drained-write,
  not_leaving,
}

module _ {D : Type 0} where
  Step-Inv : {s t : Recorder D} → Step s t → Inv s → Inv t
  Step-Inv {s} {t} (stop q) v = subst Inv (sym q) (record {
    word = v.word;
    depth = v.depth;
    bounded = v.bounded;
    numbered = v.numbered;
    kept = v.kept;
    closed = v.closed;
  })
  Step-Inv {s} {t} (leave e h q) v = subst Inv (sym q) (
      recorder-Inv s leaving s.queue_depth s.dropped_frames s.current_frame v
        (not_leaving e (λ z. cc)) v.word (ground (arith, e, v.depth))
        (subst (λ p. Room p (length s.queue)) e v.bounded) (ground (arith, e, v.numbered)))
  Step-Inv {s} {t} (room e h k q) v = subst Inv (sym q) (
      recorder-Inv s enqueuing s.queue_depth s.dropped_frames s.current_frame v
        (not_leaving e (λ z. cc)) v.word (ground (arith, e, v.depth))
        (ground (arith, e, v.depth, v.word)) (ground (arith, e, v.numbered)))
  Step-Inv {s} {t} (drop e h k q) v = subst Inv (sym q) (
      recorder-Inv s counting s.queue_depth (s.dropped_frames + 1) s.current_frame v
        (not_leaving e (λ z. cc)) v.word (ground (arith, e, v.depth))
        (subst (λ p. Room p (length s.queue)) e v.bounded) (ground (arith, e, v.numbered)))
  Step-Inv {s} {t} (enqueue ds e q) v = subst Inv (sym q) (enqueue-Inv s ds e v)
  Step-Inv {s} {t} (deepen e q) v = subst Inv (sym q) (deepen-Inv s e v)
  Step-Inv {s} {t} (count e q) v = subst Inv (sym q) (
      recorder-Inv s checking s.queue_depth s.dropped_frames (s.current_frame + 1) v
        (not_leaving e (λ z. cc)) v.word (ground (arith, e, v.depth))
        (subst (λ p. Room p (length s.queue)) e v.bounded) (ground (arith, e, v.numbered)))
  Step-Inv {s} {t} (dequeue f rest e k q) v = subst Inv (sym q) (
      writer-Inv s (dequeued f) rest s.queue_depth s.in_flight s.files s.unopened v v.word
        (ground (arith, e, k, v.depth)) (ground (arith, k)) (λ p. ground (arith, e, k)) tt)
  Step-Inv {s} {t} (shallow f e q) v = subst Inv (sym q) (shallow-Inv s f e v)
  Step-Inv {s} {t} (detach i d ds e q) v = subst Inv (sym q) (
      writer-Inv s (writing i ds) s.queue s.queue_depth
        ((record { frame_index = i; device = d }) ∷ s.in_flight) s.files s.unopened v v.word
        (ground (arith, e, v.depth)) (omega arith) (λ p. ground (arith, e)) tt)
  Step-Inv {s} {t} (next_frame i e q) v = subst Inv (sym q) (
      writer-Inv s polling s.queue s.queue_depth s.in_flight s.files s.unopened v v.word
        (ground (arith, e, v.depth)) (omega arith) (λ p. ground (arith, e)) tt)
  Step-Inv {s} {t} (write before after w e q) v = subst Inv (sym q) (
      writer-Inv s s.writer s.queue s.queue_depth (before ++ after) (w ∷ s.files) s.unopened v
        v.word v.depth (omega arith)
        (λ p. ground (arith, e, tally-append p before (w ∷ after), tally-append p before after))
        (Drained-write s.producer s.queue before after w s.writer
          (subst (λ z. Drained s.producer s.queue z s.writer) e v.closed)))
  Step-Inv {s} {t} (fail_open before after w e q) v = subst Inv (sym q) (
      writer-Inv s s.writer s.queue s.queue_depth (before ++ after) s.files (w ∷ s.unopened) v
        v.word v.depth (omega arith)
        (λ p. ground (arith, e, tally-append p before (w ∷ after), tally-append p before after))
        (Drained-write s.producer s.queue before after w s.writer
          (subst (λ z. Drained s.producer s.queue z s.writer) e v.closed)))
  Step-Inv {s} {t} (drained e h k q) v = subst Inv (sym q) (
      writer-Inv s waiting s.queue s.queue_depth s.in_flight s.files s.unopened v v.word
        (ground (arith, e, v.depth)) (omega arith) (λ p. ground (arith, e)) (h, k))
  Step-Inv {s} {t} (finish e k q) v =
      let c = subst (Drained s.producer s.queue s.in_flight) e v.closed in
      subst Inv (sym q) (
        writer-Inv s finished s.queue s.queue_depth s.in_flight s.files s.unopened v v.word
          (ground (arith, e, v.depth)) (omega arith) (λ p. ground (arith, e)) (c.0, c.1, k))

  Reach-Inv : {s t : Recorder D} → Inv s → Reach s t → Inv t
  Reach-Inv v here = v
  Reach-Inv v (next r st) = Step-Inv st (Reach-Inv v r)

  start_recording-Inv : (s : Recorder D) → s ≡ start_recording → Inv s
  unfolding start_recording
  start_recording-Inv s e = subst Inv (sym e) (record {
    word = omega arith;
    depth = omega arith;
    bounded = omega arith;
    numbered = omega arith;
    kept = λ p. omega arith;
    closed = tt;
  })

  -- Whatever the interleaving, a recorder that has been started keeps the invariant.
  pub started-Inv : {t : Recorder D} → Reach start_recording t → Inv t
  started-Inv r = Reach-Inv (start_recording-Inv start_recording refl) r
