-- ===== src/Recorder/Moves.antt =====
-- One thread's move keeps the recorder's invariant.
use pointcaster.Prelude.{
  ℕ, ◌+◌, ◌-◌, ◌≤◌, ◌<◌, ◌≡◌, ◌%◌, ◌^◌, Bool, List, [], ◌∷◌, ◌++◌, arith, refl, length, subst, sym,
  ◌∙◌,
}
use pointcaster.Recorder.{
  Frame, Write, Producer, checking, enqueuing, enqueued, counting, leaving, Writer, polling,
  dequeued, writing, waiting, finished, Recorder, frame_queue_max,
}
use pointcaster.Recorder.Steps.{increment, decrement}
use pointcaster.Recorder.Invariant.{
  uncounted, unnumbered, held, tally, tally_frames, tally_writer, Drained, Room, Inv,
}

decrement-counted :
    (d u n : ℕ)
    → d < 2 ^ 64
    → u ≤ 1
    → n ≤ frame_queue_max
    → (d + u) % 2 ^ 64 ≡ n + 1
    → (decrement d + u) % 2 ^ 64 ≡ n
unfolding decrement
decrement-counted d u n a b c e = omega arith

uncounted_le : (p : Producer) → uncounted p ≤ 1
uncounted_le checking = omega arith
uncounted_le enqueuing = omega arith
uncounted_le enqueued = omega arith
uncounted_le counting = omega arith
uncounted_le leaving = omega arith

Room-le : (p : Producer) (n m : ℕ) → m ≤ n → Room p n → Room p m
Room-le checking n m h r = omega arith
Room-le enqueuing n m h r = omega arith
Room-le enqueued n m h r = omega arith
Room-le counting n m h r = omega arith
Room-le leaving n m h r = omega arith

pub Room-max : (p : Producer) (n : ℕ) → Room p n → n ≤ frame_queue_max
Room-max checking n r = r
Room-max enqueuing n r = omega arith
Room-max enqueued n r = r
Room-max counting n r = r
Room-max leaving n r = r

pub not_leaving : {p p' : Producer} → p ≡ p' → ¬ (p' ≡ leaving) → ¬ (p ≡ leaving)
not_leaving e n h = n (sym e ∙ h)

mod_word : (n : ℕ) → n % 2 ^ 64 < 2 ^ 64
mod_word n = omega arith

module _ {D : Type 0} where
  pub tally-append :
      (p : Write D → Bool) (xs ys : List (Write D)) → tally p (xs ++ ys) ≡ tally p xs + tally p ys
  tally-append p [] ys = omega arith
  tally-append p (x ∷ xs) ys = ground (arith, tally-append p xs ys)

  tally_frames-append :
      (p : Write D → Bool) (xs ys : List (Frame D))
      → tally_frames p (xs ++ ys) ≡ tally_frames p xs + tally_frames p ys
  tally_frames-append p [] ys = omega arith
  tally_frames-append p (x ∷ xs) ys = ground (arith, tally_frames-append p xs ys)

  length-snoc : (xs : List (Frame D)) (x : Frame D) → length (xs ++ x ∷ []) ≡ length xs + 1
  length-snoc [] x = refl
  length-snoc (y ∷ ys) x = ground (arith, length-snoc ys x)

  -- Only a recorder thread that has not left its loop moves on.
  Drained-moves :
      (p p' : Producer) (q q' : List (Frame D)) (ws : List (Write D)) (w : Writer D)
      → ¬ (p ≡ leaving)
      → Drained p q ws w
      → Drained p' q' ws w
  Drained-moves p p' q q' ws polling n c = tt
  Drained-moves p p' q q' ws (dequeued f) n c = tt
  Drained-moves p p' q q' ws (writing i ds) n c = tt
  Drained-moves p p' q q' ws waiting n c = absurd (n c.0)
  Drained-moves p p' q q' ws finished n c = absurd (n c.0)

  pub recorder-Inv :
      (s : Recorder D) (p : Producer) (depth dropped frame : ℕ)
      → Inv s
      → ¬ (s.producer ≡ leaving)
      → depth < 2 ^ 64
      → (depth + uncounted p) % 2 ^ 64 ≡ length s.queue + held s.writer
      → Room p (length s.queue)
      → length s.history + dropped ≡ frame + unnumbered p
      → Inv (record s {
        producer = p;
        queue_depth = depth;
        dropped_frames = dropped;
        current_frame = frame;
      })
  recorder-Inv s p depth dropped frame v n a b c d = record {
    word = a;
    depth = b;
    bounded = c;
    numbered = d;
    kept = v.kept;
    closed = Drained-moves s.producer p s.queue s.queue s.in_flight s.writer n v.closed;
  }

  held_le : (w : Writer D) → held w ≤ 1
  held_le polling = omega arith
  held_le (dequeued f) = omega arith
  held_le (writing i ds) = omega arith
  held_le waiting = omega arith
  held_le finished = omega arith

  nonempty : (before after : List (Write D)) (w : Write D) → ¬ (before ++ w ∷ after ≡ [])
  nonempty [] after w e = cc
  nonempty (x ∷ xs) after w e = cc

  pub Drained-write :
      (p : Producer) (q : List (Frame D)) (before after : List (Write D)) (x : Write D)
      (w : Writer D)
      → Drained p q (before ++ x ∷ after) w
      → Drained p q (before ++ after) w
  Drained-write p q before after x polling c = tt
  Drained-write p q before after x (dequeued f) c = tt
  Drained-write p q before after x (writing i ds) c = tt
  Drained-write p q before after x waiting c = c
  Drained-write p q before after x finished c = absurd (nonempty before after x c.2)

  pub writer-Inv :
      (s : Recorder D) (w : Writer D) (q : List (Frame D)) (depth : ℕ) (ws fs us : List (Write D))
      → Inv s
      → depth < 2 ^ 64
      → (depth + uncounted s.producer) % 2 ^ 64 ≡ length q + held w
      → length q ≤ length s.queue
      → ((p : Write D → Bool)
          → tally p fs + tally p us + tally p ws + tally_writer p w + tally_frames p q
            ≡ tally p s.files
              + tally p s.unopened
              + tally p s.in_flight
              + tally_writer p s.writer
              + tally_frames p s.queue)
      → Drained s.producer q ws w
      → Inv (record s {
        writer = w;
        queue = q;
        queue_depth = depth;
        in_flight = ws;
        files = fs;
        unopened = us;
      })
  writer-Inv s w q depth ws fs us v a b c d e = record {
    word = a;
    depth = b;
    bounded = Room-le s.producer (length s.queue) (length q) c v.bounded;
    numbered = v.numbered;
    kept = λ p. d p ∙ v.kept p;
    closed = e;
  }

  pub enqueue-Inv :
      (s : Recorder D) (ds : List D)
      → s.producer ≡ enqueuing
      → Inv s
      → let f : Frame D = record { frame_index = s.current_frame; devices = ds } in
        Inv (record s { queue = s.queue ++ f ∷ []; producer = enqueued; history = f ∷ s.history })
  enqueue-Inv s ds e v =
      let f : Frame D = record { frame_index = s.current_frame; devices = ds } in
      let below : length s.queue < frame_queue_max =
        subst (λ p. Room p (length s.queue)) e v.bounded in
      record {
        word = v.word;
        depth = ground (arith, e, v.depth, v.word, length-snoc s.queue f, held_le s.writer, below);
        bounded = omega (arith, length-snoc s.queue f, below);
        numbered = ground (arith, e, v.numbered);
        kept = λ p. ground (arith, v.kept p, tally_frames-append p s.queue (f ∷ []));
        closed =
            Drained-moves s.producer enqueued s.queue (s.queue ++ f ∷ []) s.in_flight s.writer
              (not_leaving e (λ z. cc)) v.closed;
      }

  pub deepen-Inv :
      (s : Recorder D)
      → s.producer ≡ enqueued
      → Inv s
      → Inv (record s { queue_depth = increment s.queue_depth; producer = counting })
  unfolding increment
  deepen-Inv s e v =
      recorder-Inv s counting ((s.queue_depth + 1) % 2 ^ 64) s.dropped_frames s.current_frame v
        (not_leaving e (λ z. cc)) (mod_word (s.queue_depth + 1)) (ground (arith, e, v.depth))
        (subst (λ p. Room p (length s.queue)) e v.bounded) (ground (arith, e, v.numbered))

  pub shallow-Inv :
      (s : Recorder D) (f : Frame D)
      → s.writer ≡ dequeued f
      → Inv s
      → Inv (record s {
        queue_depth = decrement s.queue_depth;
        writer = writing f.frame_index f.devices;
      })
  unfolding decrement
  shallow-Inv s f e v =
      let d : (s.queue_depth + uncounted s.producer) % 2 ^ 64 ≡ length s.queue + 1 =
        ground (arith, e, v.depth) in
      writer-Inv s (writing f.frame_index f.devices) s.queue (decrement s.queue_depth) s.in_flight
        s.files s.unopened v (mod_word (s.queue_depth + (2 ^ 64 - 1)))
        (omega (
          arith,
          decrement-counted s.queue_depth (uncounted s.producer) (length s.queue) v.word
              (uncounted_le s.producer) (Room-max s.producer (length s.queue) v.bounded) d,
        ))
        (omega arith) (λ p. ground (arith, e)) tt
