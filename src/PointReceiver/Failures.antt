-- ===== src/PointReceiver/Failures.antt =====
-- What the calls of src/pointreceiver/pointreceiver.cc leave when they fail.
use pointcaster.Prelude.{
  ℕ, zero, suc, ◌≡◌, inl, inr, Bool, true, false, Option, none, some, List, [], ◌∷◌, not, ◌==◌, ◌<◌,
  ap, ◌∙◌, if◌then◌else◌, get_elem?, arith, refl, Option-cases, subst,
}
use pointcaster.Wire.{Bytes}
use pointcaster.Wire.Buffer.{copy_to_buffer}
use pointcaster.PointReceiver.{
  Thrown, threw, bad_alloc, exception, unknown, exception_boundary, Status, ok, decode_failed,
  invalid_argument, out_of_range, already_running, connection_failed, not_running, Context, Answer,
  answer, Value, float_value, int_value, bool_value, other_value, get_known_point_cloud_address,
  timeout,
}
use pointcaster.PointReceiver.Frames.{receive_pass, collect_payloads, dequeue_point_cloud}
use pointcaster.PointReceiver.Calls.{
  Call, name_client, start_messages, stop_messages, start_clouds, stop_clouds, subscribe_message,
  unsubscribe_message, subscribe_cloud, unsubscribe_cloud, next_message, next_cloud, known_address,
  message_pass, cloud_pass, interrupted, interrupted_cloud, interrupted_answer, interrupted_status,
  call, set_client_name, start_message_receiver, stop_message_receiver, start_point_receiver,
  stop_point_receiver, subscribe_to_message, unsubscribe_from_message, subscribe_to_point_cloud,
  unsubscribe_from_point_cloud, dequeue_message, value_status,
}
use pointcaster.PointReceiver.Received.{receive_payloads-IsValid, receive_messages-IsValid}
use pointcaster.PointReceiver.Mailbox.{IsValid, dequeue_point_cloud-Dequeued}

interrupted_status-thrown :
    (t u : Thrown)
    → interrupted_status t (exception_boundary (threw u)) ≡ exception_boundary (threw u)
interrupted_status-thrown t bad_alloc = refl
interrupted_status-thrown t exception = refl
interrupted_status-thrown t unknown = refl

module _ {C F : Type 0} where
  -- The message at the head of the queue is gone, and nothing else.
  abbrev LosesMessage : Context C F → Context C F → Type 0
  LosesMessage c c' =
      (m : Bytes × Value F) × (queue : List (Bytes × Value F)) × (c.message_queue ≡ m ∷ queue)
      × (c' ≡ record c { message_queue = queue })

  -- The oldest pending cloud is taken, as by a call that succeeds.
  abbrev LosesCloud : Context C F → Context C F → Type 0
  LosesCloud c c' =
      (capacity : ℕ) × (a : Answer C F) × (dequeue_point_cloud (some capacity) true c ≡ some a)
      × (a.status ≡ ok)
      × (c' ≡ a.context)

  -- A call that does not succeed changes nothing, except that a message that cannot be passed out, or
  -- a cloud whose copies threw, is gone.
  pub data FailsCleanly (c : Context C F) (a : Answer C F) : Type 0 where
    succeeded : a.status ≡ ok → FailsCleanly c a
    unchanged : a.context ≡ c → FailsCleanly c a
    message_lost : a.status ≡ decode_failed → LosesMessage c a.context → FailsCleanly c a
    cloud_lost :
        (t : Thrown)
        → a.status ≡ exception_boundary (threw t)
        → LosesCloud c a.context
        → FailsCleanly c a

  -- A call that passes out a message has a buffer for its address.
  abbrev pub HasBuffer : Call C F → Type 0
  HasBuffer (next_message none out) = ⊥
  HasBuffer (next_message (some capacity) out) = 0 < capacity
  HasBuffer _ = Unit {0}

  -- A call returns, fails cleanly and leaves a valid context.
  abbrev pub Returns : Context C F → Option (Answer C F) → Type 0
  Returns c o = (a : Answer C F) × (o ≡ some a) × FailsCleanly c a × IsValid a.context

  Returns-answer : (c : Context C F) (s : Status) → IsValid c → Returns c (some (answer s c))
  Returns-answer c s v = (answer s c, refl, unchanged refl, v)

  Returns-ok :
      (c : Context C F) (a : Answer C F) → a.status ≡ ok → IsValid a.context → Returns c (some a)
  Returns-ok c a e w = (a, refl, succeeded e, w)

  -- A call that tests one condition first.
  Returns-test :
      (c : Context C F) (b : Bool) (s : Status) (a : Answer C F)
      → FailsCleanly c a
      → IsValid a.context
      → IsValid c
      → Returns c (some (if b then answer s c else a))
  Returns-test c true s a f w v = (answer s c, refl, unchanged refl, v)
  Returns-test c false s a f w v = (a, refl, f, w)

  Returns-start :
      (c c' : Context C F) (b connected : Bool) (s t : Status)
      → IsValid c'
      → IsValid c
      → Returns c (some (if b then answer s c else if connected then answer ok c' else answer t c))
  Returns-start c c' true connected s t w v = Returns-answer c s v
  Returns-start c c' false true s t w v = Returns-ok c (answer ok c') refl w
  Returns-start c c' false false s t w v = Returns-answer c t v

  value_status-cases :
      (c : Context C F) (a : Answer C F) (x : Value F)
      → a.status ≡ value_status x
      → LosesMessage c a.context
      → FailsCleanly c a
  value_status-cases c a (float_value x) e m = succeeded e
  value_status-cases c a (int_value n) e m = succeeded e
  value_status-cases c a (bool_value b) e m = succeeded e
  value_status-cases c a other_value e m = message_lost e m

  Returns-next_message :
      (capacity : ℕ) (c : Context C F) (queue : List (Bytes × Value F))
      → 0 < capacity
      → c.message_queue ≡ queue
      → IsValid c
      → Returns c (call (next_message (some capacity) true) c)
  unfolding call dequeue_message
  Returns-next_message capacity c [] some_room e v =
      (answer timeout c, ground (arith, e), unchanged refl, v)
  Returns-next_message capacity c ((address, value) ∷ queue) some_room e v =
      let a : Answer C F =
        record (answer (value_status value) (record c { message_queue = queue })) {
          address = (copy_to_buffer capacity address).0;
          message = some value;
        } in
      (
        a,
        ground (arith, e, some_room),
        value_status-cases c a value refl ((address, value), queue, e, refl),
        v,
      )

  Returns-next_cloud :
      (capacity : ℕ) (c : Context C F)
      → IsValid c
      → Returns c (dequeue_point_cloud (some capacity) true c)
  unfolding dequeue_point_cloud
  Returns-next_cloud zero c v = Returns-answer c invalid_argument v
  Returns-next_cloud (suc n) c v = elim (dequeue_point_cloud-Dequeued c (suc n) v (omega arith)) [
    | inl (e, waits) ↦ (answer timeout c, e, unchanged refl, v)
    | inr (a, cloud, c', e, waits, gone, least, w) ↦ (_, e, succeeded refl, w)
  ]

  interrupted-FailsCleanly :
      (capacity : ℕ) (t : Thrown) (c : Context C F) (a : Answer C F)
      → dequeue_point_cloud (some capacity) true c ≡ some a
      → FailsCleanly c a
      → FailsCleanly c (interrupted_answer t a)
  interrupted-FailsCleanly capacity t c a e (succeeded q) =
      cloud_lost t (rw q refl) (capacity, a, e, q, refl)
  interrupted-FailsCleanly capacity t c a e (unchanged q) = unchanged q
  interrupted-FailsCleanly capacity t c a e (message_lost q m) = message_lost (rw q refl) m
  interrupted-FailsCleanly capacity t c a e (cloud_lost u q m) =
      cloud_lost u (ap (interrupted_status t) q ∙ interrupted_status-thrown t u) m

  -- The clouds' call when its copies throw.
  Returns-interrupted :
      (capacity : ℕ) (t : Thrown) (c : Context C F)
      → IsValid c
      → Returns c (call (interrupted_cloud capacity t) c)
  unfolding call
  Returns-interrupted capacity t c v =
      let (a, e, f, w) = Returns-next_cloud capacity c v in
      (interrupted_answer t a, ground (arith, e), interrupted-FailsCleanly capacity t c a e f, w)

  Returns-known :
      (index capacity : ℕ) (c : Context C F)
      → IsValid c
      → Returns c (some (get_known_point_cloud_address index (some capacity) c))
  unfolding get_known_point_cloud_address
  Returns-known index capacity c v =
      elim (Option-cases (get_elem? c.known_point_cloud_addresses index)) [
        | inl n ↦ subst (Returns c) (ground (arith, n)) (
            Returns-test c (capacity == 0) invalid_argument (answer out_of_range c) (unchanged refl)
              v v)
        | inr (a, n) ↦
            let w : Answer C F =
              record (answer (if (copy_to_buffer capacity a).1 then ok else invalid_argument) c) {
                address = (copy_to_buffer capacity a).0;
              } in
            subst (Returns c) (ground (arith, n))
              (Returns-test c (capacity == 0) invalid_argument w (unchanged refl) v v)
      ]

  -- In a valid context every call returns, one that throws at its start or while it copies a cloud's
  -- attributes included, if a call for a message has a buffer that is not empty for its address. When
  -- the call does not succeed the context is as before, except that a message that cannot be passed
  -- out is gone, or that the cloud taken before an exception is no longer pending; and the context
  -- stays valid.
  pub call-Returns :
      (k : Call C F) (c : Context C F) → HasBuffer k → IsValid c → Returns c (call k c)
  unfolding call set_client_name start_message_receiver stop_message_receiver start_point_receiver
      stop_point_receiver subscribe_to_message unsubscribe_from_message subscribe_to_point_cloud
      unsubscribe_from_point_cloud dequeue_message dequeue_point_cloud get_known_point_cloud_address
      receive_pass
  call-Returns (name_client none) c b v = Returns-answer c invalid_argument v
  call-Returns (name_client (some name)) c b v = Returns-ok c _ refl v
  call-Returns (start_messages connects none) c b v = Returns-answer c invalid_argument v
  call-Returns (start_messages connects (some a)) c b v =
      Returns-start c _ c.message_worker (connects a) already_running connection_failed v v
  call-Returns stop_messages c b v =
      Returns-test c (not c.message_worker) not_running _ (succeeded refl) v v
  call-Returns (start_clouds connects none) c b v = Returns-answer c invalid_argument v
  call-Returns (start_clouds connects (some a)) c b v =
      Returns-start c _ c.point_cloud_worker (connects a) already_running connection_failed v v
  call-Returns stop_clouds c b v =
      Returns-test c (not c.point_cloud_worker) not_running _ (succeeded refl) tt v
  call-Returns (subscribe_message a) c b v = Returns-ok c _ refl v
  call-Returns (unsubscribe_message a) c b v = Returns-ok c _ refl v
  call-Returns (subscribe_cloud a) c b v = Returns-ok c _ refl v
  call-Returns (unsubscribe_cloud a) c b v = Returns-ok c _ refl v
  call-Returns (next_message none out) c b v = absurd b
  call-Returns (next_message (some capacity) false) c b v = Returns-answer c invalid_argument v
  call-Returns (next_message (some capacity) true) c b v =
      Returns-next_message capacity c c.message_queue b refl v
  call-Returns (interrupted t) c b v = Returns-answer c (exception_boundary (threw t)) v
  call-Returns (interrupted_cloud capacity t) c b v = Returns-interrupted capacity t c v
  call-Returns (next_cloud none out) c b v = Returns-answer c invalid_argument v
  call-Returns (next_cloud (some capacity) false) c b v = Returns-answer c invalid_argument v
  call-Returns (next_cloud (some capacity) true) c b v = Returns-next_cloud capacity c v
  call-Returns (known_address index none) c b v = Returns-answer c invalid_argument v
  call-Returns (known_address index (some capacity)) c b v = Returns-known index capacity c v
  call-Returns (message_pass deserialize messages) c b v =
      Returns-ok c _ refl (receive_messages-IsValid deserialize messages c v)
  call-Returns (cloud_pass decompress messages) c b v =
      Returns-ok c _ refl (receive_payloads-IsValid decompress (collect_payloads [] messages) c v)
