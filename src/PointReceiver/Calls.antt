-- ===== src/PointReceiver/Calls.antt =====
-- The other calls of src/pointreceiver/pointreceiver.cc, and a call of any of them. A null pointer is
-- `none`. Whether a socket connects is a parameter.
use pointcaster.Prelude.{
  ℕ, Bool, true, false, Option, none, some, List, [], ◌∷◌, ◌++◌, ◌==◌, if◌then◌else◌, not,
}
use pointcaster.Wire.{Bytes}
use pointcaster.Wire.Buffer.{copy_to_buffer}
use pointcaster.PointReceiver.{
  Thrown, threw, exception_boundary, Status, ok, invalid_argument, already_running, not_running,
  connection_failed, timeout, decode_failed, Value, float_value, int_value, bool_value, other_value,
  Context, Answer, answer, insert, remove, get_known_point_cloud_address,
}
use pointcaster.PointReceiver.Frames.{receive_pass, dequeue_point_cloud}

-- `address ? address : ""`.
abbrev pub or_empty : Option Bytes → Bytes
or_empty none = []
or_empty (some a) = a

module _ {F : Type 0} where
  -- The status of a value that is passed out.
  abbrev pub value_status : Value F → Status
  value_status (float_value x) = ok
  value_status (int_value n) = ok
  value_status (bool_value b) = ok
  value_status other_value = decode_failed

module _ {C F : Type 0} where
  unfoldable pub set_client_name : Option Bytes → Context C F → Answer C F
  set_client_name none c = answer invalid_argument c
  set_client_name (some name) c = answer ok (record c { client_name = some name })

  unfoldable pub start_message_receiver : (Bytes → Bool) → Option Bytes → Context C F → Answer C F
  start_message_receiver connects none c = answer invalid_argument c
  start_message_receiver connects (some endpoint) c =
      if c.message_worker
      then answer already_running c
      else if connects endpoint
      then answer ok (record c { message_worker = true })
      else answer connection_failed c

  unfoldable pub stop_message_receiver : Context C F → Answer C F
  stop_message_receiver c =
      if not c.message_worker
      then answer not_running c
      else answer ok (record c { message_worker = false })

  unfoldable pub start_point_receiver : (Bytes → Bool) → Option Bytes → Context C F → Answer C F
  start_point_receiver connects none c = answer invalid_argument c
  start_point_receiver connects (some endpoint) c =
      if c.point_cloud_worker
      then answer already_running c
      else if connects endpoint
      then answer ok (record c { point_cloud_worker = true })
      else answer connection_failed c

  unfoldable pub stop_point_receiver : Context C F → Answer C F
  stop_point_receiver c =
      if not c.point_cloud_worker
      then answer not_running c
      else answer ok (record c { point_cloud_worker = false; point_cloud_frames = [] })

  unfoldable pub subscribe_to_message : Option Bytes → Context C F → Answer C F
  subscribe_to_message address c =
      answer ok
        (record c { message_subscriptions = insert (or_empty address) c.message_subscriptions })

  unfoldable pub unsubscribe_from_message : Option Bytes → Context C F → Answer C F
  unsubscribe_from_message address c =
      answer ok
        (record c { message_subscriptions = remove (or_empty address) c.message_subscriptions })

  unfoldable pub subscribe_to_point_cloud : Option Bytes → Context C F → Answer C F
  subscribe_to_point_cloud address c = answer ok (record c {
    point_cloud_subscriptions = insert (or_empty address) c.point_cloud_subscriptions;
  })

  unfoldable pub unsubscribe_from_point_cloud : Option Bytes → Context C F → Answer C F
  unsubscribe_from_point_cloud address c = answer ok (record c {
    point_cloud_subscriptions = remove (or_empty address) c.point_cloud_subscriptions;
  })

  -- The messages of a pass of the receiving thread, those that decode, enter the queue.
  unfoldable pub receive_messages :
      (Bytes → Option (Value F)) → List (Bytes × Bytes) → Context C F → Context C F
  receive_messages deserialize [] c = c
  receive_messages deserialize ((topic, payload) ∷ rest) c = elim (deserialize payload) [
    | none ↦ receive_messages deserialize rest c
    | some value ↦
        receive_messages deserialize rest
          (record c { message_queue = c.message_queue ++ (topic, value) ∷ [] })
  ]

  -- The call at the end of its wait; its buffer is not checked.
  unfoldable pub dequeue_message : ℕ → Bool → Context C F → Answer C F
  dequeue_message capacity false c = answer invalid_argument c
  dequeue_message capacity true c = elim c.message_queue [
    | [] ↦ answer timeout c
    | (address, value) ∷ queue ↦
        record (answer (value_status value) (record c { message_queue = queue })) {
          address = (copy_to_buffer capacity address).0;
          message = some value;
        }
  ]

-- A call of the interface, or a pass of one of the two threads.
pub data Call (C F : Type 0) : Type 0 where
  name_client : Option Bytes → Call C F
  start_messages : (Bytes → Bool) → Option Bytes → Call C F
  stop_messages : Call C F
  start_clouds : (Bytes → Bool) → Option Bytes → Call C F
  stop_clouds : Call C F
  subscribe_message unsubscribe_message : Option Bytes → Call C F
  subscribe_cloud unsubscribe_cloud : Option Bytes → Call C F
  -- the capacity of the address's buffer, which may be null, and whether there is room for a message
  next_message : Option ℕ → Bool → Call C F
  next_cloud : Option ℕ → Bool → Call C F
  known_address : ℕ → Option ℕ → Call C F
  message_pass : (Bytes → Option (Value F)) → List (Bytes × Bytes) → Call C F
  -- a call that throws before it changes the context
  interrupted : Thrown → Call C F
  -- `dequeue_point_cloud` whose copies of the attributes throw, once a cloud is taken
  interrupted_cloud : ℕ → Thrown → Call C F
  cloud_pass : (Bytes → Option C) → List Bytes → Call C F

abbrev capacity_of : Option ℕ → ℕ
capacity_of none = 0
capacity_of (some n) = n

-- Whether a message's address is written to a null pointer or past a buffer of no capacity.
abbrev overflows {ℓ} : {A : Type ℓ} → Option ℕ → Bool → List A → Bool
overflows buffer false messages = false
overflows buffer true [] = false
overflows buffer true (m ∷ messages) = capacity_of buffer == 0

-- The status when an operation that would have ended well throws instead.
abbrev pub interrupted_status : Thrown → Status → Status
interrupted_status t ok = exception_boundary (threw t)
interrupted_status t s = s

module _ {C F : Type 0} where
  abbrev pub interrupted_answer : Thrown → Answer C F → Answer C F
  interrupted_answer t a = record a {
    status = interrupted_status t a.status;
    address = [];
    cloud = none;
  }

  -- `none` is the use of a null cloud, or a write outside the caller's buffer.
  unfoldable pub call : Call C F → Context C F → Option (Answer C F)
  call (name_client name) c = some (set_client_name name c)
  call (start_messages connects a) c = some (start_message_receiver connects a c)
  call stop_messages c = some (stop_message_receiver c)
  call (start_clouds connects a) c = some (start_point_receiver connects a c)
  call stop_clouds c = some (stop_point_receiver c)
  call (subscribe_message a) c = some (subscribe_to_message a c)
  call (unsubscribe_message a) c = some (unsubscribe_from_message a c)
  call (subscribe_cloud a) c = some (subscribe_to_point_cloud a c)
  call (unsubscribe_cloud a) c = some (unsubscribe_from_point_cloud a c)
  call (next_message buffer out) c =
      if overflows buffer out c.message_queue
      then none
      else some (dequeue_message (capacity_of buffer) out c)
  call (interrupted t) c = some (answer (exception_boundary (threw t)) c)
  call (interrupted_cloud capacity t) c = elim (dequeue_point_cloud (some capacity) true c) [
    | none ↦ none
    | some a ↦ some (interrupted_answer t a)
  ]
  call (next_cloud capacity out) c = dequeue_point_cloud capacity out c
  call (known_address index capacity) c = some (get_known_point_cloud_address index capacity c)
  call (message_pass deserialize messages) c =
      some (answer ok (receive_messages deserialize messages c))
  call (cloud_pass decompress messages) c = some (answer ok (receive_pass decompress messages c))
