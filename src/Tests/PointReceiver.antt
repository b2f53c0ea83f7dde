-- ===== src/Tests/PointReceiver.antt =====
-- A receiver with two streams, whose clouds are numbers, and frames of short addresses.
use pointcaster.Prelude.{
  ◌↔◌, ◌<◌, ℕ, ◌+◌, ◌-◌, ◌≤◌, ◌≡◌, refl, true, false, none, some, [], ◌∷◌, length, arith,
  if◌then◌else◌,
}
use pointcaster.Wire.{Bytes, bytes_eq, starts_with, framed, separated, subscription, has_nul}
use pointcaster.Wire.Framing.{framed-delivered}
use pointcaster.Wire.Buffer.{copy_to_buffer, copy_to_buffer-fits, copy_to_buffer-overflows}
use pointcaster.PointReceiver.{Context, create_context, member, int_value}
use pointcaster.PointReceiver.Frames.{receive_cloud}
use pointcaster.PointReceiver.Calls.{next_message, call, dequeue_message}
use pointcaster.PointReceiver.Subscriptions.{
  Snapshot, Socket, sync_subscriptions, occurs, topics, sync_subscriptions-held,
}
use pointcaster.PointReceiver.Mailbox.{
  Dequeued, dequeue_point_cloud-Dequeued, receive_cloud-IsValid,
}
use pointcaster.PointReceiver.Failures.{Returns, call-Returns}
use pointcaster.Prelude.Int.{pos}
use pointcaster.PointReceiver.Buffers.{dequeue_message-fits_iff}
use pointcaster.PointReceiver.Starved.{served, served-starves}

abbrev left : Bytes
left = 108 ∷ []

abbrev right : Bytes
right = 114 ∷ []

framed-delivered_example :
    (starts_with (framed left (9 ∷ 0 ∷ [])) (subscription right) ≡ false)
    × (separated (framed left (9 ∷ 0 ∷ [])) ≡ some (left, 9 ∷ 0 ∷ []))
unfolding bytes_eq has_nul
framed-delivered_example = framed-delivered left right (9 ∷ 0 ∷ []) refl refl

copy_to_buffer-fits_example :
    (length (copy_to_buffer 2 (108 ∷ 105 ∷ [])).0 ≤ 2)
    × (separated (copy_to_buffer 2 (108 ∷ 105 ∷ [])).0 ≡ some (108 ∷ [], []))
    × ((copy_to_buffer 2 (108 ∷ 105 ∷ [])).1 ≡ false)
unfolding has_nul
copy_to_buffer-fits_example =
    copy_to_buffer-fits 2 (108 ∷ 105 ∷ []) (omega arith) (omega arith) refl

copy_to_buffer-overflows_example : copy_to_buffer 0 left ≡ (108 ∷ 0 ∷ [], true)
copy_to_buffer-overflows_example = copy_to_buffer-overflows left (omega arith)

-- A socket that counts the subscriptions of each topic.
abbrev counting : Socket
counting = record {
  State = Bytes → ℕ;
  subscribe = λ t s q. (if bytes_eq t q then 1 else 0) + s q;
  unsubscribe = λ t s q. s q - (if bytes_eq t q then 1 else 0);
  held = λ s q. s q;
  held-subscribe = λ t q s. refl;
  held-unsubscribe = λ t q s. refl;
}

abbrev both : Snapshot
both = record { pointer = 1; addresses = left ∷ right ∷ [] }

sync_subscriptions-held_example :
    ((q : Bytes)
      → (sync_subscriptions counting none both (λ _. 0)).1 q
        ≡ occurs (topics (left ∷ right ∷ [])) q)
    × ((sync_subscriptions counting none both (λ _. 0)).0 ≡ both)
unfolding occurs member bytes_eq
sync_subscriptions-held_example =
    sync_subscriptions-held counting none both (λ _. 0) tt (refl, (refl, tt)) (λ old e p. cc)
      (λ q. refl)

call-Returns_example :
    Returns {C = ℕ} {F = ℕ} create_context (call (next_message (some 4) true) create_context)
unfolding create_context
call-Returns_example =
    call-Returns {C = ℕ} {F = ℕ} (next_message (some 4) true) create_context (omega arith) tt

-- The last cloud of the left stream.
abbrev waiting_left : Context ℕ ℕ
waiting_left = receive_cloud left 7 create_context

dequeue_point_cloud-Dequeued_example : Dequeued {C = ℕ} {F = ℕ} 2 waiting_left
unfolding create_context
dequeue_point_cloud-Dequeued_example =
    dequeue_point_cloud-Dequeued waiting_left 2 (receive_cloud-IsValid create_context left 7 tt)
      (omega arith)

served-starves_example : served {C = ℕ} ℕ left right 7 8 2 3 create_context ≡ some (7 ∷ 7 ∷ 7 ∷ [])
unfolding bytes_eq
served-starves_example = served-starves {C = ℕ} ℕ left right 7 8 2 3 refl (omega arith)

abbrev queued : Context ℕ ℕ
unfolding create_context
queued = record create_context { message_queue = (left, int_value (pos 3)) ∷ [] }

dequeue_message-fits_iff_example : (length (dequeue_message 1 true queued).address ≤ 1) ↔ (0 < 1)
unfolding queued
dequeue_message-fits_iff_example =
    dequeue_message-fits_iff queued 1 left (int_value (pos 3)) [] refl (omega arith)
