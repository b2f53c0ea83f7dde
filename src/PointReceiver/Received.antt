-- ===== src/PointReceiver/Received.antt =====
-- The passes of the two threads of src/pointreceiver/pointreceiver.cc leave a valid context.
use pointcaster.Prelude.{Option, List, [], ◌∷◌, ◌++◌, inl, inr, arith, Option-cases, subst}
use pointcaster.Wire.{Bytes}
use pointcaster.PointReceiver.{Context, Value}
use pointcaster.PointReceiver.Frames.{receive_cloud, receive_payloads}
use pointcaster.PointReceiver.Calls.{receive_messages}
use pointcaster.PointReceiver.Mailbox.{IsValid, receive_cloud-IsValid}

module _ {C F : Type 0} where
  pub receive_payloads-IsValid :
      (decompress : Bytes → Option C) (payloads : List (Bytes × Bytes)) (c : Context C F)
      → IsValid c
      → IsValid (receive_payloads decompress payloads c)
  unfolding receive_payloads
  receive_payloads-IsValid decompress [] c v = v
  receive_payloads-IsValid decompress ((a, payload) ∷ rest) c v =
      elim (Option-cases (decompress payload)) [
        | inl n ↦
            subst IsValid {x = receive_payloads decompress rest c}
              {y = receive_payloads decompress ((a, payload) ∷ rest) c} (ground (arith, n))
              (receive_payloads-IsValid decompress rest c v)
        | inr (cloud, n) ↦
            subst IsValid {x = receive_payloads decompress rest (receive_cloud a cloud c)}
              {y = receive_payloads decompress ((a, payload) ∷ rest) c} (ground (arith, n))
              (receive_payloads-IsValid decompress rest (receive_cloud a cloud c)
                (receive_cloud-IsValid c a cloud v))
      ]

  pub receive_messages-IsValid :
      (deserialize : Bytes → Option (Value F)) (messages : List (Bytes × Bytes)) (c : Context C F)
      → IsValid c
      → IsValid (receive_messages deserialize messages c)
  unfolding receive_messages
  receive_messages-IsValid deserialize [] c v = v
  receive_messages-IsValid deserialize ((t, payload) ∷ rest) c v =
      elim (Option-cases (deserialize payload)) [
        | inl n ↦
            subst IsValid {x = receive_messages deserialize rest c}
              {y = receive_messages deserialize ((t, payload) ∷ rest) c} (ground (arith, n))
              (receive_messages-IsValid deserialize rest c v)
        | inr (value, n) ↦
            let c' : Context C F = record c {
              message_queue = c.message_queue ++ (t, value) ∷ [];
            } in
            subst IsValid {x = receive_messages deserialize rest c'}
              {y = receive_messages deserialize ((t, payload) ∷ rest) c} (ground (arith, n))
              (receive_messages-IsValid deserialize rest c' v)
      ]
