-- ===== src/PointReceiver/Buffers.antt =====
-- The buffer that `pointreceiver_dequeue_message` of src/pointreceiver/pointreceiver.cc writes to.
use pointcaster.Prelude.{
  ℕ, ◌+◌, ◌<◌, ◌≤◌, ◌^◌, ◌≡◌, ◌↔◌, true, List, [], ◌∷◌, length, arith, ap, take, min, length-append,
  length-take, ◌∙◌, sym, subst,
}
use pointcaster.Wire.{Bytes}
use pointcaster.Wire.Buffer.{copy_to_buffer, last_offset}
use pointcaster.PointReceiver.{Context, Value}
use pointcaster.PointReceiver.Calls.{dequeue_message}

-- The bytes that a copy writes.
length-copy_to_buffer :
    (capacity : ℕ) (source : Bytes)
    → length (copy_to_buffer capacity source).0 ≡ min (last_offset capacity) (length source) + 1
unfolding copy_to_buffer
length-copy_to_buffer capacity source =
    length-append (take (last_offset capacity) source) (0 ∷ [])
    ∙ ap (λ n. n + 1) (length-take (last_offset capacity) source)

fits_iff :
    (capacity n : ℕ)
    → capacity < 2 ^ 64
    → (min (last_offset capacity) n + 1 ≤ capacity) ↔ (0 < capacity)
fits_iff capacity n h = (λ p. omega (arith, p), λ p. omega (arith, p, h))

module _ {C F : Type 0} where
  -- With a message in the queue, what the call writes stays within the caller's buffer exactly when
  -- the buffer has room for a byte: the call does not reject a capacity of zero.
  pub dequeue_message-fits_iff :
      (c : Context C F) (capacity : ℕ) (address : Bytes) (value : Value F)
      (queue : List (Bytes × Value F))
      → c.message_queue ≡ (address, value) ∷ queue
      → capacity < 2 ^ 64
      → (length (dequeue_message capacity true c).address ≤ capacity) ↔ (0 < capacity)
  unfolding dequeue_message
  dequeue_message-fits_iff c capacity address value queue e h =
      let written : (dequeue_message capacity true c).address
          ≡ (copy_to_buffer capacity address).0 =
        ground (arith, e) in
      subst (λ n. (n ≤ capacity) ↔ (0 < capacity))
        (sym (ap length written ∙ length-copy_to_buffer capacity address))
        (fits_iff capacity (length address) h)
