-- ===== src/Registry/Subscriptions.antt =====
-- The ids that `on_change` of src/config/config_registry.cc gives out.
use pointcaster.Prelude.{
  ℕ, ◌+◌, ◌<◌, ◌≤◌, ◌≡◌, ◌^◌, String, Bool, true, false, List, [], ◌∷◌, ◌++◌, arith, refl, inl, inr,
  if◌then◌else◌, Bool-cases, ◌==◌, length, ◌||◌, ◌∙◌,
}
use pointcaster.Registry.{
  Subscription, Registry, Call, registers, unregisters, clears, subscribes, unsubscribes, step, run,
  empty_registry, on_change, remove_subscription, erase_subs, register_field, unregister, clear,
}

module _ {W : Type 0} where
  abbrev pub has_id : ℕ → List (Subscription W) → Bool
  has_id i [] = false
  has_id i (s ∷ ss) = s.id == i || has_id i ss

  has_id-append :
      (i : ℕ) (ss : List (Subscription W)) (s : Subscription W)
      → has_id i (ss ++ s ∷ []) ≡ (has_id i ss || s.id == i)
  has_id-append i [] s = ground arith
  has_id-append i (x ∷ xs) s = ground (arith, has_id-append i xs s)

  has_id-erase_subs :
      (i j : ℕ) (ss : List (Subscription W))
      → has_id i (erase_subs j ss) ≡ (if i == j then false else has_id i ss)
  unfolding erase_subs
  has_id-erase_subs i j [] = ground arith
  has_id-erase_subs i j (s ∷ ss) = ground (arith, has_id-erase_subs i j ss)

  erase_subs-absent :
      (i : ℕ) (ss : List (Subscription W)) → has_id i ss ≡ false → erase_subs i ss ≡ ss
  unfolding erase_subs
  erase_subs-absent i [] h = refl
  erase_subs-absent i (s ∷ ss) h = ground (arith, h, erase_subs-absent i ss)

  erase_subs-append :
      (i : ℕ) (ss : List (Subscription W)) (s : Subscription W)
      → s.id ≡ i
      → erase_subs i (ss ++ s ∷ []) ≡ erase_subs i ss
  unfolding erase_subs
  erase_subs-append i [] s e = ground (arith, e)
  erase_subs-append i (x ∷ xs) s e = ground (arith, e, erase_subs-append i xs s e)

module _ {W V : Type 0} where
  -- The id of each subscription was given out, and is below the next one.
  abbrev pub IsValid : Registry W V → Type 0
  IsValid r = (i : ℕ) → has_id i r.subs ≡ true → i < r.next_id

  -- One call gives out at most one id, the next, and brings back none that was given out.
  step-next :
      (r : Registry W V) (c : Call W V) (i : ℕ)
      → r.next_id + 1 < 2 ^ 64
      → (r.next_id ≤ (step r c).next_id)
        × ((step r c).next_id ≤ r.next_id + 1)
        × (i < r.next_id → has_id i r.subs ≡ false → has_id i (step r c).subs ≡ false)
        × (has_id i (step r c).subs ≡ true → has_id i r.subs ≡ false → i < (step r c).next_id)
  unfolding step register_field unregister clear on_change remove_subscription
  step-next r (registers path field) i h = ground (arith, h)
  step-next r (unregisters prefix) i h = ground (arith, h)
  step-next r clears i h = ground (arith, h)
  step-next r (subscribes prefix cb) i h =
      ground (
        arith,
        h,
        has_id-append i r.subs (record { id = r.next_id; prefix = prefix; callback = cb }),
      )
  step-next r (unsubscribes id) i h = ground (arith, h, has_id-erase_subs i id r.subs)

  step-IsValid :
      (r : Registry W V) (c : Call W V) → r.next_id + 1 < 2 ^ 64 → IsValid r → IsValid (step r c)
  step-IsValid r c h v i e = elim (Bool-cases (has_id i r.subs)) [
    | inl old ↦ let (a, b, kept, new) = step-next r c i h in omega (arith, a, v i old)
    | inr none_old ↦ let (a, b, kept, new) = step-next r c i h in new e none_old
  ]

  run-IsValid :
      (r : Registry W V) (cs : List (Call W V))
      → r.next_id + length cs < 2 ^ 64
      → IsValid r
      → IsValid (run r cs)
  unfolding run
  run-IsValid r [] h v = v
  run-IsValid r (c ∷ cs) h v =
      let (a, b, kept, new) = step-next r c 0 (omega arith) in
      run-IsValid (step r c) cs (omega (arith, b)) (step-IsValid r c (omega arith) v)

  run-gone :
      (r : Registry W V) (cs : List (Call W V)) (id : ℕ)
      → r.next_id + length cs < 2 ^ 64
      → id < r.next_id
      → has_id id r.subs ≡ false
      → has_id id (run r cs).subs ≡ false
  unfolding run
  run-gone r [] id h k g = g
  run-gone r (c ∷ cs) id h k g =
      let (a, b, kept, new) = step-next r c id (omega arith) in
      run-gone (step r c) cs id (omega (arith, b)) (omega (arith, a)) (kept k g)

  -- A subscription that is removed by an id that was given out stays removed: as long as the counter
  -- of 64 bits does not wrap, no later history of calls makes a subscription of that id.
  pub removed_id_stays_gone :
      (r : Registry W V) (cs : List (Call W V)) (id : ℕ)
      → r.next_id + length cs < 2 ^ 64
      → id < r.next_id
      → has_id id (run (remove_subscription id r) cs).subs ≡ false
  unfolding remove_subscription
  removed_id_stays_gone r cs id h k =
      run-gone (remove_subscription id r) cs id h k (ground (arith, has_id-erase_subs id id r.subs))

  -- After any history of calls on a new registry that the counter of 64 bits outlasts, the id that
  -- `on_change` returns is not in use, and removing it again restores the subscriptions.
  pub remove_subscription-on_change :
      (cs : List (Call W V)) (prefix : String) (cb : String → W → W)
      → 1 + length cs < 2 ^ 64
      → let r = run empty_registry cs in
        let (id, subscribed) = on_change prefix cb r in
        (has_id id r.subs ≡ false) × ((remove_subscription id subscribed).subs ≡ r.subs)
  unfolding on_change remove_subscription empty_registry
  remove_subscription-on_change cs prefix cb h =
      let r = run (empty_registry {W = W} {V = V}) cs in
      let v =
        run-IsValid (empty_registry {W = W} {V = V}) cs h (λ i e. absurd (ground (arith, e))) in
      let unused : has_id r.next_id r.subs ≡ false = elim (Bool-cases (has_id r.next_id r.subs)) [
        | inl e ↦ absurd (omega (arith, v r.next_id e))
        | inr e ↦ e
      ] in
      (
        unused,
        erase_subs-append r.next_id r.subs
              (record { id = r.next_id; prefix = prefix; callback = cb }) refl
            ∙ erase_subs-absent r.next_id r.subs unused,
      )
