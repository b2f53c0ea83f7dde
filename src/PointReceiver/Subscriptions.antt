-- ===== src/PointReceiver/Subscriptions.antt =====
-- `sync_subscriptions` of src/pointreceiver/pointreceiver.cc. The socket of the library is an
-- interface: how often it holds each topic.
use pointcaster.Prelude.{
  ℕ, ◌+◌, ◌-◌, ◌≡◌, ◌==◌, true, false, Option, none, some, List, [], ◌∷◌, ◌++◌, map, if◌then◌else◌,
  arith, refl, Bool-cases, inl, inr, ◌∙◌, ap,
}
use pointcaster.Wire.{Bytes, bytes_eq, bytes_eq_iff, subscription}
use pointcaster.PointReceiver.{member, insert, remove}

-- A shared pointer to a set of addresses.
pub record Snapshot : Type 0 where
  pub pointer : ℕ
  pub addresses : List Bytes

-- `zmq::socket_t`, in its subscriptions: a topic that is set several times is held xs often.
pub record Socket : Type 1 where
  pub State : Type 0
  pub subscribe : Bytes → State → State
  pub unsubscribe : Bytes → State → State
  pub held : State → Bytes → ℕ
  pub held-subscribe :
      (t q : Bytes) (s : State)
      → held (subscribe t s) q ≡ (if bytes_eq t q then 1 else 0) + held s q
  pub held-unsubscribe :
      (t q : Bytes) (s : State)
      → held (unsubscribe t s) q ≡ held s q - (if bytes_eq t q then 1 else 0)

-- The addresses of the second list that the first has not.
unfoldable pub missing : List Bytes → List Bytes → List Bytes
missing known [] = []
missing known (a ∷ xs) = let rest = missing known xs in if member known a then rest else a ∷ rest

unfoldable pub occurs : List Bytes → Bytes → ℕ
occurs [] q = 0
occurs (x ∷ xs) q = (if bytes_eq x q then 1 else 0) + occurs xs q

abbrev pub topics : List Bytes → List Bytes
topics xs = map subscription xs

module _ (socket : Socket) where
  open socket use {State, subscribe, unsubscribe, held, held-subscribe, held-unsubscribe}

  unfoldable pub subscribe_all : List Bytes → State → State
  subscribe_all [] s = s
  subscribe_all (a ∷ xs) s = subscribe_all xs (subscribe (subscription a) s)

  unfoldable pub unsubscribe_all : List Bytes → State → State
  unsubscribe_all [] s = s
  unsubscribe_all (a ∷ xs) s = unsubscribe_all xs (unsubscribe (subscription a) s)

  -- The snapshot kept by the thread, null at first, and the one loaded.
  unfoldable pub sync_subscriptions : Option Snapshot → Snapshot → State → Snapshot × State
  sync_subscriptions none latest s = (latest, subscribe_all latest.addresses s)
  sync_subscriptions (some current) latest s =
      if latest.pointer == current.pointer then (current, s) else (
        latest,
        unsubscribe_all (missing latest.addresses current.addresses)
            (subscribe_all (missing current.addresses latest.addresses) s),
      )

  held-subscribe_all :
      (xs : List Bytes) (s : State) (q : Bytes)
      → held (subscribe_all xs s) q ≡ occurs (topics xs) q + held s q
  unfolding subscribe_all occurs
  held-subscribe_all [] s q = omega arith
  held-subscribe_all (a ∷ xs) s q = omega (
    arith,
    held-subscribe_all xs (subscribe (subscription a) s) q,
    held-subscribe (subscription a) q s,
  )

  held-unsubscribe_all :
      (xs : List Bytes) (s : State) (q : Bytes)
      → held (unsubscribe_all xs s) q ≡ held s q - occurs (topics xs) q
  unfolding unsubscribe_all occurs
  held-unsubscribe_all [] s q = omega arith
  held-unsubscribe_all (a ∷ xs) s q = omega (
    arith,
    held-unsubscribe_all xs (unsubscribe (subscription a) s) q,
    held-unsubscribe (subscription a) q s,
  )

snoc_injective : (a b : Bytes) (x : ℕ) → bytes_eq (a ++ x ∷ []) (b ++ x ∷ []) ≡ bytes_eq a b
unfolding bytes_eq
snoc_injective [] [] x = ground arith
snoc_injective [] (b ∷ []) x = ground arith
snoc_injective [] (b ∷ c ∷ bs) x = ground arith
snoc_injective (a ∷ []) [] x = ground arith
snoc_injective (a ∷ c ∷ xs) [] x = ground arith
snoc_injective (a ∷ xs) (b ∷ bs) x = ground (arith, snoc_injective xs bs x)

-- Addresses that differ have topics that differ.
subscription_injective : (a b : Bytes) → bytes_eq (subscription a) (subscription b) ≡ bytes_eq a b
unfolding subscription bytes_eq
subscription_injective [] [] = refl
subscription_injective [] (b ∷ bs) = refl
subscription_injective (a ∷ xs) [] = refl
subscription_injective (a ∷ xs) (b ∷ bs) = ground (arith, snoc_injective xs bs 0)

member-topics : (xs : List Bytes) (a : Bytes) → member (topics xs) (subscription a) ≡ member xs a
unfolding member
member-topics [] a = refl
member-topics (x ∷ xs) a = ground (arith, subscription_injective x a, member-topics xs a)

occurs-missing :
    (known xs : List Bytes) (q : Bytes)
    → occurs (topics (missing known xs)) q
      ≡ (if member (topics known) q then 0 else occurs (topics xs) q)
unfolding missing occurs
occurs-missing known [] q = ground arith
occurs-missing known (x ∷ xs) q = elim (Bool-cases (bytes_eq (subscription x) q)) [
  | inl e ↦ ground (
    arith,
    e,
    (bytes_eq_iff (subscription x) q).0 e,
    member-topics known x,
    occurs-missing known xs q,
  )
  | inr e ↦ ground (arith, e, occurs-missing known xs q)
]

-- A set has no address twice.
abbrev pub HasNoTwice : List Bytes → Type 0
HasNoTwice [] = Unit {0}
HasNoTwice (x ∷ xs) = (member xs x ≡ false) × HasNoTwice xs

occurs_none : (xs : List Bytes) (q : Bytes) → member xs q ≡ false → occurs xs q ≡ 0
unfolding occurs member
occurs_none [] q h = refl
occurs_none (x ∷ xs) q h = ground (arith, h, occurs_none xs q)

-- In the topics of a set a topic is there once or not at all.
occurs-topics :
    (xs : List Bytes) (q : Bytes)
    → HasNoTwice xs
    → occurs (topics xs) q ≡ (if member (topics xs) q then 1 else 0)
unfolding occurs member
occurs-topics [] q v = refl
occurs-topics (x ∷ xs) q (u, v) = elim (Bool-cases (bytes_eq (subscription x) q)) [
  | inl e ↦
      let p = (bytes_eq_iff (subscription x) q).0 e in
      ground (arith, e, p, u, member-topics xs x, occurs_none (topics xs) q)
  | inr e ↦ ground (arith, e, occurs-topics xs q v)
]

-- The topics that the snapshot kept stands for.
abbrev pub kept : Option Snapshot → List Bytes
kept none = []
kept (some current) = current.addresses

module _ (socket : Socket) where
  open socket use {State, held}

  -- When the socket holds each topic of the snapshot kept, a null one having none, once and no other,
  -- then after a sync it holds those of the snapshot loaded, once and no other, and that is the
  -- snapshot kept. Both are sets, and one pointer has one set.
  pub sync_subscriptions-held :
      (current : Option Snapshot) (latest : Snapshot) (s : State)
      → HasNoTwice (kept current)
      → HasNoTwice latest.addresses
      → ((old : Snapshot) → current ≡ some old → old.pointer ≡ latest.pointer → old ≡ latest)
      → ((q : Bytes) → held s q ≡ occurs (topics (kept current)) q)
      → ((q : Bytes)
          → held (sync_subscriptions socket current latest s).1 q
            ≡ occurs (topics latest.addresses) q)
        × ((sync_subscriptions socket current latest s).0 ≡ latest)
  unfolding sync_subscriptions occurs
  sync_subscriptions-held none latest s u v one h =
      (λ q. omega (arith, held-subscribe_all socket latest.addresses s q, h q), refl)
  sync_subscriptions-held (some old) latest s u v one h =
      elim (Bool-cases (latest.pointer == old.pointer)) [
        | inl e ↦
            let p = one old refl (ground (arith, e)) in
            rw e (λ q. h q ∙ ap (λ z. occurs (topics z.addresses) q) p, p)
        | inr e ↦
            let added = missing old.addresses latest.addresses in
            let dropped = missing latest.addresses old.addresses in
            rw e (
              λ q. ground (
                arith,
                held-unsubscribe_all socket dropped (subscribe_all socket added s) q,
                held-subscribe_all socket added s q,
                occurs-missing old.addresses latest.addresses q,
                occurs-missing latest.addresses old.addresses q,
                occurs-topics old.addresses q u,
                occurs-topics latest.addresses q v,
                h q,
              ),
              refl,
            )
      ]

member-insert :
    (a q : Bytes) (xs : List Bytes)
    → member (insert a xs) q ≡ (if bytes_eq a q then true else member xs q)
unfolding insert member
member-insert a q xs = elim (Bool-cases (member xs a)) [
  | inl e ↦ ground (arith, e, bytes_eq_iff a q)
  | inr e ↦ ground (arith, e)
]

member-remove :
    (a q : Bytes) (xs : List Bytes)
    → member (remove a xs) q ≡ (if bytes_eq a q then false else member xs q)
unfolding remove member
member-remove a q [] = ground arith
member-remove a q (x ∷ xs) =
    ground (arith, bytes_eq_iff x a, bytes_eq_iff x q, bytes_eq_iff a q, member-remove a q xs)

-- Subscribing and unsubscribing keep a set.
insert-HasNoTwice : (a : Bytes) (xs : List Bytes) → HasNoTwice xs → HasNoTwice (insert a xs)
unfolding insert
insert-HasNoTwice a xs v = elim (Bool-cases (member xs a)) [ inl e ↦ rw e v | inr e ↦ rw e (e, v) ]

remove-HasNoTwice : (a : Bytes) (xs : List Bytes) → HasNoTwice xs → HasNoTwice (remove a xs)
unfolding remove
remove-HasNoTwice a [] v = tt
remove-HasNoTwice a (x ∷ xs) (u, v) = elim (Bool-cases (bytes_eq x a)) [
  | inl e ↦ rw e (remove-HasNoTwice a xs v)
  | inr e ↦ rw e (member-remove a x xs ∙ ground (arith, u), remove-HasNoTwice a xs v)
]
