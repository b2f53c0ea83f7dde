-- ===== src/Workspace/Sessions/Left.antt =====
-- What `Workspace::sync_sessions` of src/workspace/workspace.cc leaves.
use pointcaster.Prelude.{
  ℕ, ◌≡◌, ◌⊎◌, inl, inr, String, Bool, true, false, Option, none, some, List, [], ◌∷◌, str_eq,
  eq_iff, if◌then◌else◌, arith, refl, Bool-cases, Option-cases, ◌∙◌, sym, ap,
}
use pointcaster.Workspace.Sessions.{
  SessionConfig, Session, Sessions, find_session, put_session, sync_session, sync_each, listed,
  pruned, sync_sessions,
}

module _ {V : Type 0} where
  -- The configuration of an id, the last one given.
  unfoldable pub config_of : List (SessionConfig V) → String → Option (SessionConfig V)
  config_of [] id = none
  config_of (c ∷ cs) id = elim (config_of cs id) [
    | some d ↦ some d
    | none ↦ if str_eq c.id id then some c else none
  ]

  find_session-put_session :
      (id q : String) (x : Session V) (m : List (String × Option (Session V)))
      → find_session (put_session id x m) q
        ≡ (if str_eq id q then some (some x) else find_session m q)
  unfolding find_session put_session
  find_session-put_session id q x [] = refl
  find_session-put_session id q x ((k, t) ∷ m) =
      ground (arith, eq_iff k id, eq_iff k q, eq_iff id q, find_session-put_session id q x m)

  abbrev pub HasNoNull : List (String × Option (Session V)) → Type 0
  HasNoNull m = (q : String) → ¬ (find_session m q ≡ some none)

  -- The object that an id has after the first loop.
  abbrev instance_for : Option (Option (Session V)) → ℕ → ℕ
  instance_for none n = n
  instance_for (some none) n = n
  instance_for (some (some x)) n = x.instance_id

  sync_session-find :
      (c : SessionConfig V) (s : Sessions V) (q : String)
      → HasNoNull s.sessions
      → find_session (sync_session c s).sessions q ≡ (
          if str_eq c.id q
          then some (
              some (record {
                instance_id = instance_for (find_session s.sessions c.id) s.next_instance;
                config = c;
              }))
          else find_session s.sessions q)
  unfolding sync_session
  sync_session-find c s q v = elim (Option-cases (find_session s.sessions c.id)) [
    | inl n ↦ ground (
      arith,
      n,
      find_session-put_session c.id q (record { instance_id = s.next_instance; config = c })
          s.sessions,
    )
    | inr (none, n) ↦ absurd (v c.id n)
    | inr (some x, n) ↦
        ground (arith, n, find_session-put_session c.id q (record x { config = c }) s.sessions)
  ]

  sync_session-HasNoNull :
      (c : SessionConfig V) (s : Sessions V)
      → HasNoNull s.sessions
      → HasNoNull (sync_session c s).sessions
  sync_session-HasNoNull c s v q h = ground (arith, h, sync_session-find c s q v, v q)

  -- What the first loop leaves at an id.
  abbrev pub IsSynced :
      Option (SessionConfig V) → Option (Option (Session V)) → Option (Option (Session V)) → Type 0
  IsSynced none before after = after ≡ before
  IsSynced (some c) before after =
      (x : Session V) × (after ≡ some (some x))
      × (x.config ≡ c)
      × ((old : Session V) → before ≡ some (some old) → x.instance_id ≡ old.instance_id)

  IsSynced-session :
      (c : SessionConfig V) (s : Sessions V) (q : String)
      → HasNoNull s.sessions
      → str_eq c.id q ≡ true
      → IsSynced (some c) (find_session s.sessions q) (find_session (sync_session c s).sessions q)
  IsSynced-session c s q v e =
      let p = (eq_iff c.id q).0 e in
      (
        record {
          instance_id = instance_for (find_session s.sessions c.id) s.next_instance;
          config = c;
        },
        sync_session-find c s q v ∙ ground (arith, e),
        refl,
        λ old h.
            ap (λ z. instance_for (find_session s.sessions z) s.next_instance) p
            ∙ ap (λ o. instance_for o s.next_instance) h,
      )

  -- The later configurations act on what the first one left.
  IsSynced-later :
      (d : SessionConfig V) (before between after : Option (Option (Session V)))
      → (between ≡ before)
        ⊎ ((x : Session V) × (between ≡ some (some x))
            × ((old : Session V) → before ≡ some (some old) → x.instance_id ≡ old.instance_id))
      → IsSynced (some d) between after
      → IsSynced (some d) before after
  IsSynced-later d before between after (inl e) (x, a, b, same) =
      (x, a, b, λ old h. same old (e ∙ h))
  IsSynced-later d before between after (inr (y, e, keeps)) (x, a, b, same) =
      (x, a, b, λ old h. same y e ∙ keeps old h)

  IsSynced-cons :
      (o : Option (SessionConfig V)) (b : Bool) (c : SessionConfig V)
      (before between after : Option (Option (Session V)))
      → (b ≡ true → IsSynced (some c) before between)
      → (b ≡ false → between ≡ before)
      → IsSynced o between after
      → IsSynced (elim o [ some d ↦ some d | none ↦ if b then some c else none ]) before after
  IsSynced-cons none true c before between after own other rest =
      let (x, a, e, same) = own refl in (x, rest ∙ a, e, same)
  IsSynced-cons none false c before between after own other rest = rest ∙ other refl
  IsSynced-cons (some d) true c before between after own other rest =
      let (x, a, e, same) = own refl in
      IsSynced-later d before between after (inr (x, a, same)) rest
  IsSynced-cons (some d) false c before between after own other rest =
      IsSynced-later d before between after (inl (other refl)) rest

  sync_each-IsSynced :
      (cs : List (SessionConfig V)) (s : Sessions V) (q : String)
      → HasNoNull s.sessions
      → IsSynced
          (config_of cs q)
          (find_session s.sessions q)
          (find_session (sync_each cs s).sessions q)
  unfolding sync_each config_of
  sync_each-IsSynced [] s q v = refl
  sync_each-IsSynced (c ∷ cs) s q v =
      IsSynced-cons (config_of cs q) (str_eq c.id q) c (find_session s.sessions q)
        (find_session (sync_session c s).sessions q)
        (find_session (sync_each cs (sync_session c s)).sessions q) (IsSynced-session c s q v)
        (λ e. sync_session-find c s q v ∙ ground (arith, e))
        (sync_each-IsSynced cs (sync_session c s) q (sync_session-HasNoNull c s v))

  sync_each-HasNoNull :
      (cs : List (SessionConfig V)) (s : Sessions V)
      → HasNoNull s.sessions
      → HasNoNull (sync_each cs s).sessions
  unfolding sync_each
  sync_each-HasNoNull [] s v = v
  sync_each-HasNoNull (c ∷ cs) s v =
      sync_each-HasNoNull cs (sync_session c s) (sync_session-HasNoNull c s v)

  listed-config_of :
      (cs : List (SessionConfig V)) (q : String)
      → listed cs q ≡ elim (config_of cs q) [ none ↦ false | some c ↦ true ]
  unfolding listed config_of
  listed-config_of [] q = refl
  listed-config_of (c ∷ cs) q = elim (Option-cases (config_of cs q)) [
    | inl n ↦ ground (arith, n, listed-config_of cs q)
    | inr (d, n) ↦ ground (arith, n, listed-config_of cs q)
  ]

  pruned-unlisted :
      (cs : List (SessionConfig V)) (m : List (String × Option (Session V))) (q : String)
      → listed cs q ≡ false
      → find_session (pruned cs m).0 q ≡ none
  unfolding pruned find_session
  pruned-unlisted cs [] q h = refl
  pruned-unlisted cs ((k, none) ∷ m) q h = pruned-unlisted cs m q h
  pruned-unlisted cs ((k, some x) ∷ m) q h = elim (Bool-cases (listed cs k)) [
    | inl l ↦ ground (arith, l, h, eq_iff k q, pruned-unlisted cs m q h)
    | inr l ↦ ground (arith, l, pruned-unlisted cs m q h)
  ]

  pruned-listed :
      (cs : List (SessionConfig V)) (m : List (String × Option (Session V))) (q : String)
      → listed cs q ≡ true
      → ¬ (find_session m q ≡ some none)
      → find_session (pruned cs m).0 q ≡ find_session m q
  unfolding pruned find_session
  pruned-listed cs [] q h v = refl
  pruned-listed cs ((k, none) ∷ m) q h v = elim (Bool-cases (str_eq k q)) [
    | inl e ↦ absurd (v (ground (arith, e)))
    | inr e ↦ pruned-listed cs m q h (λ n. v (ground (arith, e, n))) ∙ ground (arith, e)
  ]
  pruned-listed cs ((k, some x) ∷ m) q h v = elim (Bool-cases (str_eq k q)) [
    | inl e ↦ ground (arith, e, h, (eq_iff k q).0 e)
    | inr e ↦ elim (Bool-cases (listed cs k)) [
      | inl l ↦ ground (arith, e, l, pruned-listed cs m q h (λ n. v (ground (arith, e, n))))
      | inr l ↦ ground (arith, e, l, pruned-listed cs m q h (λ n. v (ground (arith, e, n))))
    ]
  ]

  -- What a sync leaves at an id: nothing without a configuration.
  abbrev pub IsLeft :
      Option (SessionConfig V) → Option (Option (Session V)) → Option (Option (Session V)) → Type 0
  IsLeft none before after = after ≡ none
  IsLeft (some c) before after = IsSynced (some c) before after

  IsLeft-pruned :
      (o : Option (SessionConfig V)) (l : Bool) (before between after : Option (Option (Session V)))
      → l ≡ elim o [ none ↦ false | some c ↦ true ]
      → IsSynced o before between
      → (l ≡ false → after ≡ none)
      → (l ≡ true → after ≡ between)
      → IsLeft o before after
  IsLeft-pruned none l before between after e i gone stays = gone e
  IsLeft-pruned (some c) l before between after e (x, a, b, same) gone stays =
      (x, stays e ∙ a, b, same)

  -- When no session is a null pointer, a sync leaves, for each id, nothing without a configuration of
  -- that id, and otherwise a session with the last configuration given for it, which is the object
  -- that was there when one was. No session is a null pointer then either.
  pub sync_sessions-IsLeft :
      (cs : List (SessionConfig V)) (s : Sessions V)
      → HasNoNull s.sessions
      → ((q : String)
          → IsLeft
              (config_of cs q)
              (find_session s.sessions q)
              (find_session (sync_sessions cs s).sessions q))
        × HasNoNull (sync_sessions cs s).sessions
  unfolding sync_sessions
  sync_sessions-IsLeft cs s v =
      let w = sync_each-HasNoNull cs s v in
      let m = (sync_each cs s).sessions in
      (
        λ q.
            IsLeft-pruned (config_of cs q) (listed cs q) (find_session s.sessions q)
              (find_session m q) (find_session (pruned cs m).0 q) (listed-config_of cs q)
              (sync_each-IsSynced cs s q v) (pruned-unlisted cs m q)
              (λ l. pruned-listed cs m q l (w q)),
        λ q h. elim (Bool-cases (listed cs q)) [
          | inl l ↦ w q (sym (pruned-listed cs m q l (w q)) ∙ h)
          | inr l ↦ absurd (ground (arith, h, pruned-unlisted cs m q l))
        ],
      )
