-- ===== src/Workspace/Sessions.antt =====
-- `Workspace::sync_sessions` of src/workspace/workspace.cc. A session is the number of its object with
-- the configuration it holds. The map of sessions is a list without an order of use.
pub mod Left
use pointcaster.Prelude.{
  ℕ, suc, ◌≡◌, ◌⊎◌, inl, inr, String, Bool, true, false, Option, none, some, List, [], ◌∷◌, ◌++◌,
  str_eq, eq_iff, if◌then◌else◌, arith, refl, Bool-cases, Option-cases, ◌∙◌, sym, ap, str_eq_refl,
}

pub record SessionConfig (V : Type 0) : Type 0 where
  pub id : String
  pub settings : V

pub record Session (V : Type 0) : Type 0 where
  pub instance_id : ℕ
  pub config : SessionConfig V

pub record Sessions (V : Type 0) : Type 0 where
  -- A null pointer is `none`.
  pub sessions : List (String × Option (Session V))
  pub deleted_sessions : List (Option (Session V))
  pub next_instance : ℕ

module _ {V : Type 0} where
  unfoldable pub find_session :
      List (String × Option (Session V)) → String → Option (Option (Session V))
  find_session [] id = none
  find_session ((k, s) ∷ m) id =
      let rest = find_session m id in if str_eq k id then some s else rest

  -- A new entry, or a new value of the entry that is there.
  unfoldable pub put_session :
      String → Session V → List (String × Option (Session V)) → List (String × Option (Session V))
  put_session id s [] = (id, some s) ∷ []
  put_session id s ((k, t) ∷ m) =
      let rest = put_session id s m in if str_eq k id then (k, some s) ∷ m else (k, t) ∷ rest

  -- The first loop: a new session, or the configuration of one that is there.
  unfoldable pub sync_session : SessionConfig V → Sessions V → Sessions V
  sync_session c s = elim (find_session s.sessions c.id) [
    | none ↦ record s {
      sessions = put_session c.id (record { instance_id = s.next_instance; config = c }) s.sessions;
      next_instance = suc s.next_instance;
    }
    | some none ↦ s
    | some (some x) ↦ record s { sessions = put_session c.id (record x { config = c }) s.sessions }
  ]

  unfoldable pub sync_each : List (SessionConfig V) → Sessions V → Sessions V
  sync_each [] s = s
  sync_each (c ∷ cs) s = sync_each cs (sync_session c s)

  unfoldable pub listed : List (SessionConfig V) → String → Bool
  listed [] id = false
  listed (c ∷ cs) id = if str_eq c.id id then true else listed cs id

  -- The second loop: the entries that stay, and the sessions taken out.
  unfoldable pub pruned :
      List (SessionConfig V)
      → List (String × Option (Session V))
      → List (String × Option (Session V)) × List (Option (Session V))
  pruned cs [] = ([], [])
  pruned cs ((k, none) ∷ m) = let (rest, gone) = pruned cs m in (rest, none ∷ gone)
  pruned cs ((k, some x) ∷ m) =
      let (rest, gone) = pruned cs m in
      if listed cs k then ((k, some x) ∷ rest, gone) else (rest, some x ∷ gone)

  unfoldable pub sync_sessions : List (SessionConfig V) → Sessions V → Sessions V
  sync_sessions cs s =
      let t = sync_each cs s in
      let (kept, gone) = pruned cs t.sessions in
      record t { sessions = kept; deleted_sessions = gone }
