-- ===== src/Workspace/Rebuild.antt =====
-- When `sync_operators` of src/plugins/operators/operator_host.cc builds its pipeline anew.
use pointcaster.Prelude.{
  ℕ, ◌<◌, ◌≡◌, ◌≢◌, ◌==◌, String, Bool, true, false, Option, none, some, List, [], ◌∷◌, ◌++◌,
  length, set, str_eq, arith, refl, sym, ◌∙◌, subst, inl, inr, not, ◌||◌, Bool-cases, Option-cases,
}
use pointcaster.Workspace.{
  Config, Instance, Sync, is_empty, index_of, slot, update_config, instantiated, created, reused,
  replaced, sync_plugin, sync_one, sync_all, start_sync, differ, changed, sync_operators,
  need_rebuild, operator_plugin,
}
use pointcaster.Workspace.Index.{slot-set_self, slot-set_ne}

module _ {V : Type 0} where
  -- Pointers that are not null are to different objects, numbered below `n`.
  abbrev pub AreObjects : List (Option (Instance V)) → ℕ → Type 0
  AreObjects slots n =
      (i j : ℕ) (o o' : Instance V)
      → slot slots i ≡ some o
      → slot slots j ≡ some o'
      → (o.instance_id < n) × (o.instance_id ≡ o'.instance_id → i ≡ j)

  abbrev pub AreOther : ℕ → List (Instance V) → Type 0
  AreOther k [] = Unit {0}
  AreOther k (o ∷ os) = (k ≢ o.instance_id) × AreOther k os

  -- The results are not among the objects that still stand in the slots.
  abbrev pub Inv : Sync V → Type 0
  Inv s =
      AreObjects s.slots s.next_instance
      × ((i : ℕ) (o : Instance V) → slot s.slots i ≡ some o → AreOther o.instance_id s.results)

  AreOther-append :
      (k : ℕ) (os : List (Instance V)) (o : Instance V)
      → AreOther k os
      → k ≢ o.instance_id
      → AreOther k (os ++ o ∷ [])
  AreOther-append k [] o h e = (e, tt)
  AreOther-append k (p ∷ os) o (h, hs) e = (h, AreOther-append k os o hs e)

  slot-taken :
      (slots : List (Option (Instance V))) (i j : ℕ) (o : Instance V)
      → slot (set slots i none) j ≡ some o
      → (i ≢ j) × (slot slots j ≡ some o)
  slot-taken slots i j o t = elim (Bool-cases (i == j)) [
    | inl e ↦
        let same : i ≡ j = ground (arith, e) in
        let gone : slot (set slots i none) j ≡ none =
          subst (λ x. slot (set slots i none) x ≡ none) same (slot-set_self slots i) in
        ground (arith, t, gone)
    | inr e ↦
        let other : i ≢ j = ground (arith, e) in (other, sym (slot-set_ne slots i j other) ∙ t)
  ]

  created-Inv : (plugin : String) (c : Config V) (s : Sync V) → Inv s → Inv (created plugin c s)
  unfolding created instantiated
  created-Inv plugin c s (objects, others) = (
    λ i j o o' t t'. let (below, one) = objects i j o o' t t' in (omega (arith, below), one),
    λ i o t.
        AreOther-append o.instance_id s.results _ (others i o t)
          (λ e. let (below, _) = objects i i o o t t in omega (arith, below, e)),
  )

  taken-AreObjects :
      (slots : List (Option (Instance V))) (n i : ℕ)
      → AreObjects slots n
      → AreObjects (set slots i none) n
  taken-AreObjects slots n i objects =
      λ j k o o' t t'. objects j k o o' (slot-taken slots i j o t).1 (slot-taken slots i k o' t').1

  reused-Inv :
      (i : ℕ) (o : Instance V) (c : Config V) (s : Sync V)
      → slot s.slots i ≡ some o
      → Inv s
      → Inv (reused i o c s)
  unfolding reused update_config
  reused-Inv i o c s t (objects, others) = (
    taken-AreObjects s.slots s.next_instance i objects,
    λ j o' t'.
        let (apart, stood) = slot-taken s.slots i j o' t' in
        AreOther-append o'.instance_id s.results _ (others j o' stood)
          (λ e. apart ((objects i j o o' t stood).1 (sym e))),
  )

  replaced-Inv :
      (i : ℕ) (o : Instance V) (plugin : String) (c : Config V) (s : Sync V)
      → Inv s
      → Inv (replaced i o plugin c s)
  unfolding replaced
  replaced-Inv i o plugin c s (objects, others) = created-Inv plugin c _ (
    taken-AreObjects s.slots s.next_instance i objects,
    λ j o' t'. others j o' (slot-taken s.slots i j o' t').1,
  )

  sync_plugin-Inv :
      (plugin : String) (c : Config V) (s : Sync V) → Inv s → Inv (sync_plugin plugin c s)
  unfolding sync_plugin
  sync_plugin-Inv plugin c s inv = elim (Option-cases (index_of c.id s.existing_index_by_id)) [
    | inl e ↦ rw (sync_plugin, e) (created-Inv plugin c s inv)
    | inr (i, e) ↦ elim (Option-cases (slot s.slots i)) [
      | inl t ↦ rw (sync_plugin, e, t) inv
      | inr (o, t) ↦ elim (Bool-cases (str_eq o.config.plugin_name plugin)) [
        | inl f ↦ rw (sync_plugin, e, t, f) (reused-Inv i o c _ t inv)
        | inr f ↦ rw (sync_plugin, e, t, f) (replaced-Inv i o plugin c _ inv)
      ]
    ]
  ]

  sync_one-Inv :
      (plugin_of : Config V → Option String) (c : Config V) (s : Sync V)
      → Inv s
      → Inv (sync_one plugin_of c s)
  unfolding sync_one
  sync_one-Inv plugin_of c s inv = elim (Bool-cases (is_empty c.id)) [
    | inl e ↦ rw (sync_one, e) inv
    | inr e ↦ elim (Option-cases (plugin_of c)) [
      | inl f ↦ rw (sync_one, e, f) inv
      | inr (plugin, f) ↦ rw (sync_one, e, f) (sync_plugin-Inv plugin c s inv)
    ]
  ]

  sync_all-Inv :
      (plugin_of : Config V → Option String) (cs : List (Config V)) (s : Sync V)
      → Inv s
      → Inv (sync_all plugin_of cs s)
  unfolding sync_all
  sync_all-Inv plugin_of [] s inv = inv
  sync_all-Inv plugin_of (c ∷ cs) s inv =
      sync_all-Inv plugin_of cs (sync_one plugin_of c s) (sync_one-Inv plugin_of c s inv)

  other_changed :
      (os : List (Instance V)) (slots : List (Option (Instance V)))
      → 0 < length os
      → ((i : ℕ) (o : Instance V) → slot slots i ≡ some o → AreOther o.instance_id os)
      → (not (length os == length slots) || differ os slots) ≡ true
  unfolding differ
  other_changed [] slots h others = elim h [ ]
  other_changed (o ∷ os) [] h others = ground arith
  other_changed (o ∷ os) (none ∷ slots) h others = ground arith
  other_changed (o ∷ os) (some p ∷ slots) h others =
      let (other, _) = others 0 p refl in
      let apart : (o.instance_id == p.instance_id) ≡ false = ground (arith, other) in
      rw apart (ground arith)

module _ {V : Type 0} (is_loaded : String → Bool) where
  -- When the pointers of the operators are to different objects, `sync_operators` builds its
  -- pipeline anew whenever it leaves an operator: it compares the new pointers with the old slots
  -- after it moved the kept ones out of them, so each one differs from what stands in its slot.
  pub need_rebuild-always :
      (pipeline_fits : Bool) (configs : List (Config V)) (operators : List (Option (Instance V)))
      (n : ℕ)
      → AreObjects operators n
      → 0 < length (sync_operators is_loaded configs operators n).results
      → need_rebuild is_loaded pipeline_fits configs operators n ≡ true
  unfolding need_rebuild changed sync_operators start_sync
  need_rebuild-always pipeline_fits configs operators n objects h =
      let s = sync_operators is_loaded configs operators n in
      let (_, others) =
        sync_all-Inv (operator_plugin is_loaded) configs (start_sync operators n)
          (objects, λ i o t. tt) in
      rw (other_changed s.results s.slots h others) refl
