-- ===== src/Registry/Fields.antt =====
-- What the registry of src/config/config_registry.cc tells of its fields.
use pointcaster.Prelude.{
  ◌≡◌, String, Bool, true, false, Option, none, some, List, [], ◌∷◌, arith, refl, inl, inr, str_eq,
  eq_iff, if◌then◌else◌, Bool-cases, Option-cases, ◌&&◌, not, ◌∙◌, ap,
}
use pointcaster.Registry.{
  Field, Subscription, Registry, starts_with, find_field, insert_or_assign, erase_fields,
  register_field, unregister, matching, call_all, notify, set, is_readonly, get,
}

abbrev pub is_some : {A : Type 0} → Option A → Bool
is_some none = false
is_some (some a) = true

module _ {W : Type 0} where
  -- The callbacks leave what `view` shows of the state.
  abbrev pub AllKeep : {B : Type 0} → (W → B) → String → List (Subscription W) → Type 0
  AllKeep view path [] = Unit {0}
  AllKeep view path (s ∷ ss) = ((x : W) → view (s.callback path x) ≡ view x) × AllKeep view path ss

  call_all-keeps :
      {B : Type 0} (view : W → B) (path : String) (ss : List (Subscription W)) (w : W)
      → AllKeep view path ss
      → view (call_all (matching path ss) path w) ≡ view w
  unfolding call_all matching
  call_all-keeps view path [] w keeps = refl
  call_all-keeps view path (s ∷ ss) w keeps = elim (Bool-cases (starts_with path s.prefix)) [
    | inl e ↦ rw e (call_all-keeps view path ss (s.callback path w) keeps.1 ∙ keeps.0 w)
    | inr e ↦ rw e (call_all-keeps view path ss w keeps.1)
  ]

module _ {W V : Type 0} where
  find_field-insert_or_assign :
      (path : String) (field : Field W V) (fs : List (String × Field W V)) (q : String)
      → find_field (insert_or_assign path field fs) q
        ≡ (if str_eq path q then some field else find_field fs q)
  unfolding find_field insert_or_assign
  find_field-insert_or_assign path field [] q = refl
  find_field-insert_or_assign path field ((p, f) ∷ fs) q =
      ground (
        arith,
        eq_iff p path,
        eq_iff p q,
        eq_iff path q,
        find_field-insert_or_assign path field fs q,
      )

  find_field-erase_fields :
      (prefix : String) (fs : List (String × Field W V)) (q : String)
      → find_field (erase_fields prefix fs) q
        ≡ (if starts_with q prefix then none else find_field fs q)
  unfolding find_field erase_fields
  find_field-erase_fields prefix [] q = ground arith
  find_field-erase_fields prefix ((p, f) ∷ fs) q = elim (Bool-cases (str_eq p q)) [
    | inl e ↦ ground (
      arith,
      e,
      ap (λ z. starts_with z prefix) ((eq_iff p q).0 e),
      find_field-erase_fields prefix fs q,
    )
    | inr e ↦ ground (arith, e, find_field-erase_fields prefix fs q)
  ]

  -- After a registration and then the removal of a prefix, a path below the prefix is gone, the path
  -- registered reads through its new field, and any other path reads as before.
  pub get-unregister_register :
      (r : Registry W V) (path prefix q : String) (field : Field W V) (w : W)
      → get (unregister prefix (register_field path field r)) q w ≡ (
          if starts_with q prefix
          then none
          else if str_eq path q
          then some (field.get w)
          else get r q w)
  unfolding get unregister register_field
  get-unregister_register r path prefix q field w = ground (
    arith,
    find_field-erase_fields prefix (insert_or_assign path field r.fields) q,
    find_field-insert_or_assign path field r.fields q,
  )

  -- A call of `set` succeeds exactly when the path is registered and not read-only, and a call that
  -- fails changes nothing.
  pub set-returns :
      (r : Registry W V) (path : String) (value : V) (w : W)
      → ((set r path value w).0 ≡ (is_some (get r path w) && not (is_readonly r path)))
        × ((if (set r path value w).0 then w else (set r path value w).1) ≡ w)
  unfolding set get is_readonly
  set-returns r path value w = elim (Option-cases (find_field r.fields path)) [
    | inl n ↦ ground (arith, n)
    | inr (f, s) ↦ elim (Option-cases f.set) [
      | inl n ↦ ground (arith, s, n)
      | inr (setter, e) ↦ ground (arith, s, e)
    ]
  ]

  -- When a field's setter and getter agree and no callback changes what the getter reads, `set`
  -- of a registered, writable path succeeds and `get` then finds the value.
  pub get-set :
      (r : Registry W V) (path : String) (value : V) (w : W) (f : Field W V) (setter : V → W → W)
      → find_field r.fields path ≡ some f
      → f.set ≡ some setter
      → ((v : V) (x : W) → f.get (setter v x) ≡ v)
      → AllKeep f.get path r.subs
      → ((set r path value w).0 ≡ true) × (get r path (set r path value w).1 ≡ some value)
  unfolding set get notify
  get-set r path value w f setter found writable agree keeps = ground (
    arith,
    found,
    writable,
    agree value w,
    call_all-keeps f.get path r.subs (setter value w) keeps,
  )
