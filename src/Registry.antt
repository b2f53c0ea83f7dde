-- ===== src/Registry.antt =====
-- src/config/config_registry.cc: the fields of the configuration by path, and the subscriptions to
-- their changes. The configuration that getters read and setters and callbacks change is a state
-- `W`. The locks make each method one step. A null `std::function` for a setter is `none`.
pub mod Fields
pub mod Subscriptions
use mathlib.Core.Option
use Prim.Native.String
use Prim.Native.Char.{code}
use pointcaster.Prelude.{
  ℕ, ◌+◌, ◌*◌, ◌%◌, ◌^◌, String, Bool, true, false, Option, none, some, List, [], ◌∷◌, ◌++◌, str_eq,
  if◌then◌else◌, ◌==◌,
}

-- `path.starts_with(prefix)`
unfoldable pub starts_with : String → String → Bool
starts_with path String.[] = true
starts_with String.[] (String.◌∷◌ b prefix) = false
starts_with (String.◌∷◌ a path) (String.◌∷◌ b prefix) =
    let rest = starts_with path prefix in if code a == code b then rest else false

pub record Field (W V : Type 0) : Type 0 where
  pub get : W → V
  pub set : Option (V → W → W)

pub record Subscription (W : Type 0) : Type 0 where
  pub id : ℕ
  pub prefix : String
  pub callback : String → W → W

pub record Registry (W V : Type 0) : Type 0 where
  pub fields : List (String × Field W V)
  pub subs : List (Subscription W)
  -- `std::uint64_t`
  pub next_id : ℕ

module _ {W : Type 0} where
  -- The callbacks of the matching subscriptions, copied before the first one runs.
  unfoldable pub matching : String → List (Subscription W) → List (String → W → W)
  matching path [] = []
  matching path (s ∷ ss) =
      let rest = matching path ss in if starts_with path s.prefix then s.callback ∷ rest else rest

  unfoldable pub call_all : List (String → W → W) → String → W → W
  call_all [] path w = w
  call_all (cb ∷ cbs) path w = call_all cbs path (cb path w)

  unfoldable pub erase_subs : ℕ → List (Subscription W) → List (Subscription W)
  erase_subs id [] = []
  erase_subs id (s ∷ ss) = let rest = erase_subs id ss in if s.id == id then rest else s ∷ rest

module _ {W V : Type 0} where
  unfoldable pub empty_registry : Registry W V
  empty_registry = record { fields = []; subs = []; next_id = 1 }

  unfoldable pub find_field : List (String × Field W V) → String → Option (Field W V)
  find_field [] path = none
  find_field ((p, f) ∷ fs) path =
      let rest = find_field fs path in if str_eq p path then some f else rest

  unfoldable pub insert_or_assign :
      String → Field W V → List (String × Field W V) → List (String × Field W V)
  insert_or_assign path field [] = (path, field) ∷ []
  insert_or_assign path field ((p, f) ∷ fs) =
      let rest = insert_or_assign path field fs in
      if str_eq p path then (p, field) ∷ fs else (p, f) ∷ rest

  unfoldable pub erase_fields : String → List (String × Field W V) → List (String × Field W V)
  erase_fields prefix [] = []
  erase_fields prefix ((p, f) ∷ fs) =
      let rest = erase_fields prefix fs in if starts_with p prefix then rest else (p, f) ∷ rest

  unfoldable pub register_field : String → Field W V → Registry W V → Registry W V
  register_field path field r = record r { fields = insert_or_assign path field r.fields }

  unfoldable pub unregister : String → Registry W V → Registry W V
  unregister prefix r = record r { fields = erase_fields prefix r.fields }

  unfoldable pub clear : Registry W V → Registry W V
  clear r = record r { fields = [] }

  unfoldable pub notify : Registry W V → String → W → W
  notify r path w = call_all (matching path r.subs) path w

  unfoldable pub set : Registry W V → String → V → W → Bool × W
  set r path value w = elim (find_field r.fields path) [
    | none ↦ (false, w)
    | some f ↦ elim f.set [
      | none ↦ (false, w)
      | some setter ↦ (true, notify r path (setter value w))
    ]
  ]

  unfoldable pub is_readonly : Registry W V → String → Bool
  is_readonly r path = elim (find_field r.fields path) [
    | none ↦ false
    | some f ↦ elim f.set [ none ↦ true | some _ ↦ false ]
  ]

  unfoldable pub get : Registry W V → String → W → Option V
  get r path w = Option.map (λ f. f.get w) (find_field r.fields path)

  unfoldable pub snapshot : Registry W V → List String → W → List (String × V)
  snapshot r [] w = []
  snapshot r (p ∷ ps) w =
      let rest = snapshot r ps w in
      elim (find_field r.fields p) [ none ↦ rest | some f ↦ (p, f.get w) ∷ rest ]

  unfoldable pub on_change : String → (String → W → W) → Registry W V → ℕ × Registry W V
  on_change prefix cb r = (
    r.next_id,
    record r {
      subs = r.subs ++ (record { id = r.next_id; prefix = prefix; callback = cb }) ∷ [];
      next_id = (r.next_id + 1) % 2 ^ 64;
    },
  )

  unfoldable pub remove_subscription : ℕ → Registry W V → Registry W V
  remove_subscription id r = record r { subs = erase_subs id r.subs }

-- A call that changes the registry.
pub data Call (W V : Type 0) : Type 0 where
  registers : String → Field W V → Call W V
  unregisters : String → Call W V
  clears : Call W V
  subscribes : String → (String → W → W) → Call W V
  unsubscribes : ℕ → Call W V

module _ {W V : Type 0} where
  unfoldable pub step : Registry W V → Call W V → Registry W V
  step r (registers path field) = register_field path field r
  step r (unregisters prefix) = unregister prefix r
  step r clears = clear r
  step r (subscribes prefix cb) = (on_change prefix cb r).1
  step r (unsubscribes id) = remove_subscription id r

  unfoldable pub run : Registry W V → List (Call W V) → Registry W V
  run r [] = r
  run r (c ∷ cs) = run (step r c) cs
