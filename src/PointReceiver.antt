-- ===== src/PointReceiver.antt =====
-- The receiver library of src/pointreceiver/pointreceiver.cc, with the types of
-- src/include/pointreceiver.h. What the two threads do with the shared context, and each call of
-- the interface, is a function on the context. A thread is whether it can be joined.
pub mod Frames
pub mod Subscriptions
pub mod Calls
pub mod Received
pub mod Failures
pub mod Buffers
pub mod Oldest
pub mod Mailbox
pub mod Starved
pub mod Attributes
use pointcaster.Prelude.{
  ℕ, Bool, true, false, Option, none, some, List, [], ◌∷◌, ◌==◌, ltb, if◌then◌else◌, length, ◌||◌,
  get_elem?, suc, zero, leb,
}
use pointcaster.Prelude.Int.{ℤ}
use pointcaster.Wire.{Bytes, bytes_eq}
use pointcaster.Wire.Buffer.{copy_to_buffer}

pub data Status : Type 0 where
  ok : Status
  invalid_argument : Status
  already_running : Status
  not_running : Status
  connection_failed : Status
  timeout : Status
  decode_failed : Status
  out_of_range : Status
  out_of_memory : Status
  internal : Status

pub data Thrown : Type 0 where
  bad_alloc : Thrown
  exception : Thrown
  unknown : Thrown

-- How an operation ends.
pub data Outcome : Type 0 where
  returned : Status → Outcome
  threw : Thrown → Outcome

abbrev pub exception_boundary : Outcome → Status
exception_boundary (returned s) = s
exception_boundary (threw bad_alloc) = out_of_memory
exception_boundary (threw exception) = internal
exception_boundary (threw unknown) = internal

-- `ConfigValue`: the alternatives that are passed on, and any other.
pub data Value (F : Type 0) : Type 0 where
  float_value : F → Value F
  int_value : ℤ → Value F
  bool_value : Bool → Value F
  other_value : Value F

pub record PointCloudFrame (C : Type 0) : Type 0 where
  pub timestamp : ℕ
  pub pending : Bool
  pub incoming_cloud : Option C
  pub current_cloud : Option C

pub record Context (C F : Type 0) : Type 0 where
  pub client_name : Option Bytes
  pub message_queue : List (Bytes × Value F)
  pub message_subscriptions : List Bytes
  pub point_cloud_subscriptions : List Bytes
  pub known_point_cloud_addresses : List Bytes
  pub point_cloud_frames : List (Bytes × PointCloudFrame C)
  pub point_cloud_stream_timestamp : ℕ
  pub message_worker : Bool
  pub point_cloud_worker : Bool

-- What a call leaves: its status, the context, the address written to the caller's buffer, and the
-- cloud or the message passed out.
pub record Answer (C F : Type 0) : Type 0 where
  pub status : Status
  pub context : Context C F
  pub address : Bytes
  pub cloud : Option C
  pub message : Option (Value F)

-- The sets of addresses.
unfoldable pub member : List Bytes → Bytes → Bool
member [] q = false
member (x ∷ xs) q = bytes_eq x q || member xs q

unfoldable pub insert : Bytes → List Bytes → List Bytes
insert a xs = if member xs a then xs else a ∷ xs

unfoldable pub remove : Bytes → List Bytes → List Bytes
remove a [] = []
remove a (x ∷ xs) = let rest = remove a xs in if bytes_eq x a then rest else x ∷ rest

-- The order of `std::string`.
unfoldable pub precedes : Bytes → Bytes → Bool
precedes [] [] = false
precedes [] (y ∷ ys) = true
precedes (x ∷ xs) [] = false
precedes (x ∷ xs) (y ∷ ys) =
    let rest = precedes xs ys in if ltb x y then true else if x == y then rest else false

-- `emplace` of a `std::set`.
unfoldable pub emplace : Bytes → List Bytes → List Bytes
emplace a [] = a ∷ []
emplace a (x ∷ xs) =
    let rest = emplace a xs in
    if precedes a x then a ∷ x ∷ xs else if precedes x a then x ∷ rest else x ∷ xs

module _ {C F : Type 0} where
  unfoldable pub create_context : Context C F
  create_context = record {
    client_name = none;
    message_queue = [];
    message_subscriptions = [];
    point_cloud_subscriptions = [];
    known_point_cloud_addresses = [];
    point_cloud_frames = [];
    point_cloud_stream_timestamp = 0;
    message_worker = false;
    point_cloud_worker = false;
  }

  abbrev pub answer : Status → Context C F → Answer C F
  answer s c = record { status = s; context = c; address = []; cloud = none; message = none }

  unfoldable pub known_point_cloud_address_count : Context C F → ℕ
  known_point_cloud_address_count c = length c.known_point_cloud_addresses

  -- `out` is the capacity of the buffer.
  unfoldable pub get_known_point_cloud_address : ℕ → Option ℕ → Context C F → Answer C F
  get_known_point_cloud_address index none c = answer invalid_argument c
  get_known_point_cloud_address index (some capacity) c =
      if capacity == 0
      then answer invalid_argument c
      else elim (get_elem? c.known_point_cloud_addresses index) [
        | none ↦ answer out_of_range c
        | some a ↦
            let (written, fits) = copy_to_buffer capacity a in
            record (answer (if fits then ok else invalid_argument) c) { address = written }
      ]
