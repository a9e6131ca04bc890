-- ===== src/Resources.antt =====
-- src/ams/resources.py: resource vectors, the broker that admits them, and reservations. The
-- broker's lock makes each method one step, so a method is a function of the broker's state.
pub mod Vector
pub mod Invariant
pub mod World
pub mod Live
pub mod Conservation
pub mod Reachable
mod Tests
use accumulative_matrix_swee.Prelude.{
  ℕ, ◌+◌, ◌-◌, Bool, true, false, not, Option, none, some, List, [], ◌∷◌, map, String, ltb, any,
  if◌then◌else◌,
}
use accumulative_matrix_swee.Prelude.Text.{str_eq}
use accumulative_matrix_swee.Prelude.Dict.{Dict, lookup, insert}
use accumulative_matrix_swee.Errors.{
  Result, ok, err, raise, key_error, capability_mismatch, preflight_no_working_set,
  reservation_lost, broker_violation, ◌>>=◌,
}
use accumulative_matrix_swee.Checked.{nat, checked_add}
use Vector.{Key, key_eq, ResourceVector, as_dict, from_dict}

pub record Broker : Type 0 where
  pub capacity : Dict Key ℕ
  pub used : Dict Key ℕ
  pub active : List String

-- `ResourceBroker.__init__`
unfoldable pub broker : ResourceVector → Broker
broker capacity = record {
  capacity = as_dict capacity;
  used = map (λ item. (item.0, 0)) (as_dict capacity);
  active = [];
}

pub record Reservation : Type 0 where
  pub reservation_id : String
  pub resources : ResourceVector
  pub released : Bool

-- The first loop of `reserve`: every key is configured and has enough left, `amount <= total - used` of
-- integers, without the subtraction.
unfoldable pub check_available : Broker → Dict Key ℕ → Result (Unit {0})
check_available b [] = ok tt
check_available b ((key, amount) ∷ requested) =
    let rest = check_available b requested in
    elim (lookup key b.capacity) [
      | none ↦ raise capability_mismatch
      | some total ↦ elim (lookup key b.used) [
        | none ↦ err key_error
        | some used ↦ if ltb total (used + amount) then raise preflight_no_working_set else rest
      ]
    ]

-- The second loop of `reserve`, which writes as it goes: what was written before a raise stays.
unfoldable pub add_usage : Dict Key ℕ → Dict Key ℕ → Result (Unit {0}) × Dict Key ℕ
add_usage [] used = (ok tt, used)
add_usage ((key, amount) ∷ requested) used = elim (lookup key used) [
  | none ↦ (err key_error, used)
  | some before ↦ elim (checked_add (nat before) (nat amount)) [
    | err e ↦ (err e, used)
    | ok after ↦ add_usage requested (insert key after used)
  ]
]

-- `reservation_id` is the fresh identifier that `uuid.uuid4()` gives.
unfoldable pub reserve : ResourceVector → String → Broker → Result Reservation × Broker
reserve request reservation_id b = elim (check_available b (as_dict request)) [
  | err e ↦ (err e, b)
  | ok _ ↦
      let (r, used) = add_usage (as_dict request) b.used in
      elim r [
        | err e ↦ (err e, record b { used = used })
        | ok _ ↦ (
          ok (record { reservation_id = reservation_id; resources = request; released = false }),
          record b { used = used; active = reservation_id ∷ b.active },
        )
      ]
]

-- The two loops of `_release`: a check of every amount, then the subtractions.
unfoldable pub check_usage : Dict Key ℕ → Dict Key ℕ → Result (Unit {0})
check_usage [] used = ok tt
check_usage ((key, amount) ∷ resources) used =
    let rest = check_usage resources used in
    elim (lookup key used) [
      | none ↦ err key_error
      | some held ↦ if ltb held amount then raise broker_violation else rest
    ]

unfoldable pub subtract_usage : Dict Key ℕ → Dict Key ℕ → Result (Unit {0}) × Dict Key ℕ
subtract_usage [] used = (ok tt, used)
subtract_usage ((key, amount) ∷ resources) used = elim (lookup key used) [
  | none ↦ (err key_error, used)
  | some held ↦ subtract_usage resources (insert key (held - amount) used)
]

-- `set.remove` of an element that is there.
unfoldable pub discard : String → List String → List String
discard x [] = []
discard x (y ∷ ys) = if str_eq x y then ys else y ∷ discard x ys

-- `ResourceBroker._release`
unfoldable pub release_resources : String → ResourceVector → Broker → Result (Unit {0}) × Broker
release_resources reservation_id resources b =
    if not (any (str_eq reservation_id) b.active)
    then (raise reservation_lost, b)
    else elim (check_usage (as_dict resources) b.used) [
      | err e ↦ (err e, b)
      | ok _ ↦
          let (r, used) = subtract_usage (as_dict resources) b.used in
          elim r [
            | err e ↦ (err e, record b { used = used })
            | ok _ ↦ (ok tt, record b { used = used; active = discard reservation_id b.active })
          ]
    ]

-- `Reservation.release`
unfoldable pub release : Reservation → Broker → Result (Unit {0}) × Reservation × Broker
release r b =
    if r.released
    then (ok tt, r, b)
    else (let (done, b') = release_resources r.reservation_id r.resources b in
        elim done [ err e ↦ (err e, r, b') | ok _ ↦ (ok tt, record r { released = true }, b') ])

-- `ResourceBroker.used`
unfoldable pub used_vector : Broker → Result ResourceVector
used_vector b = from_dict b.used
