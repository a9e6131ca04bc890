-- ===== src/Resources/Tests.antt =====
-- Runs of the broker, and the theorems of `Reachable` at concrete worlds.
use accumulative_matrix_swee.Prelude.{◌≡◌, ◌↔◌, refl, false, [], ◌∷◌, arith}
use accumulative_matrix_swee.Prelude.Dict.{lookup, insert, string_eq}
use accumulative_matrix_swee.Errors.{Exception, ok, err, ams, preflight_no_working_set}
use accumulative_matrix_swee.Checked.{checked_add}
use accumulative_matrix_swee.Resources.{
  Broker, Reservation, broker, reserve, release, check_available, add_usage,
}
use accumulative_matrix_swee.Resources.Vector.{Key, key_eq, ResourceVector, as_dict}
use accumulative_matrix_swee.Resources.World.{World, start, reserving, Reach, here, next}
use accumulative_matrix_swee.Resources.Conservation.{IsConserved}
use accumulative_matrix_swee.Resources.Reachable.{
  Reach-IsConserved, release_never_fails, reserve_exact_and_atomic, release-reserve, Admissible,
}
use accumulative_matrix_swee.Resources.Live.{finish}

abbrev limits : ResourceVector
limits = record {
  memory = record { resource_id = "gpu"; amount = 10 } ∷ [];
  capacities = record { resource_id = "slots"; amount = 2 } ∷ [];
}

abbrev request : ResourceVector
request = record {
  memory = record { resource_id = "gpu"; amount = 7 } ∷ [];
  capacities = record { resource_id = "slots"; amount = 1 } ∷ [];
}

abbrev first : Reservation
first = record { reservation_id = "reservation:1"; resources = request; released = false }

abbrev one : Broker
one = (reserve request "reservation:1" (broker limits)).1

-- The second request for 7 of 10 is refused, and the broker is left as it was.
second_refused :
    reserve request "reservation:2" one ≡ (err (ams preflight_no_working_set false), one)
unfolding reserve check_available as_dict insert lookup broker add_usage checked_add
second_refused = refl

abbrev world : World
world = record { broker = one; reservations = first ∷ [] }

Reach-world : Reach (start limits) world
unfolding reserve check_available as_dict insert lookup broker add_usage checked_add
Reach-world = next here (reserving request "reservation:1" tt)

Reach-IsConserved_example : IsConserved (as_dict limits) world
Reach-IsConserved_example = Reach-IsConserved limits (omega arith) Reach-world

release_never_fails_example :
    ((release first one).0 ≡ ok tt) × ((release first one).1 ≡ finish first)
release_never_fails_example = release_never_fails limits (omega arith) Reach-world [] first [] refl

reserve_exact_and_atomic_example :
    (((r : Reservation) × ((reserve request "reservation:2" one).0 ≡ ok r))
      ↔ Admissible limits world (as_dict request))
    × ((x : Exception)
        → (reserve request "reservation:2" one).0 ≡ err x
        → (reserve request "reservation:2" one).1 ≡ one)
reserve_exact_and_atomic_example =
    reserve_exact_and_atomic limits (omega arith) Reach-world request "reservation:2" (refl, tt)

release-reserve_example :
    let (done, _, b) = release first one in
    (done ≡ ok tt)
    × ((k : Key) → lookup k b.used ≡ lookup k (broker limits).used)
    × (b.active ≡ (broker limits).active)
release-reserve_example =
    release-reserve limits (omega arith) here request "reservation:1" tt first reserved
  where
    reserved : (reserve request "reservation:1" (broker limits)).0 ≡ ok first
    reserved =
        unfold reserve check_available as_dict insert lookup broker add_usage checked_add in refl
