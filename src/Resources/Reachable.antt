-- ===== src/Resources/Reachable.antt =====
-- src/ams/resources.py: what the broker promises to its clients in every reachable world.
use accumulative_matrix_swee.Prelude.{
  ℕ, ◌+◌, ◌≤◌, ◌≡◌, ◌↔◌, refl, sym, ◌∙◌, Bool-cases, true, false, Option-cases, some, List, [], ◌∷◌,
  ◌++◌, map, String, arith, inl, inr,
}
use accumulative_matrix_swee.Prelude.Dict.{Dict, lookup}
use accumulative_matrix_swee.Errors.{Exception, ok, err, Result-cases}
use accumulative_matrix_swee.Checked.{max_serialized_uint}
use accumulative_matrix_swee.Resources.{
  Broker, Reservation, broker, reserve, release, check_available,
}
use accumulative_matrix_swee.Resources.Vector.{
  Key, key_eq, ResourceVector, as_dict, IsInRange, as_dict-IsBounded,
}
use accumulative_matrix_swee.Resources.Invariant.{
  amount_or_zero, amount_at, Available, check_available-eq_ok, check_available_lem,
}
use accumulative_matrix_swee.Resources.Live.{finish}
use accumulative_matrix_swee.Resources.World.{
  World, start, Fresh, Step, reserving, releasing, Reach, here, next, held, live_ids,
}
use accumulative_matrix_swee.Resources.Conservation.{
  tag, IsConserved, reserve_admits, release_returns,
}

in_range :
    (limits : ResourceVector)
    → IsInRange limits
    → (k : Key) → amount_at k (as_dict limits) ≤ max_serialized_uint
unfolding amount_at
in_range limits h k = elim (Option-cases (lookup k (as_dict limits))) [
  | inl e ↦ rw (e, amount_or_zero) (omega arith)
  | inr (n, e) ↦ rw (e, amount_or_zero) (as_dict-IsBounded limits h k n e)
]

zeros_lem : (d : Dict Key ℕ) (k : Key) → lookup k (map (λ item. (item.0, 0)) d) ≡ tag (lookup k d) 0
unfolding lookup
zeros_lem [] k = refl
zeros_lem (item ∷ d) k = ground (arith, zeros_lem d k)

start-IsConserved : (limits : ResourceVector) → IsConserved (as_dict limits) (start limits)
unfolding broker held live_ids
start-IsConserved limits = record {
  capacity = refl;
  used = zeros_lem (as_dict limits);
  bounded = λ k. omega arith;
  configured = tt;
  active = refl;
  unique = tt;
}

-- A raise of `reserve` in a conserved world comes from its first loop, and changes nothing.
reserve_raises :
    (request : ResourceVector) (i : String) (b : Broker) (e : Exception)
    → check_available b (as_dict request) ≡ err e
    → reserve request i b ≡ (err e, b)
unfolding reserve
reserve_raises request i b e h = rw (h, reserve)

release_released : (r : Reservation) (b : Broker) → r.released ≡ true → release r b ≡ (ok tt, r, b)
unfolding release
release_released r b h = rw (h, release)

Step-IsConserved :
    (limits : ResourceVector)
    → IsInRange limits
    → {v w : World} → Step v w
    → IsConserved (as_dict limits) v
    → IsConserved (as_dict limits) w
Step-IsConserved limits range {v = v} (reserving request i fresh) h =
    elim (Result-cases (check_available v.broker (as_dict request))) [
      | inl (_, e) ↦
          let (b', r, h') =
            reserve_admits v (as_dict limits) (in_range limits range) h request i fresh e in
          rw r h'
      | inr (x, e) ↦ rw (reserve_raises request i v.broker x e) h
    ]
Step-IsConserved limits range {v = v} (releasing before r after e) h =
    elim (Bool-cases r.released) [
      | inl done ↦ rw (release_released r v.broker done) (rw (← e) h)
      | inr live ↦
          let (b', s, h') =
            release_returns v (as_dict limits) (in_range limits range) h before r after e live in
          rw s h'
    ]

-- In every world that calls of `reserve` and `release` reach from a broker whose capacities are in
-- range, each configured key has in use the sum of what the unreleased reservations hold under it,
-- that sum is at most the capacity, no unreleased reservation names another key, and the active
-- identifiers are those of the unreleased reservations.
pub Reach-IsConserved :
    (limits : ResourceVector)
    → IsInRange limits
    → {w : World} → Reach (start limits) w
    → IsConserved (as_dict limits) w
Reach-IsConserved limits range here = start-IsConserved limits
Reach-IsConserved limits range (next r s) =
    Step-IsConserved limits range s (Reach-IsConserved limits range r)

-- In every reachable world `release` returns for each reservation that was handed out, and marks it as
-- released: it never raises RESERVATION_LOST, BROKER_VIOLATION or a KeyError.
pub release_never_fails :
    (limits : ResourceVector)
    → IsInRange limits
    → {w : World} → Reach (start limits) w
    → (before : List Reservation) (r : Reservation) (after : List Reservation)
    → w.reservations ≡ before ++ r ∷ after
    → ((release r w.broker).0 ≡ ok tt) × ((release r w.broker).1 ≡ finish r)
release_never_fails limits range {w = w} reach before r after e = elim (Bool-cases r.released) [
  | inl done ↦ rw (release_released r w.broker done) (refl, cc)
  | inr live ↦
      let (b', s, _) =
        release_returns w (as_dict limits) (in_range limits range)
          (Reach-IsConserved limits range reach) before r after e live in
      rw s (refl, refl)
]

-- What a request must meet: each of its keys is configured, and what is held under it together with
-- the amount is at most the capacity.
abbrev pub Admissible : ResourceVector → World → Dict Key ℕ → Type 0
Admissible limits w [] = Unit
Admissible limits w ((k, n) ∷ requested) =
    ((c : ℕ) × (lookup k (as_dict limits) ≡ some c) × (held k w.reservations + n ≤ c))
    × Admissible limits w requested

module _ (limits : ResourceVector) (w : World) (v : IsConserved (as_dict limits) w) where
  Admissible-of_Available :
      (requested : Dict Key ℕ) → Available w.broker requested → Admissible limits w requested
  unfolding amount_at
  Admissible-of_Available [] a = tt
  Admissible-of_Available ((k, n) ∷ requested) ((c, m, ec, em, le), a) =
      let ec' : lookup k (as_dict limits) ≡ some c = rw (← v.capacity) ec in
      ((c, ec', ground (arith, ec', v.used k, v.bounded k)), Admissible-of_Available requested a)

  Available-of_Admissible :
      (requested : Dict Key ℕ) → Admissible limits w requested → Available w.broker requested
  Available-of_Admissible [] a = tt
  Available-of_Admissible ((k, n) ∷ requested) ((c, ec, le), a) = (
    (c, held k w.reservations, rw v.capacity ec, ground (arith, v.used k), omega arith),
    Available-of_Admissible requested a,
  )

-- In every reachable world `reserve` with a fresh identifier returns a reservation exactly if the
-- request is admissible, and if it raises, whatever it raises, the broker is as it was.
pub reserve_exact_and_atomic :
    (limits : ResourceVector)
    → IsInRange limits
    → {w : World} → Reach (start limits) w
    → (request : ResourceVector) (i : String) → Fresh i w.reservations
    → (((r : Reservation) × ((reserve request i w.broker).0 ≡ ok r))
        ↔ Admissible limits w (as_dict request))
      × ((x : Exception)
          → (reserve request i w.broker).0 ≡ err x
          → (reserve request i w.broker).1 ≡ w.broker)
reserve_exact_and_atomic limits range {w = w} reach request i fresh =
    let v = Reach-IsConserved limits range reach in
    elim (Result-cases (check_available w.broker (as_dict request))) [
      | inl (_, e) ↦
          let (b', s, _) =
            reserve_admits w (as_dict limits) (in_range limits range) v request i fresh e in
          rw s (
            (
              λ _.
                  Admissible-of_Available limits w v (as_dict request)
                    (check_available-eq_ok w.broker (as_dict request) e),
              λ _. (record { reservation_id = i; resources = request; released = false }, refl),
            ),
            λ x h. cc,
          )
      | inr (x, e) ↦ rw (reserve_raises request i w.broker x e) (
        (
          λ (r, h). cc,
          λ a. absurd (
              cc (
                check_available_lem w.broker (as_dict request)
                  (Available-of_Admissible limits w v (as_dict request) a))),
        ),
        λ y h. refl,
      )
    ]

-- In every reachable world a reservation that `reserve` returns can be released at once, and then each
-- key has in use what it had before, and the active identifiers are those of before.
pub release-reserve :
    (limits : ResourceVector)
    → IsInRange limits
    → {w : World} → Reach (start limits) w
    → (request : ResourceVector) (i : String) → Fresh i w.reservations
    → (r : Reservation) → (reserve request i w.broker).0 ≡ ok r
    → let (done, _, b') = release r (reserve request i w.broker).1 in
      (done ≡ ok tt)
      × ((k : Key) → lookup k b'.used ≡ lookup k w.broker.used)
      × (b'.active ≡ w.broker.active)
unfolding held live_ids
release-reserve limits range {w = w} reach request i fresh r e =
    let v = Reach-IsConserved limits range reach in
    elim (Result-cases (check_available w.broker (as_dict request))) [
      | inl (_, a) ↦
          let (b', s, v') =
            reserve_admits w (as_dict limits) (in_range limits range) v request i fresh a in
          let r' : Reservation = record {
            reservation_id = i;
            resources = request;
            released = false;
          } in
          let same : r ≡ r' = cc in
          let (b'', s', v'') =
            release_returns (record { broker = b'; reservations = r' ∷ w.reservations })
              (as_dict limits) (in_range limits range) v' [] r' w.reservations refl refl in
          rw (s, same)
            (rw s' (refl, λ k. ground (arith, v''.used k, v.used k), v''.active ∙ sym v.active))
      | inr (x, a) ↦ absurd (cc (reserve_raises request i w.broker x a))
    ]
