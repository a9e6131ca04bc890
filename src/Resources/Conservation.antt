-- ===== src/Resources/Conservation.antt =====
-- src/ams/resources.py: in every reachable world the broker's books agree with the reservations that
-- are not released, and no resource is overcommitted.
use accumulative_matrix_swee.Prelude.{
  ℕ, ◌+◌, ◌≤◌, ◌≡◌, refl, ap, true, false, Option, Option-cases, none, some, List, [], ◌∷◌, ◌++◌,
  String, arith, All, any, inl, inr,
}
use accumulative_matrix_swee.Prelude.Text.{str_eq}
use accumulative_matrix_swee.Prelude.Dict.{Dict, Distinct, lookup}
use accumulative_matrix_swee.Errors.{ok}
use accumulative_matrix_swee.Checked.{max_serialized_uint}
use accumulative_matrix_swee.Resources.{
  Broker, Reservation, reserve, release, release_resources, discard, check_available, add_usage,
  check_usage, subtract_usage,
}
use accumulative_matrix_swee.Resources.Vector.{
  Key, key_eq, key_beq_iff, ResourceVector, as_dict, as_dict-Distinct,
}
use accumulative_matrix_swee.Resources.Invariant.{
  amount_at, Fits, Holds, Available, add_usage_lem, subtract_usage_lem, check_usage_lem,
  check_available-eq_ok,
}
use accumulative_matrix_swee.Resources.Live.{
  Unique, finish, held-append, any-live_ids, discard-live_ids, Unique-finish, All-middle,
  All-replace,
}
use accumulative_matrix_swee.Resources.World.{World, Fresh, held, live_ids}

abbrev pub tag : Option ℕ → ℕ → Option ℕ
tag none h = none
tag (some c) h = some h

-- A reservation that is not released names configured resources only.
abbrev pub IsConfigured : Dict Key ℕ → Reservation → Type 0
IsConfigured limits r =
    r.released ≡ false → (k : Key) → lookup k limits ≡ none → lookup k (as_dict r.resources) ≡ none

pub record IsConserved (limits : Dict Key ℕ) (w : World) : Type 0 where
  pub capacity : w.broker.capacity ≡ limits
  pub used : (k : Key) → lookup k w.broker.used ≡ tag (lookup k limits) (held k w.reservations)
  pub bounded : (k : Key) → held k w.reservations ≤ amount_at k limits
  pub configured : All (IsConfigured limits) w.reservations
  pub active : w.broker.active ≡ live_ids w.reservations
  pub unique : Unique w.reservations

-- The second loop and the admission, once the first loop has let the request through.
reserve_steps :
    (request : ResourceVector) (i : String) (b : Broker) (used' : Dict Key ℕ)
    → check_available b (as_dict request) ≡ ok tt
    → add_usage (as_dict request) b.used ≡ (ok tt, used')
    → reserve request i b ≡ (
      ok (record { reservation_id = i; resources = request; released = false }),
      record b { used = used'; active = i ∷ b.active },
    )
unfolding reserve
reserve_steps request i b used' e r = ground arith

release_steps :
    (r : Reservation) (b : Broker) (used' : Dict Key ℕ)
    → r.released ≡ false
    → any (str_eq r.reservation_id) b.active ≡ true
    → check_usage (as_dict r.resources) b.used ≡ ok tt
    → subtract_usage (as_dict r.resources) b.used ≡ (ok tt, used')
    → release r b
      ≡ (ok tt, finish r, record b { used = used'; active = discard r.reservation_id b.active })
unfolding release release_resources
release_steps r b used' live a c s = ground arith

module _ (b : Broker) (h : Key → ℕ)
    (books : (k : Key) → lookup k b.used ≡ tag (lookup k b.capacity) (h k))
    (bounded : (k : Key) → h k ≤ amount_at k b.capacity)
    (in_range : (k : Key) → amount_at k b.capacity ≤ max_serialized_uint) where
  Available-Fits : (requested : Dict Key ℕ) → Available b requested → Fits requested b.used
  unfolding amount_at
  Available-Fits [] a = tt
  Available-Fits ((k, n) ∷ requested) ((c, m, e, e', le), a) =
      ((m, e', ground (arith, books k, bounded k, in_range k)), Available-Fits requested a)

  pub Available-bounded :
      (requested : Dict Key ℕ)
      → Available b requested
      → (j : Key) → h j + amount_at j requested ≤ amount_at j b.capacity
  unfolding amount_at lookup
  Available-bounded [] a j = ground (arith, bounded j)
  Available-bounded ((k, n) ∷ requested) ((c, m, e, e', le), a) j =
      ground (arith, books k, bounded k, key_beq_iff j k, Available-bounded requested a j)

  Available-IsConfigured :
      (requested : Dict Key ℕ)
      → Available b requested
      → (j : Key) → lookup j b.capacity ≡ none
      → lookup j requested ≡ none
  unfolding lookup
  Available-IsConfigured [] a j e = refl
  Available-IsConfigured ((k, n) ∷ requested) ((c, m, ec, e', le), a) j e =
      ground (arith, key_beq_iff j k, Available-IsConfigured requested a j e)

-- The books of a live reservation hold what it asks back.
Holds-of :
    (limits used : Dict Key ℕ) (resources : Dict Key ℕ) (h : Key → ℕ)
    → ((k : Key) → lookup k used ≡ tag (lookup k limits) (h k))
    → ((k : Key) → lookup k limits ≡ none → lookup k resources ≡ none)
    → ((k : Key) → amount_at k resources ≤ h k)
    → Distinct resources
    → Holds resources used
unfolding lookup amount_at
Holds-of limits used [] h books conf le d = tt
Holds-of limits used ((k, n) ∷ rest) h books conf le d = elim (Option-cases (lookup k limits)) [
  | inl e ↦ absurd (ground (arith, conf k e, key_beq_iff k k))
  | inr (c, e) ↦ (
    (h k, ground (arith, books k), ground (arith, le k, key_beq_iff k k)),
    Holds-of limits used rest h books (λ j ej. ground (arith, conf j ej, key_beq_iff j k, d.0))
        (λ j. ground (arith, le j, key_beq_iff j k)) d.1,
  )
]

module _ (w : World) (limits : Dict Key ℕ)
    (in_range : (k : Key) → amount_at k limits ≤ max_serialized_uint)
    (v : IsConserved limits w) where
  pub books :
      (k : Key) → lookup k w.broker.used ≡ tag (lookup k w.broker.capacity) (held k w.reservations)
  books k = rw v.capacity (v.used k)

  pub bound : (k : Key) → held k w.reservations ≤ amount_at k w.broker.capacity
  bound k = rw v.capacity (v.bounded k)

  -- A request that passes the first loop of `reserve` is admitted, and leaves a conserved world.
  pub reserve_admits :
      (request : ResourceVector) (i : String)
      → Fresh i w.reservations
      → check_available w.broker (as_dict request) ≡ ok tt
      → (b' : Broker) × (reserve request i w.broker
          ≡ (ok (record { reservation_id = i; resources = request; released = false }), b'))
        × IsConserved limits (record {
          broker = b';
          reservations =
              record { reservation_id = i; resources = request; released = false } ∷ w.reservations;
        })
  unfolding held live_ids
  reserve_admits request i fresh e =
      let h = λ (k : Key). held k w.reservations in
      let a = check_available-eq_ok w.broker (as_dict request) e in
      let f =
        Available-Fits w.broker h books bound (λ k. rw v.capacity (in_range k)) (as_dict request)
          a in
      let (used', r, p) =
        add_usage_lem (as_dict request) w.broker.used (as_dict-Distinct request) f in
      (
        record w.broker { used = used'; active = i ∷ w.broker.active },
        reserve_steps request i w.broker used' e r,
        record {
          capacity = v.capacity;
          used = λ k. ground (arith, p k, v.used k);
          bounded = λ k. rw (← v.capacity) (
              ground (
                arith,
                Available-bounded w.broker h books bound (λ j. rw v.capacity (in_range j))
                    (as_dict request) a k,
              ));
          configured = (
            λ _ k ek.
                Available-IsConfigured w.broker h books bound (λ j. rw v.capacity (in_range j))
                  (as_dict request) a k (rw v.capacity ek),
            v.configured,
          );
          active = ap (λ ids. i ∷ ids) v.active;
          unique = (fresh, v.unique);
        },
      )

  -- A reservation that is not released can be released, and that leaves a conserved world.
  pub release_returns :
      (before : List Reservation) (r : Reservation) (after : List Reservation)
      → w.reservations ≡ before ++ r ∷ after
      → r.released ≡ false
      → (b' : Broker) × (release r w.broker ≡ (ok tt, finish r, b'))
        × IsConserved limits (record { broker = b'; reservations = before ++ finish r ∷ after })
  release_returns before r after e live =
      let sums = λ (k : Key). held-append k before r after in
      let sums' = λ (k : Key). held-append k before (finish r) after in
      let mine = All-middle (IsConfigured limits) before r after (rw (← e) v.configured) live in
      let le : (k : Key) → amount_at k (as_dict r.resources) ≤ held k w.reservations =
        λ k. rw e (ground (arith, sums k, live)) in
      let holds =
        Holds-of limits w.broker.used (as_dict r.resources) (λ k. held k w.reservations) v.used mine
          le (as_dict-Distinct r.resources) in
      let (used', s, p) =
        subtract_usage_lem (as_dict r.resources) w.broker.used (as_dict-Distinct r.resources)
          holds in
      let found : any (str_eq r.reservation_id) w.broker.active ≡ true =
        rw (v.active, e) (any-live_ids before r after live) in
      (
        record w.broker { used = used'; active = discard r.reservation_id w.broker.active },
        release_steps r w.broker used' live found
            (check_usage_lem (as_dict r.resources) w.broker.used holds) s,
        record {
          capacity = v.capacity;
          used = λ k. let u = v.used k in ground (arith, p k, sums k, sums' k, live, ap (held k) e);
          bounded =
              λ k. let u = v.bounded k in ground (arith, sums k, sums' k, live, ap (held k) e);
          configured =
              All-replace (IsConfigured limits) before r (finish r) after (λ t. cc)
                (rw (← e) v.configured);
          active = rw (v.active, e) (discard-live_ids before r after live (rw (← e) v.unique));
          unique = Unique-finish before r after (rw (← e) v.unique);
        },
      )
