-- ===== src/Resources/Live.antt =====
-- src/ams/resources.py: sums and identifiers of a list of reservations around one of them.
use accumulative_matrix_swee.Prelude.{
  ◌+◌, ◌≡◌, refl, true, false, List, [], ◌∷◌, ◌++◌, String, arith, eq_iff, eq_refl, All, any,
  if◌then◌else◌,
}
use accumulative_matrix_swee.Prelude.Text.{str_eq}
use accumulative_matrix_swee.Resources.{Reservation, discard}
use accumulative_matrix_swee.Resources.Vector.{Key, as_dict}
use accumulative_matrix_swee.Resources.Invariant.{amount_at}
use accumulative_matrix_swee.Resources.World.{Fresh, held, live_ids}

abbrev pub Unique : List Reservation → Type 0
Unique [] = Unit
Unique (r ∷ rs) = Fresh r.reservation_id rs × Unique rs

-- One reservation among the others.
pub held-append :
    (k : Key) (before : List Reservation) (r : Reservation) (after : List Reservation)
    → held k (before ++ r ∷ after)
      ≡ (if r.released then 0 else amount_at k (as_dict r.resources)) + held k (before ++ after)
unfolding held
held-append k [] r after = refl
held-append k (b ∷ before) r after = omega (arith, held-append k before r after)

pub any-live_ids :
    (before : List Reservation) (r : Reservation) (after : List Reservation)
    → r.released ≡ false
    → any (str_eq r.reservation_id) (live_ids (before ++ r ∷ after)) ≡ true
unfolding live_ids
any-live_ids [] r after h = ground (arith, eq_refl r.reservation_id)
any-live_ids (b ∷ before) r after h = ground (arith, any-live_ids before r after h)

abbrev pub finish : Reservation → Reservation
finish r = record r { released = true }

Fresh-middle :
    (i : String) (before : List Reservation) (r : Reservation) (after : List Reservation)
    → Fresh i (before ++ r ∷ after)
    → str_eq i r.reservation_id ≡ false
Fresh-middle i [] r after f = f.0
Fresh-middle i (b ∷ before) r after f = Fresh-middle i before r after f.1

Fresh-finish :
    (i : String) (before : List Reservation) (r : Reservation) (after : List Reservation)
    → Fresh i (before ++ r ∷ after)
    → Fresh i (before ++ finish r ∷ after)
Fresh-finish i [] r after f = f
Fresh-finish i (b ∷ before) r after f = (f.0, Fresh-finish i before r after f.1)

pub Unique-finish :
    (before : List Reservation) (r : Reservation) (after : List Reservation)
    → Unique (before ++ r ∷ after)
    → Unique (before ++ finish r ∷ after)
Unique-finish [] r after u = u
Unique-finish (b ∷ before) r after u =
    (Fresh-finish b.reservation_id before r after u.0, Unique-finish before r after u.1)

pub discard-live_ids :
    (before : List Reservation) (r : Reservation) (after : List Reservation)
    → r.released ≡ false
    → Unique (before ++ r ∷ after)
    → discard r.reservation_id (live_ids (before ++ r ∷ after))
      ≡ live_ids (before ++ finish r ∷ after)
unfolding discard live_ids
discard-live_ids [] r after h u = ground (arith, eq_refl r.reservation_id)
discard-live_ids (b ∷ before) r after h u =
    let other = Fresh-middle b.reservation_id before r after u.0 in
    let ih = discard-live_ids before r after h u.1 in
    ground
      (arith, eq_iff r.reservation_id b.reservation_id, eq_iff b.reservation_id r.reservation_id)

pub All-middle :
    (P : Reservation → Type 0) (before : List Reservation) (r : Reservation)
    (after : List Reservation)
    → All P (before ++ r ∷ after)
    → P r
All-middle P [] r after a = a.0
All-middle P (b ∷ before) r after a = All-middle P before r after a.1

pub All-replace :
    (P : Reservation → Type 0) (before : List Reservation) (r s : Reservation)
    (after : List Reservation)
    → P s
    → All P (before ++ r ∷ after)
    → All P (before ++ s ∷ after)
All-replace P [] r s after p a = (p, a.1)
All-replace P (b ∷ before) r s after p a = (a.0, All-replace P before r s after p a.1)
