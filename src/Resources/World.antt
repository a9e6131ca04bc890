-- ===== src/Resources/World.antt =====
-- src/ams/resources.py: a broker with every reservation that it has handed out, and the calls that
-- clients may make in any order.
use accumulative_matrix_swee.Prelude.{
  ℕ, ◌+◌, ◌≡◌, false, List, [], ◌∷◌, ◌++◌, String, All, if◌then◌else◌,
}
use accumulative_matrix_swee.Prelude.Text.{str_eq}
use accumulative_matrix_swee.Errors.{Result, ok, err}
use accumulative_matrix_swee.Resources.{Broker, Reservation, broker, reserve, release}
use accumulative_matrix_swee.Resources.Vector.{Key, ResourceVector, as_dict}
use accumulative_matrix_swee.Resources.Invariant.{amount_at}

pub record World : Type 0 where
  pub broker : Broker
  pub reservations : List Reservation

abbrev pub start : ResourceVector → World
start capacity = record { broker = broker capacity; reservations = [] }

-- A client keeps what `reserve` returns; a raise gives it nothing.
abbrev pub keep : Result Reservation → List Reservation → List Reservation
keep (ok r) rs = r ∷ rs
keep (err _) rs = rs

-- No reservation has the identifier, as `uuid.uuid4()` makes it so.
abbrev pub Fresh : String → List Reservation → Type 0
Fresh i rs = All (λ r. str_eq i r.reservation_id ≡ false) rs

pub data Step : World → World → Type 0 where
  reserving :
      {w : World} (request : ResourceVector) (i : String)
      → Fresh i w.reservations
      → Step w (record {
        broker = (reserve request i w.broker).1;
        reservations = keep (reserve request i w.broker).0 w.reservations;
      })
  releasing :
      {w : World} (before : List Reservation) (r : Reservation) (after : List Reservation)
      → w.reservations ≡ before ++ r ∷ after
      → Step w (record {
        broker = (release r w.broker).2;
        reservations = before ++ (release r w.broker).1 ∷ after;
      })

pub data Reach (s : World) : World → Type 0 where
  here : Reach s s
  next : {v w : World} → Reach s v → Step v w → Reach s w

-- What the reservations that are not released hold under a key.
unfoldable pub held : Key → List Reservation → ℕ
held k [] = 0
held k (r ∷ rs) = (if r.released then 0 else amount_at k (as_dict r.resources)) + held k rs

-- The identifiers of the reservations that are not released.
unfoldable pub live_ids : List Reservation → List String
live_ids [] = []
live_ids (r ∷ rs) = let rest = live_ids rs in if r.released then rest else r.reservation_id ∷ rest
