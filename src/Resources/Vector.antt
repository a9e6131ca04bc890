-- ===== src/Resources/Vector.antt =====
-- src/ams/resources.py: `ResourceAmount` and `ResourceVector`.
use accumulative_matrix_swee.Prelude.{
  ℕ, ◌≤◌, All, some, ◌≡◌, ◌↔◌, Bool, true, false, ◌&&◌, ◌||◌, List, [], ◌∷◌, map, String, ltb,
  arith, if◌then◌else◌,
}
use accumulative_matrix_swee.Prelude.Text.{str_eq, str_lt}
use accumulative_matrix_swee.Prelude.{eq_iff}
use accumulative_matrix_swee.Prelude.Dict.{
  Eq, Dict, lookup, insert, lookup-insert, Distinct, insert-Distinct,
}
use accumulative_matrix_swee.Errors.{Result, ok, raise_if, plan_invalid, ◌>>=◌, ◌>>◌}
use accumulative_matrix_swee.Checked.{Value, checked_uint, max_serialized_uint}
use accumulative_matrix_swee.Descriptors.Syntax.{validate_identifier}
use accumulative_matrix_swee.Descriptors.Tensor.{has_duplicates}

pub record ResourceAmount : Type 0 where
  pub resource_id : String
  pub amount : ℕ

unfoldable pub resource_amount : Value → Value → Result ResourceAmount
resource_amount resource_id amount = do
  i ← validate_identifier resource_id
  n ← checked_uint amount
  ok (record { resource_id = i; amount = n })

-- The order of the dataclass: by identifier, then by amount.
amount_lt : ResourceAmount → ResourceAmount → Bool
amount_lt a b =
    str_lt a.resource_id b.resource_id
    || str_eq a.resource_id b.resource_id && ltb a.amount b.amount

insert_sorted : ResourceAmount → List ResourceAmount → List ResourceAmount
unfolding amount_lt
insert_sorted a [] = a ∷ []
insert_sorted a (b ∷ bs) = if amount_lt b a then b ∷ insert_sorted a bs else a ∷ b ∷ bs

-- `sorted(values)`
sorted : List ResourceAmount → List ResourceAmount
unfolding insert_sorted
sorted [] = []
sorted (a ∷ as_) = insert_sorted a (sorted as_)

pub record ResourceVector : Type 0 where
  pub memory : List ResourceAmount
  pub capacities : List ResourceAmount

unfoldable pub resource_vector : List ResourceAmount → List ResourceAmount → Result ResourceVector
unfolding sorted has_duplicates
resource_vector memory capacities = do
  raise_if (has_duplicates (map (λ a. a.resource_id) (sorted memory))) plan_invalid
  raise_if (has_duplicates (map (λ a. a.resource_id) (sorted capacities))) plan_invalid
  ok (record { memory = sorted memory; capacities = sorted capacities })

pub data Kind : Type 0 where
  memory capacity : Kind

-- The pairs `(kind, resource_id)`.
pub record Key : Type 0 where
  pub kind : Kind
  pub resource_id : String

abbrev pub kind_eq : Kind → Kind → Bool
kind_eq memory memory = true
kind_eq capacity capacity = true
kind_eq _ _ = false

abbrev pub key_beq : Key → Key → Bool
key_beq a b = kind_eq a.kind b.kind && str_eq a.resource_id b.resource_id

kind_eq_iff : (a b : Kind) → (kind_eq a b ≡ true) ↔ (a ≡ b)
kind_eq_iff a b = ground arith

pub key_beq_iff : (a b : Key) → (key_beq a b ≡ true) ↔ (a ≡ b)
key_beq_iff a b = ground (arith, kind_eq_iff a.kind b.kind, eq_iff a.resource_id b.resource_id)

instance abbrev pub key_eq : Eq Key
key_eq = record { beq = key_beq; beq_iff = key_beq_iff }

-- `{(kind, item.resource_id): item.amount for item in items}`, added to a dict.
update_dict : Kind → List ResourceAmount → Dict Key ℕ → Dict Key ℕ
update_dict kind [] d = d
update_dict kind (a ∷ as_) d =
    update_dict kind as_ (insert (record { kind = kind; resource_id = a.resource_id }) a.amount d)

unfoldable pub as_dict : ResourceVector → Dict Key ℕ
unfolding update_dict
as_dict v = update_dict capacity v.capacities (update_dict memory v.memory [])

amounts_of : Kind → Dict Key ℕ → List ResourceAmount
amounts_of kind [] = []
amounts_of kind ((key, amount) ∷ d) =
    let rest = amounts_of kind d in
    if kind_eq key.kind kind
    then record { resource_id = key.resource_id; amount = amount } ∷ rest
    else rest

unfoldable pub from_dict : Dict Key ℕ → Result ResourceVector
unfolding amounts_of
from_dict values = resource_vector (amounts_of memory values) (amounts_of capacity values)

update_dict-Distinct :
    (kind : Kind) (items : List ResourceAmount) (d : Dict Key ℕ)
    → Distinct d
    → Distinct (update_dict kind items d)
unfolding update_dict
update_dict-Distinct kind [] d h = h
update_dict-Distinct kind (a ∷ as_) d h = update_dict-Distinct kind as_ _ (insert-Distinct _ _ d h)

pub as_dict-Distinct : (v : ResourceVector) → Distinct (as_dict v)
unfolding as_dict
as_dict-Distinct v =
    update_dict-Distinct capacity v.capacities _ (update_dict-Distinct memory v.memory [] tt)

-- Every amount is one that `resource_amount` lets through.
abbrev pub IsInRange : ResourceVector → Type 0
IsInRange v =
    All (λ (a : ResourceAmount). a.amount ≤ max_serialized_uint) v.memory
    × All (λ (a : ResourceAmount). a.amount ≤ max_serialized_uint) v.capacities

abbrev IsBounded : Dict Key ℕ → Type 0
IsBounded d = (k : Key) (n : ℕ) → lookup k d ≡ some n → n ≤ max_serialized_uint

update_dict-IsBounded :
    (kind : Kind) (items : List ResourceAmount) (d : Dict Key ℕ)
    → All (λ (a : ResourceAmount). a.amount ≤ max_serialized_uint) items
    → IsBounded d
    → IsBounded (update_dict kind items d)
unfolding update_dict
update_dict-IsBounded kind [] d h b = b
update_dict-IsBounded kind (a ∷ as_) d h b = update_dict-IsBounded kind as_ _ h.1 λ k n e.
    ground (
      arith,
      lookup-insert (record { kind = kind; resource_id = a.resource_id }) k a.amount d,
      b k n,
    )

pub as_dict-IsBounded :
    (v : ResourceVector)
    → IsInRange v
    → (k : Key) (n : ℕ) → lookup k (as_dict v) ≡ some n
    → n ≤ max_serialized_uint
unfolding as_dict lookup
as_dict-IsBounded v h =
    update_dict-IsBounded capacity v.capacities _ h.1
      (update_dict-IsBounded memory v.memory [] h.0 (λ k n e. cc))
