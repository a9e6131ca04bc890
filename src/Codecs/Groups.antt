-- ===== src/Codecs/Groups.antt =====
-- The group arithmetic that the codecs share: how `encoded_size` cuts a tensor into groups.
use native.Mathlib.Decide.{dec_lt}
use accumulative_matrix_swee.Prelude.{
  ℕ, zero, suc, ◌+◌, ◌-◌, ◌*◌, ◌/◌, ◌≤◌, ◌<◌, ◌≡◌, refl, arith, ◌==◌, if◌then◌else◌, min,
}

-- The sizes of the records of `while remaining: count = min(group_size, remaining)`, added up.
module _ (record_size : ℕ → ℕ) (group : ℕ) where
  unfoldable pub records : ℕ → ℕ → ℕ
  records zero remaining = 0
  records (suc fuel) zero = 0
  records (suc fuel) (suc n) =
      record_size (min group (suc n)) + records fuel (suc n - min group (suc n))

next_div : (n g : ℕ) → 0 < g → g < n → (n - 1) / g ≡ suc ((n - g - 1) / g)
next_div n g p h = grind arith

small_div : (n g : ℕ) → 0 < n → n ≤ g → (n - 1) / g ≡ 0
small_div n g p h = grind arith

records_zero : (record_size : ℕ → ℕ) (group fuel : ℕ) → records record_size group fuel 0 ≡ 0
unfolding records
records_zero record_size group zero = refl
records_zero record_size group (suc fuel) = refl

regroup :
    (record_size : ℕ → ℕ) (k n g : ℕ)
    → record_size g + (k * record_size g + record_size (n - g - k * g))
      ≡ suc k * record_size g + record_size (n - suc k * g)
regroup record_size k n g =
    let e : n - g - k * g ≡ n - suc k * g = omega arith in rw e (omega arith)

last :
    (record_size : ℕ → ℕ) (group fuel n : ℕ)
    → record_size (suc n) + records record_size group fuel (suc n - suc n)
      ≡ 0 * record_size group + record_size (suc n - 0 * group)
last record_size group fuel n =
    let z : suc n - suc n ≡ 0 = omega arith in
    let w : suc n - 0 * group ≡ suc n = omega arith in rw (z, w, records_zero) (omega arith)

-- The records of the loop add up to all but the last of the full size, and a last one for the rest.
pub records_lem :
    (record_size : ℕ → ℕ) (group fuel n : ℕ)
    → 0 < group
    → 0 < n
    → n ≤ fuel
    → records record_size group fuel n
      ≡ (n - 1) / group * record_size group + record_size (n - (n - 1) / group * group)
unfolding records
records_lem record_size group zero n pg pn le = absurd (omega arith)
records_lem record_size group (suc fuel) zero pg pn le = absurd (omega arith)
records_lem record_size group (suc fuel) (suc n) pg pn le = elim (dec_lt group (suc n)) [
  | yes lt ↦
      let m : min group (suc n) ≡ group = omega arith in
      let q = next_div (suc n) group pg lt in
      let ih = records_lem record_size group fuel (suc n - group) pg (omega arith) (omega arith) in
      rw (m, ih, q) (regroup record_size ((suc n - group - 1) / group) (suc n) group)
  | no ge ↦
      let m : min group (suc n) ≡ suc n = omega arith in
      rw (m, small_div (suc n) group pn (omega arith)) (last record_size group fuel n)
]

tail_lem : (q n g : ℕ) → (if q + 1 == 1 then n else n - (q + 1 - 1) * g) ≡ n - q * g
tail_lem zero n g = ground arith
tail_lem (suc q) n g = ground arith

-- The tail of `encoded_size` is what the full groups leave, also where there is one group only.
pub sizes :
    (record_size : ℕ → ℕ) (n g full fulls tail_record : ℕ)
    → full ≡ record_size g
    → fulls ≡ ((n - 1) / g + 1 - 1) * full
    → tail_record ≡ record_size (if (n - 1) / g + 1 == 1 then n else n - ((n - 1) / g + 1 - 1) * g)
    → fulls + tail_record ≡ (n - 1) / g * record_size g + record_size (n - (n - 1) / g * g)
sizes record_size n g full fulls tail_record vf vfs vl =
    let one : (n - 1) / g + 1 - 1 ≡ (n - 1) / g = omega arith in
    rw (vl, tail_lem ((n - 1) / g) n g, vfs, vf, one)
