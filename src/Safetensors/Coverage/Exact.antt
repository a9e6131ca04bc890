-- ===== src/Safetensors/Coverage/Exact.antt =====
-- src/ams/integrations/safetensors.py: `_validate_complete_coverage` accepts every tiling.
use native.Mathlib.Decide.{dec_lt}
use accumulative_matrix_swee.Prelude.{
  ℕ, suc, ◌+◌, ◌-◌, ◌≤◌, ◌<◌, ◌≡◌, ◌↔◌, refl, sym, ap, ◌∙◌, Bool-cases, not, ◌&&◌, List, [], ◌∷◌,
  arith, inl, inr, ltb, leb, ◌==◌, if◌then◌else◌, All, Bool,
}
use accumulative_matrix_swee.Errors.{ok, raise_if, invalid_package, >>=-eq-ok}
use accumulative_matrix_swee.Checked.{max_serialized_uint}
use accumulative_matrix_swee.Checked.Laws.{checked_add-nat}
use accumulative_matrix_swee.Safetensors.{SafetensorsTensor, insert_sorted, sorted}
use accumulative_matrix_swee.Safetensors.Coverage.{
  nonempty, offset_less, cover, validate_complete_coverage, holders, holders-nonempty,
  holders-sorted, cover-holders,
}

abbrev IsAscending : List SafetensorsTensor → Type 0
IsAscending [] = Unit
IsAscending (t ∷ ts) =
    All (λ (u : SafetensorsTensor). t.data_offset ≤ u.data_offset) ts × IsAscending ts

module _ (P : SafetensorsTensor → Type 0)
    (less : SafetensorsTensor → SafetensorsTensor → Bool) where
  All-insert_sorted :
      (t : SafetensorsTensor) (ts : List SafetensorsTensor)
      → P t
      → All P ts
      → All P (insert_sorted less t ts)
  unfolding insert_sorted
  All-insert_sorted t [] h a = (h, tt)
  All-insert_sorted t (u ∷ ts) h a = elim (Bool-cases (less u t)) [
    | inl e ↦ rw e (a.0, All-insert_sorted t ts h a.1)
    | inr e ↦ rw e (h, a)
  ]

  pub All-sorted : (ts : List SafetensorsTensor) → All P ts → All P (sorted less ts)
  unfolding sorted
  All-sorted [] a = tt
  All-sorted (t ∷ ts) a = All-insert_sorted t (sorted less ts) a.0 (All-sorted ts a.1)

All-trans :
    (a b : ℕ) (ts : List SafetensorsTensor)
    → a ≤ b
    → All (λ (u : SafetensorsTensor). b ≤ u.data_offset) ts
    → All (λ (u : SafetensorsTensor). a ≤ u.data_offset) ts
All-trans a b [] le h = tt
All-trans a b (t ∷ ts) le h = (omega arith, All-trans a b ts le h.1)

insert_sorted-IsAscending :
    (t : SafetensorsTensor) (ts : List SafetensorsTensor)
    → IsAscending ts
    → IsAscending (insert_sorted offset_less t ts)
unfolding insert_sorted
insert_sorted-IsAscending t [] h = (tt, tt)
insert_sorted-IsAscending t (u ∷ ts) h = elim (Bool-cases (offset_less u t)) [
  | inl e ↦
      let le : u.data_offset ≤ t.data_offset = unfold offset_less in ground arith in
      rw e (
        All-insert_sorted (λ (v : SafetensorsTensor). u.data_offset ≤ v.data_offset) offset_less t
            ts le h.0,
        insert_sorted-IsAscending t ts h.1,
      )
  | inr e ↦
      let le : t.data_offset ≤ u.data_offset = unfold offset_less in ground arith in
      rw e ((le, All-trans t.data_offset u.data_offset ts le h.0), h)
]

sorted-IsAscending : (ts : List SafetensorsTensor) → IsAscending (sorted offset_less ts)
unfolding sorted
sorted-IsAscending [] = tt
sorted-IsAscending (t ∷ ts) =
    insert_sorted-IsAscending t (sorted offset_less ts) (sorted-IsAscending ts)

abbrev Positive : SafetensorsTensor → Type 0
Positive t = 0 < t.data_length

nonempty-Positive : (ts : List SafetensorsTensor) → All Positive (nonempty ts)
unfolding nonempty
nonempty-Positive [] = tt
nonempty-Positive (t ∷ ts) = elim (Bool-cases (ltb 0 t.data_length)) [
  | inl e ↦ rw e (ground arith, nonempty-Positive ts)
  | inr e ↦ rw e (nonempty-Positive ts)
]

holders_none :
    (p : ℕ) (ts : List SafetensorsTensor)
    → All (λ (u : SafetensorsTensor). suc p ≤ u.data_offset) ts
    → holders p ts ≡ 0
unfolding holders
holders_none p [] h = refl
holders_none p (t ∷ ts) h = ground (arith, holders_none p ts)

cover_lem :
    (cursor total : ℕ) (ts : List SafetensorsTensor)
    → IsAscending ts
    → All Positive ts
    → cursor ≤ total
    → total ≤ max_serialized_uint
    → ((p : ℕ) → holders p ts ≡ (if leb cursor p && ltb p total then 1 else 0))
    → cover cursor ts ≡ ok total
unfolding cover holders
cover_lem cursor total [] a pos le fits h = ap (λ n. ok n) (ground (arith, h cursor))
cover_lem cursor total (t ∷ ts) (after, a) (pos, poss) le fits h =
    let inside : (cursor ≤ t.data_offset) × (t.data_offset < total) =
      (ground (arith, h t.data_offset), ground (arith, h t.data_offset)) in
    let last : t.data_offset + t.data_length ≤ total =
      ground (arith, h (t.data_offset + t.data_length - 1)) in
    let at : t.data_offset ≡ cursor = elim (dec_lt cursor t.data_offset) [
      | yes lt ↦ absurd (
          ground (
            arith,
            h cursor,
            holders_none cursor ts (All-trans (suc cursor) t.data_offset ts lt after),
          ))
      | no ge ↦ omega arith
    ] in
    let rest =
      cover_lem (t.data_offset + t.data_length) total ts a poss last fits
        (λ p. ground (arith, h p)) in
    let same : raise_if (not (t.data_offset == cursor)) invalid_package ≡ ok tt = ground arith in
    rw (same, checked_add-nat t.data_offset t.data_length (omega arith)) rest

-- `_validate_complete_coverage` accepts exactly the tilings: each byte of the data section is held by one
-- tensor, and no tensor holds a byte behind it; neither the order nor empty tensors matter. (The size of
-- the section is that of a file, at most 2^63 - 1.)
pub validate_complete_coverage_iff :
    (tensors : List SafetensorsTensor) (data_bytes : ℕ)
    → data_bytes ≤ max_serialized_uint
    → (validate_complete_coverage tensors data_bytes ≡ ok tt)
      ↔ ((p : ℕ) → holders p tensors ≡ (if ltb p data_bytes then 1 else 0))
unfolding validate_complete_coverage
validate_complete_coverage_iff tensors data_bytes fits =
    let ts = sorted offset_less (nonempty tensors) in
    let count : (p : ℕ) → holders p ts ≡ holders p tensors =
      λ p. holders-sorted offset_less p (nonempty tensors) ∙ holders-nonempty p tensors in
    (
      λ e p.
          let (cursor, ec, e1) = >>=-eq-ok (cover 0 ts) _ e in
          let end : cursor ≡ data_bytes = ground arith in
          sym (count p) ∙ cover-holders p 0 ts {end = cursor} ec ∙ ground arith,
      λ h.
          let all =
            cover_lem 0 data_bytes ts (sorted-IsAscending (nonempty tensors))
              (All-sorted Positive offset_less (nonempty tensors) (nonempty-Positive tensors))
              (omega arith) fits (λ p. count p ∙ h p ∙ ground arith) in
          rw all (ground arith),
    )
