-- ===== src/Safetensors/Coverage.antt =====
-- src/ams/integrations/safetensors.py: `_validate_complete_coverage`, and what it accepts.
pub mod Exact
use native.Mathlib.Decide.{dec_lt}
use accumulative_matrix_swee.Prelude.{
  ℕ, zero, suc, ◌+◌, ◌-◌, ◌≤◌, ◌<◌, ◌≡◌, ◌↔◌, refl, sym, ap, ◌∙◌, Bool, Bool-cases, true, false,
  not, ◌&&◌, ◌||◌, List, [], ◌∷◌, arith, inl, inr, ltb, leb, ◌==◌, if◌then◌else◌, All,
}
use accumulative_matrix_swee.Prelude.Text.{str_lt}
use accumulative_matrix_swee.Errors.{
  Result, ok, err, raise, raise_if, invalid_package, ◌>>=◌, ◌>>◌, >>=-eq-ok,
}
use accumulative_matrix_swee.Checked.{max_serialized_uint, nat, checked_add}
use accumulative_matrix_swee.Checked.Laws.{checked_add-nat, checked_add-nat-eq_ok}
use accumulative_matrix_swee.Safetensors.{SafetensorsTensor, insert_sorted, sorted}

-- `tensor.data_length > 0`
unfoldable pub nonempty : List SafetensorsTensor → List SafetensorsTensor
nonempty [] = []
nonempty (t ∷ ts) = let rest = nonempty ts in if ltb 0 t.data_length then t ∷ rest else rest

-- `(tensor.data_offset, tensor.source_name)`
unfoldable pub offset_less : SafetensorsTensor → SafetensorsTensor → Bool
offset_less t u =
    ltb t.data_offset u.data_offset
    || t.data_offset == u.data_offset && str_lt t.source_name u.source_name

-- The loop, from a cursor on.
unfoldable pub cover : ℕ → List SafetensorsTensor → Result ℕ
cover cursor [] = ok cursor
cover cursor (t ∷ ts) = do
  raise_if (not (t.data_offset == cursor)) invalid_package
  next ← checked_add (nat t.data_offset) (nat t.data_length)
  cover next ts

unfoldable pub validate_complete_coverage : List SafetensorsTensor → ℕ → Result (Unit {0})
unfolding nonempty offset_less cover
validate_complete_coverage tensors data_bytes = do
  cursor ← cover 0 (sorted offset_less (nonempty tensors))
  raise_if (not (cursor == data_bytes)) invalid_package

-- Whether a byte of the data section is one of a tensor's.
abbrev pub holds : ℕ → SafetensorsTensor → Bool
holds p t = leb t.data_offset p && ltb p (t.data_offset + t.data_length)

-- How many tensors hold a byte.
unfoldable pub holders : ℕ → List SafetensorsTensor → ℕ
holders p [] = 0
holders p (t ∷ ts) = (if holds p t then 1 else 0) + holders p ts

pub holders-nonempty :
    (p : ℕ) (ts : List SafetensorsTensor) → holders p (nonempty ts) ≡ holders p ts
unfolding holders nonempty
holders-nonempty p [] = refl
holders-nonempty p (t ∷ ts) = ground (arith, holders-nonempty p ts)

holders-insert_sorted :
    (less : SafetensorsTensor → SafetensorsTensor → Bool) (p : ℕ) (t : SafetensorsTensor)
    (ts : List SafetensorsTensor)
    → holders p (insert_sorted less t ts) ≡ (if holds p t then 1 else 0) + holders p ts
unfolding holders insert_sorted
holders-insert_sorted less p t [] = refl
holders-insert_sorted less p t (u ∷ ts) = elim (Bool-cases (less u t)) [
  | inl e ↦ rw (e, holders-insert_sorted less p t ts) (omega arith)
  | inr e ↦ rw e (omega arith)
]

pub holders-sorted :
    (less : SafetensorsTensor → SafetensorsTensor → Bool) (p : ℕ) (ts : List SafetensorsTensor)
    → holders p (sorted less ts) ≡ holders p ts
unfolding holders sorted
holders-sorted less p [] = refl
holders-sorted less p (t ∷ ts) =
    omega (arith, holders-insert_sorted less p t (sorted less ts), holders-sorted less p ts)

cover-le :
    (cursor : ℕ) (ts : List SafetensorsTensor) {end : ℕ} → cover cursor ts ≡ ok end → cursor ≤ end
unfolding cover
cover-le cursor [] e = ground arith
cover-le cursor (t ∷ ts) e =
    let (_, ec, e1) = >>=-eq-ok (raise_if (not (t.data_offset == cursor)) invalid_package) _ e in
    let (next, en, e2) = >>=-eq-ok (checked_add (nat t.data_offset) (nat t.data_length)) _ e1 in
    let (sum, _) = checked_add-nat-eq_ok t.data_offset t.data_length en in
    let ih = cover-le next ts e2 in let at : t.data_offset ≡ cursor = ground arith in omega arith

-- The loop accepts only tensors that hold each byte from the cursor to its end once, and no other byte.
pub cover-holders :
    (p cursor : ℕ) (ts : List SafetensorsTensor) {end : ℕ}
    → cover cursor ts ≡ ok end
    → holders p ts ≡ (if leb cursor p && ltb p end then 1 else 0)
unfolding cover holders
cover-holders p cursor [] e = ground arith
cover-holders p cursor (t ∷ ts) {end} e =
    let (_, ec, e1) = >>=-eq-ok (raise_if (not (t.data_offset == cursor)) invalid_package) _ e in
    let (next, en, e2) = >>=-eq-ok (checked_add (nat t.data_offset) (nat t.data_length)) _ e1 in
    let (sum, _) = checked_add-nat-eq_ok t.data_offset t.data_length en in
    let at : t.data_offset ≡ cursor = ground arith in
    join next end (holders p ts) at sum (cover-le next ts e2)
      (cover-holders p next ts {end = end} e2)
  where
    join :
        (next end rest : ℕ)
        → t.data_offset ≡ cursor
        → next ≡ t.data_offset + t.data_length
        → next ≤ end
        → rest ≡ (if leb next p && ltb p end then 1 else 0)
        → (if holds p t then 1 else 0) + rest ≡ (if leb cursor p && ltb p end then 1 else 0)
    join next end rest at sum le ih = ground arith
