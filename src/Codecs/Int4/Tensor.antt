-- ===== src/Codecs/Int4/Tensor.antt =====
-- src/ams/codecs/int4.py: the size of a whole tensor, and the loop that decodes it.
use accumulative_matrix_swee.Prelude.{
  ℕ, ◌+◌, ◌-◌, ◌*◌, ◌/◌, ◌%◌, ◌≤◌, ◌<◌, ◌≡◌, sym, ◌∙◌, not, ◌||◌, List, [], ◌∷◌, ◌++◌, arith, ltb,
  ◌==◌, length, length-append, length-drop, take, drop, if◌then◌else◌,
}
use accumulative_matrix_swee.Errors.{
  ok, >>=-eq-ok, raise_if, ok-injective, numeric_failure, invalid_package,
}
use accumulative_matrix_swee.Checked.{max_serialized_uint, nat, checked_positive, checked_mul}
use accumulative_matrix_swee.Checked.Laws.{
  checked_positive-nat-eq_ok, checked_add-nat-eq_ok, checked_mul-nat-eq_ok,
}
use accumulative_matrix_swee.Codecs.Floats.{Floats}
use accumulative_matrix_swee.Codecs.Groups.{records, records_lem, sizes}
use accumulative_matrix_swee.Codecs.Grouped.{decode_groups, decode_groups-ok}
use accumulative_matrix_swee.Codecs.Int4.{
  Int4CodecConfig, group_record_size, encoded_size, decode_nibble, decode_packed,
  decode_int4_group_reference, decode_int4_reference,
}

-- The size of a record, with the arithmetic of the decoder.
abbrev pub record_bytes : ℕ → ℕ
record_bytes n = 4 + (n + 1) / 2

group_record_size-eq_ok :
    (config : Int4CodecConfig) (n : ℕ) {size : ℕ}
    → group_record_size config n ≡ ok size
    → (size ≡ record_bytes n) × (0 < n) × (n ≤ config.group_size) × (n ≤ max_serialized_uint)
unfolding group_record_size
group_record_size-eq_ok config n e =
    let (m, em, e1) = >>=-eq-ok (checked_positive (nat n)) _ e in
    let (same, p, le) = checked_positive-nat-eq_ok n em in
    (ground arith, ground arith, ground arith, ground arith)

-- `encoded_size` is the sum of the sizes of the records that the loops read and write.
pub encoded_size-records :
    (config : Int4CodecConfig) (n : ℕ) {size : ℕ}
    → encoded_size config n ≡ ok size
    → (size ≡ records record_bytes config.group_size n n)
      × (0 < n)
      × (0 < config.group_size)
      × (n ≤ max_serialized_uint)
unfolding encoded_size
encoded_size-records config n e =
    let (m, em, e1) = >>=-eq-ok (checked_positive (nat n)) _ e in
    let (same, pn, le) = checked_positive-nat-eq_ok n em in
    let (full, ef, e2) = >>=-eq-ok (group_record_size config config.group_size) _ e1 in
    let (vf, pg, _, _) = group_record_size-eq_ok config config.group_size ef in
    let groups = (n - 1) / config.group_size + 1 in
    let tail = if groups == 1 then n else n - (groups - 1) * config.group_size in
    let (fulls, efs, e3) = >>=-eq-ok (checked_mul (nat (groups - 1)) (nat full)) _ e2 in
    let (vfs, _) = checked_mul-nat-eq_ok (groups - 1) full efs in
    let (last, elast, e4) = >>=-eq-ok (group_record_size config tail) _ e3 in
    let (vl, _, _, _) = group_record_size-eq_ok config tail elast in
    let (total, _) = checked_add-nat-eq_ok fulls last e4 in
    (
      total
          ∙ sizes record_bytes n config.group_size full fulls last vf vfs vl
          ∙ sym (records_lem record_bytes config.group_size n n pg pn (omega arith)),
      pn,
      pg,
      le,
    )

module _ (f : Floats) where
  length-decode_nibble :
      (scale : f.F) (n index nibble : ℕ) {vs : List f.F}
      → decode_nibble f scale n index nibble ≡ ok vs
      → length vs ≡ (if ltb index n then 1 else 0)
  unfolding decode_nibble
  length-decode_nibble scale n index nibble e = ground arith

  length-decode_packed :
      (scale : f.F) (n i : ℕ) (bytes : List ℕ) {out : List f.F}
      → i * 2 ≤ n + 1
      → length bytes ≡ (n - i * 2 + 1) / 2
      → decode_packed f scale n i bytes ≡ ok out
      → length out ≡ n - i * 2
  unfolding decode_packed
  length-decode_packed scale n i [] le len e = ground arith
  length-decode_packed scale n i (b ∷ bytes) le len e =
      let (lo, el, e1) = >>=-eq-ok (decode_nibble f scale n (i * 2) (b % 16)) _ e in
      let (hi, eh, e2) = >>=-eq-ok (decode_nibble f scale n (i * 2 + 1) (b / 16)) _ e1 in
      let (vs, er, e3) = >>=-eq-ok (decode_packed f scale n (i + 1) bytes) _ e2 in
      let ih = length-decode_packed scale n (i + 1) bytes (omega arith) (omega arith) er in
      rw (← ok-injective e3) (
        two lo hi vs (length-decode_nibble scale n (i * 2) (b % 16) el)
          (length-decode_nibble scale n (i * 2 + 1) (b / 16) eh) ih (omega arith))
    where
      two :
          (lo hi vs : List f.F)
          → length lo ≡ (if ltb (i * 2) n then 1 else 0)
          → length hi ≡ (if ltb (i * 2 + 1) n then 1 else 0)
          → length vs ≡ n - (i + 1) * 2
          → i * 2 < n
          → length (lo ++ hi ++ vs) ≡ n - i * 2
      two lo hi vs el eh er lt = ground (arith, length-append (lo ++ hi) vs, length-append lo hi)

  -- A record that decodes to n values has the size of a record of n.
  pub length-decode_group :
      (payload : List ℕ) (n : ℕ) {out : List f.F}
      → decode_int4_group_reference f payload n ≡ ok out
      → (length out ≡ n) × (length payload ≡ record_bytes n)
  unfolding decode_int4_group_reference
  length-decode_group payload n e =
      let (m, em, e1) = >>=-eq-ok (checked_positive (nat n)) _ e in
      let (_, e2, e3) =
        >>=-eq-ok (raise_if (not (length payload == 4 + (n + 1) / 2)) invalid_package) _ e1 in
      let scale = f.unpack (take 4 payload) in
      let (_, _, e4) =
        >>=-eq-ok (raise_if (not (f.is_finite scale) || f.less scale f.zero) numeric_failure) _
          e3 in
      let size : length payload ≡ record_bytes n = ground arith in
      (
        length-decode_packed scale n 0 (drop 4 payload) (omega arith)
              (omega (arith, length-drop 4 payload)) e4
            ∙ omega arith,
        size,
      )

  -- If the payload has the encoded size and its groups decode, the tensor decodes to what they hold, n
  -- values: the closing check of `decode_int4_reference` never fires.
  pub decode_reference-returns :
      (payload : List ℕ) (n : ℕ) (config : Int4CodecConfig) {size : ℕ} {out : List f.F} {end : ℕ}
      → encoded_size config n ≡ ok size
      → length payload ≡ size
      → decode_groups config.group_size
          (group_record_size config)
          (decode_int4_group_reference f)
          payload
          n
          0
          n
        ≡ ok (out, end)
      → (decode_int4_reference f payload n config ≡ ok out) × (length out ≡ n)
  unfolding decode_int4_reference
  decode_reference-returns payload n config es el eg =
      let (total, _, pg, _) = encoded_size-records config n es in
      let (lo, ee) =
        decode_groups-ok config.group_size (group_record_size config)
          (decode_int4_group_reference f) record_bytes
          (λ m s e. (group_record_size-eq_ok config m e).0)
          (λ p m o e. (length-decode_group p m e).0) payload n 0 n pg (omega arith) eg in
      (rw (es, eg) (ground arith), lo)
