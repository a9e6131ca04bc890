-- ===== src/Codecs/Int4/RoundTrip.antt =====
-- src/ams/codecs/int4.py: one group record, encoded and decoded.
use accumulative_matrix_swee.Prelude.{
  ℕ, zero, suc, ◌+◌, ◌/◌, ◌≤◌, ◌<◌, ◌≡◌, sym, ap, ◌∙◌, Bool-cases, true, false, not, Option-cases,
  some, List, [], ◌∷◌, ◌++◌, map, arith, inl, inr, ltb, ◌==◌, length, length-append, length-map,
  take, drop, take-append_left, drop-append_left, take-append-drop, length-drop, All-drop, ◌||◌,
  all, All, min,
}
use accumulative_matrix_swee.Prelude.Int.{ℤ}
use accumulative_matrix_swee.Errors.{
  ok, >>=-eq-ok, raise_if, ok-injective, plan_invalid, numeric_failure, invalid_package,
}
use accumulative_matrix_swee.Checked.{max_serialized_uint, nat, checked_positive}
use accumulative_matrix_swee.Checked.Laws.{checked_positive-nat, checked_positive-eq_ok}
use accumulative_matrix_swee.Codecs.Floats.{Floats, IsIeee}
use accumulative_matrix_swee.Codecs.Int4.{
  Int4CodecConfig, group_record_size, negate, quantize, maximum, pack_result, stored_scale,
  pack_nibbles, encode_group, encode_int4_group_reference, decode_packed,
  decode_int4_group_reference,
}
use accumulative_matrix_swee.Codecs.Int4.Nibbles.{
  IsNibble, decode_packed-pack_nibbles, decode_packed-eq_ok,
}

negate-IsNibble : (m : ℕ) → m ≤ 7 → IsNibble (negate m)
unfolding negate
negate-IsNibble zero h = omega arith
negate-IsNibble (suc m) h = omega arith

length-pack_nibbles : (qs : List ℤ) → length (pack_nibbles qs) ≡ (length qs + 1) / 2
unfolding pack_nibbles
length-pack_nibbles [] = omega arith
length-pack_nibbles (q ∷ []) = omega arith
length-pack_nibbles (q ∷ r ∷ qs) = omega (arith, length-pack_nibbles qs)

group_record_size_lem :
    (config : Int4CodecConfig) (n : ℕ)
    → 0 < n
    → n ≤ config.group_size
    → n ≤ max_serialized_uint
    → group_record_size config n ≡ ok (4 + (n + 1) / 2)
unfolding group_record_size
group_record_size_lem config n p le fits = ground (arith, checked_positive-nat n p fits)

module _ (f : Floats) (ieee : IsIeee f) where
  quantize-IsNibble : (value scale : f.F) → IsNibble (quantize f value scale)
  unfolding quantize
  quantize-IsNibble value scale =
      ground (arith, negate-IsNibble (min 7 (f.floor_half (f.div (f.abs value) scale))))

  map-IsNibble : (scale : f.F) (vs : List f.F) → All IsNibble (map (λ x. quantize f x scale) vs)
  map-IsNibble scale [] = tt
  map-IsNibble scale (v ∷ vs) = (quantize-IsNibble v scale, map-IsNibble scale vs)

  -- Of finite values the largest magnitude is finite and not negative.
  maximum_lem :
      (m : f.F) (vs : List f.F)
      → f.is_finite m ≡ true
      → f.less m f.zero ≡ false
      → all f.is_finite vs ≡ true
      → (f.is_finite (maximum f m vs) ≡ true) × (f.less (maximum f m vs) f.zero ≡ false)
  unfolding maximum
  maximum_lem m [] fin pos_m a = (fin, pos_m)
  maximum_lem m (v ∷ vs) fin pos_m a =
      let fv : f.is_finite v ≡ true = ground arith in
      let fa = ieee.finite-abs v fv in
      let na = ieee.nonneg-abs v fv in
      elim (Bool-cases (f.less m (f.abs v))) [
        | inl e ↦ rw e (maximum_lem (f.abs v) vs fa na (ground arith))
        | inr e ↦ rw e (maximum_lem m vs fin pos_m (ground arith))
      ]

  -- The stored scale is finite and not negative.
  stored_scale_lem :
      (m : f.F) {scale : f.F}
      → f.is_finite m ≡ true
      → f.less m f.zero ≡ false
      → stored_scale f m ≡ ok scale
      → (f.is_finite scale ≡ true) × (f.less scale f.zero ≡ false)
  unfolding stored_scale
  stored_scale_lem m fin pos_m e = elim (Option-cases (f.pack (f.div_int m 7))) [
    | inl p ↦ ground (arith, ieee.finite-zero, ieee.nonneg-zero)
    | inr (bs, p) ↦ ground (
      arith,
      ieee.finite-zero,
      ieee.nonneg-zero,
      ieee.finite-pack (f.div_int m 7) bs p (ieee.finite-div_int m 7 fin),
      ieee.nonneg-pack (f.div_int m 7) bs p (ieee.nonneg-div_int m 7 pos_m),
    )
  ]

  -- The header holds the scale that the values were quantized against.
  header_lem :
      (m : f.F) (scale : f.F) (header : List ℕ)
      → stored_scale f m ≡ ok scale
      → f.pack scale ≡ some header
      → f.unpack header ≡ scale
  unfolding stored_scale
  header_lem m scale header e p = elim (Option-cases (f.pack (f.div_int m 7))) [
    | inl q ↦ ground (arith, ieee.unpack-pack_zero header)
    | inr (bs, q) ↦
        ground (arith, ieee.unpack-pack_zero header, ieee.pack-unpack (f.div_int m 7) bs q)
  ]

  decode_steps :
      (header body : List ℕ) (n : ℕ) (scale : f.F)
      → 0 < n
      → n ≤ max_serialized_uint
      → length header ≡ 4
      → length body ≡ (n + 1) / 2
      → f.unpack header ≡ scale
      → f.is_finite scale ≡ true
      → f.less scale f.zero ≡ false
      → decode_int4_group_reference f (header ++ body) n ≡ decode_packed f scale n 0 body
  unfolding decode_int4_group_reference
  decode_steps header body n scale p le lh lb eu fin pos_s =
      let lt : take 4 (header ++ body) ≡ header =
        ap (λ k. take k (header ++ body)) (sym lh) ∙ take-append_left header body in
      let ld : drop 4 (header ++ body) ≡ body =
        ap (λ k. drop k (header ++ body)) (sym lh) ∙ drop-append_left header body in
      let size : length (header ++ body) ≡ 4 + (n + 1) / 2 =
        omega (arith, length-append header body) in
      rw (checked_positive-nat n p le, size, lt, ld, eu, fin, pos_s) (ground arith)

  -- The largest magnitude of a group.
  abbrev pub largest : List f.F → f.F
  largest [] = f.zero
  largest (v ∷ vs) = maximum f (f.abs v) vs

  largest_lem :
      (vs : List f.F)
      → all f.is_finite vs ≡ true
      → (f.is_finite (largest vs) ≡ true) × (f.less (largest vs) f.zero ≡ false)
  largest_lem [] a = (ieee.finite-zero, ieee.nonneg-zero)
  largest_lem (v ∷ vs) a =
      let fv : f.is_finite v ≡ true = ground arith in
      maximum_lem (f.abs v) vs (ieee.finite-abs v fv) (ieee.nonneg-abs v fv) (ground arith)

  pub encode_group-eq_ok :
      (vs : List f.F) {payload : List ℕ}
      → encode_group f vs ≡ ok payload
      → (scale : f.F) × (header : List ℕ) × (stored_scale f (largest vs) ≡ ok scale)
        × (f.pack scale ≡ some header)
        × (payload ≡ header ++ pack_nibbles (map (λ x. quantize f x scale) vs))
        × (0 < length vs)
  unfolding encode_group
  encode_group-eq_ok [] e = absurd (cc)
  encode_group-eq_ok (v ∷ vs) e =
      let (scale, es, e') = >>=-eq-ok (stored_scale f (maximum f (f.abs v) vs)) _ e in
      let (header, eh, e'') = >>=-eq-ok (pack_result f (f.pack scale)) _ e' in
      (scale, header, es, ground arith, sym (ok-injective e''), omega arith)

  pub encode_reference-eq_ok :
      (vs : List f.F) (config : Int4CodecConfig) {payload : List ℕ}
      → encode_int4_group_reference f vs config ≡ ok payload
      → (encode_group f vs ≡ ok payload)
        × (all f.is_finite vs ≡ true)
        × (length vs ≤ max_serialized_uint)
        × (length vs ≤ config.group_size)
  unfolding encode_int4_group_reference
  encode_reference-eq_ok vs config e =
      let (n, en, e1) = >>=-eq-ok (checked_positive (nat (length vs))) _ e in
      let (ev, p, le) = checked_positive-eq_ok (nat (length vs)) en in
      let (_, e2, e3) =
        >>=-eq-ok (raise_if (ltb config.group_size (length vs)) plan_invalid) _ e1 in
      let (_, e4, e5) = >>=-eq-ok (raise_if (not (all f.is_finite vs)) numeric_failure) _ e3 in
      (e5, ground arith, ground arith, ground arith)

  -- A group that encodes decodes, with its own count, to each value quantized against the stored scale
  -- and multiplied by it; every quantized value is in [-7, 7], and `group_record_size` returns the
  -- size of the record.
  pub decode_group-encode_group :
      (vs : List f.F) (config : Int4CodecConfig) (payload : List ℕ)
      → encode_int4_group_reference f vs config ≡ ok payload
      → (scale : f.F) × (stored_scale f (largest vs) ≡ ok scale)
        × (decode_int4_group_reference f payload (length vs)
            ≡ ok (map (f.mul_int scale) (map (λ x. quantize f x scale) vs)))
        × All IsNibble (map (λ x. quantize f x scale) vs)
        × (length payload ≡ 4 + (length vs + 1) / 2)
        × (group_record_size config (length vs) ≡ ok (length payload))
  decode_group-encode_group vs config payload e =
      let (eg, fin, le, within) = encode_reference-eq_ok vs config e in
      let (scale, header, es, eh, ep, p) = encode_group-eq_ok vs eg in
      let qs = map (λ x. quantize f x scale) vs in
      let (fm, nm) = largest_lem vs fin in
      let (fs, ns) = stored_scale_lem (largest vs) fm nm es in
      let lq : length qs ≡ length vs = length-map (λ x. quantize f x scale) vs in
      let lh = ieee.length-pack scale header eh in
      let lb : length (pack_nibbles qs) ≡ (length vs + 1) / 2 =
        omega (arith, length-pack_nibbles qs) in
      let size : length payload ≡ 4 + (length vs + 1) / 2 =
        rw ep (omega (arith, length-append header (pack_nibbles qs))) in
      (
        scale,
        es,
        rw ep (
            decode_steps header (pack_nibbles qs) (length vs) scale p le lh lb
              (header_lem (largest vs) scale header es eh) fs ns
            ∙ decode_packed-pack_nibbles f scale (length vs) 0 qs (omega arith)
                (map-IsNibble scale vs)),
        map-IsNibble scale vs,
        size,
        group_record_size_lem config (length vs) p within le ∙ ap (λ n. ok n) (sym size),
      )

-- A record of bytes that decodes is the packing of the quantized values that it decodes to: there are
-- as many as were asked for, each in [-7, 7], and no other record decodes to them under the same scale
-- bytes.
pub decode_group_canonical :
    (f : Floats) (payload : List ℕ) (n : ℕ) (out : List f.F)
    → All (λ b. b < 256) payload
    → decode_int4_group_reference f payload n ≡ ok out
    → (qs : List ℤ) × All IsNibble qs
      × (length qs ≡ n)
      × (out ≡ map (f.mul_int (f.unpack (take 4 payload))) qs)
      × (payload ≡ take 4 payload ++ pack_nibbles qs)
unfolding decode_int4_group_reference
decode_group_canonical f payload n out a e =
    let (m, em, e1) = >>=-eq-ok (checked_positive (nat n)) _ e in
    let (_, e2, e3) =
      >>=-eq-ok (raise_if (not (length payload == 4 + (n + 1) / 2)) invalid_package) _ e1 in
    let scale = f.unpack (take 4 payload) in
    let (_, _, e4) =
      >>=-eq-ok (raise_if (not (f.is_finite scale) || f.less scale f.zero) numeric_failure) _ e3 in
    let size : length payload ≡ 4 + (n + 1) / 2 = ground arith in
    let (qs, v, l, eo, eb) =
      decode_packed-eq_ok f scale n 0 (drop 4 payload) (omega arith)
        (omega (arith, length-drop 4 payload)) (All-drop (λ b. b < 256) 4 payload a) e4 in
    (qs, v, omega arith, eo, sym (take-append-drop 4 payload) ∙ ap (λ t. take 4 payload ++ t) eb)
