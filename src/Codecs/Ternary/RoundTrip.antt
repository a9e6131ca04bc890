-- ===== src/Codecs/Ternary/RoundTrip.antt =====
-- src/ams/codecs/ternary.py: one group record, encoded and decoded.
use accumulative_matrix_swee.Prelude.{
  ℕ, ◌+◌, ◌-◌, ◌/◌, ◌≤◌, ◌<◌, ◌≡◌, sym, ap, ◌∙◌, true, false, not, ◌||◌, some, List, [], ◌∷◌, ◌++◌,
  map, arith, ltb, ◌==◌, length, length-append, length-map, take, drop, take-append_left,
  drop-append_left, take-append-drop, length-drop, all, All, if◌then◌else◌,
}
use accumulative_matrix_swee.Errors.{
  ok, >>=-eq-ok, raise_if, ok-injective, plan_invalid, numeric_failure, invalid_package,
}
use accumulative_matrix_swee.Checked.{max_serialized_uint, nat, checked_positive}
use accumulative_matrix_swee.Checked.Laws.{checked_positive-nat, checked_positive-eq_ok}
use accumulative_matrix_swee.Codecs.Floats.{Floats, IsIeee}
use accumulative_matrix_swee.Codecs.Int4.{pack_result}
use accumulative_matrix_swee.Codecs.Ternary.{
  TernaryCodecConfig, pack_trits, threshold_of, selected, group_scale, digit_of, trit_value,
  encode_group, encode_ternary_group_reference, decode_trits, decode_ternary_group_reference,
}
use accumulative_matrix_swee.Codecs.Ternary.Trits.{
  IsTrit, decode_trits-pack_trits, decode_trits-eq_ok,
}

length-pack_trits : (ds : List ℕ) → length (pack_trits ds) ≡ (length ds + 4) / 5
unfolding pack_trits
length-pack_trits [] = omega arith
length-pack_trits (a ∷ []) = omega arith
length-pack_trits (a ∷ b ∷ []) = omega arith
length-pack_trits (a ∷ b ∷ c ∷ []) = omega arith
length-pack_trits (a ∷ b ∷ c ∷ d ∷ []) = omega arith
length-pack_trits (a ∷ b ∷ c ∷ d ∷ e ∷ ds) = omega (arith, length-pack_trits ds)

module _ (f : Floats) (ieee : IsIeee f) where
  map-IsTrit : (t : f.F) (vs : List f.F) → All IsTrit (map (digit_of f t) vs)
  unfolding digit_of
  map-IsTrit t [] = tt
  map-IsTrit t (v ∷ vs) = (ground arith, map-IsTrit t vs)

  -- The sum of magnitudes of finite values is not negative.
  selected-nonneg :
      (t : f.F) (vs : List f.F) (total : f.F) (count : ℕ)
      → f.less total f.zero ≡ false
      → all f.is_finite vs ≡ true
      → f.less (selected f t total count vs).0 f.zero ≡ false
  unfolding selected
  selected-nonneg t [] total count h a = h
  selected-nonneg t (v ∷ vs) total count h a =
      selected-nonneg t vs (if f.less t (f.abs v) then f.add total (f.abs v) else total)
        (if f.less t (f.abs v) then count + 1 else count)
        (ground (arith, ieee.nonneg-add total (f.abs v), ieee.nonneg-abs v)) (ground arith)

  group_scale-nonneg :
      (t : f.F) (vs : List f.F)
      → all f.is_finite vs ≡ true
      → f.less (group_scale f t vs) f.zero ≡ false
  unfolding group_scale
  group_scale-nonneg t vs a = ground (
    arith,
    ieee.nonneg-zero,
    ieee.nonneg-div_int (selected f t f.zero 0 vs).0 (selected f t f.zero 0 vs).1,
    selected-nonneg t vs f.zero 0 ieee.nonneg-zero a,
  )

  decode_steps :
      (payload header body : List ℕ) (n : ℕ)
      → payload ≡ header ++ body
      → 0 < n
      → n ≤ max_serialized_uint
      → length header ≡ 4
      → length body ≡ (n + 4) / 5
      → f.is_finite (f.unpack header) ≡ true
      → f.less (f.unpack header) f.zero ≡ false
      → (decode_ternary_group_reference f payload n ≡ decode_trits f (f.unpack header) n 0 body)
        × (take 4 payload ≡ header)
  unfolding decode_ternary_group_reference
  decode_steps payload header body n ep p le lh lb fin pos_s =
      let lt : take 4 (header ++ body) ≡ header =
        ap (λ k. take k (header ++ body)) (sym lh) ∙ take-append_left header body in
      let ld : drop 4 (header ++ body) ≡ body =
        ap (λ k. drop k (header ++ body)) (sym lh) ∙ drop-append_left header body in
      let size : length (header ++ body) ≡ 4 + (n + 5 - 1) / 5 =
        omega (arith, length-append header body) in
      (rw ep (rw (checked_positive-nat n p le, size, lt, ld, fin, pos_s) (ground arith)), rw ep lt)

  encode_group-eq_ok :
      (vs : List f.F) (config : TernaryCodecConfig) {payload : List ℕ}
      → encode_ternary_group_reference f vs config ≡ ok payload
      → (header : List ℕ) × (f.pack (group_scale f (threshold_of f vs config) vs) ≡ some header)
        × (payload ≡ header ++ pack_trits (map (digit_of f (threshold_of f vs config)) vs))
        × (all f.is_finite vs ≡ true)
        × (0 < length vs)
        × (length vs ≤ max_serialized_uint)
        × (length vs ≤ config.group_size)
  unfolding encode_ternary_group_reference encode_group
  encode_group-eq_ok vs config e =
      let (n, en, e1) = >>=-eq-ok (checked_positive (nat (length vs))) _ e in
      let (ev, p, le) = checked_positive-eq_ok (nat (length vs)) en in
      let (_, e2, e3) =
        >>=-eq-ok (raise_if (ltb config.group_size (length vs)) plan_invalid) _ e1 in
      let (_, e4, e5) = >>=-eq-ok (raise_if (not (all f.is_finite vs)) numeric_failure) _ e3 in
      let (header, eh, e6) =
        >>=-eq-ok (pack_result f (f.pack (group_scale f (threshold_of f vs config) vs))) _ e5 in
      (
        header,
        ground arith,
        sym (ok-injective e6),
        ground arith,
        ground arith,
        ground arith,
        ground arith,
      )

  -- A group that encodes, and whose scale is finite, decodes with its own count to 0, the stored scale or
  -- its negation for each value, by the digit that the threshold of the group gives it.
  pub decode_ternary-encode_ternary :
      (vs : List f.F) (config : TernaryCodecConfig) (payload : List ℕ)
      → encode_ternary_group_reference f vs config ≡ ok payload
      → f.is_finite (group_scale f (threshold_of f vs config) vs) ≡ true
      → (decode_ternary_group_reference f payload (length vs)
          ≡ ok (
              map
                (trit_value f (f.unpack (take 4 payload)))
                (map (digit_of f (threshold_of f vs config)) vs)))
        × (f.pack (f.unpack (take 4 payload))
            ≡ f.pack (group_scale f (threshold_of f vs config) vs))
        × (length payload ≡ 4 + (length vs + 4) / 5)
  decode_ternary-encode_ternary vs config payload e finite =
      let (header, eh, ep, fin, p, le, _) = encode_group-eq_ok vs config e in
      let scale = group_scale f (threshold_of f vs config) vs in
      let ds = map (digit_of f (threshold_of f vs config)) vs in
      let lh = ieee.length-pack scale header eh in
      let lds : length ds ≡ length vs = length-map (digit_of f (threshold_of f vs config)) vs in
      let lb : length (pack_trits ds) ≡ (length vs + 4) / 5 = omega (arith, length-pack_trits ds) in
      let (steps, lt) =
        decode_steps payload header (pack_trits ds) (length vs) ep p le lh lb
          (ieee.finite-pack scale header eh finite)
          (ieee.nonneg-pack scale header eh
            (group_scale-nonneg (threshold_of f vs config) vs fin)) in
      let back =
        decode_trits-pack_trits f (f.unpack header) (length vs) 0 ds (omega arith)
          (map-IsTrit (threshold_of f vs config) vs) in
      (
        rw lt (steps ∙ back),
        rw lt (ieee.pack-unpack scale header eh ∙ sym eh),
        rw ep (omega (arith, length-append header (pack_trits ds))),
      )

-- A record that decodes is its first four bytes followed by the packing of as many digits as were asked
-- for, and it decodes to the values of those digits under the scale of those bytes.
pub decode_ternary_canonical :
    (f : Floats) (payload : List ℕ) (n : ℕ) (out : List f.F)
    → decode_ternary_group_reference f payload n ≡ ok out
    → (ds : List ℕ) × All IsTrit ds
      × (length ds ≡ n)
      × (out ≡ map (trit_value f (f.unpack (take 4 payload))) ds)
      × (payload ≡ take 4 payload ++ pack_trits ds)
unfolding decode_ternary_group_reference
decode_ternary_canonical f payload n out e =
    let (m, em, e1) = >>=-eq-ok (checked_positive (nat n)) _ e in
    let (_, e2, e3) =
      >>=-eq-ok (raise_if (not (length payload == 4 + (n + 5 - 1) / 5)) invalid_package) _ e1 in
    let scale = f.unpack (take 4 payload) in
    let (_, _, e4) =
      >>=-eq-ok (raise_if (not (f.is_finite scale) || f.less scale f.zero) numeric_failure) _ e3 in
    let size : length payload ≡ 4 + (n + 5 - 1) / 5 = ground arith in
    let (ds, t, l, eo, eb) =
      decode_trits-eq_ok f scale n 0 (drop 4 payload) (omega arith)
        (omega (arith, length-drop 4 payload)) e4 in
    (ds, t, omega arith, eo, sym (take-append-drop 4 payload) ∙ ap (λ t. take 4 payload ++ t) eb)
