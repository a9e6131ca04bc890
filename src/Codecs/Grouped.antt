-- ===== src/Codecs/Grouped.antt =====
-- src/ams/codecs: the loops over the groups of a tensor, which the codecs have in common.
use mathlib.Core.List.{append-nil, append_assoc}
use accumulative_matrix_swee.Prelude.{
  ℕ, zero, suc, ◌+◌, ◌-◌, ◌≤◌, ◌<◌, ◌≡◌, refl, sym, ap, List, [], ◌∷◌, ◌++◌, arith, length,
  length-append, length-take, length-drop, take, drop, min, take-append_left, drop-append_left,
}
use accumulative_matrix_swee.Errors.{Result, ok, ◌>>=◌, >>=-eq-ok, ok-injective}
use accumulative_matrix_swee.Codecs.Groups.{records}

-- `while remaining`, with what remains for fuel: the output and the cursor.
module _ {F : Type 0} (group : ℕ) (record_size : ℕ → Result ℕ)
    (decode : List ℕ → ℕ → Result (List F)) where
  unfoldable pub decode_groups : List ℕ → ℕ → ℕ → ℕ → Result (List F × ℕ)
  decode_groups payload zero cursor remaining = ok ([], cursor)
  decode_groups payload (suc fuel) cursor zero = ok ([], cursor)
  decode_groups payload (suc fuel) cursor (suc n) = do
    let count = min group (suc n)
    size ← record_size count
    values ← decode (take size (drop cursor payload)) count
    (rest, end) ← decode_groups payload fuel (cursor + size) (suc n - count)
    ok (values ++ rest, end)

  module _ (bytes : ℕ → ℕ) (size_law : (n size : ℕ) → record_size n ≡ ok size → size ≡ bytes n)
      (length_law : (p : List ℕ) (n : ℕ) (out : List F)
        → decode p n ≡ ok out
        → length out ≡ n) where
    -- With as much fuel as there are elements the loop ends with every element read, and its cursor
    -- behind the last record.
    pub decode_groups-ok :
        (payload : List ℕ) (fuel cursor n : ℕ) {out : List F} {end : ℕ}
        → 0 < group
        → n ≤ fuel
        → decode_groups payload fuel cursor n ≡ ok (out, end)
        → (length out ≡ n) × (end ≡ cursor + records bytes group fuel n)
    unfolding decode_groups records
    decode_groups-ok payload zero cursor n p le e = ground arith
    decode_groups-ok payload (suc fuel) cursor zero p le e = ground arith
    decode_groups-ok payload (suc fuel) cursor (suc n) p le e =
        let count = min group (suc n) in
        let (size, es, e1) = >>=-eq-ok (record_size count) _ e in
        let (values, ev, e2) = >>=-eq-ok (decode (take size (drop cursor payload)) count) _ e1 in
        let lv = length_law (take size (drop cursor payload)) count values ev in
        let ((rest, last), er, e3) =
          >>=-eq-ok (decode_groups payload fuel (cursor + size) (suc n - count)) _ e2 in
        let (lr, ec) =
          decode_groups-ok payload fuel (cursor + size) (suc n - count) p (omega arith) er in
        close values rest last size count lv lr ec (size_law count size es) (omega arith)
          (ok-injective e3)
      where
        close :
            (values rest : List F) (last size count : ℕ) {out : List F} {end : ℕ}
            → length values ≡ count
            → length rest ≡ suc n - count
            → last ≡ cursor + size + records bytes group fuel (suc n - count)
            → size ≡ bytes count
            → count ≤ suc n
            → ◌≡◌ {A = List F × ℕ} (values ++ rest, last) (out, end)
            → (length out ≡ suc n)
              × (end ≡ cursor + (bytes count + records bytes group fuel (suc n - count)))
        close values rest last size count lv lr ec es lc e = (
          rw (← ap (λ (p : List F × ℕ). p.0) e) (omega (arith, length-append values rest)),
          rw (← ap (λ (p : List F × ℕ). p.1) e) (omega arith),
        )

-- The records of the groups of a tensor, one after the other: what the streaming encoders write.
module _ {A : Type 0} (group : ℕ) (encode : List A → Result (List ℕ)) where
  unfoldable pub encode_groups : ℕ → List A → Result (List ℕ)
  encode_groups zero values = ok []
  encode_groups (suc fuel) [] = ok []
  encode_groups (suc fuel) (v ∷ vs) = do
    record_bytes ← encode (take group (v ∷ vs))
    rest ← encode_groups fuel (drop group (v ∷ vs))
    ok (record_bytes ++ rest)

-- The same cut, of what each group decodes to.
unfoldable pub map_groups {ℓ κ} :
    {A : Type ℓ} {F : Type κ} → ℕ → (List A → List F) → ℕ → List A → List F
map_groups group image zero values = []
map_groups group image (suc fuel) [] = []
map_groups group image (suc fuel) (v ∷ vs) =
    image (take group (v ∷ vs)) ++ map_groups group image fuel (drop group (v ∷ vs))

-- What the encoder of a group promises to the decoder.
module _ {A F : Type 0} (group : ℕ) (encode : List A → Result (List ℕ)) (record_size : ℕ → Result ℕ)
    (decode : List ℕ → ℕ → Result (List F)) (image : List A → List F)
    (round : (vs : List A) (p : List ℕ)
      → encode vs ≡ ok p
      → (decode p (length vs) ≡ ok (image vs)) × (record_size (length vs) ≡ ok (length p))) where
  decode_step :
      (payload : List ℕ) (fuel cursor n size end : ℕ) (values rest : List F)
      → record_size (min group (suc n)) ≡ ok size
      → decode (take size (drop cursor payload)) (min group (suc n)) ≡ ok values
      → decode_groups group record_size decode payload fuel
          (cursor + size)
          (suc n - min group (suc n))
        ≡ ok (rest, end)
      → decode_groups group record_size decode payload (suc fuel) cursor (suc n)
        ≡ ok (values ++ rest, end)
  unfolding decode_groups
  decode_step payload fuel cursor n size end values rest es ev er = rw (es, ev, er) refl

  joined :
      (before payload : List ℕ) (fuel n : ℕ) (bytes rest : List ℕ) (count left : ℕ)
      (values others : List F)
      → payload ≡ bytes ++ rest
      → count ≡ min group (suc n)
      → left ≡ suc n - min group (suc n)
      → decode bytes count ≡ ok values
      → record_size count ≡ ok (length bytes)
      → decode_groups group record_size decode
          (before ++ bytes ++ rest)
          fuel
          (length (before ++ bytes))
          left
        ≡ ok (others, length (before ++ bytes ++ rest))
      → decode_groups group record_size decode
          (before ++ payload)
          (suc fuel)
          (length before)
          (suc n)
        ≡ ok (values ++ others, length (before ++ payload))
  joined before payload fuel n bytes rest count left values others ep ec el dec size ih =
      let cut : take (length bytes) (drop (length before) (before ++ (bytes ++ rest))) ≡ bytes =
        rw (drop-append_left before (bytes ++ rest)) (take-append_left bytes rest) in
      rw ep (
        decode_step (before ++ (bytes ++ rest)) fuel (length before) n (length bytes) _ values
          others (rw (← ec) size) (rw (cut, ← ec) dec)
          (rw (← length-append before bytes, ← append_assoc before bytes rest, ← el) ih))

  -- Decoding the records that a tensor encodes to gives what each group decodes to, in order, and ends
  -- behind the last record.
  pub decode_groups-encode_groups :
      (before payload : List ℕ) (fuel : ℕ) (values : List A)
      → 0 < group
      → length values ≤ fuel
      → encode_groups group encode fuel values ≡ ok payload
      → decode_groups group record_size decode
          (before ++ payload)
          fuel
          (length before)
          (length values)
        ≡ ok (map_groups group image fuel values, length (before ++ payload))
  unfolding decode_groups encode_groups map_groups
  decode_groups-encode_groups before payload zero [] p le e =
      rw (← ok-injective e) (rw (append-nil before) refl)
  decode_groups-encode_groups before payload zero (v ∷ vs) p le e = absurd (omega arith)
  decode_groups-encode_groups before payload (suc fuel) [] p le e =
      rw (← ok-injective e) (rw (append-nil before) refl)
  decode_groups-encode_groups before payload (suc fuel) (v ∷ vs) p le e =
      let chunk = take group (v ∷ vs) in
      let others = drop group (v ∷ vs) in
      let (bytes, eb, e1) = >>=-eq-ok (encode chunk) _ e in
      let (rest, er, e2) = >>=-eq-ok (encode_groups group encode fuel others) _ e1 in
      let (dec, size) = round chunk bytes eb in
      let lc : length chunk ≡ min group (suc (length vs)) = length-take group (v ∷ vs) in
      let lo : length others ≡ suc (length vs) - min group (suc (length vs)) =
        omega (arith, length-drop group (v ∷ vs)) in
      let ih = decode_groups-encode_groups (before ++ bytes) rest fuel others p (omega arith) er in
      joined before payload fuel (length vs) bytes rest (length chunk) (length others) (image chunk)
        (map_groups group image fuel others) (sym (ok-injective e2)) lc lo dec size ih
