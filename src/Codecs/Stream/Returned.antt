-- ===== src/Codecs/Stream/Returned.antt =====
-- src/ams/codecs: what a streaming encoder that returns has read, checked and written.
use accumulative_matrix_swee.Prelude.{
  ℕ, ◌+◌, ◌-◌, ◌*◌, ◌≤◌, ◌<◌, ◌≡◌, refl, sym, ap, ◌∙◌, some, Option-cases, not, true, List, [], ◌∷◌,
  ◌++◌, map, arith, inl, inr, ◌==◌, length, take, drop,
}
use mathlib.Core.Path.{subst}
use accumulative_matrix_swee.Prelude.Text.{codes}
use accumulative_matrix_swee.Errors.{
  Exception, Result, ok, err, raise_if, integrity_failure, internal_invariant, plan_invalid,
  >>=-eq-ok, Result-cases, ok-injective,
}
use accumulative_matrix_swee.Checked.{Value, nat, checked_positive, checked_mul, checked_product}
use accumulative_matrix_swee.Checked.Laws.{checked_mul-nat-eq_ok}
use accumulative_matrix_swee.Descriptors.Syntax.{list_eq}
use accumulative_matrix_swee.Descriptors.Storage.{DType, ByteRange, validate_within}
use accumulative_matrix_swee.Codecs.Floats.{Floats}
use accumulative_matrix_swee.Codecs.Sink.{Sink, IsSink}
use accumulative_matrix_swee.Codecs.Grouped.{encode_groups}
use accumulative_matrix_swee.Codecs.Stream.{
  Reader, IsReader, Hashes, EncodingResult, item_bytes, words, Progress, start, source_value,
  encode_loop, conclude, prepare, prepare_sized, checksum_parts, encode_stream,
}
use accumulative_matrix_swee.Codecs.Stream.Loop.{encode_loop-eq_ok}

pub list_eq→eq : (xs ys : List ℕ) → list_eq xs ys ≡ true → xs ≡ ys
unfolding list_eq
list_eq→eq [] [] h = refl
list_eq→eq [] (y ∷ ys) h = cc
list_eq→eq (x ∷ xs) [] h = cc
list_eq→eq (x ∷ xs) (y ∷ ys) h =
    let e : x ≡ y = ground arith in let e' = list_eq→eq xs ys (ground arith) in rw (e, e') refl

abbrev Prepared : Hashes → ByteRange → List Value → ℕ × ℕ × ℕ × List ℕ × List ℕ → Type 0
Prepared h source shape (size, n, decoded, algorithm, expected) =
    (checked_product shape ≡ ok n)
    × (source.length ≡ n * size)
    × (checksum_parts h source.checksum ≡ ok (algorithm, expected))

prepare_sized-eq_ok :
    (h : Hashes) (reader : Reader) (source : ByteRange) (shape : List Value) (size : ℕ)
    {q : ℕ × ℕ × ℕ × List ℕ × List ℕ}
    → prepare_sized h reader source shape size ≡ ok q
    → (q.0 ≡ size) × Prepared h source shape q
unfolding prepare_sized
prepare_sized-eq_ok h reader source shape size {q} e =
    let (n, en, e1) = >>=-eq-ok (checked_product shape) _ e in
    let (_, _, e2) = >>=-eq-ok (checked_positive (nat n)) _ e1 in
    let (decoded, ed, e3) = >>=-eq-ok (checked_mul (nat n) (nat size)) _ e2 in
    let (_, el, e4) = >>=-eq-ok (raise_if (not (source.length == decoded)) plan_invalid) _ e3 in
    let (_, _, e5) = >>=-eq-ok (validate_within source reader.size_bytes) _ e4 in
    let (parts, ep, e6) = >>=-eq-ok (checksum_parts h source.checksum) _ e5 in
    let (mul, _) = checked_mul-nat-eq_ok n size ed in
    subst (λ (q : ℕ × ℕ × ℕ × List ℕ × List ℕ). (q.0 ≡ size) × Prepared h source shape q)
      (ok-injective e6) (refl, (en, same n decoded el mul, ep))
  where
    same :
        (n decoded : ℕ)
        → raise_if (not (source.length == decoded)) plan_invalid ≡ ok tt
        → decoded ≡ n * size
        → source.length ≡ n * size
    same n decoded el mul = ground arith

pub prepare-eq_ok :
    (h : Hashes) (reader : Reader) (source : ByteRange) (shape : List Value) (dtype : DType)
    {q : ℕ × ℕ × ℕ × List ℕ × List ℕ}
    → prepare h reader source shape dtype ≡ ok q
    → (item_bytes dtype ≡ some q.0) × Prepared h source shape q
unfolding prepare
prepare-eq_ok h reader source shape dtype {q} e = elim (Option-cases (item_bytes dtype)) [
  | inl n ↦ absurd (ground arith)
  | inr (size, es) ↦
      let sized : prepare h reader source shape dtype ≡ prepare_sized h reader source shape size =
        rw (prepare, es) refl in
      let (eq, rest) = prepare_sized-eq_ok h reader source shape size {q = q} (sym sized ∙ e) in
      (es ∙ ap (λ s. some s) (sym eq), rest)
]

module _ (f : Floats) (k : Sink) (h : Hashes) (reader : Reader) (group : ℕ)
    (encoded_size : ℕ → Result ℕ) (encode : List f.F → Result (List ℕ)) (source : ByteRange)
    (dtype : DType) where
  abbrev whole_loop : ℕ → ℕ → k.S → Result Progress × k.S
  whole_loop size n s =
      encode_loop f k h reader group encoded_size encode source dtype size n n 0 start s

  abbrev ending : ℕ × ℕ × ℕ × List ℕ × List ℕ → Progress → Result EncodingResult
  ending (size, n, decoded, algorithm, expected) p =
      conclude f k h reader group encoded_size encode source dtype size n algorithm expected decoded
        p

  conclude-eq_ok :
      (size n decoded : ℕ) (algorithm expected : List ℕ) (p : Progress) {r : EncodingResult}
      → ending (size, n, decoded, algorithm, expected) p ≡ ok r
      → (h.hexdigest algorithm p.source ≡ expected)
        × (encoded_size n ≡ ok p.encoded_bytes)
        × (r.encoded_bytes ≡ p.encoded_bytes)
        × (r.content_hash ≡ codes "sha256:" ++ h.hexdigest (codes "sha256") p.output)
        × (r.maximum_source_read_bytes ≡ p.maximum_read)
        × (r.element_count ≡ n)
  unfolding conclude
  conclude-eq_ok size n decoded algorithm expected p {r} e =
      let (_, eh, e1) =
        >>=-eq-ok
          (raise_if (not (list_eq (h.hexdigest algorithm p.source) expected)) integrity_failure) _
          e in
      let (total, et, e2) = >>=-eq-ok (encoded_size n) _ e1 in
      let (_, ec, e3) =
        >>=-eq-ok (raise_if (not (p.encoded_bytes == total)) internal_invariant) _ e2 in
      let back = sym (ok-injective e3) in
      (
        list_eq→eq (h.hexdigest algorithm p.source) expected (ground arith),
        rw et (ground arith),
        ap (λ (r : EncodingResult). r.encoded_bytes) back,
        ap (λ (r : EncodingResult). r.content_hash) back,
        ap (λ (r : EncodingResult). r.maximum_source_read_bytes) back,
        ap (λ (r : EncodingResult). r.element_count) back,
      )

  pub encode_stream_step :
      (shape : List Value) (s : k.S) (size n decoded : ℕ) (algorithm expected : List ℕ)
      (p : Progress)
      → prepare h reader source shape dtype ≡ ok (size, n, decoded, algorithm, expected)
      → (whole_loop size n s).0 ≡ ok p
      → encode_stream f k h reader group encoded_size encode source shape dtype s
        ≡ (ending (size, n, decoded, algorithm, expected) p, (whole_loop size n s).1)
  unfolding encode_stream
  encode_stream_step shape s size n decoded algorithm expected p ep el =
      rw (encode_stream, ep) (rw el refl)

  encode_stream_refused :
      (shape : List Value) (s : k.S) (x : Exception)
      → prepare h reader source shape dtype ≡ err x
      → encode_stream f k h reader group encoded_size encode source shape dtype s ≡ (err x, s)
  unfolding encode_stream
  encode_stream_refused shape s x ep = rw (encode_stream, ep) refl

  encode_stream_broken :
      (shape : List Value) (s : k.S) (q : ℕ × ℕ × ℕ × List ℕ × List ℕ) (x : Exception)
      → prepare h reader source shape dtype ≡ ok q
      → (whole_loop q.0 q.1 s).0 ≡ err x
      → encode_stream f k h reader group encoded_size encode source shape dtype s
        ≡ (err x, (whole_loop q.0 q.1 s).1)
  unfolding encode_stream
  encode_stream_broken shape s q x ep el = rw (encode_stream, ep) (rw el refl)

  failed :
      {l : Result EncodingResult × k.S} {r : EncodingResult} (x : Exception) (s : k.S)
      → l ≡ (err x, s)
      → l.0 ≡ ok r
      → ⊥
  failed x s same e = cc

  pub encode_stream_stops :
      (shape : List Value) (s : k.S) {r : EncodingResult}
      → (encode_stream f k h reader group encoded_size encode source shape dtype s).0 ≡ ok r
      → (q : ℕ × ℕ × ℕ × List ℕ × List ℕ) × (p : Progress) × (prepare h reader source shape dtype
          ≡ ok q)
        × ((whole_loop q.0 q.1 s).0 ≡ ok p)
  unfolding encode_stream
  encode_stream_stops shape s {r} e = elim (Result-cases (prepare h reader source shape dtype)) [
    | inr (x, ep) ↦ absurd (failed {r = r} x s (encode_stream_refused shape s x ep) e)
    | inl (q, ep) ↦ elim (Result-cases (whole_loop q.0 q.1 s).0) [
      | inr (x, el) ↦ absurd (failed {r = r} x _ (encode_stream_broken shape s q x ep el) e)
      | inl (p, el) ↦ (q, p, ep, el)
    ]
  ]

  -- What an encoder that returns r, and leaves the sink in state t, has done with the file.
  pub record IsReturned (file : List ℕ) (shape : List Value) (r : EncodingResult) (s t : k.S)
      : Type 0 where
    pub size : ℕ
    pub n : ℕ
    pub algorithm : List ℕ
    pub expected : List ℕ
    pub out : List ℕ
    pub sized : item_bytes dtype ≡ some size
    pub counted : checked_product shape ≡ ok n
    pub checksum : checksum_parts h source.checksum ≡ ok (algorithm, expected)
    pub source_hash :
        h.hexdigest algorithm (take source.length (drop source.offset file)) ≡ expected
    pub encoded :
        encode_groups group encode n
          (map (source_value f dtype) (words size n (drop source.offset file)))
        ≡ ok out
    pub total : encoded_size n ≡ ok (length out)
    pub written : k.content t ≡ k.content s ++ out
    pub encoded_bytes : r.encoded_bytes ≡ length out
    pub content_hash : r.content_hash ≡ codes "sha256:" ++ h.hexdigest (codes "sha256") out
    pub maximum_read : r.maximum_source_read_bytes ≤ group * size
    pub element_count : r.element_count ≡ n

  module _ (file : List ℕ) (is_sink : IsSink k) (is_reader : IsReader reader file) where
    pub encode_stream-eq_ok :
        (shape : List Value) (s : k.S) {r : EncodingResult}
        → ((n t : ℕ) → encoded_size n ≡ ok t → 0 < group)
        → (encode_stream f k h reader group encoded_size encode source shape dtype s).0 ≡ ok r
        → IsReturned file shape r s
            (encode_stream f k h reader group encoded_size encode source shape dtype s).1
    encode_stream-eq_ok shape s {r} positive e =
        let (q, p, ep, el) = encode_stream_stops shape s {r = r} e in
        finish q.0 q.1 q.2 q.3 q.4 p ep el
      where
        finish :
            (size n decoded : ℕ) (algorithm expected : List ℕ) (p : Progress)
            → prepare h reader source shape dtype ≡ ok (size, n, decoded, algorithm, expected)
            → (whole_loop size n s).0 ≡ ok p
            → IsReturned file shape r s
                (encode_stream f k h reader group encoded_size encode source shape dtype s).1
        finish size n decoded algorithm expected p ep el =
            let (sized, (counted, len, parts)) = prepare-eq_ok h reader source shape dtype ep in
            let same = encode_stream_step shape s size n decoded algorithm expected p ep el in
            let (hash, total, count, content, most, number) =
              conclude-eq_ok size n decoded algorithm expected p {r = r}
                (ap (λ (l : Result EncodingResult × k.S). l.0) (sym same) ∙ e) in
            let (out, enc, eo, ew, eb, es, em) =
              encode_loop-eq_ok f k h reader group encoded_size encode source dtype size n file
                is_sink is_reader sized (positive n p.encoded_bytes total) n 0 start s {q = p}
                (omega arith) el in
            let z : source.offset + 0 * size ≡ source.offset = omega arith in
            let whole : n - 0 ≡ n = omega arith in
            let first : map (source_value f dtype) (words size n (drop source.offset file))
                ≡ map (source_value f dtype)
                    (words size (n - 0) (drop (source.offset + 0 * size) file)) =
              rw (z, whole) refl in
            let read : p.source ≡ take source.length (drop source.offset file) =
              es ∙ rw (z, whole, len) refl in
            record {
              size = size;
              n = n;
              algorithm = algorithm;
              expected = expected;
              out = out;
              sized = sized;
              counted = counted;
              checksum = parts;
              source_hash = ap (λ b. h.hexdigest algorithm b) (sym read) ∙ hash;
              encoded = ap (λ v. encode_groups group encode n v) first ∙ enc;
              total = total ∙ ap (λ t. ok t) (omega arith);
              written = ap (λ (l : Result EncodingResult × k.S). k.content l.1) same ∙ ew;
              encoded_bytes = omega arith;
              content_hash =
                  content ∙ ap (λ o. codes "sha256:" ++ h.hexdigest (codes "sha256") o) eo;
              maximum_read = omega arith;
              element_count = number;
            }
