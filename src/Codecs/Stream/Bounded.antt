-- ===== src/Codecs/Stream/Bounded.antt =====
-- src/ams/codecs: how much a streaming encoder asks the reader for at once.
use accumulative_matrix_swee.Prelude.{
  ℕ, zero, suc, ◌-◌, ◌*◌, ◌≤◌, ◌≡◌, refl, sym, ap, ◌∙◌, Bool-cases, false, List, min, ltb, leb,
  arith, inl, inr, if◌then◌else◌, some,
}
use accumulative_matrix_swee.Errors.{Result, ok, err, os_error, Result-cases}
use accumulative_matrix_swee.Checked.{Value, nat, checked_mul, checked_add}
use accumulative_matrix_swee.Descriptors.Storage.{DType, ByteRange}
use accumulative_matrix_swee.Codecs.Floats.{Floats}
use accumulative_matrix_swee.Codecs.Sink.{Sink, write_exact}
use accumulative_matrix_swee.Codecs.Stream.Returned.{
  prepare-eq_ok, encode_stream_stops, encode_stream_step,
}
use accumulative_matrix_swee.Codecs.Stream.{
  Reader, Hashes, EncodingResult, Progress, start, item_bytes, read_group, encode_loop, prepare,
  prepare_sized, conclude, encode_stream,
}

-- A reader that fails where it is asked for more than a limit.
abbrev pub bounded : ℕ → Reader → Reader
bounded limit reader = record {
  size_bytes = reader.size_bytes;
  read_into = λ offset n. if ltb limit n then err os_error else reader.read_into offset n;
}

bounded-read_into :
    (limit : ℕ) (reader : Reader) (offset n : ℕ)
    → n ≤ limit
    → (bounded limit reader).read_into offset n ≡ reader.read_into offset n
bounded-read_into limit reader offset n le =
    let small : ltb limit n ≡ false = ground arith in rw small refl

module _ (f : Floats) (k : Sink) (h : Hashes) (reader : Reader) (group : ℕ)
    (encoded_size : ℕ → Result ℕ) (encode : List f.F → Result (List ℕ)) (source : ByteRange)
    (dtype : DType) where
  module _ (size element_count : ℕ) where
    abbrev limited : Reader
    limited = bounded (group * size) reader

    read_group-bounded :
        (completed : ℕ)
        → read_group f k h limited group encoded_size encode source dtype size element_count
            completed
          ≡ read_group f k h reader group encoded_size encode source dtype size element_count
              completed
    unfolding read_group
    read_group-bounded completed = elim (Result-cases (checked_mul (nat completed) (nat size))) [
      | inr (x, e) ↦ rw e refl
      | inl (progress, e) ↦ elim (Result-cases (checked_add (nat source.offset) (nat progress))) [
        | inr (x, a) ↦ rw e (rw a refl)
        | inl (offset, a) ↦
            let count = min group (element_count - completed) in
            let le : count * size ≤ group * size = grind arith in
            rw e (rw a (rw (bounded-read_into (group * size) reader offset (count * size) le) refl))
      ]
    ]

    abbrev loop : Reader → ℕ → ℕ → Progress → k.S → Result Progress × k.S
    loop r = encode_loop f k h r group encoded_size encode source dtype size element_count

    encode_loop-bounded :
        (fuel completed : ℕ) (p : Progress) (s : k.S)
        → loop limited fuel completed p s ≡ loop reader fuel completed p s
    unfolding encode_loop
    encode_loop-bounded zero completed p s = refl
    encode_loop-bounded (suc fuel) completed p s = elim (Bool-cases (leb element_count completed)) [
      | inl e ↦ rw (encode_loop, e) refl
      | inr e ↦ elim (Result-cases (group_of completed)) [
        | inr (x, r) ↦ rw (encode_loop, e) (rw (read_group-bounded completed) (rw r refl))
        | inl ((window, bytes), r) ↦ elim (Result-cases (write_exact k bytes s).0) [
          | inr (x, w) ↦ rw (encode_loop, e) (rw (read_group-bounded completed) (rw r (rw w refl)))
          | inl (n, w) ↦
              rw (encode_loop, e)
                (rw (read_group-bounded completed) (rw r (rw w (encode_loop-bounded fuel _ _ _))))
        ]
      ]
    ]
      where
        group_of : ℕ → Result (List ℕ × List ℕ)
        group_of = read_group f k h reader group encoded_size encode source dtype size element_count

  -- A call that returns has asked the reader for no more than a group at once: it does the same with a
  -- reader that fails where it is asked for more.
  pub encode_stream-bounded :
      (shape : List Value) (s : k.S) {r : EncodingResult}
      → (encode_stream f k h reader group encoded_size encode source shape dtype s).0 ≡ ok r
      → (size : ℕ) × (item_bytes dtype ≡ some size)
        × (encode_stream f k h
              (bounded (group * size) reader)
              group
              encoded_size
              encode
              source
              shape
              dtype
              s
            ≡ encode_stream f k h reader group encoded_size encode source shape dtype s)
  unfolding prepare prepare_sized conclude
  encode_stream-bounded shape s {r} e =
      let ((size, n, decoded, algorithm, expected), p, ep, el) =
        encode_stream_stops f k h reader group encoded_size encode source dtype shape s {r = r} e in
      let (sized, _) = prepare-eq_ok h reader source shape dtype ep in
      let same = encode_loop-bounded size n n 0 start s in
      (
        size,
        sized,
        encode_stream_step f k h (bounded (group * size) reader) group encoded_size encode source
              dtype shape s size n decoded algorithm expected p ep
              (ap (λ (l : Result Progress × k.S). l.0) same ∙ el)
            ∙ ap
                (λ (l : Result Progress × k.S). (
                  conclude f k h reader group encoded_size encode source dtype size n algorithm
                      expected decoded p,
                  l.1,
                ))
                same
            ∙ sym (
                encode_stream_step f k h reader group encoded_size encode source dtype shape s size
                  n decoded algorithm expected p ep el),
      )
