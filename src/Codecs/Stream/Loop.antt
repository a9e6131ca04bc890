-- ===== src/Codecs/Stream/Loop.antt =====
-- src/ams/codecs: what the loop of a streaming encoder reads, writes and counts.
use mathlib.Core.Path.{subst}
use native.Mathlib.Decide.{dec_lt}
use mathlib.Core.List.{append-nil, append_assoc}
use accumulative_matrix_swee.Prelude.{
  ℕ, zero, suc, ◌+◌, ◌-◌, ◌*◌, ◌≤◌, ◌<◌, ◌≡◌, refl, sym, ap, ◌∙◌, true, false, some, List, [], ◌∷◌,
  ◌++◌, map, arith, inl, inr, min, max, leb, length, length-append, length-map, take, drop,
}
use accumulative_matrix_swee.Errors.{
  Exception, Result, ok, err, >>=-eq-ok, Result-cases, ok-injective,
}
use accumulative_matrix_swee.Checked.{nat, checked_add, checked_mul}
use accumulative_matrix_swee.Checked.Laws.{checked_add-nat-eq_ok, checked_mul-nat-eq_ok}
use accumulative_matrix_swee.Descriptors.Storage.{DType, ByteRange}
use accumulative_matrix_swee.Codecs.Floats.{Floats}
use accumulative_matrix_swee.Codecs.Sink.{Sink, IsSink, write_exact, write_exact-eq_ok}
use accumulative_matrix_swee.Codecs.Grouped.{encode_groups}
use accumulative_matrix_swee.Codecs.Stream.{
  Reader, IsReader, Hashes, item_bytes, words, Progress, source_value, decode_source_group,
  read_group, encode_loop,
}
use accumulative_matrix_swee.Codecs.Stream.Cuts.{
  take_add, drop-drop, take-map, drop-map, words-take, take-words, drop-words,
}

pub length-words : (size n : ℕ) (bytes : List ℕ) → length (words size n bytes) ≡ n
unfolding words
length-words size zero bytes = refl
length-words size (suc n) bytes = omega (arith, length-words size n (drop size bytes))

encode_groups_step :
    {A : Type 0} (group : ℕ) (encode : List A → Result (List ℕ)) (fuel : ℕ) (vs : List A)
    {r rest : List ℕ}
    → 0 < length vs
    → encode (take group vs) ≡ ok r
    → encode_groups group encode fuel (drop group vs) ≡ ok rest
    → encode_groups group encode (suc fuel) vs ≡ ok (r ++ rest)
unfolding encode_groups
encode_groups_step group encode fuel [] p e er = absurd (omega arith)
encode_groups_step group encode fuel (v ∷ vs) p e er = rw (e, er) refl

encode_groups_none :
    {A : Type 0} (group : ℕ) (encode : List A → Result (List ℕ)) (fuel : ℕ) (vs : List A)
    → length vs ≡ 0
    → encode_groups group encode fuel vs ≡ ok []
unfolding encode_groups
encode_groups_none group encode zero vs e = refl
encode_groups_none group encode (suc fuel) [] e = refl
encode_groups_none group encode (suc fuel) (v ∷ vs) e = absurd (omega arith)

decode_source_group-eq_ok :
    (f : Floats) (payload : List ℕ) (count size : ℕ) (dtype : DType) {vs : List f.F}
    → item_bytes dtype ≡ some size
    → decode_source_group f payload count dtype ≡ ok vs
    → vs ≡ map (source_value f dtype) (words size count payload)
unfolding decode_source_group
decode_source_group-eq_ok f payload count size dtype es e = ground arith

module _ (f : Floats) (k : Sink) (h : Hashes) (reader : Reader) (group : ℕ)
    (encoded_size : ℕ → Result ℕ) (encode : List f.F → Result (List ℕ)) (source : ByteRange)
    (dtype : DType) (size n : ℕ) (file : List ℕ) (is_sink : IsSink k)
    (is_reader : IsReader reader file) (sized : item_bytes dtype ≡ some size)
    (positive : 0 < group) where
  -- The bytes of the elements from an index on, and their values.
  abbrev left : ℕ → List ℕ
  left completed = drop (source.offset + completed * size) file

  abbrev values : ℕ → List f.F
  values completed = map (source_value f dtype) (words size (n - completed) (left completed))

  read_group-eq_ok :
      (completed : ℕ) {window r : List ℕ}
      → read_group f k h reader group encoded_size encode source dtype size n completed
        ≡ ok (window, r)
      → (window ≡ take (min group (n - completed) * size) (left completed))
        × (encode (take group (values completed)) ≡ ok r)
  unfolding read_group
  read_group-eq_ok completed {window} {r} e =
      let count = min group (n - completed) in
      let (progress, ep, e1) = >>=-eq-ok (checked_mul (nat completed) (nat size)) _ e in
      let (offset, eo, e2) = >>=-eq-ok (checked_add (nat source.offset) (nat progress)) _ e1 in
      let (window', ew, e3) = >>=-eq-ok (reader.read_into offset (count * size)) _ e2 in
      let (vs, ev, e4) = >>=-eq-ok (decode_source_group f window' count dtype) _ e3 in
      let (r', er, e5) = >>=-eq-ok (encode vs) _ e4 in
      let (mul, _) = checked_mul-nat-eq_ok completed size ep in
      let (add, _) = checked_add-nat-eq_ok source.offset progress eo in
      close count offset window' r' vs refl (omega arith)
        (is_reader.reads offset (count * size) window' ew)
        (decode_source_group-eq_ok f window' count size dtype sized ev) er (ok-injective e5)
    where
      close :
          (count offset : ℕ) (window' r' : List ℕ) (vs : List f.F)
          → count ≡ min group (n - completed)
          → offset ≡ source.offset + completed * size
          → window' ≡ take (count * size) (drop offset file)
          → vs ≡ map (source_value f dtype) (words size count window')
          → encode vs ≡ ok r'
          → ◌≡◌ {A = List ℕ × List ℕ} (window', r') (window, r)
          → (window ≡ take (min group (n - completed) * size) (left completed))
            × (encode (take group (values completed)) ≡ ok r)
      close count offset window' r' vs ec eo ew ev er e =
          let same : window ≡ take (min group (n - completed) * size) (left completed) =
            sym (ap (λ (p : List ℕ × List ℕ). p.0) e) ∙ ew ∙ rw (ec, eo) refl in
          let cut : take group (values completed) ≡ vs =
            take-map (source_value f dtype) group (words size (n - completed) (left completed))
            ∙ ap (λ w. map (source_value f dtype) w)
                (take-words group size (n - completed) (left completed))
            ∙ sym (
                ev
                ∙ rw (ew, eo, ec)
                    (ap (λ w. map (source_value f dtype) w)
                      (words-take size (min group (n - completed)) (left completed)))) in
          (same, ap encode cut ∙ er ∙ ap (λ b. ok b) (ap (λ (p : List ℕ × List ℕ). p.1) e))

  pub encode_loop_step :
      (fuel completed written : ℕ) (window r : List ℕ) (p : Progress) (s : k.S)
      → completed < n
      → read_group f k h reader group encoded_size encode source dtype size n completed
        ≡ ok (window, r)
      → (write_exact k r s).0 ≡ ok written
      → encode_loop f k h reader group encoded_size encode source dtype size n
          (suc fuel)
          completed
          p
          s
        ≡ encode_loop f k h reader group encoded_size encode source dtype size n fuel
            (completed + min group (n - completed))
            (record {
              source = p.source ++ window;
              output = p.output ++ r;
              encoded_bytes = p.encoded_bytes + written;
              maximum_read = max p.maximum_read (min group (n - completed) * size);
            })
            (write_exact k r s).1
  unfolding encode_loop
  encode_loop_step fuel completed written window r p s lt er ew =
      let more : leb n completed ≡ false = ground arith in
      rw (encode_loop, more) (rw er (rw ew refl))

  -- What a loop that ends adds to the progress and to the sink.
  abbrev pub IsEncoded : ℕ → ℕ → Progress → Progress → k.S → k.S → Type 0
  IsEncoded fuel completed p q s s' =
      (out : List ℕ) × (encode_groups group encode fuel (values completed) ≡ ok out)
      × (q.output ≡ p.output ++ out)
      × (k.content s' ≡ k.content s ++ out)
      × (q.encoded_bytes ≡ p.encoded_bytes + length out)
      × (q.source ≡ p.source ++ take ((n - completed) * size) (left completed))
      × (q.maximum_read ≤ max p.maximum_read (group * size))

  IsEncoded-none :
      (fuel completed : ℕ) (p : Progress) (s : k.S)
      → n ≤ completed
      → IsEncoded fuel completed p p s s
  IsEncoded-none fuel completed p s le =
      let z : n - completed ≡ 0 = omega arith in
      let z' : (n - completed) * size ≡ 0 = rw z (omega arith) in
      (
        [],
        encode_groups_none group encode fuel (values completed) (
            length-map (source_value f dtype) (words size (n - completed) (left completed))
            ∙ length-words size (n - completed) (left completed)
            ∙ z),
        sym (append-nil p.output),
        sym (append-nil (k.content s)),
        omega arith,
        sym (append-nil p.source) ∙ ap (λ t. p.source ++ t) (rw z' refl),
        omega arith,
      )

  left_next :
      (completed : ℕ)
      → left (completed + min group (n - completed))
        ≡ drop (min group (n - completed) * size) (left completed)
  left_next completed =
      let e : source.offset + (completed + min group (n - completed)) * size
          ≡ source.offset + completed * size + min group (n - completed) * size =
        grind arith in
      rw e
        (sym (drop-drop (source.offset + completed * size) (min group (n - completed) * size) file))

  values_next :
      (completed : ℕ)
      → drop group (values completed) ≡ values (completed + min group (n - completed))
  values_next completed =
      let e : n - completed - min group (n - completed)
          ≡ n - (completed + min group (n - completed)) =
        omega arith in
      drop-map (source_value f dtype) group (words size (n - completed) (left completed))
      ∙ ap (λ w. map (source_value f dtype) w)
          (drop-words group size (n - completed) (left completed))
      ∙ rw (e, ← left_next completed) refl

  bytes_next :
      (completed : ℕ)
      → take ((n - completed) * size) (left completed)
        ≡ take (min group (n - completed) * size) (left completed)
          ++ take
              ((n - (completed + min group (n - completed))) * size)
              (left (completed + min group (n - completed)))
  bytes_next completed =
      let parts : (n - completed) * size
          ≡ min group (n - completed) * size
            + (n - (completed + min group (n - completed))) * size =
        shares (n - completed) (min group (n - completed))
          (n - (completed + min group (n - completed))) (omega arith) in
      rw (left_next completed) (rw parts (take_add _ _ (left completed)))
    where
      shares : (m c d : ℕ) → m ≡ c + d → m * size ≡ c * size + d * size
      shares m c d e = rw e (grind arith)

  IsEncoded-cons :
      (fuel completed written : ℕ) (window r : List ℕ) (p q : Progress) (s s1 s2 : k.S)
      → completed < n
      → window ≡ take (min group (n - completed) * size) (left completed)
      → encode (take group (values completed)) ≡ ok r
      → written ≡ length r
      → k.content s1 ≡ k.content s ++ r
      → IsEncoded fuel
          (completed + min group (n - completed))
          (record {
            source = p.source ++ window;
            output = p.output ++ r;
            encoded_bytes = p.encoded_bytes + written;
            maximum_read = max p.maximum_read (min group (n - completed) * size);
          })
          q
          s1
          s2
      → IsEncoded (suc fuel) completed p q s s2
  IsEncoded-cons fuel completed written window r p q s s1 s2 lt ew er en es
        (rest, ee, eo, ec, eb, et, em) =
      let some_left : 0 < length (values completed) = omega (
        arith,
        length-map (source_value f dtype) (words size (n - completed) (left completed)),
        length-words size (n - completed) (left completed),
      ) in
      let least : min group (n - completed) * size ≤ group * size = grind arith in
      (
        r ++ rest,
        encode_groups_step group encode fuel (values completed) some_left er
            (ap (λ v. encode_groups group encode fuel v) (values_next completed) ∙ ee),
        eo ∙ append_assoc p.output r rest,
        ec ∙ ap (λ c. c ++ rest) es ∙ append_assoc (k.content s) r rest,
        omega (arith, length-append r rest),
        et
            ∙ append_assoc p.source window _
            ∙ ap (λ t. p.source ++ t) (rw ew (sym (bytes_next completed))),
        omega arith,
      )

  pub encode_loop_done :
      (fuel completed : ℕ) (p : Progress) (s : k.S)
      → n ≤ completed
      → encode_loop f k h reader group encoded_size encode source dtype size n
          (suc fuel)
          completed
          p
          s
        ≡ (ok p, s)
  unfolding encode_loop
  encode_loop_done fuel completed p s le =
      let done : leb n completed ≡ true = ground arith in rw (encode_loop, done) refl

  pub encode_loop_read :
      (fuel completed : ℕ) (p : Progress) (s : k.S) (x : Exception)
      → completed < n
      → read_group f k h reader group encoded_size encode source dtype size n completed ≡ err x
      → encode_loop f k h reader group encoded_size encode source dtype size n
          (suc fuel)
          completed
          p
          s
        ≡ (err x, s)
  unfolding encode_loop
  encode_loop_read fuel completed p s x lt er =
      let more : leb n completed ≡ false = ground arith in rw (encode_loop, more) (rw er refl)

  pub encode_loop_write :
      (fuel completed : ℕ) (window r : List ℕ) (p : Progress) (s : k.S) (x : Exception)
      → completed < n
      → read_group f k h reader group encoded_size encode source dtype size n completed
        ≡ ok (window, r)
      → (write_exact k r s).0 ≡ err x
      → encode_loop f k h reader group encoded_size encode source dtype size n
          (suc fuel)
          completed
          p
          s
        ≡ (err x, (write_exact k r s).1)
  unfolding encode_loop
  encode_loop_write fuel completed window r p s x lt er ew =
      let more : leb n completed ≡ false = ground arith in
      rw (encode_loop, more) (rw er (rw ew refl))

  returned :
      (fuel completed : ℕ) (p q : Progress) (s : k.S) (l : Result Progress × k.S)
      → l ≡ (ok p, s)
      → n ≤ completed
      → l.0 ≡ ok q
      → IsEncoded fuel completed p q s l.1
  returned fuel completed p q s l same le e =
      let pq : p ≡ q = ok-injective (ap (λ (l : Result Progress × k.S). l.0) (sym same) ∙ e) in
      subst (λ (l : Result Progress × k.S). IsEncoded fuel completed p q s l.1) (sym same)
        (subst (λ q. IsEncoded fuel completed p q s s) pq (IsEncoded-none fuel completed p s le))

  failed :
      {l : Result Progress × k.S} {q : Progress} (x : Exception) (s : k.S)
      → l ≡ (err x, s)
      → l.0 ≡ ok q
      → ⊥
  failed x s same e = cc

  pub encode_loop-eq_ok :
      (fuel completed : ℕ) (p : Progress) (s : k.S) {q : Progress}
      → n - completed ≤ fuel
      → (encode_loop f k h reader group encoded_size encode source dtype size n fuel completed p
          s).0
        ≡ ok q
      → IsEncoded fuel completed p q s
          (encode_loop f k h reader group encoded_size encode source dtype size n fuel completed p
            s).1
  encode_loop-eq_ok zero completed p s {q} le e =
      let same : encode_loop f k h reader group encoded_size encode source dtype size n zero
            completed p s
          ≡ (ok p, s) =
        unfold encode_loop in refl in
      returned zero completed p q s
        (encode_loop f k h reader group encoded_size encode source dtype size n zero completed p s)
        same (omega arith) e
  encode_loop-eq_ok (suc fuel) completed p s {q} le e = elim (dec_lt completed n) [
    | no ge ↦
        returned (suc fuel) completed p q s
          (encode_loop f k h reader group encoded_size encode source dtype size n (suc fuel)
            completed p s)
          (encode_loop_done fuel completed p s (omega arith)) (omega arith) e
    | yes lt ↦
        elim (Result-cases
          (read_group f k h reader group encoded_size encode source dtype size n completed)) [
            | inr (x, er) ↦ absurd (failed x s (encode_loop_read fuel completed p s x lt er) e)
            | inl ((window, r), er) ↦ elim (Result-cases (write_exact k r s).0) [
              | inr (x, ew) ↦
                  absurd (failed x _ (encode_loop_write fuel completed window r p s x lt er ew) e)
              | inl (written, ew) ↦
                  let same = encode_loop_step fuel completed written window r p s lt er ew in
                  let (en, es) = write_exact-eq_ok k is_sink r s ew in
                  let (cut, enc) = read_group-eq_ok completed er in
                  subst (λ (l : Result Progress × k.S). IsEncoded (suc fuel) completed p q s l.1)
                    (sym same)
                    (IsEncoded-cons fuel completed written window r p q s (write_exact k r s).1 _ lt
                      cut enc en es
                      (encode_loop-eq_ok fuel (completed + min group (n - completed)) _
                        (write_exact k r s).1 {q = q} (omega arith)
                        (ap (λ (l : Result Progress × k.S). l.0) (sym same) ∙ e)))
            ]
          ]
  ]
