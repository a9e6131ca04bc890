-- ===== src/Storage/Returned.antt =====
-- src/ams/storage: what the reads return, whatever the sizes in which a file hands out its bytes.
use accumulative_matrix_swee.Prelude.{
  ℕ, zero, suc, ◌+◌, ◌-◌, ◌≤◌, ◌<◌, ◌≡◌, refl, sym, ap, ◌∙◌, false, not, ◌||◌, Option, none, some,
  List, [], ◌∷◌, ◌++◌, min, max, String, arith, inl, inr, ltb, ◌==◌, length, take, drop,
}
use accumulative_matrix_swee.Prelude.Int.{pos, negsuc}
use accumulative_matrix_swee.Prelude.Text.{codes}
use accumulative_matrix_swee.Errors.{
  ◌>>=◌, Exception, Result, ok, err, raise_if, raise_retriable, translate_os_error, io_failure,
  capability_mismatch, >>=-eq-ok, ok-injective, Result-cases,
}
use accumulative_matrix_swee.Checked.{
  Value, int, bool, str, other, nat, checked_uint, checked_add, checked_range_end,
}
use accumulative_matrix_swee.Checked.Laws.{checked_uint-eq_ok, checked_add-nat-eq_ok}
use accumulative_matrix_swee.Descriptors.Syntax.{list_eq}
use accumulative_matrix_swee.Codecs.Stream.{Reader, IsReader, Hashes}
use accumulative_matrix_swee.Codecs.Stream.Cuts.{take_add, drop-drop}
use accumulative_matrix_swee.Storage.{
  File, IsFile, read_loop, read_range, read_nothing, read_into, store_reader, checked_buffer,
  hash_loop, hash_reader_range,
}

module _ (file : File) (bytes : List ℕ) (is_file : IsFile file bytes) where
  read_step :
      (fuel missing b : ℕ) (part : List ℕ) (h : file.H)
      → (file.readinto (suc missing) h).0 ≡ ok (some (b ∷ part))
      → read_loop file (suc fuel) (suc missing) h ≡ (
          read_loop file fuel (suc missing - length (b ∷ part)) (file.readinto (suc missing) h).1
          >>= λ rest. ok (b ∷ part ++ rest))
  unfolding read_loop
  read_step fuel missing b part h r = rw (read_loop, r) refl

  read_none :
      (fuel missing : ℕ) (h : file.H)
      → (file.readinto (suc missing) h).0 ≡ ok none
      → read_loop file (suc fuel) (suc missing) h ≡ raise_retriable io_failure
  unfolding read_loop
  read_none fuel missing h r = rw (read_loop, r) refl

  read_empty :
      (fuel missing : ℕ) (h : file.H)
      → (file.readinto (suc missing) h).0 ≡ ok (some [])
      → read_loop file (suc fuel) (suc missing) h ≡ raise_retriable io_failure
  unfolding read_loop
  read_empty fuel missing h r = rw (read_loop, r) refl

  read_error :
      (fuel missing : ℕ) (h : file.H) (x : Exception)
      → (file.readinto (suc missing) h).0 ≡ err x
      → read_loop file (suc fuel) (suc missing) h ≡ err x
  unfolding read_loop
  read_error fuel missing h x r = rw (read_loop, r) refl

  joined :
      (missing : ℕ) (h : file.H) (part rest : List ℕ)
      → (file.readinto (suc missing) h).0 ≡ ok (some part)
      → rest
        ≡ take
            (suc missing - length part)
            (drop (file.position (file.readinto (suc missing) h).1) bytes)
      → part ++ rest ≡ take (suc missing) (drop (file.position h) bytes)
  joined missing h part rest r er =
      let fits = is_file.fits (suc missing) h part r in
      let whole : suc missing ≡ length part + (suc missing - length part) = omega arith in
      let moved : drop (file.position (file.readinto (suc missing) h).1) bytes
          ≡ drop (length part) (drop (file.position h) bytes) =
        rw (is_file.advances (suc missing) h part r)
          (sym (drop-drop (file.position h) (length part) bytes)) in
      ap (λ p. p ++ rest) (is_file.reads (suc missing) h part r)
      ∙ ap (λ q. take (length part) (drop (file.position h) bytes) ++ q)
          (er ∙ ap (λ d. take (suc missing - length part) d) moved)
      ∙ sym (take_add (length part) (suc missing - length part) (drop (file.position h) bytes))
      ∙ ap (λ n. take n (drop (file.position h) bytes)) (sym whole)

  read_loop-eq_ok :
      (fuel missing : ℕ) (h : file.H) {out : List ℕ}
      → missing ≤ fuel
      → read_loop file fuel missing h ≡ ok out
      → out ≡ take missing (drop (file.position h) bytes)
  read_loop-eq_ok zero zero h le e = sym (ok-injective (unfold read_loop in e))
  read_loop-eq_ok zero (suc missing) h le e = absurd (omega arith)
  read_loop-eq_ok (suc fuel) zero h le e = sym (ok-injective (unfold read_loop in e))
  read_loop-eq_ok (suc fuel) (suc missing) h {out} le e =
      elim (Result-cases (file.readinto (suc missing) h).0) [
        | inr (x, r) ↦ absurd (let refused = sym (read_error fuel missing h x r) ∙ e in cc)
        | inl (count, r) ↦
            by_count (λ n h' rest le er. read_loop-eq_ok fuel n h' {out = rest} le er) count r
      ]
    where
      by_count :
          ((n : ℕ) (h' : file.H) (rest : List ℕ)
            → n ≤ fuel
            → read_loop file fuel n h' ≡ ok rest
            → rest ≡ take n (drop (file.position h') bytes))
          → (count : Option (List ℕ)) → (file.readinto (suc missing) h).0 ≡ ok count
          → out ≡ take (suc missing) (drop (file.position h) bytes)
      by_count ih none r = absurd (let refused = sym (read_none fuel missing h r) ∙ e in cc)
      by_count ih (some []) r = absurd (let refused = sym (read_empty fuel missing h r) ∙ e in cc)
      by_count ih (some (b ∷ part)) r =
          let (rest, er, e2) =
            >>=-eq-ok
              (read_loop file fuel (suc missing - length (b ∷ part))
                (file.readinto (suc missing) h).1)
              _ (sym (read_step fuel missing b part h r) ∙ e) in
          sym (ok-injective e2)
          ∙ joined missing h (b ∷ part) rest r (
              ih (suc missing - length (b ∷ part)) (file.readinto (suc missing) h).1 rest
                (omega arith) er)

  caught :
      (r : Result (List ℕ)) {out : List ℕ} → translate_os_error io_failure r ≡ ok out → r ≡ ok out
  caught r e = ground arith

  read_range-eq_ok :
      (size_bytes offset n : ℕ) {out : List ℕ}
      → read_range file size_bytes (nat offset) n ≡ ok out
      → out ≡ take n (drop offset bytes)
  unfolding read_range
  read_range-eq_ok size_bytes offset n {out} e =
      let (end, _, e1) = >>=-eq-ok (checked_range_end (nat offset) (nat n)) _ e in
      let (_, _, e2) = >>=-eq-ok (raise_if (ltb size_bytes end) io_failure) _ e1 in
      let (o, eo, e3) = >>=-eq-ok (checked_uint (nat offset)) _ e2 in
      let (h, eh, e4) = >>=-eq-ok (file.open_at o) _ e3 in
      let (same, _) = checked_uint-eq_ok (nat offset) eo in
      let at : file.position h ≡ offset = is_file.opened o h eh ∙ ground arith in
      read_loop-eq_ok n n h {out = out} (omega arith) e4 ∙ ap (λ p. take n (drop p bytes)) at

  read_nothing-eq_ok :
      (size_bytes offset : ℕ) {out : List ℕ}
      → read_nothing file size_bytes (nat offset) ≡ ok out
      → out ≡ []
  unfolding read_nothing
  read_nothing-eq_ok size_bytes offset e =
      let (o, _, e1) = >>=-eq-ok (checked_uint (nat offset)) _ e in
      let (_, _, e2) = >>=-eq-ok (raise_if (ltb size_bytes o) io_failure) _ e1 in
      sym (ok-injective e2)

  read_into-eq_ok :
      (size_bytes offset n : ℕ) {out : List ℕ}
      → read_into file size_bytes (nat offset) n false ≡ ok out
      → out ≡ take n (drop offset bytes)
  read_into-eq_ok size_bytes offset zero {out} e =
      let same : read_into file size_bytes (nat offset) zero false
          ≡ translate_os_error io_failure (read_nothing file size_bytes (nat offset)) =
        unfold read_into in refl in
      read_nothing-eq_ok size_bytes offset {out = out} (caught _ (sym same ∙ e))
  read_into-eq_ok size_bytes offset (suc n) {out} e =
      let more : (suc n == 0) ≡ false = ground arith in
      let same : read_into file size_bytes (nat offset) (suc n) false
          ≡ translate_os_error io_failure (read_range file size_bytes (nat offset) (suc n)) =
        unfold read_into in rw (read_into, more) refl in
      read_range-eq_ok size_bytes offset (suc n) {out = out} (caught _ (sym same ∙ e))

  -- `FileRangeStore` is a reader of its file: however the file cuts its reads, a read that returns has
  -- filled the destination with the bytes from the offset on.
  pub store_reader-IsReader : (size_bytes : ℕ) → IsReader (store_reader file size_bytes) bytes
  store_reader-IsReader size_bytes = record {
    reads = λ offset n out e. read_into-eq_ok size_bytes offset n {out = out} e;
  }

pub checked_buffer-pos : (v : Value) {b : ℕ} → checked_buffer v ≡ ok b → 0 < b
unfolding checked_buffer
checked_buffer-pos (int (pos n)) e = ground arith
checked_buffer-pos (int (negsuc n)) e = absurd (cc)
checked_buffer-pos (bool _) e = absurd (cc)
checked_buffer-pos (str _) e = absurd (cc)
checked_buffer-pos other e = absurd (cc)

hash_loop-eq_ok :
    (reader : Reader) (bytes : List ℕ)
    → IsReader reader bytes
    → (offset buffer fuel completed missing : ℕ) {out : List ℕ} → 0 < buffer
    → missing ≤ fuel
    → hash_loop reader offset buffer fuel completed missing ≡ ok out
    → out ≡ take missing (drop (offset + completed) bytes)
unfolding hash_loop
hash_loop-eq_ok reader bytes is_reader offset buffer zero completed zero p le e =
    sym (ok-injective e)
hash_loop-eq_ok reader bytes is_reader offset buffer zero completed (suc missing) p le e =
    absurd (omega arith)
hash_loop-eq_ok reader bytes is_reader offset buffer (suc fuel) completed zero p le e =
    sym (ok-injective e)
hash_loop-eq_ok reader bytes is_reader offset buffer (suc fuel) completed (suc missing) p le e =
    let count = min buffer (suc missing) in
    let (at, ea, e1) = >>=-eq-ok (checked_add (nat offset) (nat completed)) _ e in
    let (window, ew, e2) = >>=-eq-ok (reader.read_into at count) _ e1 in
    let (rest, er, e3) =
      >>=-eq-ok (hash_loop reader offset buffer fuel (completed + count) (suc missing - count)) _
        e2 in
    let (sum, _) = checked_add-nat-eq_ok offset completed ea in
    let ih =
      hash_loop-eq_ok reader bytes is_reader offset buffer fuel (completed + count)
        (suc missing - count) {out = rest} p (omega arith) er in
    sym (ok-injective e3)
    ∙ join at count window rest sum (omega arith) (is_reader.reads at count window ew) ih
  where
    join :
        (at count : ℕ) (window rest : List ℕ)
        → at ≡ offset + completed
        → count ≤ suc missing
        → window ≡ take count (drop at bytes)
        → rest ≡ take (suc missing - count) (drop (offset + (completed + count)) bytes)
        → window ++ rest ≡ take (suc missing) (drop (offset + completed) bytes)
    join at count window rest ea lc ew er =
        let whole : suc missing ≡ count + (suc missing - count) = omega arith in
        let moved : drop (offset + (completed + count)) bytes
            ≡ drop count (drop (offset + completed) bytes) =
          (let s : offset + (completed + count) ≡ offset + completed + count = omega arith in
            rw s (sym (drop-drop (offset + completed) count bytes))) in
        rw (ew, er, ea, moved)
          (sym (take_add count (suc missing - count) (drop (offset + completed) bytes))
            ∙ ap (λ n. take n (drop (offset + completed) bytes)) (sym whole))

-- If `hash_reader_range` returns, then it returns the algorithm and the digest of exactly the bytes of the
-- range, whatever the size of the buffer.
pub hash_reader_range-eq_ok :
    (hashes : Hashes) (reader : Reader) (bytes : List ℕ)
    → IsReader reader bytes
    → (offset length : ℕ) (buffer_bytes : Value) (algorithm : String) (out : List ℕ)
    → hash_reader_range hashes reader (nat offset) (nat length) buffer_bytes algorithm ≡ ok out
    → out
      ≡ codes algorithm
        ++ codes ":"
        ++ hashes.hexdigest (codes algorithm) (take length (drop offset bytes))
unfolding hash_reader_range
hash_reader_range-eq_ok hashes reader bytes is_reader offset length buffer_bytes algorithm out e =
    let (o, eo, e1) = >>=-eq-ok (checked_uint (nat offset)) _ e in
    let (l, el, e2) = >>=-eq-ok (checked_uint (nat length)) _ e1 in
    let (end, _, e3) = >>=-eq-ok (checked_add (nat o) (nat l)) _ e2 in
    let (_, _, e4) = >>=-eq-ok (raise_if (ltb reader.size_bytes end) io_failure) _ e3 in
    let (b, eb, e5) = >>=-eq-ok (checked_buffer buffer_bytes) _ e4 in
    let (_, _, e6) =
      >>=-eq-ok
        (raise_if
          (not (hashes.available (codes algorithm)) || list_eq (codes algorithm) (codes "blake3"))
          capability_mismatch)
        _ e5 in
    let (content, ec, e7) = >>=-eq-ok (hash_loop reader o (min b (max l 1)) l 0 l) _ e6 in
    let (so, _) = checked_uint-eq_ok (nat offset) eo in
    let (sl, _) = checked_uint-eq_ok (nat length) el in
    let read =
      hash_loop-eq_ok reader bytes is_reader o (min b (max l 1)) l 0 l {out = content}
        (positive b buffer_bytes l eb) (omega arith) ec in
    let same : take l (drop (o + 0) bytes) ≡ take length (drop offset bytes) =
      (let at : o + 0 ≡ offset = ground arith in
        let n : l ≡ length = ground arith in rw (at, n) refl) in
    sym (ok-injective e7)
    ∙ ap (λ c. codes algorithm ++ codes ":" ++ hashes.hexdigest (codes algorithm) c) (read ∙ same)
  where
    positive : (b : ℕ) (v : Value) (l : ℕ) → checked_buffer v ≡ ok b → 0 < min b (max l 1)
    positive b v l e = let h = checked_buffer-pos v e in omega arith
