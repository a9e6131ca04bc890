-- ===== src/Storage/Atomic.antt =====
-- src/ams/storage/copy.py: what `copy_range_atomic` leaves at the final path.
use mathlib.Core.List.{append-nil, append_assoc}
use accumulative_matrix_swee.Prelude.{
  ℕ, zero, suc, ◌+◌, ◌-◌, ◌≤◌, ◌<◌, ◌≡◌, refl, sym, ap, ◌∙◌, true, not, Option, none, some, List,
  [], ◌++◌, min, arith, inl, inr, ◌==◌, length, take, drop,
}
use mathlib.Core.Path.{subst}
use accumulative_matrix_swee.Errors.{
  ◌>>=◌, Exception, Result, ok, err, raise_if, translate_os_error, io_failure, integrity_failure,
  Result-cases, >>=-eq-ok, ok-injective,
}
use accumulative_matrix_swee.Checked.{Value, nat, checked_add, checked_positive, checked_range_end}
use accumulative_matrix_swee.Checked.Laws.{checked_add-nat-eq_ok, checked_range_end_iff}
use accumulative_matrix_swee.Descriptors.Syntax.{validate_identifier, list_eq}
use accumulative_matrix_swee.Descriptors.Storage.{ByteRange, range_end, validate_within}
use accumulative_matrix_swee.Codecs.Sink.{Sink, IsSink, write_loop, write_loop-ok}
use accumulative_matrix_swee.Codecs.Stream.{Reader, IsReader, Hashes, checksum_parts}
use accumulative_matrix_swee.Storage.{checked_buffer}
use accumulative_matrix_swee.Storage.Returned.{checked_buffer-pos}
use accumulative_matrix_swee.Codecs.Stream.Cuts.{take_add, drop-drop}
use accumulative_matrix_swee.Codecs.Stream.Returned.{list_eq→eq}
use accumulative_matrix_swee.Storage.Files.{
  Files, Step, before as before_, bind, call, on_staging, open_file, sync_file, replace_file,
  IsAtomic as IsAtomicStep, bind-eq_ok, bind-IsAtomic, call-Keeps, on_staging-Keeps,
  on_staging-eq_ok, open_file-Keeps, open_file-eq_ok, replace_file-IsAtomic, replace_file-eq_ok,
}
use accumulative_matrix_swee.Storage.Copy.{
  Published, FileSystem, read_chunk, hash_file, check_published, copy_loop, stage, prepare_copy,
  final_name, copy_range_atomic,
}

within-pos :
    (source : ByteRange) (size : ℕ) → validate_within source size ≡ ok tt → 0 < source.length
unfolding validate_within range_end
within-pos source size e =
    let (_, _, e1) = >>=-eq-ok (checked_positive (nat size)) _ e in
    let (end, ee, _) = >>=-eq-ok (checked_range_end (nat source.offset) (nat source.length)) _ e1 in
    let (o, l, eo, el, p, _, _) =
      (checked_range_end_iff (nat source.offset) (nat source.length) end).0 ee in
    ground arith

-- The file system as the code relies on it: a new staging file is empty, and reading gives the content.
pub record IsFileSystem (k : Sink) (fs : FileSystem k) : Type 0 where
  pub fresh : (s : k.S) → fs.open_staging ≡ ok s → k.content s ≡ []
  pub reads : (p : Published) (content : List ℕ) → fs.read_file p ≡ ok content → content ≡ p.bytes

pub some-injective {ℓ} : {A : Type ℓ} {a b : A} → some a ≡ some b → a ≡ b
some-injective h = cc

module _ (k : Sink) (fs : FileSystem k) (h : Hashes) (reader : Reader) (file : List ℕ)
    (is_sink : IsSink k) (is_fs : IsFileSystem k fs) (is_reader : IsReader reader file) where
  read_chunk-eq_ok :
      (offset completed count : ℕ) {window : List ℕ}
      → read_chunk reader offset completed count ≡ ok window
      → window ≡ take count (drop (offset + completed) file)
  unfolding read_chunk
  read_chunk-eq_ok offset completed count {window} e =
      let (at, ea, e1) = >>=-eq-ok (checked_add (nat offset) (nat completed)) _ e in
      let (sum, _) = checked_add-nat-eq_ok offset completed ea in
      is_reader.reads at count window e1 ∙ ap (λ p. take count (drop p file)) sum

  abbrev next_loop : ℕ → ℕ → ℕ → ℕ → ℕ → List ℕ → k.S → Result (List ℕ) × k.S
  next_loop offset buffer fuel completed missing window s =
      copy_loop k fs h reader offset buffer fuel (completed + min buffer (suc missing))
        (suc missing - min buffer (suc missing)) (write_loop k (length window) 0 window s).1

  copy_step :
      (offset buffer fuel completed missing : ℕ) (window : List ℕ) (s : k.S) {written : ℕ}
      → read_chunk reader offset completed (min buffer (suc missing)) ≡ ok window
      → (write_loop k (length window) 0 window s).0 ≡ ok written
      → copy_loop k fs h reader offset buffer (suc fuel) completed (suc missing) s ≡ (
        (next_loop offset buffer fuel completed missing window s).0 >>= λ rest. ok (window ++ rest),
        (next_loop offset buffer fuel completed missing window s).1,
      )
  unfolding copy_loop
  copy_step offset buffer fuel completed missing window s er ew = rw (copy_loop, er) (rw ew refl)

  copy_read_error :
      (offset buffer fuel completed missing : ℕ) (s : k.S) (x : Exception)
      → read_chunk reader offset completed (min buffer (suc missing)) ≡ err x
      → copy_loop k fs h reader offset buffer (suc fuel) completed (suc missing) s ≡ (err x, s)
  unfolding copy_loop
  copy_read_error offset buffer fuel completed missing s x er = rw (copy_loop, er) refl

  copy_write_error :
      (offset buffer fuel completed missing : ℕ) (window : List ℕ) (s : k.S) (x : Exception)
      → read_chunk reader offset completed (min buffer (suc missing)) ≡ ok window
      → (write_loop k (length window) 0 window s).0 ≡ err x
      → copy_loop k fs h reader offset buffer (suc fuel) completed (suc missing) s
        ≡ (err x, (write_loop k (length window) 0 window s).1)
  unfolding copy_loop
  copy_write_error offset buffer fuel completed missing window s x er ew =
      rw (copy_loop, er) (rw ew refl)

  failed :
      {l : Result (List ℕ) × k.S} {out : List ℕ} (x : Exception) (s : k.S)
      → l ≡ (err x, s)
      → l.0 ≡ ok out
      → ⊥
  failed x s same e = cc

  -- What a copy that returns has read, and has added to the staging file.
  abbrev IsCopied : ℕ → ℕ → List ℕ → k.S → k.S → Type 0
  IsCopied at missing out s t =
      (out ≡ take missing (drop at file)) × (k.content t ≡ k.content s ++ out)

  nothing :
      (at : ℕ) (s : k.S) (out : List ℕ) {l : Result (List ℕ) × k.S}
      → l ≡ (ok [], s)
      → l.0 ≡ ok out
      → IsCopied at 0 out s l.1
  nothing at s out {l} same e =
      let empty : [] ≡ out =
        ok-injective (ap (λ (l : Result (List ℕ) × k.S). l.0) (sym same) ∙ e) in
      (
        sym empty,
        ap (λ (l : Result (List ℕ) × k.S). k.content l.1) same
            ∙ sym (append-nil (k.content s))
            ∙ ap (λ o. k.content s ++ o) empty,
      )

  IsCopied-cons :
      (offset buffer completed missing : ℕ) (window rest out : List ℕ) (s s1 t : k.S)
      → window ≡ take (min buffer (suc missing)) (drop (offset + completed) file)
      → k.content s1 ≡ k.content s ++ window
      → IsCopied
          (offset + (completed + min buffer (suc missing)))
          (suc missing - min buffer (suc missing))
          rest
          s1
          t
      → out ≡ window ++ rest
      → IsCopied (offset + completed) (suc missing) out s t
  IsCopied-cons offset buffer completed missing window rest out s s1 t ew es (er, et) eo =
      let count = min buffer (suc missing) in
      let whole : suc missing ≡ count + (suc missing - count) = omega arith in
      let moved : drop (offset + (completed + count)) file
          ≡ drop count (drop (offset + completed) file) =
        (let a : offset + (completed + count) ≡ offset + completed + count = omega arith in
          rw a (sym (drop-drop (offset + completed) count file))) in
      (
        eo
            ∙ ap (λ w. w ++ rest) ew
            ∙ ap (λ r. take count (drop (offset + completed) file) ++ r)
                (er ∙ ap (λ d. take (suc missing - count) d) moved)
            ∙ sym (take_add count (suc missing - count) (drop (offset + completed) file))
            ∙ ap (λ n. take n (drop (offset + completed) file)) (sym whole),
        et
            ∙ ap (λ c. c ++ rest) es
            ∙ append_assoc (k.content s) window rest
            ∙ ap (λ o. k.content s ++ o) (sym eo),
      )

  copy_loop-eq_ok :
      (offset buffer fuel completed missing : ℕ) (s : k.S) {out : List ℕ}
      → 0 < buffer
      → missing ≤ fuel
      → (copy_loop k fs h reader offset buffer fuel completed missing s).0 ≡ ok out
      → IsCopied
          (offset + completed)
          missing
          out
          s
          (copy_loop k fs h reader offset buffer fuel completed missing s).1
  copy_loop-eq_ok offset buffer zero completed zero s {out} p le e =
      let same : copy_loop k fs h reader offset buffer zero completed zero s ≡ (ok [], s) =
        unfold copy_loop in refl in
      nothing (offset + completed) s out same e
  copy_loop-eq_ok offset buffer zero completed (suc missing) s p le e = absurd (omega arith)
  copy_loop-eq_ok offset buffer (suc fuel) completed zero s {out} p le e =
      let same : copy_loop k fs h reader offset buffer (suc fuel) completed zero s ≡ (ok [], s) =
        unfold copy_loop in refl in
      nothing (offset + completed) s out same e
  copy_loop-eq_ok offset buffer (suc fuel) completed (suc missing) s {out} p le e =
      elim (Result-cases (read_chunk reader offset completed (min buffer (suc missing)))) [
        | inr (x, er) ↦
            absurd (
              failed {out = out} x s (copy_read_error offset buffer fuel completed missing s x er)
                e)
        | inl (window, er) ↦ elim (Result-cases (write_loop k (length window) 0 window s).0) [
          | inr (x, ew) ↦ absurd (
              failed {out = out} x _
                (copy_write_error offset buffer fuel completed missing window s x er ew) e)
          | inl (_, ew) ↦
              let same = copy_step offset buffer fuel completed missing window s er ew in
              let (rest, el, eo) =
                >>=-eq-ok (next_loop offset buffer fuel completed missing window s).0
                  (λ rest. ok (window ++ rest)) {result = out}
                  (ap (λ (l : Result (List ℕ) × k.S). l.0) (sym same) ∙ e) in
              let ih =
                copy_loop-eq_ok offset buffer fuel (completed + min buffer (suc missing))
                  (suc missing - min buffer (suc missing))
                  (write_loop k (length window) 0 window s).1 {out = rest} p (omega arith) el in
              subst
                (λ (l : Result (List ℕ) × k.S).
                  IsCopied (offset + completed) (suc missing) out s l.1)
                (sym same)
                (IsCopied-cons offset buffer completed missing window rest out s
                  (write_loop k (length window) 0 window s).1 _
                  (read_chunk-eq_ok offset completed (min buffer (suc missing)) er)
                  (write_loop-ok k is_sink (length window) 0 window s ew).1 ih
                  (sym (ok-injective eo)))
        ]
      ]

  -- What stands at the final path has the expected hash.
  abbrev pub HasHash : List ℕ → List ℕ → Published → Type 0
  HasHash algorithm expected p = h.hexdigest algorithm p.bytes ≡ expected

  copying : ByteRange → ℕ → k.S → Result (List ℕ) × k.S
  copying source buffer =
      copy_loop k fs h reader source.offset (min buffer source.length) source.length 0 source.length

  check_hash : List ℕ → List ℕ → List ℕ → Result (Unit {0})
  check_hash algorithm expected content =
      raise_if (not (list_eq (h.hexdigest algorithm content) expected)) integrity_failure

  -- What follows each of the steps of `stage`.
  abbrev checked : List ℕ → List ℕ → List ℕ → Step k (Unit {0})
  checked algorithm expected content =
      bind k (call k (check_hash algorithm expected content)) (λ _. replace_file k fs)

  abbrev synced : List ℕ → List ℕ → List ℕ → Step k (Unit {0})
  synced algorithm expected content =
      bind k (sync_file k fs) (λ _. checked algorithm expected content)

  abbrev opened : ByteRange → ℕ → List ℕ → List ℕ → Step k (Unit {0})
  opened source buffer algorithm expected =
      bind k (on_staging k (copying source buffer)) (synced algorithm expected)

  -- A stage that raises, at any of its steps, has not touched the final path.
  stage-IsAtomic :
      (source : ByteRange) (buffer : ℕ) (algorithm expected : List ℕ)
      → IsAtomicStep k (stage k fs h reader source buffer algorithm expected)
  unfolding stage copying check_hash
  stage-IsAtomic source buffer algorithm expected =
      bind-IsAtomic k (open_file k fs) (λ _. opened source buffer algorithm expected)
        (open_file-Keeps k fs)
        (λ _.
          bind-IsAtomic k (on_staging k (copying source buffer)) (synced algorithm expected)
            (on_staging-Keeps k (copying source buffer))
            (λ content.
              bind-IsAtomic k (sync_file k fs) (λ _. checked algorithm expected content)
                (on_staging-Keeps k (λ s. (fs.sync s, s)))
                (λ _.
                  bind-IsAtomic k (call k (check_hash algorithm expected content))
                    (λ _. replace_file k fs) (call-Keeps k (check_hash algorithm expected content))
                    (λ _. replace_file-IsAtomic k fs))))

  -- What stands at the final path after a stage that returned.
  abbrev IsStaged : ByteRange → List ℕ → List ℕ → Option Published → Type 0
  IsStaged source algorithm expected final_path =
      (bytes : List ℕ) × (final_path ≡ some (record { regular = true; bytes = bytes }))
      × (bytes ≡ take source.length (drop source.offset file))
      × (h.hexdigest algorithm bytes ≡ expected)

  stage-eq_ok :
      (source : ByteRange) (buffer : ℕ) (algorithm expected : List ℕ) (files : Files k)
      → 0 < min buffer source.length
      → (stage k fs h reader source buffer algorithm expected files).0 ≡ ok tt
      → IsStaged source algorithm expected
          (stage k fs h reader source buffer algorithm expected files).1.final_path
  unfolding stage copying check_hash
  stage-eq_ok source buffer algorithm expected files p e =
      let (_, eo, e1, s1) =
        bind-eq_ok k (open_file k fs) (λ _. opened source buffer algorithm expected) files {b = tt}
          e in
      let f1 = (open_file k fs files).1 in
      let (s0, eopen, at0) = open_file-eq_ok k fs files eo in
      let (content, ec, e2, s2) =
        bind-eq_ok k (on_staging k (copying source buffer)) (synced algorithm expected) f1 {b = tt}
          e1 in
      let f2 = (on_staging k (copying source buffer) f1).1 in
      let (s, ats, el, at1) = on_staging-eq_ok k (copying source buffer) f1 {a = content} ec in
      let (_, es, e3, s3) =
        bind-eq_ok k (sync_file k fs) (λ _. checked algorithm expected content) f2 {b = tt} e2 in
      let f3 = (sync_file k fs f2).1 in
      let (t, att, _, at2) = on_staging-eq_ok k (λ s. (fs.sync s, s)) f2 {a = tt} es in
      let (_, eh, e4, s4) =
        bind-eq_ok k (call k (check_hash algorithm expected content)) (λ _. replace_file k fs) f3
          {b = tt} e3 in
      let same : s0 ≡ s = some-injective (sym at0 ∙ ats) in
      let (read, put) =
        copy_loop-eq_ok source.offset (min buffer source.length) source.length 0 source.length s
          {out = content} p (omega arith) el in
      let hash = list_eq→eq (h.hexdigest algorithm content) expected (ground arith) in
      let z : source.offset + 0 ≡ source.offset = omega arith in
      let kept : k.content t ≡ content =
        ap k.content (some-injective (sym att ∙ at1))
        ∙ put
        ∙ ap (λ c. c ++ content) (ap k.content (sym same) ∙ is_fs.fresh s0 eopen) in
      (
        k.content t,
        ap (λ (l : Result (Unit {0}) × Files k). l.1.final_path) (s1 ∙ s2 ∙ s3 ∙ s4)
            ∙ replace_file-eq_ok k fs f3 t at2 e4,
        kept ∙ read ∙ ap (λ o. take source.length (drop o file)) z,
        ap (λ c. h.hexdigest algorithm c) kept ∙ hash,
      )

  caught : {A : Type 0} (r : Result A) {a : A} → translate_os_error io_failure r ≡ ok a → r ≡ ok a
  caught (ok a) e = e
  caught (err x) e = absurd (ground arith)

  hash_file-eq_ok :
      (p : Published) (size : ℕ) (algorithm : List ℕ) {actual : List ℕ}
      → hash_file k fs h p size algorithm ≡ ok actual
      → actual ≡ h.hexdigest algorithm p.bytes
  unfolding hash_file
  hash_file-eq_ok p size algorithm e =
      let (_, _, e1) = >>=-eq-ok (raise_if (not p.regular) integrity_failure) _ (caught _ e) in
      let (_, _, e2) = >>=-eq-ok (raise_if (not (length p.bytes == size)) integrity_failure) _ e1 in
      let (content, ec, e3) = >>=-eq-ok (fs.read_file p) _ e2 in
      sym (ok-injective e3) ∙ ap (λ c. h.hexdigest algorithm c) (is_fs.reads p content ec)

  check_published-eq_ok :
      (p : Published) (size : ℕ) (algorithm expected : List ℕ)
      → check_published k fs h p size algorithm expected ≡ ok tt
      → HasHash algorithm expected p
  unfolding check_published
  check_published-eq_ok p size algorithm expected e =
      let (actual, ea, e1) = >>=-eq-ok (hash_file k fs h p size algorithm) _ e in
      sym (hash_file-eq_ok p size algorithm ea) ∙ list_eq→eq actual expected (ground arith)

  prepare_copy-eq_ok :
      (source : ByteRange) (key buffer_bytes : Value) {q : ℕ × List ℕ × List ℕ}
      → prepare_copy k fs h reader source key buffer_bytes ≡ ok q
      → (0 < min q.0 source.length) × (checksum_parts h source.checksum ≡ ok (q.1, q.2))
  unfolding prepare_copy
  prepare_copy-eq_ok source key buffer_bytes {q} e =
      let (_, _, e1) = >>=-eq-ok (validate_identifier key) _ e in
      let (buffer, eb, e2) = >>=-eq-ok (checked_buffer buffer_bytes) _ e1 in
      let (_, ew, e3) = >>=-eq-ok (validate_within source reader.size_bytes) _ e2 in
      let ((algorithm, expected), ep, e4) = >>=-eq-ok (checksum_parts h source.checksum) _ e3 in
      let (_, _, e5) = >>=-eq-ok (translate_os_error io_failure fs.make_directories) _ e4 in
      let pb = checked_buffer-pos buffer_bytes eb in
      let pl = within-pos source reader.size_bytes ew in
      subst
        (λ (q : ℕ × List ℕ × List ℕ).
          (0 < min q.0 source.length) × (checksum_parts h source.checksum ≡ ok (q.1, q.2)))
        (ok-injective e5) (omega arith, ep)

  -- What a call that returns has published.
  pub record IsPublished (source : ByteRange) (before after : Option Published) (name : List ℕ)
      : Type 0 where
    pub algorithm : List ℕ
    pub expected : List ℕ
    pub chunk : Published
    pub stands : after ≡ some chunk
    pub checksum : checksum_parts h source.checksum ≡ ok (algorithm, expected)
    pub named : name ≡ final_name k fs h algorithm expected
    pub hash : h.hexdigest algorithm chunk.bytes ≡ expected
    pub copied : before ≡ none → chunk.bytes ≡ take source.length (drop source.offset file)
    pub kept : (p : Published) → before ≡ some p → after ≡ some p

  -- The two halves of the theorem, of whatever the call returned.
  abbrev IsAtomic : ByteRange → Option Published → Result (List ℕ) × Option Published → Type 0
  IsAtomic source before l =
      ((x : Exception) → l.0 ≡ err x → l.1 ≡ before)
      × ((name : List ℕ) → l.0 ≡ ok name → IsPublished source before l.1 name)

  refused :
      (source : ByteRange) (before : Option Published) (x : Exception)
      → IsAtomic source before (err x, before)
  refused source before x = (λ y e. refl, λ name e. absurd (cc))

  verified :
      (source : ByteRange) (p : Published) (algorithm expected : List ℕ)
      → checksum_parts h source.checksum ≡ ok (algorithm, expected)
      → IsAtomic source (some p) (
        check_published k fs h p source.length algorithm expected >>= λ _.
            ok (final_name k fs h algorithm expected),
        some p,
      )
  verified source p algorithm expected parts = (
    λ y e. refl,
    λ name e.
        let (_, ec, en) =
          >>=-eq-ok (check_published k fs h p source.length algorithm expected)
            (λ _. ok (final_name k fs h algorithm expected)) e in
        record {
          algorithm = algorithm;
          expected = expected;
          chunk = p;
          stands = refl;
          checksum = parts;
          named = sym (ok-injective en);
          hash = check_published-eq_ok p source.length algorithm expected ec;
          copied = λ none_. absurd (cc);
          kept = λ q e. e;
        },
  )

  staged :
      (source : ByteRange) (algorithm expected : List ℕ) (r : Result (Unit {0}))
      (after : Option Published)
      → checksum_parts h source.checksum ≡ ok (algorithm, expected)
      → ((x : Exception) → r ≡ err x → after ≡ none)
      → (r ≡ ok tt → IsStaged source algorithm expected after)
      → IsAtomic source none (
        translate_os_error io_failure r >>= λ _. ok (final_name k fs h algorithm expected),
        after,
      )
  staged source algorithm expected (err x) after parts failed done =
      (λ y e. failed x refl, λ name e. absurd (not_ok _ x (caught _ (returned e))))
    where
      returned :
          {r : Result (Unit {0})} {name : List ℕ}
          → (r >>= λ _. ok (final_name k fs h algorithm expected)) ≡ ok name
          → r ≡ ok tt
      returned {r} e = (>>=-eq-ok r (λ _. ok (final_name k fs h algorithm expected)) e).1

      not_ok : (a : Unit {0}) (x : Exception) → ◌≡◌ {A = Result (Unit {0})} (err x) (ok a) → ⊥
      not_ok a x e = cc
  staged source algorithm expected (ok _) after parts failed done =
      let (bytes, stands, copied, hash) = done refl in
      (
        λ y e. absurd (cc),
        λ name e. record {
          algorithm = algorithm;
          expected = expected;
          chunk = record { regular = true; bytes = bytes };
          stands = stands;
          checksum = parts;
          named = sym (ok-injective e);
          hash = hash;
          copied = λ none_. copied;
          kept = λ p e. absurd (cc);
        },
      )

  -- Whatever fails, a call of `copy_range_atomic` that raises leaves the final path as it was. A call that
  -- returns leaves a chunk there with the hash of its name: the bytes of the source range if there was
  -- none, and otherwise the chunk that stood there, which is not written again.
  pub copy_range_atomic_lem :
      (source : ByteRange) (key buffer_bytes : Value) (before : Option Published)
      → ((x : Exception)
          → (copy_range_atomic k fs h reader source key buffer_bytes before).0 ≡ err x
          → (copy_range_atomic k fs h reader source key buffer_bytes before).1 ≡ before)
        × ((name : List ℕ)
            → (copy_range_atomic k fs h reader source key buffer_bytes before).0 ≡ ok name
            → IsPublished source before
                (copy_range_atomic k fs h reader source key buffer_bytes before).1
                name)
  unfolding copy_range_atomic
  copy_range_atomic_lem source key buffer_bytes (some p) =
      elim (Result-cases (prepare_copy k fs h reader source key buffer_bytes)) [
        | inr (x, ep) ↦ rw (copy_range_atomic, ep) (refused source (some p) x)
        | inl ((buffer, algorithm, expected), ep) ↦
            let (_, parts) = prepare_copy-eq_ok source key buffer_bytes ep in
            rw (copy_range_atomic, ep) (verified source p algorithm expected parts)
      ]
  copy_range_atomic_lem source key buffer_bytes none =
      elim (Result-cases (prepare_copy k fs h reader source key buffer_bytes)) [
        | inr (x, ep) ↦ rw (copy_range_atomic, ep) (refused source none x)
        | inl ((buffer, algorithm, expected), ep) ↦
            let (positive, parts) = prepare_copy-eq_ok source key buffer_bytes ep in
            rw (copy_range_atomic, ep)
              (staged source algorithm expected _ _ parts
                (stage-IsAtomic source buffer algorithm expected (before_ k none))
                (stage-eq_ok source buffer algorithm expected (before_ k none) positive))
      ]
