-- ===== src/Conversion/Written.antt =====
-- src/ams/conversion.py: what `ConversionJournalStore.write` leaves at the path of the journal.
use mathlib.Core.Path.{subst}
use accumulative_matrix_swee.Prelude.{
  ℕ, ◌≤◌, ◌<◌, ◌≡◌, refl, sym, ap, ◌∙◌, true, false, Option, some, List, [], ◌∷◌, ◌++◌, ltb, ◌==◌,
  length, arith, inl, inr,
}
use accumulative_matrix_swee.Errors.{
  Exception, Result, ok, err, value_error, raise_if, translate_os_error, transaction_failure,
  >>=-eq-ok, ok-injective, Result-cases,
}
use accumulative_matrix_swee.Canonical.{Json, JsonText, normalize, canonical_json_bytes}
use accumulative_matrix_swee.Codecs.Sink.{Sink, IsSink, write_loop, write_loop-ok}
use accumulative_matrix_swee.Descriptors.Journal.{ConversionJournal}
use accumulative_matrix_swee.Storage.Copy.{Published, FileSystem}
use accumulative_matrix_swee.Storage.Files.{
  Files, Step, before as before_, bind, call, on_staging, open_file, sync_file, replace_file,
  IsAtomic, bind-eq_ok, bind-IsAtomic, call-Keeps, on_staging-Keeps, on_staging-eq_ok,
  open_file-Keeps, open_file-eq_ok, replace_file-IsAtomic, replace_file-eq_ok,
}
use accumulative_matrix_swee.Storage.Atomic.{IsFileSystem, some-injective}
use accumulative_matrix_swee.Conversion.Journals.{journal_to_dict, journal_from_dict}
use accumulative_matrix_swee.Conversion.Store.{
  decode_journal, read_journal, load, stage_journal, journal_bytes, write,
}
use accumulative_matrix_swee.Conversion.RoundTrip.{IsJournal, journal_from_dict-journal_to_dict}

abbrev pub file_of : List ℕ → Published
file_of payload = record { regular = true; bytes = payload }

module _ (json : JsonText) (max_bytes : ℕ) (k : Sink) (fs : FileSystem k) (is_sink : IsSink k)
    (is_fs : IsFileSystem k fs) where
  -- What follows each of the steps of `stage_journal`.
  abbrev synced : Step k (Unit {0})
  synced = bind k (sync_file k fs) (λ _. replace_file k fs)

  abbrev opened : List ℕ → Step k (Unit {0})
  opened payload = bind k (on_staging k (write_loop k (length payload) 0 payload)) (λ _. synced)

  abbrev made : List ℕ → Step k (Unit {0})
  made payload = bind k (open_file k fs) (λ _. opened payload)

  -- Where one of the steps raises, the path of the journal was not touched.
  stage_journal-IsAtomic :
      (payload : List ℕ) → IsAtomic k (stage_journal json max_bytes k fs payload)
  unfolding stage_journal
  stage_journal-IsAtomic payload =
      bind-IsAtomic k (call k fs.make_directories) (λ _. made payload)
        (call-Keeps k fs.make_directories)
        (λ _.
          bind-IsAtomic k (open_file k fs) (λ _. opened payload) (open_file-Keeps k fs)
            (λ _.
              bind-IsAtomic k (on_staging k (write_loop k (length payload) 0 payload)) (λ _. synced)
                (on_staging-Keeps k (write_loop k (length payload) 0 payload))
                (λ _.
                  bind-IsAtomic k (sync_file k fs) (λ _. replace_file k fs)
                    (on_staging-Keeps k (λ s. (fs.sync s, s))) (λ _. replace_file-IsAtomic k fs))))

  stage_journal-eq_ok :
      (payload : List ℕ) (files : Files k)
      → (stage_journal json max_bytes k fs payload files).0 ≡ ok tt
      → (stage_journal json max_bytes k fs payload files).1.final_path ≡ some (file_of payload)
  unfolding stage_journal
  stage_journal-eq_ok payload files e =
      let writing = write_loop k (length payload) 0 payload in
      let (_, _, e1, s1) =
        bind-eq_ok k (call k fs.make_directories) (λ _. made payload) files {b = tt} e in
      let (_, eo, e2, s2) = bind-eq_ok k (open_file k fs) (λ _. opened payload) files {b = tt} e1 in
      let f1 = (open_file k fs files).1 in
      let (s0, eopen, at0) = open_file-eq_ok k fs files eo in
      let (n, ew, e3, s3) = bind-eq_ok k (on_staging k writing) (λ _. synced) f1 {b = tt} e2 in
      let f2 = (on_staging k writing f1).1 in
      let (s, ats, el, at1) = on_staging-eq_ok k writing f1 {a = n} ew in
      let (_, es, e4, s4) = bind-eq_ok k (sync_file k fs) (λ _. replace_file k fs) f2 {b = tt} e3 in
      let (t, att, _, at2) = on_staging-eq_ok k (λ s. (fs.sync s, s)) f2 {a = tt} es in
      let same : s0 ≡ s = some-injective (sym at0 ∙ ats) in
      let (_, put) = write_loop-ok k is_sink (length payload) 0 payload s {n = n} el in
      let content : k.content t ≡ payload =
        ap k.content (some-injective (sym att ∙ at1))
        ∙ put
        ∙ ap (λ c. c ++ payload) (ap k.content (sym same) ∙ is_fs.fresh s0 eopen) in
      ap (λ (l : Result (Unit {0}) × Files k). l.1.final_path) (s1 ∙ s2 ∙ s3 ∙ s4)
      ∙ replace_file-eq_ok k fs (sync_file k fs f2).1 t at2 e4
      ∙ ap (λ c. some (file_of c)) content

  -- What a call of `write` left, of whatever it returned.
  abbrev pub IsWritten :
      ConversionJournal → Option Published → Result (Unit {0}) × Option Published → Type 0
  IsWritten j before l =
      ((x : Exception) → l.0 ≡ err x → l.1 ≡ before)
      × (l.0 ≡ ok tt
          → (payload : List ℕ) × (journal_bytes json max_bytes k j ≡ ok payload)
            × (l.1 ≡ some (file_of payload)))

  pub write-IsWritten :
      (j : ConversionJournal) (before : Option Published)
      → IsWritten j before (write json max_bytes k fs j before)
  unfolding write
  write-IsWritten j before = elim (Result-cases (journal_bytes json max_bytes k j)) [
    | inr (x, ep) ↦ rw (write, ep) (λ y e. refl, λ e. absurd (cc))
    | inl (payload, ep) ↦
        rw (write, ep)
          (staged _ _ (stage_journal-IsAtomic payload (before_ k before))
            (stage_journal-eq_ok payload (before_ k before)))
  ]
    where
      staged :
          {payload : List ℕ} (r : Result (Unit {0})) (after : Option Published)
          → ((x : Exception) → r ≡ err x → after ≡ before)
          → (r ≡ ok tt → after ≡ some (file_of payload))
          → ((x : Exception) → translate_os_error transaction_failure r ≡ err x → after ≡ before)
            × (translate_os_error transaction_failure r ≡ ok tt
                → (p : List ℕ) × (ok payload ≡ ok p) × (after ≡ some (file_of p)))
      staged {payload} (err x) after failed done = (λ y e. failed x refl, λ e. absurd (raised x e))
        where
          raised :
              (x : Exception)
              → ◌≡◌ {A = Result (Unit {0})} (translate_os_error transaction_failure (err x)) (ok tt)
              → ⊥
          raised x e = ground arith
      staged {payload} (ok _) after failed done =
          (λ y e. absurd (cc), λ e. (payload, refl, done refl))

  -- `journal_bytes` is the text of the normalized dict, and no longer than the limit.
  journal_bytes-eq_ok :
      (j : ConversionJournal) {payload : List ℕ}
      → journal_bytes json max_bytes k j ≡ ok payload
      → (raw : Json) × (normalize (journal_to_dict j) ≡ ok raw)
        × (json.dumps raw ≡ payload)
        × (length payload ≤ max_bytes)
  unfolding journal_bytes canonical_json_bytes
  journal_bytes-eq_ok j {payload} e =
      let (p, ep, e1) = >>=-eq-ok (canonical_json_bytes json (journal_to_dict j)) _ e in
      let (raw, en, ed) = >>=-eq-ok (normalize (journal_to_dict j)) _ ep in
      let (_, es, e2) = >>=-eq-ok (raise_if (ltb max_bytes (length p)) transaction_failure) _ e1 in
      let small : length p ≤ max_bytes = ground arith in
      subst
        (λ q.
          (raw : Json) × (normalize (journal_to_dict j) ≡ ok raw)
          × (json.dumps raw ≡ q)
          × (length q ≤ max_bytes))
        (ok-injective e2) (raw, en, ok-injective ed, small)

  -- `json` reads the text of this journal back, and does not read the empty text.
  pub record ReadsBack (j : ConversionJournal) : Type 0 where
    pub back :
        (raw : Json) → normalize (journal_to_dict j) ≡ ok raw → json.loads (json.dumps raw) ≡ ok raw
    pub no_empty : json.loads [] ≡ err value_error

  load_file :
      (again : FileSystem k) (j : ConversionJournal) (payload : List ℕ) (raw : Json)
      → again.read_file (file_of payload) ≡ ok payload
      → length payload ≤ max_bytes
      → 0 < length payload
      → json.loads payload ≡ ok raw
      → journal_from_dict raw ≡ ok j
      → load json max_bytes k again (some (file_of payload)) ≡ ok j
  unfolding load read_journal decode_journal
  load_file again j payload raw er small nonempty el ef =
      let a : (length payload == 0) ≡ false = ground arith in
      let b : ltb max_bytes (length payload) ≡ false = ground arith in
      rw a (rw b (rw er (rw (decode_journal, el) (rw ef refl))))

  -- Whatever fails, a call of `write` that raises leaves what stood at the path of the journal. If it
  -- returns, for a journal that its constructors accept with no more than a million entries, whose text
  -- `json` reads back, and the file can be read, then `load` returns this journal.
  pub load-write :
      (again : FileSystem k) (j : ConversionJournal) (before : Option Published)
      → IsJournal j
      → length j.entries ≤ 1000000
      → ReadsBack j
      → ((p : Published) → again.read_file p ≡ ok p.bytes)
      → ((x : Exception)
          → (write json max_bytes k fs j before).0 ≡ err x
          → (write json max_bytes k fs j before).1 ≡ before)
        × ((write json max_bytes k fs j before).0 ≡ ok tt
            → load json max_bytes k again (write json max_bytes k fs j before).1 ≡ ok j)
  load-write again j before is le reads readable =
      let (kept, wrote) = write-IsWritten j before in
      (
        kept,
        λ e.
            let (payload, ep, stands) = wrote e in
            let (raw, en, ed, small) = journal_bytes-eq_ok j ep in
            let (raw', en', ef) = journal_from_dict-journal_to_dict j is le in
            let same : raw' ≡ raw = ok-injective (sym en' ∙ en) in
            let back : json.loads payload ≡ ok raw = ap json.loads (sym ed) ∙ reads.back raw en in
            subst (λ f. load json max_bytes k again f ≡ ok j) (sym stands)
              (load_file again j payload raw (readable (file_of payload)) small
                (nonempty payload back reads.no_empty) back (ap journal_from_dict (sym same) ∙ ef)),
      )
    where
      nonempty :
          (payload : List ℕ) {raw : Json}
          → json.loads payload ≡ ok raw
          → json.loads [] ≡ err value_error
          → 0 < length payload
      nonempty [] back none_ = absurd (cc)
      nonempty (b ∷ bs) back none_ = omega arith
