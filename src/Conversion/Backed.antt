-- ===== src/Conversion/Backed.antt =====
-- src/ams/conversion.py: the entries of the journal that are published, and the chunks that they name.
use mathlib.Core.Path.{subst}
use accumulative_matrix_swee.Prelude.{
  ℕ, ◌≡◌, refl, sym, ap, ◌∙◌, ◌⊎◌, inl, inr, true, Option, some, List, [], ◌∷◌, String, All,
  Bool-cases, Option-cases, arith, if◌then◌else◌,
}
use accumulative_matrix_swee.Prelude.Text.{str_eq}
use accumulative_matrix_swee.Prelude.Dict.{Dict, lookup, insert, lookup-insert, string_eq}
use accumulative_matrix_swee.Errors.{Result, ok, ◌>>=◌, >>=-eq-ok, ok-injective}
use accumulative_matrix_swee.Checked.{Value, str, nat}
use accumulative_matrix_swee.Canonical.{JsonText}
use accumulative_matrix_swee.Codecs.Sink.{Sink, IsSink}
use accumulative_matrix_swee.Codecs.Stream.{Reader, IsReader, Hashes}
use accumulative_matrix_swee.Descriptors.Journal.{
  published, ConversionJournalEntry, conversion_journal_entry, ConversionJournal,
  conversion_journal,
}
use accumulative_matrix_swee.Descriptors.Entries.{entry_fields, journal_entries}
use accumulative_matrix_swee.Storage.Copy.{Published, FileSystem}
use accumulative_matrix_swee.Storage.Atomic.{IsFileSystem}
use accumulative_matrix_swee.Conversion.{ConversionItem, ConversionPlan}
use accumulative_matrix_swee.Conversion.Store.{journal_bytes}
use accumulative_matrix_swee.Conversion.Written.{file_of}
use accumulative_matrix_swee.Conversion.Execute.{
  Chunks, is_published, in_plan_order, entries_from, record_published,
}
use accumulative_matrix_swee.Conversion.Stored.{Grows, Stored, Stored-Grows}

-- Every entry of the dict has the property.
abbrev pub Every : (ConversionJournalEntry → Type 0) → Dict String ConversionJournalEntry → Type 0
Every P d = (key : String) (e : ConversionJournalEntry) → lookup key d ≡ some e → P e

pub some-injective {ℓ} : {A : Type ℓ} {a b : A} → some a ≡ some b → a ≡ b
some-injective h = cc

pub in_plan_order-cons :
    (d : Dict String ConversionJournalEntry) (item : ConversionItem) (items : List ConversionItem)
    {entry : ConversionJournalEntry} {r : Result (List ConversionJournalEntry)}
    → lookup item.target_chunk_id d ≡ some entry
    → in_plan_order d (item ∷ items) ≡ r
    → (in_plan_order d items >>= λ es. ok (entry ∷ es)) ≡ r
unfolding in_plan_order
in_plan_order-cons d item items found e = rw (in_plan_order, found) refl ∙ e

module _ (P : ConversionJournalEntry → Type 0) where
  pub Every-insert :
      (key : String) (e : ConversionJournalEntry) (d : Dict String ConversionJournalEntry)
      → P e
      → Every P d
      → Every P (insert key e d)
  Every-insert key e d p every other found e' =
      let put : (if str_eq other key then some e else lookup other d) ≡ some found =
        sym (lookup-insert key other e d) ∙ e' in
      elim (Bool-cases (str_eq other key)) [
        | inl same ↦
            subst P
              (some-injective (ap (λ b. if b then some e else lookup other d) (sym same) ∙ put)) p
        | inr differs ↦
            every other found (ap (λ b. if b then some e else lookup other d) (sym differs) ∙ put)
      ]

  pub in_plan_order-All :
      (d : Dict String ConversionJournalEntry) (items : List ConversionItem)
      {es : List ConversionJournalEntry}
      → Every P d
      → in_plan_order d items ≡ ok es
      → All P es
  unfolding in_plan_order
  in_plan_order-All d [] every e = subst (All P) (ok-injective e) tt
  in_plan_order-All d (item ∷ items) every e = elim (Option-cases (lookup item.target_chunk_id d)) [
    | inl missing ↦ absurd (ground arith)
    | inr (entry, found) ↦
        let (es, et, e1) =
          >>=-eq-ok (in_plan_order d items) (λ es. ok (entry ∷ es))
            (in_plan_order-cons d item items found e) in
        subst (All P) (ok-injective e1)
          (every item.target_chunk_id entry found, in_plan_order-All d items every et)
  ]

  pub entries_from-Every :
      (d : Dict String ConversionJournalEntry) (es : List ConversionJournalEntry)
      → Every P d
      → All P es
      → Every P (entries_from d es)
  unfolding entries_from
  entries_from-Every d [] every all_ = every
  entries_from-Every d (e ∷ es) every all_ =
      entries_from-Every (insert e.target_chunk_id e d) es
        (Every-insert e.target_chunk_id e d all_.0 every) all_.1

module _ (json : JsonText) (max_bytes : ℕ) (k : Sink) (world : ℕ → FileSystem k) (h : Hashes)
    (readers : Dict String Reader) (plan : ConversionPlan) (buffer_bytes : Value)
    (files : String → List ℕ) (is_sink : IsSink k) (is_fs : (n : ℕ) → IsFileSystem k (world n))
    (is_reader : (o : String) (r : Reader) → lookup o readers ≡ some r → IsReader r (files o)) where
  abbrev pub IsStored : Chunks → String → Type 0
  IsStored chunks checksum =
      Stored json max_bytes k world h readers plan buffer_bytes files is_sink is_fs is_reader chunks
        checksum

  -- An entry that is published has a target hash, and a chunk with this hash stands.
  abbrev pub IsBacked : Chunks → ConversionJournalEntry → Type 0
  IsBacked chunks e =
      is_published e.state ≡ true → (t : String) × (e.target_hash ≡ some t) × IsStored chunks t

  -- The file of the journal is as it was before the run, or has the text of this journal.
  abbrev pub Current : Option Published → Option Published → ConversionJournal → Type 0
  Current before file j =
      (file ≡ before)
      ⊎ ((payload : List ℕ) × (journal_bytes json max_bytes k j ≡ ok payload)
          × (file ≡ some (file_of payload)))

  pub IsBacked-Grows :
      (before after : Chunks)
      → Grows before after
      → (e : ConversionJournalEntry) → IsBacked before e
      → IsBacked after e
  IsBacked-Grows before after grows e backed p =
      let (t, et, s) = backed p in
      (
        t,
        et,
        Stored-Grows json max_bytes k world h readers plan buffer_bytes files is_sink is_fs
            is_reader before after t grows s,
      )

  pub All-IsBacked-Grows :
      (before after : Chunks) (es : List ConversionJournalEntry)
      → Grows before after
      → All (IsBacked before) es
      → All (IsBacked after) es
  All-IsBacked-Grows before after [] grows all_ = tt
  All-IsBacked-Grows before after (e ∷ es) grows all_ =
      (IsBacked-Grows before after grows e all_.0, All-IsBacked-Grows before after es grows all_.1)

  pub record_published-backed :
      (chunks : Chunks) (item : ConversionItem) (entry : ConversionJournalEntry)
      (d : Dict String ConversionJournalEntry) (j : ConversionJournal)
      {result : Dict String ConversionJournalEntry × ConversionJournal}
      → Every (IsBacked chunks) d
      → IsStored chunks item.source_range.checksum
      → record_published plan item entry d j ≡ ok result
      → Every (IsBacked chunks) result.0 × All (IsBacked chunks) result.1.entries
  unfolding record_published
  record_published-backed chunks item entry d j {result} every stored e =
      let (e', eb, e1) =
        >>=-eq-ok
          (conversion_journal_entry entry.source_range (str entry.target_chunk_id) published
            (some (str item.source_range.checksum)) (some (nat item.source_range.length)))
          _ e in
      let (es, eo, e2) =
        >>=-eq-ok (in_plan_order (insert item.target_chunk_id e' d) plan.items) _ e1 in
      let (j', ej, e3) =
        >>=-eq-ok
          (conversion_journal (str j.journal_version) (str j.source_root) (str j.configuration_hash)
            es)
          _ e2 in
      let (state, hash) =
        entry_fields entry.source_range (str entry.target_chunk_id) published
          (some (str item.source_range.checksum)) (some (nat item.source_range.length)) eb in
      let every' : Every (IsBacked chunks) (insert item.target_chunk_id e' d) =
        Every-insert (IsBacked chunks) item.target_chunk_id e' d
          (λ p. (item.source_range.checksum, hash item.source_range.checksum refl, stored)) every in
      let all_ = in_plan_order-All (IsBacked chunks) _ plan.items every' eo in
      subst
        (λ (q : Dict String ConversionJournalEntry × ConversionJournal).
          Every (IsBacked chunks) q.0 × All (IsBacked chunks) q.1.entries)
        (ok-injective e3)
        (
          every',
          subst (All (IsBacked chunks))
              (sym (
                journal_entries (str j.journal_version) (str j.source_root)
                  (str j.configuration_hash) es ej))
              all_,
        )
