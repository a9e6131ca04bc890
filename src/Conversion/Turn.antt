-- ===== src/Conversion/Turn.antt =====
-- src/ams/conversion.py: a turn of the loop over the items of a plan, whatever it finds and wherever it stops.
use mathlib.Core.Path.{subst}
use accumulative_matrix_swee.Prelude.{
  ℕ, ◌+◌, ◌*◌, ◌≡◌, refl, sym, inl, inr, Option, some, List, String, All, Bool-cases, Option-cases,
}
use accumulative_matrix_swee.Prelude.Dict.{Dict, lookup, string_eq}
use accumulative_matrix_swee.Errors.{Exception, Result, ok, err, ◌>>=◌, ok-injective, Result-cases}
use accumulative_matrix_swee.Checked.{Value}
use accumulative_matrix_swee.Canonical.{JsonText}
use accumulative_matrix_swee.Codecs.Sink.{Sink, IsSink}
use accumulative_matrix_swee.Codecs.Stream.{Reader, IsReader, Hashes}
use accumulative_matrix_swee.Descriptors.Journal.{ConversionJournalEntry, ConversionJournal}
use accumulative_matrix_swee.Storage.Copy.{Published, FileSystem}
use accumulative_matrix_swee.Storage.Atomic.{IsFileSystem}
use accumulative_matrix_swee.Conversion.{ConversionItem, ConversionPlan}
use accumulative_matrix_swee.Conversion.Written.{IsWritten, write-IsWritten}
use accumulative_matrix_swee.Conversion.Execute.{
  Disk, Chunks, is_published, record_published, publish_item, journal_item, convert_item,
}
use accumulative_matrix_swee.Conversion.Stored.{Grows, Stored-Grows, publish_item-IsPublishing}
use accumulative_matrix_swee.Conversion.Backed.{
  Every, IsStored, IsBacked, Current, IsBacked-Grows, All-IsBacked-Grows, record_published-backed,
}

module _ (json : JsonText) (max_bytes : ℕ) (k : Sink) (world : ℕ → FileSystem k) (h : Hashes)
    (readers : Dict String Reader) (plan : ConversionPlan) (buffer_bytes : Value)
    (files : String → List ℕ) (is_sink : IsSink k) (is_fs : (n : ℕ) → IsFileSystem k (world n))
    (is_reader : (o : String) (r : Reader) → lookup o readers ≡ some r → IsReader r (files o)) where
  abbrev pub Backed : Chunks → ConversionJournalEntry → Type 0
  Backed = IsBacked json max_bytes k world h readers plan buffer_bytes files is_sink is_fs is_reader

  abbrev pub Here : Chunks → String → Type 0
  Here = IsStored json max_bytes k world h readers plan buffer_bytes files is_sink is_fs is_reader

  abbrev pub Now : Option Published → Option Published → ConversionJournal → Type 0
  Now = Current json max_bytes k world h readers plan buffer_bytes files is_sink is_fs is_reader

  Backed-Grows :
      (before after : Chunks) (es : List ConversionJournalEntry)
      → Grows before after
      → All (Backed before) es
      → All (Backed after) es
  Backed-Grows =
      All-IsBacked-Grows json max_bytes k world h readers plan buffer_bytes files is_sink is_fs
        is_reader

  Every-Grows :
      (before after : Chunks) (d : Dict String ConversionJournalEntry)
      → Grows before after
      → Every (Backed before) d
      → Every (Backed after) d
  Every-Grows before after d grows every key e found =
      IsBacked-Grows json max_bytes k world h readers plan buffer_bytes files is_sink is_fs
        is_reader before after grows e (every key e found)

  pub Here-Grows :
      (before after : Chunks) (checksum : String)
      → Grows before after
      → Here before checksum
      → Here after checksum
  Here-Grows =
      Stored-Grows json max_bytes k world h readers plan buffer_bytes files is_sink is_fs is_reader

  -- Some journal stands whose published entries are backed.
  abbrev pub Journaled : Option Published → Disk → Type 0
  Journaled before disk =
      (j : ConversionJournal) × All (Backed disk.chunks) j.entries × Now before disk.journal_file j

  -- What holds of the dict and the journal before each turn.
  abbrev pub Inv :
      Option Published → Dict String ConversionJournalEntry → ConversionJournal → Disk → Type 0
  Inv before d j disk =
      Every (Backed disk.chunks) d
      × All (Backed disk.chunks) j.entries
      × Now before disk.journal_file j

  abbrev After : Type 0
  After = Result (Dict String ConversionJournalEntry × ConversionJournal) × Option Published

  -- What `journal_item` leaves, with the chunks as they are.
  abbrev IsTaken : Option Published → Chunks → After → Type 0
  IsTaken before chunks l =
      Journaled before (record { journal_file = l.1; chunks = chunks })
      × ((q : Dict String ConversionJournalEntry × ConversionJournal)
          → l.0 ≡ ok q
          → Inv before q.0 q.1 (record { journal_file = l.1; chunks = chunks }))

  IsTaken-err :
      (before : Option Published) (chunks : Chunks) (j : ConversionJournal)
      (file : Option Published) (x : Exception)
      → All (Backed chunks) j.entries
      → Now before file j
      → IsTaken before chunks (err x, file)
  IsTaken-err before chunks j file x all_ now = ((j, all_, now), λ q e. absurd (cc))

  IsTaken-ok :
      (before : Option Published) (chunks : Chunks) (d : Dict String ConversionJournalEntry)
      (j : ConversionJournal) (file : Option Published)
      → Inv before d j (record { journal_file = file; chunks = chunks })
      → IsTaken before chunks (ok (d, j), file)
  IsTaken-ok before chunks d j file (every, all_, now) = (
    (j, all_, now),
    λ q e.
        subst
          (λ (q : Dict String ConversionJournalEntry × ConversionJournal).
            Inv before q.0 q.1 (record { journal_file = file; chunks = chunks }))
          (ok-injective e) (every, all_, now),
  )

  wrote :
      (n : ℕ) (before : Option Published) (chunks : Chunks) (d : Dict String ConversionJournalEntry)
      (j j' : ConversionJournal) (file : Option Published)
      (l : Result (Unit {0}) × Option Published)
      → IsWritten json max_bytes k (world n) is_sink (is_fs n) j' file l
      → Every (Backed chunks) d
      → All (Backed chunks) j.entries
      → All (Backed chunks) j'.entries
      → Now before file j
      → IsTaken before chunks (l.0 >>= λ _. ok (d, j'), l.1)
  wrote n before chunks d j j' file (err x, after) (kept, written_) every old new now =
      IsTaken-err before chunks j after x old (subst (λ f. Now before f j) (sym (kept x refl)) now)
  wrote n before chunks d j j' file (ok _, after) (kept, written_) every old new now =
      IsTaken-ok before chunks d j' after (every, new, inr (written_ refl))

  journal_item-IsTaken :
      (n : ℕ) (before : Option Published) (item : ConversionItem) (entry : ConversionJournalEntry)
      (d : Dict String ConversionJournalEntry) (j : ConversionJournal) (disk : Disk)
      → Inv before d j disk
      → Here disk.chunks item.source_range.checksum
      → IsTaken before disk.chunks (
          journal_item json max_bytes k world h readers plan buffer_bytes n item entry d j
            disk.journal_file)
  unfolding journal_item
  journal_item-IsTaken n before item entry d j disk (every, all_, now) here =
      elim (Bool-cases (is_published entry.state)) [
        | inl p ↦
            rw (journal_item, p)
              (IsTaken-ok before disk.chunks d j disk.journal_file (every, all_, now))
        | inr p ↦ elim (Result-cases (record_published plan item entry d j)) [
          | inr (x, er) ↦
              rw (journal_item, p)
                (rw er (IsTaken-err before disk.chunks j disk.journal_file x all_ now))
          | inl ((d', j'), er) ↦
              let (every', new) =
                record_published-backed json max_bytes k world h readers plan buffer_bytes files
                  is_sink is_fs is_reader disk.chunks item entry d j every here er in
              rw (journal_item, p)
                (rw er (
                  wrote n before disk.chunks d' j j' disk.journal_file _
                    (write-IsWritten json max_bytes k (world n) is_sink (is_fs n) j'
                      disk.journal_file)
                    every' all_ new now))
        ]
      ]

  abbrev pub IsTurn :
      Option Published
      → ConversionItem
      → Disk
      → Result (Dict String ConversionJournalEntry × ConversionJournal) × Disk
      → Type 0
  IsTurn before item disk l =
      Grows disk.chunks l.1.chunks
      × Journaled before l.1
      × ((q : Dict String ConversionJournalEntry × ConversionJournal)
          → l.0 ≡ ok q
          → Inv before q.0 q.1 l.1 × Here l.1.chunks item.source_range.checksum)

  pub convert_item-IsTurn :
      (n : ℕ) (before : Option Published) (item : ConversionItem)
      (d : Dict String ConversionJournalEntry) (j : ConversionJournal) (disk : Disk)
      → Inv before d j disk
      → IsTurn before item disk
          (convert_item json max_bytes k world h readers plan buffer_bytes n item d j disk)
  unfolding convert_item
  convert_item-IsTurn n before item d j disk (every, all_, now) =
      elim (Option-cases (lookup item.target_chunk_id d)) [
        | inl missing ↦
            rw (convert_item, missing) (λ name p stands. stands, (j, all_, now), λ q e. absurd (cc))
        | inr (entry, found) ↦
            let (grows, stores) =
              publish_item-IsPublishing json max_bytes k world h readers plan buffer_bytes files
                is_sink is_fs is_reader (2 * n) item disk.chunks in
            let chunks =
              (publish_item json max_bytes k world h readers plan buffer_bytes (2 * n) item
                disk.chunks).1 in
            let old = Backed-Grows disk.chunks chunks j.entries grows all_ in
            elim (Result-cases
              (publish_item json max_bytes k world h readers plan buffer_bytes (2 * n) item
                disk.chunks).0) [
                  | inr (x, ep) ↦
                      rw (convert_item, found) (rw ep (grows, (j, old, now), λ q e. absurd (cc)))
                  | inl (name, ep) ↦
                      let here = stores name ep in
                      let (journaled, inv) =
                        journal_item-IsTaken (2 * n + 1) before item entry d j
                          (record { journal_file = disk.journal_file; chunks = chunks })
                          (Every-Grows disk.chunks chunks d grows every, old, now) here in
                      rw (convert_item, found) (rw ep (grows, journaled, λ q e. (inv q e, here)))
                ]
      ]
