-- ===== src/Conversion/Stored.antt =====
-- src/ams/conversion.py: what a turn of the loop over the items leaves in the destination folder.
use accumulative_matrix_swee.Prelude.{
  ℕ, ◌≡◌, refl, sym, ap, ◌∙◌, true, Option, some, List, [], ◌∷◌, String, arith, inl, inr,
  Bool-cases, Option-cases,
}
use accumulative_matrix_swee.Prelude.Dict.{Dict, lookup, string_eq}
use accumulative_matrix_swee.Errors.{Exception, Result, ok, err, Result-cases}
use accumulative_matrix_swee.Checked.{Value, str}
use accumulative_matrix_swee.Canonical.{JsonText}
use accumulative_matrix_swee.Codecs.Sink.{Sink, IsSink}
use accumulative_matrix_swee.Codecs.Stream.{Reader, IsReader, Hashes, checksum_parts}
use accumulative_matrix_swee.Codecs.Stream.Returned.{list_eq→eq}
use accumulative_matrix_swee.Descriptors.Syntax.{list_eq}
use accumulative_matrix_swee.Storage.Copy.{Published, FileSystem, final_name}
use accumulative_matrix_swee.Storage.Atomic.{IsFileSystem, IsPublished, copy_range_atomic_lem}
use accumulative_matrix_swee.Conversion.{ConversionItem, ConversionPlan}
use accumulative_matrix_swee.Conversion.Execute.{
  Chunks, put_chunk, name_of, chunk_name, publish_item,
}

list_eq_refl : (xs : List ℕ) → list_eq xs xs ≡ true
unfolding list_eq
list_eq_refl [] = refl
list_eq_refl (x ∷ xs) = ground (arith, list_eq_refl xs)

-- No chunk is taken away or changed.
abbrev pub Grows : Chunks → Chunks → Type 0
Grows before after = (name : List ℕ) (p : Published) → before name ≡ some p → after name ≡ some p

put_chunk-Grows :
    (name : List ℕ) (after : Option Published) (chunks : Chunks)
    → ((p : Published) → chunks name ≡ some p → after ≡ some p)
    → Grows chunks (put_chunk name after chunks)
unfolding put_chunk
put_chunk-Grows name after chunks kept other p stands = elim (Bool-cases (list_eq other name)) [
  | inl same ↦ let e = list_eq→eq other name same in rw same (kept p (ap chunks (sym e) ∙ stands))
  | inr differs ↦ rw differs stands
]

put_chunk-same :
    (name : List ℕ) (after : Option Published) (chunks : Chunks)
    → put_chunk name after chunks name ≡ after
unfolding put_chunk
put_chunk-same name after chunks = let e = list_eq_refl name in rw e refl

module _ (json : JsonText) (max_bytes : ℕ) (k : Sink) (world : ℕ → FileSystem k) (h : Hashes)
    (readers : Dict String Reader) (plan : ConversionPlan) (buffer_bytes : Value)
    (files : String → List ℕ) (is_sink : IsSink k) (is_fs : (n : ℕ) → IsFileSystem k (world n))
    (is_reader : (o : String) (r : Reader) → lookup o readers ≡ some r → IsReader r (files o)) where
  -- A chunk with this checksum stands under the name that the checksum gives.
  pub record Stored (chunks : Chunks) (checksum : String) : Type 0 where
    pub algorithm : List ℕ
    pub expected : List ℕ
    pub chunk : Published
    pub parts : checksum_parts h checksum ≡ ok (algorithm, expected)
    pub stands : chunks (final_name k (world 0) h algorithm expected) ≡ some chunk
    pub hash : h.hexdigest algorithm chunk.bytes ≡ expected

  pub Stored-Grows :
      (before after : Chunks) (checksum : String)
      → Grows before after
      → Stored before checksum
      → Stored after checksum
  Stored-Grows before after checksum grows s = record {
    algorithm = s.algorithm;
    expected = s.expected;
    chunk = s.chunk;
    parts = s.parts;
    stands = grows _ s.chunk s.stands;
    hash = s.hash;
  }

  abbrev pub IsPublishing : ConversionItem → Chunks → Result (List ℕ) × Chunks → Type 0
  IsPublishing item chunks l =
      Grows chunks l.1 × ((name : List ℕ) → l.0 ≡ ok name → Stored l.1 item.source_range.checksum)

  module _ (n : ℕ) (item : ConversionItem) (chunks : Chunks) (reader : Reader)
      (found : lookup item.source_range.object_id readers ≡ some reader) where
    abbrev name_ : List ℕ
    name_ =
        chunk_name json max_bytes k world h readers plan buffer_bytes n item.source_range.checksum

    abbrev IsCopied : Option Published → List ℕ → Type 0
    IsCopied after name =
        IsPublished k (world n) h reader (files item.source_range.object_id) is_sink (is_fs n)
          (is_reader item.source_range.object_id reader found) item.source_range (chunks name_)
          after name

    stored :
        (after : Option Published) (name : List ℕ)
        → IsCopied after name
        → Stored (put_chunk name_ after chunks) item.source_range.checksum
    stored after name p =
        let named : name_ ≡ final_name k (world n) h p.algorithm p.expected =
          ap (name_of json max_bytes k world h readers plan buffer_bytes n) p.checksum in
        record {
          algorithm = p.algorithm;
          expected = p.expected;
          chunk = p.chunk;
          parts = p.checksum;
          stands =
              ap (put_chunk name_ after chunks) (sym named)
              ∙ put_chunk-same name_ after chunks
              ∙ p.stands;
          hash = p.hash;
        }

    copied :
        (l : Result (List ℕ) × Option Published)
        → ((x : Exception) → l.0 ≡ err x → l.1 ≡ chunks name_)
          × ((name : List ℕ) → l.0 ≡ ok name → IsCopied l.1 name)
        → IsPublishing item chunks (l.0, put_chunk name_ l.1 chunks)
    copied (r, after) (failed, returned) = elim (Result-cases r) [
      | inr (x, e) ↦ (
        put_chunk-Grows name_ after chunks (λ p stands. failed x e ∙ stands),
        λ name e'. absurd (cc),
      )
      | inl (name, e) ↦ (
        put_chunk-Grows name_ after chunks (λ p stands. (returned name e).kept p stands),
        λ other e'. stored after other (returned other e'),
      )
    ]

    publish_item-reader :
        IsPublishing item chunks
          (publish_item json max_bytes k world h readers plan buffer_bytes n item chunks)
    unfolding publish_item
    publish_item-reader =
        rw (publish_item, found)
          (copied _ (
            copy_range_atomic_lem k (world n) h reader (files item.source_range.object_id) is_sink
              (is_fs n) (is_reader item.source_range.object_id reader found) item.source_range
              (str item.target_chunk_id) buffer_bytes (chunks name_)))

  pub publish_item-IsPublishing :
      (n : ℕ) (item : ConversionItem) (chunks : Chunks)
      → IsPublishing item chunks
          (publish_item json max_bytes k world h readers plan buffer_bytes n item chunks)
  unfolding publish_item
  publish_item-IsPublishing n item chunks =
      elim (Option-cases (lookup item.source_range.object_id readers)) [
        | inl missing ↦ rw (publish_item, missing) (λ name p stands. stands, λ name e. absurd (cc))
        | inr (reader, found) ↦ publish_item-reader n item chunks reader found
      ]
