-- ===== src/Storage/Files.antt =====
-- src/ams/storage/copy.py and src/ams/conversion.py: a file that is staged and then put in the place of
-- another by `os.replace`. A step is a function of what stands in both places, and leaves what it has done
-- there when it raises.
use accumulative_matrix_swee.Prelude.{
  ℕ, ◌≡◌, refl, sym, ap, ◌∙◌, Bool, true, Option, none, some, List, inl, inr, Option-cases, arith,
}
use accumulative_matrix_swee.Errors.{Exception, Result, ok, err, os_error, Result-cases}
use accumulative_matrix_swee.Codecs.Sink.{Sink}

-- What stands at a path, if anything does.
pub record Published : Type 0 where
  pub regular : Bool
  pub bytes : List ℕ

pub record FileSystem (k : Sink) : Type 0 where
  -- the calls of `mkdir`
  pub make_directories : Result (Unit {0})
  -- `staging_path.open("wb", buffering=0)`
  pub open_staging : Result k.S
  -- `flush`, `fsync` and the close of the staging file
  pub sync : k.S → Result (Unit {0})
  -- `os.replace(staging_path, final_path)`
  pub replace : Result (Unit {0})
  -- reading a file to its end
  pub read_file : Published → Result (List ℕ)

module _ (k : Sink) where
  -- The staging file, if there is one, and what stands at the final path.
  pub record Files : Type 0 where
    pub staging : Option k.S
    pub final_path : Option Published

  abbrev pub before : Option Published → Files
  before final_path = record { staging = none; final_path = final_path }

  abbrev pub Step : Type 0 → Type 0
  Step A = Files → Result A × Files

  -- Steps in sequence: what was raised ends the block.
  abbrev pub bind : {A B : Type 0} → Step A → (A → Step B) → Step B
  bind first next files = elim (first files).0 [
    | err e ↦ (err e, (first files).1)
    | ok a ↦ next a (first files).1
  ]

  -- A call that touches neither file.
  abbrev pub call : {A : Type 0} → Result A → Step A
  call r files = (r, files)

  -- A step on the staging file; there is an OSError if there is none.
  abbrev pub on_staging : {A : Type 0} → (k.S → Result A × k.S) → Step A
  on_staging step files = elim files.staging [
    | none ↦ (err os_error, files)
    | some s ↦ ((step s).0, record { staging = some (step s).1; final_path = files.final_path })
  ]

  module _ (fs : FileSystem k) where
    abbrev pub open_file : Step (Unit {0})
    open_file files = elim fs.open_staging [
      | err e ↦ (err e, files)
      | ok s ↦ (ok tt, record { staging = some s; final_path = files.final_path })
    ]

    abbrev pub sync_file : Step (Unit {0})
    sync_file = on_staging (λ s. (fs.sync s, s))

    -- `os.replace` puts the staging file at the final path, with what it holds then; one that fails does
    -- nothing.
    abbrev pub replace_file : Step (Unit {0})
    replace_file files = elim files.staging [
      | none ↦ (err os_error, files)
      | some s ↦ elim fs.replace [
        | err e ↦ (err e, files)
        | ok _ ↦ (
          ok tt,
          record {
            staging = none;
            final_path = some (record { regular = true; bytes = k.content s });
          },
        )
      ]
    ]

  -- A step that does not touch the final path.
  abbrev pub Keeps : {A : Type 0} → Step A → Type 0
  Keeps step = (files : Files) → (step files).1.final_path ≡ files.final_path

  -- A step that does not touch the final path if it raises.
  abbrev pub IsAtomic : {A : Type 0} → Step A → Type 0
  IsAtomic step =
      (files : Files) (x : Exception)
      → (step files).0 ≡ err x
      → (step files).1.final_path ≡ files.final_path

  bind-err :
      {A B : Type 0} (first : Step A) (next : A → Step B) (files : Files) {x : Exception}
      → (first files).0 ≡ err x
      → bind first next files ≡ (err x, (first files).1)
  bind-err first next files f = rw (bind, f) refl

  bind-ok :
      {A B : Type 0} (first : Step A) (next : A → Step B) (files : Files) {a : A}
      → (first files).0 ≡ ok a
      → bind first next files ≡ next a (first files).1
  bind-ok first next files f = rw (bind, f) refl

  -- A sequence that returned went through its first step.
  pub bind-eq_ok :
      {A B : Type 0} (first : Step A) (next : A → Step B) (files : Files) {b : B}
      → (bind first next files).0 ≡ ok b
      → (a : A) × ((first files).0 ≡ ok a)
        × ((next a (first files).1).0 ≡ ok b)
        × (bind first next files ≡ next a (first files).1)
  bind-eq_ok {A} {B} first next files {b} e = elim (Result-cases (first files).0) [
    | inr (x, f) ↦
        absurd (not_ok (ap (λ (l : Result B × Files). l.0) (sym (bind-err first next files f)) ∙ e))
    | inl (a, f) ↦
        let same = bind-ok first next files f in
        (a, f, ap (λ (l : Result B × Files). l.0) (sym same) ∙ e, same)
  ]
    where
      not_ok : {x : Exception} → ◌≡◌ {A = Result B} (err x) (ok b) → ⊥
      not_ok e = cc

  pub bind-IsAtomic :
      {A B : Type 0} (first : Step A) (next : A → Step B)
      → Keeps first
      → ((a : A) → IsAtomic (next a))
      → IsAtomic (bind first next)
  bind-IsAtomic {A} {B} first next keeps atomic files x e = elim (Result-cases (first files).0) [
    | inr (y, f) ↦
        ap (λ (l : Result B × Files). l.1.final_path) (bind-err first next files f) ∙ keeps files
    | inl (a, f) ↦
        let same = bind-ok first next files f in
        ap (λ (l : Result B × Files). l.1.final_path) same
        ∙ atomic a (first files).1 x (ap (λ (l : Result B × Files). l.0) (sym same) ∙ e)
        ∙ keeps files
  ]

  pub Keeps-IsAtomic : {A : Type 0} (step : Step A) → Keeps step → IsAtomic step
  Keeps-IsAtomic step keeps files x e = keeps files

  pub call-Keeps : {A : Type 0} (r : Result A) → Keeps (call r)
  call-Keeps r files = refl

  pub on_staging-Keeps : {A : Type 0} (step : k.S → Result A × k.S) → Keeps (on_staging step)
  on_staging-Keeps step files = elim (Option-cases files.staging) [
    | inl e ↦ rw (on_staging, e) refl
    | inr (s, e) ↦ rw (on_staging, e) refl
  ]

  -- A step on the staging file that returned has found one.
  pub on_staging-eq_ok :
      {A : Type 0} (step : k.S → Result A × k.S) (files : Files) {a : A}
      → (on_staging step files).0 ≡ ok a
      → (s : k.S) × (files.staging ≡ some s)
        × ((step s).0 ≡ ok a)
        × ((on_staging step files).1.staging ≡ some (step s).1)
  on_staging-eq_ok step files e = elim (Option-cases files.staging) [
    | inl n ↦ absurd (ground arith)
    | inr (s, n) ↦ (s, n, ground arith, rw (on_staging, n) refl)
  ]

  module _ (fs : FileSystem k) where
    pub open_file-Keeps : Keeps (open_file fs)
    open_file-Keeps files = elim (Result-cases fs.open_staging) [
      | inl (s, e) ↦ rw (open_file, e) refl
      | inr (x, e) ↦ rw (open_file, e) refl
    ]

    pub open_file-eq_ok :
        (files : Files)
        → (open_file fs files).0 ≡ ok tt
        → (s : k.S) × (fs.open_staging ≡ ok s) × ((open_file fs files).1.staging ≡ some s)
    open_file-eq_ok files e = elim (Result-cases fs.open_staging) [
      | inl (s, o) ↦ (s, o, rw (open_file, o) refl)
      | inr (x, o) ↦ absurd (ground arith)
    ]

    pub replace_file-IsAtomic : IsAtomic (replace_file fs)
    replace_file-IsAtomic files x e = elim (Option-cases files.staging) [
      | inl n ↦ rw (replace_file, n) refl
      | inr (s, n) ↦ elim (Result-cases fs.replace) [
        | inl (_, r) ↦ absurd (ground arith)
        | inr (y, r) ↦ rw (replace_file, n) (rw r refl)
      ]
    ]

    pub replace_file-eq_ok :
        (files : Files) (s : k.S)
        → files.staging ≡ some s
        → (replace_file fs files).0 ≡ ok tt
        → (replace_file fs files).1.final_path
          ≡ some (record { regular = true; bytes = k.content s })
    replace_file-eq_ok files s n e = elim (Result-cases fs.replace) [
      | inl (_, r) ↦ rw (replace_file, n) (rw r refl)
      | inr (x, r) ↦ absurd (ground arith)
    ]
