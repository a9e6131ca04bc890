-- ===== src/Codecs/Sink.antt =====
-- src/ams/codecs: `_write_exact`, the loop that hands a record to a sink which may take less of it.
use mathlib.Core.List.{append-nil, append_assoc}
use accumulative_matrix_swee.Prelude.{
  ℕ, zero, suc, ◌+◌, ◌≤◌, ◌<◌, ◌≡◌, ◌≢◌, ◌⊎◌, refl, sym, ap, ◌∙◌, Bool-cases, true, false, Option,
  none, some, List, [], ◌∷◌, ◌++◌, arith, inl, inr, ◌==◌, length, length-drop, take, drop,
  take-append-drop, Option-cases,
}
use accumulative_matrix_swee.Errors.{
  Exception, ams, os_error, overflow_error, value_error, key_error, recursion_error, diverged,
  ok-injective, Result, ok, err, raise_retriable, translate_os_error, io_failure, Result-cases,
}

-- A writable object of Python: `write` returns how many bytes it took, or None.
pub record Sink : Type 1 where
  pub S : Type 0
  pub write : List ℕ → S → Result (Option ℕ) × S
  -- The bytes that were taken so far.
  pub content : S → List ℕ

-- `write` takes a first part of its argument and returns the length of that part.
pub record IsSink (k : Sink) : Type 0 where
  pub taken :
      (bytes : List ℕ) (s : k.S) (n : ℕ)
      → (k.write bytes s).0 ≡ ok (some n)
      → (n ≤ length bytes) × (k.content (k.write bytes s).1 ≡ k.content s ++ take n bytes)

err-injective {ℓ} : {A : Type ℓ} {x y : Exception} → ◌≡◌ {A = Result A} (err x) (err y) → x ≡ y
err-injective h = cc

module _ (k : Sink) where
  -- `while written < len(payload)`, with what is written so far and what is left of the payload; the fuel
  -- bounds the turns.
  unfoldable pub write_loop : ℕ → ℕ → List ℕ → k.S → Result ℕ × k.S
  write_loop zero written [] s = (ok written, s)
  write_loop zero written (b ∷ rest) s = (err diverged, s)
  write_loop (suc fuel) written [] s = (ok written, s)
  write_loop (suc fuel) written (b ∷ rest) s = elim (k.write (b ∷ rest) s).0 [
    | err e ↦ (err e, (k.write (b ∷ rest) s).1)
    | ok none ↦ (raise_retriable io_failure, (k.write (b ∷ rest) s).1)
    | ok (some count) ↦ elim (count == 0) [
      | true ↦ (raise_retriable io_failure, (k.write (b ∷ rest) s).1)
      | false ↦ write_loop fuel (written + count) (drop count (b ∷ rest)) (k.write (b ∷ rest) s).1
    ]
  ]

  -- `_write_exact`: what it returns is the number of bytes that the sink took.
  unfoldable pub write_exact : List ℕ → k.S → Result ℕ × k.S
  unfolding write_loop
  write_exact payload s =
      let (r, s') = write_loop (length payload) 0 payload s in (translate_os_error io_failure r, s')

  write_loop_step :
      (fuel written b count : ℕ) (rest : List ℕ) (s : k.S)
      → (k.write (b ∷ rest) s).0 ≡ ok (some count)
      → 0 < count
      → write_loop (suc fuel) written (b ∷ rest) s
        ≡ write_loop fuel (written + count) (drop count (b ∷ rest)) (k.write (b ∷ rest) s).1
  unfolding write_loop
  write_loop_step fuel written b zero rest s w p = absurd (omega arith)
  write_loop_step fuel written b (suc count) rest s w p =
      let more : (suc count == 0) ≡ false = ground arith in rw (write_loop, w) (rw more refl)

  -- How a turn ends: with an exception, or the loop goes on with a count that is not 0.
  turn_cases :
      (fuel written b : ℕ) (rest : List ℕ) (s : k.S)
      → ((x : Exception) × ((k.write (b ∷ rest) s).0 ≡ err x)
          × ((write_loop (suc fuel) written (b ∷ rest) s).0 ≡ err x))
        ⊎ ((write_loop (suc fuel) written (b ∷ rest) s).0 ≡ raise_retriable io_failure)
        ⊎ ((count : ℕ) × ((k.write (b ∷ rest) s).0 ≡ ok (some count)) × (0 < count))
  unfolding write_loop
  turn_cases fuel written b rest s = elim (Result-cases (k.write (b ∷ rest) s).0) [
    | inr (x, w) ↦ inl (x, w, rw (write_loop, w) refl)
    | inl (r, w) ↦ elim (Option-cases r) [
      | inl n ↦ inr (inl (rw (write_loop, w) (rw n refl)))
      | inr (count, n) ↦ elim (Bool-cases (count == 0)) [
        | inl z ↦ inr (inl (rw (write_loop, w) (rw n (rw z refl))))
        | inr z ↦ inr (inr (count, w ∙ ap (λ o. ok o) n, ground arith))
      ]
    ]
  ]

  write_loop-ends :
      (ends : (bytes : List ℕ) (s : k.S) → (k.write bytes s).0 ≢ err diverged) (fuel written : ℕ)
      (rest : List ℕ) (s : k.S)
      → length rest ≤ fuel
      → (write_loop fuel written rest s).0 ≢ err diverged
  unfolding write_loop
  write_loop-ends ends zero written [] s le e = cc
  write_loop-ends ends zero written (b ∷ rest) s le e = absurd (omega arith)
  write_loop-ends ends (suc fuel) written [] s le e = cc
  write_loop-ends ends (suc fuel) written (b ∷ rest) s le e =
      elim (turn_cases fuel written b rest s) [
        | inl (x, w, l) ↦
            ends (b ∷ rest) s (w ∙ ap (λ y. err y) (err-injective {A = ℕ} (sym l ∙ e)))
        | inr (inl l) ↦ other (sym l ∙ e)
        | inr (inr (count, w, p)) ↦
            write_loop-ends ends fuel (written + count) (drop count (b ∷ rest))
              (k.write (b ∷ rest) s).1 (grind (arith, length-drop count (b ∷ rest)))
              (ap (λ (p : Result ℕ × k.S). p.0)
                  (sym (write_loop_step fuel written b count rest s w p))
                ∙ e)
      ]
    where
      other : ◌≡◌ {A = Result ℕ} (raise_retriable io_failure) (err diverged) → ⊥
      other e = cc

  -- `_write_exact` ends, whatever the sink takes of each write, if each of the writes ends: every turn
  -- that goes on has written a byte.
  pub write_exact-ends :
      (ends : (bytes : List ℕ) (s : k.S) → (k.write bytes s).0 ≢ err diverged) (payload : List ℕ)
      (s : k.S)
      → (write_exact payload s).0 ≢ err diverged
  unfolding write_exact
  write_exact-ends ends payload s e =
      let never = write_loop-ends ends (length payload) 0 payload s (omega arith) in
      elim (Result-cases (write_loop (length payload) 0 payload s).0) [
        | inl (n, w) ↦ absurd (ground arith)
        | inr (x, w) ↦ never (w ∙ translated x (sym (ap (translate_os_error io_failure) w) ∙ e))
      ]
    where
      translated :
          (x : Exception)
          → translate_os_error {A = ℕ} io_failure (err x) ≡ err diverged
          → ◌≡◌ {A = Result ℕ} (err x) (err diverged)
      translated (ams code retriable) e = absurd (cc)
      translated os_error e = absurd (cc)
      translated overflow_error e = absurd (cc)
      translated value_error e = absurd (cc)
      translated key_error e = absurd (cc)
      translated recursion_error e = absurd (cc)
      translated diverged e = refl

  eager_loop :
      (eager : (b : ℕ) (rest : List ℕ) (s : k.S)
        → (n : ℕ) × ((k.write (b ∷ rest) s).0 ≡ ok (some n)) × (0 < n))
      (fuel written : ℕ) (rest : List ℕ) (s : k.S)
      → length rest ≤ fuel
      → (n : ℕ) × ((write_loop fuel written rest s).0 ≡ ok n) × (written + length rest ≤ n)
  unfolding write_loop
  eager_loop eager zero written [] s le = (written, refl, omega arith)
  eager_loop eager zero written (b ∷ rest) s le = absurd (omega arith)
  eager_loop eager (suc fuel) written [] s le = (written, refl, omega arith)
  eager_loop eager (suc fuel) written (b ∷ rest) s le =
      let (count, w, p) = eager b rest s in
      let (n, e, m) =
        eager_loop eager fuel (written + count) (drop count (b ∷ rest)) (k.write (b ∷ rest) s).1
          (grind (arith, length-drop count (b ∷ rest))) in
      (
        n,
        ap (λ (p : Result ℕ × k.S). p.0) (write_loop_step fuel written b count rest s w p) ∙ e,
        grind (arith, length-drop count (b ∷ rest)),
      )

  -- If every write takes at least a byte, `_write_exact` returns, whatever the payload, and it returns at
  -- least the length of the payload: more only for a sink that reports more than it was given.
  pub write_exact-returns :
      (eager : (b : ℕ) (rest : List ℕ) (s : k.S)
        → (n : ℕ) × ((k.write (b ∷ rest) s).0 ≡ ok (some n)) × (0 < n))
      (payload : List ℕ) (s : k.S)
      → (n : ℕ) × ((write_exact payload s).0 ≡ ok n) × (length payload ≤ n)
  unfolding write_exact
  write_exact-returns eager payload s =
      let (n, e, m) = eager_loop eager (length payload) 0 payload s (omega arith) in
      (n, ap (translate_os_error io_failure) e, omega arith)

  module _ (is_sink : IsSink k) where
    pub write_loop-ok :
        (fuel written : ℕ) (rest : List ℕ) (s : k.S) {n : ℕ}
        → (write_loop fuel written rest s).0 ≡ ok n
        → (n ≡ written + length rest)
          × (k.content (write_loop fuel written rest s).1 ≡ k.content s ++ rest)
    unfolding write_loop
    write_loop-ok zero written [] s e =
        (sym (ok-injective e) ∙ omega arith, sym (append-nil (k.content s)))
    write_loop-ok zero written (b ∷ rest) s e = absurd (ground arith)
    write_loop-ok (suc fuel) written [] s e =
        (sym (ok-injective e) ∙ omega arith, sym (append-nil (k.content s)))
    write_loop-ok (suc fuel) written (b ∷ rest) s {n} e = elim (turn_cases fuel written b rest s) [
      | inl (x, w, l) ↦ absurd (ground arith)
      | inr (inl l) ↦ absurd (ground arith)
      | inr (inr (count, w, p)) ↦
          let (fits, put) = is_sink.taken (b ∷ rest) s count w in
          let same = write_loop_step fuel written b count rest s w p in
          let (number, ih) =
            write_loop-ok fuel (written + count) (drop count (b ∷ rest)) (k.write (b ∷ rest) s).1
              {n = n} (ap (λ (p : Result ℕ × k.S). p.0) (sym same) ∙ e) in
          (
            grind (arith, length-drop count (b ∷ rest)),
            ap (λ (p : Result ℕ × k.S). k.content p.1) same
                ∙ ih
                ∙ ap (λ c. c ++ drop count (b ∷ rest)) put
                ∙ append_assoc (k.content s) (take count (b ∷ rest)) (drop count (b ∷ rest))
                ∙ ap (λ c. k.content s ++ c) (take-append-drop count (b ∷ rest)),
          )
    ]

    -- If `_write_exact` returns, then it returns the length of the payload, and the sink has taken the
    -- payload, all of it and nothing else, however the writes were cut.
    pub write_exact-eq_ok :
        (payload : List ℕ) (s : k.S) {n : ℕ}
        → (write_exact payload s).0 ≡ ok n
        → (n ≡ length payload) × (k.content (write_exact payload s).1 ≡ k.content s ++ payload)
    unfolding write_exact
    write_exact-eq_ok payload s {n} e =
        elim (Result-cases (write_loop (length payload) 0 payload s).0) [
          | inr (x, w) ↦ absurd (ground arith)
          | inl (m, w) ↦
              let (number, content) = write_loop-ok (length payload) 0 payload s {n = m} w in
              let same : m ≡ n = ground arith in (omega arith, content)
        ]
