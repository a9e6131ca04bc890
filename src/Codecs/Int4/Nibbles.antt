-- ===== src/Codecs/Int4/Nibbles.antt =====
-- src/ams/codecs/int4.py: packing quantized values into bytes and reading them back.
use Prim.Native.Nat.{bit_or}
use native.Mathlib.Decide.{dec_lt}
use accumulative_matrix_swee.Prelude.{
  ℕ, ◌+◌, ◌-◌, ◌*◌, ◌/◌, ◌%◌, ◌≤◌, ◌<◌, ◌≡◌, ◌≢◌, refl, sym, ap, ◌∙◌, true, List, [], ◌∷◌, ◌++◌,
  map, arith, ◌==◌, length, All, all_below, all_below_sound, ==→eq,
}
use accumulative_matrix_swee.Prelude.Int.{ℤ, pos, negsuc}
use mathlib.Core.Path.{subst}
use accumulative_matrix_swee.Errors.{ok, >>=-eq-ok, ok-injective}
use accumulative_matrix_swee.Codecs.Floats.{Floats}
use accumulative_matrix_swee.Codecs.Int4.{
  low_nibble, signed_nibble, pack_nibbles, decode_nibble, decode_packed,
}

-- The supported range [-7, 7].
abbrev pub IsNibble : ℤ → Type 0
IsNibble (pos n) = n ≤ 7
IsNibble (negsuc n) = n ≤ 6

low_nibble-lt : (q : ℤ) → low_nibble q < 16
unfolding low_nibble
low_nibble-lt (pos n) = omega arith
low_nibble-lt (negsuc n) = omega arith

low_nibble-ne : (q : ℤ) → IsNibble q → low_nibble q ≢ 8
unfolding low_nibble
low_nibble-ne (pos n) h = omega arith
low_nibble-ne (negsuc n) h = omega arith

signed_nibble-low_nibble : (q : ℤ) → IsNibble q → signed_nibble (low_nibble q) ≡ q
unfolding signed_nibble low_nibble
signed_nibble-low_nibble (pos n) h = ground arith
signed_nibble-low_nibble (negsuc n) h = ground arith

-- On disjoint nibbles `|` is a sum.
or_table : all_below (λ a. all_below (λ b. bit_or a (b * 16) == a + b * 16) 16) 16 ≡ true
unfolding all_below
or_table = refl

or_nibbles : (a b : ℕ) → a < 16 → b < 16 → bit_or a (b * 16) ≡ a + b * 16
or_nibbles a b ha hb = ==→eq _ _ (all_below_sound _ 16 (all_below_sound _ 16 or_table a ha) b hb)

nibbles_back :
    (a b : ℕ) → a < 16 → b < 16 → (bit_or a (b * 16) % 16 ≡ a) × (bit_or a (b * 16) / 16 ≡ b)
nibbles_back a b ha hb = rw (or_nibbles a b ha hb) (omega arith, omega arith)

module _ (f : Floats) (scale : f.F) (n : ℕ) where
  decode_nibble_value :
      (index : ℕ) (q : ℤ)
      → index < n
      → IsNibble q
      → decode_nibble f scale n index (low_nibble q) ≡ ok (f.mul_int scale q ∷ [])
  unfolding decode_nibble
  decode_nibble_value index q h v = ground (arith, low_nibble-ne q v, signed_nibble-low_nibble q v)

  decode_nibble_padding : (index : ℕ) → n ≤ index → decode_nibble f scale n index 0 ≡ ok []
  unfolding decode_nibble
  decode_nibble_padding index h = ground arith

  -- Decoding what was packed gives every value times the scale.
  pub decode_packed-pack_nibbles :
      (i : ℕ) (qs : List ℤ)
      → n ≡ i * 2 + length qs
      → All IsNibble qs
      → decode_packed f scale n i (pack_nibbles qs) ≡ ok (map (f.mul_int scale) qs)
  unfolding decode_packed pack_nibbles
  decode_packed-pack_nibbles i [] e v = refl
  decode_packed-pack_nibbles i (q ∷ []) e v =
      let (l, h) = nibbles_back (low_nibble q) 0 (low_nibble-lt q) (omega arith) in
      rw (l, h)
        (rw (decode_nibble_value (i * 2) q (omega arith) v.0)
          (rw (decode_nibble_padding (i * 2 + 1) (omega arith)) refl))
  decode_packed-pack_nibbles i (q ∷ r ∷ qs) e v =
      let (l, h) = nibbles_back (low_nibble q) (low_nibble r) (low_nibble-lt q) (low_nibble-lt r) in
      rw (l, h)
        (rw (decode_nibble_value (i * 2) q (omega arith) v.0) (
          rw (decode_nibble_value (i * 2 + 1) r (omega arith) v.1.0)
            (rw (decode_packed-pack_nibbles (i + 1) qs (omega arith) v.1.1) refl)))

low_nibble-signed_nibble :
    (nibble : ℕ)
    → nibble < 16
    → nibble ≢ 8
    → IsNibble (signed_nibble nibble) × (low_nibble (signed_nibble nibble) ≡ nibble)
unfolding signed_nibble low_nibble
low_nibble-signed_nibble nibble h ne = ground arith

byte_of_nibbles : (byte : ℕ) → byte < 256 → bit_or (byte % 16) (byte / 16 * 16) ≡ byte
byte_of_nibbles byte h =
    or_nibbles (byte % 16) (byte / 16) (omega arith) (omega arith) ∙ omega arith

module _ (f : Floats) (scale : f.F) (n : ℕ) where
  decode_nibble-eq_ok :
      (index nibble : ℕ) {vs : List f.F}
      → index < n
      → nibble < 16
      → decode_nibble f scale n index nibble ≡ ok vs
      → (vs ≡ f.mul_int scale (signed_nibble nibble) ∷ []) × (nibble ≢ 8)
  unfolding decode_nibble
  decode_nibble-eq_ok index nibble lt h e = (ground arith, ground arith)

  decode_nibble_tail :
      (index nibble : ℕ) {vs : List f.F}
      → n ≤ index
      → decode_nibble f scale n index nibble ≡ ok vs
      → (vs ≡ []) × (nibble ≡ 0)
  unfolding decode_nibble
  decode_nibble_tail index nibble le e = (ground arith, ground arith)

  -- The values from position 2i on: what was decoded, and that the bytes are their packing.
  abbrev pub IsDecoded : ℕ → List ℕ → List f.F → Type 0
  IsDecoded i bytes out =
      (qs : List ℤ) × All IsNibble qs
      × (length qs ≡ n - i * 2)
      × (out ≡ map (f.mul_int scale) qs)
      × (bytes ≡ pack_nibbles qs)

  IsDecoded-cons :
      (i b : ℕ) (bytes : List ℕ) (lo hi vs : List f.F)
      → b < 256
      → i * 2 < n
      → decode_nibble f scale n (i * 2) (b % 16) ≡ ok lo
      → decode_nibble f scale n (i * 2 + 1) (b / 16) ≡ ok hi
      → length bytes ≡ (n - (i + 1) * 2 + 1) / 2
      → IsDecoded (i + 1) bytes vs
      → IsDecoded i (b ∷ bytes) (lo ++ hi ++ vs)
  unfolding pack_nibbles
  IsDecoded-cons i b bytes lo hi vs fits lt el eh len (qs, v, l, eo, eb) =
      let (elo, ne) = decode_nibble-eq_ok (i * 2) (b % 16) lt (omega arith) el in
      let (nib, low) = low_nibble-signed_nibble (b % 16) (omega arith) ne in
      elim (dec_lt (i * 2 + 1) n) [
        | yes lt' ↦
            let (ehi, ne') = decode_nibble-eq_ok (i * 2 + 1) (b / 16) lt' (omega arith) eh in
            let (nib', high) = low_nibble-signed_nibble (b / 16) (omega arith) ne' in
            (
              signed_nibble (b % 16) ∷ signed_nibble (b / 16) ∷ qs,
              (nib, (nib', v)),
              omega arith,
              rw (elo, ehi, eo) refl,
              rw (low, high, byte_of_nibbles b fits, eb) refl,
            )
        | no ge ↦
            let (ehi, z) = decode_nibble_tail (i * 2 + 1) (b / 16) (omega arith) eh in
            let (none_left, none_left') = ends qs bytes (omega arith) (omega arith) in
            (
              signed_nibble (b % 16) ∷ [],
              (nib, tt),
              omega arith,
              rw (elo, ehi, eo, none_left) refl,
              rw (low, none_left')
                  (ap (λ x. x ∷ [])
                    (sym (byte_of_nibbles b fits) ∙ ap (λ h. bit_or (b % 16) (h * 16)) z)),
            )
      ]
    where
      ends :
          (qs : List ℤ) (bytes : List ℕ)
          → length qs ≡ 0
          → length bytes ≡ 0
          → (qs ≡ []) × (bytes ≡ [])
      ends [] [] e e' = (refl, refl)
      ends (q ∷ qs) bytes e e' = absurd (omega arith)
      ends [] (b ∷ bytes) e e' = absurd (omega arith)

  -- Bytes that decode are the packing of the values decoded: the encoding of a record is canonical.
  pub decode_packed-eq_ok :
      (i : ℕ) (bytes : List ℕ) {out : List f.F}
      → i * 2 ≤ n + 1
      → length bytes ≡ (n - i * 2 + 1) / 2
      → All (λ b. b < 256) bytes
      → decode_packed f scale n i bytes ≡ ok out
      → IsDecoded i bytes out
  unfolding decode_packed pack_nibbles
  decode_packed-eq_ok i [] le len a e = ([], tt, omega arith, ground arith, refl)
  decode_packed-eq_ok i (b ∷ bytes) le len a e =
      let (lo, el, e1) = >>=-eq-ok (decode_nibble f scale n (i * 2) (b % 16)) _ e in
      let (hi, eh, e2) = >>=-eq-ok (decode_nibble f scale n (i * 2 + 1) (b / 16)) _ e1 in
      let (vs, er, e3) = >>=-eq-ok (decode_packed f scale n (i + 1) bytes) _ e2 in
      subst (IsDecoded i (b ∷ bytes)) (ok-injective e3) (
        IsDecoded-cons i b bytes lo hi vs a.0 (omega arith) el eh (omega arith)
          (decode_packed-eq_ok (i + 1) bytes (omega arith) (omega arith) a.1 er))
