-- ===== src/Codecs/Ternary/Trits.antt =====
-- src/ams/codecs/ternary.py: packing digits into bytes and reading them back.
use mathlib.Core.List.{map-append}
use native.Mathlib.Decide.{dec_lt}
use accumulative_matrix_swee.Prelude.{
  ℕ, ◌+◌, ◌-◌, ◌*◌, ◌/◌, ◌%◌, ◌≤◌, ◌<◌, ◌≡◌, refl, sym, ap, ◌∙◌, List, [], ◌∷◌, ◌++◌, map, arith,
  ltb, length, length-append, All, All-append, min,
}
use accumulative_matrix_swee.Errors.{ok, raise_if, invalid_package, >>=-eq-ok, ok-injective}
use accumulative_matrix_swee.Codecs.Floats.{Floats}
use accumulative_matrix_swee.Codecs.Ternary.{
  pack_trits, trit_value, decode_trit, decode_byte, decode_trits,
}

abbrev pub IsTrit : ℕ → Type 0
IsTrit d = d < 3

abbrev five : ℕ → ℕ → ℕ → ℕ → ℕ → ℕ
five a b c d e = a + b * 3 + c * 9 + d * 27 + e * 81

digits_back :
    (a b c d e : ℕ)
    → a < 3
    → b < 3
    → c < 3
    → d < 3
    → e < 3
    → (five a b c d e ≤ 242)
      × (five a b c d e / 1 % 3 ≡ a)
      × (five a b c d e / 3 % 3 ≡ b)
      × (five a b c d e / 9 % 3 ≡ c)
      × (five a b c d e / 27 % 3 ≡ d)
      × (five a b c d e / 81 % 3 ≡ e)
digits_back a b c d e ha hb hc hd he =
    (omega arith, omega arith, omega arith, omega arith, omega arith, omega arith)

byte_of_digits :
    (p : ℕ) → p ≤ 242 → five (p / 1 % 3) (p / 3 % 3) (p / 9 % 3) (p / 27 % 3) (p / 81 % 3) ≡ p
byte_of_digits p h = omega arith

module _ (f : Floats) (scale : f.F) (n : ℕ) where
  trit_here :
      (index d : ℕ) → index < n → decode_trit f scale n index d ≡ ok (trit_value f scale d ∷ [])
  unfolding decode_trit
  trit_here index d h = ground arith

  trit_tail : (index : ℕ) → n ≤ index → decode_trit f scale n index 1 ≡ ok []
  unfolding decode_trit
  trit_tail index h = ground arith

  byte_lem :
      (i a b c d e : ℕ) {va vb vc vd ve : List f.F}
      → a < 3
      → b < 3
      → c < 3
      → d < 3
      → e < 3
      → decode_trit f scale n (i * 5) a ≡ ok va
      → decode_trit f scale n (i * 5 + 1) b ≡ ok vb
      → decode_trit f scale n (i * 5 + 2) c ≡ ok vc
      → decode_trit f scale n (i * 5 + 3) d ≡ ok vd
      → decode_trit f scale n (i * 5 + 4) e ≡ ok ve
      → decode_byte f scale n i (five a b c d e) ≡ ok (va ++ vb ++ vc ++ vd ++ ve)
  unfolding decode_byte
  byte_lem i a b c d e ha hb hc hd he ea eb ec ed ee =
      let (le, da, db, dc, dd, de) = digits_back a b c d e ha hb hc hd he in
      let fits : raise_if (ltb 242 (five a b c d e)) invalid_package ≡ ok tt = ground arith in
      rw (decode_byte, fits, da, db, dc, dd, de) (rw ea (rw eb (rw ec (rw ed (rw ee refl)))))

  -- Decoding what was packed gives the value of each digit.
  pub decode_trits-pack_trits :
      (i : ℕ) (ds : List ℕ)
      → n ≡ i * 5 + length ds
      → All IsTrit ds
      → decode_trits f scale n i (pack_trits ds) ≡ ok (map (trit_value f scale) ds)
  unfolding decode_trits pack_trits
  decode_trits-pack_trits i [] e v = refl
  decode_trits-pack_trits i (a ∷ []) e (va, _) =
      rw
        (byte_lem i a 1 1 1 1 va (omega arith) (omega arith) (omega arith) (omega arith)
          (trit_here (i * 5) a (omega arith)) (trit_tail (i * 5 + 1) (omega arith))
          (trit_tail (i * 5 + 2) (omega arith)) (trit_tail (i * 5 + 3) (omega arith))
          (trit_tail (i * 5 + 4) (omega arith)))
        refl
  decode_trits-pack_trits i (a ∷ b ∷ []) e (va, (vb, _)) =
      rw
        (byte_lem i a b 1 1 1 va vb (omega arith) (omega arith) (omega arith)
          (trit_here (i * 5) a (omega arith)) (trit_here (i * 5 + 1) b (omega arith))
          (trit_tail (i * 5 + 2) (omega arith)) (trit_tail (i * 5 + 3) (omega arith))
          (trit_tail (i * 5 + 4) (omega arith)))
        refl
  decode_trits-pack_trits i (a ∷ b ∷ c ∷ []) e (va, (vb, (vc, _))) =
      rw
        (byte_lem i a b c 1 1 va vb vc (omega arith) (omega arith)
          (trit_here (i * 5) a (omega arith)) (trit_here (i * 5 + 1) b (omega arith))
          (trit_here (i * 5 + 2) c (omega arith)) (trit_tail (i * 5 + 3) (omega arith))
          (trit_tail (i * 5 + 4) (omega arith)))
        refl
  decode_trits-pack_trits i (a ∷ b ∷ c ∷ d ∷ []) e (va, (vb, (vc, (vd, _)))) =
      rw
        (byte_lem i a b c d 1 va vb vc vd (omega arith) (trit_here (i * 5) a (omega arith))
          (trit_here (i * 5 + 1) b (omega arith)) (trit_here (i * 5 + 2) c (omega arith))
          (trit_here (i * 5 + 3) d (omega arith)) (trit_tail (i * 5 + 4) (omega arith)))
        refl
  decode_trits-pack_trits i (a ∷ b ∷ c ∷ d ∷ g ∷ ds) e (va, (vb, (vc, (vd, (vg, vs))))) =
      rw
        (byte_lem i a b c d g va vb vc vd vg (trit_here (i * 5) a (omega arith))
          (trit_here (i * 5 + 1) b (omega arith)) (trit_here (i * 5 + 2) c (omega arith))
          (trit_here (i * 5 + 3) d (omega arith)) (trit_here (i * 5 + 4) g (omega arith)))
        (rw (decode_trits-pack_trits (i + 1) ds (omega arith) vs) refl)

module _ (f : Floats) (scale : f.F) (n : ℕ) where
  here-eq_ok :
      (index d : ℕ) {vs : List f.F}
      → index < n
      → decode_trit f scale n index d ≡ ok vs
      → vs ≡ trit_value f scale d ∷ []
  unfolding decode_trit
  here-eq_ok index d h e = ground arith

  tail-eq_ok :
      (index d : ℕ) {vs : List f.F}
      → n ≤ index
      → decode_trit f scale n index d ≡ ok vs
      → (vs ≡ []) × (d ≡ 1)
  unfolding decode_trit
  tail-eq_ok index d h e = (ground arith, ground arith)

  -- The digits of a byte that are not padding: their number, the values they give, and the byte that
  -- they pack to, with whatever digits follow a byte that is full.
  abbrev IsByte : ℕ → ℕ → List f.F → List ℕ → Type 0
  IsByte i p vs ds =
      All IsTrit ds
      × (length ds ≡ min 5 (n - i * 5))
      × (vs ≡ map (trit_value f scale) ds)
      × ((rest : List ℕ)
          → length rest ≡ n - i * 5 - min 5 (n - i * 5)
          → pack_trits (ds ++ rest) ≡ p ∷ pack_trits rest)

  empty : (rest : List ℕ) → length rest ≡ 0 → rest ≡ []
  empty [] e = refl
  empty (r ∷ rest) e = absurd (omega arith)

  decode_byte-eq_ok :
      (i p : ℕ) {vs : List f.F}
      → i * 5 < n
      → decode_byte f scale n i p ≡ ok vs
      → (ds : List ℕ) × IsByte i p vs ds
  unfolding decode_byte
  decode_byte-eq_ok i p {vs} lt e =
      let (_, eg, e0) = >>=-eq-ok (raise_if (ltb 242 p) invalid_package) _ e in
      let (va, ea, e1) = >>=-eq-ok (decode_trit f scale n (i * 5) (p / 1 % 3)) _ e0 in
      let (vb, eb, e2) = >>=-eq-ok (decode_trit f scale n (i * 5 + 1) (p / 3 % 3)) _ e1 in
      let (vc, ec, e3) = >>=-eq-ok (decode_trit f scale n (i * 5 + 2) (p / 9 % 3)) _ e2 in
      let (vd, ed, e4) = >>=-eq-ok (decode_trit f scale n (i * 5 + 3) (p / 27 % 3)) _ e3 in
      let (ve, ee, e5) = >>=-eq-ok (decode_trit f scale n (i * 5 + 4) (p / 81 % 3)) _ e4 in
      byte va vb vc vd ve (ground arith) (here-eq_ok (i * 5) (p / 1 % 3) lt ea) eb ec ed ee
        (sym (ok-injective e5))
    where
      byte :
          (va vb vc vd ve : List f.F)
          → p ≤ 242
          → va ≡ trit_value f scale (p / 1 % 3) ∷ []
          → decode_trit f scale n (i * 5 + 1) (p / 3 % 3) ≡ ok vb
          → decode_trit f scale n (i * 5 + 2) (p / 9 % 3) ≡ ok vc
          → decode_trit f scale n (i * 5 + 3) (p / 27 % 3) ≡ ok vd
          → decode_trit f scale n (i * 5 + 4) (p / 81 % 3) ≡ ok ve
          → vs ≡ va ++ vb ++ vc ++ vd ++ ve
          → (ds : List ℕ) × IsByte i p vs ds
      byte va vb vc vd ve fits xa eb ec ed ee all = elim (dec_lt (i * 5 + 1) n) [
        | no q1 ↦
            let (xb, b1) = tail-eq_ok (i * 5 + 1) (p / 3 % 3) (omega arith) eb in
            let (xc, c1) = tail-eq_ok (i * 5 + 2) (p / 9 % 3) (omega arith) ec in
            let (xd, d1) = tail-eq_ok (i * 5 + 3) (p / 27 % 3) (omega arith) ed in
            let (xe, e1) = tail-eq_ok (i * 5 + 4) (p / 81 % 3) (omega arith) ee in
            (
              p / 1 % 3 ∷ [],
              (
                (omega arith, tt),
                omega arith,
                all ∙ rw (xa, xb, xc, xd, xe) refl,
                λ rest len.
                    rw (empty rest (omega arith))
                      (unfold pack_trits in ap (λ x. x ∷ []) (omega arith)),
              ),
            )
        | yes q1 ↦ elim (dec_lt (i * 5 + 2) n) [
          | no q2 ↦
              let xb = here-eq_ok (i * 5 + 1) (p / 3 % 3) (omega arith) eb in
              let (xc, c1) = tail-eq_ok (i * 5 + 2) (p / 9 % 3) (omega arith) ec in
              let (xd, d1) = tail-eq_ok (i * 5 + 3) (p / 27 % 3) (omega arith) ed in
              let (xe, e1) = tail-eq_ok (i * 5 + 4) (p / 81 % 3) (omega arith) ee in
              (
                p / 1 % 3 ∷ p / 3 % 3 ∷ [],
                (
                  (omega arith, (omega arith, tt)),
                  omega arith,
                  all ∙ rw (xa, xb, xc, xd, xe) refl,
                  λ rest len.
                      rw (empty rest (omega arith))
                        (unfold pack_trits in ap (λ x. x ∷ []) (omega arith)),
                ),
              )
          | yes q2 ↦ elim (dec_lt (i * 5 + 3) n) [
            | no q3 ↦
                let xb = here-eq_ok (i * 5 + 1) (p / 3 % 3) (omega arith) eb in
                let xc = here-eq_ok (i * 5 + 2) (p / 9 % 3) (omega arith) ec in
                let (xd, d1) = tail-eq_ok (i * 5 + 3) (p / 27 % 3) (omega arith) ed in
                let (xe, e1) = tail-eq_ok (i * 5 + 4) (p / 81 % 3) (omega arith) ee in
                (
                  p / 1 % 3 ∷ p / 3 % 3 ∷ p / 9 % 3 ∷ [],
                  (
                    (omega arith, (omega arith, (omega arith, tt))),
                    omega arith,
                    all ∙ rw (xa, xb, xc, xd, xe) refl,
                    λ rest len.
                        rw (empty rest (omega arith))
                          (unfold pack_trits in ap (λ x. x ∷ []) (omega arith)),
                  ),
                )
            | yes q3 ↦ elim (dec_lt (i * 5 + 4) n) [
              | no q4 ↦
                  let xb = here-eq_ok (i * 5 + 1) (p / 3 % 3) (omega arith) eb in
                  let xc = here-eq_ok (i * 5 + 2) (p / 9 % 3) (omega arith) ec in
                  let xd = here-eq_ok (i * 5 + 3) (p / 27 % 3) (omega arith) ed in
                  let (xe, e1) = tail-eq_ok (i * 5 + 4) (p / 81 % 3) (omega arith) ee in
                  (
                    p / 1 % 3 ∷ p / 3 % 3 ∷ p / 9 % 3 ∷ p / 27 % 3 ∷ [],
                    (
                      (omega arith, (omega arith, (omega arith, (omega arith, tt)))),
                      omega arith,
                      all ∙ rw (xa, xb, xc, xd, xe) refl,
                      λ rest len.
                          rw (empty rest (omega arith))
                            (unfold pack_trits in ap (λ x. x ∷ []) (omega arith)),
                    ),
                  )
              | yes q4 ↦
                  let xb = here-eq_ok (i * 5 + 1) (p / 3 % 3) (omega arith) eb in
                  let xc = here-eq_ok (i * 5 + 2) (p / 9 % 3) (omega arith) ec in
                  let xd = here-eq_ok (i * 5 + 3) (p / 27 % 3) (omega arith) ed in
                  let xe = here-eq_ok (i * 5 + 4) (p / 81 % 3) (omega arith) ee in
                  (
                    p / 1 % 3 ∷ p / 3 % 3 ∷ p / 9 % 3 ∷ p / 27 % 3 ∷ p / 81 % 3 ∷ [],
                    (
                      (omega arith, (omega arith, (omega arith, (omega arith, (omega arith, tt))))),
                      omega arith,
                      all ∙ rw (xa, xb, xc, xd, xe) refl,
                      λ rest len. unfold pack_trits in ap (λ x. x ∷ pack_trits rest) (omega arith),
                    ),
                  )
            ]
          ]
        ]
      ]

  -- Bytes that decode are the packing of the digits that they hold, as many as there are elements.
  pub decode_trits-eq_ok :
      (i : ℕ) (bytes : List ℕ) {out : List f.F}
      → i * 5 ≤ n + 4
      → length bytes ≡ (n - i * 5 + 4) / 5
      → decode_trits f scale n i bytes ≡ ok out
      → (ds : List ℕ) × All IsTrit ds
        × (length ds ≡ n - i * 5)
        × (out ≡ map (trit_value f scale) ds)
        × (bytes ≡ pack_trits ds)
  unfolding decode_trits pack_trits
  decode_trits-eq_ok i [] le len e = ([], tt, omega arith, ground arith, refl)
  decode_trits-eq_ok i (p ∷ bytes) {out} le len e =
      let (vs, ev, e1) = >>=-eq-ok (decode_byte f scale n i p) _ e in
      let (rest, er, e2) = >>=-eq-ok (decode_trits f scale n (i + 1) bytes) _ e1 in
      let lt : i * 5 < n = omega arith in
      let (ds, (t, l, x, b)) = decode_byte-eq_ok i p lt ev in
      let (more, mt, ml, mx, mb) =
        decode_trits-eq_ok (i + 1) bytes (omega arith) (omega arith) er in
      join vs rest ds more t l x (b more (omega arith)) mt ml mx mb (sym (ok-injective e2)) lt
    where
      join :
          (vs rest : List f.F) (ds more : List ℕ)
          → All IsTrit ds
          → length ds ≡ min 5 (n - i * 5)
          → vs ≡ map (trit_value f scale) ds
          → pack_trits (ds ++ more) ≡ p ∷ pack_trits more
          → All IsTrit more
          → length more ≡ n - (i + 1) * 5
          → rest ≡ map (trit_value f scale) more
          → bytes ≡ pack_trits more
          → out ≡ vs ++ rest
          → i * 5 < n
          → (ds : List ℕ) × All IsTrit ds
            × (length ds ≡ n - i * 5)
            × (out ≡ map (trit_value f scale) ds)
            × (p ∷ bytes ≡ pack_trits ds)
      join vs rest ds more t l x b mt ml mx mb eo lt = (
        ds ++ more,
        All-append IsTrit ds more t mt,
        omega (arith, length-append ds more),
        eo ∙ rw (x, mx) (sym (map-append (trit_value f scale) ds more)),
        ap (λ r. p ∷ r) mb ∙ sym b,
      )
