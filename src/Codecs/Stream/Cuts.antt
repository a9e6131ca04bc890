-- ===== src/Codecs/Stream/Cuts.antt =====
-- src/ams/codecs: how the windows of the loop cut the source, in bytes and in elements.
use accumulative_matrix_swee.Prelude.{
  ℕ, zero, suc, ◌+◌, ◌-◌, ◌*◌, ◌≡◌, refl, ap, List, [], ◌∷◌, ◌++◌, map, min, arith, take, drop,
}
use accumulative_matrix_swee.Codecs.Stream.{words}

module _ {ℓ} {A : Type ℓ} where
  take-nil : (n : ℕ) → take {A = A} n [] ≡ []
  take-nil zero = refl
  take-nil (suc n) = refl

  drop-nil : (n : ℕ) → drop {A = A} n [] ≡ []
  drop-nil zero = refl
  drop-nil (suc n) = refl

  pub take_part : (a b : ℕ) (xs : List A) → take a (take (a + b) xs) ≡ take a xs
  take_part zero b xs = refl
  take_part (suc a) b [] = rw (take-nil (suc a + b)) refl
  take_part (suc a) b (x ∷ xs) =
      let e : suc a + b ≡ suc (a + b) = omega arith in rw e (ap (λ r. x ∷ r) (take_part a b xs))

  pub drop_part : (a b : ℕ) (xs : List A) → drop a (take (a + b) xs) ≡ take b (drop a xs)
  drop_part zero b xs = let e : zero + b ≡ b = omega arith in rw e refl
  drop_part (suc a) b [] = rw (take-nil (suc a + b), take-nil b) refl
  drop_part (suc a) b (x ∷ xs) =
      let e : suc a + b ≡ suc (a + b) = omega arith in rw e (drop_part a b xs)

  pub drop-drop : (a b : ℕ) (xs : List A) → drop b (drop a xs) ≡ drop (a + b) xs
  drop-drop zero b xs = let e : zero + b ≡ b = omega arith in rw e refl
  drop-drop (suc a) b [] = rw (drop-nil b, drop-nil (suc a + b)) refl
  drop-drop (suc a) b (x ∷ xs) =
      let e : suc a + b ≡ suc (a + b) = omega arith in rw e (drop-drop a b xs)

  pub take_add : (a b : ℕ) (xs : List A) → take (a + b) xs ≡ take a xs ++ take b (drop a xs)
  take_add zero b xs = let e : zero + b ≡ b = omega arith in rw e refl
  take_add (suc a) b [] = rw (take-nil (suc a + b), take-nil b) refl
  take_add (suc a) b (x ∷ xs) =
      let e : suc a + b ≡ suc (a + b) = omega arith in rw e (ap (λ r. x ∷ r) (take_add a b xs))

module _ {ℓ κ} {A : Type ℓ} {B : Type κ} (g : A → B) where
  pub take-map : (n : ℕ) (xs : List A) → take n (map g xs) ≡ map g (take n xs)
  take-map zero xs = refl
  take-map (suc n) [] = refl
  take-map (suc n) (x ∷ xs) = ap (λ r. g x ∷ r) (take-map n xs)

  pub drop-map : (n : ℕ) (xs : List A) → drop n (map g xs) ≡ map g (drop n xs)
  drop-map zero xs = refl
  drop-map (suc n) [] = refl
  drop-map (suc n) (x ∷ xs) = drop-map n xs

pub words-take :
    (size n : ℕ) (bytes : List ℕ) → words size n (take (n * size) bytes) ≡ words size n bytes
unfolding words
words-take size zero bytes = refl
words-take size (suc n) bytes =
    let e : suc n * size ≡ size + n * size = omega arith in
    rw
      (
        e,
        take_part size (n * size) bytes,
        drop_part size (n * size) bytes,
        words-take size n (drop size bytes),
      )
      refl

pub take-words :
    (g size n : ℕ) (bytes : List ℕ) → take g (words size n bytes) ≡ words size (min g n) bytes
unfolding words
take-words zero size n bytes = let e : min zero n ≡ zero = omega arith in rw e refl
take-words (suc g) size zero bytes = let e : min (suc g) zero ≡ zero = omega arith in rw e refl
take-words (suc g) size (suc n) bytes =
    let e : min (suc g) (suc n) ≡ suc (min g n) = omega arith in
    rw e (ap (λ r. take size bytes ∷ r) (take-words g size n (drop size bytes)))

pub drop-words :
    (g size n : ℕ) (bytes : List ℕ)
    → drop g (words size n bytes) ≡ words size (n - min g n) (drop (min g n * size) bytes)
unfolding words
drop-words zero size n bytes =
    let e : min zero n ≡ zero = omega arith in
    let e' : n - zero ≡ n = omega arith in
    let e'' : zero * size ≡ zero = omega arith in rw (e, e', e'') refl
drop-words (suc g) size zero bytes =
    let e : zero - min (suc g) zero ≡ zero = omega arith in rw e refl
drop-words (suc g) size (suc n) bytes =
    let e : suc n - min (suc g) (suc n) ≡ n - min g n = omega arith in
    let e' : min (suc g) (suc n) * size ≡ size + min g n * size =
      (let m : min (suc g) (suc n) ≡ suc (min g n) = omega arith in rw m (omega arith)) in
    rw (e, e', ← drop-drop size (min g n * size) bytes) (drop-words g size n (drop size bytes))
