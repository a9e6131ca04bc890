-- ===== src/Codecs/Floats.antt =====
-- Python's `float` and the FP32 packing of `struct`, as the codecs use them: the type, the operations
-- and the laws are parameters of the model.
use accumulative_matrix_swee.Prelude.{ℕ, ◌≡◌, Bool, true, false, Option, some, List, length}
use accumulative_matrix_swee.Prelude.Int.{ℤ}

pub record Floats : Type 1 where
  pub F : Type 0
  pub zero : F
  -- `a < b`, `math.isfinite(a)`, `abs(a)`
  pub less : F → F → Bool
  pub is_finite : F → Bool
  pub abs : F → F
  -- `a + b`, `a / b`, `a / float(n)`, `a * n`
  pub add : F → F → F
  pub div : F → F → F
  pub div_int : F → ℕ → F
  pub mul_int : F → ℤ → F
  -- `math.floor(a + 0.5)` of a nonnegative a
  pub floor_half : F → ℕ
  -- `struct.pack("<f", a)`, `none` for its OverflowError, and `struct.unpack("<f", …)`
  pub pack : F → Option (List ℕ)
  pub unpack : List ℕ → F
  -- `struct.unpack("<e", …)`, and `-a`
  pub unpack_half : List ℕ → F
  pub neg : F → F

-- What the codecs rely on, as IEEE 754 and the `struct` module document it.
pub record IsIeee (f : Floats) : Type 0 where
  pub length-pack : (x : f.F) (bs : List ℕ) → f.pack x ≡ some bs → length bs ≡ 4
  -- packing what was unpacked from a packing changes no byte
  pub pack-unpack : (x : f.F) (bs : List ℕ) → f.pack x ≡ some bs → f.pack (f.unpack bs) ≡ some bs
  -- the packing of a finite number is finite, that of a nonnegative one nonnegative
  pub finite-pack :
      (x : f.F) (bs : List ℕ)
      → f.pack x ≡ some bs
      → f.is_finite x ≡ true
      → f.is_finite (f.unpack bs) ≡ true
  pub nonneg-pack :
      (x : f.F) (bs : List ℕ)
      → f.pack x ≡ some bs
      → f.less x f.zero ≡ false
      → f.less (f.unpack bs) f.zero ≡ false
  pub finite-zero : f.is_finite f.zero ≡ true
  pub unpack-pack_zero : (bs : List ℕ) → f.pack f.zero ≡ some bs → f.unpack bs ≡ f.zero
  pub nonneg-zero : f.less f.zero f.zero ≡ false
  pub finite-abs : (x : f.F) → f.is_finite x ≡ true → f.is_finite (f.abs x) ≡ true
  pub nonneg-abs : (x : f.F) → f.is_finite x ≡ true → f.less (f.abs x) f.zero ≡ false
  pub finite-div_int : (x : f.F) (n : ℕ) → f.is_finite x ≡ true → f.is_finite (f.div_int x n) ≡ true
  pub nonneg-div_int :
      (x : f.F) (n : ℕ) → f.less x f.zero ≡ false → f.less (f.div_int x n) f.zero ≡ false
  pub nonneg-add :
      (x y : f.F)
      → f.less x f.zero ≡ false
      → f.less y f.zero ≡ false
      → f.less (f.add x y) f.zero ≡ false
