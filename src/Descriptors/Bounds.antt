-- ===== src/Descriptors/Bounds.antt =====
-- src/ams/descriptors.py: what the loops of `TensorDescriptor.__post_init__` let through.
use accumulative_matrix_swee.Prelude.{
  ℕ, ◌+◌, ◌≤◌, ◌≡◌, ◌↔◌, refl, List, [], ◌∷◌, All, length, arith, ltb, ◌==◌, not,
}
use accumulative_matrix_swee.Errors.{ok, raise_if, invalid_package, >>=-eq-ok}
use accumulative_matrix_swee.Checked.{nat, max_serialized_uint, checked_add}
use accumulative_matrix_swee.Checked.Laws.{checked_add-nat, checked_add-nat-eq_ok}
use accumulative_matrix_swee.Descriptors.Tensor.{
  ChunkDescriptor, TensorLayout, check_axes, check_chunks, check_layouts,
}

-- The box at an origin with an extent lies in a shape, axis by axis.
unfoldable pub IsBoxIn : List ℕ → List ℕ → List ℕ → Type 0
IsBoxIn (o ∷ os) (e ∷ es) (s ∷ ss) = (o + e ≤ s) × IsBoxIn os es ss
IsBoxIn [] [] [] = Unit
IsBoxIn _ _ _ = ⊥

unfoldable pub IsChunkIn : List ℕ → ChunkDescriptor → Type 0
IsChunkIn shape c = IsBoxIn c.logical_origin c.logical_extent shape

unfoldable pub IsLayoutOf : List ℕ → TensorLayout → Type 0
IsLayoutOf shape l = (length l.tile_shape ≡ length shape) × All (IsChunkIn shape) l.chunks

check_axes-eq_ok : (os es ss : List ℕ) → check_axes os es ss ≡ ok tt → IsBoxIn os es ss
unfolding check_axes IsBoxIn
check_axes-eq_ok (o ∷ os) (e ∷ es) (s ∷ ss) h =
    let (end, eend, h') = >>=-eq-ok (checked_add (nat o) (nat e)) _ h in
    let (_, fits, rest) = >>=-eq-ok (raise_if (ltb s end) invalid_package) _ h' in
    let (sum, _) = checked_add-nat-eq_ok o e eend in (ground arith, check_axes-eq_ok os es ss rest)
check_axes-eq_ok [] [] [] h = tt
check_axes-eq_ok [] [] (s ∷ ss) h = cc
check_axes-eq_ok [] (e ∷ es) ss h = cc
check_axes-eq_ok (o ∷ os) [] ss h = cc
check_axes-eq_ok (o ∷ os) (e ∷ es) [] h = cc

check_axes-IsBoxIn :
    (os es ss : List ℕ)
    → All (λ s. s ≤ max_serialized_uint) ss
    → IsBoxIn os es ss
    → check_axes os es ss ≡ ok tt
unfolding check_axes IsBoxIn
check_axes-IsBoxIn (o ∷ os) (e ∷ es) (s ∷ ss) small h =
    let rest = check_axes-IsBoxIn os es ss small.1 h.1 in
    rw (checked_add-nat o e (omega arith)) (ground arith)
check_axes-IsBoxIn [] [] [] small h = refl
check_axes-IsBoxIn [] [] (s ∷ ss) small h = absurd h
check_axes-IsBoxIn [] (e ∷ es) ss small h = absurd h
check_axes-IsBoxIn (o ∷ os) [] ss small h = absurd h
check_axes-IsBoxIn (o ∷ os) (e ∷ es) [] small h = absurd h

length-IsBoxIn : (os es ss : List ℕ) → IsBoxIn os es ss → length os ≡ length ss
unfolding IsBoxIn
length-IsBoxIn (o ∷ os) (e ∷ es) (s ∷ ss) h = let rest = length-IsBoxIn os es ss h.1 in omega arith
length-IsBoxIn [] [] [] h = refl
length-IsBoxIn [] [] (s ∷ ss) h = absurd h
length-IsBoxIn [] (e ∷ es) ss h = absurd h
length-IsBoxIn (o ∷ os) [] ss h = absurd h
length-IsBoxIn (o ∷ os) (e ∷ es) [] h = absurd h

check_chunks_iff :
    (shape : List ℕ) (chunks : List ChunkDescriptor)
    → All (λ s. s ≤ max_serialized_uint) shape
    → (check_chunks shape chunks ≡ ok tt) ↔ All (IsChunkIn shape) chunks
unfolding check_chunks IsChunkIn
check_chunks_iff shape [] small = (λ _. tt, λ _. refl)
check_chunks_iff shape (c ∷ cs) small =
    let rest = check_chunks_iff shape cs small in
    (
      λ h.
          let (_, _, h') =
            >>=-eq-ok (raise_if (not (length c.logical_origin == length shape)) invalid_package) _
              h in
          let (_, axes, h'') =
            >>=-eq-ok (check_axes c.logical_origin c.logical_extent shape) _ h' in
          (check_axes-eq_ok c.logical_origin c.logical_extent shape axes, rest.0 h''),
      λ h.
          let axes = check_axes-IsBoxIn c.logical_origin c.logical_extent shape small h.0 in
          let len = length-IsBoxIn c.logical_origin c.logical_extent shape h.0 in
          let tail = rest.1 h.1 in ground arith,
    )

-- For a shape of sizes up to 2^63 - 1, `check_layouts` returns exactly when each layout has a tile
-- of the shape's rank and each of its chunks is a box of that rank that ends, on every axis, within
-- the shape.
pub check_layouts_iff :
    (shape : List ℕ) (layouts : List TensorLayout)
    → All (λ s. s ≤ max_serialized_uint) shape
    → (check_layouts shape layouts ≡ ok tt) ↔ All (IsLayoutOf shape) layouts
unfolding check_layouts IsLayoutOf
check_layouts_iff shape [] small = (λ _. tt, λ _. refl)
check_layouts_iff shape (l ∷ ls) small =
    let rest = check_layouts_iff shape ls small in
    let chunks = check_chunks_iff shape l.chunks small in
    (
      λ h.
          let (_, rank, h') =
            >>=-eq-ok (raise_if (not (length l.tile_shape == length shape)) invalid_package) _ h in
          let (_, fits, h'') = >>=-eq-ok (check_chunks shape l.chunks) _ h' in
          ((ground arith, chunks.0 fits), rest.0 h''),
      λ h. let fits = chunks.1 h.0.1 in let tail = rest.1 h.1 in ground arith,
    )
