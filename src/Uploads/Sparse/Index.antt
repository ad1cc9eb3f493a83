-- ===== src/Uploads/Sparse/Index.antt =====
-- The index of a sparse file: where each range is in the file that is stored.
use cloudvelo.Prelude.{
  ℕ, List, [], ◌∷◌, ◌++◌, ◌+◌, ◌≤◌, Bool, true, false, if◌then◌else◌, length, take, drop, concat,
  All, ◌≡◌, refl, ap, sym, ◌∙◌, arith, append_assoc, append-nil, length-append, subst,
}
use cloudvelo.Uploads.Api.{Bytes, IndexRange}
use cloudvelo.Uploads.Sparse.{
  SparseRange, Inspected, inspection_start, file_length, index_range, inspect_range, inspect,
}

-- The index of ranges whose first stored byte has this offset.
abbrev pub index_from : ℕ → List SparseRange → List IndexRange
index_from n [] = []
index_from n (rng ∷ rest) = index_range n rng ∷ index_from (n + file_length rng) rest

abbrev pub stored_length : List SparseRange → ℕ
stored_length [] = 0
stored_length (rng ∷ rest) = file_length rng + stored_length rest

-- Some range is a hole.
abbrev pub has_hole : List SparseRange → Bool
has_hole [] = false
has_hole (rng ∷ rest) = if rng.is_sparse then true else has_hole rest

expected_size-step :
    (seen : Inspected) (rng : SparseRange)
    → (inspect_range seen rng).expected_size ≡ seen.expected_size + file_length rng
unfolding inspect_range file_length
expected_size-step seen rng = ground arith

pub inspect-index :
    (ranges : List SparseRange) (seen : Inspected)
    → (inspect seen ranges).index ≡ seen.index ++ index_from seen.expected_size ranges
unfolding inspect inspect_range
inspect-index [] seen = sym (append-nil seen.index)
inspect-index (rng ∷ rest) seen =
    inspect-index rest (inspect_range seen rng)
    ∙ append_assoc seen.index (index_range seen.expected_size rng ∷ []) _
    ∙ ap (λ n. seen.index ++ index_range seen.expected_size rng ∷ index_from n rest)
        (expected_size-step seen rng)

pub inspect-expected_size :
    (ranges : List SparseRange) (seen : Inspected)
    → (inspect seen ranges).expected_size ≡ seen.expected_size + stored_length ranges
unfolding inspect
inspect-expected_size [] seen = omega arith
inspect-expected_size (rng ∷ rest) seen =
    omega (arith, inspect-expected_size rest (inspect_range seen rng), expected_size-step seen rng)

-- An entry is within a file of `stored` bytes, which stand for `real` bytes.
abbrev pub IsWithin : ℕ → ℕ → IndexRange → Type 0
IsWithin stored real entry =
    (entry.file_offset + entry.file_length ≤ stored)
    × (entry.original_offset + entry.length ≤ real)
    × (entry.file_length ≤ entry.length)

real_size-grows :
    (seen : Inspected) (rng : SparseRange)
    → (seen.real_size ≤ (inspect_range seen rng).real_size)
      × (rng.offset + rng.length ≤ (inspect_range seen rng).real_size)
unfolding inspect_range
real_size-grows seen rng = (ground arith, ground arith)

inspect-grows :
    (ranges : List SparseRange) (seen : Inspected)
    → (seen.expected_size ≤ (inspect seen ranges).expected_size)
      × (seen.real_size ≤ (inspect seen ranges).real_size)
unfolding inspect
inspect-grows [] seen = (omega arith, omega arith)
inspect-grows (rng ∷ rest) seen =
    let (more, real) = inspect-grows rest (inspect_range seen rng) in
    (
      omega (arith, more, expected_size-step seen rng),
      omega (arith, real, (real_size-grows seen rng).0),
    )

file_length-le : (rng : SparseRange) → file_length rng ≤ rng.length
unfolding file_length
file_length-le rng = ground arith

entries-IsWithin :
    (ranges : List SparseRange) (seen : Inspected)
    → All
        (IsWithin (inspect seen ranges).expected_size (inspect seen ranges).real_size)
        (index_from seen.expected_size ranges)
unfolding inspect
entries-IsWithin [] seen = tt
entries-IsWithin (rng ∷ rest) seen =
    let next = inspect_range seen rng in
    let (more, real) = inspect-grows rest next in
    (
      (
        omega (arith, more, expected_size-step seen rng),
        omega (arith, real, (real_size-grows seen rng).1),
        file_length-le rng,
      ),
      subst
          (λ n.
            All (IsWithin (inspect next rest).expected_size (inspect next rest).real_size)
              (index_from n rest))
          (expected_size-step seen rng) (entries-IsWithin rest next),
    )

-- The entries of the index lie within the sizes: what an entry says of the stored file is within
-- the expected size, what it says of the original one is within the real size, and it stores no
-- more than it stands for.
pub index-IsWithin :
    (ranges : List SparseRange)
    → let seen = inspect inspection_start ranges in
      All (IsWithin seen.expected_size seen.real_size) seen.index
index-IsWithin ranges =
    subst
      (All (
        IsWithin (inspect inspection_start ranges).expected_size
          (inspect inspection_start ranges).real_size))
      (sym (inspect-index ranges inspection_start)) (entries-IsWithin ranges inspection_start)

-- The stored bytes at the place of each entry are those of its range.
abbrev pub IsLocated : Bytes → List IndexRange → List Bytes → Type 0
IsLocated stored [] [] = Unit
IsLocated stored [] (chunk ∷ chunks) = ⊥
IsLocated stored (entry ∷ entries) [] = ⊥
IsLocated stored (entry ∷ entries) (chunk ∷ chunks) =
    (take entry.file_length (drop entry.file_offset stored) ≡ chunk)
    × IsLocated stored entries chunks

-- Each chunk has the stored length of its range.
abbrev pub IsFull : List SparseRange → List Bytes → Type 0
IsFull [] [] = Unit
IsFull [] (chunk ∷ chunks) = ⊥
IsFull (rng ∷ rest) [] = ⊥
IsFull (rng ∷ rest) (chunk ∷ chunks) = (length chunk ≡ file_length rng) × IsFull rest chunks

module _ {A : Type 0} where
  drop-length : (xs ys : List A) → drop (length xs) (xs ++ ys) ≡ ys
  drop-length [] ys = refl
  drop-length (x ∷ xs) ys = drop-length xs ys

  take-length : (xs ys : List A) → take (length xs) (xs ++ ys) ≡ xs
  take-length [] ys = refl
  take-length (x ∷ xs) ys = ap (◌∷◌ x) (take-length xs ys)

pub index-IsLocated :
    (ranges : List SparseRange) (chunks : List Bytes) (front : Bytes)
    → IsFull ranges chunks
    → IsLocated (front ++ concat chunks) (index_from (length front) ranges) chunks
index-IsLocated [] [] front full = tt
index-IsLocated [] (chunk ∷ chunks) front full = absurd full
index-IsLocated (rng ∷ rest) [] front full = absurd full
index-IsLocated (rng ∷ rest) (chunk ∷ chunks) front (same, full) = (
  ap (take (file_length rng)) (drop-length front (chunk ++ concat chunks))
      ∙ ap (λ n. take n (chunk ++ concat chunks)) (sym same)
      ∙ take-length chunk (concat chunks),
  subst (λ l. IsLocated l (index_from (length front + file_length rng) rest) chunks)
      (append_assoc front chunk (concat chunks))
      (subst (λ n. IsLocated ((front ++ chunk) ++ concat chunks) (index_from n rest) chunks)
        (length-append front chunk ∙ ap (λ n. length front + n) same)
        (index-IsLocated rest chunks (front ++ chunk) full)),
)
