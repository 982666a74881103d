-- ===== src/Compress/Header.antt =====
-- The magic byte and the size in front of the compressed bytes.
use letarette.Base.{
  ℕ, suc, ◌+◌, ◌^◌, ◌≤◌, ◌<◌, ◌≡◌, refl, ap, Bool, List, [], ◌∷◌, ◌++◌, arith, length,
  length-append, ℤ,
}
use letarette.Compress.{
  ZResult, z_ok, z_data_error, z_stream_error, z_param_error, z_other, blob, capacity,
  finish_compress, compress_func, size_header, size_groups, skip_zeros, mark_last, read_prefix,
}
use letarette.Compress.Size.{read_size-groups, few_groups}

-- The reader finds the size that the writer wrote, and stops right behind it, for every size that
-- an unsigned int holds and whatever bytes follow.
pub read_prefix-size_header :
    (n : ℕ) (rest : List ℕ) → n < 2 ^ 32 → read_prefix (size_header n ++ rest) ≡ (n, rest)
unfolding read_prefix size_header
read_prefix-size_header n rest h = read_size-groups n rest (omega arith)

finish_compress-blob :
    (header packed : List ℕ) (result : ZResult)
    → finish_compress header result ≡ blob packed
    → (out : List ℕ) × (result ≡ z_ok out) × (packed ≡ header ++ out)
unfolding finish_compress
finish_compress-blob header packed (z_ok out) e = (out, refl, cc)
finish_compress-blob header packed z_data_error e = cc
finish_compress-blob header packed z_stream_error e = cc
finish_compress-blob header packed z_param_error e = cc
finish_compress-blob header packed (z_other code) e = cc

-- A blob that compress returns is the header and what miniz wrote.
pub compress_func-blob :
    (malloc : ℤ → Bool) (deflate : ℕ → List ℕ → ZResult) (input packed : List ℕ)
    → compress_func malloc deflate input ≡ blob packed
    → (out : List ℕ) × (deflate (capacity (length input)) input ≡ z_ok out)
      × (packed ≡ size_header (length input) ++ out)
unfolding compress_func
compress_func-blob malloc deflate input packed e =
    finish_compress-blob _ packed _ (ground (arith, e))

length-mark_last : (groups : List ℕ) → length (mark_last groups) ≡ length groups
unfolding mark_last
length-mark_last [] = refl
length-mark_last (x ∷ []) = refl
length-mark_last (x ∷ y ∷ rest) = ap suc (length-mark_last (y ∷ rest))

length-size_header : (n : ℕ) → length (size_header n) ≤ 6
unfolding size_header
length-size_header n = omega (arith, length-mark_last (skip_zeros (size_groups n)), few_groups n)

-- If miniz keeps to the room that it is given, the blob that compress returns fits the memory that
-- was allocated for it: `nOut + 1 + 5` bytes.
pub length-compress :
    (malloc : ℤ → Bool) (deflate : ℕ → List ℕ → ZResult) (input packed : List ℕ)
    → ((room : ℕ) (x out : List ℕ) → deflate room x ≡ z_ok out → length out ≤ room)
    → compress_func malloc deflate input ≡ blob packed
    → length packed ≤ capacity (length input) + 1 + 5
length-compress malloc deflate input packed bounded e =
    let (out, wrote, shape) = compress_func-blob malloc deflate input packed e in
    rw (shape, length-append)
      (omega (arith, length-size_header (length input), bounded _ input out wrote))
