-- ===== src/Compress/Unpacked.antt =====
-- uncompress and iscompressed on blobs that compress did not write, or wrote and were cut.
use letarette.Base.{ℕ, ◌^◌, ◌<◌, ◌≡◌, ◌≢◌, Bool, Option, List, [], ◌∷◌, ◌++◌, append-nil, arith, ℤ}
use letarette.Compress.{
  ZResult, blob, int, fault, size_header, compress_func, uncompress_func, uncompress_payload,
  is_compressed_func, is_valid_header, read_prefix,
}
use letarette.Compress.Header.{read_prefix-size_header, compress_func-blob}

module _ (malloc : ℤ → Bool) (inflate : Option ℕ → ℕ → List ℕ → ZResult) where
  -- A blob that does not begin with the byte 0xf8 is returned as it is, and is not compressed.
  pub uncompress-plain :
      (b : ℕ) (rest : List ℕ)
      → b ≢ 0xf8
      → (uncompress_func malloc inflate (b ∷ rest) ≡ blob (b ∷ rest))
        × (is_compressed_func (b ∷ rest) ≡ int 0)
  unfolding uncompress_func is_compressed_func read_prefix
  uncompress-plain b rest h = ground arith

  -- What compress writes for a non-empty input, cut behind the size or behind the first byte of the
  -- zlib stream, makes uncompress and iscompressed read past the end.
  pub uncompress-truncated :
      (n : ℕ)
      → 0 < n
      → n < 2 ^ 32
      → (uncompress_func malloc inflate (size_header n) ≡ fault)
        × (is_compressed_func (size_header n) ≡ fault)
        × (uncompress_func malloc inflate (size_header n ++ 0x78 ∷ []) ≡ fault)
        × (is_compressed_func (size_header n ++ 0x78 ∷ []) ≡ fault)
  unfolding uncompress_func uncompress_payload is_compressed_func is_valid_header
  uncompress-truncated n some_bytes small =
      let cut = rw append-nil at (read_prefix-size_header n [] small) in
      let longer = read_prefix-size_header n (0x78 ∷ []) small in
      (
        rw cut (ground arith),
        rw cut (ground arith),
        rw longer (ground arith),
        rw longer (ground arith),
      )

  -- The empty input is not restored: whatever blob compress makes of it, uncompress returns that
  -- blob as it is, iscompressed answers 0 for it, and it is not empty.
  pub uncompress-compress_empty :
      (deflate : ℕ → List ℕ → ZResult) (packed : List ℕ)
      → compress_func malloc deflate [] ≡ blob packed
      → (uncompress_func malloc inflate packed ≡ blob packed)
        × (is_compressed_func packed ≡ int 0)
        × (packed ≢ [])
  unfolding uncompress_func is_compressed_func compress_func
  uncompress-compress_empty deflate packed e =
      let (out, _, shape) = compress_func-blob malloc deflate [] packed e in
      let zero_size = read_prefix-size_header 0 out (omega arith) in
      (rw (shape, zero_size), rw (shape, zero_size), λ none_left. unfold size_header in cc)
