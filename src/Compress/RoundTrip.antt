-- ===== src/Compress/RoundTrip.antt =====
-- compress followed by uncompress, over any miniz that keeps its contract.
use letarette.Base.{
  ℕ, ◌+◌, ◌-◌, ◌*◌, ◌%◌, ◌^◌, ◌≤◌, ◌<◌, ◌≡◌, Bool, true, Option, some, List, ◌∷◌, ◌++◌, arith,
  length, ℤ, pos, to_int32,
}
use letarette.Compress.{
  ZResult, z_ok, blob, int, capacity, size_header, finish_compress, compress_func, uncompress_func,
  uncompress_payload, output_buffer, is_compressed_func, is_valid_header, finish_uncompress,
}
use letarette.Compress.Header.{read_prefix-size_header}

-- What the code relies on: miniz's documentation of the two calls, and the zlib stream header.
pub record IsZlib (deflate : ℕ → List ℕ → ZResult) (inflate : Option ℕ → ℕ → List ℕ → ZResult)
    : Type 0 where
  pub headed :
      (room : ℕ) (input out : List ℕ)
      → deflate room input ≡ z_ok out
      → (flags : ℕ) × (body : List ℕ) × (out ≡ 0x78 ∷ flags ∷ body)
        × ((0x78 * 256 + flags) % 31 ≡ 0)
  pub bounded : (room : ℕ) (input out : List ℕ) → deflate room input ≡ z_ok out → length out ≤ room
  pub restores :
      (room size : ℕ) (input out : List ℕ)
      → deflate room input ≡ z_ok out
      → length input ≤ size
      → inflate (some size) (length input) out ≡ z_ok input

module _ {deflate : ℕ → List ℕ → ZResult} {inflate : Option ℕ → ℕ → List ℕ → ZResult}
    (zlib : IsZlib deflate inflate) where
  is_valid_header-deflate :
      (room : ℕ) (input out : List ℕ)
      → deflate room input ≡ z_ok out
      → is_valid_header out ≡ some true
  unfolding is_valid_header
  is_valid_header-deflate room input out e =
      let (flags, body, shape, check) = zlib.headed room input out e in rw shape (ground arith)

  output_buffer-allocated :
      (malloc : ℤ → Bool) (n : ℕ)
      → n < 2 ^ 31 - 1
      → malloc (pos (n + 1)) ≡ true
      → output_buffer malloc n ≡ some (n + 1)
  unfolding output_buffer
  output_buffer-allocated malloc n small granted = ground arith

  -- An input of 1 to 2^31 - 2 bytes for which the allocations and the deflation succeed becomes a
  -- blob of the header and the deflated bytes; uncompress gives back the input from that blob, and
  -- iscompressed answers 1 for it.
  pub uncompress-compress :
      (malloc : ℤ → Bool) (input out : List ℕ)
      → 0 < length input
      → length input < 2 ^ 31 - 1
      → malloc (to_int32 (capacity (length input) + 1 + 5)) ≡ true
      → malloc (pos (length input + 1)) ≡ true
      → deflate (capacity (length input)) input ≡ z_ok out
      → (compress_func malloc deflate input ≡ blob (size_header (length input) ++ out))
        × (uncompress_func malloc inflate (size_header (length input) ++ out) ≡ blob input)
        × (is_compressed_func (size_header (length input) ++ out) ≡ int 1)
  unfolding compress_func finish_compress uncompress_func uncompress_payload is_compressed_func
      finish_uncompress
  uncompress-compress malloc input out some_bytes small room_in room_out e =
      let header = read_prefix-size_header (length input) out (omega arith) in
      let valid = is_valid_header-deflate (capacity (length input)) input out e in
      let buffer = output_buffer-allocated malloc (length input) small room_out in
      let whole =
        zlib.restores (capacity (length input)) (length input + 1) input out e (omega arith) in
      (
        rw (room_in, e),
        rw (header, valid, buffer, whole) (ground arith),
        rw (header, valid) (ground arith),
      )
