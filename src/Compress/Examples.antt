-- ===== src/Compress/Examples.antt =====
-- Runs of the compression functions, and their theorems at concrete inputs. `store` stands in for
-- miniz: a zlib header and the input as it is.
use letarette.Base.{
  ℕ, ◌+◌, ◌≡◌, refl, ◌≢◌, Bool, false, not, Option, some, List, [], ◌∷◌, ◌++◌, arith, leb, ◌==◌,
  if◌then◌else◌, length, ℤ, pos, negsuc,
}
use letarette.Compress.{
  ZResult, z_ok, z_other, z_data_error, blob, int, fault, capacity, size_header, size_groups,
  skip_zeros, mark_last, finish_compress, compress_func, uncompress_func, is_compressed_func,
  read_prefix,
}
use letarette.Compress.Header.{read_prefix-size_header}
use letarette.Compress.RoundTrip.{IsZlib, uncompress-compress}
use letarette.Compress.Unpacked.{uncompress-truncated, uncompress-compress_empty}

abbrev store : ℕ → List ℕ → ZResult
store room input = if leb (length input + 2) room then z_ok (0x78 ∷ 0x9c ∷ input) else z_other 5

abbrev load : Option ℕ → ℕ → List ℕ → ZResult
load (some size) n (_ ∷ _ ∷ input) = if leb n size then z_ok input else z_other 5
load _ _ _ = z_data_error

abbrev granted : ℤ → Bool
granted (pos n) = not (n == 0)
granted (negsuc n) = false

abbrev text : List ℕ
text = 104 ∷ 101 ∷ 106 ∷ []

store-IsZlib : IsZlib store load
store-IsZlib = record {
  headed = λ room input out e. (0x9c, input, ground arith, refl);
  bounded = λ room input out e. ground arith;
  restores = λ room size input out e h. ground arith;
}

compress_300 : size_header 300 ≡ 0xf8 ∷ 0x02 ∷ 0xac ∷ []
unfolding size_header size_groups skip_zeros mark_last
compress_300 = refl

read_prefix-size_header_example : read_prefix (size_header 300 ++ text) ≡ (300, text)
read_prefix-size_header_example = read_prefix-size_header 300 text (omega arith)

uncompress-compress_example :
    (compress_func granted store text ≡ blob (size_header 3 ++ 0x78 ∷ 0x9c ∷ text))
    × (uncompress_func granted load (size_header 3 ++ 0x78 ∷ 0x9c ∷ text) ≡ blob text)
    × (is_compressed_func (size_header 3 ++ 0x78 ∷ 0x9c ∷ text) ≡ int 1)
unfolding capacity
uncompress-compress_example =
    uncompress-compress store-IsZlib granted text (0x78 ∷ 0x9c ∷ text) (omega arith) (omega arith)
      refl refl refl

uncompress-truncated_example :
    (uncompress_func granted load (size_header 3) ≡ fault)
    × (is_compressed_func (size_header 3) ≡ fault)
    × (uncompress_func granted load (size_header 3 ++ 0x78 ∷ []) ≡ fault)
    × (is_compressed_func (size_header 3 ++ 0x78 ∷ []) ≡ fault)
uncompress-truncated_example = uncompress-truncated granted load 3 (omega arith) (omega arith)

abbrev packed_empty : List ℕ
packed_empty = 0xf8 ∷ 0x80 ∷ 0x78 ∷ 0x9c ∷ []

uncompress-compress_empty_example :
    (uncompress_func granted load packed_empty ≡ blob packed_empty)
    × (is_compressed_func packed_empty ≡ int 0)
    × (packed_empty ≢ [])
unfolding size_header size_groups skip_zeros mark_last compress_func finish_compress capacity
uncompress-compress_empty_example = uncompress-compress_empty granted load store packed_empty refl
