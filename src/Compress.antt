-- ===== src/Compress.antt =====
-- internal/compress/compress.c: the SQL functions compress, uncompress and iscompressed.
-- A blob is the list of its bytes, and `&pIn[i]` with `nIn - i` is the list of the bytes left.
-- miniz and the allocator are parameters: `deflate` is miniz's compress, `inflate` its uncompress.
pub mod Size
pub mod Header
pub mod RoundTrip
pub mod Unpacked
pub mod Registration
mod Examples
use letarette.Base.{
  ℕ, zero, suc, ◌+◌, ◌-◌, ◌*◌, ◌/◌, ◌%◌, ◌^◌, bit_and, bit_or, Bool, true, false, ◌&&◌, Option,
  none, some, List, [], ◌∷◌, ◌++◌, length, ◌==◌, if◌then◌else◌, ℤ, pos_part, to_int32, not,
}
use letarette.Sqlite.{Rc, ok, is_ok}

-- What the C code distinguishes in miniz's answers; `z_param_error` is -10000.
pub data ZResult : Type 0 where
  z_ok : List ℕ → ZResult
  z_data_error z_stream_error z_param_error : ZResult
  z_other : ℕ → ZResult

-- What a function hands to SQLite. `fault` is no such answer: the C code reads past the end of its
-- input or writes through a null pointer.
pub data SqlResult : Type 0 where
  blob : List ℕ → SqlResult
  int : ℕ → SqlResult
  error : SqlResult
  fault : SqlResult

abbrev pub add32 : ℕ → ℕ → ℕ
add32 a b = (a + b) % 2 ^ 32

-- `nOut`, the room that the compressed bytes may take.
pub capacity : ℕ → ℕ
capacity n = add32 (add32 13 n) (add32 n 999 / 1000)

-- x[i]
abbrev size_group : ℕ → ℕ → ℕ
size_group n i = bit_and (n / 2 ^ (7 * (4 - i))) 0x7f

pub size_groups : ℕ → List ℕ
size_groups n =
    size_group n 0 ∷ size_group n 1 ∷ size_group n 2 ∷ size_group n 3 ∷ size_group n 4 ∷ []

-- The search for the first group to write; the last one is written even if it is 0.
pub skip_zeros : List ℕ → List ℕ
skip_zeros (x ∷ y ∷ rest) = if x == 0 then skip_zeros (y ∷ rest) else x ∷ y ∷ rest
skip_zeros xs = xs

-- `pOut[j - 1] |= 0x80`
pub mark_last : List ℕ → List ℕ
mark_last [] = []
mark_last (x ∷ []) = bit_or x 0x80 ∷ []
mark_last (x ∷ y ∷ rest) = x ∷ mark_last (y ∷ rest)

pub size_header : ℕ → List ℕ
size_header n = 0xf8 ∷ mark_last (skip_zeros (size_groups n))

-- Lets a proof or a test compute with the header by one name.
finish_compress : List ℕ → ZResult → SqlResult
finish_compress header (z_ok out) = blob (header ++ out)
finish_compress header _ = error

-- The result of the allocation is not tested before `pOut[0]` is written.
pub compress_func : (ℤ → Bool) → (ℕ → List ℕ → ZResult) → List ℕ → SqlResult
compress_func malloc deflate input =
    let n = length input in
    if malloc (to_int32 (capacity n + 1 + 5))
    then finish_compress (size_header n) (deflate (capacity n) input)
    else fault

-- `none` is a read past the end of the input.
pub is_valid_header : List ℕ → Option Bool
is_valid_header [] = none
is_valid_header (d0 ∷ []) = if d0 == 0x78 then none else some false
is_valid_header (d0 ∷ d1 ∷ _) = some ((d0 == 0x78) && ((d0 * 256 + d1) % 31 == 0))

-- The loop over at most `rounds` bytes, with the size so far and the bytes left.
pub read_size : ℕ → List ℕ → ℕ → ℕ × List ℕ
read_size zero bytes size = (size, bytes)
read_size (suc rounds) [] size = (size, [])
read_size (suc rounds) (b ∷ bytes) size =
    let size' = bit_or (size * 2 ^ 7 % 2 ^ 64) (bit_and b 0x7f) in
    let more = read_size rounds bytes size' in if bit_and b 0x80 == 0 then more else (size', bytes)

-- `i` is not set where the magic byte is missing, and is not read there either.
pub read_prefix : List ℕ → ℕ × List ℕ
read_prefix [] = (0, [])
read_prefix (b ∷ bytes) = if b == 0xf8 then read_size 5 bytes 0 else (0, [])

pub finish_uncompress : List ℕ → ZResult → SqlResult
finish_uncompress input (z_ok out) = blob out
finish_uncompress input z_data_error = blob input
finish_uncompress input z_stream_error = blob input
finish_uncompress input z_param_error = blob input
finish_uncompress input (z_other code) = error

-- `sqlite3_malloc(nOut + 1)`: its argument is an `int`, and `none` is a null pointer.
pub output_buffer : (ℤ → Bool) → ℕ → Option ℕ
output_buffer malloc n =
    let size = to_int32 (n + 1) in if malloc size then some (pos_part size) else none

pub uncompress_payload :
    (ℤ → Bool) → (Option ℕ → ℕ → List ℕ → ZResult) → List ℕ → ℕ → List ℕ → Option Bool → SqlResult
uncompress_payload malloc inflate input n payload none = fault
uncompress_payload malloc inflate input n payload (some false) = blob input
uncompress_payload malloc inflate input n payload (some true) =
    finish_uncompress input (inflate (output_buffer malloc n) n payload)

pub uncompress_func : (ℤ → Bool) → (Option ℕ → ℕ → List ℕ → ZResult) → List ℕ → SqlResult
uncompress_func malloc inflate input =
    let (n, payload) = read_prefix input in
    if n == 0
    then blob input
    else uncompress_payload malloc inflate input n payload (is_valid_header payload)

truth : Option Bool → SqlResult
truth none = fault
truth (some false) = int 0
truth (some true) = int 1

pub is_compressed_func : List ℕ → SqlResult
unfolding truth
is_compressed_func input =
    let (n, payload) = read_prefix input in
    if n == 0 then int 0 else truth (is_valid_header payload)

pub data SqlFunction : Type 0 where
  compress uncompress iscompressed : SqlFunction

-- `create` is sqlite3_create_function on this connection; the list is the calls made, in order.
pub compress_init : (SqlFunction → Rc) → Rc × List SqlFunction
compress_init create =
    if not (is_ok (create compress))
    then (create compress, compress ∷ [])
    else if not (is_ok (create uncompress))
    then (create uncompress, compress ∷ uncompress ∷ [])
    else (create iscompressed, compress ∷ uncompress ∷ iscompressed ∷ [])
