-- ===== src/Auth/Chunked.antt =====
-- src/auth/chunked.rs: the `aws-chunked` decoder. The pipe to the handler ends when the task ends,
-- whatever its result, so the decoder is the list of bytes that the handler reads.
pub mod Framing
use kerplace.Base.{
  Text, ℕ, zero, suc, ◌≡◌, refl, Bool, true, false, ◌||◌, if◌then◌else◌, List, [], ◌∷◌, ◌++◌,
  Option, none, some, ◌==◌, ◌^◌, ◌-◌, length, take, drop, split, trim, trim_end_matches, from_utf8,
  parse_unsigned, is_empty,
}

-- `read_line`: the bytes up to and with the first line feed, and the rest
unfoldable pub read_line : List ℕ → List ℕ × List ℕ
read_line [] = ([], [])
read_line (b ∷ bs) =
    let rest = read_line bs in if b == 10 then (b ∷ [], bs) else (b ∷ rest.0, rest.1)

abbrev first_piece : List Text → Text
first_piece [] = []
first_piece (p ∷ ps) = p

-- the hex value before any `;chunk-signature=...`
unfoldable pub size_hex : Text → Text
size_hex line = trim (first_piece (split b';' (trim_end_matches (λ c. c == 13 || c == 10) line)))

-- What one header line says. `fail` is an `std::io::Error`.
pub data ChunkHeader : Type 0 where
  fail : ChunkHeader
  skip : ChunkHeader
  final : ChunkHeader
  chunk : ℕ → ChunkHeader

abbrev header_of_size : Option ℕ → ChunkHeader
header_of_size none = fail
header_of_size (some size) = if size == 0 then final else chunk size

abbrev header_of_text : Option Text → ChunkHeader
header_of_text none = fail
header_of_text (some line) =
    if is_empty (size_hex line)
    then skip
    else header_of_size (parse_unsigned 16 (2 ^ 64 - 1) (size_hex line))

unfoldable pub chunk_header : List ℕ → ChunkHeader
chunk_header line = header_of_text (from_utf8 line)

-- The loop of `pump`: the bytes written, and whether it ended without an error. `none` is that the
-- fuel ran out.
unfoldable pub pump : ℕ → List ℕ → Option (List ℕ × Bool)
pump zero bytes = none
pump (suc fuel) bytes =
    let line = (read_line bytes).0 in
    let rest = (read_line bytes).1 in
    elim (is_empty line) [
      | true ↦ some ([], true)
      | false ↦ elim (chunk_header line) [
        | fail ↦ some ([], false)
        | skip ↦ pump fuel rest
        | final ↦ some ([], true)
        | chunk size ↦ elim (pump fuel (drop 2 (drop size rest))) [
          | none ↦ none
          | some (out, done) ↦ some (take size rest ++ out, done)
        ]
      ]
    ]

abbrev written : Option (List ℕ × Bool) → List ℕ
written none = []
written (some (out, done)) = out

-- `decode_aws_chunked`: what the handler reads
unfoldable pub decode_aws_chunked : List ℕ → List ℕ
decode_aws_chunked bytes = written (pump (suc (length bytes)) bytes)
