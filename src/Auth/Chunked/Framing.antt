-- ===== src/Auth/Chunked/Framing.antt =====
-- The chunk framing that src/auth/chunked.rs takes off a body.
use kerplace.Base.{
  ℕ, zero, suc, ◌≡◌, ◌≢◌, refl, ap, ◌∙◌, Bool, true, false, List, [], ◌∷◌, ◌++◌, Option, none, some,
  ◌==◌, ◌≤◌, ◌<◌, arith, length, take, drop, length-append, length-drop, take_append, drop_append,
  is_empty,
}
use kerplace.Auth.Chunked.{read_line, fail, final, chunk, chunk_header, pump, decode_aws_chunked}

-- A header line: bytes without a line feed, and the line feed.
unfoldable pub header_line : List ℕ → List ℕ
header_line [] = 10 ∷ []
header_line (b ∷ bs) = b ∷ header_line bs

unfoldable pub IsLine : List ℕ → Type 0
IsLine [] = 0 ≤ 0
IsLine (b ∷ bs) = ((b == 10) ≡ false) × IsLine bs

read_line-header_line :
    (l rest : List ℕ) → IsLine l → read_line (header_line l ++ rest) ≡ (header_line l, rest)
unfolding read_line header_line IsLine
read_line-header_line [] rest h = refl
read_line-header_line (b ∷ l) rest h = ground (arith, read_line-header_line l rest h.1)

-- A chunk as it is sent: the text of its header line, and its bytes.
pub record Frame : Type 0 where
  pub line : List ℕ
  pub bytes : List ℕ

unfoldable pub IsFrame : Frame → Type 0
IsFrame f = IsLine f.line × (chunk_header (header_line f.line) ≡ chunk (length f.bytes))

unfoldable pub AreFrames : List Frame → Type 0
AreFrames [] = 0 ≤ 0
AreFrames (f ∷ fs) = IsFrame f × AreFrames fs

-- The frames on the wire, and what follows them.
unfoldable pub wire : List Frame → List ℕ → List ℕ
wire [] tail = tail
wire (f ∷ fs) tail = header_line f.line ++ (f.bytes ++ (13 ∷ 10 ∷ wire fs tail))

unfoldable pub payload : List Frame → List ℕ
payload [] = []
payload (f ∷ fs) = f.bytes ++ payload fs

length-read_line : (b : ℕ) (bs : List ℕ) → length (read_line (b ∷ bs)).1 ≤ length bs
unfolding read_line
length-read_line b [] = ground arith
length-read_line b (c ∷ bs) = ground (arith, length-read_line c bs)

drop_two : (size : ℕ) (xs : List ℕ) → length (drop 2 (drop size xs)) ≤ length xs
drop_two size xs = omega (arith, length-drop 2 (drop size xs), length-drop size xs)

-- Fuel above the body's length is enough: the loop always ends.
pub pump_ends : (fuel : ℕ) (bytes : List ℕ) → length bytes < fuel → pump fuel bytes ≢ none
unfolding pump
pump_ends zero bytes h = absurd (omega arith)
pump_ends (suc fuel) [] h = unfold read_line in ground arith
pump_ends (suc fuel) (b ∷ bs) h =
    let rest = (read_line (b ∷ bs)).1 in
    let shorter = length-read_line b bs in
    let skipping : pump fuel rest ≢ none = pump_ends fuel rest (omega arith) in
    let chunking = (λ (size : ℕ).
      pump_ends fuel (drop 2 (drop size rest)) (omega (arith, drop_two size rest))) in
    grind (arith, skipping, chunking)

not_empty : (l : List ℕ) → is_empty (header_line l) ≡ false
unfolding header_line
not_empty [] = refl
not_empty (b ∷ l) = refl

abbrev in_front : List ℕ → Option (List ℕ × Bool) → Option (List ℕ × Bool)
in_front bytes none = none
in_front bytes (some (out, done)) = some (bytes ++ out, done)

-- One turn of the loop, by what the header line says.
pump_chunk :
    (fuel : ℕ) (bytes line rest : List ℕ) (size : ℕ)
    → read_line bytes ≡ (line, rest)
    → is_empty line ≡ false
    → chunk_header line ≡ chunk size
    → pump (suc fuel) bytes ≡ in_front (take size rest) (pump fuel (drop 2 (drop size rest)))
unfolding pump
pump_chunk fuel bytes line rest size r e c = ground arith

pump_final :
    (fuel : ℕ) (bytes line rest : List ℕ)
    → read_line bytes ≡ (line, rest)
    → is_empty line ≡ false
    → chunk_header line ≡ final
    → pump (suc fuel) bytes ≡ some ([], true)
unfolding pump
pump_final fuel bytes line rest r e c = ground arith

pump_fail :
    (fuel : ℕ) (bytes line rest : List ℕ)
    → read_line bytes ≡ (line, rest)
    → is_empty line ≡ false
    → chunk_header line ≡ fail
    → pump (suc fuel) bytes ≡ some ([], false)
unfolding pump
pump_fail fuel bytes line rest r e c = ground arith

pump_frame :
    (fuel : ℕ) (f : Frame) (more : List ℕ)
    → IsFrame f
    → pump (suc fuel) (header_line f.line ++ (f.bytes ++ (13 ∷ 10 ∷ more)))
      ≡ in_front f.bytes (pump fuel more)
unfolding IsFrame
pump_frame fuel f more h =
    let sent = f.bytes ++ (13 ∷ 10 ∷ more) in
    let step =
      pump_chunk fuel (header_line f.line ++ sent) (header_line f.line) sent (length f.bytes)
        (read_line-header_line f.line sent h.0) (not_empty f.line) h.1 in
    step ∙ rw (take_append f.bytes (13 ∷ 10 ∷ more), drop_append f.bytes (13 ∷ 10 ∷ more))

-- What may follow the frames: the end of the body, or a header line with the size zero or with no
-- size that can be read, and then anything.
pub data Tail : List ℕ → Type 0 where
  cut : Tail []
  closing :
      (l rest : List ℕ)
      → IsLine l
      → chunk_header (header_line l) ≡ final
      → Tail (header_line l ++ rest)
  malformed :
      (l rest : List ℕ)
      → IsLine l
      → chunk_header (header_line l) ≡ fail
      → Tail (header_line l ++ rest)

-- The end as the task sees it; the handler does not.
unfoldable pub is_clean : {tail : List ℕ} → Tail tail → Bool
is_clean cut = true
is_clean (closing l rest h e) = true
is_clean (malformed l rest h e) = false

pump-Tail :
    (fuel : ℕ) {tail : List ℕ} (t : Tail tail) → pump (suc fuel) tail ≡ some ([], is_clean t)
unfolding pump is_clean
pump-Tail fuel cut = unfold read_line in refl
pump-Tail fuel (closing l rest h e) =
    pump_final _ _ _ rest (read_line-header_line l rest h) (not_empty l) e
pump-Tail fuel (malformed l rest h e) =
    pump_fail _ _ _ rest (read_line-header_line l rest h) (not_empty l) e

length_frame :
    (f : Frame) (more : List ℕ)
    → length more < length (header_line f.line ++ (f.bytes ++ (13 ∷ 10 ∷ more)))
length_frame f more = omega (
  arith,
  length-append (header_line f.line) (f.bytes ++ (13 ∷ 10 ∷ more)),
  length-append f.bytes (13 ∷ 10 ∷ more),
)

pump-wire :
    (fuel : ℕ) (fs : List Frame) {tail : List ℕ} (t : Tail tail)
    → AreFrames fs
    → length (wire fs tail) < fuel
    → pump fuel (wire fs tail) ≡ some (payload fs, is_clean t)
unfolding wire payload AreFrames
pump-wire zero fs t a h = absurd (omega arith)
pump-wire (suc fuel) [] t a h = pump-Tail fuel t
pump-wire (suc fuel) (f ∷ fs) {tail} t a h =
    let shorter : length (wire fs tail) < fuel = omega (arith, length_frame f (wire fs tail)) in
    pump_frame fuel f (wire fs tail) a.0 ∙ ap (in_front f.bytes) (pump-wire fuel fs t a.1 shorter)

-- The body that a handler reads is the bytes of the frames in order, each after a header line that
-- gives its size, whatever signature the line carries. This is so whether the frames end with the
-- closing line, with a line that is no size or with the end of the body: the handler cannot tell a
-- body that was cut short between frames from a whole one.
pub decode_aws_chunked-wire :
    (fs : List Frame) {tail : List ℕ} (t : Tail tail)
    → AreFrames fs
    → decode_aws_chunked (wire fs tail) ≡ payload fs
unfolding decode_aws_chunked
decode_aws_chunked-wire fs {tail} t a =
    rw (pump-wire (suc (length (wire fs tail))) fs t a (omega arith))
