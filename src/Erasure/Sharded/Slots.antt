-- ===== src/Erasure/Sharded/Slots.antt =====
-- What the drives give back of the shards of one block.
use kerplace.Base.{
  Text, ℕ, zero, suc, ◌≡◌, refl, ap, sym, subst, ◌∙◌, ◌+◌, ◌<◌, ◌≤◌, Bool, true, false, ◌&&◌, ◌⊎◌,
  inl, inr, Option-cases, Bool-cases, if◌then◌else◌, List, [], ◌∷◌, ◌++◌, map, Option, none, some,
  unwrap_or, length, take, drop, get_elem?, text_eq, text_eq_iff, text_eq_refl, arith,
  length-append, take_append_of, drop_append_of,
}
use mathlib.Core.List.{append_assoc}
use kerplace.Erasure.Drives.{Drive}
use kerplace.Erasure.Codec.{Shard, Survives, present, concat}
use kerplace.Erasure.Sharded.{
  shard_at, column, part_file, checksums_of, read_at, checksum_at, verified, read_slots,
}

-- Whether a drive can be reached and its file is the one that was written.
unfoldable pub is_intact : List ℕ → Drive → Bool
unfolding text_eq
is_intact part d = elim d.current.part [ none ↦ false | some p ↦ d.up && text_eq p part ]

-- The number of such drives, from an index on.
unfoldable pub intact : List (List Shard) → ℕ → List Drive → ℕ
unfolding is_intact part_file
intact rows d [] = 0
intact rows d (drive ∷ drives) =
    let rest = intact rows (d + 1) drives in
    if is_intact (part_file d rows) drive then suc rest else rest

sum_middle :
    (checksum : Shard → Text) (d : ℕ) (pre post : List (List Shard)) (row : List Shard)
    → get_elem? (map checksum (column d (pre ++ (row ∷ post)))) (length pre)
      ≡ some (checksum (shard_at d row))
sum_middle checksum d [] post row = refl
sum_middle checksum d (r ∷ pre) post row = sum_middle checksum d pre post row

is_intact_lem :
    (part : List ℕ) (d : Drive)
    → is_intact part d ≡ true
    → (d.current.part ≡ some part) × (d.up ≡ true)
unfolding is_intact
is_intact_lem part d h = elim (Option-cases d.current.part) [
  | inl gone ↦ absurd (ground (arith, gone))
  | inr (p, there) ↦ (ground (arith, there, text_eq_iff p part), ground (arith, there))
]

checksum_at_lem :
    (checksums : List (List Text)) (d b : ℕ) (sums : List Text)
    → get_elem? checksums d ≡ some sums
    → checksum_at checksums d b ≡ get_elem? sums b
checksum_at_lem checksums d b sums h = ground (arith, h)

checksums_of_lem :
    (checksum : Shard → Text) (rows : List (List Shard)) (i left j : ℕ)
    → j < left
    → get_elem? (checksums_of checksum rows i left) j ≡ some (map checksum (column (i + j) rows))
unfolding checksums_of
checksums_of_lem checksum rows i zero j h = absurd (omega arith)
checksums_of_lem checksum rows i (suc left) zero h =
    ap (λ k. some (map checksum (column k rows))) {y = i + 0} (omega arith)
checksums_of_lem checksum rows i (suc left) (suc j) h =
    checksums_of_lem checksum rows (i + 1) left j (omega arith)
    ∙ ap (λ k. some (map checksum (column k rows))) {y = i + suc j} (omega arith)

-- The shard of a drive in its file.
pub part_file_middle :
    (d : ℕ) (pre post : List (List Shard)) (row : List Shard)
    → part_file d (pre ++ (row ∷ post)) ≡ part_file d pre ++ (shard_at d row ++ part_file d post)
unfolding part_file concat
part_file_middle d [] post row = refl
part_file_middle d (r ∷ pre) post row =
    ap (◌++◌ (shard_at d r)) (part_file_middle d pre post row)
    ∙ sym (append_assoc (shard_at d r) (part_file d pre) (shard_at d row ++ part_file d post))

middle_shard :
    (seen xs : List Shard) (x : Shard)
    → unwrap_or (get_elem? (seen ++ (x ∷ xs)) (length seen)) [] ≡ x
middle_shard [] xs x = refl
middle_shard (y ∷ seen) xs x = middle_shard seen xs x

-- One slot before the others.
cons_slot :
    (x : Shard) (slot : Option Shard) (slots : List (Option Shard)) (xs : List Shard) (good : Bool)
    (count : ℕ)
    → ((slot ≡ none) × (good ≡ false)) ⊎ (slot ≡ some x)
    → Survives slots xs
    → count ≤ present slots
    → Survives (slot ∷ slots) (x ∷ xs)
      × ((if good then suc count else count) ≤ present (slot ∷ slots))
unfolding present
cons_slot x none slots xs good count (inl (e, bad)) s h = (s, ground (arith, bad))
cons_slot x none slots xs good count (inr e) s h = absurd (cc e)
cons_slot x (some y) slots xs good count (inl (e, bad)) s h = absurd (cc e)
cons_slot x (some y) slots xs good count (inr e) s h = ((cc e, s), ground arith)

module _ (checksum : Shard → Text) (same_sum : (x y : Shard) → checksum x ≡ checksum y → x ≡ y)
    (pre post : List (List Shard)) (row : List Shard) (n : ℕ) where
  abbrev pub rows : List (List Shard)
  rows = pre ++ (row ∷ post)

  -- The checksum that a drive's shard of the block is held against.
  sum_lem :
      (d : ℕ)
      → d < n
      → checksum_at (checksums_of checksum rows 0 n) d (length pre)
        ≡ some (checksum (shard_at d row))
  sum_lem d h =
      checksum_at_lem (checksums_of checksum rows 0 n) d (length pre) _ (
        checksums_of_lem checksum rows 0 n d h
        ∙ ap (λ k. some (map checksum (column k rows))) {y = d} (omega arith))
      ∙ sum_middle checksum d pre post row

  -- What passes the check is the shard.
  verified_same :
      (x : Shard) (buf : Option Shard)
      → (verified checksum (some (checksum x)) buf ≡ none)
        ⊎ (verified checksum (some (checksum x)) buf ≡ some x)
  verified_same x none = inl refl
  verified_same x (some buf) =
      ground (arith, text_eq_iff (checksum x) (checksum buf), same_sum x buf)

  -- An intact file gives the shard.
  read_intact :
      (d offset slen : ℕ) (drive : Drive)
      → length (part_file d pre) ≡ offset
      → length (shard_at d row) ≡ slen
      → is_intact (part_file d rows) drive ≡ true
      → read_at drive offset slen ≡ some (shard_at d row)
  read_intact d offset slen drive o l h =
      let (there, up) = is_intact_lem (part_file d rows) drive h in
      let front = part_file d pre in
      let shard = shard_at d row in
      let back = part_file d post in
      let whole = part_file_middle d pre post row in
      let cut : take slen (drop offset (part_file d rows)) ≡ shard =
        ap (λ (xs : List ℕ). take slen (drop offset xs)) whole
        ∙ ap (take slen) (drop_append_of offset front (shard ++ back) o)
        ∙ take_append_of slen shard back l in
      let long : offset + slen ≤ length (part_file d rows) = omega (
        arith,
        o,
        l,
        ap (length {A = ℕ}) whole,
        length-append front (shard ++ back),
        length-append shard back,
      ) in
      ground (arith, there, up, cut, long)

  -- One slot: it is empty or holds the shard, and it does where the drive is intact.
  abbrev IsSlot : ℕ → ℕ → ℕ → Drive → Shard → Type 0
  IsSlot d offset slen drive x =
      let slot =
        verified checksum (checksum_at (checksums_of checksum rows 0 n) d (length pre))
          (read_at drive offset slen) in
      ((slot ≡ none) × (is_intact (part_file d rows) drive ≡ false)) ⊎ (slot ≡ some x)

  slot_lem :
      (d offset slen : ℕ) (drive : Drive)
      → d < n
      → length (part_file d pre) ≡ offset
      → length (shard_at d row) ≡ slen
      → IsSlot d offset slen drive (shard_at d row)
  slot_lem d offset slen drive h o l =
      rw (sum_lem d h) (elim (Bool-cases (is_intact (part_file d rows) drive)) [
        | inl good ↦
            rw (read_intact d offset slen drive o l good)
              (inr (ground (arith, text_eq_refl (checksum (shard_at d row)))))
        | inr bad ↦ elim (verified_same (shard_at d row) (read_at drive offset slen)) [
          | inl empty ↦ inl (empty, bad)
          | inr held ↦ inr held
        ]
      ])

  abbrev pub FitsFrom : ℕ → ℕ → ℕ → ℕ → Type 0
  FitsFrom offset slen d zero = Unit {0}
  FitsFrom offset slen d (suc left) =
      (length (part_file d pre) ≡ offset)
      × (length (shard_at d row) ≡ slen)
      × FitsFrom offset slen (d + 1) left

  shard_at_middle :
      (seen xs : List Shard) (x : Shard) → row ≡ seen ++ (x ∷ xs) → shard_at (length seen) row ≡ x
  shard_at_middle seen xs x e = rw e (middle_shard seen xs x)

  -- All slots from a drive's index on, against the shards of the block from there on.
  pub read_slots_lem :
      (offset slen d : ℕ) (drives : List Drive) (seen xs : List Shard)
      → row ≡ seen ++ xs
      → length seen ≡ d
      → length drives ≡ length xs
      → d + length drives ≤ n
      → FitsFrom offset slen d (length drives)
      → let slots =
          read_slots checksum (checksums_of checksum rows 0 n) (length pre) offset slen d drives in
        Survives slots xs × (intact rows d drives ≤ present slots)
  unfolding read_slots intact present
  read_slots_lem offset slen d [] seen [] e k m i fits = (tt, omega arith)
  read_slots_lem offset slen d [] seen (x ∷ xs) e k m i fits = absurd (omega arith)
  read_slots_lem offset slen d (drive ∷ drives) seen [] e k m i fits = absurd (omega arith)
  read_slots_lem offset slen d (drive ∷ drives) seen (x ∷ xs) e k m i fits =
      let here : shard_at d row ≡ x =
        subst (λ j. shard_at j row ≡ x) k (shard_at_middle seen xs x e) in
      let (later, count) =
        read_slots_lem offset slen (d + 1) drives (seen ++ (x ∷ [])) xs
          (e ∙ sym (append_assoc seen (x ∷ []) xs)) (omega (arith, length-append seen (x ∷ []), k))
          (omega arith) (omega arith) fits.2 in
      cons_slot x _ _ xs (is_intact (part_file d rows) drive) (intact rows (d + 1) drives)
        (subst (IsSlot d offset slen drive) here
          (slot_lem d offset slen drive (omega arith) fits.0 fits.1))
        later count
