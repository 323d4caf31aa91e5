-- ===== src/Erasure/Sharded/Blocks.antt =====
-- The blocks of the stored bytes: how many there are, and how long.
use kerplace.Base.{
  ℕ, zero, suc, ◌≡◌, refl, subst, ap, sym, ◌∙◌, ◌+◌, ◌-◌, ◌*◌, ◌/◌, ◌<◌, ◌≤◌, Bool, true, false,
  List, [], ◌∷◌, ◌++◌, ltb, length, take, drop, is_empty, lt→ltb, arith, length-take, length-drop,
  take_whole, take-append-drop,
}
use mathlib.Core.List.{append-nil}
use native.Mathlib.Decide.{dec_lt}
use native.Mathlib.Nat.{
  mul-add-div_right, mul-add-mod_self_right, mod-eq_of_lt, div-eq_of_lt, mod_self, div_self,
  add-div_left,
}
use kerplace.Erasure.Codec.{concat}
use kerplace.Erasure.Sharded.{blocks_of, blocks, block_count, block_len, div_ceil}

-- The number of blocks of so many full blocks and a rest.
module _ (k b : ℕ) (pos : 0 < k) where
  count_add : (r : ℕ) → div_ceil (b * k + r) k ≡ b + div_ceil r k
  count_add r = ground (arith, mul-add-div_right pos b r, mul-add-mod_self_right b k r)

count_rest : (k r : ℕ) → 0 < r → r ≤ k → div_ceil r k ≡ 1
count_rest k r h i = elim (dec_lt r k) [
  | yes short ↦ ground (arith, mod-eq_of_lt short, div-eq_of_lt short)
  | no full ↦
      let same : r ≡ k = omega arith in
      rw same (ground (arith, mod_self k, div_self {n = k} (omega arith)))
]

count_none : (k : ℕ) → 0 < k → div_ceil 0 k ≡ 0
count_none k h = ground (arith, mod-eq_of_lt h, div-eq_of_lt h)

count_pos : (k r : ℕ) → 0 < k → 0 < r → 1 ≤ div_ceil r k
count_pos k r h i = elim (dec_lt r k) [
  | yes short ↦ ground (arith, mod-eq_of_lt short, div-eq_of_lt short)
  | no long ↦
      let more : (k + (r - k)) / k ≡ (r - k) / k + 1 = add-div_left (r - k) h in
      let same : k + (r - k) ≡ r = omega arith in
      let split : r / k ≡ (r - k) / k + 1 = subst (λ t. t / k ≡ (r - k) / k + 1) same more in
      ground (arith, split)
]

count_more : (k r : ℕ) → 0 < k → k < r → 2 ≤ div_ceil r k
count_more k r h i =
    let same : 1 * k + (r - k) ≡ r = omega arith in
    let more = subst (λ t. div_ceil t k ≡ 1 + div_ceil (r - k) k) same (count_add k 1 h (r - k)) in
    omega (arith, more, count_pos k (r - k) h (omega arith))

-- The length of the block at an index, and the number of blocks, from what is left there.
module _ (size b r : ℕ) (pos : 0 < size) (some_left : 0 < r) where
  abbrev all_bytes : ℕ
  all_bytes = b * size + r

  count_last : r ≤ size → block_count all_bytes size ≡ b + 1
  unfolding block_count
  count_last h = ground (arith, count_add size b pos r, count_rest size r some_left h)

  len_last : r ≤ size → block_len all_bytes size b ≡ r
  unfolding block_len
  len_last h = ground (arith, count_last h)

  len_more : size < r → block_len all_bytes size b ≡ size
  unfolding block_len block_count
  len_more h = ground (arith, count_add size b pos r, count_more size r pos h)

is_empty-take : (k : ℕ) (x : ℕ) (xs : List ℕ) → 0 < k → is_empty (take k (x ∷ xs)) ≡ false
is_empty-take zero x xs h = absurd (omega arith)
is_empty-take (suc k) x xs h = refl

-- One turn of the loop.
module _ (size fuel : ℕ) (wrote_any : Bool) (x : ℕ) (xs : List ℕ) (pos : 0 < size) where
  turn_last : length (x ∷ xs) < size → blocks_of size (suc fuel) wrote_any (x ∷ xs) ≡ (x ∷ xs) ∷ []
  unfolding blocks_of
  turn_last h = rw (take_whole size (x ∷ xs) (omega arith)) (ground (arith))

  turn_full :
      size ≤ length (x ∷ xs)
      → blocks_of size (suc fuel) wrote_any (x ∷ xs)
        ≡ take size (x ∷ xs) ∷ blocks_of size fuel true (drop size (x ∷ xs))
  unfolding blocks_of
  turn_full h = rw (is_empty-take size x xs pos) (ground (arith, length-take size (x ∷ xs)))

-- The lengths of blocks from an index on, as the reader computes them.
abbrev pub HasLens : ℕ → ℕ → ℕ → List (List ℕ) → Type 0
HasLens stored size b [] = Unit {0}
HasLens stored size b (x ∷ xs) =
    (block_len stored size b ≡ length x) × HasLens stored size (b + 1) xs

some_bytes : (size b : ℕ) → 0 < size → 0 < b → 0 < b * size + 0
some_bytes size b h i = grind arith

-- What is said of the blocks from an index on, of the bytes that are left.
abbrev Cut : ℕ → ℕ → ℕ → List ℕ → List (List ℕ) → Type 0
Cut stored size b src bs =
    (concat bs ≡ src) × HasLens stored size b bs × (b + length bs ≡ block_count stored size)

Cut-none : (size b : ℕ) → 0 < size → 0 < b → Cut (b * size + 0) size b [] []
unfolding concat block_count
Cut-none size b h i =
    (refl, tt, ground (arith, count_add size b h 0, count_none size h, some_bytes size b h i))

Cut-empty : (size : ℕ) → Cut (0 * size + 0) size 0 [] ([] ∷ [])
unfolding concat block_len block_count
Cut-empty size = (refl, (ground arith, tt), ground arith)

none_more : (size fuel : ℕ) → blocks_of size (suc fuel) true [] ≡ []
unfolding blocks_of
none_more zero fuel = refl
none_more (suc k) fuel = refl

only_empty : (size fuel : ℕ) → 0 < size → blocks_of size (suc fuel) false [] ≡ [] ∷ []
unfolding blocks_of
only_empty zero fuel h = absurd (omega arith)
only_empty (suc k) fuel h = ground arith

Cut-at_end :
    (size fuel b : ℕ)
    → 0 < size
    → Cut (b * size + 0) size b [] (blocks_of size (suc fuel) (ltb 0 b) [])
Cut-at_end size fuel zero pos = rw (only_empty size fuel pos) (Cut-empty size)
Cut-at_end size fuel (suc b) pos =
    rw (lt→ltb 0 (suc b) (omega arith))
      (rw (none_more size fuel) (Cut-none size (suc b) pos (omega arith)))

Cut-short :
    (size b : ℕ) (src : List ℕ)
    → 0 < size
    → 0 < length src
    → length src < size
    → Cut (b * size + length src) size b src (src ∷ [])
unfolding concat
Cut-short size b src pos some_left short = (
  append-nil src,
  (len_last size b (length src) pos some_left (omega arith), tt),
  sym (count_last size b (length src) pos some_left (omega arith)),
)

len_full : (size b r : ℕ) → 0 < size → size ≤ r → block_len (b * size + r) size b ≡ size
len_full size b r pos h = elim (dec_lt size r) [
  | yes more ↦ len_more size b r pos (omega arith) more
  | no same ↦ len_last size b r pos (omega arith) (omega arith) ∙ omega arith
]

Cut-full :
    (size b : ℕ) (src : List ℕ) (bs : List (List ℕ))
    → 0 < size
    → size ≤ length src
    → Cut ((b + 1) * size + length (drop size src)) size (b + 1) (drop size src) bs
    → Cut (b * size + length src) size b src (take size src ∷ bs)
unfolding concat
Cut-full size b src bs pos long (all, lens, count) =
    let same : (b + 1) * size + length (drop size src) ≡ b * size + length src =
      omega (arith, length-drop size src) in
    (
      ap (◌++◌ (take size src)) all ∙ take-append-drop size src,
      (
        len_full size b (length src) pos long ∙ omega (arith, length-take size src),
        subst (λ n. HasLens n size (b + 1) bs) same lens,
      ),
      omega (arith, subst (λ n. b + 1 + length bs ≡ block_count n size) same count),
    )

blocks_of_lem :
    (size fuel b : ℕ) (wrote_any : Bool) (src : List ℕ)
    → 0 < size
    → length src + 1 < fuel
    → wrote_any ≡ ltb 0 b
    → Cut (b * size + length src) size b src (blocks_of size fuel wrote_any src)
blocks_of_lem size zero b wrote_any src pos enough turn = absurd (omega arith)
blocks_of_lem size (suc fuel) b wrote_any [] pos enough turn = rw turn (Cut-at_end size fuel b pos)
blocks_of_lem size (suc fuel) b wrote_any (x ∷ xs) pos enough turn =
    elim (dec_lt (length (x ∷ xs)) size) [
      | yes short ↦
          rw (turn_last size fuel wrote_any x xs pos short)
            (Cut-short size b (x ∷ xs) pos (omega arith) short)
      | no long ↦
          let rest = drop size (x ∷ xs) in
          let later =
            blocks_of_lem size fuel (b + 1) true rest pos (omega (arith, length-drop size (x ∷ xs)))
              (ground arith) in
          rw (turn_full size fuel wrote_any x xs pos (omega arith))
            (Cut-full size b (x ∷ xs) (blocks_of size fuel true rest) pos (omega arith) later)
    ]

-- The blocks put together are the bytes; the reader counts as many, and knows their lengths.
pub blocks_lem :
    (size : ℕ) (src : List ℕ)
    → 0 < size
    → (concat (blocks size src) ≡ src)
      × HasLens (length src) size 0 (blocks size src)
      × (length (blocks size src) ≡ block_count (length src) size)
blocks_lem size src pos =
    let (all, lens, count) =
      blocks_of_lem size (suc (suc (length src))) 0 false src pos (omega arith) (ground arith) in
    let same : 0 * size + length src ≡ length src = omega arith in
    (
      all,
      subst (λ n. HasLens n size 0 (blocks size src)) same lens,
      omega (arith, subst (λ n. 0 + length (blocks size src) ≡ block_count n size) same count),
    )
