-- ===== src/Erasure/Pages.antt =====
-- The pages of an object listing: how large one is, and that following the tokens misses no key.
use kerplace.Base.{
  Text, ℕ, zero, suc, ◌≡◌, refl, sym, subst, ap, ◌∙◌, ◌≤◌, ◌+◌, inl, inr, true, false, not, List,
  [], ◌∷◌, ◌++◌, Option, none, some, text_ltb, all, filter, take, drop, length, arith,
  length-sort_by, Bool-cases, Option-cases, take-append-drop, length-take, length-drop,
}
use kerplace.Storage.{ObjectMeta}
use kerplace.Erasure.Listing.{
  Query, page, is_skipped, group_of, list_objects_v2, metas, sorted_keys, walk_union, WalkEntry,
}

page_bound :
    (q : Query) (common : List Text) (count : ℕ) (keys : List Text)
    → count ≤ q.max_keys
    → length (page q common count keys).chosen + length (page q common count keys).common + count
      ≤ q.max_keys + length common
unfolding page
page_bound q common count [] h = omega arith
page_bound q common count (key ∷ keys) h =
    let same = page_bound q common count keys h in
    let more = page_bound q common (count + 1) keys in
    let grown = (λ (cp : Text). page_bound q (cp ∷ common) (count + 1) keys) in
    grind (arith, same, more, grown)

length-metas-le :
    (read_xl : Text → Option ObjectMeta) (ks : List Text) → length (metas read_xl ks) ≤ length ks
unfolding metas
length-metas-le read_xl [] = omega arith
length-metas-le read_xl (k ∷ ks) = ground (arith, length-metas-le read_xl ks)

-- A page has at most `max_keys` objects and common prefixes together.
length-list_objects_v2-le :
    (read_xl : Text → Option ObjectMeta) (q : Query) (walks : List (Option (List WalkEntry)))
    → length (list_objects_v2 read_xl q walks).objects
        + length (list_objects_v2 read_xl q walks).common_prefixes
      ≤ q.max_keys
unfolding list_objects_v2
length-list_objects_v2-le read_xl q walks =
    let keys = sorted_keys q.prefix (walk_union walks []) in
    omega (
      arith,
      page_bound q [] 0 keys,
      length-metas-le read_xl (page q [] 0 keys).chosen,
      length-sort_by text_ltb (page q [] 0 keys).common,
    )

-- The keys that a query asks for.
unfoldable pub eligible : Query → List Text → List Text
eligible q keys = filter (λ k. not (is_skipped q k)) keys

abbrev pub head : List Text → Option Text
head [] = none
head (k ∷ ks) = some k

-- Without a delimiter a page is the first keys that are asked for, and its token is the next one.
page_plain :
    (q : Query) (common : List Text) (count n : ℕ) (keys : List Text)
    → q.delimiter ≡ none
    → q.max_keys ≡ count + n
    → ((page q common count keys).chosen ≡ take n (eligible q keys))
      × ((page q common count keys).next ≡ head (drop n (eligible q keys)))
unfolding page eligible filter
page_plain q common count zero [] d e = (refl, refl)
page_plain q common count (suc n) [] d e = (refl, refl)
page_plain q common count zero (key ∷ keys) d e =
    let g : group_of q.prefix q.delimiter key ≡ none = unfold group_of in rw d in
    let same = page_plain q common count zero keys d e in ground (arith, g, same)
page_plain q common count (suc n) (key ∷ keys) d e =
    let g : group_of q.prefix q.delimiter key ≡ none = unfold group_of in rw d in
    let same = page_plain q common count (suc n) keys d e in
    let more = page_plain q common (count + 1) n keys d (omega arith) in
    ground (arith, g, same, more)

ltb_trans : (a b c : Text) → text_ltb a b ≡ true → text_ltb b c ≡ true → text_ltb a c ≡ true
unfolding text_ltb
ltb_trans a b [] h g = ground arith
ltb_trans a [] (z ∷ c) h g = cc
ltb_trans [] (y ∷ b) (z ∷ c) h g = refl
ltb_trans (x ∷ a) (y ∷ b) (z ∷ c) h g = ground (arith, ltb_trans a b c)

ltb_asym : (a b : Text) → text_ltb a b ≡ true → text_ltb b a ≡ false
unfolding text_ltb
ltb_asym a [] h = cc
ltb_asym [] (y ∷ b) h = refl
ltb_asym (x ∷ a) (y ∷ b) h = ground (arith, ltb_asym a b)

-- Keys in strictly rising order, as the listing sorts them.
unfoldable pub IsRising : List Text → Type 0
unfolding all
IsRising [] = 0 ≤ 0
IsRising (k ∷ ks) = (all (text_ltb k) ks ≡ true) × IsRising ks

-- The query for the page that follows.
unfoldable pub from_token : Query → Text → Query
from_token q t = record q { token = some t }

-- A key below all of a list is below whatever a page of the list stops at.
below_stop :
    (q : Query) (k t : Text) (n : ℕ) (ks rest : List Text)
    → all (text_ltb k) ks ≡ true
    → drop n (eligible q ks) ≡ t ∷ rest
    → text_ltb k t ≡ true
unfolding all eligible filter
below_stop q k t zero [] rest h e = cc
below_stop q k t (suc n) [] rest h e = cc
below_stop q k t zero (j ∷ ks) rest h e = grind (arith, below_stop q k t zero ks rest)
below_stop q k t (suc n) (j ∷ ks) rest h e =
    grind (arith, below_stop q k t (suc n) ks rest, below_stop q k t n ks rest)

-- Past an eligible key, the token of that key changes nothing.
same_past :
    (q : Query) (t : Text) (ks : List Text)
    → is_skipped q t ≡ false
    → all (text_ltb t) ks ≡ true
    → eligible (from_token q t) ks ≡ eligible q ks
unfolding eligible filter all is_skipped from_token
same_past q t [] s h = refl
same_past q t (k ∷ ks) s h =
    let rest = same_past q t ks s in
    let later = ltb_asym t k in
    elim (Option-cases q.token) [
      | inl e ↦ ground (arith, rest, later)
      | inr (u, e) ↦ ground (arith, rest, later, ltb_trans t k u)
    ]

skips_below : (q : Query) (k t : Text) → text_ltb k t ≡ true → is_skipped (from_token q t) k ≡ true
unfolding is_skipped from_token
skips_below q k t h = rw h

keeps_token :
    (q : Query) (t : Text) → is_skipped q t ≡ false → is_skipped (from_token q t) t ≡ false
unfolding is_skipped from_token
keeps_token q t h = ground (arith, ltb_asym t t)

first_eligible :
    (q : Query) (k t : Text) (ks rest : List Text)
    → is_skipped q k ≡ false
    → eligible q (k ∷ ks) ≡ t ∷ rest
    → (k ≡ t) × (eligible q ks ≡ rest)
unfolding eligible filter
first_eligible q k t ks rest s e = ground arith

eligible_here :
    (q : Query) (k : Text) (ks : List Text)
    → is_skipped q k ≡ false
    → all (text_ltb k) ks ≡ true
    → eligible (from_token q k) (k ∷ ks) ≡ k ∷ eligible q ks
unfolding eligible filter
eligible_here q k ks s r =
    let past = same_past q k ks s r in let here = keeps_token q k s in ground arith

eligible_from :
    (q : Query) (t : Text) (n : ℕ) (ks rest : List Text)
    → IsRising ks
    → drop n (eligible q ks) ≡ t ∷ rest
    → eligible (from_token q t) ks ≡ t ∷ rest
unfolding eligible filter IsRising
eligible_from q t zero [] rest r e = cc
eligible_from q t (suc n) [] rest r e = cc
eligible_from q t zero (k ∷ ks) rest r e =
    let later = eligible_from q t zero ks rest r.1 in
    let below = below_stop q k t zero ks rest r.0 in
    let skips = skips_below q k t in
    elim (Bool-cases (is_skipped q k)) [
      | inl s ↦ ground (arith, later, below, skips)
      | inr s ↦
          let (same, tail) = first_eligible q k t ks rest s e in
          subst (λ (x : Text). eligible (from_token q x) (k ∷ ks) ≡ x ∷ rest) same
            (eligible_here q k ks s r.0 ∙ ap (◌∷◌ k) tail)
    ]
eligible_from q t (suc n) (k ∷ ks) rest r e =
    let later = eligible_from q t (suc n) ks rest r.1 in
    let next = eligible_from q t n ks rest r.1 in
    let below = below_stop q k t (suc n) ks rest r.0 in
    let below_next = below_stop q k t n ks rest r.0 in
    let skips = skips_below q k t in grind (arith, later, next, below, below_next, skips)

head-eq-some : (ks : List Text) (t : Text) → head ks ≡ some t → (rest : List Text) × (ks ≡ t ∷ rest)
head-eq-some [] t h = cc
head-eq-some (k ∷ ks) t h = (ks, ground arith)

-- A page of a listing without a delimiter that ends with a token is full, and its keys, followed
-- by those that the same query asks for from the token on, are exactly the keys that the query
-- asked for: going from token to token misses no key and repeats none. The keys are in strictly
-- rising order.
pub page-from_token :
    (q : Query) (keys : List Text) (t : Text)
    → q.delimiter ≡ none
    → IsRising keys
    → (page q [] 0 keys).next ≡ some t
    → ((page q [] 0 keys).chosen ++ eligible (from_token q t) keys ≡ eligible q keys)
      × (length (page q [] 0 keys).chosen ≡ q.max_keys)
page-from_token q keys t d r h =
    let (chosen, next) = page_plain q [] 0 q.max_keys keys d (omega arith) in
    let (rest, e) = head-eq-some (drop q.max_keys (eligible q keys)) t (sym next ∙ h) in
    let all_keys = eligible q keys in
    (
      rw (chosen, eligible_from q t q.max_keys keys rest r e, ← e)
          (take-append-drop q.max_keys all_keys),
      rw chosen (
          omega (
            arith,
            length-take q.max_keys all_keys,
            length-drop q.max_keys all_keys,
            ap (λ (l : List Text). length l) e,
          )),
    )
