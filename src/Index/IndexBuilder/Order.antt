-- ===== src/Index/IndexBuilder/Order.antt =====
-- The order of the posting lists of a built index, and of what the search merges from them.
use core_desk.Base.{
  ℕ, suc, ◌+◌, ◌%◌, ◌^◌, ◌==◌, ◌≤◌, ◌<◌, ltb, ltb→lt, ltb→le, ◌≡◌, refl, sym, ◌∙◌, subst,
  Bool-cases, Option-cases, inl, inr, Bool, false, List, [], ◌∷◌, length, All, arith, text_eq, ==→≡,
}
use core_desk.Base.Eq.{text_has_eq, nat_has_eq}
use core_desk.Common.{Text, success, >>=-eq-success, success-injective}
use core_desk.Index.Snapshot.{FileRecord, IndexSnapshot, find}
use core_desk.Index.Tokenizer.{tokenize_path}
use core_desk.Index.IndexBuilder.{
  ScanOutput, Building, insert_id, add_token, add_tokens, add_record, add_records, make_postings,
  empty_building, build,
}
use core_desk.Index.IndexBuilder.Postings.{mem-insert_id, mem-sort, mem-insert_sorted}
use core_desk.Index.SearchEngine.Postings.{
  insert_sorted, sort, unique_from, unique, merge_postings, lower_bound, candidates_for_token,
  all_candidates,
}
use core_desk.Index.SearchEngine.Bounds.{All-find}
use core_desk.Index.SearchEngine.Intersect.{mem, Ascending}

-- Ascending, with repetitions.
abbrev Weak : List ℕ → Type 0
Weak [] = Unit
Weak (x ∷ xs) = All (λ y. x ≤ y) xs × Weak xs

abbrev Once : List ℕ → Type 0
Once [] = Unit
Once (x ∷ xs) = (mem x xs ≡ false) × Once xs

All-insert_sorted :
    (z x : ℕ) (xs : List ℕ)
    → z ≤ x
    → All (λ y. z ≤ y) xs
    → All (λ y. z ≤ y) (insert_sorted ltb x xs)
All-insert_sorted z x [] h a = (h, tt)
All-insert_sorted z x (y ∷ ys) h a = elim (Bool-cases (ltb y x)) [
  | inl less ↦ rw (less, insert_sorted) (a.0, All-insert_sorted z x ys h a.1)
  | inr more ↦ rw (more, insert_sorted) (h, a)
]

All-le : (x y : ℕ) (ys : List ℕ) → x ≤ y → All (λ z. y ≤ z) ys → All (λ z. x ≤ z) ys
All-le x y [] h a = tt
All-le x y (z ∷ zs) h a = (omega (arith, h, a.0), All-le x y zs h a.1)

insert_sorted-Weak : (x : ℕ) (xs : List ℕ) → Weak xs → Weak (insert_sorted ltb x xs)
insert_sorted-Weak x [] a = (tt, tt)
insert_sorted-Weak x (y ∷ ys) a = elim (Bool-cases (ltb y x)) [
  | inl less ↦
      rw (less, insert_sorted)
        (All-insert_sorted y x ys (omega (arith, ltb→lt y x less)) a.0, insert_sorted-Weak x ys a.1)
  | inr more ↦ let h = ltb→le y x more in rw (more, insert_sorted) ((h, All-le x y ys h a.0), a)
]

sort-Weak : (xs : List ℕ) → Weak (sort ltb xs)
sort-Weak [] = tt
sort-Weak (x ∷ xs) = insert_sorted-Weak x (sort ltb xs) (sort-Weak xs)

-- `unique` of a weakly ascending list.
unique_from-Ascending :
    (x : ℕ) (ys : List ℕ)
    → All (λ y. x ≤ y) ys
    → Weak ys
    → All (λ y. x < y) (unique_from x ys) × Ascending (unique_from x ys)
unique_from-Ascending x [] a w = (tt, tt)
unique_from-Ascending x (y ∷ ys) a w =
    let (late, asc) = unique_from-Ascending y ys w.0 w.1 in
    elim (Bool-cases (x == y)) [
      | inl same ↦
          rw (same, unique_from)
            (subst (λ z. All (λ v. z < v) (unique_from y ys)) (sym (==→≡ x y same)) late, asc)
      | inr other ↦
          let h : x < y = ground (arith, a.0, other) in
          rw (other, unique_from) ((h, All-lt x y (unique_from y ys) h late), (late, asc))
    ]
  where
    All-lt : (x y : ℕ) (ys : List ℕ) → x < y → All (λ z. y < z) ys → All (λ z. x < z) ys
    All-lt x y [] h a = tt
    All-lt x y (z ∷ zs) h a = (omega (arith, h, a.0), All-lt x y zs h a.1)

unique-sort-Ascending : (xs : List ℕ) → Ascending (unique (sort ltb xs))
unique-sort-Ascending xs = go (sort ltb xs) (sort-Weak xs)
  where
    go : (ys : List ℕ) → Weak ys → Ascending (unique ys)
    go [] w = tt
    go (y ∷ ys) w = unique_from-Ascending y ys w.0 w.1

-- A list without repetitions, sorted.
Once-insert_sorted :
    (x : ℕ) (xs : List ℕ) → mem x xs ≡ false → Once xs → Once (insert_sorted ltb x xs)
Once-insert_sorted x [] m o = (refl, tt)
Once-insert_sorted x (y ∷ ys) m o = elim (Bool-cases (ltb y x)) [
  | inl less ↦
      rw (less, insert_sorted)
        (
          mem-insert_sorted y x ys ∙ ground (arith, less, o.0),
          Once-insert_sorted x ys ground arith o.1,
        )
  | inr more ↦ rw (more, insert_sorted) (m, o)
]

sort-Once : (xs : List ℕ) → Once xs → Once (sort ltb xs)
sort-Once [] o = tt
sort-Once (x ∷ xs) o = Once-insert_sorted x (sort ltb xs) (mem-sort x xs ∙ o.0) (sort-Once xs o.1)

Weak-Once : (xs : List ℕ) → Weak xs → Once xs → Ascending xs
Weak-Once [] w o = tt
Weak-Once (x ∷ xs) w o = (strict x xs w.0 o.0, Weak-Once xs w.1 o.1)
  where
    strict : (x : ℕ) (ys : List ℕ) → All (λ y. x ≤ y) ys → mem x ys ≡ false → All (λ y. x < y) ys
    strict x [] a m = tt
    strict x (y ∷ ys) a m =
        let other : (y == x) ≡ false = ground arith in
        let rest : mem x ys ≡ false = ground arith in
        (ground (arith, a.0, other), strict x ys a.1 rest)

insert_id-Once : (id : ℕ) (ids : List ℕ) → Once ids → Once (insert_id id ids)
insert_id-Once id [] o = (refl, tt)
insert_id-Once id (x ∷ xs) o = elim (Bool-cases (x == id)) [
  | inl same ↦ rw (same, insert_id) o
  | inr other ↦
      let apart : (id == x) ≡ false = ground arith in
      rw (other, insert_id) (mem-insert_id x id xs ∙ rw (o.0, apart) refl, insert_id-Once id xs o.1)
]

-- The token sets have no repetitions.
abbrev Sets : List (Text × List ℕ) → Type 0
Sets = All λ e. Once e.1

add_token-Sets :
    (t : Text) (id : ℕ) (sets : List (Text × List ℕ)) → Sets sets → Sets (add_token t id sets)
add_token-Sets t id [] s = ((refl, tt), tt)
add_token-Sets t id ((k, ids) ∷ sets) s = elim (Bool-cases (text_eq k t)) [
  | inl same ↦ rw (same, add_token) (insert_id-Once id ids s.0, s.1)
  | inr other ↦ rw (other, add_token) (s.0, add_token-Sets t id sets s.1)
]

add_tokens-Sets :
    (ts : List Text) (id : ℕ) (sets : List (Text × List ℕ))
    → Sets sets
    → Sets (add_tokens ts id sets)
add_tokens-Sets [] id sets s = s
add_tokens-Sets (t ∷ ts) id sets s =
    add_tokens-Sets ts id (add_token t id sets) (add_token-Sets t id sets s)

add_record-Sets :
    (pos : ℕ) (r : FileRecord) (b : Building)
    → Sets b.token_sets
    → Sets (add_record pos r b).token_sets
unfolding add_record
add_record-Sets pos r b s =
    let id = (pos + 1) % 2 ^ 64 in
    let s1 = add_tokens-Sets (tokenize_path r.file_name) id b.token_sets s in
    let s2 = add_tokens-Sets (tokenize_path r.extension) id _ s1 in
    add_tokens-Sets (tokenize_path r.relative_path) id _ s2

add_records-Sets :
    (cancelled : ℕ → Bool) (pos : ℕ) (rs : List FileRecord) (b done : Building)
    → Sets b.token_sets
    → add_records cancelled pos rs b ≡ success done
    → Sets done.token_sets
unfolding add_records
add_records-Sets cancelled pos [] b done s h =
    subst (λ x. Sets x.token_sets) (success-injective h) s
add_records-Sets cancelled pos (r ∷ rs) b done s h = elim (Bool-cases (cancelled (suc pos))) [
  | inl stop ↦ absurd (let bad = rw (stop, add_records) at h in cc)
  | inr on ↦
      add_records-Sets cancelled (suc pos) rs (add_record pos r b) done (add_record-Sets pos r b s)
        (rw (on, add_records) at h)
]

make_postings-Ascending :
    (cancelled : ℕ → Bool) (poll : ℕ) (sets postings : List (Text × List ℕ))
    → Sets sets
    → make_postings cancelled poll sets ≡ success postings
    → All (λ e. Ascending e.1) postings
unfolding make_postings
make_postings-Ascending cancelled poll [] postings s h =
    subst (All λ e. Ascending e.1) (success-injective h) tt
make_postings-Ascending cancelled poll ((k, ids) ∷ sets) postings s h =
    elim (Bool-cases (cancelled poll)) [
      | inl stop ↦ absurd (let bad = rw (stop, make_postings) at h in cc)
      | inr on ↦
          let h' = rw (on, make_postings) at h in
          let (rest, made, last) = >>=-eq-success (make_postings cancelled (suc poll) sets) _ h' in
          subst (All λ e. Ascending e.1) (success-injective last) (
            Weak-Once (sort ltb ids) (sort-Weak ids) (sort-Once ids s.0),
            make_postings-Ascending cancelled (suc poll) sets rest s.1 made,
          )
    ]

candidates_for_token-Ascending :
    (s : IndexSnapshot) (t : Text)
    → All (λ e. Ascending e.1) s.token_index
    → Ascending (candidates_for_token s t)
candidates_for_token-Ascending s t a = elim (Option-cases (find t s.token_index)) [
  | inl miss ↦
      rw (miss, candidates_for_token)
        (unique-sort-Ascending (merge_postings s t (lower_bound s.sorted_tokens t)))
  | inr (ids, found) ↦
      rw (found, candidates_for_token) (All-find Ascending t s.token_index ids a found)
]

all_candidates-Ascending :
    (s : IndexSnapshot) (ts : List Text)
    → All (λ e. Ascending e.1) s.token_index
    → All Ascending (all_candidates s ts)
all_candidates-Ascending s [] a = tt
all_candidates-Ascending s (t ∷ ts) a =
    (candidates_for_token-Ascending s t a, all_candidates-Ascending s ts a)

-- In an index that was built, the candidates of each token of a query are in strictly ascending order.
pub build-Ascending :
    (ts : List Text) (generation : ℕ) (scan : ScanOutput) (cancelled : ℕ → Bool)
    (snapshot : IndexSnapshot)
    → build generation scan cancelled ≡ success snapshot
    → All Ascending (all_candidates snapshot ts)
unfolding build
build-Ascending ts generation scan cancelled snapshot h = elim (Bool-cases (cancelled 0)) [
  | inl stop ↦ absurd (let bad = rw (stop, build) at h in cc)
  | inr on ↦
      let h' = rw (on, build) at h in
      let (b, added, h'') =
        >>=-eq-success (add_records cancelled 0 scan.records empty_building) _ h' in
      let (postings, made, last) =
        >>=-eq-success (make_postings cancelled (suc (length scan.records)) b.token_sets) _ h'' in
      let sets = add_records-Sets cancelled 0 scan.records empty_building b tt added in
      all_candidates-Ascending snapshot ts (
        subst (λ s. All (λ e. Ascending e.1) s.token_index) (success-injective last)
          (make_postings-Ascending cancelled (suc (length scan.records)) b.token_sets postings sets
            made))
]
