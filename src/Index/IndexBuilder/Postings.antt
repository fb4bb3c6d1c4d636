-- ===== src/Index/IndexBuilder/Postings.antt =====
-- The posting lists that src/index/IndexBuilder.cpp builds: which files a token leads to.
use core_desk.Base.{
  ℕ, suc, ◌+◌, ◌%◌, ◌^◌, ◌==◌, ltb, ◌≡◌, refl, sym, ap, ◌∙◌, subst, Bool-cases, inl, inr, Bool,
  true, false, ◌&&◌, ◌||◌, List, [], ◌∷◌, ◌++◌, Option, none, some, length, arith, text_eq,
  text_eq→≡, ==→≡,
}
use core_desk.Base.Eq.{text_has_eq}
use core_desk.Common.{Text, success, >>=-eq-success, success-injective}
use core_desk.Index.LruCache.Places.{beq-false_sym}
use core_desk.Index.Snapshot.{FileRecord, IndexSnapshot, find}
use core_desk.Index.Tokenizer.{tokenize_path}
use core_desk.Index.IndexBuilder.{
  ScanOutput, Building, insert_id, add_token, add_tokens, add_record, add_records, make_postings,
  empty_building, build,
}
use core_desk.Index.SearchEngine.Postings.{insert_sorted, sort}
use core_desk.Index.SearchEngine.Ranking.{record_tokens, has_token}
use core_desk.Index.SearchEngine.Intersect.{mem}

-- A file that a token leads to.
abbrev pub found_in : ℕ → Option (List ℕ) → Bool
found_in q none = false
found_in q (some ids) = mem q ids

abbrev pub posted : ℕ → Text → List (Text × List ℕ) → Bool
posted q t sets = found_in q (find t sets)

or_assoc : (a b c : Bool) → ((a || b) || c) ≡ (a || (b || c))
or_assoc true b c = refl
or_assoc false b c = refl

or_false : (a : Bool) → a ≡ (a || false)
or_false true = refl
or_false false = refl

absorb : (a b : Bool) → (a || b) ≡ ((a || b) || a)
absorb true b = refl
absorb false b = or_false b

pub mem-insert_id : (q id : ℕ) (ids : List ℕ) → mem q (insert_id id ids) ≡ (mem q ids || id == q)
mem-insert_id q id [] = ground arith
mem-insert_id q id (x ∷ xs) = elim (Bool-cases (x == id)) [
  | inl t ↦
      let same = ==→≡ x id t in
      rw (t, insert_id) (absorb (x == q) (mem q xs) ∙ ap (λ z. (x == q || mem q xs) || z == q) same)
  | inr f ↦
      rw (f, insert_id)
        (ap (λ z. x == q || z) (mem-insert_id q id xs)
          ∙ sym (or_assoc (x == q) (mem q xs) (id == q)))
]

add_token-posted :
    (q id : ℕ) (t u : Text) (sets : List (Text × List ℕ))
    → posted q t (add_token u id sets) ≡ (posted q t sets || text_eq u t && id == q)
add_token-posted q id t u [] = ground arith
add_token-posted q id t u ((k, ids) ∷ sets) = elim (Bool-cases (text_eq k u)) [
  | inl same ↦
      let ku = text_eq→≡ k u same in
      elim (Bool-cases (text_eq k t)) [
        | inl here ↦
            let ut : text_eq u t ≡ true = subst (λ z. text_eq z t ≡ true) ku here in
            rw (same, add_token, here, ut) (mem-insert_id q id ids)
        | inr away ↦
            let ut : text_eq u t ≡ false = subst (λ z. text_eq z t ≡ false) ku away in
            rw (same, add_token, away, ut) (or_false (posted q t sets))
      ]
  | inr other ↦ elim (Bool-cases (text_eq k t)) [
    | inl here ↦
        let kt = text_eq→≡ k t here in
        let ut : text_eq u t ≡ false =
          beq-false_sym t u (subst (λ z. text_eq z u ≡ false) kt other) in
        rw (other, add_token, here, ut) (or_false (mem q ids))
    | inr away ↦ rw (other, add_token, away) (add_token-posted q id t u sets)
  ]
]

add_tokens-posted :
    (q id : ℕ) (t : Text) (us : List Text) (sets : List (Text × List ℕ))
    → posted q t (add_tokens us id sets) ≡ (posted q t sets || has_token t us && id == q)
add_tokens-posted q id t [] sets = or_false (posted q t sets)
add_tokens-posted q id t (u ∷ us) sets =
    add_tokens-posted q id t us (add_token u id sets)
    ∙ ap (λ z. z || has_token t us && id == q) (add_token-posted q id t u sets)
    ∙ ground arith

has_token-append :
    (t : Text) (us vs : List Text) → has_token t (us ++ vs) ≡ (has_token t us || has_token t vs)
has_token-append t [] vs = refl
has_token-append t (u ∷ us) vs =
    ap (λ z. text_eq u t || z) (has_token-append t us vs)
    ∙ sym (or_assoc (text_eq u t) (has_token t us) (has_token t vs))

-- Three rounds of `add_tokens_for_path`.
gather : (s a b c d : Bool) → (((s || a && d) || b && d) || c && d) ≡ (s || (a || (b || c)) && d)
gather true a b c d = refl
gather false true b c true = refl
gather false true b c false = ground arith
gather false false true c true = refl
gather false false true c false = ground arith
gather false false false c d = refl

add_record-posted :
    (q pos : ℕ) (t : Text) (r : FileRecord) (b : Building)
    → posted q t (add_record pos r b).token_sets
      ≡ (posted q t b.token_sets || has_token t (record_tokens r) && (pos + 1) % 2 ^ 64 == q)
unfolding add_record record_tokens
add_record-posted q pos t r b =
    let id = (pos + 1) % 2 ^ 64 in
    let name = tokenize_path r.file_name in
    let ext = tokenize_path r.extension in
    let rel = tokenize_path r.relative_path in
    let s1 = add_tokens name id b.token_sets in
    let s2 = add_tokens ext id s1 in
    add_tokens-posted q id t rel s2
    ∙ ap (λ z. z || has_token t rel && id == q) (add_tokens-posted q id t ext s1)
    ∙ ap (λ z. (z || has_token t ext && id == q) || has_token t rel && id == q)
        (add_tokens-posted q id t name b.token_sets)
    ∙ gather (posted q t b.token_sets) (has_token t name) (has_token t ext) (has_token t rel)
        (id == q)
    ∙ ap (λ z. posted q t b.token_sets || z && id == q)
        (ap (λ z. has_token t name || z) (sym (has_token-append t ext rel))
          ∙ sym (has_token-append t name (ext ++ rel)))

-- From a position on, the record with an identifier has a token of its own.
abbrev pub has_from : ℕ → Text → ℕ → List FileRecord → Bool
has_from q t pos [] = false
has_from q t pos (r ∷ rs) =
    has_token t (record_tokens r) && (pos + 1) % 2 ^ 64 == q || has_from q t (suc pos) rs

add_records-posted :
    (q : ℕ) (t : Text) (cancelled : ℕ → Bool) (pos : ℕ) (rs : List FileRecord) (b done : Building)
    → add_records cancelled pos rs b ≡ success done
    → posted q t done.token_sets ≡ (posted q t b.token_sets || has_from q t pos rs)
unfolding add_records
add_records-posted q t cancelled pos [] b done h =
    ap (λ x. posted q t x.token_sets) (sym (success-injective h))
    ∙ or_false (posted q t b.token_sets)
add_records-posted q t cancelled pos (r ∷ rs) b done h = elim (Bool-cases (cancelled (suc pos))) [
  | inl stop ↦ absurd (let bad = rw (stop, add_records) at h in cc)
  | inr on ↦
      let later : add_records cancelled (suc pos) rs (add_record pos r b) ≡ success done =
        rw (on, add_records) at h in
      add_records-posted q t cancelled (suc pos) rs (add_record pos r b) done later
      ∙ ap (λ z. z || has_from q t (suc pos) rs) (add_record-posted q pos t r b)
      ∙ or_assoc (posted q t b.token_sets)
          (has_token t (record_tokens r) && (pos + 1) % 2 ^ 64 == q) (has_from q t (suc pos) rs)
]

or_swap : (a b c : Bool) → (a || (b || c)) ≡ (b || (a || c))
or_swap true true c = refl
or_swap true false c = refl
or_swap false b c = refl

pub mem-insert_sorted :
    (q x : ℕ) (xs : List ℕ) → mem q (insert_sorted ltb x xs) ≡ (x == q || mem q xs)
mem-insert_sorted q x [] = refl
mem-insert_sorted q x (y ∷ ys) = elim (Bool-cases (ltb y x)) [
  | inl less ↦
      rw (less, insert_sorted)
        (ap (λ z. y == q || z) (mem-insert_sorted q x ys) ∙ or_swap (y == q) (x == q) (mem q ys))
  | inr more ↦ rw (more, insert_sorted) refl
]

pub mem-sort : (q : ℕ) (xs : List ℕ) → mem q (sort ltb xs) ≡ mem q xs
mem-sort q [] = refl
mem-sort q (x ∷ xs) = mem-insert_sorted q x (sort ltb xs) ∙ ap (λ z. x == q || z) (mem-sort q xs)

make_postings-posted :
    (q : ℕ) (t : Text) (cancelled : ℕ → Bool) (poll : ℕ) (sets postings : List (Text × List ℕ))
    → make_postings cancelled poll sets ≡ success postings
    → posted q t postings ≡ posted q t sets
unfolding make_postings
make_postings-posted q t cancelled poll [] postings h = ap (posted q t) (sym (success-injective h))
make_postings-posted q t cancelled poll ((k, ids) ∷ sets) postings h =
    elim (Bool-cases (cancelled poll)) [
      | inl stop ↦ absurd (let bad = rw (stop, make_postings) at h in cc)
      | inr on ↦
          let h' = rw (on, make_postings) at h in
          let (rest, made, last) = >>=-eq-success (make_postings cancelled (suc poll) sets) _ h' in
          ap (posted q t) (sym (success-injective last))
          ∙ step rest (make_postings-posted q t cancelled (suc poll) sets rest made)
    ]
  where
    step :
        (rest : List (Text × List ℕ))
        → posted q t rest ≡ posted q t sets
        → posted q t ((k, sort ltb ids) ∷ rest) ≡ posted q t ((k, ids) ∷ sets)
    step rest ih = elim (Bool-cases (text_eq k t)) [
      | inl here ↦ rw here (mem-sort q ids)
      | inr away ↦ rw away ih
    ]

-- In an index that was built, a token leads to the identifier of a file exactly if the file's name,
-- extension or relative path has the token. The identifier is the file's place, counted from 1, as a
-- 64-bit number.
pub build-posted :
    (q : ℕ) (t : Text) (generation : ℕ) (scan : ScanOutput) (cancelled : ℕ → Bool)
    (snapshot : IndexSnapshot)
    → build generation scan cancelled ≡ success snapshot
    → posted q t snapshot.token_index ≡ has_from q t 0 scan.records
unfolding build
build-posted q t generation scan cancelled snapshot h = elim (Bool-cases (cancelled 0)) [
  | inl stop ↦ absurd (let bad = rw (stop, build) at h in cc)
  | inr on ↦
      let h' = rw (on, build) at h in
      let (b, added, h'') =
        >>=-eq-success (add_records cancelled 0 scan.records empty_building) _ h' in
      let (postings, made, last) =
        >>=-eq-success (make_postings cancelled (suc (length scan.records)) b.token_sets) _ h'' in
      ap (λ s. posted q t s.token_index) (sym (success-injective last))
      ∙ make_postings-posted q t cancelled (suc (length scan.records)) b.token_sets postings made
      ∙ add_records-posted q t cancelled 0 scan.records empty_building b added
]
