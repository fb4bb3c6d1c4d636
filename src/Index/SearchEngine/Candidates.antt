-- ===== src/Index/SearchEngine/Candidates.antt =====
-- The candidates of a query in src/index/SearchEngine.cpp: the files that every token leads to,
-- whatever the order in which the lists are intersected.
use core_desk.Base.{
  ℕ, suc, ◌<◌, ltb, ◌≡◌, refl, ap, ◌∙◌, Bool-cases, inl, inr, Bool, true, false, ◌&&◌, List, [],
  ◌∷◌, length, All, all_of, arith,
}
use core_desk.Common.{Text}
use core_desk.Index.Snapshot.{IndexSnapshot}
use core_desk.Index.SearchEngine.Postings.{
  skip_less, intersect_sorted, intersect_rest, intersect_lists, insert_sorted, sort, shorter,
  all_candidates, candidates_for_token, candidates,
}
use core_desk.Index.SearchEngine.Intersect.{mem, Ascending, intersect_sorted-mem}

module _ {κ} (P : ℕ → Type κ) where
  All-intersect_sorted : (left right : List ℕ) → All P left → All P (intersect_sorted left right)
  unfolding intersect_sorted
  All-intersect_sorted [] right a = tt
  All-intersect_sorted (x ∷ left) right a =
      go (skip_less x right) refl λ r. All-intersect_sorted left r a.1
    where
      go :
          (rest : List ℕ)
          → skip_less x right ≡ rest
          → ((r : List ℕ) → All P (intersect_sorted left r))
          → All P (intersect_sorted (x ∷ left) right)
      go [] e ih = rw (e, intersect_sorted) tt
      go (y ∷ rest) e ih = elim (Bool-cases (ltb x y)) [
        | inl less ↦ rw (e, less, intersect_sorted) (ih (y ∷ rest))
        | inr same ↦ rw (e, same, intersect_sorted) (a.0, ih rest)
      ]

intersect_sorted-Ascending :
    (left right : List ℕ) → Ascending left → Ascending (intersect_sorted left right)
unfolding intersect_sorted
intersect_sorted-Ascending [] right a = tt
intersect_sorted-Ascending (x ∷ left) right a =
    go (skip_less x right) refl λ r. intersect_sorted-Ascending left r a.1
  where
    go :
        (rest : List ℕ)
        → skip_less x right ≡ rest
        → ((r : List ℕ) → Ascending (intersect_sorted left r))
        → Ascending (intersect_sorted (x ∷ left) right)
    go [] e ih = rw (e, intersect_sorted) tt
    go (y ∷ rest) e ih = elim (Bool-cases (ltb x y)) [
      | inl less ↦ rw (e, less, intersect_sorted) (ih (y ∷ rest))
      | inr same ↦
          rw (e, same, intersect_sorted) (All-intersect_sorted (λ z. x < z) left rest a.0, ih rest)
    ]

-- A number in all the lists.
abbrev all_in : ℕ → List (List ℕ) → Bool
all_in q [] = true
all_in q (l ∷ ls) = mem q l && all_in q ls

and_true : (b : Bool) → b ≡ (b && true)
and_true true = refl
and_true false = refl

and_assoc : (a b c : Bool) → ((a && b) && c) ≡ (a && (b && c))
and_assoc true b c = refl
and_assoc false b c = refl

and_swap : (a b c : Bool) → (a && (b && c)) ≡ (b && (a && c))
and_swap true true c = refl
and_swap true false c = refl
and_swap false true c = refl
and_swap false false c = refl

intersect_rest-mem :
    (q : ℕ) (l : List ℕ) (ls : List (List ℕ))
    → Ascending l
    → All Ascending ls
    → mem q (intersect_rest l ls) ≡ (mem q l && all_in q ls)
unfolding intersect_rest
intersect_rest-mem q [] ls a bs = refl
intersect_rest-mem q (x ∷ xs) [] a bs = and_true (mem q (x ∷ xs))
intersect_rest-mem q (x ∷ xs) (l ∷ ls) a bs =
    intersect_rest-mem q (intersect_sorted (x ∷ xs) l) ls (intersect_sorted-Ascending (x ∷ xs) l a)
      bs.1
    ∙ ap (λ z. z && all_in q ls) (intersect_sorted-mem q (x ∷ xs) l a bs.0)
    ∙ and_assoc (mem q (x ∷ xs)) (mem q l) (all_in q ls)

intersect_lists-mem :
    (q : ℕ) (ls : List (List ℕ))
    → 0 < length ls
    → All Ascending ls
    → mem q (intersect_lists ls) ≡ all_in q ls
intersect_lists-mem q [] h bs = absurd (omega (arith, h))
intersect_lists-mem q (l ∷ ls) h bs = intersect_rest-mem q l ls bs.0 bs.1

-- Sorting the lists changes neither what they have in common nor that there are some.
record Sorted (ls sorted : List (List ℕ)) : Type 0 where
  common : (q : ℕ) → all_in q sorted ≡ all_in q ls
  ascending : All Ascending sorted
  count : length sorted ≡ length ls

insert-Sorted :
    (l : List ℕ) (ls : List (List ℕ))
    → Ascending l
    → All Ascending ls
    → Sorted (l ∷ ls) (insert_sorted shorter l ls)
insert-Sorted l [] a bs = record { common = λ q. refl; ascending = (a, tt); count = refl }
insert-Sorted l (m ∷ ls) a bs = elim (Bool-cases (shorter m l)) [
  | inl t ↦
      let s = insert-Sorted l ls a bs.1 in
      rw (t, insert_sorted)
        (record {
          common =
              λ q. ap (λ z. mem q m && z) (s.common q) ∙ and_swap (mem q m) (mem q l) (all_in q ls);
          ascending = (bs.0, s.ascending);
          count = ap suc s.count;
        })
  | inr f ↦ rw (f, insert_sorted) (record { common = λ q. refl; ascending = (a, bs); count = refl })
]

sort-Sorted : (ls : List (List ℕ)) → All Ascending ls → Sorted ls (sort shorter ls)
sort-Sorted [] bs = record { common = λ q. refl; ascending = tt; count = refl }
sort-Sorted (l ∷ ls) bs =
    let s = sort-Sorted ls bs.1 in
    let t = insert-Sorted l (sort shorter ls) bs.0 s.ascending in
    record {
      common = λ q. t.common q ∙ ap (λ z. mem q l && z) (s.common q);
      ascending = t.ascending;
      count = t.count ∙ ap suc s.count;
    }

all_in-all_candidates :
    (q : ℕ) (snapshot : IndexSnapshot) (tokens : List Text)
    → all_in q (all_candidates snapshot tokens)
      ≡ all_of (λ t. mem q (candidates_for_token snapshot t)) tokens
all_in-all_candidates q snapshot [] = refl
all_in-all_candidates q snapshot (t ∷ ts) =
    ap (λ z. mem q (candidates_for_token snapshot t) && z) (all_in-all_candidates q snapshot ts)

-- A file is a candidate of a query exactly if it is a candidate of each of its tokens, if the lists of
-- the tokens are ascending.
pub candidates-mem :
    (q : ℕ) (snapshot : IndexSnapshot) (token : Text) (tokens : List Text)
    → All Ascending (all_candidates snapshot (token ∷ tokens))
    → mem q (candidates snapshot (token ∷ tokens))
      ≡ all_of (λ t. mem q (candidates_for_token snapshot t)) (token ∷ tokens)
candidates-mem q snapshot token tokens bs =
    let s = sort-Sorted (all_candidates snapshot (token ∷ tokens)) bs in
    intersect_lists-mem q (sort shorter (all_candidates snapshot (token ∷ tokens)))
      (omega (arith, s.count)) s.ascending
    ∙ s.common q
    ∙ all_in-all_candidates q snapshot (token ∷ tokens)
