-- ===== src/Index/SearchEngine/Postings.antt =====
-- The files that hold a token, in src/index/SearchEngine.cpp.
use core_desk.Base.{
  ℕ, ◌==◌, ltb, if◌then◌else◌, Bool, true, false, ◌&&◌, ◌||◌, List, [], ◌∷◌, ◌++◌, none, some,
  length, starts_with,
}
use core_desk.Base.Eq.{Eq, text_has_eq, nat_has_eq}
use core_desk.Common.{Text}
use core_desk.Index.Snapshot.{IndexSnapshot, find}

-- `operator<` of strings: bytes, from the first on.
abbrev pub text_less : Text → Text → Bool
text_less s [] = false
text_less [] (y ∷ t) = true
text_less (x ∷ s) (y ∷ t) = ltb x y || x == y && text_less s t

module _ {ℓ} {A : Type ℓ} (less : A → A → Bool) where
  -- `std::sort`. Where it leaves the order of two elements open, the earlier one stays in front.
  abbrev pub insert_sorted : A → List A → List A
  insert_sorted x [] = x ∷ []
  insert_sorted x (y ∷ ys) = if less y x then y ∷ insert_sorted x ys else x ∷ y ∷ ys

  abbrev pub sort : List A → List A
  sort [] = []
  sort (x ∷ xs) = insert_sorted x (sort xs)

-- `erase(std::unique(...), end)`: of equal neighbours the first stays.
module _ {ℓ} {A : Type ℓ} ⦃e : Eq A⦄ where
  abbrev pub unique_from : A → List A → List A
  unique_from x [] = []
  unique_from x (y ∷ ys) = let rest = unique_from y ys in if e.beq x y then rest else y ∷ rest

  abbrev pub unique : List A → List A
  unique [] = []
  unique (x ∷ xs) = x ∷ unique_from x xs

-- `std::lower_bound` in a sorted list: what is left after the tokens that are less.
abbrev pub lower_bound : List Text → Text → List Text
lower_bound [] token = []
lower_bound (t ∷ ts) token = if text_less t token then lower_bound ts token else t ∷ ts

-- The loop over the tokens that start with a prefix.
unfoldable pub merge_postings : IndexSnapshot → Text → List Text → List ℕ
merge_postings snapshot token [] = []
merge_postings snapshot token (t ∷ ts) =
    let rest = merge_postings snapshot token ts in
    let found = find t snapshot.token_index in
    if starts_with t token then elim found [ none ↦ rest | some ids ↦ ids ++ rest ] else []

abbrev pub merge_prefix_postings : IndexSnapshot → Text → List ℕ
merge_prefix_postings snapshot token =
    unique (sort ltb (merge_postings snapshot token (lower_bound snapshot.sorted_tokens token)))

abbrev pub candidates_for_token : IndexSnapshot → Text → List ℕ
candidates_for_token snapshot token = elim (find token snapshot.token_index) [
  | none ↦ merge_prefix_postings snapshot token
  | some ids ↦ ids
]

-- `std::set_intersection`: the elements of `right` that are less than `x` are passed over.
abbrev pub skip_less : ℕ → List ℕ → List ℕ
skip_less x [] = []
skip_less x (y ∷ ys) = if ltb y x then skip_less x ys else y ∷ ys

unfoldable pub intersect_sorted : List ℕ → List ℕ → List ℕ
intersect_sorted [] right = []
intersect_sorted (x ∷ left) right = elim (skip_less x right) [
  | [] ↦ []
  | y ∷ rest ↦ elim (ltb x y) [
    | true ↦ intersect_sorted left (y ∷ rest)
    | false ↦ x ∷ intersect_sorted left rest
  ]
]

-- The candidates of every token of the query.
abbrev pub all_candidates : IndexSnapshot → List Text → List (List ℕ)
all_candidates snapshot [] = []
all_candidates snapshot (t ∷ ts) = candidates_for_token snapshot t ∷ all_candidates snapshot ts

abbrev pub shorter : List ℕ → List ℕ → Bool
shorter left right = ltb (length left) (length right)

-- The loop `for (i = 1; i < size && !candidates.empty(); ++i)`.
unfoldable pub intersect_rest : List ℕ → List (List ℕ) → List ℕ
unfolding intersect_sorted
intersect_rest [] lists = []
intersect_rest (c ∷ cs) [] = c ∷ cs
intersect_rest (c ∷ cs) (l ∷ lists) = intersect_rest (intersect_sorted (c ∷ cs) l) lists

abbrev pub intersect_lists : List (List ℕ) → List ℕ
intersect_lists [] = []
intersect_lists (l ∷ lists) = intersect_rest l lists

abbrev pub candidates : IndexSnapshot → List Text → List ℕ
candidates snapshot query_tokens =
    intersect_lists (sort shorter (all_candidates snapshot query_tokens))
