-- ===== src/Index/SearchEngine/Bounds.antt =====
-- No search reads out of range, and none returns more hits than its limit.
use core_desk.Base.{
  ℕ, zero, suc, ◌+◌, ◌≤◌, ◌<◌, ltb, ◌≡◌, refl, ap, subst, Bool-cases, Option-cases, inl, inr, List,
  [], ◌∷◌, map, some, length, length-take, get_elem?, take, All, arith, contains,
}
use core_desk.Base.Eq.{Eq, nat_has_eq}
use core_desk.Common.{Text}
use core_desk.Index.Snapshot.{IndexSnapshot, find}
use core_desk.Index.SearchEngine.Postings.{candidates, sort}
use core_desk.Index.SearchEngine.Ranking.{
  RankedHit, SearchHit, ranked_record, max_limit, ranked_hit_less, make_ranked_hit, top_hits,
  rank_candidates, rank_names,
}
use core_desk.Index.SearchEngine.Engine.{compute_hits}

-- A snapshot whose positions are in range.
pub record IsIndexed (snapshot : IndexSnapshot) : Type 0 where
  pub positions : All (λ e. e.1 < length snapshot.records) snapshot.id_to_pos
  pub names : length snapshot.normalized_names ≤ length snapshot.records

pub All-find {ℓ} :
    {K V : Type ℓ} ⦃e : Eq K⦄ (P : V → Type 0) (key : K) (es : List (K × V)) (v : V)
    → All (λ x. P x.1) es
    → find key es ≡ some v
    → P v
All-find P key [] v a h = absurd (cc)
All-find ⦃e⦄ P key ((k, w) ∷ es) v a h = elim (Bool-cases (e.beq k key)) [
  | inl t ↦ let same : w ≡ v = ground arith in subst P same a.0
  | inr f ↦ All-find P key es v a.1 (ground arith)
]

get_elem?-some {ℓ} :
    {A : Type ℓ} (xs : List A) (i : ℕ) → i < length xs → (x : A) × (get_elem? xs i ≡ some x)
get_elem?-some [] i h = absurd (omega arith)
get_elem?-some (x ∷ xs) zero h = (x, refl)
get_elem?-some (x ∷ xs) (suc i) h = get_elem?-some xs i (omega arith)

make_ranked_hit-some :
    (snapshot : IndexSnapshot) (pos : ℕ) (query : Text) (tokens : List Text) (fallback : ℕ)
    → pos < length snapshot.records
    → (hit : RankedHit) × (make_ranked_hit snapshot pos query tokens fallback ≡ some hit)
unfolding make_ranked_hit
make_ranked_hit-some snapshot pos query tokens fallback h =
    let (r, found) = get_elem?-some snapshot.records pos h in
    (ranked_record r query tokens fallback, rw (found, make_ranked_hit) refl)

rank_candidates-some :
    (snapshot : IndexSnapshot) (query : Text) (tokens : List Text) (ids : List ℕ)
    → IsIndexed snapshot
    → (hits : List RankedHit) × (rank_candidates snapshot query tokens ids ≡ some hits)
unfolding rank_candidates
rank_candidates-some snapshot query tokens [] v = ([], refl)
rank_candidates-some snapshot query tokens (id ∷ ids) v =
    let (rest, later) = rank_candidates-some snapshot query tokens ids v in
    elim (Option-cases (find id snapshot.id_to_pos)) [
      | inl miss ↦ (rest, ground (arith, miss, later))
      | inr (pos, found) ↦
          let inside =
            All-find (λ p. p < length snapshot.records) id snapshot.id_to_pos pos v.positions
              found in
          let (hit, made) = make_ranked_hit-some snapshot pos query tokens 0 inside in
          (hit ∷ rest, ground (arith, found, later, made))
    ]

rank_names-some :
    (snapshot : IndexSnapshot) (query : Text) (names : List Text) (pos ranked : ℕ)
    → pos + length names ≤ length snapshot.records
    → (hits : List RankedHit) × (rank_names snapshot query names pos ranked ≡ some hits)
unfolding rank_names
rank_names-some snapshot query [] pos ranked h = ([], refl)
rank_names-some snapshot query (name ∷ names) pos ranked h =
    elim (Bool-cases (ltb ranked max_limit)) [
      | inr full ↦ ([], rw (full, rank_names) refl)
      | inl room ↦ elim (Bool-cases (contains name query)) [
        | inl has ↦
            let (hit, made) = make_ranked_hit-some snapshot pos query [] 30 (omega (arith, h)) in
            let (rest, later) =
              rank_names-some snapshot query names (suc pos) (suc ranked) (omega (arith, h)) in
            (hit ∷ rest, ground (arith, room, has, made, later))
        | inr not_in ↦
            let (rest, later) =
              rank_names-some snapshot query names (suc pos) ranked (omega (arith, h)) in
            (rest, rw (room, not_in, rank_names) later)
      ]
    ]

length-map {ℓ κ} :
    {A : Type ℓ} {B : Type κ} (f : A → B) (xs : List A) → length (map f xs) ≡ length xs
length-map f [] = refl
length-map f (x ∷ xs) = ap suc (length-map f xs)

length-top_hits : (ranked : List RankedHit) (limit : ℕ) → length (top_hits ranked limit) ≤ limit
unfolding top_hits
length-top_hits ranked limit =
    let kept = sort ranked_hit_less ranked in
    omega (arith, length-map (λ h. h.hit) (take limit kept), length-take limit kept)

-- On a snapshot whose positions are in range, the search reads no record out of range, whatever the
-- query, its tokens and the limit are, and it finds at most as many hits as the limit.
pub compute_hits-some :
    (snapshot : IndexSnapshot) (query : Text) (tokens : List Text) (limit : ℕ)
    → IsIndexed snapshot
    → (hits : List SearchHit) × (compute_hits snapshot query tokens limit ≡ some hits)
      × (length hits ≤ limit)
unfolding compute_hits
compute_hits-some snapshot query tokens limit v = go (candidates snapshot tokens) refl
  where
    go :
        (found : List ℕ)
        → candidates snapshot tokens ≡ found
        → (hits : List SearchHit) × (compute_hits snapshot query tokens limit ≡ some hits)
          × (length hits ≤ limit)
    go [] e =
        let (ranked, r) =
          rank_names-some snapshot query snapshot.normalized_names 0 0 (omega (arith, v.names)) in
        (top_hits ranked limit, ground (arith, e, r), length-top_hits ranked limit)
    go (id ∷ ids) e =
        let (ranked, r) = rank_candidates-some snapshot query tokens (id ∷ ids) v in
        (top_hits ranked limit, ground (arith, e, r), length-top_hits ranked limit)
