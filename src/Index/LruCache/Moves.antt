-- ===== src/Index/LruCache/Moves.antt =====
-- The cache and its list after a hit.
use core_desk.Base.{
  ℕ, ◌<◌, ◌≤◌, ◌≡◌, refl, sym, ap, ◌∙◌, subst, Option-cases, inl, inr, List, [], ◌∷◌, none, some,
  length, All, arith,
}
use core_desk.Base.Eq.{Eq}
use core_desk.Index.LruCache.{Node, LruCache, make, node_at, without, clear, find, get}
use core_desk.Index.LruCache.Nodes.{view, All-node_at, All-without, length-without, node_at-place}
use core_desk.Index.LruCache.Places.{
  place_of, Distinct, Hit, place_of-Hit, Distinct-without, Apart-without, place_of-splice,
}
use core_desk.Index.LruCache.Spec.{lookup, remove, recent_get}

module _ {ℓ} {K V : Type ℓ} ⦃e : Eq K⦄ where
  -- The list and the map agree.
  pub record IsLinked (c : LruCache K V) : Type ℓ where
    pub distinct : Distinct c.items
    pub below : All (λ n. n.place < c.fresh) c.items
    pub agree : (q : K) → find q c.entries ≡ place_of q c.items

  pub record IsValid (c : LruCache K V) : Type ℓ where
    pub positive : 0 < c.capacity
    pub bounded : length c.items ≤ c.capacity
    pub linked : IsLinked c

  pub make-IsValid : (capacity : ℕ) → IsValid (make {K = K} {V = V} capacity)
  unfolding make find
  make-IsValid capacity = record {
    positive = ground arith;
    bounded = omega arith;
    linked = record { distinct = tt; below = tt; agree = λ q. refl };
  }

  pub clear-IsValid : (c : LruCache K V) → IsValid c → IsValid (clear c)
  unfolding clear find
  clear-IsValid c v = record {
    positive = v.positive;
    bounded = omega arith;
    linked = record { distinct = tt; below = tt; agree = λ q. refl };
  }

  pub lookup-place_of :
      (q : K) (ns : List (Node K V)) → place_of q ns ≡ none → lookup q (view ns) ≡ none
  lookup-place_of q [] h = refl
  lookup-place_of q (n ∷ ns) h = ground (arith, lookup-place_of q ns)

  pub remove_absent : (q : K) (l : List (K × V)) → lookup q l ≡ none → remove q l ≡ l
  remove_absent q [] h = refl
  remove_absent q ((j, v) ∷ l) h = ground (arith, remove_absent q l)

  -- Moving a node to the front, with a new value or the old one, keeps the invariant.
  pub splice-IsValid :
      (c : LruCache K V) (n : Node K V) (v : V)
      → IsValid c
      → node_at n.place c.items ≡ some n
      → IsValid (record c { items = record n { value = v } ∷ without n.place c.items })
  splice-IsValid c n v valid h =
      let l = valid.linked in
      record {
        positive = valid.positive;
        bounded = omega (arith, length-without n.place c.items n h, valid.bounded);
        linked = record {
          distinct = (
            Apart-without n.place c.items n l.distinct h,
            Distinct-without n.place c.items l.distinct,
          );
          below = (
            All-node_at (λ m. m.place < c.fresh) n.place c.items n l.below h,
            All-without (λ m. m.place < c.fresh) n.place c.items l.below,
          );
          agree = λ q. l.agree q ∙ sym (place_of-splice q n.place c.items n l.distinct h);
        };
      }

  -- What a call has done to the cache.
  pub record Moves (c : LruCache K V) (l : List (K × V)) (c' : LruCache K V) : Type ℓ where
    pub valid : IsValid c'
    pub items : view c'.items ≡ l
    pub capacity : c'.capacity ≡ c.capacity

  -- The node that the map leads to.
  pub entry-Hit :
      (c : LruCache K V) (k : K) (place : ℕ)
      → IsValid c
      → find k c.entries ≡ some place
      → (n : Node K V) × (n.place ≡ place) × (n.key ≡ k) × Hit k place c.items n
  entry-Hit c k place v h =
      let (n, hit) = place_of-Hit k place c.items v.linked.distinct (sym (v.linked.agree k) ∙ h) in
      (n, node_at-place place c.items n hit.found, e.sound n.key k hit.key, hit)

  moved_items :
      (k key : K) (v : V) (l : List (K × V)) (rest : List (Node K V))
      → key ≡ k
      → lookup k l ≡ some v
      → view rest ≡ remove k l
      → (key, v) ∷ view rest ≡ recent_get k l
  moved_items k key v l rest same value others =
      rw (value, recent_get) (ap (λ x. (x, v) ∷ view rest) same ∙ ap (◌∷◌ (k, v)) others)

  -- A lookup never follows a dangling iterator: it returns the stored value, if there is one, moves
  -- that pair to the front and changes nothing else, and the cache stays valid.
  pub get-Moves :
      (c : LruCache K V) (k : K)
      → IsValid c
      → (c' : LruCache K V) × (get c k ≡ some (c', lookup k (view c.items)))
        × Moves c (recent_get k (view c.items)) c'
  unfolding get
  get-Moves c k v = elim (Option-cases (find k c.entries)) [
    | inl miss ↦
        let gone = lookup-place_of k c.items (sym (v.linked.agree k) ∙ miss) in
        (
          c,
          ground (arith, miss, gone),
          record { valid = v; items = ground (arith, gone); capacity = refl },
        )
    | inr (place, found) ↦
        let (n, at, key, hit) = entry-Hit c k place v found in
        let here : node_at n.place c.items ≡ some n =
          subst (λ x. node_at x c.items ≡ some n) (sym at) hit.found in
        (
          record c { items = n ∷ without n.place c.items },
          ground (arith, found, hit.found, hit.value),
          record {
            valid = splice-IsValid c n n.value v here;
            items =
                moved_items k n.key n.value (view c.items) (without n.place c.items) key hit.value
                  (ap (λ x. view (without x c.items)) at ∙ hit.rest);
            capacity = refl;
          },
        )
  ]
