-- ===== src/Index/LruCache/Refines.antt =====
-- On a valid cache no iterator dangles, and `get` and `put` do what the list of recent pairs says.
use core_desk.Base.{
  ℕ, suc, ◌+◌, ◌<◌, ◌≤◌, ltb, ltb→lt, ltb→le, ◌≡◌, refl, sym, ap, ◌∙◌, subst, Bool-cases,
  Option-cases, inl, inr, false, List, [], ◌∷◌, none, some, length, take, take_whole, All, arith,
  if◌then◌else◌,
}
use core_desk.Base.Eq.{Eq}
use core_desk.Index.LruCache.{
  Node, LruCache, node_at, without, last, pop_back, find, erase, evict, add_front, put,
}
use core_desk.Index.LruCache.Nodes.{view, All-pop_back, last-pop_back, view-pop_back, length-view}
use core_desk.Index.LruCache.Places.{
  place_of, Apart, Distinct-pop_back, place_of-pop_back, find-erase,
}
use core_desk.Index.LruCache.Spec.{recent_put}
use core_desk.Index.LruCache.Moves.{
  IsLinked, IsValid, lookup-place_of, remove_absent, splice-IsValid, Moves, entry-Hit,
}

module _ {ℓ} {K V : Type ℓ} ⦃e : Eq K⦄ where
  -- A new node at the front of a list that has no node with its key.
  Apart-new :
      (n : Node K V) (ns : List (Node K V))
      → All (λ m. m.place < n.place) ns
      → place_of n.key ns ≡ none
      → All (Apart n) ns
  Apart-new n [] below h = tt
  Apart-new n (m ∷ ns) below h =
      let other : e.beq m.key n.key ≡ false = ground arith in
      let rest : place_of n.key ns ≡ none = ground arith in
      ((ground (arith, below.0), other), Apart-new n ns below.1 rest)

  below_next :
      (p : ℕ) (ns : List (Node K V)) → All (λ m. m.place < p) ns → All (λ m. m.place < p + 1) ns
  below_next p [] a = tt
  below_next p (m ∷ ns) a = (omega (arith, a.0), below_next p ns a.1)

  add_front-IsLinked :
      (c : LruCache K V) (k : K) (v : V)
      → IsLinked c
      → place_of k c.items ≡ none
      → IsLinked (add_front c k v)
  unfolding add_front find
  add_front-IsLinked c k v l absent = record {
    distinct = (
      Apart-new (record { place = c.fresh; key = k; value = v }) c.items l.below absent,
      l.distinct,
    );
    below = (omega arith, below_next c.fresh c.items l.below);
    agree = λ q. ground (arith, l.agree q);
  }

  drop_last-IsLinked :
      (c : LruCache K V) (n : Node K V)
      → IsLinked c
      → last c.items ≡ some n
      → IsLinked (record c { entries = erase n.key c.entries; items = pop_back c.items })
  drop_last-IsLinked c n l h = record {
    distinct = Distinct-pop_back c.items l.distinct;
    below = All-pop_back (λ m. m.place < c.fresh) c.items l.below;
    agree = λ q.
        find-erase q n.key c.entries
        ∙ ap (λ x. if e.beq n.key q then none else x) (l.agree q)
        ∙ sym (place_of-pop_back q c.items n l.distinct h);
  }

  -- `put` drops at most the one item that is too many.
  evict-Moves :
      (c : LruCache K V)
      → 0 < c.capacity
      → IsLinked c
      → length c.items ≤ suc c.capacity
      → (c' : LruCache K V) × (evict c ≡ some c') × Moves c (take c.capacity (view c.items)) c'
  unfolding evict
  evict-Moves c positive l h = elim (Bool-cases (ltb c.capacity (length c.items))) [
    | inl over ↦
        let full : length c.items ≡ suc c.capacity =
          ground (arith, ltb→lt c.capacity (length c.items) over, h) in
        let (n, is_last, shorter) = last-pop_back c.items c.capacity full in
        let dropped = record c { entries = erase n.key c.entries; items = pop_back c.items } in
        (
          dropped,
          ground (arith, over, is_last),
          record {
            valid = record {
              positive = positive;
              bounded = omega (arith, shorter);
              linked = drop_last-IsLinked c n l is_last;
            };
            items = view-pop_back c.items c.capacity full;
            capacity = refl;
          },
        )
    | inr under ↦
        let fits : length c.items ≤ c.capacity = ltb→le c.capacity (length c.items) under in
        (
          c,
          rw under refl,
          record {
            valid = record { positive = positive; bounded = fits; linked = l };
            items = sym (
                take_whole (view c.items) c.capacity
                  (subst (λ x. x ≤ c.capacity) (sym (length-view c.items)) fits));
            capacity = refl;
          },
        )
  ]

  -- Storing a pair never follows a dangling iterator: the pair becomes the most recent one, its key's
  -- old value is gone, of more pairs than the capacity the least recent one is dropped, and the cache
  -- stays valid.
  pub put-Moves :
      (c : LruCache K V) (k : K) (v : V)
      → IsValid c
      → (c' : LruCache K V) × (put c k v ≡ some c')
        × Moves c (recent_put c.capacity k v (view c.items)) c'
  unfolding put add_front
  put-Moves c k v valid = elim (Option-cases (find k c.entries)) [
    | inl miss ↦
        let absent = sym (valid.linked.agree k) ∙ miss in
        let (c', done, moves) =
          evict-Moves (add_front c k v) valid.positive
            (add_front-IsLinked c k v valid.linked absent) (omega (arith, valid.bounded)) in
        let gone = remove_absent k (view c.items) (lookup-place_of k c.items absent) in
        (
          c',
          ground (arith, miss, done),
          record {
            valid = moves.valid;
            items = moves.items ∙ ap (λ x. take c.capacity ((k, v) ∷ x)) (sym gone);
            capacity = moves.capacity;
          },
        )
    | inr (place, found) ↦
        let (n, at, key, hit) = entry-Hit c k place valid found in
        let here : node_at n.place c.items ≡ some n =
          subst (λ x. node_at x c.items ≡ some n) (sym at) hit.found in
        let others = ap (λ x. view (without x c.items)) at ∙ hit.rest in
        let valid' = splice-IsValid c n v valid here in
        let fits : length (view (without n.place c.items)) < c.capacity =
          omega (arith, length-view (without n.place c.items), valid'.bounded) in
        (
          record c { items = record n { value = v } ∷ without n.place c.items },
          ground (arith, found, hit.found),
          record {
            valid = valid';
            items =
                ap (λ x. (x, v) ∷ view (without n.place c.items)) key
                ∙ sym (take_whole ((k, v) ∷ view (without n.place c.items)) c.capacity fits)
                ∙ ap (λ x. take c.capacity ((k, v) ∷ x)) others;
            capacity = refl;
          },
        )
  ]
