-- ===== src/Index/LruCache/Nodes.antt =====
-- The list of nodes: distinct keys and places, and what moving and dropping a node does.
use core_desk.Base.{
  ℕ, suc, ◌==◌, ◌≡◌, refl, ap, subst, Bool-cases, inl, inr, List, [], ◌∷◌, some, map, length, take,
  All, arith,
}
use core_desk.Index.LruCache.{Node, node_at, without, last, pop_back}

module _ {ℓ} {K V : Type ℓ} where
  abbrev pub view : List (Node K V) → List (K × V)
  view = map λ n. (n.key, n.value)

  pub All-node_at {κ} :
      (P : Node K V → Type κ) (place : ℕ) (ns : List (Node K V)) (n : Node K V)
      → All P ns
      → node_at place ns ≡ some n
      → P n
  unfolding node_at
  All-node_at P place [] n a h = absurd (cc)
  All-node_at P place (m ∷ ns) n a h = elim (Bool-cases (m.place == place)) [
    | inl t ↦ let same : m ≡ n = ground arith in subst P same a.0
    | inr f ↦ All-node_at P place ns n a.1 (ground arith)
  ]

  pub All-without {κ} :
      (P : Node K V → Type κ) (place : ℕ) (ns : List (Node K V))
      → All P ns
      → All P (without place ns)
  unfolding without
  All-without P place [] a = tt
  All-without P place (m ∷ ns) a = elim (Bool-cases (m.place == place)) [
    | inl t ↦ rw t a.1
    | inr f ↦ rw f (a.0, All-without P place ns a.1)
  ]

  pub All-pop_back {κ} :
      (P : Node K V → Type κ) (ns : List (Node K V)) → All P ns → All P (pop_back ns)
  unfolding pop_back
  All-pop_back P [] a = tt
  All-pop_back P (m ∷ []) a = tt
  All-pop_back P (m ∷ n ∷ ns) a = (a.0, All-pop_back P (n ∷ ns) a.1)

  pub length-without :
      (place : ℕ) (ns : List (Node K V)) (n : Node K V)
      → node_at place ns ≡ some n
      → suc (length (without place ns)) ≡ length ns
  unfolding node_at without
  length-without place [] n h = absurd (cc)
  length-without place (m ∷ ns) n h = ground (arith, length-without place ns n)

  pub node_at-place :
      (place : ℕ) (ns : List (Node K V)) (n : Node K V)
      → node_at place ns ≡ some n
      → n.place ≡ place
  unfolding node_at
  node_at-place place [] n h = absurd (cc)
  node_at-place place (m ∷ ns) n h = ground (arith, node_at-place place ns n)

  pub last-some : (n : Node K V) (ns : List (Node K V)) → (m : Node K V) × (last (n ∷ ns) ≡ some m)
  unfolding last
  last-some n [] = (n, refl)
  last-some n (m ∷ ns) = last-some m ns

  pub All-last {κ} :
      (P : Node K V → Type κ) (ns : List (Node K V)) (n : Node K V)
      → All P ns
      → last ns ≡ some n
      → P n
  unfolding last
  All-last P [] n a h = absurd (cc)
  All-last P (m ∷ []) n a h = let same : m ≡ n = ground arith in subst P same a.0
  All-last P (m ∷ k ∷ ns) n a h = All-last P (k ∷ ns) n a.1 h

  -- Dropping the last of `suc m` items keeps the first `m`.
  pub view-pop_back :
      (ns : List (Node K V)) (m : ℕ) → length ns ≡ suc m → view (pop_back ns) ≡ take m (view ns)
  unfolding pop_back
  view-pop_back [] m h = absurd (omega arith)
  view-pop_back (n ∷ []) m h = let e : m ≡ 0 = omega arith in rw e
  view-pop_back (n ∷ k ∷ ns) m h =
      let e : m ≡ suc (length ns) = omega arith in
      rw e (ap (◌∷◌ (n.key, n.value)) (view-pop_back (k ∷ ns) (length ns) refl))

  pub length-pop_back :
      (n : Node K V) (ns : List (Node K V)) → length (pop_back (n ∷ ns)) ≡ length ns
  unfolding pop_back
  length-pop_back n [] = refl
  length-pop_back n (m ∷ ns) = ap suc (length-pop_back m ns)

  pub length-view : (ns : List (Node K V)) → length (view ns) ≡ length ns
  length-view [] = refl
  length-view (n ∷ ns) = ap suc (length-view ns)

  -- A list that is not empty has a last node, and is one shorter without it.
  pub last-pop_back :
      (ns : List (Node K V)) (m : ℕ)
      → length ns ≡ suc m
      → (n : Node K V) × (last ns ≡ some n) × (length (pop_back ns) ≡ m)
  last-pop_back [] m h = absurd (omega arith)
  last-pop_back (n ∷ ns) m h =
      let (k, e) = last-some n ns in (k, e, omega (arith, length-pop_back n ns, h))
