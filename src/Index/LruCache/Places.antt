-- ===== src/Index/LruCache/Places.antt =====
-- Nodes with distinct keys and places, and what each key leads to.
use core_desk.Base.{
  ℕ, ◌==◌, ◌≡◌, refl, sym, ap, subst, Bool-cases, inl, inr, true, false, List, [], ◌∷◌, Option,
  none, some, All, arith, if◌then◌else◌,
}
use core_desk.Base.Eq.{Eq}
use core_desk.Index.LruCache.{Node, node_at, without, last, pop_back, find, erase}
use core_desk.Index.LruCache.Spec.{lookup, remove}
use core_desk.Index.LruCache.Nodes.{
  view, All-node_at, All-without, All-pop_back, All-last, node_at-place,
}

pub beq-false_sym {ℓ} : {K : Type ℓ} ⦃e : Eq K⦄ (a b : K) → e.beq a b ≡ false → e.beq b a ≡ false
beq-false_sym ⦃e⦄ a b h = elim (Bool-cases (e.beq b a)) [
  | inl t ↦
      let same = e.sound b a t in
      let t' : e.beq a b ≡ true = subst (λ x. e.beq a x ≡ true) (sym same) (e.reflexive a) in
      absurd (cc)
  | inr f ↦ f
]

-- Different keys are not both equal to a third.
pub beq_meet {ℓ} :
    {K : Type ℓ} ⦃e : Eq K⦄ (a b q : K) → e.beq a b ≡ false → e.beq a q ≡ true → e.beq b q ≡ false
beq_meet ⦃e⦄ a b q h t = subst (λ x. e.beq b x ≡ false) (e.sound a q t) (beq-false_sym a b h)

module _ {ℓ} {K V : Type ℓ} ⦃e : Eq K⦄ where
  -- The place of the first node with a key.
  abbrev pub place_of : K → List (Node K V) → Option ℕ
  place_of q [] = none
  place_of q (n ∷ ns) = if e.beq n.key q then some n.place else place_of q ns

  abbrev pub Apart : Node K V → Node K V → Type 0
  Apart n m = ((m.place == n.place) ≡ false) × (e.beq m.key n.key ≡ false)

  Apart-sym : (n m : Node K V) → Apart n m → Apart m n
  Apart-sym n m a = (ground arith, beq-false_sym m.key n.key a.1)

  -- No two nodes share a place or a key.
  abbrev pub Distinct : List (Node K V) → Type 0
  Distinct [] = Unit
  Distinct (n ∷ ns) = All (Apart n) ns × Distinct ns

  -- What a place leads to.
  pub record Hit (k : K) (place : ℕ) (ns : List (Node K V)) (n : Node K V) : Type ℓ where
    pub found : node_at place ns ≡ some n
    pub key : e.beq n.key k ≡ true
    pub value : lookup k (view ns) ≡ some n.value
    pub rest : view (without place ns) ≡ remove k (view ns)

  pub place_of-Hit :
      (k : K) (place : ℕ) (ns : List (Node K V))
      → Distinct ns
      → place_of k ns ≡ some place
      → (n : Node K V) × Hit k place ns n
  unfolding node_at without
  place_of-Hit k place [] d h = absurd (cc)
  place_of-Hit k place (m ∷ ns) d h = elim (Bool-cases (e.beq m.key k)) [
    | inl t ↦ (m, record { found = ground arith; key = t; value = rw t; rest = ground arith })
    | inr f ↦
        let (n, hit) = place_of-Hit k place ns d.1 (ground arith) in
        let apart = (All-node_at (Apart m) place ns n d.0 hit.found).0 in
        let at = node_at-place place ns n hit.found in
        let other : (m.place == place) ≡ false = ground arith in
        (
          n,
          record {
            found = rw other hit.found;
            key = hit.key;
            value = rw f hit.value;
            rest = rw (other, f) (ap (◌∷◌ (m.key, m.value)) hit.rest);
          },
        )
  ]

  pub Distinct-without :
      (place : ℕ) (ns : List (Node K V)) → Distinct ns → Distinct (without place ns)
  unfolding without
  Distinct-without place [] d = tt
  Distinct-without place (m ∷ ns) d = elim (Bool-cases (m.place == place)) [
    | inl t ↦ rw t d.1
    | inr f ↦ rw f (All-without (Apart m) place ns d.0, Distinct-without place ns d.1)
  ]

  -- A node is apart from the nodes that stay when it is taken out.
  pub Apart-without :
      (place : ℕ) (ns : List (Node K V)) (n : Node K V)
      → Distinct ns
      → node_at place ns ≡ some n
      → All (Apart n) (without place ns)
  unfolding without node_at
  Apart-without place [] n d h = tt
  Apart-without place (m ∷ ns) n d h = elim (Bool-cases (m.place == place)) [
    | inl t ↦ let same : m ≡ n = ground arith in rw t (subst (λ x. All (Apart x) ns) same d.0)
    | inr f ↦
        let later : node_at place ns ≡ some n = ground arith in
        let apart = All-node_at (Apart m) place ns n d.0 later in
        rw f (Apart-sym m n apart, Apart-without place ns n d.1 later)
  ]

  -- Moving a node to the front hides no key.
  pub place_of-splice :
      (q : K) (place : ℕ) (ns : List (Node K V)) (n : Node K V)
      → Distinct ns
      → node_at place ns ≡ some n
      → place_of q (n ∷ without place ns) ≡ place_of q ns
  unfolding without node_at
  place_of-splice q place [] n d h = absurd (cc)
  place_of-splice q place (m ∷ ns) n d h = elim (Bool-cases (m.place == place)) [
    | inl t ↦
        let same : m ≡ n = ground arith in
        rw t (subst (λ x. place_of q (x ∷ ns) ≡ place_of q (m ∷ ns)) same refl)
    | inr f ↦
        let later : node_at place ns ≡ some n = ground arith in
        let apart = All-node_at (Apart m) place ns n d.0 later in
        rw f
          (ground (arith, place_of-splice q place ns n d.1 later, beq_meet n.key m.key q apart.1))
  ]

  pub Distinct-pop_back : (ns : List (Node K V)) → Distinct ns → Distinct (pop_back ns)
  unfolding pop_back
  Distinct-pop_back [] d = tt
  Distinct-pop_back (m ∷ []) d = tt
  Distinct-pop_back (m ∷ n ∷ ns) d =
      (All-pop_back (Apart m) (n ∷ ns) d.0, Distinct-pop_back (n ∷ ns) d.1)

  -- Dropping the last node hides its key, and no other.
  pub place_of-pop_back :
      (q : K) (ns : List (Node K V)) (n : Node K V)
      → Distinct ns
      → last ns ≡ some n
      → place_of q (pop_back ns) ≡ (if e.beq n.key q then none else place_of q ns)
  unfolding last pop_back
  place_of-pop_back q [] n d h = absurd (cc)
  place_of-pop_back q (m ∷ []) n d h = let same : m ≡ n = ground arith in ground arith
  place_of-pop_back q (m ∷ k ∷ ns) n d h =
      let apart = All-last (Apart m) (k ∷ ns) n d.0 h in
      ground (arith, place_of-pop_back q (k ∷ ns) n d.1 h, beq_meet n.key m.key q apart.1)

module _ {ℓ} {K : Type ℓ} ⦃e : Eq K⦄ where
  pub find-erase :
      (q k : K) (es : List (K × ℕ)) → find q (erase k es) ≡ (if e.beq k q then none else find q es)
  unfolding find erase
  find-erase q k [] = ground arith
  find-erase q k ((j, p) ∷ es) = elim (Bool-cases (e.beq j k)) [
    | inl t ↦
        let same = e.sound j k t in
        rw t (ground (arith, find-erase q k es, ap (λ x. e.beq x q) same))
    | inr f ↦ rw f (ground (arith, find-erase q k es, beq_meet j k q f))
  ]
