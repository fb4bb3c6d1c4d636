-- ===== src/Index/LruCache/Kept.antt =====
-- A property of the pairs that the cache keeps holds after a call as well.
use core_desk.Base.{
  ℕ, zero, suc, ◌≡◌, subst, Bool-cases, Option-cases, inl, inr, List, [], ◌∷◌, some, take, All,
  arith,
}
use core_desk.Base.Eq.{Eq}
use core_desk.Index.LruCache.Spec.{lookup, remove, recent_get, recent_put}

module _ {ℓ} {K V : Type ℓ} ⦃e : Eq K⦄ (P : K × V → Type 0) where
  pub All-remove : (k : K) (l : List (K × V)) → All P l → All P (remove k l)
  All-remove k [] a = tt
  All-remove k ((j, v) ∷ l) a = elim (Bool-cases (e.beq j k)) [
    | inl t ↦ rw (t, remove) a.1
    | inr f ↦ rw (f, remove) (a.0, All-remove k l a.1)
  ]

  pub All-lookup : (k : K) (l : List (K × V)) (v : V) → All P l → lookup k l ≡ some v → P (k, v)
  All-lookup k [] v a h = absurd (cc)
  All-lookup k ((j, w) ∷ l) v a h = elim (Bool-cases (e.beq j k)) [
    | inl t ↦
        let same : w ≡ v = ground arith in
        subst (λ x. P (x, v)) (e.sound j k t) (subst (λ x. P (j, x)) same a.0)
    | inr f ↦ All-lookup k l v a.1 (ground arith)
  ]

  pub All-recent_get : (k : K) (l : List (K × V)) → All P l → All P (recent_get k l)
  All-recent_get k l a = elim (Option-cases (lookup k l)) [
    | inl miss ↦ rw (miss, recent_get) a
    | inr (v, found) ↦ rw (found, recent_get) (All-lookup k l v a found, All-remove k l a)
  ]

  pub All-take : (n : ℕ) (l : List (K × V)) → All P l → All P (take n l)
  All-take zero l a = tt
  All-take (suc n) [] a = tt
  All-take (suc n) (x ∷ l) a = (a.0, All-take n l a.1)

  pub All-recent_put :
      (n : ℕ) (k : K) (v : V) (l : List (K × V)) → P (k, v) → All P l → All P (recent_put n k v l)
  All-recent_put n k v l p a = All-take n ((k, v) ∷ remove k l) (p, All-remove k l a)
