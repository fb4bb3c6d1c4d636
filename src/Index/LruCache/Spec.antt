-- ===== src/Index/LruCache/Spec.antt =====
-- What the cache promises: a list of keys and values, the most recently used first, of which only
-- the first `capacity` are kept.
use core_desk.Base.{if◌then◌else◌, ℕ, List, [], ◌∷◌, Option, none, some, take}
use core_desk.Base.Eq.{Eq}

module _ {ℓ} {K V : Type ℓ} ⦃e : Eq K⦄ where
  abbrev pub lookup : K → List (K × V) → Option V
  lookup k [] = none
  lookup k ((j, v) ∷ l) = if e.beq j k then some v else lookup k l

  abbrev pub remove : K → List (K × V) → List (K × V)
  remove k [] = []
  remove k ((j, v) ∷ l) = if e.beq j k then l else (j, v) ∷ remove k l

  -- A hit moves to the front.
  abbrev pub recent_get : K → List (K × V) → List (K × V)
  recent_get k l = elim (lookup k l) [ none ↦ l | some v ↦ (k, v) ∷ remove k l ]

  -- A stored pair is the first, and the least recent of too many is dropped.
  abbrev pub recent_put : ℕ → K → V → List (K × V) → List (K × V)
  recent_put capacity k v l = take capacity ((k, v) ∷ remove k l)
