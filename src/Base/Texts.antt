-- ===== src/Base/Texts.antt =====
-- What `starts_with` and `contains` decide.
use core_desk.Base.Tests.{Bool-cases}
use core_desk.Base.Lists.{starts_with, contains, All}
use Prim.Native.Nat.{ℕ}
use mathlib.Core.Path.{◌≡◌, refl, ap}
use mathlib.Core.Logic.{◌≢◌, inl, inr}
use mathlib.Core.Bool.{true, false}
use mathlib.Core.List.{List, [], ◌∷◌, ◌++◌}
use native.Mathlib.Omega.{arith}

pub starts_with-append : (p r : List ℕ) → starts_with (p ++ r) p ≡ true
unfolding starts_with
starts_with-append [] [] = refl
starts_with-append [] (x ∷ r) = refl
starts_with-append (x ∷ p) r = ground (arith, starts_with-append p r)

-- A text that starts with a prefix is the prefix and a rest.
pub starts_with-eq_true : (s p : List ℕ) → starts_with s p ≡ true → (r : List ℕ) × (s ≡ p ++ r)
unfolding starts_with
starts_with-eq_true s [] h = (s, refl)
starts_with-eq_true [] (y ∷ p) h = absurd (cc)
starts_with-eq_true (x ∷ s) (y ∷ p) h =
    let (r, e) = starts_with-eq_true s p (ground arith) in (r, ground arith)

pub contains-append : (pre p post : List ℕ) → contains (pre ++ (p ++ post)) p ≡ true
unfolding contains
contains-append [] p post = contains_prefix (p ++ post) (starts_with-append p post)
  where
    contains_prefix : (s : List ℕ) → starts_with s p ≡ true → contains s p ≡ true
    contains_prefix [] h = h
    contains_prefix (x ∷ s) h = ground arith
contains-append (x ∷ pre) p post = ground (arith, contains-append pre p post)

-- A text contains a pattern only as a part between two others.
pub contains-eq_true :
    (s p : List ℕ)
    → contains s p ≡ true
    → (pre : List ℕ) × (post : List ℕ) × (s ≡ pre ++ (p ++ post))
unfolding contains
contains-eq_true [] p h = let (r, e) = starts_with-eq_true [] p h in ([], r, e)
contains-eq_true (x ∷ s) p h = elim (Bool-cases (starts_with (x ∷ s) p)) [
  | inl t ↦ let (r, e) = starts_with-eq_true (x ∷ s) p t in ([], r, e)
  | inr f ↦
      let (pre, post, e) = contains-eq_true s p (ground arith) in (x ∷ pre, post, ap (◌∷◌ x) e)
]

-- A byte that is not found is nowhere in the text.
pub contains_byte-eq_false : (s : List ℕ) (c : ℕ) → contains s (c ∷ []) ≡ false → All (λ x. x ≢ c) s
unfolding contains starts_with
contains_byte-eq_false [] c h = tt
contains_byte-eq_false (x ∷ []) c h = (ground arith, tt)
contains_byte-eq_false (x ∷ y ∷ s) c h =
    (ground arith, contains_byte-eq_false (y ∷ s) c (ground arith))
