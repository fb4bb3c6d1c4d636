-- ===== src/Index/SearchEngine/Intersect.antt =====
-- `intersect_sorted` of src/index/SearchEngine.cpp and sets.
use core_desk.Base.{
  ℕ, ◌==◌, ◌≤◌, ◌<◌, ltb, ltb→lt, ltb→le, ◌≡◌, refl, sym, ap, ◌∙◌, Bool-cases, inl, inr, Bool, true,
  false, ◌&&◌, ◌||◌, List, [], ◌∷◌, All, arith, ==→≡,
}
use core_desk.Index.SearchEngine.Postings.{skip_less, intersect_sorted}

abbrev pub mem : ℕ → List ℕ → Bool
mem q [] = false
mem q (x ∷ xs) = x == q || mem q xs

-- Strictly ascending: no number stands twice.
abbrev pub Ascending : List ℕ → Type 0
Ascending [] = Unit
Ascending (x ∷ xs) = All (λ y. x < y) xs × Ascending xs

mem-below : (q x : ℕ) (xs : List ℕ) → q ≤ x → All (λ y. x < y) xs → mem q xs ≡ false
mem-below q x [] h a = refl
mem-below q x (y ∷ ys) h a = ground (arith, mem-below q x ys h a.1, a.0)

-- What is left starts with `x` or later, and lacks only numbers below `x`.
record Skipped (x : ℕ) (right rest : List ℕ) : Type 0 where
  late : All (λ y. x ≤ y) rest
  ascending : Ascending rest
  keeps : (q : ℕ) → x ≤ q → mem q rest ≡ mem q right

later : (x y : ℕ) (ys : List ℕ) → x ≤ y → All (λ z. y < z) ys → All (λ z. x ≤ z) ys
later x y [] h a = tt
later x y (z ∷ ys) h a = (omega (arith, h, a.0), later x y ys h a.1)

skip_less-Skipped : (x : ℕ) (right : List ℕ) → Ascending right → Skipped x right (skip_less x right)
skip_less-Skipped x [] a = record { late = tt; ascending = tt; keeps = λ q _. refl }
skip_less-Skipped x (y ∷ ys) a = elim (Bool-cases (ltb y x)) [
  | inl below ↦
      let s = skip_less-Skipped x ys a.1 in
      rw (below, skip_less)
        (record {
          late = s.late;
          ascending = s.ascending;
          keeps = λ q h. s.keeps q h ∙ ground (arith, below);
        })
  | inr above ↦
      let h = ltb→le y x above in
      rw (above, skip_less)
        (record { late = (h, later x y ys h a.0); ascending = a; keeps = λ q _. refl })
]

distribute : (a b c : Bool) → (a || b && c) ≡ ((a || b) && (a || c))
distribute true b c = refl
distribute false b c = refl

and_false : (b : Bool) → (b && false) ≡ false
and_false true = refl
and_false false = refl

-- A number is in the intersection of two ascending lists exactly if it is in both.
pub intersect_sorted-mem :
    (q : ℕ) (left right : List ℕ)
    → Ascending left
    → Ascending right
    → mem q (intersect_sorted left right) ≡ (mem q left && mem q right)
unfolding intersect_sorted
intersect_sorted-mem q [] right a b = refl
intersect_sorted-mem q (x ∷ left) right a b =
    go (skip_less x right) refl (skip_less-Skipped x right b)
      λ r c. intersect_sorted-mem q left r a.1 c
  where
    below : q < x → mem q (x ∷ left) ≡ false
    below h = ground (arith, mem-below q x left (omega (arith, h)) a.0)

    -- Where the right list goes on after `x`, it does not hold `x` itself.
    at_x :
        {y : ℕ} {rest : List ℕ}
        → x < y
        → Skipped x right (y ∷ rest)
        → x ≤ q
        → (mem q left && mem q right) ≡ (mem q (x ∷ left) && mem q right)
    at_x {y} {rest} h s xq = elim (Bool-cases (x == q)) [
      | inr other ↦ rw other refl
      | inl t ↦
          let q_is : x ≡ q = ==→≡ x q t in
          let far : mem q (y ∷ rest) ≡ false =
            ground (arith, q_is, h, mem-below q y rest (omega (arith, q_is, h)) s.ascending.0) in
          let out : mem q right ≡ false = sym (s.keeps q xq) ∙ far in
          rw out (and_false (mem q left) ∙ sym (and_false (mem q (x ∷ left))))
    ]

    go :
        (rest : List ℕ)
        → skip_less x right ≡ rest
        → Skipped x right rest
        → ((r : List ℕ) → Ascending r → mem q (intersect_sorted left r) ≡ (mem q left && mem q r))
        → mem q (intersect_sorted (x ∷ left) right) ≡ (mem q (x ∷ left) && mem q right)
    go [] e s ih =
        let none_left : mem q (intersect_sorted (x ∷ left) right) ≡ false =
          rw (e, intersect_sorted) refl in
        elim (Bool-cases (ltb q x)) [
          | inl t ↦ none_left ∙ ap (λ z. z && mem q right) (sym (below (ltb→lt q x t)))
          | inr f ↦
              none_left
              ∙ sym (and_false (mem q (x ∷ left)))
              ∙ ap (λ z. mem q (x ∷ left) && z) (s.keeps q (ltb→le q x f))
        ]
    go (y ∷ rest) e s ih = elim (Bool-cases (ltb x y)) [
      | inl less ↦
          let step : mem q (intersect_sorted (x ∷ left) right) ≡ (mem q left && mem q (y ∷ rest)) =
            rw (e, less, intersect_sorted) (ih (y ∷ rest) s.ascending) in
          elim (Bool-cases (ltb q x)) [
            | inl t ↦
                let out = mem-below q x left (omega (arith, ltb→lt q x t)) a.0 in
                step
                ∙ ap (λ z. z && mem q (y ∷ rest)) out
                ∙ ap (λ z. z && mem q right) (sym (below (ltb→lt q x t)))
            | inr f ↦
                step
                ∙ ap (λ z. mem q left && z) (s.keeps q (ltb→le q x f))
                ∙ at_x (ltb→lt x y less) s (ltb→le q x f)
          ]
      | inr same ↦
          let xy : x ≡ y = omega (arith, ltb→le x y same, s.late.0) in
          let step : mem q (intersect_sorted (x ∷ left) right)
              ≡ (x == q || mem q left && mem q rest) =
            rw (e, same, intersect_sorted) (ap (λ z. x == q || z) (ih rest s.ascending.1)) in
          elim (Bool-cases (ltb q x)) [
            | inl t ↦
                let out = mem-below q x left (omega (arith, ltb→lt q x t)) a.0 in
                let no : (x == q) ≡ false = ground (arith, ltb→lt q x t) in step ∙ rw (out, no) refl
            | inr f ↦
                step
                ∙ distribute (x == q) (mem q left) (mem q rest)
                ∙ ap (λ z. mem q (x ∷ left) && (z == q || mem q rest)) xy
                ∙ ap (λ z. mem q (x ∷ left) && z) (s.keeps q (ltb→le q x f))
          ]
    ]
