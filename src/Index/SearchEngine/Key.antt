-- ===== src/Index/SearchEngine/Key.antt =====
-- `make_cache_key` of src/index/SearchEngine.cpp, and that a key tells its query and limit.
use core_desk.Base.{
  ℕ, zero, suc, ◌+◌, ◌*◌, ◌/◌, ◌%◌, ◌-◌, ◌≤◌, ◌<◌, ltb, if◌then◌else◌, ◌≡◌, refl, sym, ap, ◌∙◌,
  subst, Bool-cases, inl, inr, [], ◌∷◌, ◌++◌, All, arith, ltb→le,
}
use core_desk.Common.{Text}

-- `std::to_string`, with a digit for each step of the fuel at most.
unfoldable pub digits : ℕ → ℕ → Text
digits zero n = []
digits (suc fuel) n =
    let front = digits fuel (n / 10) in
    if ltb n 10 then (48 + n) ∷ [] else front ++ (48 + n % 10) ∷ []

abbrev pub to_decimal : ℕ → Text
to_decimal n = digits (n + 1) n

unfoldable pub make_cache_key : Text → ℕ → Text
unfolding digits
make_cache_key normalized_query limit = normalized_query ++ 10 ∷ to_decimal limit

abbrev value_from : ℕ → Text → ℕ
value_from v [] = v
value_from v (d ∷ ds) = value_from (v * 10 + (d - 48)) ds

value_from_snoc : (s : Text) (d v : ℕ) → value_from v (s ++ d ∷ []) ≡ value_from v s * 10 + (d - 48)
value_from_snoc [] d v = refl
value_from_snoc (x ∷ s) d v = value_from_snoc s d (v * 10 + (x - 48))

-- With fuel above the number, the digits have its value.
value_from-digits : (fuel n : ℕ) → n < fuel → value_from 0 (digits fuel n) ≡ n
unfolding digits
value_from-digits zero n h = absurd (omega arith)
value_from-digits (suc fuel) n h = elim (Bool-cases (ltb n 10)) [
  | inl t ↦ rw (t, digits) (omega arith)
  | inr f ↦
      let big = ltb→le n 10 f in
      let ih = value_from-digits fuel (n / 10) (omega (arith, big, h)) in
      rw (f, digits) (value_from_snoc (digits fuel (n / 10)) (48 + n % 10) 0 ∙ omega (arith, ih))
]

-- All that matters of a digit here: it is no line break.
abbrev IsDigit : ℕ → Type 0
IsDigit ch = 48 ≤ ch

All_snoc : (P : ℕ → Type 0) (s : Text) (ch : ℕ) → All P s → P ch → All P (s ++ ch ∷ [])
All_snoc P [] ch a p = (p, tt)
All_snoc P (x ∷ s) ch a p = (a.0, All_snoc P s ch a.1 p)

digits-IsDigit : (fuel n : ℕ) → All IsDigit (digits fuel n)
unfolding digits
digits-IsDigit zero n = tt
digits-IsDigit (suc fuel) n = elim (Bool-cases (ltb n 10)) [
  | inl t ↦ rw (t, digits) (omega arith, tt)
  | inr f ↦
      rw (f, digits)
        (All_snoc IsDigit (digits fuel (n / 10)) (48 + n % 10) (digits-IsDigit fuel (n / 10))
          (omega arith))
]

middle_digit : (s t : Text) → All IsDigit (s ++ 10 ∷ t) → 48 ≤ 10
middle_digit [] t a = a.0
middle_digit (x ∷ s) t a = middle_digit s t a.1

tail-≡ : {x y : ℕ} {s t : Text} → x ∷ s ≡ y ∷ t → s ≡ t
tail-≡ h = cc

-- The last line break splits a text in one way.
break_unique :
    (q q' d d' : Text)
    → All IsDigit d
    → All IsDigit d'
    → q ++ 10 ∷ d ≡ q' ++ 10 ∷ d'
    → (q ≡ q') × (d ≡ d')
break_unique [] [] d d' a a' h = (refl, tail-≡ h)
break_unique [] (y ∷ q') d d' a a' h =
    absurd (omega (arith, middle_digit q' d' (subst (All IsDigit) (tail-≡ h) a)))
break_unique (x ∷ q) [] d d' a a' h =
    absurd (omega (arith, middle_digit q d (subst (All IsDigit) (sym (tail-≡ h)) a')))
break_unique (x ∷ q) (y ∷ q') d d' a a' h =
    let (same, rest) = break_unique q q' d d' a a' (tail-≡ h) in
    let heads : x ≡ y = cc in (ap (λ z. z ∷ q) heads ∙ ap (◌∷◌ y) same, rest)

-- Two searches have the same key only if they have the same query and the same limit: a query with
-- line breaks and digits of its own does not take the key of another.
pub make_cache_key-injective :
    (q q' : Text) (limit limit' : ℕ)
    → make_cache_key q limit ≡ make_cache_key q' limit'
    → (q ≡ q') × (limit ≡ limit')
unfolding make_cache_key
make_cache_key-injective q q' limit limit' h =
    let (same, numbers) =
      break_unique q q' (to_decimal limit) (to_decimal limit') (digits-IsDigit (limit + 1) limit)
        (digits-IsDigit (limit' + 1) limit') h in
    (
      same,
      sym (value_from-digits (limit + 1) limit (omega arith))
          ∙ ap (value_from 0) numbers
          ∙ value_from-digits (limit' + 1) limit' (omega arith),
    )
