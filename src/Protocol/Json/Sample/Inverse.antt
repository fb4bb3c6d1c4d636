-- ===== src/Protocol/Json/Sample/Inverse.antt =====
-- What was printed is scanned to the value that it was printed from.
use core_desk.Base.Int.{pos, negsuc}
use core_desk.Base.{
  ℕ, suc, ◌+◌, ◌-◌, ◌≤◌, ◌≡◌, refl, ap, true, false, some, [], ◌∷◌, ◌++◌, length, arith,
  length-append, append_assoc, take-append_exact, drop-append_exact,
}
use core_desk.Common.{Text}
use core_desk.Protocol.Json.Sample.Tokens.{
  Value, str, bool, num, arr, obj, Items, last, item, Members, closed, entry, bind-eq-some,
  some-injective, keys, key_code, get_elem?-key_code, print, print_items, print_members,
  scan_string, scan, scan_items, scan_members,
}

scan_string-append : (s rest : Text) → scan_string (length s ∷ (s ++ rest)) ≡ some (str s, rest)
scan_string-append s rest = rw (take-append_exact s rest, drop-append_exact s rest)

mutual
  unfolding print print_items print_members scan scan_items scan_members

  pub scan-print :
      (v : Value) (f : ℕ) (b rest : Text)
      → print v ≡ some b
      → length b ≤ f
      → scan f (b ++ rest) ≡ some (v, rest)
  scan-print (str s) f b rest h le =
      let e : 1 ∷ length s ∷ s ≡ b = some-injective h in
      let g : f ≡ suc (f - 1) = omega (arith, ap length e) in
      rw (← e, g) (scan_string-append s rest)
  scan-print (bool false) f b rest h le =
      let e : 2 ∷ 0 ∷ [] ≡ b = some-injective h in
      let g : f ≡ suc (f - 1) = omega (arith, ap length e) in rw (← e, g) refl
  scan-print (bool true) f b rest h le =
      let e : 2 ∷ 1 ∷ [] ≡ b = some-injective h in
      let g : f ≡ suc (f - 1) = omega (arith, ap length e) in rw (← e, g) refl
  scan-print (num (pos n)) f b rest h le =
      let e : 3 ∷ n ∷ [] ≡ b = some-injective h in
      let g : f ≡ suc (f - 1) = omega (arith, ap length e) in rw (← e, g) refl
  scan-print (num (negsuc n)) f b rest h le =
      let e : 4 ∷ n ∷ [] ≡ b = some-injective h in
      let g : f ≡ suc (f - 1) = omega (arith, ap length e) in rw (← e, g) refl
  scan-print (arr xs) f b rest h le =
      let (b', e, e') = bind-eq-some (print_items xs) _ h in
      let e2 : 5 ∷ b' ≡ b = some-injective e' in
      let g : f ≡ suc (f - 1) = omega (arith, ap length e2) in
      let n : length b' ≤ f - 1 = omega (arith, ap length e2) in
      rw (← e2, g) (rw (scan_items-print xs (f - 1) b' rest e n))
  scan-print (obj ms) f b rest h le =
      let (b', e, e') = bind-eq-some (print_members ms) _ h in
      let e2 : 6 ∷ b' ≡ b = some-injective e' in
      let g : f ≡ suc (f - 1) = omega (arith, ap length e2) in
      let n : length b' ≤ f - 1 = omega (arith, ap length e2) in
      rw (← e2, g) (rw (scan_members-print ms (f - 1) b' rest e n))

  scan_items-print :
      (xs : Items) (f : ℕ) (b rest : Text)
      → print_items xs ≡ some b
      → length b ≤ f
      → scan_items f (b ++ rest) ≡ some (xs, rest)
  scan_items-print last f b rest h le =
      let e : 0 ∷ [] ≡ b = some-injective h in
      let g : f ≡ suc (f - 1) = omega (arith, ap length e) in rw (← e, g) refl
  scan_items-print (item v xs) f b rest h le =
      let (a, ea, h1) = bind-eq-some (print v) _ h in
      let (c, ec, h2) = bind-eq-some (print_items xs) _ h1 in
      let e2 : 1 ∷ (a ++ c) ≡ b = some-injective h2 in
      let g : f ≡ suc (f - 1) = omega (arith, ap length e2) in
      let n : length a + length c ≤ f - 1 = omega (arith, ap length e2, length-append a c) in
      rw (← e2, g)
        (rw (
          append_assoc a c rest,
          scan-print v (f - 1) a (c ++ rest) ea (omega arith),
          scan_items-print xs (f - 1) c rest ec (omega arith),
        ))

  scan_members-print :
      (ms : Members) (f : ℕ) (b rest : Text)
      → print_members ms ≡ some b
      → length b ≤ f
      → scan_members f (b ++ rest) ≡ some (ms, rest)
  scan_members-print closed f b rest h le =
      let e : 0 ∷ [] ≡ b = some-injective h in
      let g : f ≡ suc (f - 1) = omega (arith, ap length e) in rw (← e, g) refl
  scan_members-print (entry k v ms) f b rest h le =
      let (i, ei, h0) = bind-eq-some (key_code k keys) _ h in
      let (a, ea, h1) = bind-eq-some (print v) _ h0 in
      let (c, ec, h2) = bind-eq-some (print_members ms) _ h1 in
      let e2 : 1 ∷ i ∷ (a ++ c) ≡ b = some-injective h2 in
      let g : f ≡ suc (f - 1) = omega (arith, ap length e2) in
      let n : length a + length c ≤ f - 1 = omega (arith, ap length e2, length-append a c) in
      rw (← e2, g)
        (rw (
          append_assoc a c rest,
          get_elem?-key_code k keys i ei,
          scan-print v (f - 1) a (c ++ rest) ea (omega arith),
          scan_members-print ms (f - 1) c rest ec (omega arith),
        ))
