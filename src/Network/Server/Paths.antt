-- ===== src/Network/Server/Paths.antt =====
-- The path of the part file beside that of the file.
use core_desk.Base.{
  ◌==◌, ◌≡◌, ◌≢◌, refl, sym, ◌∙◌, subst, Bool, true, false, Bool-cases, inl, inr, ◌||◌, [], ◌∷◌,
  ◌++◌, append_assoc, text_eq, text_eq_refl, is_nil, arith,
}
use core_desk.Common.{Text, text}
use core_desk.Network.Server.Receive.{separator, ends_with_separator, path_join, part_suffix}

abbrev pub ends_with : Text → Text → Bool
ends_with suffix [] = is_nil suffix
ends_with suffix (c ∷ p) = text_eq (c ∷ p) suffix || ends_with suffix p

-- A path as the server names the files that are not complete.
abbrev pub is_part_path : Text → Bool
is_part_path p = ends_with part_suffix p

ends_with_refl : (suffix : Text) → ends_with suffix suffix ≡ true
ends_with_refl [] = refl
ends_with_refl (c ∷ s) = let same = text_eq_refl (c ∷ s) in ground arith

ends_with-append : (suffix q : Text) → ends_with suffix (q ++ suffix) ≡ true
ends_with-append suffix [] = ends_with_refl suffix
ends_with-append suffix (c ∷ q) = let ih = ends_with-append suffix q in ground arith

pub path_join-part :
    (directory name : Text)
    → path_join directory (name ++ part_suffix) ≡ path_join directory name ++ part_suffix
unfolding part_suffix text
path_join-part [] name = refl
path_join-part (d ∷ dir) [] = elim (Bool-cases (ends_with_separator (d ∷ dir))) [
  | inl e ↦ simp e refl
  | inr e ↦ simp (e, append_assoc) refl
]
path_join-part (d ∷ dir) (c ∷ name) = elim (Bool-cases (c == separator)) [
  | inl root ↦ simp root refl
  | inr relative ↦ elim (Bool-cases (ends_with_separator (d ∷ dir))) [
    | inl e ↦ simp (relative, e, append_assoc) refl
    | inr e ↦ simp (relative, e, append_assoc) refl
  ]
]

-- What is not a part path is not the part path of any file.
pub not_part_of :
    (p target part : Text) → is_part_path p ≡ false → part ≡ target ++ part_suffix → p ≢ part
not_part_of p target part off named same =
    let on : is_part_path p ≡ true =
      subst (λ x. is_part_path x ≡ true) (sym (same ∙ named))
        (ends_with-append part_suffix target) in
    absurd (cc)
