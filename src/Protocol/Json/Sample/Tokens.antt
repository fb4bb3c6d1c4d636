-- ===== src/Protocol/Json/Sample/Tokens.antt =====
-- The values of the sample library, their printer and their parser.
use text.Mathlib.Text.{◌==◌ as str_eq}
use text.Mathlib.TextEquality.{eq_iff}
use core_desk.Base.Int.{ℤ, pos, negsuc}
use core_desk.Base.{
  ℕ, zero, suc, ◌≡◌, refl, inl, inr, Bool, true, false, Bool-cases, Option, none, some, List, [],
  ◌∷◌, ◌++◌, length, take, drop, get_elem?, arith, String, if◌then◌else◌, ◌==◌,
}
use core_desk.Common.{Text}

mutual
  pub data Value : Type 0 where
    str : Text → Value
    bool : Bool → Value
    num : ℤ → Value
    arr : Items → Value
    obj : Members → Value

  pub data Items : Type 0 where
    last : Items
    item : Value → Items → Items

  pub data Members : Type 0 where
    closed : Members
    entry : String → Value → Members → Members

infixl 5 ◌>>=◌
abbrev pub ◌>>=◌ {ℓ κ} : {A : Type ℓ} {B : Type κ} → Option A → (A → Option B) → Option B
none >>= f = none
some a >>= f = f a

pub bind-eq-some {ℓ κ} :
    {A : Type ℓ} {B : Type κ} (m : Option A) (f : A → Option B) {b : B}
    → (m >>= f) ≡ some b
    → (a : A) × (m ≡ some a) × (f a ≡ some b)
bind-eq-some none f h = absurd (cc)
bind-eq-some (some a) f h = (a, refl, h)

pub some-injective {ℓ} : {A : Type ℓ} {a b : A} → some a ≡ some b → a ≡ b
some-injective h = cc

abbrev pub keys : List String
keys =
    "root" ∷ "include_dot_hidden" ∷ "follow_directory_symlinks" ∷ "worker_count" ∷ "query" ∷ "limit"
    ∷ "generation" ∷ "stale" ∷ "elapsed_us" ∷ "from_cache" ∷ "results" ∷ "name" ∷ "path"
    ∷ "relative_path" ∷ "size" ∷ "modified_ms" ∷ "type" ∷ "score" ∷ "transfer_id" ∷ "file_name"
    ∷ "file_size" ∷ "chunk_size" ∷ "sha256" ∷ "protocol_version" ∷ "node_name" ∷ "start_offset"
    ∷ "ok" ∷ "code" ∷ "message" ∷ []

unfoldable pub key_code : String → List String → Option ℕ
key_code k [] = none
key_code k (j ∷ js) = if str_eq j k then some 0 else (do i ← key_code k js; some (suc i))

pub get_elem?-key_code :
    (k : String) (js : List String) (i : ℕ) → key_code k js ≡ some i → get_elem? js i ≡ some k
unfolding key_code
get_elem?-key_code k [] i h = absurd (cc)
get_elem?-key_code k (j ∷ js) i h = elim (Bool-cases (str_eq j k)) [
  | inl same ↦ let e : i ≡ 0 = ground arith in rw (e, (eq_iff j k).0 same)
  | inr other ↦
      let (i', e, e') = bind-eq-some (key_code k js) _ (rw other at h) in
      let e2 : i ≡ suc i' = ground arith in rw e2 (get_elem?-key_code k js i' e)
]

unfoldable mutual
  pub print : Value → Option Text
  print (str s) = some (1 ∷ length s ∷ s)
  print (bool false) = some (2 ∷ 0 ∷ [])
  print (bool true) = some (2 ∷ 1 ∷ [])
  print (num (pos n)) = some (3 ∷ n ∷ [])
  print (num (negsuc n)) = some (4 ∷ n ∷ [])
  print (arr xs) = do b ← print_items xs; some (5 ∷ b)
  print (obj ms) = do b ← print_members ms; some (6 ∷ b)

  pub print_items : Items → Option Text
  print_items last = some (0 ∷ [])
  print_items (item v xs) = do a ← print v; b ← print_items xs; some (1 ∷ (a ++ b))

  pub print_members : Members → Option Text
  print_members closed = some (0 ∷ [])
  print_members (entry k v ms) = do
    i ← key_code k keys
    a ← print v
    b ← print_members ms
    some (1 ∷ i ∷ (a ++ b))

pub data Tag : Type 0 where
  other_tag string_tag bool_tag pos_tag neg_tag array_tag object_tag : Tag

abbrev pub tag : ℕ → Tag
tag (suc zero) = string_tag
tag (suc (suc zero)) = bool_tag
tag (suc (suc (suc zero))) = pos_tag
tag (suc (suc (suc (suc zero)))) = neg_tag
tag (suc (suc (suc (suc (suc zero))))) = array_tag
tag (suc (suc (suc (suc (suc (suc zero)))))) = object_tag
tag _ = other_tag

abbrev pub scan_string : Text → Option (Value × Text)
scan_string [] = none
scan_string (n ∷ bs) = some (str (take n bs), drop n bs)

abbrev pub scan_bool : Text → Option (Value × Text)
scan_bool [] = none
scan_bool (n ∷ bs) = some (bool (n == 1), bs)

abbrev pub scan_number : (ℕ → ℤ) → Text → Option (Value × Text)
scan_number sign [] = none
scan_number sign (n ∷ bs) = some (num (sign n), bs)

unfoldable mutual
  pub scan : ℕ → Text → Option (Value × Text)
  scan zero bs = none
  scan (suc f) [] = none
  scan (suc f) (t ∷ bs) = elim (tag t) [
    | other_tag ↦ none
    | string_tag ↦ scan_string bs
    | bool_tag ↦ scan_bool bs
    | pos_tag ↦ scan_number pos bs
    | neg_tag ↦ scan_number negsuc bs
    | array_tag ↦ do (xs, r) ← scan_items f bs; some (arr xs, r)
    | object_tag ↦ do (ms, r) ← scan_members f bs; some (obj ms, r)
  ]

  pub scan_items : ℕ → Text → Option (Items × Text)
  scan_items zero bs = none
  scan_items (suc f) [] = none
  scan_items (suc f) (zero ∷ bs) = some (last, bs)
  scan_items (suc f) (suc t ∷ bs) = do
    (v, r) ← scan f bs
    (xs, r') ← scan_items f r
    some (item v xs, r')

  pub scan_members : ℕ → Text → Option (Members × Text)
  scan_members zero bs = none
  scan_members (suc f) [] = none
  scan_members (suc f) (zero ∷ bs) = some (closed, bs)
  scan_members (suc f) (suc t ∷ []) = none
  scan_members (suc f) (suc t ∷ i ∷ bs) = do
    k ← get_elem? keys i
    (v, r) ← scan f bs
    (ms, r') ← scan_members f r
    some (entry k v ms, r')
