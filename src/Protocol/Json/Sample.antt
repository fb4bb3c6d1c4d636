-- ===== src/Protocol/Json/Sample.antt =====
-- A JSON library that meets the laws: a value printer and a parser over a token format of its own,
-- with the keys of the protocol numbered by a table. It stands in for the real library where a
-- theorem is applied to concrete payloads.
mod Tokens
mod Inverse
use text.Mathlib.Text.{◌==◌ as str_eq}
use core_desk.Base.Int.{ℤ, pos, negsuc}
use core_desk.Base.{
  ℕ, ◌≡◌, refl, sym, ap, ◌∙◌, ◌⊎◌, inl, inr, Bool, true, false, Option, none, some, List, [], ◌∷◌,
  length, arith, String, if◌then◌else◌, append-nil,
}
use core_desk.Common.{Text}
use core_desk.Protocol.Json.{JsonLibrary, Parsed, JsonLaws, member}
use Tokens.{
  Value, str, bool, num, arr, obj, Items, last, item, Members, closed, entry, key_code, print, scan,
}
use Inverse.{scan-print}

abbrev pub finish : Option (Value × Text) → Parsed Value
finish none = Parsed.parse_error []
finish (some (v, [])) = Parsed.parsed v
finish (some (v, c ∷ r)) = Parsed.parse_error []

abbrev pub dumped : Option Text → Text ⊎ Text
dumped none = inr []
dumped (some b) = inl b

abbrev pub to_members : List (String × Value) → Members
to_members [] = closed
to_members ((k, v) ∷ m) = entry k v (to_members m)

abbrev pub to_items : List Value → Items
to_items [] = last
to_items (v ∷ l) = item v (to_items l)

abbrev pub from_items : Items → List Value
from_items last = []
from_items (item v xs) = v ∷ from_items xs

abbrev pub find_member : String → Members → Option Value
find_member k closed = none
find_member k (entry j v ms) = if str_eq j k then some v else find_member k ms

abbrev pub is_obj : Value → Bool
is_obj (obj ms) = true
is_obj _ = false

abbrev pub find_in : Value → String → Option Value
find_in (obj ms) k = find_member k ms
find_in _ k = none

abbrev pub read_str : Value → Option Text
read_str (str s) = some s
read_str _ = none

abbrev pub read_bool : Value → Option Bool
read_bool (bool b) = some b
read_bool _ = none

abbrev pub read_unsigned : Value → Option ℕ
read_unsigned (num (pos n)) = some n
read_unsigned _ = none

abbrev pub read_integer : Value → Option ℤ
read_integer (num z) = some z
read_integer _ = none

abbrev pub read_array : Value → Option (List Value)
read_array (arr xs) = some (from_items xs)
read_array _ = none

abbrev pub sample : JsonLibrary
sample = record {
  Json = Value;
  object = λ m. obj (to_members m);
  array = λ l. arr (to_items l);
  string = str;
  boolean = bool;
  integer = num;
  is_object = is_obj;
  find = find_in;
  as_string = read_str;
  as_boolean = read_bool;
  as_unsigned = read_unsigned;
  as_integer = read_integer;
  as_array = read_array;
  dump = λ v. dumped (print v);
  parse = λ b. finish (scan (length b) b);
}

from_items-to_items : (l : List Value) → from_items (to_items l) ≡ l
from_items-to_items [] = refl
from_items-to_items (v ∷ l) = ap (◌∷◌ v) (from_items-to_items l)

find_member-to_members :
    (m : List (String × Value)) (k : String) → find_member k (to_members m) ≡ member k m
unfolding member
find_member-to_members [] k = refl
find_member-to_members ((j, v) ∷ m) k = ground (arith, find_member-to_members m k)

parse-dump : (v : Value) (b : Text) → sample.dump v ≡ inl b → sample.parse b ≡ Parsed.parsed v
parse-dump v b h =
    let p : print v ≡ some b = ground arith in
    let e : scan (length b) b ≡ some (v, []) =
      ap (scan (length b)) (sym (append-nil b)) ∙ scan-print v (length b) b [] p (omega arith) in
    ap finish e

pub sample_laws : JsonLaws sample
sample_laws = record {
  parse-dump = parse-dump;
  is_object-object = λ m. refl;
  find-object = find_member-to_members;
  as_string-string = λ s. refl;
  as_boolean-boolean = λ b. refl;
  as_unsigned-pos = λ n. refl;
  as_unsigned-negsuc = λ n. refl;
  as_integer-integer = λ z. refl;
  as_array-array = λ l. ap some (from_items-to_items l);
}

-- What the tests compute with.
unfoldable pub running : Unit {0}
unfolding print scan key_code
running = tt
