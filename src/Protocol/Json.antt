-- ===== src/Protocol/Json.antt =====
-- The JSON library (nlohmann/json) as src/protocol/JsonPayload.cpp calls it: a record of its
-- operations, which the payload codecs take as a parameter, and a record of the laws that the
-- library documents, which only the theorems take.
pub mod Fields
pub mod ErrorNames
pub mod Laws
pub mod Sample
use core_desk.Base.Int.{ℤ, pos, negsuc}
use core_desk.Base.{ℕ, ◌≡◌, Bool, true, List, [], ◌∷◌, String, Option, none, some, ◌⊎◌, inl}
use core_desk.Base.{if◌then◌else◌}
use core_desk.Common.{Text}
use text.Mathlib.Text.{◌==◌ as str_eq}

-- What `Json::parse` does: it returns, it throws a `Json::parse_error`, or it throws another exception,
-- as `Json::out_of_range` for a number that is too large.
pub data Parsed {ℓ} (J : Type ℓ) : Type ℓ where
  parsed : J → Parsed J
  parse_error other_exception : Text → Parsed J

-- `Json` is a value up to the library's own `==`, which compares integers by their value. Of an
-- integer that was parsed the library says `is_number_unsigned` where it is not negative.
pub record JsonLibrary : Type 1 where
  pub Json : Type 0
  -- `Json{{key, value}, ...}` and `Json::object()`, `Json::array()` with `push_back`.
  pub object : List (String × Json) → Json
  pub array : List Json → Json
  pub string : Text → Json
  pub boolean : Bool → Json
  pub integer : ℤ → Json
  pub is_object : Json → Bool
  pub find : Json → String → Option Json
  -- `is_string()` with `get<std::string>()`, and so on.
  pub as_string : Json → Option Text
  pub as_boolean : Json → Option Bool
  pub as_unsigned : Json → Option ℕ
  pub as_integer : Json → Option ℤ
  pub as_array : Json → Option (List Json)
  -- The result, or the text of the exception that the library throws.
  pub dump : Json → Text ⊎ Text
  pub parse : Text → Parsed Json

-- The value of a key among members.
unfoldable pub member {ℓ} : {V : Type ℓ} → String → List (String × V) → Option V
member k [] = none
member k ((j, v) ∷ m) = if str_eq j k then some v else member k m

pub record JsonLaws (lib : JsonLibrary) : Type 0 where
  -- What was dumped parses to an equal value.
  pub parse-dump : (j : lib.Json) (b : Text) → lib.dump j ≡ inl b → lib.parse b ≡ Parsed.parsed j
  pub is_object-object : (m : List (String × lib.Json)) → lib.is_object (lib.object m) ≡ true
  pub find-object :
      (m : List (String × lib.Json)) (k : String) → lib.find (lib.object m) k ≡ member k m
  pub as_string-string : (s : Text) → lib.as_string (lib.string s) ≡ some s
  pub as_boolean-boolean : (b : Bool) → lib.as_boolean (lib.boolean b) ≡ some b
  pub as_unsigned-pos : (n : ℕ) → lib.as_unsigned (lib.integer (pos n)) ≡ some n
  pub as_unsigned-negsuc : (n : ℕ) → lib.as_unsigned (lib.integer (negsuc n)) ≡ none
  pub as_integer-integer : (z : ℤ) → lib.as_integer (lib.integer z) ≡ some z
  pub as_array-array : (l : List lib.Json) → lib.as_array (lib.array l) ≡ some l
