-- ===== src/Workers/Texts.antt =====
-- Python's operations on texts that the workers use, and the ones of its libraries.
use Prim.Native.Char.{Char, code}
use Prim.Native.String.{◌++◌ as concat}
use company_command.Prelude.{
  ℕ, zero, suc, String, Bool, false, Option, none, some, List, [], ◌∷◌, ◌==◌, eq_ℕ, if◌then◌else◌,
}
use company_command.Json.{Json, null, bool, num, str, arr, obj, Fields}

pub record Host : Type 0 where
  -- `json.dumps` with an indent of two and sorted keys, and `json.loads` of a text that begins with `{`.
  pub dumps_indent : Json → String
  pub load_object : String → Option Fields
  -- `repr` of a JSON value, `str` of a number, and `str.strip`.
  pub py_repr : Json → String
  pub str_number : ℕ → String
  pub strip : String → String
  -- `str` of a JSON value, and `hashlib.sha256(_.encode()).hexdigest()`.
  pub py_str : Json → String
  pub sha256_hex : String → String

-- A call of a program or a library: its value, or the text of the exception that it raises.
pub data Outcome {ℓ} (A : Type ℓ) : Type ℓ where
  returned : A → Outcome A
  failed : String → Outcome A

-- `"".join(parts)`
abbrev pub joined : List String → String
joined [] = ""
joined (s ∷ ss) = concat s (joined ss)

-- `separator.join(parts)`
unfoldable pub join : String → List String → String
join separator [] = ""
join separator (s ∷ []) = s
join separator (s ∷ t ∷ ss) = concat s (concat separator (join separator (t ∷ ss)))

abbrev pub text_length : String → ℕ
text_length String.[] = 0
text_length (String.◌∷◌ c s) = suc (text_length s)

-- `s[:n]`
abbrev pub text_take : ℕ → String → String
text_take zero s = String.[]
text_take (suc n) String.[] = String.[]
text_take (suc n) (String.◌∷◌ c s) = String.◌∷◌ c (text_take n s)

-- `s[n:]`
abbrev pub text_drop : ℕ → String → String
text_drop zero s = s
text_drop (suc n) String.[] = String.[]
text_drop (suc n) (String.◌∷◌ c s) = text_drop n s

-- `s[i] == c`, false out of range
abbrev pub char_is : Char → String → ℕ → Bool
char_is c String.[] i = false
char_is c (String.◌∷◌ x s) zero = eq_ℕ (code x) (code c)
char_is c (String.◌∷◌ x s) (suc i) = char_is c s i

-- `s.rfind(c, 0, stop)`, with `none` for -1
unfoldable pub rfind : Char → String → (stop : ℕ) → Option ℕ
rfind c s zero = none
rfind c String.[] (suc n) = none
rfind c (String.◌∷◌ x s) (suc n) = elim (rfind c s n) [
  | some i ↦ some (suc i)
  | none ↦ if eq_ℕ (code x) (code c) then some 0 else none
]

-- The text of the exception that `.get` raises on a value that is no dictionary.
abbrev type_name : Json → String
type_name null = "NoneType"
type_name (bool b) = "bool"
type_name (num n) = "int"
type_name (str s) = "str"
type_name (arr xs) = "list"
type_name (obj d) = "dict"

abbrev pub no_get : Json → String
no_get v = concat "'" (concat (type_name v) "' object has no attribute 'get'")

-- `', '.join(tools) or '(none)'`
unfoldable pub tools_text : List String → String
unfolding join
tools_text [] = "(none)"
tools_text (t ∷ ts) = let all = join ", " (t ∷ ts) in if all == "" then "(none)" else all
