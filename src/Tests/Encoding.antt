-- ===== src/Tests/Encoding.antt =====
-- A text encoding of JSON values from which they can be told apart, for the tests.
use Prim.Native.Char.{Char, code}
use company_command.Prelude.{
  ℕ, zero, suc, String, ◌≡◌, refl, Bool, true, false, List, [], ◌∷◌, eq_ℕ,
}
use company_command.Json.{
  Json, null, bool, num, str, arr, obj, Items, nil, cons, Fields, end, field,
}

unfoldable pub text_code : String → String → String
text_code String.[] k = String.◌∷◌ "\0" k
text_code (String.◌∷◌ c s) k = String.◌∷◌ "\u{1}" (String.◌∷◌ c (text_code s k))

num_code : ℕ → String → String
num_code zero k = String.◌∷◌ "\0" k
num_code (suc n) k = String.◌∷◌ "\u{1}" (num_code n k)

flag_code : Bool → String → String
flag_code true k = String.◌∷◌ "\u{1}" k
flag_code false k = String.◌∷◌ "\0" k

unfoldable mutual
  unfolding flag_code num_code text_code

  pub json_code : Json → String → String
  json_code null k = String.◌∷◌ "\u{2}" k
  json_code (bool b) k = String.◌∷◌ "\u{3}" (flag_code b k)
  json_code (num n) k = String.◌∷◌ "\u{5}" (num_code n k)
  json_code (str s) k = String.◌∷◌ "\u{6}" (text_code s k)
  json_code (arr is) k = String.◌∷◌ "\u{7}" (items_code is k)
  json_code (obj fs) k = String.◌∷◌ "\u{8}" (fields_code fs k)

  pub items_code : Items → String → String
  items_code nil k = String.◌∷◌ "\0" k
  items_code (cons v is) k = String.◌∷◌ "\u{1}" (json_code v (items_code is k))

  pub fields_code : Fields → String → String
  fields_code end k = String.◌∷◌ "\0" k
  fields_code (field name v fs) k =
      String.◌∷◌ "\u{1}" (text_code name (json_code v (fields_code fs k)))

text_code_injective : (a b k l : String) → text_code a k ≡ text_code b l → (a ≡ b) × (k ≡ l)
unfolding text_code
text_code_injective String.[] String.[] k l e = (refl, cc)
text_code_injective String.[] (String.◌∷◌ d b) k l e = absurd cc
text_code_injective (String.◌∷◌ c a) String.[] k l e = absurd cc
text_code_injective (String.◌∷◌ c a) (String.◌∷◌ d b) k l e =
    let (s, t) = text_code_injective a b k l cc in (cc, t)

num_code_injective : (m n : ℕ) (k l : String) → num_code m k ≡ num_code n l → (m ≡ n) × (k ≡ l)
unfolding num_code
num_code_injective zero zero k l e = (refl, cc)
num_code_injective zero (suc n) k l e = absurd cc
num_code_injective (suc m) zero k l e = absurd cc
num_code_injective (suc m) (suc n) k l e = let (s, t) = num_code_injective m n k l cc in (cc, t)

flag_code_injective :
    (a b : Bool) (k l : String) → flag_code a k ≡ flag_code b l → (a ≡ b) × (k ≡ l)
unfolding flag_code
flag_code_injective true true k l e = (refl, cc)
flag_code_injective true false k l e = absurd cc
flag_code_injective false true k l e = absurd cc
flag_code_injective false false k l e = (refl, cc)

mutual
  unfolding json_code items_code fields_code

  pub json_code_injective :
      (a b : Json) (k l : String) → json_code a k ≡ json_code b l → (a ≡ b) × (k ≡ l)
  json_code_injective null null k l e = (refl, cc)
  json_code_injective (bool a) (bool b) k l e =
      let (s, t) = flag_code_injective a b k l cc in (cc, t)
  json_code_injective (num m) (num n) k l e = let (s, t) = num_code_injective m n k l cc in (cc, t)
  json_code_injective (str x) (str y) k l e = let (s, t) = text_code_injective x y k l cc in (cc, t)
  json_code_injective (arr is) (arr js) k l e =
      let (s, t) = items_code_injective is js k l cc in (cc, t)
  json_code_injective (obj fs) (obj gs) k l e =
      let (s, t) = fields_code_injective fs gs k l cc in (cc, t)
  json_code_injective _ _ k l e = absurd cc

  items_code_injective :
      (a b : Items) (k l : String) → items_code a k ≡ items_code b l → (a ≡ b) × (k ≡ l)
  items_code_injective nil nil k l e = (refl, cc)
  items_code_injective (cons v is) (cons w js) k l e =
      let (s, t) = json_code_injective v w (items_code is k) (items_code js l) cc in
      let (q, u) = items_code_injective is js k l t in (cc, u)
  items_code_injective _ _ k l e = absurd cc

  fields_code_injective :
      (a b : Fields) (k l : String) → fields_code a k ≡ fields_code b l → (a ≡ b) × (k ≡ l)
  fields_code_injective end end k l e = (refl, cc)
  fields_code_injective (field x v fs) (field y w gs) k l e =
      let (r, d) =
        text_code_injective x y (json_code v (fields_code fs k)) (json_code w (fields_code gs l))
          cc in
      let (s, t) = json_code_injective v w (fields_code fs k) (fields_code gs l) d in
      let (q, u) = fields_code_injective fs gs k l t in (cc, u)
  fields_code_injective _ _ k l e = absurd cc

-- The texts that a code holds, one after another.
push : Char → List String → List String
push c [] = []
push c (s ∷ ss) = String.◌∷◌ c s ∷ ss

unfoldable pub texts_of : String → List String
unfolding push
texts_of String.[] = []
texts_of (String.◌∷◌ t String.[]) = String.[] ∷ []
texts_of (String.◌∷◌ t (String.◌∷◌ c s)) = elim (eq_ℕ (code t) 0) [
  | true ↦ String.[] ∷ texts_of (String.◌∷◌ c s)
  | false ↦ push c (texts_of s)
]

pub texts_of-text_code : (a k : String) → texts_of (text_code a k) ≡ a ∷ texts_of k
unfolding texts_of text_code push
texts_of-text_code String.[] String.[] = refl
texts_of-text_code String.[] (String.◌∷◌ c k) = refl
texts_of-text_code (String.◌∷◌ c a) k = rw (texts_of-text_code a k) refl
