-- ===== src/Tests/Sorting.antt =====
-- JSON values with the keys of every object in order, the first of two equal keys kept, for the tests.
use Prim.Native.String.{compare}
use text.Mathlib.Text.{is_le}
use company_command.Prelude.{
  String, ◌≡◌, refl, sym, ap, ◌∙◌, Bool, Option, none, some, ◌==◌, eq_iff, arith, if◌then◌else◌,
}
use company_command.Json.{
  Json, null, bool, num, str, arr, obj, Items, nil, cons, Fields, end, field, get,
}

abbrev is_before : String → String → Bool
is_before a b = is_le (compare a b)

unfoldable pub place : String → Json → Fields → Fields
place k v end = field k v end
place k v (field j w d) =
    let rest = place k v d in
    if k == j
    then field k v d
    else if is_before k j
    then field k v (field j w d)
    else field j w rest

unfoldable mutual
  unfolding place

  pub sorted : Json → Json
  sorted null = null
  sorted (bool b) = bool b
  sorted (num n) = num n
  sorted (str s) = str s
  sorted (arr is) = arr (sorted_items is)
  sorted (obj fs) = obj (sorted_fields fs)

  pub sorted_items : Items → Items
  sorted_items nil = nil
  sorted_items (cons v is) = cons (sorted v) (sorted_items is)

  pub sorted_fields : Fields → Fields
  sorted_fields end = end
  sorted_fields (field k v fs) = place k (sorted v) (sorted_fields fs)

abbrev sorted_value : Option Json → Option Json
sorted_value none = none
sorted_value (some v) = some (sorted v)

get-place :
    (j k : String) (v : Json) (d : Fields)
    → get j (place k v d) ≡ (if k == j then some v else get j d)
unfolding get place
get-place j k v end = refl
get-place j k v (field i w d) =
    ground (arith, eq_iff k j, eq_iff k i, eq_iff i j, get-place j k v d)

get-sorted_fields : (j : String) (d : Fields) → get j (sorted_fields d) ≡ sorted_value (get j d)
unfolding get sorted_fields
get-sorted_fields j end = refl
get-sorted_fields j (field k v d) =
    ground (arith, get-place j k (sorted v) (sorted_fields d), get-sorted_fields j d)

sorted-str : (o : Option Json) (s : String) → sorted_value o ≡ some (str s) → o ≡ some (str s)
unfolding sorted
sorted-str none s e = absurd cc
sorted-str (some (str t)) s e = e
sorted-str (some null) s e = absurd cc
sorted-str (some (bool b)) s e = absurd cc
sorted-str (some (num n)) s e = absurd cc
sorted-str (some (arr is)) s e = absurd cc
sorted-str (some (obj fs)) s e = absurd cc

-- Objects that are the same when their keys are in order have the same texts.
pub sorted-texts :
    (a b : Fields)
    → sorted (obj a) ≡ sorted (obj b)
    → (k s : String) → get k a ≡ some (str s)
    → get k b ≡ some (str s)
unfolding sorted
sorted-texts a b e k s h =
    let alike : sorted_fields a ≡ sorted_fields b = cc in
    sorted-str (get k b) s (
      sym (get-sorted_fields k b)
      ∙ ap (get k) (sym alike)
      ∙ get-sorted_fields k a
      ∙ ap sorted_value h)
