-- ===== src/Workers/Extract/Last.antt =====
-- About which object `_extract_json` finds, and that its loop comes to an end.
use Prim.Native.Char.{Char, code}
use company_command.Prelude.{
  ℕ, zero, suc, ◌≤◌, ◌<◌, ◌≡◌, refl, subst, String, true, false, Option, none, some, arith, ltb,
  eq_ℕ, Bool-cases, Option-cases, inl, inr,
}
use company_command.Json.{Fields}
use company_command.Workers.Texts.{Host, text_length, char_is, rfind}
use company_command.Workers.Extract.{brace_open, candidate, extract_from, extract_json}

-- The last position below `stop` with the character, if there is one.
abbrev IsLastBelow : Char → String → ℕ → Option ℕ → Type 0
IsLastBelow c s stop none = (i : ℕ) → i < stop → char_is c s i ≡ false
IsLastBelow c s stop (some i) =
    (i < stop) × (char_is c s i ≡ true) × ((j : ℕ) → i < j → j < stop → char_is c s j ≡ false)

module _ (c x : Char) (s : String) where
  -- What holds behind the first character, one position on.
  shifted_none :
      (lo n : ℕ)
      → ((i : ℕ) → lo ≤ i → i < n → char_is c s i ≡ false)
      → (j : ℕ) → suc lo ≤ j
      → j < suc n
      → char_is c (String.◌∷◌ x s) j ≡ false
  shifted_none lo n h zero above below = absurd (omega (arith, above))
  shifted_none lo n h (suc j) above below = h j (omega (arith, above)) (omega (arith, below))

  first_none :
      (n : ℕ)
      → eq_ℕ (code x) (code c) ≡ false
      → ((i : ℕ) → i < n → char_is c s i ≡ false)
      → (j : ℕ) → j < suc n
      → char_is c (String.◌∷◌ x s) j ≡ false
  first_none n other h zero below = other
  first_none n other h (suc j) below = h j (omega (arith, below))

rfind-IsLastBelow : (c : Char) (s : String) (stop : ℕ) → IsLastBelow c s stop (rfind c s stop)
unfolding rfind
rfind-IsLastBelow c s zero = λ i below. absurd (omega arith)
rfind-IsLastBelow c String.[] (suc n) = λ i below. refl
rfind-IsLastBelow c (String.◌∷◌ x s) (suc n) =
    let before = rfind-IsLastBelow c s n in
    elim (Option-cases (rfind c s n)) [
      | inl e ↦
          let absent = subst (IsLastBelow c s n) e before in
          rw e (elim (Bool-cases (eq_ℕ (code x) (code c))) [
            | inl here ↦ rw here (omega arith, here, shifted_none c x s 0 n (λ i _. absent i))
            | inr other ↦ rw other (first_none c x s n other absent)
          ])
      | inr (i, e) ↦
          let found = subst (IsLastBelow c s n) e before in
          rw e (omega (arith, found.0), found.1, shifted_none c x s (suc i) n (λ j. found.2 j))
    ]

char_is-text_length : (c : Char) (s : String) (i : ℕ) → char_is c s i ≡ true → i < text_length s
char_is-text_length c String.[] i h = absurd cc
char_is-text_length c (String.◌∷◌ x s) zero h = omega arith
char_is-text_length c (String.◌∷◌ x s) (suc i) h = omega (arith, char_is-text_length c s i h)

module _ (h : Host) (text : String) where
  -- What the opening braces below `stop` offer.
  abbrev IsExtractedBelow : ℕ → Option Fields → Type 0
  IsExtractedBelow stop none =
      (i : ℕ) → i < stop → char_is brace_open text i ≡ true → candidate h text i ≡ none
  IsExtractedBelow stop (some d) =
      (i : ℕ) × (i < stop)
      × (char_is brace_open text i ≡ true)
      × (candidate h text i ≡ some d)
      × ((j : ℕ) → i < j → j < stop → char_is brace_open text j ≡ true → candidate h text j ≡ none)

  -- From below the last opening brace to below the stop, when that brace offers nothing.
  tried :
      (start stop : ℕ)
      → IsLastBelow brace_open text stop (some start)
      → candidate h text start ≡ none
      → (j : ℕ) → j < stop
      → char_is brace_open text j ≡ true
      → (j < start → candidate h text j ≡ none)
      → candidate h text j ≡ none
  tried start stop found bad j below here lower = elim (Bool-cases (ltb j start)) [
    | inl less ↦ lower (ground arith)
    | inr more ↦ elim (Bool-cases (eq_ℕ j start)) [
      | inl same ↦ let e : j ≡ start = ground arith in rw e bad
      | inr apart ↦ let shut = found.2 j (ground arith) below in absurd cc
    ]
  ]

  widened :
      (start stop : ℕ) (r : Option Fields)
      → IsLastBelow brace_open text stop (some start)
      → candidate h text start ≡ none
      → IsExtractedBelow start r
      → IsExtractedBelow stop r
  widened start stop none found bad lower =
      λ j below here. tried start stop found bad j below here (λ less. lower j less here)
  widened start stop (some d) found bad (i, less, here, good, later) = (
    i,
    omega (arith, less, found.0),
    here,
    good,
    λ j above below brace.
        tried start stop found bad j below brace (λ lower. later j above lower brace),
  )

  extract_from-IsExtractedBelow :
      (fuel stop : ℕ) → stop ≤ fuel → IsExtractedBelow stop (extract_from h fuel text stop)
  unfolding extract_from
  extract_from-IsExtractedBelow zero stop enough = λ i below. absurd (omega arith)
  extract_from-IsExtractedBelow (suc n) stop enough =
      let at = rfind-IsLastBelow brace_open text stop in
      elim (Option-cases (rfind brace_open text stop)) [
        | inl e ↦
            let absent = subst (IsLastBelow brace_open text stop) e at in
            rw (e, extract_from) (λ i below here. let shut = absent i below in absurd cc)
        | inr (start, e) ↦
            let found = subst (IsLastBelow brace_open text stop) e at in
            rw (e, extract_from)
              (elim (Option-cases (candidate h text start)) [
                | inl bad ↦ rw bad (
                    widened start stop _ found bad
                      (extract_from-IsExtractedBelow n start (omega (arith, found.0))))
                | inr (d, good) ↦ rw good (
                  start,
                  found.0,
                  found.1,
                  good,
                  λ j above below here. let shut = found.2 j above below in absurd cc,
                )
              ])
      ]

-- `none` when no opening brace begins a text, up to the last closing brace, that loads; otherwise the
-- object at the last one that does.
pub IsExtracted : Host → String → Option Fields → Type 0
IsExtracted h text none = (i : ℕ) → char_is brace_open text i ≡ true → candidate h text i ≡ none
IsExtracted h text (some d) =
    (i : ℕ) × (char_is brace_open text i ≡ true)
    × (candidate h text i ≡ some d)
    × ((j : ℕ) → i < j → char_is brace_open text j ≡ true → candidate h text j ≡ none)

everywhere :
    (h : Host) (text : String) (r : Option Fields)
    → IsExtractedBelow h text (text_length text) r
    → IsExtracted h text r
unfolding IsExtracted
everywhere h text none all = λ i here. all i (char_is-text_length brace_open text i here) here
everywhere h text (some d) (i, less, here, good, later) = (
  i,
  here,
  good,
  λ j above brace. later j above (char_is-text_length brace_open text j brace) brace,
)

-- `_extract_json` ends on every text: it gives the object at the last opening brace from which the text up
-- to the last closing brace loads, and `None` only when there is no such brace.
pub extract_json-IsExtracted : (h : Host) (text : String) → IsExtracted h text (extract_json h text)
unfolding extract_json
extract_json-IsExtracted h text =
    everywhere h text _ (extract_from-IsExtractedBelow h text _ (text_length text) (omega arith))
