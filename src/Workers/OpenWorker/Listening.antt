-- ===== src/Workers/OpenWorker/Listening.antt =====
-- About the loop of a session with OpenWorker, event by event.
use mathlib.Core.List.{append-nil, append_assoc}
use Prim.Native.String.{◌++◌ as concat}
use company_command.Prelude.{
  ◌≡◌, refl, sym, ap, subst, ◌∙◌, String, true, false, some, List, [], ◌∷◌, ◌++◌, All, contains,
  ◌==◌, eq_iff, Option-cases, inl, inr, Bool-cases,
}
use company_command.Json.{Json, Fields, null, bool, num, str, arr, obj, get}
use company_command.Workers.Texts.{Host, returned, failed}
use company_command.Workers.OpenWorker.Frames.{
  Frame, Effect, effect_on, says, stops, ends, nothing, effect_of, last_text, listen, interactions,
}

-- An event that the loop goes on behind.
abbrev pub IsHarmless : Effect → Type 0
IsHarmless (says t) = Unit
IsHarmless nothing = Unit
IsHarmless _ = ⊥

data EffectCase (e : Effect) : Type 0 where
  is_says : (t : String) → e ≡ says t → EffectCase e
  is_stops : (error : String) → e ≡ stops error → EffectCase e
  is_ends : e ≡ ends → EffectCase e
  is_nothing : e ≡ nothing → EffectCase e

effect_case : (e : Effect) → EffectCase e
effect_case (says t) = is_says t refl
effect_case (stops error) = is_stops error refl
effect_case ends = is_ends refl
effect_case nothing = is_nothing refl

no_message :
    (kind : String) → contains kind interactions ≡ true → (kind == "assistant_message") ≡ false
no_message kind asks = elim (Bool-cases (kind == "assistant_message")) [
  | inl same ↦
      let listed = subst (λ k. contains k interactions ≡ true) ((eq_iff kind _).0 same) asks in
      absurd cc
  | inr other ↦ other
]

module _ (h : Host) where
  -- The texts of these events' messages.
  unfoldable pub said : List Frame → List String
  said [] = []
  said (f ∷ fs) = let rest = said fs in elim (effect_of h f) [ says t ↦ t ∷ rest | _ ↦ rest ]

  pub ended :
      (lost : String) (messages : List String) (last : Frame) (after : List Frame) (text : String)
      → effect_of h last ≡ ends
      → last_text messages ≡ some text
      → listen h lost messages (last ∷ after) ≡ returned text
  unfolding listen
  ended lost messages last after text e spoken = rw (e, listen) (rw spoken refl)

  pub refused :
      (lost : String) (messages : List String) (last : Frame) (after : List Frame) (error : String)
      → effect_of h last ≡ stops error
      → listen h lost messages (last ∷ after) ≡ failed error
  unfolding listen
  refused lost messages last after error e = rw (e, listen) refl

  effect_on-interaction :
      (kind : String) (v : Json)
      → contains kind interactions ≡ true
      → effect_on h (some (str kind)) v
        ≡ stops (
            concat "OpenWorker requested interaction in read-only worker mode: "
              (h.py_str (str kind)))
  unfolding effect_on
  effect_on-interaction kind null asks = rw (no_message kind asks, asks) refl
  effect_on-interaction kind (bool b) asks = rw (no_message kind asks, asks) refl
  effect_on-interaction kind (num n) asks = rw (no_message kind asks, asks) refl
  effect_on-interaction kind (str s) asks = rw (no_message kind asks, asks) refl
  effect_on-interaction kind (arr xs) asks = rw (no_message kind asks, asks) refl
  effect_on-interaction kind (obj d) asks = rw (no_message kind asks, asks) refl

  pub interaction_effect :
      (event : Fields) (kind : String)
      → get "type" event ≡ some (str kind)
      → contains kind interactions ≡ true
      → effect_of h (returned (obj event))
        ≡ stops (
            concat "OpenWorker requested interaction in read-only worker mode: "
              (h.py_str (str kind)))
  unfolding effect_of
  interaction_effect event kind is asks = rw is (effect_on-interaction kind _ asks)

  -- The loop behind harmless events has their messages.
  pub listen-harmless :
      (lost : String) (before rest : List Frame) (messages : List String)
      → All (λ f. IsHarmless (effect_of h f)) before
      → listen h lost messages (before ++ rest) ≡ listen h lost (messages ++ said before) rest
  unfolding listen said
  listen-harmless lost [] rest messages ok = rw (append-nil messages) refl
  listen-harmless lost (f ∷ fs) rest messages ok = elim (effect_case (effect_of h f)) [
    | is_says t e ↦
        rw (e, listen, said, sym (append_assoc messages (t ∷ []) (said fs)))
          (listen-harmless lost fs rest (messages ++ t ∷ []) ok.1)
    | is_stops error e ↦ absurd (subst IsHarmless e ok.0)
    | is_ends e ↦ absurd (subst IsHarmless e ok.0)
    | is_nothing e ↦ rw (e, listen, said) (listen-harmless lost fs rest messages ok.1)
  ]

  -- What the loop returns is the last message of a turn that ended.
  pub listen-returned :
      (lost : String) (frames : List Frame) (messages : List String) (text : String)
      → listen h lost messages frames ≡ returned text
      → (before : List Frame) × (last : Frame) × (after : List Frame) × (frames
          ≡ before ++ last ∷ after)
        × All (λ f. IsHarmless (effect_of h f)) before
        × (effect_of h last ≡ ends)
        × (last_text (messages ++ said before) ≡ some text)
  unfolding listen said
  listen-returned lost [] messages text = λ r. absurd cc
  listen-returned lost (f ∷ fs) messages text = elim (effect_case (effect_of h f)) [
    | is_says t e ↦
        rw (e, listen)
          (λ r.
            let (before, last, after, split, ok, ended, spoken) =
              listen-returned lost fs (messages ++ t ∷ []) text r in
            (
              f ∷ before,
              last,
              after,
              ap (λ xs. f ∷ xs) split,
              (rw e tt, ok),
              ended,
              rw (e, said, sym (append_assoc messages (t ∷ []) (said before))) spoken,
            ))
    | is_stops error e ↦ rw (e, listen) (λ r. absurd cc)
    | is_ends e ↦
        rw (e, listen)
          (elim (Option-cases (last_text messages)) [
            | inl silent ↦ rw silent (λ r. absurd cc)
            | inr (t, e') ↦
                rw e' (λ r. ([], f, fs, refl, tt, e, rw (append-nil messages) (e' ∙ ap some cc)))
          ])
    | is_nothing e ↦
        rw (e, listen)
          (λ r.
            let (before, last, after, split, ok, ended, spoken) =
              listen-returned lost fs messages text r in
            (
              f ∷ before,
              last,
              after,
              ap (λ xs. f ∷ xs) split,
              (rw e tt, ok),
              ended,
              rw (e, said) spoken,
            ))
  ]
