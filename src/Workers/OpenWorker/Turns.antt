-- ===== src/Workers/OpenWorker/Turns.antt =====
-- About a whole session with OpenWorker.
use Prim.Native.String.{◌++◌ as concat}
use company_command.Prelude.{
  ◌≡◌, refl, ap, ◌∙◌, String, true, Option, some, List, [], ◌∷◌, ◌++◌, All, contains, eq_iff, inl,
  inr, Bool-cases,
}
use company_command.Json.{Json, Fields, null, bool, num, str, arr, obj, get}
use company_command.Workers.Texts.{Host, returned, failed}
use company_command.Workers.OpenWorker.Frames.{
  Frame, set_mode, user_message, is_word, ends, effect_of, last_text, interactions, run_session,
}
use company_command.Workers.OpenWorker.Listening.{
  IsHarmless, said, ended, refused, interaction_effect, listen-harmless, listen-returned,
}

is_word-eq : (word : String) (o : Option Json) → is_word word o ≡ true → o ≡ some (str word)
is_word-eq word (some (str s)) e = ap (λ x. some (str x)) ((eq_iff s word).0 e)
is_word-eq word _ e = absurd cc

module _ (h : Host) where
  -- The frames of a turn that leaves this text: a ready event, events that neither ask for an interaction
  -- nor fail, the last message among them, and the end of the turn.
  pub record IsTurn (frames : List Frame) (text : String) : Type 0 where
    pub ready : Fields
    pub before : List Frame
    pub last : Frame
    pub after : List Frame
    pub split : frames ≡ returned (obj ready) ∷ (before ++ last ∷ after)
    pub opened : get "type" ready ≡ some (str "ready")
    pub harmless : All (λ f. IsHarmless (effect_of h f)) before
    pub ended : effect_of h last ≡ ends
    pub spoken : last_text (said h before) ≡ some text

  -- A session that returns a text had a whole turn, whose last message it is, free of events that ask for
  -- an interaction; it has put the server in plan mode before the prompt, and sent nothing else.
  pub run_session-IsTurn :
      (prompt lost : String) (frames : List Frame) (text : String)
      → (run_session h prompt lost frames).outcome ≡ returned text
      → IsTurn frames text
        × ((run_session h prompt lost frames).sent ≡ set_mode ∷ user_message prompt ∷ [])
  unfolding run_session
  run_session-IsTurn prompt lost [] text = λ r. absurd cc
  run_session-IsTurn prompt lost (failed error ∷ fs) text = λ r. absurd cc
  run_session-IsTurn prompt lost (returned (obj ready) ∷ fs) text =
      elim (Bool-cases (is_word "error" (get "type" ready))) [
        | inl wrong ↦ rw wrong (λ r. absurd cc)
        | inr fine ↦ rw fine (elim (Bool-cases (is_word "ready" (get "type" ready))) [
          | inr unready ↦ rw unready (λ r. absurd cc)
          | inl opened ↦ rw opened (λ r.
              let (before, last, after, split, harmless, ended, spoken) =
                listen-returned h lost fs [] text r in
              (
                record {
                  ready = ready;
                  before = before;
                  last = last;
                  after = after;
                  split = ap (λ xs. returned (obj ready) ∷ xs) split;
                  opened = is_word-eq "ready" (get "type" ready) opened;
                  harmless = harmless;
                  ended = ended;
                  spoken = spoken;
                },
                refl,
              ))
        ])
      ]
  run_session-IsTurn prompt lost (returned null ∷ fs) text = λ r. absurd cc
  run_session-IsTurn prompt lost (returned (bool b) ∷ fs) text = λ r. absurd cc
  run_session-IsTurn prompt lost (returned (num n) ∷ fs) text = λ r. absurd cc
  run_session-IsTurn prompt lost (returned (str s) ∷ fs) text = λ r. absurd cc
  run_session-IsTurn prompt lost (returned (arr xs) ∷ fs) text = λ r. absurd cc

  -- A server that is ready, asks for no interaction, reports no error, says something and ends its turn
  -- gives its last message, whatever it would send later.
  pub run_session-completes :
      (prompt lost : String) (frames : List Frame) (text : String)
      → IsTurn frames text
      → (run_session h prompt lost frames).outcome ≡ returned text
  unfolding run_session
  run_session-completes prompt lost frames text turn =
      rw (turn.split, turn.opened)
        (listen-harmless h lost turn.before (turn.last ∷ turn.after) [] turn.harmless
          ∙ ended h lost _ turn.last turn.after text turn.ended turn.spoken)

  -- An event that asks for an interaction ends the session without a text.
  pub run_session-refuses :
      (prompt lost : String) (ready event : Fields) (before after : List Frame) (kind : String)
      → get "type" ready ≡ some (str "ready")
      → All (λ f. IsHarmless (effect_of h f)) before
      → get "type" event ≡ some (str kind)
      → contains kind interactions ≡ true
      → (run_session h prompt lost
          (returned (obj ready) ∷ (before ++ returned (obj event) ∷ after))).outcome
        ≡ failed (
            concat "OpenWorker requested interaction in read-only worker mode: "
              (h.py_str (str kind)))
  unfolding run_session
  run_session-refuses prompt lost ready event before after kind opened harmless is asks =
      rw opened (
        listen-harmless h lost before (returned (obj event) ∷ after) [] harmless
        ∙ refused h lost _ (returned (obj event)) after _ (interaction_effect h event kind is asks))
