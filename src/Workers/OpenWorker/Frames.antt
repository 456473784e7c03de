-- ===== src/Workers/OpenWorker/Frames.antt =====
-- comcmd/workers/openworker.py, `_websocket_runner` on an open connection. A connection is the list of what
-- its `recv` calls give, one after another, and is lost behind them.
use Prim.Native.String.{◌++◌ as concat}
use company_command.Prelude.{
  String, Bool, false, Option, none, some, List, [], ◌∷◌, ◌++◌, ◌==◌, contains, if◌then◌else◌,
}
use company_command.Json.{Json, null, str, arr, obj, Fields, end, field, get, truthy}
use company_command.Workers.Texts.{Host, Outcome, returned, failed, no_get}

-- What `json.loads(ws.recv())` gives: a value, or an exception.
abbrev pub Frame : Type 0
Frame = Outcome Json

-- A session's outcome and the messages that it has sent.
pub record Session : Type 0 where
  pub outcome : Outcome String
  pub sent : List Json

abbrev pub set_mode : Json
set_mode = obj (field "type" (str "set_mode") (field "mode" (str "plan") end))

abbrev pub user_message : String → Json
user_message prompt = obj (field "type" (str "user_message") (field "text" (str prompt) end))

-- `d.get(k) == word`
abbrev pub is_word : String → Option Json → Bool
is_word word (some (str s)) = s == word
is_word word _ = false

-- `d.get(k) or default`
abbrev pub get_or : String → Fields → Json → Json
get_or k d default = elim (get k d) [ none ↦ default | some v ↦ if truthy v then v else default ]

-- `d.get(k)` where `None` stands for a missing key
abbrev pub get_none : String → Fields → Json
get_none k d = elim (get k d) [ none ↦ null | some v ↦ v ]

-- What an event does to the session: a text for the artifact, an exception, the turn's end, or nothing.
pub data Effect : Type 0 where
  says : String → Effect
  stops : String → Effect
  ends : Effect
  nothing : Effect

abbrev pub interactions : List String
interactions =
    "permission_required" ∷ "directory_requested" ∷ "plan_proposed" ∷ "question_requested" ∷ []

abbrev pub is_interaction : Option Json → Bool
is_interaction (some (str kind)) = contains kind interactions
is_interaction _ = false

-- `messages[-1]`
abbrev pub last_text : List String → Option String
last_text [] = none
last_text (m ∷ []) = some m
last_text (m ∷ n ∷ ms) = last_text (n ∷ ms)

-- A list or a dictionary is in no set: `kind in {...}` raises on it.
abbrev unhashable : Option Json → Option String
unhashable (some (arr xs)) = some "unhashable type: 'list'"
unhashable (some (obj d)) = some "unhashable type: 'dict'"
unhashable _ = none

module _ (h : Host) where
  -- The branches behind the one for a message: what raises, and what ends the turn.
  abbrev other_effect : (kind : Option Json) → (on_error : Effect) → Effect
  other_effect kind on_error = elim (unhashable kind) [
    | some error ↦ stops error
    | none ↦
        if is_interaction kind
        then stops (
            concat "OpenWorker requested interaction in read-only worker mode: "
              (elim kind [ none ↦ "" | some k ↦ h.py_str k ]))
        else if is_word "error" kind
        then on_error
        else if is_word "turn_done" kind
        then ends
        else nothing
  ]

  -- One turn of the loop; the branches that call `data.get` raise on data that is no dictionary.
  unfoldable pub effect_on : (kind : Option Json) → (data_of : Json) → Effect
  effect_on kind (obj d) =
      if is_word "assistant_message" kind
      then (let text = h.strip (h.py_str (get_or "text" d (get_or "content" d (str "")))) in
          if text == "" then nothing else says text)
      else other_effect kind (stops (h.py_str (get_or "error" d (get_or "message" d (obj d)))))
  effect_on kind v =
      if is_word "assistant_message" kind
      then stops (no_get v)
      else other_effect kind (stops (no_get v))

  unfoldable pub effect_of : Frame → Effect
  unfolding effect_on
  effect_of (failed error) = stops error
  effect_of (returned (obj event)) = effect_on (get "type" event) (get_or "data" event (obj end))
  effect_of (returned v) = stops (no_get v)

  -- The `while True` loop with the messages so far, and what comes behind it.
  unfoldable pub listen : (lost : String) → (messages : List String) → List Frame → Outcome String
  listen lost messages [] = failed lost
  listen lost messages (f ∷ fs) = elim (effect_of f) [
    | says text ↦ listen lost (messages ++ text ∷ []) fs
    | stops error ↦ failed error
    | ends ↦ elim (last_text messages) [
      | none ↦ failed "OpenWorker completed without an assistant artifact"
      | some text ↦ returned text
    ]
    | nothing ↦ listen lost messages fs
  ]

  -- `ready.get("data", {}).get("error", "startup failed")`
  startup_error : Json → String
  startup_error (obj d) = elim (get "error" d) [ none ↦ "startup failed" | some v ↦ h.py_str v ]
  startup_error v = no_get v

  -- `_websocket_runner` on an open connection.
  unfoldable pub run_session : (prompt lost : String) → List Frame → Session
  unfolding listen startup_error
  run_session prompt lost [] = record { outcome = failed lost; sent = [] }
  run_session prompt lost (failed error ∷ fs) = record { outcome = failed error; sent = [] }
  run_session prompt lost (returned (obj ready) ∷ fs) =
      if is_word "error" (get "type" ready)
      then (let info : Json = elim (get "data" ready) [ none ↦ obj end | some v ↦ v ] in
          record { outcome = failed (startup_error info); sent = [] })
      else if is_word "ready" (get "type" ready)
      then record { outcome = listen lost [] fs; sent = set_mode ∷ user_message prompt ∷ [] }
      else record {
        outcome = failed (concat "expected ready event, got " (h.py_repr (get_none "type" ready)));
        sent = [];
      }
  run_session prompt lost (returned v ∷ fs) = record { outcome = failed (no_get v); sent = [] }
