-- ===== src/Workers/Models.antt =====
-- comcmd/models: the model backends and the registry that maps a capability profile to one of them.
-- A backend may answer each call differently, so it is given the number of earlier calls too.
use company_command.Prelude.{ℕ, String, Option, none, some, [], Dict, lookup, insert, if◌then◌else◌}
use company_command.Json.{Json, str, arr, obj, Items, nil, cons, Fields, end, field, get, truthy}
use company_command.Workers.Texts.{Outcome, returned, failed}

-- `text` and `tool_calls` come from the endpoint as they are.
pub record ModelResult : Type 0 where
  pub status : String
  pub text : Json
  pub tool_calls : Json
  pub meta : Fields

-- `complete`: the profile, the messages and the tools; `none` is an exception.
abbrev pub ModelBackend : Type 0
ModelBackend = ℕ → (profile : String) → (messages tools : Items) → Option ModelResult

unfoldable pub offline_defer : ModelBackend
offline_defer n profile messages tools = some (record {
  status = "deferred";
  text = str "";
  tool_calls = arr nil;
  meta = field "profile" (str profile) (field "reason" (str "offline-defer backend (Phase 0)") end);
})

-- An endpoint that is compatible with OpenAI's. `post` issues the request with the key, if there is one,
-- and reads the answer's JSON.
pub record OpenAiCompat : Type 0 where
  pub base_url : String
  pub api_key : Option String
  pub model_map : Dict String
  pub post : ℕ → (base_url : String) → (api_key : Option String) → (body : Fields) → Outcome Json

-- `data.get("choices") or [{}]`, its first entry, and that entry's `message`, where each step may raise.
unfoldable pub choice_of : Json → Option Fields
choice_of (obj data_of) = elim (choices_of data_of) [
  | arr (cons (obj entry) rest) ↦ elim (get "message" entry) [
    | none ↦ some end
    | some (obj message) ↦ some message
    | some _ ↦ none
  ]
  | _ ↦ none
]
  where
    choices_of : Fields → Json
    choices_of d = elim (get "choices" d) [
      | none ↦ arr (cons (obj end) nil)
      | some v ↦ if truthy v then v else arr (cons (obj end) nil)
    ]
choice_of _ = none

-- `d.get(k) or default`
abbrev get_or : String → Fields → Json → Json
get_or k d default = elim (get k d) [ none ↦ default | some v ↦ if truthy v then v else default ]

unfoldable pub open_ai_compat : OpenAiCompat → ModelBackend
unfolding choice_of
open_ai_compat b n profile messages tools =
    let model : String = elim (lookup profile b.model_map) [ none ↦ profile | some name ↦ name ] in
    let asked : Fields = elim tools [
      | nil ↦ end
      | cons t ts ↦ field "tools" (arr (cons t ts)) end
    ] in
    let body = field "model" (str model) (field "messages" (arr messages) asked) in
    elim (b.post n b.base_url b.api_key body) [
      | failed error ↦ some (record {
        status = "error";
        text = str "";
        tool_calls = arr nil;
        meta = field "error" (str error) (field "profile" (str profile) end);
      })
      | returned answer ↦ elim (choice_of answer) [
        | none ↦ none
        | some message ↦ some (record {
          status = "ok";
          text = get_or "content" message (str "");
          tool_calls = get_or "tool_calls" message (arr nil);
          meta = field "profile" (str profile) (field "model" (str model) end);
        })
      ]
    ]

pub record ProfileRegistry : Type 0 where
  pub default : ModelBackend
  pub by_profile : Dict ModelBackend

-- `ProfileRegistry(default)`
abbrev pub new_registry : Option ModelBackend → ProfileRegistry
new_registry default = record {
  default = elim default [ none ↦ offline_defer | some b ↦ b ];
  by_profile = [];
}

unfoldable pub bind : String → ModelBackend → ProfileRegistry → ProfileRegistry
bind profile backend r = record r { by_profile = insert profile backend r.by_profile }

unfoldable pub backend_for : Option String → ProfileRegistry → ModelBackend
backend_for none r = r.default
backend_for (some profile) r = elim (lookup profile r.by_profile) [ none ↦ r.default | some b ↦ b ]
