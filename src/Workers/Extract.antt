-- ===== src/Workers/Extract.antt =====
-- comcmd/workers/cli_agents.py, `_extract_json`: the object at the end of an agent's output.
pub mod Last
use Prim.Native.Char.{Char}
use company_command.Prelude.{ℕ, zero, suc, ◌-◌, String, Option, none, some}
use company_command.Json.{Fields}
use company_command.Workers.Texts.{Host, text_length, text_take, text_drop, rfind}

abbrev pub brace_open : Char
brace_open = "{"

abbrev pub brace_close : Char
brace_close = "}"

module _ (h : Host) where
  -- `json.loads(text[start:text.rindex("}") + 1])`; without a closing brace `rindex` raises.
  unfoldable pub candidate : String → ℕ → Option Fields
  candidate text start = elim (rfind brace_close text (text_length text)) [
    | none ↦ none
    | some last ↦ h.load_object (text_drop start (text_take (suc last) text))
  ]

  -- The loop, at the opening braces below `stop`.
  unfoldable pub extract_from : (fuel : ℕ) → String → (stop : ℕ) → Option Fields
  extract_from zero text stop = none
  extract_from (suc n) text stop = elim (rfind brace_open text stop) [
    | none ↦ none
    | some start ↦ elim (candidate text start) [
      | some d ↦ some d
      | none ↦ extract_from n text start
    ]
  ]

  -- `_extract_json`; each turn goes on below an opening brace, so the text's length is enough fuel.
  unfoldable pub extract_json : String → Option Fields
  extract_json text = extract_from (text_length text) text (text_length text)
