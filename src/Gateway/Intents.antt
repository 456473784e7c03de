-- ===== src/Gateway/Intents.antt =====
-- comcmd/gateway/intents.py: a worker's request to cause an effect, and the digest that pins it.
pub mod Pins
use company_command.Prelude.{ℕ, String, Option, none, some}
use company_command.Json.{Json, Fields, str, num, obj, field, end, optional}
use company_command.Ids.{Platform, digest}

pub record ActionIntent : Type 0 where
  pub company : String
  pub task_id : String
  pub step_id : String
  pub requested_by : String
  pub action_id : String
  pub tool : String
  pub args : Fields
  pub target : Option String
  pub amount : Option ℕ
  pub environment : Option String
  pub audience : Option String

abbrev pub text : Option String → Option Json
text none = none
text (some s) = some (str s)

abbrev pub number : Option ℕ → Option Json
number none = none
number (some n) = some (num n)

-- `model_dump(mode="json", exclude_none=True)`
unfoldable pub canonical : ActionIntent → Json
canonical i = obj (
    field "company" (str i.company) (
      field "task_id" (str i.task_id) (
        field "step_id" (str i.step_id) (
          field "requested_by" (str i.requested_by) (
            field "action_id" (str i.action_id) (
              field "tool" (str i.tool) (
                field "args" (obj i.args) (
                  optional "target" (text i.target) (
                    optional "amount" (number i.amount) (
                      optional "environment" (text i.environment)
                        (optional "audience" (text i.audience) end)))))))))))

unfoldable pub action_digest : Platform → ActionIntent → String
unfolding canonical
action_digest p i = digest p (canonical i)
