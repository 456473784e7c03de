-- ===== src/Kernel/Runtime.antt =====
-- The state of the workflow runner and its effects: the shared objects, the calls of the worker so
-- far, and exceptions. Also the worker's interface, comcmd/workers/api.py.
use company_command.Prelude.{ℕ, String, Option, none, some, List}
use company_command.Json.{Fields}
use company_command.Gateway.Intents.{ActionIntent}
use company_command.Gateway.State.{World}

pub record TaskEnvelope : Type 0 where
  pub company : String
  pub task_id : String
  pub step_id : String
  pub role : String
  pub model_profile : Option String
  pub inputs : Fields
  pub allowed_tools : List String

pub record WorkerResult : Type 0 where
  pub status : String
  pub artifact : Option Fields
  pub intents : List ActionIntent
  pub questions : List String
  pub usage : Fields

-- A worker may answer each call differently, so it is given the number of earlier calls too.
-- `none` is an exception that it raises.
abbrev pub Worker : Type 0
Worker = ℕ → TaskEnvelope → Option WorkerResult

-- `runs` has the task and step of every call of the worker, the latest first.
pub record Runtime : Type 0 where
  pub world : World
  pub runs : List (String × String)

pub data Error : Type 0 where
  unknown_workflow worker_failed unknown_status not_a_gate cycle_at_runtime : Error
  key_error type_error unreadable_ledger worker_raised gateway_raised executor_raised : Error
  no_fuel : Error

pub data Result (A : Type 0) : Type 0 where
  ok : A → Result A
  raised : Error → Result A

-- What was written before an exception stays written.
abbrev pub M : Type 0 → Type 0
M A = Runtime → Result A × Runtime

module _ {A : Type 0} where
  abbrev pub pure : A → M A
  pure a t = (ok a, t)

  abbrev pub throw : Error → M A
  throw e t = (raised e, t)

  abbrev pub or_throw : Option A → Error → M A
  or_throw none e = throw e
  or_throw (some a) e = pure a

module _ {A B : Type 0} where
  abbrev pub and_then : Result A → (A → M B) → M B
  and_then (ok a) f = f a
  and_then (raised e) f = throw e

  infixl 5 ◌>>=◌ ◌>>◌
  abbrev pub ◌>>=◌ : M A → (A → M B) → M B
  m >>= f = λ t. let (r, t') = m t in and_then r f t'

  abbrev pub ◌>>◌ : M A → M B → M B
  m >> n = m >>= λ _. n

abbrev pub world : M World
world t = (ok t.world, t)

-- An operation of the gateway or the executor, whose `none` is an exception.
abbrev pub on_world : {A : Type 0} → (World → Option A × World) → Error → M A
on_world f e t =
    let (o, w) = f t.world in
    elim o [ none ↦ (raised e, record t { world = w }) | some a ↦ (ok a, record t { world = w }) ]
