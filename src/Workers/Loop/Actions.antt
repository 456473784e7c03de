-- ===== src/Workers/Loop/Actions.antt =====
-- The machine that comcmd/workers/loop.py runs on: files, processes and the libraries, all parameters, and
-- the sequence of its actions with exceptions.
use company_command.Prelude.{ℕ, String, Bool, Option, List}
use company_command.Json.{Json, Fields}

-- `LoopWorkerError`, or any other exception, with its text.
pub data Failure : Type 0 where
  loop_worker_error : String → Failure
  other_error : String → Failure

pub data Attempt (A : Type 0) : Type 0 where
  done : A → Attempt A
  raised : Failure → Attempt A

-- `read_text`: the file may be missing, or not readable for another reason.
pub data Read : Type 0 where
  content : String → Read
  not_found : Read
  unreadable : String → Read

pub record Process : Type 0 where
  pub returncode : ℕ
  pub stdout : String
  pub stderr : String

-- What the runner of a Loop returns: a dictionary, a dataclass, an object with attributes, or another thing.
pub data RunnerState : Type 0 where
  dictionary : Fields → RunnerState
  dataclass : Fields → RunnerState
  attributes : Fields → RunnerState
  opaque : RunnerState

-- An action on the machine `D`. What it did before an exception stays done.
abbrev pub Action : Type 0 → Type 0 → Type 0
Action D A = D → Attempt A × D

pub record Machine (D : Type 0) : Type 0 where
  pub exists : D → String → Bool
  pub read_text : D → String → Read
  pub write_text : (path text : String) → Action D (Unit {0})
  pub make_dirs : String → Action D (Unit {0})
  pub copy_tree : (source target : String) → (ignored : List String) → Action D (Unit {0})
  -- `subprocess.run`
  pub run_process : (argv : List String) → (cwd : Option String) → Action D Process
  pub environ : String → Option String
  -- `json.loads`, `json.dumps` with sorted keys, Python's `==` on JSON values, and `str.splitlines`.
  pub loads : String → Option Json
  pub dumps_sorted : Json → String
  pub equal : Json → Json → Bool
  pub splitlines : String → List String

module _ {D A : Type 0} where
  abbrev pub pure : A → Action D A
  pure a d = (done a, d)

  abbrev pub throw : Failure → Action D A
  throw e d = (raised e, d)

module _ {D A B : Type 0} where
  abbrev pub and_then : Attempt A → (A → Action D B) → Action D B
  and_then (done a) f = f a
  and_then (raised e) f = throw e

  infixl 5 ◌>>=◌ ◌>>◌
  abbrev pub ◌>>=◌ : Action D A → (A → Action D B) → Action D B
  m >>= f = λ d. let (r, d') = m d in and_then r f d'

  abbrev pub ◌>>◌ : Action D A → Action D B → Action D B
  m >> n = m >>= λ _. n
