-- ===== src/Workers/Loop/Bounds.antt =====
-- About the size of what a run reports of the repository.
use company_command.Prelude.{
  ◌-◌, ◌≤◌, ◌≡◌, String, Bool, true, false, none, some, List, [], ◌∷◌, ◌++◌, ltb, contains,
  IsDistinct,
}
use company_command.Json.{Json, str, bool, arr, Fields, get, texts}
use company_command.Workers.Texts.{Host, text_length, text_drop}
use company_command.Workers.Loop.Actions.{Attempt, done, raised, Process, Machine}
use company_command.Workers.Loop.Evidence.{status_names}

-- What is reported of a diff and of the names of the changed files: the diff's last part, short enough, and
-- whether something stands before it; and each name once.
pub record IsBounded (diff : String) (found : List String) (e : Fields) : Type 0 where
  pub tail : String
  pub names : List String
  pub reported : get "diff" e ≡ some (str tail)
  pub behind : tail ≡ text_drop (text_length diff - text_length tail) diff
  pub short : text_length tail ≤ 50000
  pub marked : get "diff_truncated" e ≡ some (bool (ltb 50000 (text_length diff)))
  pub whole : ltb 50000 (text_length diff) ≡ false → tail ≡ diff
  pub files : get "changed_files" e ≡ some (arr (texts names))
  pub once : IsDistinct names
  pub same : (name : String) → contains name names ≡ contains name found

module _ {D : Type 0} (h : Host) (m : Machine D) (workspace : String) where
  -- A git process in the workspace has ended well with this output.
  abbrev pub HasPrinted : List String → String → Type 0
  HasPrinted args text =
      (d : D) × (proc : Process) × ((m.run_process ("git" ∷ args) (some workspace) d).0 ≡ done proc)
      × (proc.returncode ≡ 0)
      × (proc.stdout ≡ text)

  -- The evidence is of what git printed: the diff, and the names of the files that are committed since the
  -- base or that the status lists.
  pub record IsFromGit (e : Fields) : Type 0 where
    pub base : String
    pub diff : String
    pub committed : String
    pub status : String
    pub diff_printed : HasPrinted ("diff" ∷ "--no-ext-diff" ∷ "--binary" ∷ base ∷ []) diff
    pub names_printed : HasPrinted ("diff" ∷ "--name-only" ∷ base ∷ []) committed
    pub status_printed : HasPrinted ("status" ∷ "--short" ∷ []) status
    pub bounded : IsBounded diff (m.splitlines committed ++ status_names (m.splitlines status)) e

  abbrev pub IsReported : (tracked : Bool) → Attempt Fields → Type 0
  IsReported tracked (raised e) = Unit
  IsReported true (done e) = IsFromGit e
  IsReported false (done e) = get "diff" e ≡ none

  abbrev Printed : List String → Attempt String → Type 0
  Printed args (raised e) = Unit
  Printed args (done text) = HasPrinted args text
