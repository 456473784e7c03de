-- ===== src/Workers/Loop/Verdict.antt =====
-- About when a Loop earns a status (comcmd/workers/loop.py).
use company_command.Prelude.{
  ◌≡◌, refl, sym, ap, ◌∙◌, String, Bool, true, false, ◌==◌, eq_iff, Option, none, some, [], ◌∷◌,
  contains, Dict, ◌⊎◌, inl, inr, if◌then◌else◌, if_ind, Option-cases, Bool-cases, subst,
}
use company_command.Json.{Json, Fields, null, bool, num, arr, obj, str, get, field, end}
use company_command.Kernel.Runtime.{TaskEnvelope, WorkerResult}
use company_command.Workers.Texts.{Host}
use company_command.Workers.Loop.Actions.{
  Failure, loop_worker_error, other_error, Attempt, done, raised, content, not_found, unreadable,
  Read, RunnerState, dictionary, dataclass, attributes, opaque, Action, Machine, and_then, ◌>>=◌,
}
use company_command.Workers.Loop.Evidence.{repository_evidence, path_in}
use company_command.Workers.Loop.{
  LoopWorker, config, environment, state_dict, status_in, status_of, loop_status, report,
  load_state, result, run_loop, run_from, run_body, settled, run,
}

-- A property of every outcome of a sequence, when it holds of the second part's and of exceptions.
pub and_then-ind :
    {D A B : Type 0} (Q : Attempt B → Type 0) (o : Attempt A) (f : A → Action D B) (d : D)
    → ((e : Failure) → Q (raised e))
    → ((a : A) (d' : D) → Q (f a d').0)
    → Q (and_then o f d).0
and_then-ind Q (done a) f d bad good = good a d
and_then-ind Q (raised e) f d bad good = bad e

-- The same, where the second part's outcome is known from the first one's.
pub and_then-cases :
    {D A B : Type 0} (Q : Attempt B → Type 0) (o : Attempt A) (f : A → Action D B) (d : D)
    → ((e : Failure) → Q (raised e))
    → ((a : A) → o ≡ done a → Q (f a d).0)
    → Q (and_then o f d).0
and_then-cases Q (done a) f d bad good = good a refl
and_then-cases Q (raised e) f d bad good = bad e

status_of-ok : (s : String) → status_of s ≡ "ok" → s ≡ "PASSED"
unfolding status_of
status_of-ok s =
    if_ind (λ x. x ≡ "ok" → s ≡ "PASSED") (s == "PASSED") (λ passed _. (eq_iff s "PASSED").0 passed)
      (λ _.
        if_ind (λ x. x ≡ "ok" → s ≡ "PASSED")
          (contains s ("EXHAUSTED" ∷ "STOPPED" ∷ "DRY_RUN" ∷ [])) (λ _ e. absurd cc)
          (λ _ e. absurd cc))

module _ {D : Type 0} (h : Host) (m : Machine D) (w : LoopWorker D) (env : TaskEnvelope) where
  -- The state file of the workspace holds this state.
  abbrev pub IsStored : String → Fields → Type 0
  IsStored workspace state =
      (d : D) × (text : String) × (m.read_text d (path_in workspace "state.json") ≡ content text)
      × (m.loads text ≡ some (obj state))

  -- The runner, called on the workspace, has returned this state.
  abbrev pub IsReturned : String → Fields → Type 0
  IsReturned workspace state =
      (config : Fields) × (environment : Dict String) × (resume : Bool) × (d : D)
      × (found : RunnerState) × ((w.runner config workspace environment resume d).0 ≡ done found)
      × (state_dict {D = D} found d ≡ (done state, d))

  abbrev IsOwn : String → Fields → Type 0
  IsOwn workspace state = IsStored workspace state ⊎ IsReturned workspace state

  -- What the worker returns without an exception is a report on such a state.
  abbrev IsReport : Attempt WorkerResult → Type 0
  IsReport (raised e) = Unit
  IsReport (done r) =
      (workspace : String) × (state : Fields) × (evidence : Fields) × IsOwn workspace state
      × (r ≡ report h env workspace state evidence)

  result-IsReport :
      (workspace : String) (state : Fields) (d : D)
      → IsOwn workspace state
      → IsReport (result h m env workspace state d).0
  unfolding result
  result-IsReport workspace state d own =
      and_then-ind IsReport (repository_evidence h m workspace d).0 _ _ (λ e. tt)
        (λ evidence d'. (workspace, state, evidence, own, refl))

  state_dict-pure :
      (found : RunnerState) (d d' : D) (state : Fields)
      → (state_dict found d).0 ≡ done state
      → state_dict {D = D} found d' ≡ (done state, d')
  unfolding state_dict
  state_dict-pure (dictionary f) d d' state e = rw e refl
  state_dict-pure (dataclass f) d d' state e = rw e refl
  state_dict-pure (attributes f) d d' state e = rw e refl
  state_dict-pure opaque d d' state e = absurd cc

  run_loop-IsReport :
      (workspace : String) (resume : Bool) (d : D)
      → IsReport (run_loop h m w env workspace resume d).0
  unfolding run_loop
  run_loop-IsReport workspace resume d =
      let called =
        w.runner (config h w.policy env) workspace (environment h m w.environment_allowlist) resume
          d in
      and_then-cases IsReport called.0 _ called.1 (λ e. tt)
        (λ found returned.
          and_then-cases IsReport (state_dict {D = D} found called.1).0 _ _ (λ e. tt)
            (λ state is_state. result-IsReport workspace state _ (
              inr (
                config h w.policy env,
                environment h m w.environment_allowlist,
                resume,
                d,
                found,
                returned,
                state_dict-pure found called.1 d state is_state,
              ))))

  -- What `run` does behind the first test of a state.
  abbrev by_end : String → Fields → Bool → Action D WorkerResult
  by_end workspace state over =
      if over
      then result h m env workspace state
      else status_in state ("RUNNING" ∷ "STOPPED" ∷ []) >>= run_loop h m w env workspace

  by_end-IsReport :
      (workspace : String) (state : Fields) (over : Bool) (d : D)
      → IsStored workspace state
      → IsReport (by_end workspace state over d).0
  by_end-IsReport workspace state true d stored = result-IsReport workspace state d (inl stored)
  by_end-IsReport workspace state false d stored =
      let asked : Action D Bool = status_in state ("RUNNING" ∷ "STOPPED" ∷ []) in
      and_then-ind IsReport (asked d).0 (run_loop h m w env workspace) (asked d).1 (λ e. tt)
        (λ resume d'. run_loop-IsReport workspace resume d')

  -- A loaded state is the one of the file.
  IsLoaded : String → Option Fields → Type 0
  IsLoaded workspace none = Unit
  IsLoaded workspace (some state) = IsStored workspace state

  run_from-IsReport :
      (workspace : String) (loaded : Option Fields) (d : D)
      → IsLoaded workspace loaded
      → IsReport (run_from h m w env workspace loaded d).0
  unfolding run_from IsLoaded
  run_from-IsReport workspace none d stored = run_loop-IsReport workspace false d
  run_from-IsReport workspace (some end) d stored = run_loop-IsReport workspace false d
  run_from-IsReport workspace (some (field k v state)) d stored =
      let found : Fields = field k v state in
      let asked : Action D Bool = status_in found ("PASSED" ∷ "EXHAUSTED" ∷ "FAILED" ∷ []) in
      and_then-ind IsReport (asked d).0 (by_end workspace found) (asked d).1 (λ e. tt)
        (λ over d'. by_end-IsReport workspace found over d' stored)

  LoadedAttempt : String → Attempt (Option Fields) → Type 0
  LoadedAttempt workspace (raised e) = Unit
  LoadedAttempt workspace (done loaded) = IsLoaded workspace loaded

  load_state-IsLoaded :
      (workspace : String) (d : D) → LoadedAttempt workspace (load_state h m workspace d).0
  unfolding load_state LoadedAttempt IsLoaded
  load_state-IsLoaded workspace d =
      elim (Bool-cases (m.exists d (path_in workspace "state.json"))) [
        | inr missing ↦ rw (missing, load_state) tt
        | inl there ↦ go there _ refl
      ]
    where
      go :
          m.exists d (path_in workspace "state.json") ≡ true
          → (read : Read) → m.read_text d (path_in workspace "state.json") ≡ read
          → LoadedAttempt workspace (load_state h m workspace d).0
      go there not_found e = rw (there, load_state) (rw (e, load_state) tt)
      go there (unreadable error) e = rw (there, load_state) (rw (e, load_state) tt)
      go there (content text) e =
          rw (there, load_state)
            (rw (e, load_state)
              (elim (Option-cases (m.loads text)) [
                | inl bad ↦ rw bad tt
                | inr (obj state, fine) ↦ rw fine (d, text, e, fine)
                | inr (null, fine) ↦ rw fine tt
                | inr (bool b, fine) ↦ rw fine tt
                | inr (num n, fine) ↦ rw fine tt
                | inr (str s, fine) ↦ rw fine tt
                | inr (arr xs, fine) ↦ rw fine tt
              ]))

  run_body-IsReport : (d : D) → IsReport (run_body h m w env d).0
  unfolding run_body IsLoaded LoadedAttempt
  run_body-IsReport d =
      and_then-ind IsReport _ _ _ (λ e. tt)
        (λ workspace d'.
          and_then-cases IsReport (load_state h m workspace d').0 _ _ (λ e. tt)
            (λ loaded is_loaded.
              run_from-IsReport workspace loaded _
                (subst (LoadedAttempt workspace) is_loaded (load_state-IsLoaded workspace d'))))

  -- The state names the status `PASSED` itself.
  abbrev pub NamesPass : Fields → Type 0
  NamesPass state = (v : Json) × (get "status" state ≡ some v) × (h.py_str v ≡ "PASSED")

  loop_status-NamesPass : (state : Fields) → loop_status h state ≡ "PASSED" → NamesPass state
  loop_status-NamesPass state e = elim (Option-cases (get "status" state)) [
    | inr (v, says) ↦ (v, says, rw (says, loop_status) at e)
    | inl silent ↦ absurd (not_passed (rw (silent, loop_status) at e))
  ]
    where
      not_passed : ◌≡◌ {A = String} "FAILED" "PASSED" → ⊥
      not_passed wrong = let same = (eq_iff "FAILED" "PASSED").1 wrong in absurd cc

  passed_report :
      (attempt : Attempt WorkerResult)
      → IsReport attempt
      → (settled attempt).status ≡ "ok"
      → (workspace : String) × (state : Fields) × (evidence : Fields) × IsOwn workspace state
        × NamesPass state
        × (settled attempt ≡ report h env workspace state evidence)
  unfolding report
  passed_report (raised (loop_worker_error e)) r ok = absurd cc
  passed_report (raised (other_error e)) r ok = absurd cc
  passed_report (done r) (workspace, state, evidence, own, e) ok = (
    workspace,
    state,
    evidence,
    own,
    loop_status-NamesPass state (status_of-ok _ (sym (ap (λ x. x.status) e) ∙ ok)),
    e,
  )

  -- A Loop is `ok` only as a report on a state that names the status `PASSED` itself, and that is either what
  -- the workspace's state file holds or what the runner has returned for the workspace. Nothing that git or
  -- other files do, no missing status and no exception gives `ok`.
  pub run-ok_passed :
      (d : D)
      → (run h m w env d).0.status ≡ "ok"
      → (workspace : String) × (state : Fields) × (evidence : Fields) × (IsStored workspace state
          ⊎ IsReturned workspace state)
        × NamesPass state
        × ((run h m w env d).0 ≡ report h env workspace state evidence)
  unfolding run
  run-ok_passed d ok = passed_report (run_body h m w env d).0 (run_body-IsReport d) ok
