-- ===== src/Packs.antt =====
-- comcmd/pack.py: a company as a bundle of its declaration, skills, handlers and scenarios, and the runner
-- that is wired for it. Reading a pack's directory is left out. The id of a compiled revision is a digest
-- of the whole declaration, of which `CompanySpec` has a part, so it is a parameter.
use company_command.Prelude.{String, Option, none, some, List, [], ◌∷◌, Dict, insert}
use company_command.Json.{Fields}
use company_command.Spec.{CompanySpec}
use company_command.Compile.{compile_company}
use company_command.Kernel.Executor.{ToolHandler}
use company_command.Kernel.Runtime.{Worker}
use company_command.Kernel.Steps.{Runner}
use company_command.Gateway.Verifier.{ApprovalVerifier, deny_by_default}
use company_command.Workers.Models.{new_registry}
use company_command.Workers.Native.{NativeWorker}
use company_command.Workers.Native as Native

pub record Scenario : Type 0 where
  pub inputs : Fields
  pub expected : Fields

pub record CompanyPack : Type 0 where
  pub spec : CompanySpec
  pub skills : Dict Worker
  pub handlers : Dict ToolHandler
  pub scenarios : List Scenario

-- `{x.id: x for x in xs}`, behind what there is
abbrev indexed : {A : Type 0} → (A → String) → List A → Dict A → Dict A
indexed id [] d = d
indexed id (x ∷ xs) d = indexed id xs (insert (id x) x d)

abbrev verifier_or_deny : Option ApprovalVerifier → ApprovalVerifier
verifier_or_deny none = deny_by_default
verifier_or_deny (some v) = v

-- `worker or NativeWorker(skills=pack.skills)`
abbrev worker_or_native : CompanyPack → Option Worker → Worker
worker_or_native pack none =
    Native.run (record { skills = pack.skills; profiles = new_registry none })
worker_or_native pack (some w) = w

-- `build_runner`, with the runner's gateway and executor in it; `none` is a `CompileError`.
unfoldable pub build_runner :
    (revision_id : CompanySpec → String)
    → CompanyPack
    → Option ApprovalVerifier
    → Option Worker
    → Option Runner
build_runner revision_id pack verifier worker = elim (compile_company pack.spec) [
  | some [] ↦ some (record {
    revision_id = revision_id pack.spec;
    company_name = pack.spec.metadata.name;
    workflows = indexed (λ w. w.id) pack.spec.workflows [];
    roles = indexed (λ r. r.id) pack.spec.roles [];
    actions = indexed (λ a. a.id) pack.spec.actions [];
    worker = worker_or_native pack worker;
    gateway = record {
      actions = indexed (λ a. a.id) pack.spec.actions [];
      bounds = [];
      verify = verifier_or_deny verifier;
    };
    executor = some pack.handlers;
  })
  | _ ↦ none
]
