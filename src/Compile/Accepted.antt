-- ===== src/Compile/Accepted.antt =====
-- About the workflows of a declaration that comcmd/compile/compiler.py accepts.
pub mod Governed
use company_command.Prelude.{
  String, ◌≡◌, ◌≢◌, refl, ap, Bool, true, false, not, ◌&&◌, some, List, [], ◌∷◌, ◌++◌, map,
  contains, All, Option-cases, inl, inr,
}
use company_command.Spec.{Workflow, WorkflowStep, CompanySpec}
use company_command.Kernel.Order.{missing, in_dependency_order, ids}
use company_command.Kernel.Order.Closed.{IsClosed, in_dependency_order-closed}
use company_command.Compile.Codes.{Code, when, each, has_text, dangling}
use company_command.Compile.Codes as Codes
use company_command.Compile.Steps.{References, step_errors, typed_errors}
use company_command.Compile.Cycles.{check_cycles}
use company_command.Compile.Cycles.Fuel.{check_cycles-ends}
use company_command.Compile.{
  references, workflow_errors, workflows_errors, company_errors, compile_company,
}

both_empty : (xs ys : List Code) → xs ++ ys ≡ [] → (xs ≡ []) × (ys ≡ [])
both_empty [] ys e = (refl, e)
both_empty (x ∷ xs) ys e = absurd cc

each-empty :
    {A : Type 0} (f : A → List Code) (xs : List A) → each f xs ≡ [] → All (λ x. f x ≡ []) xs
unfolding each
each-empty f [] e = tt
each-empty f (x ∷ xs) e =
    let (here, rest) = both_empty (f x) (each f xs) e in (here, each-empty f xs rest)

All-mono :
    {A : Type 0} (P Q : A → Type 0) (xs : List A) → ((x : A) → P x → Q x) → All P xs → All Q xs
All-mono P Q [] k h = tt
All-mono P Q (x ∷ xs) k h = (k x h.0, All-mono P Q xs k h.1)

when-empty : (test : Bool) (code : Code) → when (not test) code ≡ [] → test ≡ true
when-empty true code e = refl
when-empty false code e = absurd cc

map-ids : (steps : List WorkflowStep) → map (λ s. s.id) steps ≡ ids steps
map-ids [] = refl
map-ids (s ∷ ss) = ap (λ l. s.id ∷ l) (map-ids ss)

-- Every need of a step without errors is among the workflow's steps.
step_errors-IsClosed :
    (refs : References) (known : List String) (s : WorkflowStep)
    → step_errors refs known s ≡ []
    → IsClosed known s
unfolding step_errors
step_errors-IsClosed refs known s e =
    let (other, needs) = both_empty (typed_errors refs s s.type ++ schema) missing_needs e in
    All-mono _ (λ n. contains n known ≡ true) s.needs
      (λ n. when-empty (contains n known) Codes.e_ref_workflow)
      (each-empty (λ n. when (not (contains n known)) Codes.e_ref_workflow) s.needs needs)
  where
    schema : List Code
    schema =
        when (has_text s.output_schema && dangling s.output_schema refs.schema_ids)
          Codes.e_ref_schema

    missing_needs : List Code
    missing_needs = each (λ n. when (not (contains n known)) Codes.e_ref_workflow) s.needs

workflow_errors-IsClosed :
    (refs : References) (wf : Workflow)
    → workflow_errors refs wf ≡ some []
    → All (IsClosed (ids wf.steps)) wf.steps
unfolding workflow_errors
workflow_errors-IsClosed refs wf e = elim (Option-cases (check_cycles wf.steps)) [
  | inl stuck ↦ absurd (check_cycles-ends wf.steps stuck)
  | inr (cycles, found) ↦
      let all : some ((of_steps ++ schema) ++ cycles) ≡ some [] =
        rw (found, workflow_errors) at e in
      let (checked, none_cyclic) = both_empty (of_steps ++ schema) cycles cc in
      let (steps, rest) = both_empty of_steps schema checked in
      All-mono _ (IsClosed (ids wf.steps)) wf.steps
        (λ s h. step_errors-IsClosed refs (ids wf.steps) s (rw (map-ids wf.steps) at h))
        (each-empty (step_errors refs (map (λ s. s.id) wf.steps)) wf.steps steps)
]
  where
    of_steps : List Code
    of_steps = each (step_errors refs (map (λ s. s.id) wf.steps)) wf.steps

    schema : List Code
    schema =
        when (has_text wf.input_schema && dangling wf.input_schema refs.schema_ids)
          Codes.e_ref_schema

workflows_errors-each :
    (refs : References) (wfs : List Workflow)
    → workflows_errors refs wfs ≡ some []
    → All (λ wf. workflow_errors refs wf ≡ some []) wfs
unfolding workflows_errors
workflows_errors-each refs [] e = tt
workflows_errors-each refs (wf ∷ wfs) e = elim (Option-cases (workflow_errors refs wf)) [
  | inl stuck ↦ absurd (cc (rw (stuck, workflows_errors) at e))
  | inr (here, found) ↦ elim (Option-cases (workflows_errors refs wfs)) [
    | inl stuck ↦ absurd (cc (e, found, stuck))
    | inr (later, rest) ↦
        let all : some (here ++ later) ≡ some [] = rw rest at (rw (found, workflows_errors) at e) in
        let (none_here, none_later) = both_empty here later cc in
        (cc, workflows_errors-each refs wfs cc)
  ]
]

-- The errors of an accepted declaration, part by part.
compile_company-parts :
    (spec : CompanySpec)
    → compile_company spec ≡ some []
    → (company_errors spec ≡ []) × (workflows_errors (references spec) spec.workflows ≡ some [])
unfolding compile_company
compile_company-parts spec e =
    elim (Option-cases (workflows_errors (references spec) spec.workflows)) [
      | inl stuck ↦ absurd (cc (e, stuck))
      | inr (errors, found) ↦
          let all : some (company_errors spec ++ errors) ≡ some [] =
            rw (found, compile_company) at e in
          let (company, workflows) = both_empty (company_errors spec) errors cc in (company, cc)
    ]

-- In a declaration that compiles without errors, no workflow makes the runner look up a step that it
-- does not have: its dependency order is never cut short by a `KeyError`.
pub compile_company-steps_found :
    (spec : CompanySpec)
    → compile_company spec ≡ some []
    → All (λ wf. (id : String) → in_dependency_order wf.steps ≢ missing id) spec.workflows
compile_company-steps_found spec e =
    All-mono _ (λ wf. (id : String) → in_dependency_order wf.steps ≢ missing id) spec.workflows
      (λ wf h.
        in_dependency_order-closed wf.steps (workflow_errors-IsClosed (references spec) wf h))
      (workflows_errors-each (references spec) spec.workflows (compile_company-parts spec e).1)
