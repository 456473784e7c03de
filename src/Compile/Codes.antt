-- ===== src/Compile/Codes.antt =====
-- The error codes of comcmd/compile/compiler.py, and how its checks report them.
use Prim.Native.Char.{code}
use company_command.Prelude.{
  ℕ, zero, suc, String, Bool, true, false, Option, none, some, List, [], ◌∷◌, ◌++◌, contains, eq_ℕ,
}

-- The code of a `CompileError`.
pub data Code : Type 0 where
  e_version e_slug e_ref_tool e_ref_schema e_ref_role e_ref_workflow : Code
  e_meta_locked e_tier_lowered e_idempotency e_approver e_cap_defaultallow : Code
  e_auth_nopolicy e_fanout e_verify e_cycle_unbounded : Code

-- `if test: err(code, ...)`
abbrev pub when : Bool → Code → List Code
when true code = code ∷ []
when false code = []

-- `for x in xs: ...`
unfoldable pub each : {A : Type 0} → (A → List Code) → List A → List Code
each f [] = []
each f (x ∷ xs) = f x ++ each f xs

-- `s.startswith(prefix)`
unfoldable pub starts_with : (prefix s : String) → Bool
starts_with String.[] s = true
starts_with (String.◌∷◌ c p) String.[] = false
starts_with (String.◌∷◌ c p) (String.◌∷◌ d s) = elim (eq_ℕ (code c) (code d)) [
  | true ↦ starts_with p s
  | false ↦ false
]

-- An optional text or number that Python takes for true.
abbrev pub has_text : Option String → Bool
has_text none = false
has_text (some s) = elim s [ String.[] ↦ false | _ ↦ true ]

abbrev pub has_count : Option ℕ → Bool
has_count none = false
has_count (some zero) = false
has_count (some (suc n)) = true

-- A reference that is made and is not among the ids.
abbrev pub dangling : Option String → List String → Bool
dangling none known = false
dangling (some id) known = elim (contains id known) [ true ↦ false | false ↦ true ]
