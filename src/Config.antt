-- ===== src/Config.antt =====
-- comcmd/config.py: the settings, read from the environment.
use Prim.Native.Char.{Char, code}
use company_command.Prelude.{
  String, Bool, false, not, Option, none, some, List, [], ◌∷◌, ◌==◌, Dict, lookup, insert, eq_ℕ,
  if◌then◌else◌,
}

pub record Settings : Type 0 where
  pub database_url : Option String
  pub rp_id : String
  pub rp_origin : String
  pub model_url : Option String
  pub model_key : Option String
  pub model_map : Dict String
  pub ledger_url : Option String
  pub api_token : Option String

abbrev comma : Char
comma = ","

abbrev equals : Char
equals = "="

-- What stands before the first such character and behind it; `none` without one.
unfoldable pub split_once : Char → String → Option (String × String)
split_once c String.[] = none
split_once c (String.◌∷◌ x s) =
    let rest = split_once c s in
    if eq_ℕ (code x) (code c)
    then some (String.[], s)
    else (elim rest [ none ↦ none | some (k, v) ↦ some (String.◌∷◌ x k, v) ])

abbrev put_first : Char → List String → List String
put_first x [] = String.◌∷◌ x String.[] ∷ []
put_first x (p ∷ ps) = String.◌∷◌ x p ∷ ps

-- `text.split(c)`
unfoldable pub split : Char → String → List String
split c String.[] = String.[] ∷ []
split c (String.◌∷◌ x s) =
    let rest = split c s in if eq_ℕ (code x) (code c) then String.[] ∷ rest else put_first x rest

-- `e.get(name) or None`
abbrev value_of : String → Dict String → Option String
value_of name env = elim (lookup name env) [
  | none ↦ none
  | some v ↦ if v == "" then none else some v
]

abbrev value_or : String → String → Dict String → String
value_or name default env = elim (lookup name env) [ none ↦ default | some v ↦ v ]

module _ (strip : String → String) where
  -- The loop of `_model_map`.
  unfoldable pub read_pairs : List String → Dict String → Dict String
  unfolding split_once
  read_pairs [] out = out
  read_pairs (pair ∷ pairs) out = read_pairs pairs (elim (split_once equals (strip pair)) [
    | none ↦ out
    | some (k, v) ↦ insert (strip k) (strip v) out
  ])

  -- `_model_map`
  unfoldable pub model_map : Option String → Dict String
  unfolding read_pairs split
  model_map none = read_pairs (split comma "") []
  model_map (some raw) = read_pairs (split comma raw) []

  -- `Settings.from_env`
  unfoldable pub from_env : Dict String → Settings
  unfolding model_map
  from_env env = record {
    database_url = value_of "COMCMD_DATABASE_URL" env;
    rp_id = value_or "COMCMD_RP_ID" "localhost" env;
    rp_origin = value_or "COMCMD_RP_ORIGIN" "https://localhost" env;
    model_url = value_of "COMCMD_MODEL_URL" env;
    model_key = value_of "COMCMD_MODEL_KEY" env;
    model_map = model_map (lookup "COMCMD_MODEL_MAP" env);
    ledger_url = value_of "COMCMD_LEDGER_URL" env;
    api_token = value_of "COMCMD_API_TOKEN" env;
  }

unfoldable pub durable : Settings → Bool
durable s = elim s.database_url [ none ↦ false | some url ↦ not (url == "") ]

-- `self.ledger_url or self.database_url`
unfoldable pub effective_ledger_url : Settings → Option String
effective_ledger_url s = elim s.ledger_url [
  | none ↦ s.database_url
  | some url ↦ if url == "" then s.database_url else some url
]
