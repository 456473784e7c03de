-- ===== src/Gateway/Policy.antt =====
-- comcmd/gateway/policy.py: assurance tiers and the bounded-auto envelope.
use company_command.Prelude.{
  ℕ, String, Bool, true, false, Option, none, some, leb, ltb, if◌then◌else◌,
}
use company_command.Spec.{
  Risk, observe, bounded_internal, external_reversible, consequential, prohibited,
}

pub data Tier : Type 0 where
  a0 a1 a2 a3 a4 : Tier

abbrev pub tier_value : Tier → String
tier_value a0 = "A0"
tier_value a1 = "A1"
tier_value a2 = "A2"
tier_value a3 = "A3"
tier_value a4 = "A4"

abbrev pub classify : Risk → Tier
classify observe = a0
classify bounded_internal = a1
classify external_reversible = a2
classify consequential = a3
classify prohibited = a4

-- `tier in AUTO_TIERS`, `APPROVAL_TIERS`, `DENY_TIERS`
abbrev pub is_auto : Tier → Bool
is_auto a0 = true
is_auto a1 = true
is_auto _ = false

abbrev pub is_approval : Tier → Bool
is_approval a2 = true
is_approval a3 = true
is_approval _ = false

abbrev pub is_deny : Tier → Bool
is_deny a4 = true
is_deny _ = false

-- `TIER_REQUIRES[tier]`, which is read for the approval tiers only.
abbrev pub tier_requires : Tier → String
tier_requires a3 = "hardware_passkey"
tier_requires _ = "passkey"

-- Amounts are in a fixed unit.
pub record Bounds : Type 0 where
  pub max_amount : Option ℕ
  pub max_calls : Option ℕ

-- `limit is not None and amount is not None and amount > limit`
abbrev exceeds : Option ℕ → Option ℕ → Bool
exceeds (some limit) (some amount) = ltb limit amount
exceeds _ _ = false

-- `limit is not None and calls >= limit`
abbrev used_up : Option ℕ → ℕ → Bool
used_up none calls = false
used_up (some limit) calls = leb limit calls

unfoldable pub within : Bounds → Option ℕ → ℕ → Bool
within b amount calls_so_far =
    if exceeds b.max_amount amount
    then false
    else if used_up b.max_calls calls_so_far
    then false
    else true
