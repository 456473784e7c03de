-- ===== src/Gateway/Approvals.antt =====
-- comcmd/gateway/approvals.py: pending approvals, and the in-memory store that holds them by digest.
-- Times are counts of the unit of `Float`, a fixed part of a second, and the clock is a natural number of
-- them. A store reads the clock once in a call. A set of approvers is a list without repetition.
pub mod Postgres
pub mod Quorum
use Prim.Native.Char.{Char, code}
use company_command.Prelude.{
  ℕ, suc, ◌+◌, ◌-◌, ◌*◌, String, Bool, true, false, not, ◌&&◌, Option, none, some, List, [], ◌∷◌,
  ◌==◌, ltb, leb, length, contains, add, Dict, lookup, insert, eq_ℕ, if◌then◌else◌,
}
use company_command.Ids.{Platform, Float, above, below, infinite, minus_infinite, nan}

pub record PendingApproval : Type 0 where
  pub action_digest : String
  pub challenge : String
  pub tier : String
  pub required : String
  pub quorum : ℕ
  pub eligible : List String
  pub created_at : ℕ
  pub ttl_seconds : Float
  pub approvers : List String
  pub used : Bool

-- `now - created_at > ttl`
abbrev pub exceeds : Float → (created_at now : ℕ) → Bool
exceeds (above n) created_at now = ltb (created_at + n) now
exceeds (below n) created_at now = ltb created_at (now + n)
exceeds infinite created_at now = false
exceeds minus_infinite created_at now = true
exceeds nan created_at now = false

unfoldable pub is_expired : PendingApproval → ℕ → Bool
is_expired pa now = exceeds pa.ttl_seconds pa.created_at now

unfoldable pub satisfied : PendingApproval → Bool
satisfied pa = leb pa.quorum (length pa.approvers)

-- `text[:-1]` and `text[-1]`
split_last : String → Option (String × Char)
split_last String.[] = none
split_last (String.◌∷◌ c String.[]) = some (String.[], c)
split_last (String.◌∷◌ c (String.◌∷◌ d s)) = elim (split_last (String.◌∷◌ d s)) [
  | none ↦ none
  | some (front, last) ↦ some (String.◌∷◌ c front, last)
]

-- `_TTL_UNITS.get(unit)`
abbrev ttl_unit : Char → Option ℕ
ttl_unit c =
    if eq_ℕ (code c) b's'
    then some 1
    else if eq_ℕ (code c) b'm'
    then some 60
    else if eq_ℕ (code c) b'h'
    then some 3600
    else none

abbrev times : ℕ → Option Float → Option Float
times k none = none
times k (some (above n)) = some (above (n * k))
times k (some (below n)) = some (below (n * k))
times k (some x) = some x

-- The seconds of a text such as `10m`; `none` where Python raises.
unfoldable pub parse_ttl : Platform → String → Option Float
unfolding split_last
parse_ttl p text =
    let t = p.strip (if text == "" then "10m" else text) in
    elim (split_last t) [
      | none ↦ none
      | some (front, unit) ↦ elim (ttl_unit unit) [
        | none ↦ p.to_float t
        | some k ↦ times k (p.to_float front)
      ]
    ]

-- `draws` counts the challenges drawn so far.
pub record ApprovalStore : Type 0 where
  pub by_digest : Dict PendingApproval
  pub draws : ℕ

-- The arguments of `open`.
pub record Opening : Type 0 where
  pub action_digest : String
  pub tier : String
  pub required : String
  pub quorum : ℕ
  pub eligible : List String
  pub ttl_seconds : Float

abbrev pub fresh : Platform → ℕ → Opening → ℕ → PendingApproval
fresh p draws o now = record {
  action_digest = o.action_digest;
  challenge = p.token_bytes draws;
  tier = o.tier;
  required = o.required;
  quorum = o.quorum;
  eligible = o.eligible;
  created_at = now;
  ttl_seconds = o.ttl_seconds;
  approvers = [];
  used = false;
}

abbrev pub is_live : PendingApproval → ℕ → Bool
is_live pa now = not (is_expired pa now) && not pa.used

abbrev pub open_fresh : Platform → Opening → ℕ → ApprovalStore → PendingApproval × ApprovalStore
open_fresh p o now s =
    let pa = fresh p s.draws o now in
    (pa, record { by_digest = insert o.action_digest pa s.by_digest; draws = suc s.draws })

unfoldable pub open_approval :
    Platform → Opening → ℕ → ApprovalStore → PendingApproval × ApprovalStore
open_approval p o now s = elim (lookup o.action_digest s.by_digest) [
  | none ↦ open_fresh p o now s
  | some existing ↦ if is_live existing now then (existing, s) else open_fresh p o now s
]

abbrev pub get_approval : String → ApprovalStore → Option PendingApproval
get_approval digest s = lookup digest s.by_digest

-- Records one distinct approver, and returns the approval.
unfoldable pub add_approver :
    String → String → ApprovalStore → Option PendingApproval × ApprovalStore
add_approver digest principal s = elim (lookup digest s.by_digest) [
  | none ↦ (none, s)
  | some pa ↦
      let pa' = record pa { approvers = add principal pa.approvers } in
      (some pa', record s { by_digest = insert digest pa' s.by_digest })
]

unfoldable pub pending_in : ℕ → Dict PendingApproval → List PendingApproval
pending_in now [] = []
pending_in now ((_, pa) ∷ d) =
    let rest = pending_in now d in
    if not pa.used && not (is_expired pa now) then pa ∷ rest else rest

unfoldable pub pending : ℕ → ApprovalStore → List PendingApproval
unfolding pending_in
pending now s = pending_in now s.by_digest

unfoldable pub retire : String → ApprovalStore → ApprovalStore
retire digest s = elim (lookup digest s.by_digest) [
  | none ↦ s
  | some pa ↦ record s { by_digest = insert digest (record pa { used = true }) s.by_digest }
]
