-- ===== src/Kernel/Aggregate.antt =====
-- comcmd/kernel/aggregate.py: candidate artifacts of a fan-out combined into one.
-- `none` is a `TypeError`: a vote that cannot be hashed, or scores that cannot be compared.
pub mod Majority
use company_command.Prelude.{
  ℕ, suc, ◌+◌, String, Bool, true, false, Option, none, some, List, [], ◌∷◌, ◌++◌, ◌==◌, eq_ℕ, ltb,
  length, if◌then◌else◌,
}
use company_command.Json.{Json, null, bool, num, str, arr, obj, Fields, end, field, get, put, merge}
use company_command.Ids.{Platform}
use company_command.Spec.{Aggregate, majority, best, first}

-- A hashable value up to Python's `==`, for which `True` is 1, `False` is 0 and a missing value `None`.
pub data Vote : Type 0 where
  nothing : Vote
  number : ℕ → Vote
  text : String → Vote

abbrev pub vote_of : Option Json → Option Vote
vote_of none = some nothing
vote_of (some null) = some nothing
vote_of (some (bool true)) = some (number 1)
vote_of (some (bool false)) = some (number 0)
vote_of (some (num n)) = some (number n)
vote_of (some (str s)) = some (text s)
vote_of (some (arr xs)) = none
vote_of (some (obj fs)) = none

abbrev pub same_vote : Vote → Vote → Bool
same_vote nothing nothing = true
same_vote (number m) (number n) = eq_ℕ m n
same_vote (text s) (text t) = s == t
same_vote _ _ = false

-- A ballot: the candidate with its vote.
pub record Ballot : Type 0 where
  pub candidate : Fields
  pub vote : Vote

-- `c.get(key)` of every candidate, hashed.
unfoldable pub ballots : String → List Fields → Option (List Ballot)
ballots key [] = some []
ballots key (c ∷ cs) =
    let rest = ballots key cs in
    elim (vote_of (get key c)) [
      | none ↦ none
      | some v ↦ elim rest [
        | none ↦ none
        | some bs ↦ some (record { candidate = c; vote = v } ∷ bs)
      ]
    ]

-- `votes[v]`
unfoldable pub count : Vote → List Ballot → ℕ
count v [] = 0
count v (b ∷ bs) = if same_vote b.vote v then suc (count v bs) else count v bs

-- `max(order, key=lambda v: (votes[v], -order.index(v)))` and `next(c for c ... if c.get(key) == ...)`:
-- the first ballot whose vote has the highest count, among `all`, of this list.
unfoldable pub leader : List Ballot → Ballot → List Ballot → Ballot
leader all b [] = b
leader all b (c ∷ cs) = leader all (if ltb (count b.vote all) (count c.vote all) then c else b) cs

-- `max(candidates, key=...)`: the first of those with the highest score.
pub best_of : Platform → String → Fields → List Fields → Option Fields
best_of p score_key c [] = some c
best_of p score_key c (d ∷ ds) = elim (p.greater (get score_key d) (get score_key c)) [
  | none ↦ none
  | some true ↦ best_of p score_key d ds
  | some false ↦ best_of p score_key c ds
]

-- `{str(k): v for k, v in votes.items()}`: each vote at the first candidate that casts it.
tally : Platform → String → List Ballot → List Ballot → Fields → Fields
tally p key earlier [] votes = votes
tally p key earlier (b ∷ bs) votes = tally p key (earlier ++ b ∷ []) bs (
    if eq_ℕ (count b.vote earlier) 0
    then put (p.py_str (elim (get key b.candidate) [ none ↦ null | some v ↦ v ]))
        (num (count b.vote (earlier ++ b ∷ bs))) votes
    else votes)

-- `{**winner, "_votes": ..., "_agreement": ..., "_candidates": n}`, the agreement in thousandths.
abbrev pub with_votes : Fields → Fields → ℕ → ℕ → Fields
with_votes winner votes agreement n =
    put "_candidates" (num n) (put "_agreement" (num agreement) (put "_votes" (obj votes) winner))

pub by_majority : Platform → String → ℕ → List Ballot → Option Fields
unfolding tally
by_majority p key n [] = none
by_majority p key n (b ∷ bs) =
    let all = b ∷ bs in
    let winner = leader all b bs in
    some (
      with_votes winner.candidate (tally p key [] all end) (p.round_ratio (count winner.vote all) n)
        n)

pub aggregate : Platform → Aggregate → String → String → List Fields → Option Fields
unfolding by_majority best_of ballots
aggregate p how key score_key [] = some (with_votes end end 0 0)
aggregate p first key score_key (c ∷ cs) = some (with_votes c end 1000 (length (c ∷ cs)))
aggregate p best key score_key (c ∷ cs) = elim (best_of p score_key c cs) [
  | none ↦ none
  | some winner ↦ some (with_votes winner end 1000 (length (c ∷ cs)))
]
aggregate p majority key score_key (c ∷ cs) = elim (ballots key (c ∷ cs)) [
  | none ↦ none
  | some bs ↦ by_majority p key (length (c ∷ cs)) bs
]
