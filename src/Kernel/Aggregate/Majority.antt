-- ===== src/Kernel/Aggregate/Majority.antt =====
-- The winner of a majority vote.
use mathlib.Core.List.{append-nil, append_assoc}
use company_command.Prelude.{
  ℕ, ◌≤◌, ◌<◌, ◌≡◌, ap, subst, Bool-cases, inl, inr, List, [], ◌∷◌, ◌++◌, arith, All, All-snoc, ltb,
}
use company_command.Kernel.Aggregate.{Ballot, count, leader}

-- No ballot of `bs` has more votes than `n`.
abbrev AtMost : List Ballot → ℕ → List Ballot → Type 0
AtMost all n bs = All (λ b. count b.vote all ≤ n) bs

abbrev Beaten : List Ballot → ℕ → List Ballot → Type 0
Beaten all n bs = All (λ b. count b.vote all < n) bs

Beaten-weaken : (all bs : List Ballot) (m n : ℕ) → m ≤ n → Beaten all m bs → Beaten all n bs
Beaten-weaken all [] m n h beaten = tt
Beaten-weaken all (b ∷ bs) m n h beaten =
    (omega (arith, h, beaten.0), Beaten-weaken all bs m n h beaten.1)

AtMost→Beaten : (all bs : List Ballot) (m n : ℕ) → m < n → AtMost all m bs → Beaten all n bs
AtMost→Beaten all [] m n h most = tt
AtMost→Beaten all (b ∷ bs) m n h most =
    (omega (arith, h, most.0), AtMost→Beaten all bs m n h most.1)

Beaten-append :
    (all xs ys : List Ballot) (n : ℕ) → Beaten all n xs → Beaten all n ys → Beaten all n (xs ++ ys)
Beaten-append all [] ys n h k = k
Beaten-append all (x ∷ xs) ys n h k = (h.0, Beaten-append all xs ys n h.1 k)

-- `w` is the first ballot of `bs` whose vote has the highest count.
pub record IsLeader (all : List Ballot) (w : Ballot) (bs : List Ballot) : Type 0 where
  pub before : List Ballot
  pub after : List Ballot
  pub split : bs ≡ before ++ w ∷ after
  pub ahead : All (λ b. count b.vote all < count w.vote all) before
  pub behind : All (λ b. count b.vote all ≤ count w.vote all) after

leader-IsLeader_from :
    (all before : List Ballot) (b : Ballot) (after rest : List Ballot)
    → Beaten all (count b.vote all) before
    → AtMost all (count b.vote all) after
    → IsLeader all (leader all b rest) (before ++ (b ∷ (after ++ rest)))
unfolding leader
leader-IsLeader_from all before b after [] ahead behind = record {
  before = before;
  after = after;
  split = ap (λ l. before ++ b ∷ l) (append-nil after);
  ahead = ahead;
  behind = behind;
}
leader-IsLeader_from all before b after (c ∷ rest) ahead behind =
    elim (Bool-cases (ltb (count b.vote all) (count c.vote all))) [
      | inl more ↦
          let less : count b.vote all < count c.vote all = ground arith in
          rw (more, leader)
            (subst (IsLeader all (leader all c rest)) (append_assoc before (b ∷ after) (c ∷ rest)) (
              leader-IsLeader_from all (before ++ (b ∷ after)) c [] rest
                (Beaten-append all before (b ∷ after) (count c.vote all)
                  (Beaten-weaken all before (count b.vote all) (count c.vote all)
                    (omega (arith, less)) ahead)
                  (less, AtMost→Beaten all after (count b.vote all) (count c.vote all) less behind))
                tt))
      | inr no_more ↦
          let at_most : count c.vote all ≤ count b.vote all = ground arith in
          rw (no_more, leader)
            (subst (λ l. IsLeader all (leader all b rest) (before ++ (b ∷ l)))
              (append_assoc after (c ∷ []) rest)
              (leader-IsLeader_from all before b (after ++ c ∷ []) rest ahead
                (All-snoc (λ d. count d.vote all ≤ count b.vote all) c after behind at_most)))
    ]

-- The winner of a majority vote is a candidate whose vote no other outnumbers, and the first such
-- candidate: every one ahead of it has strictly fewer votes.
pub leader-IsLeader :
    (b : Ballot) (bs : List Ballot) → IsLeader (b ∷ bs) (leader (b ∷ bs) b bs) (b ∷ bs)
leader-IsLeader b bs = leader-IsLeader_from (b ∷ bs) [] b [] bs tt tt
