-- ===== src/Gateway/Approvals/Quorum.antt =====
-- The approvals in the store: what holds of each one, under every operation of the store.
use company_command.Prelude.{
  ℕ, suc, ◌⊎◌, String, ◌≡◌, true, some, arith, ◌==◌, eq_iff, contains, add, All, IsDistinct,
  snoc-IsDistinct, All-snoc, Dict, lookup, insert, lookup-insert, subst, Bool-cases, inl, inr,
  Option-cases, eq_refl, ◌∙◌, ◌≤◌, length, leb→le,
}
use company_command.Ids.{Platform}
use company_command.Gateway.Approvals.{
  PendingApproval, ApprovalStore, Opening, fresh, is_live, open_fresh, open_approval, get_approval,
  add_approver, retire, satisfied,
}

-- Each approver counted is eligible, and none is counted twice.
pub record IsCounted (pa : PendingApproval) : Type 0 where
  pub distinct : IsDistinct pa.approvers
  pub eligible : All (λ a. contains a pa.eligible ≡ true) pa.approvers

-- Every approval that the store finds under a digest satisfies `P` there.
abbrev pub Holds {ℓ} : (String → PendingApproval → Type ℓ) → ApprovalStore → Type ℓ
Holds P s = (k : String) (pa : PendingApproval) → lookup k s.by_digest ≡ some pa → P k pa

insert-Holds {ℓ} :
    (P : String → PendingApproval → Type ℓ) (k : String) (pa : PendingApproval)
    → (d : Dict PendingApproval) (n : ℕ) → P k pa
    → Holds P (record { by_digest = d; draws = n })
    → Holds P (record { by_digest = insert k pa d; draws = n })
insert-Holds P k pa d n h rest j pb e = elim (Bool-cases (k == j)) [
  | inl same ↦
      let moved : pa ≡ pb = ground (arith, lookup-insert k j pa d) in
      subst (λ q. P q pb) ((eq_iff k j).0 same) (subst (P k) moved h)
  | inr other ↦ rest j pb (ground (arith, lookup-insert k j pa d))
]

-- `open` returns the live approval that is there and changes nothing, or it stores a fresh one.
pub open_approval-cases :
    (p : Platform) (o : Opening) (now : ℕ) (s : ApprovalStore)
    → ((pa : PendingApproval) × (lookup o.action_digest s.by_digest ≡ some pa)
        × (is_live pa now ≡ true)
        × (open_approval p o now s ≡ (pa, s)))
      ⊎ (open_approval p o now s ≡ open_fresh p o now s)
unfolding open_approval
open_approval-cases p o now s = elim (Option-cases (lookup o.action_digest s.by_digest)) [
  | inl absent ↦ inr (rw (absent, open_approval))
  | inr (pa, found) ↦ elim (Bool-cases (is_live pa now)) [
    | inl live ↦ inl (pa, found, live, rw (found, open_approval) (rw live))
    | inr stale ↦ inr (rw (found, open_approval) (rw stale))
  ]
]

module _ {ℓ} (P : String → PendingApproval → Type ℓ) where
  pub open_approval-Holds :
      (p : Platform) (o : Opening) (now : ℕ) (s : ApprovalStore)
      → P o.action_digest (fresh p s.draws o now)
      → Holds P s
      → Holds P (open_approval p o now s).1
  open_approval-Holds p o now s new h = elim (open_approval-cases p o now s) [
    | inl (pa, found, live, e) ↦ rw e h
    | inr e ↦
        rw e
          (insert-Holds P o.action_digest (fresh p s.draws o now) s.by_digest (suc s.draws) new h)
  ]

  pub retire-Holds :
      (digest : String) (s : ApprovalStore)
      → ((pa : PendingApproval) → P digest pa → P digest (record pa { used = true }))
      → Holds P s
      → Holds P (retire digest s)
  unfolding retire
  retire-Holds digest s closed h = elim (Option-cases (lookup digest s.by_digest)) [
    | inl absent ↦ rw (absent, retire) h
    | inr (pa, found) ↦
        rw (found, retire)
          (insert-Holds P digest (record pa { used = true }) s.by_digest s.draws
            (closed pa (h digest pa found)) h)
  ]

  pub add_approver-Holds :
      (digest principal : String) (s : ApprovalStore)
      → ((pa : PendingApproval)
          → lookup digest s.by_digest ≡ some pa
          → P digest (record pa { approvers = add principal pa.approvers }))
      → Holds P s
      → Holds P (add_approver digest principal s).1
  unfolding add_approver
  add_approver-Holds digest principal s counted h =
      elim (Option-cases (lookup digest s.by_digest)) [
        | inl absent ↦ rw (absent, add_approver) h
        | inr (pa, found) ↦
            rw (found, add_approver)
              (insert-Holds P digest (record pa { approvers = add principal pa.approvers })
                s.by_digest s.draws (counted pa found) h)
      ]

-- Counting one more eligible approver.
pub add-IsCounted :
    (principal : String) (pa : PendingApproval)
    → contains principal pa.eligible ≡ true
    → IsCounted pa
    → IsCounted (record pa { approvers = add principal pa.approvers })
add-IsCounted principal pa named c = elim (Bool-cases (contains principal pa.approvers)) [
  | inl known ↦ rw known c
  | inr new ↦ rw new (record {
    distinct = snoc-IsDistinct principal pa.approvers c.distinct new;
    eligible =
        All-snoc (λ a. contains a pa.eligible ≡ true) principal pa.approvers c.eligible named;
  })
]

pub retire-found :
    (k : String) (pa : PendingApproval) (s : ApprovalStore)
    → get_approval k s ≡ some pa
    → get_approval k (retire k s) ≡ some (record pa { used = true })
unfolding retire
retire-found k pa s here = rw (here, retire) (lookup-insert k k _ s.by_digest ∙ (rw eq_refl))

pub add_approver-found :
    (k principal : String) (pa : PendingApproval) (s : ApprovalStore)
    → get_approval k s ≡ some pa
    → let pa' : PendingApproval = record pa { approvers = add principal pa.approvers } in
      ((add_approver k principal s).0 ≡ some pa')
      × (get_approval k (add_approver k principal s).1 ≡ some pa')
unfolding add_approver
add_approver-found k principal pa s here = (
  rw (here, add_approver),
  rw (here, add_approver) (lookup-insert k k _ s.by_digest ∙ (rw eq_refl)),
)

pub satisfied-le : (pa : PendingApproval) → satisfied pa ≡ true → pa.quorum ≤ length pa.approvers
unfolding satisfied
satisfied-le pa h = leb→le pa.quorum (length pa.approvers) h
