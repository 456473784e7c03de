-- ===== src/Gateway/Approvals/Postgres.antt =====
-- comcmd/gateway/stores_pg.py, `PgApprovalStore`: the approvals in a table with one row for each digest.
-- The table has the in-memory store's type: a row is an approval, an array of approvers a set.
-- Each call reads the clock once.
use company_command.Prelude.{
  ℕ, suc, String, ◌≡◌, refl, sym, ap, ◌∙◌, Bool, length, true, false, not, ◌&&◌, Option, none, some,
  List, [], ◌∷◌, arith, add, keep, Dict, lookup, insert, lookup-insert, eq_refl, Option-cases, inl,
  inr, if◌then◌else◌,
}
use company_command.Ids.{Platform}
use company_command.Gateway.Approvals.{
  PendingApproval, ApprovalStore, Opening, is_expired, is_live, fresh, open_approval, add_approver,
  pending, pending_in,
}

-- `INSERT ... ON CONFLICT (action_digest) DO UPDATE SET`: a row that is there keeps what the update
-- does not name.
abbrev pub upserted : Option PendingApproval → PendingApproval → PendingApproval
upserted none pa = pa
upserted (some row) pa = record row {
  challenge = pa.challenge;
  created_at = pa.created_at;
  ttl_seconds = pa.ttl_seconds;
  approvers = [];
  used = false;
}

abbrev upsert : Platform → Opening → ℕ → ApprovalStore → PendingApproval × ApprovalStore
upsert p o now s =
    let pa = upserted (lookup o.action_digest s.by_digest) (fresh p s.draws o now) in
    (pa, record { by_digest = insert o.action_digest pa s.by_digest; draws = suc s.draws })

-- `PgApprovalStore.open`, which ends by reading the row it has written
unfoldable pub open_row : Platform → Opening → ℕ → ApprovalStore → PendingApproval × ApprovalStore
open_row p o now s = elim (lookup o.action_digest s.by_digest) [
  | none ↦ upsert p o now s
  | some existing ↦
      if not existing.used && not (is_expired existing now) then (existing, s) else upsert p o now s
]

-- `PgApprovalStore.get`
abbrev pub get_row : String → ApprovalStore → Option PendingApproval
get_row digest s = lookup digest s.by_digest

-- `UPDATE ... SET ... WHERE action_digest=%s`
unfoldable pub update_row :
    (PendingApproval → PendingApproval) → String → ApprovalStore → ApprovalStore
update_row change digest s = elim (lookup digest s.by_digest) [
  | none ↦ s
  | some pa ↦ record s { by_digest = insert digest (change pa) s.by_digest }
]

-- `PgApprovalStore.add_approver`: the update, and the row as it is then
unfoldable pub add_row_approver :
    String → String → ApprovalStore → Option PendingApproval × ApprovalStore
add_row_approver digest principal s =
    let s' = update_row (λ pa. record pa { approvers = add principal pa.approvers }) digest s in
    (get_row digest s', s')

-- `PgApprovalStore.retire`
unfoldable pub retire_row : String → ApprovalStore → ApprovalStore
retire_row digest s = update_row (λ pa. record pa { used = true }) digest s

abbrev rows_in : Dict PendingApproval → List PendingApproval
rows_in [] = []
rows_in ((k, pa) ∷ d) = pa ∷ rows_in d

-- `PgApprovalStore.pending`: the rows `WHERE used=FALSE`, less those that have expired. Without `ORDER BY`
-- the server gives the selected rows in an order of its own, `as_sent`.
unfoldable pub pending_rows :
    (as_sent : List PendingApproval → List PendingApproval)
    → ℕ
    → ApprovalStore
    → List PendingApproval
pending_rows as_sent now s =
    keep (λ pa. not (is_expired pa now)) (as_sent (keep (λ pa. not pa.used) (rows_in s.by_digest)))

-- The row has the policy of the opening.
pub record HasPolicy (o : Opening) (pa : PendingApproval) : Type 0 where
  pub action_digest : pa.action_digest ≡ o.action_digest
  pub tier : pa.tier ≡ o.tier
  pub required : pa.required ≡ o.required
  pub quorum : pa.quorum ≡ o.quorum
  pub eligible : pa.eligible ≡ o.eligible

-- Opening an action for which the table has no row, or a row with the policy of the opening, does what
-- the in-memory store does: the same approval is returned, and the same approvals are stored.
pub open_row-refines :
    (p : Platform) (o : Opening) (now : ℕ) (s : ApprovalStore)
    → ((pa : PendingApproval) → lookup o.action_digest s.by_digest ≡ some pa → HasPolicy o pa)
    → open_row p o now s ≡ open_approval p o now s
unfolding open_row open_approval
open_row-refines p o now s same = elim (Option-cases (lookup o.action_digest s.by_digest)) [
  | inl absent ↦ rw (absent, open_row) (rw (absent, open_approval) refl)
  | inr (pa, found) ↦
      let written : upserted (some pa) (fresh p s.draws o now) ≡ fresh p s.draws o now =
        rewritten pa (same pa found) in
      let guard : (not pa.used && not (is_expired pa now)) ≡ is_live pa now = ground arith in
      rw (found, open_row)
        (rw (found, open_approval)
          (rw guard (
            ap
              (λ q. if is_live pa now then (pa, s) else (
                q,
                record { by_digest = insert o.action_digest q s.by_digest; draws = suc s.draws },
              ))
              written)))
]
  where
    rewritten :
        (pa : PendingApproval)
        → HasPolicy o pa
        → upserted (some pa) (fresh p s.draws o now) ≡ fresh p s.draws o now
    rewritten pa h = cc (h.action_digest, h.tier, h.required, h.quorum, h.eligible)

-- Counting an approver in the table returns and stores what the in-memory store does.
pub add_row_approver-refines :
    (digest principal : String) (s : ApprovalStore)
    → add_row_approver digest principal s ≡ add_approver digest principal s
unfolding add_row_approver update_row add_approver
add_row_approver-refines digest principal s = elim (Option-cases (lookup digest s.by_digest)) [
  | inl absent ↦ ground arith
  | inr (pa, found) ↦ ground (
    arith,
    lookup-insert digest digest (record pa { approvers = add principal pa.approvers }) s.by_digest,
    eq_refl digest,
  )
]

-- A used or expired row that is opened again keeps its own quorum and eligible approvers, whatever
-- the opening asks for; the in-memory store takes both from the opening.
pub open_row-keeps_policy :
    (p : Platform) (o : Opening) (now : ℕ) (s : ApprovalStore) (pa : PendingApproval)
    → lookup o.action_digest s.by_digest ≡ some pa
    → is_live pa now ≡ false
    → ((open_row p o now s).0.quorum ≡ pa.quorum)
      × ((open_row p o now s).0.eligible ≡ pa.eligible)
      × ((open_approval p o now s).0.quorum ≡ o.quorum)
      × ((open_approval p o now s).0.eligible ≡ o.eligible)
unfolding open_row open_approval
open_row-keeps_policy p o now s pa found stale = ground arith

-- The same elements, each as often, in any order: no test tells how many pass apart.
abbrev pub IsReordering : {A : Type 0} → List A → List A → Type 0
IsReordering {A} xs ys = (q : A → Bool) → length (keep q xs) ≡ length (keep q ys)

keep-keep :
    {A : Type 0} (q r : A → Bool) (xs : List A) → keep q (keep r xs) ≡ keep (λ x. r x && q x) xs
keep-keep q r [] = refl
keep-keep q r (x ∷ xs) = ground (arith, keep-keep q r xs)

-- However the server orders the rows that it sends, the rows listed as pending are the approvals that the
-- in-memory store lists, each once, in some order.
pub pending_rows-refines :
    (as_sent : List PendingApproval → List PendingApproval) (now : ℕ) (s : ApprovalStore)
    → ((xs : List PendingApproval) → IsReordering (as_sent xs) xs)
    → IsReordering (pending_rows as_sent now s) (pending now s)
unfolding pending_rows pending pending_in
pending_rows-refines as_sent now s reorders q =
    let unused = keep (λ pa. not pa.used) (rows_in s.by_digest) in
    let live : PendingApproval → Bool = λ pa. not (is_expired pa now) in
    ap length (keep-keep q live (as_sent unused))
    ∙ reorders unused (λ pa. live pa && q pa)
    ∙ ap length (sym (keep-keep q live unused))
    ∙ ap (λ xs. length (keep q xs)) (go s.by_digest)
  where
    go :
        (d : Dict PendingApproval)
        → keep (λ pa. not (is_expired pa now)) (keep (λ pa. not pa.used) (rows_in d))
          ≡ pending_in now d
    go [] = refl
    go ((k, pa) ∷ d) = ground (arith, go d)
