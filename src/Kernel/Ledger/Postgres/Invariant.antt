-- ===== src/Kernel/Ledger/Postgres/Invariant.antt =====
-- About the table and the transactions at work on it, and what each step keeps of them.
use mathlib.Core.List.{append-nil}
use company_command.Prelude.{
  ℕ, suc, ◌<◌, ◌≡◌, refl, sym, ap, subst, String, true, false, ◌==◌, eq_iff, List, [], ◌∷◌, ◌++◌,
  arith, All, All-snoc, eq_ℕ, Bool-cases, inl, inr, keep-append, if_ind,
}
use company_command.Ids.{Platform}
use company_command.Kernel.Ledger.{Row, genesis, rows_of, last_seal}
use company_command.Kernel.Ledger.Postgres.{Table, select, head_seal, row_of}
use company_command.Kernel.Ledger.Postgres.Order.{IsRising, order_by_seq-IsRising, snoc-IsRising}
use company_command.Kernel.Ledger.Postgres.Schedule.{
  Writer, idle, locked, headed, inserted, Database, update, start, holds, Step, acquire, read_head,
  insert, commit, rollback, Reach, begun, next,
}

-- What a writer has read and taken is still so.
abbrev pub IsFit : Table → Writer → Type 0
IsFit t idle = Unit
IsFit t (locked e) = Unit
IsFit t (headed e prev) = prev ≡ last_seal genesis (rows_of e.company t.rows)
IsFit t (inserted e prev seq) =
    (prev ≡ last_seal genesis (rows_of e.company t.rows))
    × All (λ r. r.seq < seq) (rows_of e.company t.rows)
    × (seq < t.next_seq)

-- A company's rows rise and stay below the next number.
pub record IsOrdered (t : Table) (company : String) : Type 0 where
  pub rising : IsRising 0 (rows_of company t.rows)
  pub bounded : All (λ r. r.seq < t.next_seq) (rows_of company t.rows)

module _ (hashtext : String → ℕ) where
  -- One transaction at most holds an advisory lock.
  abbrev IsUnique : (ℕ → Writer) → Type 0
  IsUnique ws =
      (i j k : ℕ) → holds hashtext k (ws i) ≡ true → holds hashtext k (ws j) ≡ true → i ≡ j

  update-IsUnique :
      (ws : ℕ → Writer) (i : ℕ) (w : Writer)
      → IsUnique ws
      → ((j k : ℕ) → holds hashtext k w ≡ true → holds hashtext k (ws j) ≡ true → i ≡ j)
      → IsUnique (update ws i w)
  update-IsUnique ws i w unique fresh a b k =
      if_ind (λ x. holds hashtext k x ≡ true → holds hashtext k (update ws i w b) ≡ true → a ≡ b)
        (eq_ℕ i a)
        (λ ia ha.
          if_ind (λ y. holds hashtext k y ≡ true → a ≡ b) (eq_ℕ i b) (λ ib hb. ground arith)
            (λ ib hb. ground (arith, fresh b k ha hb)))
        (λ ia ha.
          if_ind (λ y. holds hashtext k y ≡ true → a ≡ b) (eq_ℕ i b)
            (λ ib hb. ground (arith, fresh a k hb ha)) (λ ib hb. unique a b k ha hb))

  -- Only one transaction holds what one of them holds.
  others_free :
      (ws : ℕ → Writer) (i j k : ℕ)
      → IsUnique ws
      → holds hashtext k (ws i) ≡ true
      → eq_ℕ i j ≡ false
      → holds hashtext k (ws j) ≡ false
  others_free ws i j k unique h apart = elim (Bool-cases (holds hashtext k (ws j))) [
    | inl both ↦ let same = unique i j k h both in absurd (ground arith)
    | inr free ↦ free
  ]

update-IsFit :
    (t : Table) (ws : ℕ → Writer) (i : ℕ) (w : Writer)
    → IsFit t w
    → ((j : ℕ) → eq_ℕ i j ≡ false → IsFit t (ws j))
    → (j : ℕ) → IsFit t (update ws i w j)
update-IsFit t ws i w h others j = if_ind (IsFit t) (eq_ℕ i j) (λ _. h) (others j)

pub rows_of-snoc_self :
    (rows : List Row) (r : Row)
    → rows_of r.company (rows ++ r ∷ []) ≡ rows_of r.company rows ++ r ∷ []
rows_of-snoc_self rows r =
    rw (keep-append (λ x. x.company == r.company) rows (r ∷ []))
      (ground (arith, eq_iff r.company r.company))

pub rows_of-snoc_other :
    (company : String) (rows : List Row) (r : Row)
    → (r.company == company) ≡ false
    → rows_of company (rows ++ r ∷ []) ≡ rows_of company rows
rows_of-snoc_other company rows r h =
    rw (keep-append (λ x. x.company == company) rows (r ∷ []))
      (rw h (append-nil (rows_of company rows)))

pub head_seal-IsOrdered :
    (t : Table) (company : String)
    → IsOrdered t company
    → head_seal company t ≡ last_seal genesis (rows_of company t.rows)
unfolding head_seal select
head_seal-IsOrdered t company o = rw (order_by_seq-IsRising 0 _ o.rising) refl

below-suc : (n : ℕ) (rs : List Row) → All (λ r. r.seq < n) rs → All (λ r. r.seq < suc n) rs
below-suc n [] h = tt
below-suc n (r ∷ rs) h = (omega (arith, h.0), below-suc n rs h.1)

-- What a transaction has read stays so when the sequence hands out a number.
counted-IsFit :
    (t : Table) (w : Writer) → IsFit t w → IsFit (record t { next_seq = suc t.next_seq }) w
counted-IsFit t idle h = tt
counted-IsFit t (locked e) h = tt
counted-IsFit t (headed e prev) h = h
counted-IsFit t (inserted e prev seq) h = (h.0, h.1, omega (arith, h.2))

apart-keys :
    (hashtext : String → ℕ) (a b : String)
    → eq_ℕ (hashtext b) (hashtext a) ≡ false
    → (a == b) ≡ false
apart-keys hashtext a b h = elim (Bool-cases (a == b)) [
  | inl same ↦
      let keys : hashtext a ≡ hashtext b = ap hashtext ((eq_iff a b).0 same) in
      absurd (ground arith)
  | inr other ↦ other
]

module _ (t : Table) (r : Row) where
  abbrev pub grown : Table
  grown = record t { rows = t.rows ++ r ∷ [] }

  -- It stays so when another company gets a row.
  grown-IsFit :
      (hashtext : String → ℕ) (w : Writer)
      → holds hashtext (hashtext r.company) w ≡ false
      → IsFit t w
      → IsFit grown w
  grown-IsFit hashtext idle free h = tt
  grown-IsFit hashtext (locked e) free h = tt
  grown-IsFit hashtext (headed e prev) free h =
      rw (rows_of-snoc_other e.company t.rows r (apart-keys hashtext r.company e.company free)) h
  grown-IsFit hashtext (inserted e prev seq) free h =
      rw (rows_of-snoc_other e.company t.rows r (apart-keys hashtext r.company e.company free)) h

  grown-IsOrdered :
      (company : String)
      → IsOrdered t company
      → All (λ x. x.seq < r.seq) (rows_of r.company t.rows)
      → r.seq < t.next_seq
      → IsOrdered grown company
  grown-IsOrdered company o below less = elim (Bool-cases (r.company == company)) [
    | inl same ↦
        let name = (eq_iff r.company company).0 same in
        let own = subst (IsOrdered t) (sym name) o in
        subst (IsOrdered grown) name (record {
          rising =
              rw (rows_of-snoc_self t.rows r) (snoc-IsRising 0 _ r own.rising below (omega arith));
          bounded = rw (rows_of-snoc_self t.rows r) (All-snoc _ r _ own.bounded less);
        })
    | inr other ↦ record {
      rising = rw (rows_of-snoc_other company t.rows r other) o.rising;
      bounded = rw (rows_of-snoc_other company t.rows r other) o.bounded;
    }
  ]

module _ (p : Platform) (hashtext : String → ℕ) where
  -- Every company's rows, the locks and the transactions.
  pub record Inv (d : Database) : Type 0 where
    pub ordered : (company : String) → IsOrdered d.table company
    pub unique : IsUnique hashtext d.writers
    pub fit : (i : ℕ) → IsFit d.table (d.writers i)

  start-Inv : Inv start
  start-Inv = record {
    ordered = λ company. record { rising = tt; bounded = tt };
    unique = λ i j k h. cc;
    fit = λ i. tt;
  }

  -- A step that takes no lock keeps the locks apart.
  kept-IsUnique :
      (ws : ℕ → Writer) (i : ℕ) (w : Writer)
      → IsUnique hashtext ws
      → ((k : ℕ) → holds hashtext k w ≡ true → holds hashtext k (ws i) ≡ true)
      → IsUnique hashtext (update ws i w)
  kept-IsUnique ws i w unique less =
      update-IsUnique hashtext ws i w unique (λ j k h hj. unique i j k (less k h) hj)

  Step-Inv : {c d : Database} → Step p hashtext c d → Inv c → Inv d
  unfolding row_of
  Step-Inv (acquire d i e was free) inv = record {
    ordered = inv.ordered;
    unique =
        update-IsUnique hashtext d.writers i (locked e) inv.unique
          (λ j k h hj. absurd (ground (arith, free j)));
    fit = update-IsFit d.table d.writers i (locked e) tt (λ j _. inv.fit j);
  }
  Step-Inv (read_head d i e was) inv = record {
    ordered = inv.ordered;
    unique = kept-IsUnique d.writers i _ inv.unique (λ k h. rw was h);
    fit =
        update-IsFit d.table d.writers i _
          (head_seal-IsOrdered d.table e.company (inv.ordered e.company)) (λ j _. inv.fit j);
  }
  Step-Inv (insert d i e prev was) inv = record {
    ordered = λ company. record {
      rising = (inv.ordered company).rising;
      bounded = below-suc _ _ (inv.ordered company).bounded;
    };
    unique = kept-IsUnique d.writers i _ inv.unique (λ k h. rw was h);
    fit =
        let own = subst (IsFit d.table) was (inv.fit i) in
        update-IsFit _ d.writers i _ (own, (inv.ordered e.company).bounded, omega arith)
          (λ j _. counted-IsFit d.table (d.writers j) (inv.fit j));
  }
  Step-Inv (commit d i e prev seq was) inv = record {
    ordered = λ company.
        let own = subst (IsFit d.table) was (inv.fit i) in
        grown-IsOrdered d.table (row_of p e prev seq) company (inv.ordered company) own.1 own.2;
    unique = kept-IsUnique d.writers i idle inv.unique (λ k h. absurd cc);
    fit = update-IsFit _ d.writers i idle tt (λ j apart.
        grown-IsFit d.table (row_of p e prev seq) hashtext (d.writers j)
          (others_free hashtext d.writers i j _ inv.unique (rw was (ground arith)) apart)
          (inv.fit j));
  }
  Step-Inv (rollback d i) inv = record {
    ordered = inv.ordered;
    unique = kept-IsUnique d.writers i idle inv.unique (λ k h. absurd cc);
    fit = update-IsFit d.table d.writers i idle tt (λ j _. inv.fit j);
  }

  pub Reach-Inv : {d : Database} → Reach p hashtext d → Inv d
  Reach-Inv begun = start-Inv
  Reach-Inv (next r st) = Step-Inv st (Reach-Inv r)
