-- ===== src/Kernel/Ledger/Postgres/Schedule.antt =====
-- comcmd/kernel/ledger_pg.py, `append` as the transaction of one of many writers, step by step.
-- `committed` has the events of the committed rows in the order of the commits; no code reads it.
use company_command.Prelude.{
  ℕ, suc, ◌≡◌, String, Bool, false, List, [], ◌∷◌, ◌++◌, eq_ℕ, if◌then◌else◌,
}
use company_command.Ids.{Platform}
use company_command.Kernel.Records.{Event}
use company_command.Kernel.Ledger.Postgres.{Table, head_seal, row_of}

-- Where a writer is: outside of `append`, behind the advisory lock, behind the query of the head seal,
-- or behind the insert.
pub data Writer : Type 0 where
  idle : Writer
  locked : Event → Writer
  headed : (event : Event) → (prev_seal : String) → Writer
  inserted : (event : Event) → (prev_seal : String) → (seq : ℕ) → Writer

pub record Database : Type 0 where
  pub table : Table
  pub writers : ℕ → Writer
  pub committed : List Event

abbrev pub update : (ℕ → Writer) → ℕ → Writer → ℕ → Writer
update ws i w j = if eq_ℕ i j then w else ws j

abbrev pub start : Database
start = record { table = record { rows = []; next_seq = 1 }; writers = λ i. idle; committed = [] }

-- A transaction holds the advisory lock with this key; `hashtext` is PostgreSQL's.
abbrev pub holds : (hashtext : String → ℕ) → ℕ → Writer → Bool
holds hashtext k idle = false
holds hashtext k (locked e) = eq_ℕ (hashtext e.company) k
holds hashtext k (headed e prev) = eq_ℕ (hashtext e.company) k
holds hashtext k (inserted e prev seq) = eq_ℕ (hashtext e.company) k

module _ (p : Platform) (hashtext : String → ℕ) where
  -- One statement of one writer. Any transaction may fail behind the lock and be rolled back.
  pub data Step : Database → Database → Type 0 where
    acquire :
        (d : Database) (i : ℕ) (e : Event)
        → d.writers i ≡ idle
        → ((j : ℕ) → holds hashtext (hashtext e.company) (d.writers j) ≡ false)
        → Step d (record d { writers = update d.writers i (locked e) })
    read_head :
        (d : Database) (i : ℕ) (e : Event)
        → d.writers i ≡ locked e
        → Step d
            (record d { writers = update d.writers i (headed e (head_seal e.company d.table)) })
    insert :
        (d : Database) (i : ℕ) (e : Event) (prev : String)
        → d.writers i ≡ headed e prev
        → Step d (record d {
          table = record d.table { next_seq = suc d.table.next_seq };
          writers = update d.writers i (inserted e prev d.table.next_seq);
        })
    commit :
        (d : Database) (i : ℕ) (e : Event) (prev : String) (seq : ℕ)
        → d.writers i ≡ inserted e prev seq
        → Step d (record {
          table = record d.table { rows = d.table.rows ++ row_of p e prev seq ∷ [] };
          writers = update d.writers i idle;
          committed = d.committed ++ e ∷ [];
        })
    rollback : (d : Database) (i : ℕ) → Step d (record d { writers = update d.writers i idle })

  pub data Reach : Database → Type 0 where
    begun : Reach start
    next : {c d : Database} → Reach c → Step c d → Reach d
