-- ===== src/Kernel/Ledger/Postgres.antt =====
-- comcmd/kernel/ledger_pg.py: the ledger on PostgreSQL, where many writers share one table.
-- A transaction of `append` takes an advisory lock on its company, reads the head seal, inserts its row
-- and commits; between these steps others run. A committed row is seen by all, an inserted one by none
-- but its own transaction. `BIGSERIAL` hands out each number once, also to rows that are rolled back.
pub mod Order
pub mod Schedule
pub mod Invariant
pub mod Conformance
use company_command.Prelude.{
  ℕ, suc, String, Bool, true, false, Option, none, some, List, [], ◌∷◌, ◌++◌, leb, if◌then◌else◌,
}
use company_command.Ids.{Platform}
use company_command.Kernel.Records.{Event, type_of}
use company_command.Kernel.Ledger.{
  Row, SealedEvent, Ledger, genesis, rows_of, last_seal, link_seal, read_rows, verify_from,
}

-- The committed rows in the order of their commits, and the next number of the sequence.
pub record Table : Type 0 where
  pub rows : List Row
  pub next_seq : ℕ

-- `ORDER BY seq ASC`
unfoldable pub insert_row : Row → List Row → List Row
insert_row r [] = r ∷ []
insert_row r (x ∷ xs) = if leb r.seq x.seq then r ∷ x ∷ xs else x ∷ insert_row r xs

unfoldable pub order_by_seq : List Row → List Row
order_by_seq [] = []
order_by_seq (r ∷ rs) = insert_row r (order_by_seq rs)

-- `SELECT ... WHERE company=%s ORDER BY seq`
unfoldable pub select : String → Table → List Row
select company t = order_by_seq (rows_of company t.rows)

-- `PostgresLedger.head_seal`
unfoldable pub head_seal : String → Table → String
head_seal company t = last_seal genesis (select company t)

module _ (p : Platform) where
  -- The row that `append` inserts behind the head seal that it has read.
  unfoldable pub row_of : Event → (prev_seal : String) → (seq : ℕ) → Row
  row_of event prev_seal seq =
      let body = p.dump_event event in
      record {
        seq = seq;
        company = event.company;
        type = type_of event.payload;
        task_id = event.task_id;
        body = body;
        prev_seal = prev_seal;
        seal = link_seal p prev_seal body;
      }

  -- `PostgresLedger.append` with no other writer at work
  unfoldable pub append : Event → Table → SealedEvent × Table
  unfolding row_of
  append event t =
      let row = row_of event (head_seal event.company t) t.next_seq in
      (
        record {
          seq = row.seq;
          company = row.company;
          seal = row.seal;
          prev_seal = row.prev_seal;
          event = event;
        },
        record { rows = t.rows ++ row ∷ []; next_seq = suc t.next_seq },
      )

  -- `PostgresLedger.read`
  unfoldable pub read : String → Table → Option (List SealedEvent)
  read company t = read_rows p (select company t)

  -- `PostgresLedger.verify_chain`
  unfoldable pub verify_chain : String → Table → Bool
  verify_chain company t = verify_from p genesis (select company t)
