-- ===== src/Kernel/Ledger.antt =====
-- comcmd/kernel/ledger.py: the append-only event ledger, one hash chain for each company.
-- The SQL table is the list of its rows by rising `seq`; a query with `WHERE company=?` is a
-- filter, and `ORDER BY seq DESC LIMIT 1` is the last row that passes it. Each call holds the lock.
pub mod Integrity
pub mod Tamper
pub mod Postgres
use company_command.Prelude.{
  ℕ, suc, ◌+◌, String, Bool, true, false, Option, none, some, List, [], ◌∷◌, ◌++◌, ◌==◌, length,
  keep, if◌then◌else◌,
}
use company_command.Json.{Json, str, obj, field, end}
use company_command.Ids.{Platform, digest}
use company_command.Kernel.Records.{Event, EventType, type_of}

pub record Row : Type 0 where
  pub seq : ℕ
  pub company : String
  pub type : EventType
  pub task_id : String
  pub body : String
  pub prev_seal : String
  pub seal : String

pub record SealedEvent : Type 0 where
  pub seq : ℕ
  pub company : String
  pub seal : String
  pub prev_seal : String
  pub event : Event

abbrev pub Ledger : Type 0
Ledger = List Row

abbrev pub genesis : String
genesis = "sha256:0000000000000000000000000000000000000000000000000000000000000000"

-- `WHERE company=?`
abbrev pub rows_of : String → Ledger → List Row
rows_of company = keep (λ r. r.company == company)

-- The seal of the last row, or what stands for it before the first.
abbrev pub last_seal : String → List Row → String
last_seal prev [] = prev
last_seal prev (r ∷ rs) = last_seal r.seal rs

unfoldable pub head_seal : String → Ledger → String
head_seal company rows = last_seal genesis (rows_of company rows)

module _ (p : Platform) where
  -- The seal of one link: `digest({"prev": prev_seal, "body": body})`.
  unfoldable pub link_seal : String → String → String
  link_seal prev body = digest p (obj (field "prev" (str prev) (field "body" (str body) end)))

  unfoldable pub sealed_row : Event → Ledger → Row
  sealed_row event rows =
      let prev = head_seal event.company rows in
      let body = p.dump_event event in
      record {
        seq = suc (length rows);
        company = event.company;
        type = type_of event.payload;
        task_id = event.task_id;
        body = body;
        prev_seal = prev;
        seal = link_seal prev body;
      }

  -- Seals an event and appends it to its company's chain.
  unfoldable pub append : Event → Ledger → Ledger
  unfolding sealed_row
  append event rows = rows ++ sealed_row event rows ∷ []

  -- What `append` returns.
  pub appended : Event → Ledger → SealedEvent
  unfolding sealed_row
  appended event rows =
      let row = sealed_row event rows in
      record {
        seq = row.seq;
        company = row.company;
        seal = row.seal;
        prev_seal = row.prev_seal;
        event = event;
      }

  -- The generator of `read`: a row whose body does not validate ends the iteration by an exception.
  pub read_rows : List Row → Option (List SealedEvent)
  read_rows [] = some []
  read_rows (r ∷ rs) = elim (p.load_event r.body) [
    | none ↦ none
    | some event ↦ elim (read_rows rs) [
      | none ↦ none
      | some rest ↦ some (
          record {
            seq = r.seq;
            company = r.company;
            seal = r.seal;
            prev_seal = r.prev_seal;
            event = event;
          }
          ∷ rest)
    ]
  ]

  unfoldable pub read : String → Ledger → Option (List SealedEvent)
  unfolding read_rows
  read company rows = read_rows (rows_of company rows)

  -- The loop of `verify_chain`, from the seal `prev`.
  unfoldable pub verify_from : String → List Row → Bool
  verify_from prev [] = true
  verify_from prev (r ∷ rs) =
      let rest = verify_from r.seal rs in
      if r.prev_seal == prev
      then (if link_seal r.prev_seal r.body == r.seal then rest else false)
      else false

  unfoldable pub verify_chain : String → Ledger → Bool
  unfolding verify_from
  verify_chain company rows = verify_from genesis (rows_of company rows)
