-- ===== src/Kernel/Ledger/Integrity.antt =====
-- About what `append` (comcmd/kernel/ledger.py) does to the chains and to their readers.
use mathlib.Core.List.{append-nil}
use company_command.Prelude.{
  String, ◌≡◌, refl, true, some, List, [], ◌∷◌, ◌++◌, arith, ◌==◌, eq_iff, keep-append, Bool-cases,
  Option-cases, inl, inr, if◌then◌else◌,
}
use company_command.Ids.{Platform}
use company_command.Kernel.Records.{Event}
use company_command.Kernel.Ledger.{
  Row, SealedEvent, Ledger, genesis, rows_of, last_seal, head_seal, link_seal, sealed_row, append,
  appended, read_rows, read, verify_from, verify_chain,
}

module _ (p : Platform) where
  -- A row that continues a valid chain keeps it valid.
  verify_from-snoc :
      (prev : String) (rs : List Row) (r : Row)
      → verify_from p prev rs ≡ true
      → r.prev_seal ≡ last_seal prev rs
      → r.seal ≡ link_seal p r.prev_seal r.body
      → verify_from p prev (rs ++ r ∷ []) ≡ true
  unfolding verify_from
  verify_from-snoc prev [] r v e s =
      ground (arith, eq_iff r.prev_seal prev, eq_iff (link_seal p r.prev_seal r.body) r.seal)
  verify_from-snoc prev (x ∷ rs) r v e s = ground (arith, verify_from-snoc x.seal rs r)

  pub rows_of-append :
      (company : String) (event : Event) (rows : Ledger)
      → rows_of company (append p event rows) ≡ (
          if event.company == company
          then rows_of company rows ++ sealed_row p event rows ∷ []
          else rows_of company rows)
  unfolding append
  rows_of-append company event rows =
      rw (keep-append (λ r. r.company == company) rows (sealed_row p event rows ∷ []))
        (ground (arith, append-nil (rows_of company rows)))

  -- Appending any event keeps every company's chain valid.
  pub append-verify_chain :
      (company : String) (event : Event) (rows : Ledger)
      → verify_chain p company rows ≡ true
      → verify_chain p company (append p event rows) ≡ true
  unfolding verify_chain sealed_row head_seal
  append-verify_chain company event rows v =
      rw (rows_of-append company event rows) (elim (Bool-cases (event.company == company)) [
        | inl same ↦ rw same (
            verify_from-snoc genesis (rows_of company rows) (sealed_row p event rows) v
              (own_head same) refl)
        | inr other ↦ rw other v
      ])
    where
      own_head :
          (event.company == company) ≡ true
          → head_seal event.company rows ≡ last_seal genesis (rows_of company rows)
      own_head same = rw ((eq_iff event.company company).0 same) refl

  read_rows-snoc :
      (rs : List Row) (r : Row) (before : List SealedEvent) (event : Event)
      → read_rows p rs ≡ some before
      → p.load_event r.body ≡ some event
      → read_rows p (rs ++ r ∷ [])
        ≡ some (
            before
            ++ record {
              seq = r.seq;
              company = r.company;
              seal = r.seal;
              prev_seal = r.prev_seal;
              event = event;
            }
              ∷ [])
  unfolding read_rows
  read_rows-snoc [] r before event h e = ground arith
  read_rows-snoc (x ∷ rs) r before event h e = elim (Option-cases (read_rows p rs)) [
    | inl bad ↦ ground arith
    | inr (rest, e') ↦ ground (arith, read_rows-snoc rs r rest event e' e)
  ]

  -- An appended event whose body loads back is read at the end of its company's events, and readers
  -- of the other companies see no change.
  pub read-append :
      (company : String) (event : Event) (rows : Ledger) (before : List SealedEvent)
      → p.load_event (p.dump_event event) ≡ some event
      → read p company rows ≡ some before
      → read p company (append p event rows)
        ≡ some (if event.company == company then before ++ appended p event rows ∷ [] else before)
  unfolding read appended
  read-append company event rows before back h =
      rw (rows_of-append company event rows) (elim (Bool-cases (event.company == company)) [
        | inl same ↦
            rw same
              (read_rows-snoc (rows_of company rows) (sealed_row p event rows) before event h back)
        | inr other ↦ rw other h
      ])
