-- ===== src/Tests/Interleavings.antt =====
-- Two writers of the PostgreSQL ledger, whose transactions overlap and commit against their numbers' order.
use company_command.Prelude.{
  ℕ, String, ◌≡◌, refl, true, false, [], ◌==◌, eq_ℕ, if◌then◌else◌, if_ind,
}
use company_command.Kernel.Records.{Event}
use company_command.Kernel.Ledger.{rows_of}
use company_command.Kernel.Ledger.Postgres.{select, verify_chain}
use company_command.Kernel.Ledger.Postgres.Schedule.{
  Database, locked, update, start, holds, acquire, read_head, insert, commit, Reach, begun, next,
}
use company_command.Kernel.Ledger.Postgres.Conformance.{
  links, append_all, select-as_committed, verify_chain-any_order,
}
use company_command.Tests.Ledgers.{receipt_of}
use company_command.Tests.Sample.{sample_platform}

abbrev key : String → ℕ
key company = if company == "acme" then 1 else 2

abbrev first : Event
first = receipt_of "acme" "d1"

abbrev second : Event
second = receipt_of "globex" "d2"

alone : (j : ℕ) → holds key (key "acme") (start.writers j) ≡ false
alone j = refl

abbrev one_locked : Database
one_locked = record start { writers = update start.writers 0 (locked first) }

other_key : (j : ℕ) → holds key (key "globex") (one_locked.writers j) ≡ false
other_key j = if_ind (λ w. holds key (key "globex") w ≡ false) (eq_ℕ 0 j) (λ _. refl) (λ _. refl)

overlapping : (d : Database) × Reach sample_platform key d
overlapping = (
  _,
  next
      (next
        (next
          (next
            (next
              (next
                (next (next begun (acquire start 0 first refl alone))
                  (acquire _ 1 second refl other_key))
                (read_head _ 1 second refl))
              (read_head _ 0 first refl))
            (insert _ 0 first _ refl))
          (insert _ 1 second _ refl))
        (commit _ 1 second _ _ refl))
      (commit _ 0 first _ _ refl),
)

select-as_committed_example :
    links (select "acme" overlapping.0.table)
    ≡ links (rows_of "acme" (append_all sample_platform overlapping.0.committed []))
select-as_committed_example = select-as_committed sample_platform key "acme" overlapping.1

verify_chain-any_order_example : verify_chain sample_platform "globex" overlapping.0.table ≡ true
verify_chain-any_order_example = verify_chain-any_order sample_platform key "globex" overlapping.1
