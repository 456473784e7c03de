-- ===== src/Kernel/Ledger/Postgres/Conformance.antt =====
-- About the chains in the table, under every interleaving of its writers.
use mathlib.Core.List.{map-append}
use company_command.Prelude.{
  ℕ, ◌≡◌, refl, sym, ap, subst, ◌∙◌, String, true, ◌==◌, eq_iff, List, [], ◌∷◌, ◌++◌, map,
  Bool-cases, inl, inr,
}
use company_command.Ids.{Platform}
use company_command.Kernel.Records.{Event}
use company_command.Kernel.Ledger as Memory
use company_command.Kernel.Ledger.{
  Row, Ledger, genesis, rows_of, last_seal, link_seal, verify_from, sealed_row,
}
use company_command.Kernel.Ledger.Integrity.{rows_of-append, append-verify_chain}
use company_command.Kernel.Ledger.Postgres.{select, row_of, verify_chain}
use company_command.Kernel.Ledger.Postgres.Invariant.{
  IsFit, Reach-Inv, rows_of-snoc_self, rows_of-snoc_other,
}
use company_command.Kernel.Ledger.Postgres.Order.{order_by_seq-IsRising}
use company_command.Kernel.Ledger.Postgres.Schedule.{
  Database, acquire, read_head, insert, commit, rollback, Reach, begun, next,
}

-- What a row contributes to its chain.
pub record Link : Type 0 where
  pub body : String
  pub prev_seal : String
  pub seal : String

abbrev pub link_of : Row → Link
link_of r = record { body = r.body; prev_seal = r.prev_seal; seal = r.seal }

abbrev pub links : List Row → List Link
links = map link_of

-- The in-memory ledger after these events.
unfoldable pub append_all : Platform → List Event → Ledger → Ledger
append_all p [] rows = rows
append_all p (e ∷ es) rows = append_all p es (Memory.append p e rows)

abbrev last_link : String → List Link → String
last_link prev [] = prev
last_link prev (l ∷ ls) = last_link l.seal ls

last_seal-links : (prev : String) (rs : List Row) → last_seal prev rs ≡ last_link prev (links rs)
last_seal-links prev [] = refl
last_seal-links prev (r ∷ rs) = last_seal-links r.seal rs

module _ (p : Platform) where
  verify_from-links :
      (prev : String) (rs ss : List Row)
      → links rs ≡ links ss
      → verify_from p prev rs ≡ verify_from p prev ss
  unfolding verify_from
  verify_from-links prev [] [] e = refl
  verify_from-links prev [] (s ∷ ss) e = absurd cc
  verify_from-links prev (r ∷ rs) [] e = absurd cc
  verify_from-links prev (r ∷ rs) (s ∷ ss) e =
      let heads : link_of r ≡ link_of s = cc in
      let tails : links rs ≡ links ss = cc in
      let seals : r.seal ≡ s.seal = ap (λ l. l.seal) heads in
      let bodies : r.body ≡ s.body = ap (λ l. l.body) heads in
      let prevs : r.prev_seal ≡ s.prev_seal = ap (λ l. l.prev_seal) heads in
      rw (seals, bodies, prevs) (rw (verify_from-links s.seal rs ss tails) refl)

  append_all-snoc :
      (es : List Event) (e : Event) (rows : Ledger)
      → append_all p (es ++ e ∷ []) rows ≡ Memory.append p e (append_all p es rows)
  unfolding append_all
  append_all-snoc [] e rows = refl
  append_all-snoc (x ∷ es) e rows = append_all-snoc es e (Memory.append p x rows)

  append_all-verify_chain :
      (company : String) (es : List Event) (rows : Ledger)
      → Memory.verify_chain p company rows ≡ true
      → Memory.verify_chain p company (append_all p es rows) ≡ true
  unfolding append_all
  append_all-verify_chain company [] rows h = h
  append_all-verify_chain company (e ∷ es) rows h =
      append_all-verify_chain company es (Memory.append p e rows)
        (append-verify_chain p company e rows h)

  own-links :
      (rows : List Row) (memory : Ledger) (e : Event) (prev : String) (seq : ℕ)
      → links (rows_of e.company rows) ≡ links (rows_of e.company memory)
      → prev ≡ last_seal genesis (rows_of e.company rows)
      → links (rows_of e.company rows ++ row_of p e prev seq ∷ [])
        ≡ links (rows_of e.company memory ++ sealed_row p e memory ∷ [])
  unfolding row_of sealed_row Memory.head_seal
  own-links rows memory e prev seq same fresh =
      let head : prev ≡ last_seal genesis (rows_of e.company memory) =
        fresh
        ∙ last_seal-links genesis (rows_of e.company rows)
        ∙ ap (last_link genesis) same
        ∙ sym (last_seal-links genesis (rows_of e.company memory)) in
      rw
        (
          map-append link_of (rows_of e.company rows) (row_of p e prev seq ∷ []),
          map-append link_of (rows_of e.company memory) (sealed_row p e memory ∷ []),
          same,
          head,
        )
        refl

  -- The same event, committed in the table and appended in memory, adds the same link.
  committed-links :
      (rows : List Row) (memory : Ledger) (e : Event) (prev : String) (seq : ℕ) (company : String)
      → ((c : String) → links (rows_of c rows) ≡ links (rows_of c memory))
      → prev ≡ last_seal genesis (rows_of e.company rows)
      → links (rows_of company (rows ++ row_of p e prev seq ∷ []))
        ≡ links (rows_of company (Memory.append p e memory))
  unfolding row_of sealed_row Memory.head_seal
  committed-links rows memory e prev seq company same fresh =
      rw (rows_of-append p company e memory) (elim (Bool-cases (e.company == company)) [
        | inl own ↦ rw own (
            subst
              (λ c.
                links (rows_of c (rows ++ row_of p e prev seq ∷ []))
                ≡ links (rows_of c memory ++ sealed_row p e memory ∷ []))
              ((eq_iff e.company company).0 own)
              (rw (rows_of-snoc_self rows (row_of p e prev seq))
                (own-links rows memory e prev seq (same e.company) fresh)))
        | inr other ↦
            rw other
              (rw (rows_of-snoc_other company rows (row_of p e prev seq) other) (same company))
      ])

  Reach-links :
      (hashtext : String → ℕ) {d : Database} (company : String)
      → Reach p hashtext d
      → links (rows_of company d.table.rows) ≡ links (rows_of company (append_all p d.committed []))
  unfolding append_all
  Reach-links hashtext company begun = refl
  Reach-links hashtext company (next r (acquire d i e was free)) = Reach-links hashtext company r
  Reach-links hashtext company (next r (read_head d i e was)) = Reach-links hashtext company r
  Reach-links hashtext company (next r (insert d i e prev was)) = Reach-links hashtext company r
  Reach-links hashtext company (next r (rollback d i)) = Reach-links hashtext company r
  Reach-links hashtext company (next r (commit d i e prev seq was)) =
      let fit = subst (IsFit d.table) was ((Reach-Inv p hashtext r).fit i) in
      rw (append_all-snoc d.committed e [])
        (committed-links d.table.rows _ e prev seq company (λ c. Reach-links hashtext c r) fit.0)

  select-Reach :
      (hashtext : String → ℕ) {d : Database} (company : String)
      → Reach p hashtext d
      → select company d.table ≡ rows_of company d.table.rows
  unfolding select
  select-Reach hashtext company r =
      order_by_seq-IsRising 0 _ ((Reach-Inv p hashtext r).ordered company).rising

  -- After any interleaving of transactions, rolled back ones included, the rows that a query for a company
  -- returns in the order of their numbers carry the bodies, previous seals and seals that the in-memory
  -- ledger gives that company when it appends the committed events in the order of their commits.
  pub select-as_committed :
      (hashtext : String → ℕ) {d : Database} (company : String)
      → Reach p hashtext d
      → links (select company d.table) ≡ links (rows_of company (append_all p d.committed []))
  select-as_committed hashtext company r =
      rw (select-Reach hashtext company r) (Reach-links hashtext company r)

  -- After any interleaving of transactions every company's chain verifies: the advisory lock is enough to
  -- keep two writers of a company from sealing against the same head.
  pub verify_chain-any_order :
      (hashtext : String → ℕ) {d : Database} (company : String)
      → Reach p hashtext d
      → verify_chain p company d.table ≡ true
  unfolding verify_chain Memory.verify_chain
  verify_chain-any_order hashtext company r =
      verify_from-links genesis _ _ (select-as_committed hashtext company r)
      ∙ append_all-verify_chain company _ [] refl
