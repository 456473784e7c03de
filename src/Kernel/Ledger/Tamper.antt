-- ===== src/Kernel/Ledger/Tamper.antt =====
-- About what `verify_chain` (comcmd/kernel/ledger.py) detects.
use mathlib.Core.List.{reverse_aux, reverse, reverse-reverse}
use company_command.Prelude.{
  String, ◌≡◌, refl, ◌≢◌, sym, ap, true, List, [], ◌∷◌, ◌++◌, ◌∙◌, ◌==◌, map, arith, eq_iff,
  keep-append,
}
use company_command.Ids.{Platform}
use company_command.Kernel.Ledger.{
  Row, Ledger, genesis, rows_of, last_seal, head_seal, link_seal, verify_from, verify_chain,
}

-- SHA-256 over canonical JSON: no two links share a seal, and no link has the all-zero seal.
pub record CollisionFree (p : Platform) : Type 0 where
  pub injective : (a b c d : String) → link_seal p a b ≡ link_seal p c d → (a ≡ c) × (b ≡ d)
  pub not_genesis : (a b : String) → link_seal p a b ≢ genesis

abbrev pub bodies : List Row → List String
bodies = map (λ r. r.body)

bodies-reverse :
    (xs acc : List Row) → bodies (reverse_aux xs acc) ≡ reverse_aux (bodies xs) (bodies acc)
bodies-reverse [] acc = refl
bodies-reverse (x ∷ xs) acc = bodies-reverse xs (x ∷ acc)

reverse_injective : (xs ys : List String) → reverse xs ≡ reverse ys → xs ≡ ys
reverse_injective xs ys e = sym (reverse-reverse xs) ∙ ap reverse e ∙ reverse-reverse ys

module _ (p : Platform) where
  abbrev top : List Row → String
  top [] = genesis
  top (r ∷ rs) = r.seal

  -- A chain with its newest row first.
  abbrev IsSealed : List Row → Type 0
  IsSealed [] = Unit
  IsSealed (r ∷ rs) =
      (r.prev_seal ≡ top rs) × (r.seal ≡ link_seal p r.prev_seal r.body) × IsSealed rs

  verify_from-IsSealed :
      (xs newest : List Row)
      → IsSealed newest
      → verify_from p (top newest) xs ≡ true
      → IsSealed (reverse_aux xs newest) × (top (reverse_aux xs newest) ≡ last_seal (top newest) xs)
  unfolding verify_from
  verify_from-IsSealed [] newest s v = (s, refl)
  verify_from-IsSealed (x ∷ xs) newest s v =
      let linked : (x.prev_seal ≡ top newest) × (x.seal ≡ link_seal p x.prev_seal x.body) =
        ground (
          arith,
          eq_iff x.prev_seal (top newest),
          eq_iff (link_seal p x.prev_seal x.body) x.seal,
        ) in
      verify_from-IsSealed xs (x ∷ newest) (linked.0, linked.1, s)
        (ground
          (arith, eq_iff x.prev_seal (top newest), eq_iff (link_seal p x.prev_seal x.body) x.seal))

  same_bodies :
      (free : CollisionFree p) (rs ss : List Row)
      → IsSealed rs
      → IsSealed ss
      → top rs ≡ top ss
      → bodies rs ≡ bodies ss
  same_bodies free [] [] sr ss e = refl
  same_bodies free [] (y ∷ ys) sr ss e =
      absurd (free.not_genesis y.prev_seal y.body (sym ss.1 ∙ sym e))
  same_bodies free (x ∷ xs) [] sr ss e = absurd (free.not_genesis x.prev_seal x.body (sym sr.1 ∙ e))
  same_bodies free (x ∷ xs) (y ∷ ys) sr ss e =
      let (prevs, same) =
        free.injective x.prev_seal x.body y.prev_seal y.body (sym sr.1 ∙ e ∙ ss.1) in
      cc (same, same_bodies free xs ys sr.2 ss.2 (sym sr.0 ∙ prevs ∙ ss.0))

  verify_from-prefix :
      (prev : String) (kept cut : List Row)
      → verify_from p prev (kept ++ cut) ≡ true
      → verify_from p prev kept ≡ true
  unfolding verify_from
  verify_from-prefix prev [] cut v = refl
  verify_from-prefix prev (x ∷ kept) cut v = ground (arith, verify_from-prefix x.seal kept cut)

  -- When seals do not collide: two ledgers whose chains of a company both verify and end in the same head seal hold the same
  -- event bodies for that company, in the same order: no rewrite, insertion, deletion or reordering
  -- keeps the head seal.
  pub head_seal-fixes-history :
      (free : CollisionFree p) (company : String) (rows other : Ledger)
      → verify_chain p company rows ≡ true
      → verify_chain p company other ≡ true
      → head_seal company rows ≡ head_seal company other
      → bodies (rows_of company rows) ≡ bodies (rows_of company other)
  unfolding verify_chain head_seal
  head_seal-fixes-history free company rows other v w e =
      let (sr, tr) = verify_from-IsSealed (rows_of company rows) [] tt v in
      let (so, to) = verify_from-IsSealed (rows_of company other) [] tt w in
      reverse_injective (bodies (rows_of company rows)) (bodies (rows_of company other)) (
        sym (bodies-reverse (rows_of company rows) [])
        ∙ same_bodies free (reverse (rows_of company rows)) (reverse (rows_of company other)) sr so
            (tr ∙ e ∙ sym to)
        ∙ bodies-reverse (rows_of company other) [])

  -- Cutting any number of rows off the end of a valid chain leaves a valid chain, so that
  -- `verify_chain` reports no truncation at the tail.
  pub verify_chain-truncated :
      (company : String) (kept cut : Ledger)
      → verify_chain p company (kept ++ cut) ≡ true
      → verify_chain p company kept ≡ true
  unfolding verify_chain
  verify_chain-truncated company kept cut v =
      verify_from-prefix genesis (rows_of company kept) (rows_of company cut)
        (rw (keep-append (λ r. r.company == company) kept cut) at v)
