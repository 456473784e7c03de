-- ===== src/Kernel/Ledger/Postgres/Order.antt =====
-- About `ORDER BY seq` on rows whose numbers rise.
use company_command.Prelude.{ℕ, suc, ◌≤◌, ◌<◌, ◌≡◌, refl, List, [], ◌∷◌, ◌++◌, arith, All}
use company_command.Kernel.Ledger.{Row}
use company_command.Kernel.Ledger.Postgres.{insert_row, order_by_seq}

-- The numbers rise strictly, from `lo` at least.
abbrev pub IsRising : ℕ → List Row → Type 0
IsRising lo [] = Unit
IsRising lo (r ∷ rs) = (lo ≤ r.seq) × IsRising (suc r.seq) rs

insert_row-IsRising : (r : Row) (rs : List Row) → IsRising (suc r.seq) rs → insert_row r rs ≡ r ∷ rs
unfolding insert_row
insert_row-IsRising r [] h = refl
insert_row-IsRising r (x ∷ rs) h = ground arith

-- Rows that rise are in order.
pub order_by_seq-IsRising : (lo : ℕ) (rs : List Row) → IsRising lo rs → order_by_seq rs ≡ rs
unfolding order_by_seq
order_by_seq-IsRising lo [] h = refl
order_by_seq-IsRising lo (r ∷ rs) h =
    rw (order_by_seq-IsRising (suc r.seq) rs h.1) (insert_row-IsRising r rs h.1)

pub snoc-IsRising :
    (lo : ℕ) (rs : List Row) (r : Row)
    → IsRising lo rs
    → All (λ x. x.seq < r.seq) rs
    → lo ≤ r.seq
    → IsRising lo (rs ++ r ∷ [])
snoc-IsRising lo [] r h below le = (le, tt)
snoc-IsRising lo (x ∷ rs) r h below le =
    (h.0, snoc-IsRising (suc x.seq) rs r h.1 below.1 (omega (arith, below.0)))
