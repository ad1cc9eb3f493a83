-- ===== src/ResultSets/Aborted.antt =====
-- Giving a result set up.
use cloudvelo.Prelude.{ℕ, ◌≡◌, ap, nat_eq, true, arith, if_true}
use cloudvelo.ResultSets.Writer.{ElasticSimpleResultSetWriter, flush, close, abort}

nat_eq-zero : (n : ℕ) → n ≡ 0 → nat_eq n 0 ≡ true
nat_eq-zero n e = ground (arith, e)

-- A writer that has no rows in its buffer sends nothing to the index when it is given up: neither a
-- document nor the metadata that would mark the result set as incomplete.
pub abort_unbuffered :
    (w : ElasticSimpleResultSetWriter)
    → w.buffered_rows ≡ 0
    → ((abort w).documents ≡ w.documents) × ((abort w).metadata ≡ w.metadata)
unfolding abort close flush
abort_unbuffered w empty =
    let unchanged = if_true _ (nat_eq-zero w.buffered_rows empty) in
    (
      ap (λ (v : ElasticSimpleResultSetWriter). v.documents) unchanged,
      ap (λ (v : ElasticSimpleResultSetWriter). v.metadata) unchanged,
    )
