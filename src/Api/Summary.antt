-- ===== src/Api/Summary.antt =====
-- handleStatsSummary of internal/api/stats.go, without the costs, which are floating-point. Of a row
-- the five sums are kept together.
pub mod Breakdown
use aiclibridge.Prelude.{ℕ, Text, List, [], ◌∷◌, text_eq, text_lt}
use aiclibridge.Store.Usage.{UsageStatRow, Key}
use aiclibridge.Store.Usage.Tally.{Counts, zero_counts, add_counts, tally, sort_buckets}

pub record StatsSummary : Type 0 where
  pub since : ℕ
  pub until : ℕ
  pub totals : Counts
  pub by_adapter : List (Text × Counts)

-- The loop over the rows: the totals, and the map by adapter.
unfoldable pub sum_rows :
    List UsageStatRow → Counts → List (Text × Counts) → Counts × List (Text × Counts)
sum_rows [] totals by_adapter = (totals, by_adapter)
sum_rows ((k, c) ∷ rows) totals by_adapter =
    sum_rows rows (add_counts totals c) (tally text_eq k.adapter c by_adapter)

unfoldable pub stats_summary : ℕ → ℕ → List UsageStatRow → StatsSummary
unfolding sum_rows
stats_summary since until rows =
    let (totals, by_adapter) = sum_rows rows zero_counts [] in
    record {
      since = since;
      until = until;
      totals = totals;
      by_adapter = sort_buckets text_lt by_adapter;
    }
