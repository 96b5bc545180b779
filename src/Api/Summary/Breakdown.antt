-- ===== src/Api/Summary/Breakdown.antt =====
-- What the numbers of a summary add up to.
use aiclibridge.Prelude.{
  ℕ, ◌≡◌, refl, ap, sym, ◌∙◌, Text, List, [], ◌∷◌, Option, select, text_eq, text_lt,
}
use aiclibridge.Protocol.{Usage}
use aiclibridge.Store.{Store}
use aiclibridge.Store.Usage.{UsageStatRow, in_window, get_usage_stats}
use aiclibridge.Store.Usage.Tally.{
  Counts, zero_counts, add_counts, add_counts_assoc, add_counts_zero, add_counts_comm, total,
  total_zero, total-tally, total-sort_buckets,
}
use aiclibridge.Store.Usage.Totals.{total_runs, total-get_usage_stats}
use aiclibridge.Api.Summary.{sum_rows, stats_summary}

-- The totals and the breakdown grow alike.
sum_rows-total :
    (rows : List UsageStatRow) (totals : Counts) (by : List (Text × Counts))
    → add_counts totals zero_counts ≡ totals
    → total by ≡ totals
    → ((sum_rows rows totals by).0 ≡ add_counts totals (total rows))
      × (total (sum_rows rows totals by).1 ≡ add_counts totals (total rows))
unfolding sum_rows
sum_rows-total [] totals by n h = (sym n, h ∙ sym n)
sum_rows-total ((k, c) ∷ rows) totals by n h =
    let (l, r) =
      sum_rows-total rows (add_counts totals c) _ (add_counts_zero totals c)
        (total-tally text_eq k.adapter c by ∙ ap (λ t. add_counts t c) h) in
    let same = add_counts_assoc totals c (total rows) in (l ∙ same, r ∙ same)

-- The totals of a summary are the sums over the runs that started in its window, and the breakdown
-- by adapter adds up to them, up to the wrap-around at 64 bits.
pub stats_summary-get_usage_stats :
    (decode : Text → Option Usage) (since until : ℕ) (st : Store)
    → ((stats_summary since until (get_usage_stats decode since until st)).totals
        ≡ total_runs decode (select (in_window since until) st.runs))
      × (total (stats_summary since until (get_usage_stats decode since until st)).by_adapter
          ≡ total_runs decode (select (in_window since until) st.runs))
unfolding stats_summary
stats_summary-get_usage_stats decode since until st =
    let rows = get_usage_stats decode since until st in
    let (l, r) = sum_rows-total rows zero_counts [] refl refl in
    let all = total-get_usage_stats decode since until st in
    let whole : add_counts zero_counts (total rows)
        ≡ total_runs decode (select (in_window since until) st.runs) =
      add_counts_comm zero_counts (total rows) ∙ total_zero rows ∙ all in
    (l ∙ whole, total-sort_buckets text_lt _ ∙ r ∙ whole)
