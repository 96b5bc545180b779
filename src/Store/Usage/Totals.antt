-- ===== src/Store/Usage/Totals.antt =====
-- What the rows of GetUsageStats add up to.
use aiclibridge.Prelude.{ℕ, ◌≡◌, refl, ap, sym, ◌∙◌, Text, List, [], ◌∷◌, Option, select}
use aiclibridge.Protocol.{Usage}
use aiclibridge.Store.{Store, Run}
use aiclibridge.Store.Usage.Tally.{
  Counts, zero_counts, add_counts, add_counts_left, add_counts_assoc, total, total_zero,
  total-tally, total-sort_buckets,
}
use aiclibridge.Store.Usage.{
  UsageStatRow, same_key, key_of, run_counts, bucket_runs, key_before, in_window, get_usage_stats,
}

-- The sum over runs.
abbrev pub total_runs : (Text → Option Usage) → List Run → Counts
total_runs decode [] = zero_counts
total_runs decode (r ∷ rs) = add_counts (run_counts decode r) (total_runs decode rs)

total_runs_zero :
    (decode : Text → Option Usage) (rs : List Run)
    → add_counts zero_counts (total_runs decode rs) ≡ total_runs decode rs
total_runs_zero decode [] = refl
total_runs_zero decode (r ∷ rs) =
    add_counts_left zero_counts (run_counts decode r) (total_runs decode rs)
    ∙ ap (add_counts (run_counts decode r)) (total_runs_zero decode rs)

total-bucket_runs :
    (decode : Text → Option Usage) (rs : List Run) (rows : List UsageStatRow)
    → total (bucket_runs decode rs rows) ≡ add_counts (total rows) (total_runs decode rs)
unfolding bucket_runs
total-bucket_runs decode [] rows = sym (total_zero rows)
total-bucket_runs decode (r ∷ rs) rows =
    total-bucket_runs decode rs _
    ∙ ap (λ c. add_counts c (total_runs decode rs))
        (total-tally same_key (key_of r) (run_counts decode r) rows)
    ∙ add_counts_assoc (total rows) (run_counts decode r) (total_runs decode rs)

pub total-get_usage_stats :
    (decode : Text → Option Usage) (since until : ℕ) (st : Store)
    → total (get_usage_stats decode since until st)
      ≡ total_runs decode (select (in_window since until) st.runs)
unfolding get_usage_stats
total-get_usage_stats decode since until st =
    let rs = select (in_window since until) st.runs in
    total-sort_buckets key_before _ ∙ total-bucket_runs decode rs [] ∙ total_runs_zero decode rs
