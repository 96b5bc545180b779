-- ===== src/Store/Usage.antt =====
-- GetUsageStats of internal/store/store.go. Of a bucket the key and the five sums are kept apart.
-- What json.Unmarshal gives for a usage column is an argument. Times are not negative.
pub mod Tally
pub mod Totals
use aiclibridge.Prelude.{
  ℕ, Text, List, [], ◌∷◌, Option, none, some, if◌then◌else◌, text_eq, text_lt, is_empty, leb,
  select, Bool, ◌&&◌,
}
use aiclibridge.Protocol.{Usage, TokenUsagePayload}
use aiclibridge.Store.{Store, Run}
use aiclibridge.Store.Usage.Tally.{Counts, zero_counts, add_counts, tally, sort_buckets}

-- type key
pub record Key : Type 0 where
  pub adapter : Text
  pub model : Text
  pub status : Text

abbrev pub same_key : Key → Key → Bool
same_key k l = text_eq k.adapter l.adapter && (text_eq k.model l.model && text_eq k.status l.status)

abbrev pub UsageStatRow : Type 0
UsageStatRow = Key × Counts

abbrev tokens_of : TokenUsagePayload → Counts
tokens_of u = record {
  run_count = 0;
  input_tokens = u.input_tokens;
  output_tokens = u.output_tokens;
  cache_read_tokens = u.cache_read_tokens;
  cache_write_tokens = u.cache_write_tokens;
}

-- The sums over the models of one run.
unfoldable pub usage_counts : Usage → Counts
usage_counts [] = zero_counts
usage_counts ((m, u) ∷ us) = add_counts (tokens_of u) (usage_counts us)

abbrev one_run : Counts
one_run = record zero_counts { run_count = 1 }

-- What a run adds to its bucket. A malformed column adds the run only.
unfoldable pub run_counts : (Text → Option Usage) → Run → Counts
unfolding usage_counts
run_counts decode r = if is_empty r.usage_json then one_run else elim (decode r.usage_json) [
  | none ↦ one_run
  | some usage ↦ add_counts one_run (usage_counts usage)
]

abbrev pub key_of : Run → Key
key_of r = record { adapter = r.adapter; model = r.model; status = r.status }

unfoldable pub bucket_runs :
    (Text → Option Usage) → List Run → List UsageStatRow → List UsageStatRow
bucket_runs decode [] rows = rows
bucket_runs decode (r ∷ rs) rows =
    bucket_runs decode rs (tally same_key (key_of r) (run_counts decode r) rows)

-- The order of sort.Slice.
abbrev pub key_before : Key → Key → Bool
key_before k l =
    if text_eq k.adapter l.adapter
    then if text_eq k.model l.model then text_lt k.status l.status else text_lt k.model l.model
    else text_lt k.adapter l.adapter

abbrev pub in_window : ℕ → ℕ → Run → Bool
in_window since until r = leb since r.started_at && leb r.started_at until

unfoldable pub get_usage_stats : (Text → Option Usage) → ℕ → ℕ → Store → List UsageStatRow
get_usage_stats decode since until st =
    sort_buckets key_before (bucket_runs decode (select (in_window since until) st.runs) [])
