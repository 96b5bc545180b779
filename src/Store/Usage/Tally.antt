-- ===== src/Store/Usage/Tally.antt =====
-- Sums of runs and of tokens in buckets, as GetUsageStats (internal/store/store.go) and
-- handleStatsSummary (internal/api/stats.go) both make them. A sum wraps at 64 bits.
use aiclibridge.Prelude.{
  ℕ, ◌≡◌, refl, ap, sym, ◌∙◌, List, [], ◌∷◌, if◌then◌else◌, Bool, arith, Bool-cases, inl, inr,
}
use aiclibridge.Protocol.{add64}

pub record Counts : Type 0 where
  pub run_count : ℕ
  pub input_tokens : ℕ
  pub output_tokens : ℕ
  pub cache_read_tokens : ℕ
  pub cache_write_tokens : ℕ

abbrev pub zero_counts : Counts
zero_counts = record {
  run_count = 0;
  input_tokens = 0;
  output_tokens = 0;
  cache_read_tokens = 0;
  cache_write_tokens = 0;
}

abbrev pub add_counts : Counts → Counts → Counts
add_counts a b = record {
  run_count = add64 a.run_count b.run_count;
  input_tokens = add64 a.input_tokens b.input_tokens;
  output_tokens = add64 a.output_tokens b.output_tokens;
  cache_read_tokens = add64 a.cache_read_tokens b.cache_read_tokens;
  cache_write_tokens = add64 a.cache_write_tokens b.cache_write_tokens;
}

-- The bucket of a key, made where it is missing, with some counts added.
module _ {ℓ} {K : Type ℓ} (same : K → K → Bool) where
  unfoldable pub tally : K → Counts → List (K × Counts) → List (K × Counts)
  tally k c [] = (k, add_counts zero_counts c) ∷ []
  tally k c ((l, d) ∷ rows) =
      if same l k then (l, add_counts d c) ∷ rows else (l, d) ∷ tally k c rows

-- sort.Slice on the keys, which are all different.
module _ {ℓ} {K : Type ℓ} (before : K → K → Bool) where
  unfoldable pub insert_bucket : K × Counts → List (K × Counts) → List (K × Counts)
  insert_bucket r [] = r ∷ []
  insert_bucket r (q ∷ qs) = if before q.0 r.0 then q ∷ insert_bucket r qs else r ∷ q ∷ qs

  unfoldable pub sort_buckets : List (K × Counts) → List (K × Counts)
  unfolding insert_bucket
  sort_buckets [] = []
  sort_buckets (r ∷ rs) = insert_bucket r (sort_buckets rs)

add64_comm : (a b : ℕ) → add64 a b ≡ add64 b a
add64_comm a b = omega arith

add64_assoc : (a b c : ℕ) → add64 (add64 a b) c ≡ add64 a (add64 b c)
add64_assoc a b c = omega arith

add64_zero : (a b : ℕ) → add64 (add64 a b) 0 ≡ add64 a b
add64_zero a b = omega arith

pub add_counts_comm : (a b : Counts) → add_counts a b ≡ add_counts b a
add_counts_comm a b i = record {
  run_count = add64_comm a.run_count b.run_count i;
  input_tokens = add64_comm a.input_tokens b.input_tokens i;
  output_tokens = add64_comm a.output_tokens b.output_tokens i;
  cache_read_tokens = add64_comm a.cache_read_tokens b.cache_read_tokens i;
  cache_write_tokens = add64_comm a.cache_write_tokens b.cache_write_tokens i;
}

pub add_counts_assoc :
    (a b c : Counts) → add_counts (add_counts a b) c ≡ add_counts a (add_counts b c)
add_counts_assoc a b c i = record {
  run_count = add64_assoc a.run_count b.run_count c.run_count i;
  input_tokens = add64_assoc a.input_tokens b.input_tokens c.input_tokens i;
  output_tokens = add64_assoc a.output_tokens b.output_tokens c.output_tokens i;
  cache_read_tokens = add64_assoc a.cache_read_tokens b.cache_read_tokens c.cache_read_tokens i;
  cache_write_tokens = add64_assoc a.cache_write_tokens b.cache_write_tokens c.cache_write_tokens i;
}

-- A sum is below 2^64 already.
pub add_counts_zero : (a b : Counts) → add_counts (add_counts a b) zero_counts ≡ add_counts a b
add_counts_zero a b i = record {
  run_count = add64_zero a.run_count b.run_count i;
  input_tokens = add64_zero a.input_tokens b.input_tokens i;
  output_tokens = add64_zero a.output_tokens b.output_tokens i;
  cache_read_tokens = add64_zero a.cache_read_tokens b.cache_read_tokens i;
  cache_write_tokens = add64_zero a.cache_write_tokens b.cache_write_tokens i;
}

-- What was added last can be added first.
pub add_counts_right :
    (a b c : Counts) → add_counts (add_counts a b) c ≡ add_counts (add_counts a c) b
add_counts_right a b c =
    add_counts_assoc a b c ∙ ap (add_counts a) (add_counts_comm b c) ∙ sym (add_counts_assoc a c b)

pub add_counts_left :
    (a b c : Counts) → add_counts a (add_counts b c) ≡ add_counts b (add_counts a c)
add_counts_left a b c =
    sym (add_counts_assoc a b c)
    ∙ ap (λ d. add_counts d c) (add_counts_comm a b)
    ∙ add_counts_assoc b a c

-- The sum of all buckets.
module _ {ℓ} {K : Type ℓ} where
  abbrev pub total : List (K × Counts) → Counts
  total [] = zero_counts
  total ((k, c) ∷ rows) = add_counts c (total rows)

  -- The empty sum is one, too.
  pub total_zero : (rows : List (K × Counts)) → add_counts (total rows) zero_counts ≡ total rows
  total_zero [] = refl
  total_zero ((k, c) ∷ rows) = add_counts_zero c (total rows)

  -- A bucket takes all of what is added, and no other bucket any of it.
  pub total-tally :
      (same : K → K → Bool) (k : K) (c : Counts) (rows : List (K × Counts))
      → total (tally same k c rows) ≡ add_counts (total rows) c
  unfolding tally
  total-tally same k c [] = add_counts_zero zero_counts c
  total-tally same k c ((l, d) ∷ rows) = elim (Bool-cases (same l k)) [
    | inl e ↦ rw e (add_counts_right d c (total rows))
    | inr e ↦
        rw e
          (ap (add_counts d) (total-tally same k c rows) ∙ sym (add_counts_assoc d (total rows) c))
  ]

  total-insert_bucket :
      (before : K → K → Bool) (r : K × Counts) (rows : List (K × Counts))
      → total (insert_bucket before r rows) ≡ add_counts r.1 (total rows)
  unfolding insert_bucket
  total-insert_bucket before r [] = refl
  total-insert_bucket before r (q ∷ rows) = elim (Bool-cases (before q.0 r.0)) [
    | inl e ↦ rw e (
        ap (add_counts q.1) (total-insert_bucket before r rows)
        ∙ add_counts_left q.1 r.1 (total rows))
    | inr e ↦ rw e refl
  ]

  pub total-sort_buckets :
      (before : K → K → Bool) (rows : List (K × Counts))
      → total (sort_buckets before rows) ≡ total rows
  unfolding sort_buckets
  total-sort_buckets before [] = refl
  total-sort_buckets before (r ∷ rows) =
      total-insert_bucket before r (sort_buckets before rows)
      ∙ ap (add_counts r.1) (total-sort_buckets before rows)
