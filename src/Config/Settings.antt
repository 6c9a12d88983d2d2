-- ===== src/Config/Settings.antt =====
-- Which settings are accepted, and what they are then.
use pulse_stream.Common.{
  ℕ, refl, sym, subst, ◌≤◌, ◌≡◌, ◌⊎◌, ◌↔◌, ◌%◌, ◌^◌, Text, String, trim, Option, none, some, ok,
  >>=-eq-ok, ◌>>=◌, arith,
}
use pulse_stream.Config.Numbers.{parse_u64}
use pulse_stream.Config.{
  Range, DatabaseUrl, DatabaseConfig, WorkerRuntimeConfig, WorkerConfig, in_range, bounded_integer,
  millis, boolean, database_from_lookup, runtime_from_lookup, worker_from_lookup, required,
  parse_url, with_url, default_runtime, worker_concurrency, poll_interval_ms, processing_lease_ms,
  shutdown_timeout_ms, db_max_connections, db_acquire_timeout_ms, worker_concurrency_var,
  poll_interval_ms_var, processing_lease_ms_var, shutdown_timeout_ms_var, db_max_connections_var,
  db_acquire_timeout_ms_var, database_url_var, migrate_on_start_var,
}

abbrev pub InRuntimeRanges : WorkerRuntimeConfig → Type 0
InRuntimeRanges r =
    ((1 ≤ r.concurrency) × (r.concurrency ≤ 64))
    × ((10 ≤ r.poll_interval) × (r.poll_interval ≤ 60000))
    × ((1000 ≤ r.lease) × (r.lease ≤ 3600000))
    × ((1 ≤ r.shutdown_timeout) × (r.shutdown_timeout ≤ 300000))

abbrev pub InDatabaseRanges : DatabaseConfig → Type 0
InDatabaseRanges d =
    ((1 ≤ d.max_connections) × (d.max_connections ≤ 50))
    × ((100 ≤ d.acquire_timeout) × (d.acquire_timeout ≤ 60000))

module _ (lookup : String → Option Text) where
  -- A number is accepted exactly if its variable is not set, and then it is the default, or set to
  -- a decimal number in the range, with white space around it or not.
  pub bounded_integer_iff :
      (var : String) (range : Range) (n : ℕ)
      → (bounded_integer lookup var range ≡ ok n) ↔ (
          ((lookup var ≡ none) × (n ≡ range.default))
          ⊎ ((raw : Text) × (lookup var ≡ some raw)
              × (parse_u64 (trim raw) ≡ some n)
              × (range.start ≤ n)
              × (n ≤ range.end)))
  unfolding bounded_integer in_range
  bounded_integer_iff var range n = ground arith

  bounded_integer-bounds :
      (var : String) (range : Range)
      → range.start ≤ range.default
      → range.default ≤ range.end
      → (n : ℕ) → bounded_integer lookup var range ≡ ok n
      → (range.start ≤ n) × (n ≤ range.end)
  bounded_integer-bounds var range l u n h = ground (arith, (bounded_integer_iff var range n).0 h)

  -- What a number is when it is accepted.
  abbrev Within : String → Range → Type 0
  Within var range =
      (n : ℕ) → bounded_integer lookup var range ≡ ok n → (range.start ≤ n) × (n ≤ range.end)

  runtime_fields :
      {r : WorkerRuntimeConfig} (k p l s : ℕ)
      → (1 ≤ k) × (k ≤ 64)
      → (10 ≤ p) × (p ≤ 60000)
      → (1000 ≤ l) × (l ≤ 3600000)
      → (1 ≤ s) × (s ≤ 300000)
      → record { concurrency = k % 2 ^ 32; poll_interval = p; lease = l; shutdown_timeout = s } ≡ r
      → InRuntimeRanges r
  runtime_fields k p l s a b c d h = ground arith

  runtime_rest :
      {r : WorkerRuntimeConfig} (k : ℕ)
      → (1 ≤ k) × (k ≤ 64)
      → (bounded_integer lookup poll_interval_ms_var poll_interval_ms >>= λ poll.
          bounded_integer lookup processing_lease_ms_var processing_lease_ms >>= λ lease.
          bounded_integer lookup shutdown_timeout_ms_var shutdown_timeout_ms >>= λ shutdown.
          ok (record {
            concurrency = k % 2 ^ 32;
            poll_interval = poll;
            lease = lease;
            shutdown_timeout = shutdown;
          }))
        ≡ ok r
      → InRuntimeRanges r
  runtime_rest k w h =
      let (p, hp, h1) =
        >>=-eq-ok (bounded_integer lookup poll_interval_ms_var poll_interval_ms) _ h in
      let (l, hl, h2) =
        >>=-eq-ok (bounded_integer lookup processing_lease_ms_var processing_lease_ms) _ h1 in
      let (s, hs, h3) =
        >>=-eq-ok (bounded_integer lookup shutdown_timeout_ms_var shutdown_timeout_ms) _ h2 in
      runtime_fields k p l s w
        (bounded_integer-bounds poll_interval_ms_var poll_interval_ms (omega arith) (omega arith) p
          hp)
        (bounded_integer-bounds processing_lease_ms_var processing_lease_ms (omega arith)
          (omega arith) l hl)
        (bounded_integer-bounds shutdown_timeout_ms_var shutdown_timeout_ms (omega arith)
          (omega arith) s hs)
        (cc h3)

  runtime_from_lookup-bounds :
      {r : WorkerRuntimeConfig} → runtime_from_lookup lookup ≡ ok r → InRuntimeRanges r
  unfolding runtime_from_lookup millis
  runtime_from_lookup-bounds h =
      let (k, hk, h1) =
        >>=-eq-ok (bounded_integer lookup worker_concurrency_var worker_concurrency) _ h in
      let w =
        bounded_integer-bounds worker_concurrency_var worker_concurrency (omega arith) (omega arith)
          k hk in
      runtime_rest k w h1

  database_from_lookup-bounds :
      {d : DatabaseConfig} → database_from_lookup lookup ≡ ok d → InDatabaseRanges d
  unfolding database_from_lookup millis
  database_from_lookup-bounds h =
      let k : Within db_max_connections_var db_max_connections =
        bounded_integer-bounds _ _ (omega arith) (omega arith) in
      let a : Within db_acquire_timeout_ms_var db_acquire_timeout_ms =
        bounded_integer-bounds _ _ (omega arith) (omega arith) in
      ground (arith, k, a)

  -- The worker's settings, when they are accepted, are in their ranges: the runtime's and the
  -- database's.
  pub worker_from_lookup-bounds :
      {c : WorkerConfig}
      → worker_from_lookup lookup ≡ ok c
      → InRuntimeRanges c.runtime × InDatabaseRanges c.database
  unfolding worker_from_lookup
  worker_from_lookup-bounds {c} h =
      let (d, hd, h1) = >>=-eq-ok (database_from_lookup lookup) _ h in
      let (r, hr, h2) = >>=-eq-ok (runtime_from_lookup lookup) _ h1 in
      let same : c.runtime ≡ r = cc h2 in
      let same_database : c.database ≡ d = cc h2 in
      (
        subst InRuntimeRanges (sym same) (runtime_from_lookup-bounds hr),
        subst InDatabaseRanges (sym same_database) (database_from_lookup-bounds hd),
      )

  -- If no variable but the URL's is set, the settings are those of `with_url` and of the default.
  pub worker_from_lookup_unset :
      (raw : Text) (url : DatabaseUrl)
      → lookup database_url_var ≡ some raw
      → parse_url raw ≡ ok url
      → lookup db_max_connections_var ≡ none
      → lookup db_acquire_timeout_ms_var ≡ none
      → lookup migrate_on_start_var ≡ none
      → lookup worker_concurrency_var ≡ none
      → lookup poll_interval_ms_var ≡ none
      → lookup processing_lease_ms_var ≡ none
      → lookup shutdown_timeout_ms_var ≡ none
      → worker_from_lookup lookup
        ≡ ok (record { database = with_url url; runtime = default_runtime })
  unfolding worker_from_lookup required millis bounded_integer boolean with_url default_runtime
      database_from_lookup runtime_from_lookup
  worker_from_lookup_unset raw url d u a b c e f g i =
      rw
        (
          d, u, bounded_integer, millis, boolean, a, b, c, runtime_from_lookup, bounded_integer, e,
          f, g, i,
        )
        refl
