-- ===== src/Wire.antt =====
-- The state that the supervisor sends to the plugin in MosDNS (internal/statewire/state.go).
use guard_dns.Prelude.{ℕ, Bool, Dict}

pub record Component : Type 0 where
  pub enabled : Bool
  pub up : Bool
  pub restarts : ℕ  -- uint64
  pub backoff : ℕ  -- BackoffSeconds, kept in nanoseconds

pub record DohUpstream : Type 0 where
  pub requests : ℕ  -- uint64, as are the next four
  pub successes : ℕ
  pub failures : ℕ
  pub backoff_skips : ℕ
  pub duration_microseconds : ℕ
  pub retry_at_unix_milli : ℕ  -- int64
  pub last_success_unix : ℕ
  pub last_failure_unix : ℕ

pub record Snapshot : Type 0 where
  pub timestamp : ℕ  -- int64
  pub components : Dict Component
  pub doh_upstreams : Dict DohUpstream
