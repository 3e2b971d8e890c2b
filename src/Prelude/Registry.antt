-- ===== src/Prelude/Registry.antt =====
-- What `registerer.Register` answers for a new counter vector (github.com/prometheus/client_golang).
use guard_dns.Prelude.Counters.{Counters}

-- The vector is registered, or another collector is there already: a vector, with its counts, or
-- one of another type; or the registry refuses.
pub data Registration : Type 0 where
  fresh : Registration
  existing : Counters → Registration
  other_collector : Registration
  refused : Registration
