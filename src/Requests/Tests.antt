-- ===== src/Requests/Tests.antt =====
-- The collector with a query inside and one that has gone.
use guard_dns.Prelude.{ℕ, refl, false, some, [], ◌∷◌}
use guard_dns.Prelude.Text.{codes}
use guard_dns.Cancel.{context_canceled}
use guard_dns.Requests.{Outcome}
use guard_dns.Requests.Flying.{
  System, idle, comes, goes, entered, left, idle_system, IsCounted, Reached-IsCounted,
}

abbrev same : ℕ → ℕ
same c = c

abbrev canceled : Outcome
canceled = record {
  err = some (record { chain = context_canceled ∷ []; message = codes "context canceled" });
  answered = false;
}

-- Two queries come in, and the first goes out.
abbrev busy : System
busy = left same (9 ∷ []) 5 [] 12 canceled (entered same 9 (entered same 5 idle_system))

Reached-IsCounted_example : IsCounted same busy
Reached-IsCounted_example =
    Reached-IsCounted same busy (goes (comes (comes idle 5) 9) (9 ∷ []) [] 5 12 canceled refl)
