-- ===== src/Doh/Bridge.antt =====
-- The bridge's DNS handler in cmd/guarddns/dohbridge.go: `ServeDNS` and `warnUnavailable`.
-- `set_rcode` stands for the library's `SetRcode` on a new message.
use guard_dns.Prelude.{
  ℕ, ◌*◌, Bool, true, false, List, [], ◌∷◌, if◌then◌else◌, ltb_i64, sub_time, second,
}
use guard_dns.Dns.{Msg, rcode_server_failure}
use guard_dns.State.{RuntimeState}
use guard_dns.Doh.Exchange.{ExchangeError, Result, ok, err, Upstream, Env, exchange}

-- The error that the loop has seen last.
pub data LastError : Type 0 where
  no_resolver : LastError
  resolver_failed : ExchangeError → LastError
  context_ended : LastError

-- An upstream in the bridge's order, what its exchange meets if it is called, and whether the
-- query's context has ended after it.
pub record Resolver : Type 0 where
  pub upstream : Upstream
  pub env : Env
  pub ended : Bool

pub data Outcome : Type 0 where
  served : Msg → Outcome
  exhausted : LastError → Outcome

-- The loop's result: the upstreams as they are then, the supervisor's state, and the outcome.
abbrev pub Served : Type 0
Served = List Upstream × RuntimeState × Outcome

-- The upstreams of resolvers that are not called stay as they are.
abbrev pub untouched : List Resolver → List Upstream
untouched [] = []
untouched (r ∷ rs) = r.upstream ∷ untouched rs

abbrev pub after : Upstream → Served → Served
after u (us, s, outcome) = (u ∷ us, s, outcome)

-- The body of the loop after a resolver's call; `next` goes on with an error.
unfoldable pub judge :
    Result Msg → Bool → List Upstream → RuntimeState → (LastError → Served) → Served
judge (ok m) ended rest s next = (rest, s, served m)
judge (err e) true rest s next = (rest, s, exhausted context_ended)
judge (err e) false rest s next = next (resolver_failed e)

unfoldable pub serve_loop : List Resolver → Msg → RuntimeState → LastError → Served
unfolding judge
serve_loop [] query s last = ([], s, exhausted last)
serve_loop (r ∷ rs) query s last =
    let (u, s', reply) = exchange r.env query r.upstream s in
    after u (judge reply r.ended (untouched rs) s' (λ e. serve_loop rs query s' e))

pub record Warner : Type 0 where
  pub last_warn : ℕ
  pub warnings : List LastError

unfoldable pub warn_unavailable : ℕ → LastError → Warner → Warner
warn_unavailable now e w =
    if ltb_i64 (sub_time now w.last_warn) (30 * second)
    then w
    else record w { last_warn = now; warnings = e ∷ w.warnings }

module _ (set_rcode : Msg → ℕ → Msg) where
  -- The message that `ServeDNS` writes, and the warning that it logs.
  unfoldable pub reply_with : (now : ℕ) → Msg → Warner → Outcome → Warner × Msg
  reply_with now query w (served m) = (w, m)
  reply_with now query w (exhausted e) =
      (warn_unavailable now e w, set_rcode query rcode_server_failure)

  unfoldable pub serve_dns :
      (now : ℕ)
      → List Resolver
      → Msg
      → RuntimeState
      → Warner
      → List Upstream × RuntimeState × Warner × Msg
  unfolding serve_loop reply_with
  serve_dns now resolvers query s w =
      let (us, s', outcome) = serve_loop resolvers query s no_resolver in
      let (w', m) = reply_with now query w outcome in (us, s', w', m)
