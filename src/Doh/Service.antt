-- ===== src/Doh/Service.antt =====
-- What `ServeDNS` of cmd/guarddns/dohbridge.go writes: the first answer of the upstreams in order, and
-- without one a server failure.
use guard_dns.Prelude.{ℕ, ◌≡◌, refl, ap, ◌⊎◌, inl, inr, List}
use guard_dns.Dns.{Msg, rcode_server_failure}
use guard_dns.State.{RuntimeState}
use guard_dns.Doh.Exchange.{Upstream}
use guard_dns.Doh.Bridge.{
  LastError, no_resolver, Resolver, Outcome, served, exhausted, Served, serve_loop, Warner,
  warn_unavailable, reply_with, serve_dns,
}
use guard_dns.Doh.Exhausted.{IsLast, loop_exhausted}
use guard_dns.Doh.Failover.{FirstAnswer, loop_served, FirstAnswer-served}

Outcome-cases : (o : Outcome) → ((m : Msg) × (o ≡ served m)) ⊎ ((e : LastError) × (o ≡ exhausted e))
Outcome-cases (served m) = inl (m, refl)
Outcome-cases (exhausted e) = inr (e, refl)

module _ (set_rcode : Msg → ℕ → Msg) (now : ℕ) (resolvers : List Resolver) (query : Msg)
    (s : RuntimeState) (w : Warner) where
  -- If the resolvers have a first answer, `ServeDNS` writes it, logs nothing, and leaves every
  -- upstream behind the answering one as it is.
  pub serve_dns-FirstAnswer :
      {us : List Upstream} {t : RuntimeState} {m : Msg}
      → FirstAnswer query s resolvers us t m
      → serve_dns set_rcode now resolvers query s w ≡ (us, t, w, m)
  unfolding serve_dns
  serve_dns-FirstAnswer f =
      ap (λ (y : Served). (let (w', m) = reply_with set_rcode now query w y.2 in (y.0, y.1, w', m)))
        (FirstAnswer-served query no_resolver f)

  -- If the resolvers have no first answer, `ServeDNS` writes a server failure for the query, and hands to the rate-limited
  -- warning the error of the last resolver that was called, or that the context has ended where it had by
  -- then, or that there is no resolver; the upstreams and the state are left as the calls up to that one
  -- leave them.
  pub serve_dns_failure :
      ((us : List Upstream) (t : RuntimeState) (m : Msg) → ¬ FirstAnswer query s resolvers us t m)
      → let (us, t, w', m) = serve_dns set_rcode now resolvers query s w in
        (m ≡ set_rcode query rcode_server_failure)
        × ((e : LastError) × IsLast query no_resolver s resolvers us t e
            × (w' ≡ warn_unavailable now e w))
  unfolding serve_dns
  serve_dns_failure missing =
      let y = serve_loop resolvers query s no_resolver in
      elim (Outcome-cases y.2) [
        | inl (m, e) ↦ absurd (missing y.0 y.1 m (loop_served query resolvers s no_resolver m e))
        | inr (e, x) ↦ (
          ap (λ o. (reply_with set_rcode now query w o).1) x,
          (
            e,
            loop_exhausted query resolvers s no_resolver e x,
            ap (λ o. (reply_with set_rcode now query w o).0) x,
          ),
        )
      ]
