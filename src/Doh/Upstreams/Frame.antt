-- ===== src/Doh/Upstreams/Frame.antt =====
-- What the selection of the upstreams in cmd/guarddns/dohbridge.go leaves of the supervisor's state.
use guard_dns.Prelude.{
  ◌≡◌, refl, ◌∙◌, Bool, inl, inr, Bool-cases, Option, none, some, List, [], ◌∷◌, String, lookup,
}
use guard_dns.Prelude.Text.{Text}
use guard_dns.Dns.{Msg}
use guard_dns.State.{
  RuntimeState, DohObservation, doh_success, doh_failure, register_missing, register_doh_upstream,
  observe_doh_upstream,
}
use guard_dns.Wire.{DohUpstream}
use guard_dns.Doh.{DohPermit, acquire, succeed, fail}
use guard_dns.Doh.Exchange.{
  Result, ok, err, Upstream, Env, record_result, invalidated, conclude, exchange,
}
use guard_dns.Doh.Requests.{exchange_admitted, exchange_refused}
use guard_dns.Doh.Upstreams.{
  Provider, new_doh_upstream, attach_doh_observation, auto_providers, direct_providers, select_auto,
  select_direct, select_doh_upstreams,
}

record_result-components :
    (env : Env) (result : DohObservation) (u : Upstream) (s : RuntimeState)
    → (record_result env result u s).components ≡ s.components
unfolding record_result observe_doh_upstream
record_result-components env result u s = elim (Bool-cases u.attached) [
  | inl on ↦ rw on refl
  | inr off ↦ rw off refl
]

conclude-components :
    (env : Env) (permit : DohPermit) (r : Result Msg) (u : Upstream) (s : RuntimeState)
    → (conclude env permit r u s).1.components ≡ s.components
unfolding conclude
conclude-components env permit (ok m) u s =
    record_result-components env doh_success (record u { retry = succeed u.retry }) s
conclude-components env permit (err e) u s =
    record_result-components env doh_failure
      (record u { cache = invalidated u.cache; retry = fail env.draw env.failed_at permit u.retry })
      s

exchange-components :
    (env : Env) (query : Msg) (u : Upstream) (s : RuntimeState)
    → (exchange env query u s).1.components ≡ s.components
exchange-components env query u s = elim (Bool-cases (acquire env.acquired_at u.retry).2) [
  | inl adm ↦ rw (exchange_admitted env query u s adm) (conclude-components env _ _ _ s)
  | inr out ↦ rw (exchange_refused env query u s out) (record_result-components env _ _ s)
]

register_missing-components :
    (name : String) (o : Option DohUpstream) (s : RuntimeState)
    → (register_missing name o s).components ≡ s.components
register_missing-components name none s = refl
register_missing-components name (some u) s = refl

attached-components :
    (u : Upstream) (s : RuntimeState) → (attach_doh_observation u s).1.components ≡ s.components
unfolding attach_doh_observation register_doh_upstream
attached-components u s = register_missing-components u.tag (lookup u.tag s.doh_upstreams) s

select_direct-components :
    (ps : List Provider) (s : RuntimeState) → (select_direct ps s).1.components ≡ s.components
unfolding select_direct
select_direct-components [] s = refl
select_direct-components (p ∷ ps) s =
    let (u, attached) = attach_doh_observation (new_doh_upstream p) s in
    select_direct-components ps attached ∙ attached-components (new_doh_upstream p) s

module _ (probe_query : Msg) (env : String → Env) where
  select_auto-components :
      (ps : List Provider) (s : RuntimeState)
      → (select_auto probe_query env ps s).1.components ≡ s.components
  unfolding select_auto
  select_auto-components [] s = refl
  select_auto-components (p ∷ ps) s =
      let (u, attached) = attach_doh_observation (new_doh_upstream p) s in
      select_auto-components ps (exchange (env u.tag) probe_query u attached).1
      ∙ exchange-components (env u.tag) probe_query u attached
      ∙ attached-components (new_doh_upstream p) s

  pub select_doh_upstreams-components :
      (auto_enabled : Bool) (auto_dns : Text) (s : RuntimeState)
      → (select_doh_upstreams probe_query env auto_enabled auto_dns s).1.components ≡ s.components
  unfolding select_doh_upstreams
  select_doh_upstreams-components auto_enabled auto_dns s =
      let ps = auto_providers auto_enabled auto_dns in
      select_direct-components direct_providers (select_auto probe_query env ps s).1
      ∙ select_auto-components ps s
