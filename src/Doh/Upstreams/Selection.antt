-- ===== src/Doh/Upstreams/Selection.antt =====
-- Which upstreams the bridge of cmd/guarddns/dohbridge.go starts with.
use mathlib.Core.List.{map-append}
use mathlib.Core.Path.{ap₂}
use guard_dns.Prelude.{
  ◌≡◌, refl, ap, ◌∙◌, true, false, inl, inr, Bool, Bool-cases, List, [], ◌∷◌, ◌++◌, String, map,
  All, All-append, sym, if◌then◌else◌,
}
use guard_dns.Prelude.Text.{Text}
use guard_dns.Dns.{Msg}
use guard_dns.State.{RuntimeState}
use guard_dns.Doh.Exchange.{Result, ok, err, Upstream, Env, conclude, exchange}
use guard_dns.Doh.Requests.{exchange_admitted, exchange_refused}
use guard_dns.Doh.{DohPermit, acquire}
use guard_dns.Doh.Upstreams.{
  Provider, new_doh_upstream, attach_doh_observation, auto_providers, direct_providers, select_auto,
  select_direct, select_doh_upstreams,
}

abbrev pub tags : List Upstream → List String
tags = map (λ u. u.tag)

conclude_keeps :
    (env : Env) (permit : DohPermit) (r : Result Msg) (u : Upstream) (s : RuntimeState)
    → ((conclude env permit r u s).0.tag ≡ u.tag)
      × ((conclude env permit r u s).0.attached ≡ u.attached)
unfolding conclude
conclude_keeps env permit (ok m) u s = (refl, refl)
conclude_keeps env permit (err e) u s = (refl, refl)

exchange_keeps :
    (env : Env) (query : Msg) (u : Upstream) (s : RuntimeState)
    → ((exchange env query u s).0.tag ≡ u.tag) × ((exchange env query u s).0.attached ≡ u.attached)
exchange_keeps env query u s = elim (Bool-cases (acquire env.acquired_at u.retry).2) [
  | inl adm ↦ rw (exchange_admitted env query u s adm) (conclude_keeps env _ _ _ s)
  | inr out ↦ rw (exchange_refused env query u s out) (refl, refl)
]

abbrev provider_tags : List Provider → List String
provider_tags = map (λ p. p.tag)

abbrev pub IsAttached : Upstream → Type 0
IsAttached u = u.attached ≡ true

-- These upstreams are those of the providers, in order, and each is attached.
abbrev Are : List Provider → List Upstream → Type 0
Are ps us = (tags us ≡ provider_tags ps) × All IsAttached us

select_direct-Are : (ps : List Provider) (s : RuntimeState) → Are ps (select_direct ps s).0
unfolding select_direct
select_direct-Are [] s = (refl, tt)
select_direct-Are (p ∷ ps) s =
    let (same, attached) = select_direct-Are ps (attach_doh_observation (new_doh_upstream p) s).1 in
    (ap (λ ts. p.tag ∷ ts) same, (refl, attached))

Are-append :
    (ps qs : List Provider) (us vs : List Upstream)
    → Are ps us
    → Are qs vs
    → Are (ps ++ qs) (us ++ vs)
Are-append ps qs us vs (e, a) (f, b) = (
  map-append (λ u. u.tag) us vs ∙ ap₂ (λ xs ys. xs ++ ys) e f ∙ sym (map-append (λ p. p.tag) ps qs),
  All-append IsAttached us vs a b,
)

module _ (probe_query : Msg) (env : String → Env) where
  select_auto-Are :
      (ps : List Provider) (s : RuntimeState) → Are ps (select_auto probe_query env ps s).0
  unfolding select_auto
  select_auto-Are [] s = (refl, tt)
  select_auto-Are (p ∷ ps) s =
      let (u, attached) = attach_doh_observation (new_doh_upstream p) s in
      let (kept, on) = exchange_keeps (env u.tag) probe_query u attached in
      let (same, all) = select_auto-Are ps (exchange (env u.tag) probe_query u attached).1 in
      (ap₂ (λ t ts. t ∷ ts) kept same, (on, all))

  selected-Are :
      (ps : List Provider) (s : RuntimeState)
      → let (us, probed) = select_auto probe_query env ps s in
        Are (ps ++ direct_providers) (us ++ (select_direct direct_providers probed).0)
  selected-Are ps s =
      let (us, probed) = select_auto probe_query env ps s in
      let (vs, t) = select_direct direct_providers probed in
      Are-append ps direct_providers us vs (select_auto-Are ps s)
        (select_direct-Are direct_providers probed)

  -- Whatever the probes at the start come to, the bridge keeps every upstream, attached, in this
  -- order: the two behind AUTO_FORWARD first, if it is enabled, and then the two direct ones.
  pub select_doh_upstreams_complete :
      (auto_enabled : Bool) (auto_dns : Text) (s : RuntimeState)
      → let us = (select_doh_upstreams probe_query env auto_enabled auto_dns s).0 in
        (tags us
          ≡ (if auto_enabled
              then "nextdns-via-auto-forward" ∷ "quad9-via-auto-forward" ∷ []
              else [])
            ++ "cloudflare" ∷ "360" ∷ [])
        × All IsAttached us
  unfolding select_doh_upstreams
  select_doh_upstreams_complete true auto_dns s = selected-Are (auto_providers true auto_dns) s
  select_doh_upstreams_complete false auto_dns s = selected-Are (auto_providers false auto_dns) s
