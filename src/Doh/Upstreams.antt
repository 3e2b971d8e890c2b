-- ===== src/Doh/Upstreams.antt =====
-- The bridge's upstreams in cmd/guarddns/dohbridge.go: which there are, how they are built and
-- attached to the supervisor's state, and their probe at the start. `probe_query` is the message that
-- the library builds for the probe.
pub mod Selection
pub mod Frame
use guard_dns.Prelude.{
  ℕ, Bool, true, false, not, ◌||◌, Option, none, some, List, [], ◌∷◌, ◌++◌, String, map, ◌==◌,
  if◌then◌else◌,
}
use guard_dns.Prelude.Text.{Text}
use guard_dns.Dns.{Msg, Record, type_a, type_rrsig, rcode_success}
use guard_dns.State.{RuntimeState, register_doh_upstream}
use guard_dns.Doh.{fresh_retry}
use guard_dns.Doh.Cache.{empty_cache}
use guard_dns.Doh.Exchange.{ExchangeError, Result, ok, err, Upstream, Env, exchange}

-- Where an upstream takes its dial addresses from: a fixed list, or a bootstrap server.
pub data DialSource : Type 0 where
  fixed : List String → DialSource
  bootstrapped : Text → DialSource

pub record Provider : Type 0 where
  pub tag : String
  pub url : String
  pub server_name : String
  pub dial_source : DialSource

unfoldable pub auto_providers : (auto_enabled : Bool) → (auto_dns : Text) → List Provider
auto_providers false auto_dns = []
auto_providers true auto_dns =
    record {
      tag = "nextdns-via-auto-forward";
      url = "https://dns.nextdns.io";
      server_name = "dns.nextdns.io";
      dial_source = bootstrapped auto_dns;
    }
    ∷ record {
      tag = "quad9-via-auto-forward";
      url = "https://dns.quad9.net/dns-query";
      server_name = "dns.quad9.net";
      dial_source = bootstrapped auto_dns;
    }
    ∷ []

unfoldable pub direct_providers : List Provider
direct_providers =
    record {
      tag = "cloudflare";
      url = "https://cloudflare-dns.com/dns-query";
      server_name = "cloudflare-dns.com";
      dial_source = fixed ("104.16.248.249" ∷ "104.16.249.249" ∷ []);
    }
    ∷ record {
      tag = "360";
      url = "https://doh.360.cn/dns-query";
      server_name = "doh.360.cn";
      dial_source = fixed (
          "101.226.4.6" ∷ "218.30.118.6" ∷ "101.91.111.153" ∷ "36.99.170.86" ∷ "106.63.24.74" ∷ []);
    }
    ∷ []

-- `newDoHUpstream` and `newBootstrappedDoHUpstream`: only the latter has a cache to invalidate.
unfoldable pub new_doh_upstream : Provider → Upstream
new_doh_upstream p = record {
  tag = p.tag;
  attached = false;
  retry = fresh_retry;
  cache = elim p.dial_source [ fixed ips ↦ none | bootstrapped dns ↦ some empty_cache ];
}

unfoldable pub attach_doh_observation : Upstream → RuntimeState → Upstream × RuntimeState
attach_doh_observation u s = (record u { attached = true }, register_doh_upstream u.tag s)

pub data ProbeError : Type 0 where
  exchange_error : ExchangeError → ProbeError
  probe_rcode : ℕ → ProbeError
  no_ipv4_address no_signature : ProbeError

abbrev pub has_type : ℕ → List Record → Bool
has_type t [] = false
has_type t (r ∷ rs) = r.rrtype == t || has_type t rs

unfoldable pub probe_verdict : Result Msg → Option ProbeError
probe_verdict (err e) = some (exchange_error e)
probe_verdict (ok m) =
    if not (m.rcode == rcode_success)
    then some (probe_rcode m.rcode)
    else if not (has_type type_a m.answer)
    then some no_ipv4_address
    else if not (has_type type_rrsig m.answer)
    then some no_signature
    else none

-- The second loop of `selectDoHUpstreams`, without a probe.
unfoldable pub select_direct : List Provider → RuntimeState → List Upstream × RuntimeState
unfolding new_doh_upstream attach_doh_observation
select_direct [] s = ([], s)
select_direct (p ∷ ps) s =
    let (u, attached) = attach_doh_observation (new_doh_upstream p) s in
    let (us, s') = select_direct ps attached in (u ∷ us, s')

module _ (probe_query : Msg) (env : String → Env) where
  unfoldable pub probe_doh_upstream :
      Upstream → RuntimeState → Upstream × RuntimeState × Option ProbeError
  unfolding probe_verdict
  probe_doh_upstream u s =
      let (u', s', reply) = exchange (env u.tag) probe_query u s in (u', s', probe_verdict reply)

  -- The first loop of `selectDoHUpstreams`: an upstream is kept whatever its probe says, which is
  -- only logged.
  unfoldable pub select_auto : List Provider → RuntimeState → List Upstream × RuntimeState
  unfolding new_doh_upstream attach_doh_observation probe_doh_upstream
  select_auto [] s = ([], s)
  select_auto (p ∷ ps) s =
      let (u, attached) = attach_doh_observation (new_doh_upstream p) s in
      let (u', probed, verdict) = probe_doh_upstream u attached in
      let (us, s') = select_auto ps probed in (u' ∷ us, s')

  unfoldable pub select_doh_upstreams :
      (auto_enabled : Bool) → (auto_dns : Text) → RuntimeState → List Upstream × RuntimeState
  unfolding select_auto select_direct auto_providers direct_providers
  select_doh_upstreams auto_enabled auto_dns s =
      let (auto, probed) = select_auto (auto_providers auto_enabled auto_dns) s in
      let (direct, s') = select_direct direct_providers probed in (auto ++ direct, s')
