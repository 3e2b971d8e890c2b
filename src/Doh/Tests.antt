-- ===== src/Doh/Tests.antt =====
-- The DoH bridge at work: one upstream through a failure, a probe and an answer, and two in a row.
use guard_dns.Prelude.{
  String, ℕ, ◌+◌, ◌*◌, ◌≡◌, refl, sym, ap, ◌∙◌, true, false, none, some, List, [], ◌∷◌, second,
  minute,
}
use guard_dns.Prelude.Text.{codes}
use guard_dns.Dns.{Msg, rcode_server_failure}
use guard_dns.State.{RuntimeState, new_runtime_state}
use guard_dns.Backoff.{jitter_doh_backoff}
use guard_dns.Circuit.Phase.{closed}
use guard_dns.Doh.{DohPermit, Retry, fresh_retry, acquire, fail}
use guard_dns.Doh.Invariant.{Call, failing, run}
use guard_dns.Doh.Phase.{retry_phase}
use guard_dns.Doh.Cache.{empty_cache}
use guard_dns.Doh.Exchange.{request_failed, Result, ok, err, Http, Upstream, Env, exchange}
use guard_dns.Doh.Requests.{exchange_answer, exchange_releases}
use guard_dns.Doh.Bridge.{
  LastError, no_resolver, resolver_failed, exhausted, Resolver, serve_loop, Warner,
  warn_unavailable, serve_dns,
}
use guard_dns.Doh.Exhausted.{IsLast}
use guard_dns.Doh.Failover.{Fails, FirstAnswer, FirstAnswer-served}
use guard_dns.Doh.Service.{serve_dns-FirstAnswer, serve_dns_failure}
use guard_dns.State.{new_runtime_state}
use guard_dns.Doh.Upstreams.{select_doh_upstreams}
use guard_dns.Doh.Lifecycle.{
  Turn, stops, on_udp, on_tcp, cancelled, shuts, closes, start_doh_bridge, Shows, bridge_shown,
}

abbrev noon : ℕ
noon = 63800000000 * second

abbrev no_jitter : ℕ → ℕ
no_jitter n = 0

abbrev normal_permit : DohPermit
normal_permit = record { probe = false }

abbrev two_failures : List Call
two_failures = failing no_jitter noon normal_permit ∷ failing no_jitter noon normal_permit ∷ []

abbrev parked : Retry
parked = record { backoff_step = 1; failures = 2; retry_at = noon + 800000000; probing = false }

two_failures_park : run fresh_retry two_failures ≡ parked
unfolding run fail jitter_doh_backoff
two_failures_park = refl

abbrev query : Msg
query = record { id = 9; response = false; question = 1 ∷ []; rcode = 0; answer = [] }

abbrev decoded : Msg
decoded = record { id = 0; response = true; question = 1 ∷ []; rcode = 0; answer = [] }

abbrev reached : Http
reached = record {
  pack = λ m. some [];
  creates = true;
  post = λ bytes. some (record { status_code = 200; read = some [] });
  unpack = λ bytes. some decoded;
}

abbrev broken : Http
broken = record reached { post = λ bytes. none }

abbrev env_at : Http → ℕ → Env
env_at http now = record {
  started_at = now;
  acquired_at = now;
  failed_at = now;
  measured_at = now + second;
  observed_at = now + second;
  draw = no_jitter;
  dials = λ c. record { addresses = 1 ∷ []; expires_at = now + minute };
  http = http;
}

abbrev upstream : Retry → Upstream
upstream retry = record {
  tag = "cloudflare";
  attached = true;
  retry = retry;
  cache = some empty_cache;
}

abbrev answered : Msg
answered = record decoded { id = 9 }

reached_ok :
    (exchange (env_at reached (noon + second)) query (upstream parked) new_runtime_state).2
    ≡ ok answered
unfolding exchange acquire
reached_ok = refl

exchange_answer_example :
    (retry_phase
        (exchange
          (env_at reached (noon + second))
          query
          (upstream parked)
          new_runtime_state).0.retry
      ≡ closed 0)
    × ◌≡◌ {A = ℕ} 9 9
    × (true ≡ true)
    × ◌≡◌ {A = ℕ} 1 1
exchange_answer_example =
    exchange_answer (env_at reached (noon + second)) query (upstream parked) new_runtime_state
      {m = answered} reached_ok

exchange_releases_example :
    (exchange
      (env_at broken (noon + second))
      query
      (upstream parked)
      new_runtime_state).0.retry.probing
    ≡ false
exchange_releases_example =
    exchange_releases (env_at broken (noon + second)) query (upstream parked) new_runtime_state refl

abbrev resolver : Http → Resolver
resolver http = record { upstream = upstream fresh_retry; env = env_at http noon; ended = false }

abbrev start : RuntimeState
start = record { components = []; doh_upstreams = [] }

-- The first upstream is broken, and the second answers.
abbrev pair : List Resolver
pair = resolver broken ∷ resolver reached ∷ []

abbrev set_rcode : Msg → ℕ → Msg
set_rcode m code = record m { response = true; rcode = code; answer = [] }

abbrev quiet : Warner
quiet = record { last_warn = 0; warnings = [] }

abbrev first_try : Upstream × RuntimeState × Result Msg
first_try = exchange (env_at broken noon) query (upstream fresh_retry) start

abbrev second_try : Upstream × RuntimeState × Result Msg
second_try = exchange (env_at reached noon) query (upstream fresh_retry) first_try.1

first_fails :
    exchange (env_at broken noon) query (upstream fresh_retry) start
    ≡ (first_try.0, first_try.1, err request_failed)
unfolding exchange acquire
first_fails = refl

second_answers :
    exchange (env_at reached noon) query (upstream fresh_retry) first_try.1
    ≡ (second_try.0, second_try.1, ok answered)
unfolding exchange acquire
second_answers = refl

pair-FirstAnswer :
    FirstAnswer query start pair (first_try.0 ∷ second_try.0 ∷ []) second_try.1 answered
pair-FirstAnswer = record {
  before = resolver broken ∷ [];
  answering = resolver reached;
  later = [];
  tried = first_try.0 ∷ [];
  middle = first_try.1;
  answered = second_try.0;
  splits = refl;
  fails =
      Fails.failing (resolver broken) request_failed first_try.1 first_try.0 first_fails refl
        Fails.nothing;
  answers = second_answers;
  upstreams = refl;
}

serve_dns-FirstAnswer_example :
    serve_dns set_rcode noon pair query start quiet
    ≡ (first_try.0 ∷ second_try.0 ∷ [], second_try.1, quiet, answered)
serve_dns-FirstAnswer_example =
    serve_dns-FirstAnswer set_rcode noon pair query start quiet pair-FirstAnswer

-- Both upstreams are broken.
abbrev broken_pair : List Resolver
broken_pair = resolver broken ∷ resolver broken ∷ []

broken_pair_fails :
    (serve_loop broken_pair query start no_resolver).2 ≡ exhausted (resolver_failed request_failed)
unfolding serve_loop exchange acquire
broken_pair_fails = refl

no_answer :
    (us : List Upstream) (t : RuntimeState) (m : Msg) → ¬ FirstAnswer query start broken_pair us t m
no_answer us t m f =
    let served_m = sym broken_pair_fails ∙ ap (λ y. y.2) (FirstAnswer-served query no_resolver f) in
    cc

serve_dns_failure_example :
    let (us, t, w', m) = serve_dns set_rcode noon broken_pair query start quiet in
    (m ≡ set_rcode query rcode_server_failure)
    × ((e : LastError) × IsLast query no_resolver start broken_pair us t e
        × (w' ≡ warn_unavailable noon e quiet))
serve_dns_failure_example = serve_dns_failure set_rcode noon broken_pair query start quiet no_answer

-- The probes at the start.
abbrev bridge_env : String → Env
bridge_env tag = env_at reached noon

-- A server fails, and then the context ends.
abbrev bridge_turns : List Turn
bridge_turns = stops on_tcp false ∷ stops on_udp true ∷ cancelled ∷ shuts ∷ closes ∷ []

bridge_shown_example :
    let (result, bridge, state) =
      start_doh_bridge query bridge_env true (codes "mihomo:53") true true new_runtime_state in
    Shows true true new_runtime_state
      (select_doh_upstreams query bridge_env true (codes "mihomo:53") new_runtime_state)
      result
      bridge
      state
      bridge_turns
bridge_shown_example =
    bridge_shown query bridge_env true (codes "mihomo:53") true true new_runtime_state bridge_turns
      (tt, (tt, (tt, (tt, (tt, tt)))))
