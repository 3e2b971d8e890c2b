-- ===== src/Doh/Requests.antt =====
-- One `exchange` of a DoH upstream in cmd/guarddns/dohbridge.go, from its permit to its counters.
use mathlib.Core.Option
use guard_dns.Prelude.{
  ℕ, ◌<◌, ◌≡◌, ◌≢◌, refl, sym, ap, ◌∙◌, ◌⊎◌, inl, inr, true, false, arith, length, Bool-cases,
}
use guard_dns.Dns.{Msg}
use guard_dns.State.{RuntimeState, doh_backoff_skip}
use guard_dns.Circuit.Phase.{closed}
use guard_dns.Doh.{DohPermit, Retry, acquire, fail, succeed}
use guard_dns.Doh.Phase.{retry_phase, succeed-retry_phase}
use guard_dns.Doh.Exchange.{
  in_backoff, Result, ok, err, Http, exchange_once, Upstream, Env, record_result, conclude,
  exchange,
}

-- Whatever the outside does, an answer that `exchangeOnce` accepts is a response, carries the
-- query's id, and has as many questions as the query.
pub exchange_once-ok :
    (http : Http) (query : Msg) {m : Msg}
    → exchange_once http query ≡ ok m
    → (m.id ≡ query.id) × (m.response ≡ true) × (length m.question ≡ length query.question)
unfolding exchange_once
exchange_once-ok http query e = ground arith

module _ (env : Env) (query : Msg) (u : Upstream) (s : RuntimeState) where
  abbrev pub entered : Upstream
  entered = record u { retry = (acquire env.acquired_at u.retry).0 }

  abbrev pub dialed : Upstream
  dialed = record entered { cache = Option.map env.dials u.cache }

  pub exchange_refused :
      (acquire env.acquired_at u.retry).2 ≡ false
      → exchange env query u s
        ≡ (entered, record_result env doh_backoff_skip entered s, err in_backoff)
  unfolding exchange
  exchange_refused out = rw out

  pub exchange_admitted :
      (acquire env.acquired_at u.retry).2 ≡ true
      → exchange env query u s
        ≡ conclude env (acquire env.acquired_at u.retry).1 (exchange_once env.http query) dialed s
  unfolding exchange
  exchange_admitted adm = rw adm

conclude_ok :
    (env : Env) (permit : DohPermit) (r : Result Msg) (u : Upstream) (s : RuntimeState) {m : Msg}
    → (conclude env permit r u s).2 ≡ ok m
    → (r ≡ ok m) × ((conclude env permit r u s).0.retry ≡ succeed u.retry)
unfolding conclude
conclude_ok env permit (ok a) u s e = (e, refl)
conclude_ok env permit (err x) u s e = cc

-- An `exchange` that returns an answer closes its upstream, whatever phase it was in, and the answer
-- is a response with the query's id and number of questions.
pub exchange_answer :
    (env : Env) (query : Msg) (u : Upstream) (s : RuntimeState) {m : Msg}
    → (exchange env query u s).2 ≡ ok m
    → (retry_phase (exchange env query u s).0.retry ≡ closed 0)
      × (m.id ≡ query.id)
      × (m.response ≡ true)
      × (length m.question ≡ length query.question)
exchange_answer env query u s {m} e = elim (Bool-cases (acquire env.acquired_at u.retry).2) [
  | inl adm ↦
      let whole = exchange_admitted env query u s adm in
      let permit = (acquire env.acquired_at u.retry).1 in
      let (once, closes) =
        conclude_ok env permit (exchange_once env.http query) (dialed env query u s) s
          (sym (ap (λ r. r.2) whole) ∙ e) in
      let (i, r, l) = exchange_once-ok env.http query once in
      (
        ap (λ x. retry_phase x.0.retry) whole ∙ ap retry_phase closes ∙ succeed-retry_phase _,
        i,
        r,
        l,
      )
  | inr out ↦ let bad = sym (ap (λ r. r.2) (exchange_refused env query u s out)) ∙ e in cc
]

released :
    (env : Env) (permit : DohPermit) (r : Result Msg) (u : Upstream) (s : RuntimeState)
    → (u.retry.probing ≡ true → (permit.probe ≡ true) × (u.retry.backoff_step ≢ 0))
    → (conclude env permit r u s).0.retry.probing ≡ false
unfolding conclude succeed fail
released env permit (ok a) u s h = refl
released env permit (err x) u s h = ground arith

acquired_probe :
    (now : ℕ) (u : Retry)
    → u.probing ≡ false
    → (acquire now u).0.probing ≡ true
    → ((acquire now u).1.probe ≡ true) × ((acquire now u).0.backoff_step ≢ 0)
unfolding acquire
acquired_probe now u h e = ground arith

refused_unchanged : (now : ℕ) (u : Retry) → (acquire now u).2 ≡ false → (acquire now u).0 ≡ u
unfolding acquire
refused_unchanged now u h = ground arith

-- An upstream with no probe out has none out after an `exchange` either, whatever the exchange comes
-- to: every probe that it sends is settled, also where the query was cancelled.
pub exchange_releases :
    (env : Env) (query : Msg) (u : Upstream) (s : RuntimeState)
    → u.retry.probing ≡ false
    → (exchange env query u s).0.retry.probing ≡ false
exchange_releases env query u s h = elim (Bool-cases (acquire env.acquired_at u.retry).2) [
  | inl adm ↦
      let permit = (acquire env.acquired_at u.retry).1 in
      ap (λ x. x.0.retry.probing) (exchange_admitted env query u s adm)
      ∙ released env permit (exchange_once env.http query) (dialed env query u s) s
          (acquired_probe env.acquired_at u.retry h)
  | inr out ↦
      ap (λ x. x.0.retry.probing) (exchange_refused env query u s out)
      ∙ ap (λ r. r.probing) (refused_unchanged env.acquired_at u.retry out)
      ∙ h
]

-- While an upstream waits for its retry time, or has its probe out, an `exchange` sends nothing: it
-- is refused with the same result whatever HTTP would do, and leaves the retry state as it is.
pub exchange_sends_nothing :
    (env : Env) (other : Http) (query : Msg) (u : Upstream) (s : RuntimeState)
    → u.retry.backoff_step ≢ 0
    → (env.acquired_at < u.retry.retry_at) ⊎ (u.retry.probing ≡ true)
    → (exchange env query u s ≡ exchange (record env { http = other }) query u s)
      × ((exchange env query u s).2 ≡ err in_backoff)
      × ((exchange env query u s).0.retry ≡ u.retry)
exchange_sends_nothing env other query u s step busy =
    let out : (acquire env.acquired_at u.retry).2 ≡ false = unfold acquire in ground arith in
    let here = exchange_refused env query u s out in
    let there = exchange_refused (record env { http = other }) query u s out in
    (
      here ∙ unfold record_result in sym there,
      ap (λ x. x.2) here,
      ap (λ x. x.0.retry) here ∙ refused_unchanged env.acquired_at u.retry out,
    )
