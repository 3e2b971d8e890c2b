-- ===== src/Doh/Exchange.antt =====
-- `exchangeOnce`, `record` and `exchange` of cmd/guarddns/dohbridge.go. Packing, the HTTP client and
-- unpacking are outside: `Http` holds what they do to one request.
use mathlib.Core.Option
use guard_dns.Prelude.{
  ℕ, zero, suc, Bool, String, Option, none, some, List, [], ◌∷◌, ◌==◌, if◌then◌else◌, length,
  sub_time,
}
use guard_dns.Dns.{Msg}
use guard_dns.State.{
  RuntimeState, DohObservation, doh_success, doh_failure, doh_backoff_skip, observe_doh_upstream,
}
use guard_dns.Doh.{DohPermit, Retry, acquire, fail, succeed}
use guard_dns.Doh.Cache.{DialAddressCache, invalidate}

pub data ExchangeError : Type 0 where
  in_backoff pack_query create_request request_failed read_response decode_response : ExchangeError
  invalid_response : ExchangeError
  http_status : ℕ → ExchangeError

pub data Result (A : Type 0) : Type 0 where
  ok : A → Result A
  err : ExchangeError → Result A

-- The first error ends the chain: `if err != nil { return nil, err }`.
infixl 5 ◌>>=◌ ◌>>◌
abbrev pub ◌>>=◌ : {A B : Type 0} → Result A → (A → Result B) → Result B
◌>>=◌ (err why) next = err why
◌>>=◌ (ok value) next = next value

abbrev pub ◌>>◌ : {A B : Type 0} → Result A → Result B → Result B
◌>>◌ first second = first >>= (λ value. second)

-- A test whose failure is an error of its own.
abbrev check : ExchangeError → Bool → Result (Unit {0})
check why passed = if passed then ok tt else err why

abbrev pub or_error : {A : Type 0} → Option A → ExchangeError → Result A
or_error none e = err e
or_error (some a) e = ok a

-- `read`: the body, unless reading it fails.
pub record HttpResponse : Type 0 where
  pub status_code : ℕ
  pub read : Option (List ℕ)

-- `creates`: `http.NewRequestWithContext` accepts the URL. `post`: `client.Do`.
pub record Http : Type 0 where
  pub pack : Msg → Option (List ℕ)
  pub creates : Bool
  pub post : List ℕ → Option HttpResponse
  pub unpack : List ℕ → Option Msg

-- `dns.MaxMsgSize`, the limit of the reader.
abbrev pub max_msg_size : ℕ
max_msg_size = 65535

-- `io.LimitReader`.
unfoldable pub take {ℓ} : {A : Type ℓ} → ℕ → List A → List A
take zero xs = []
take (suc n) [] = []
take (suc n) (x ∷ xs) = x ∷ take n xs

unfoldable pub exchange_once : Http → Msg → Result Msg
exchange_once http query = do
  payload ← or_error (http.pack query) pack_query
  check create_request http.creates
  response ← or_error (http.post payload) request_failed
  check (http_status response.status_code) (response.status_code == 200)
  body ← or_error response.read read_response
  answer ← or_error (http.unpack (take max_msg_size body)) decode_response
  check invalid_response answer.response
  check invalid_response (length answer.question == length query.question)
  ok (record answer { id = query.id })

-- An upstream with what its closures capture: the tag under which `observe` counts, if it is
-- attached to the supervisor's state, and the address cache that `invalidateDialIPs` empties, if any.
pub record Upstream : Type 0 where
  pub tag : String
  pub attached : Bool
  pub retry : Retry
  pub cache : Option DialAddressCache

-- What one `exchange` meets: its readings of the clock in turn, the draw of the jitter, what dialing
-- does to the address cache meanwhile, and its HTTP request.
pub record Env : Type 0 where
  pub started_at : ℕ
  pub acquired_at : ℕ
  pub failed_at : ℕ
  pub measured_at : ℕ
  pub observed_at : ℕ
  pub draw : ℕ → ℕ
  pub dials : DialAddressCache → DialAddressCache
  pub http : Http

-- `record`: the observation, if the upstream is attached, with the retry time as it is now.
unfoldable pub record_result : Env → DohObservation → Upstream → RuntimeState → RuntimeState
record_result env result u s =
    let duration = sub_time env.measured_at env.started_at in
    if u.attached
    then observe_doh_upstream u.tag result duration u.retry.retry_at env.observed_at s
    else s

abbrev pub invalidated : Option DialAddressCache → Option DialAddressCache
invalidated none = none
invalidated (some c) = some (invalidate c)

-- The two ends of `exchange` after the request.
unfoldable pub conclude :
    Env → DohPermit → Result Msg → Upstream → RuntimeState → Upstream × RuntimeState × Result Msg
unfolding record_result
conclude env permit (ok answer) u s =
    let closed = record u { retry = succeed u.retry } in
    (closed, record_result env doh_success closed s, ok answer)
conclude env permit (err e) u s =
    let failed = record u {
      cache = invalidated u.cache;
      retry = fail env.draw env.failed_at permit u.retry;
    } in
    (failed, record_result env doh_failure failed s, err e)

unfoldable pub exchange : Env → Msg → Upstream → RuntimeState → Upstream × RuntimeState × Result Msg
unfolding exchange_once conclude record_result
exchange env query u s =
    let (retry, permit, allowed) = acquire env.acquired_at u.retry in
    let entered = record u { retry = retry } in
    let dialed = record entered { cache = Option.map env.dials u.cache } in
    if allowed
    then conclude env permit (exchange_once env.http query) dialed s
    else (entered, record_result env doh_backoff_skip entered s, err in_backoff)
