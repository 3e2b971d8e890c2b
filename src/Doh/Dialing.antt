-- ===== src/Doh/Dialing.antt =====
-- The dial addresses of a DoH upstream in cmd/guarddns/dohbridge.go: how long they are cached, when
-- they are dropped, and which one is dialed.
use guard_dns.Prelude.{
  ℕ, zero, suc, ◌+◌, ◌%◌, ◌≤◌, ◌<◌, ◌≡◌, refl, sym, ap, ◌∙◌, true, Option, none, some, List, [],
  ◌∷◌, arith, length, get_elem?, two_63,
}
use guard_dns.Dns.{Msg}
use guard_dns.State.{RuntimeState}
use guard_dns.Doh.{DohPermit, acquire}
use guard_dns.Doh.Cache.{
  DialAddressCache, Addresses, found, unresolved, dial, dial_address_ttl, get, invalidate,
  dial_context,
}
use guard_dns.Doh.Exchange.{
  ExchangeError, Result, ok, err, exchange_once, Upstream, Env, invalidated, conclude, exchange,
}
use guard_dns.Doh.Requests.{exchange_admitted, dialed}

get_empty :
    (asked resolved : ℕ) (answer : Addresses) (c : DialAddressCache)
    → c.addresses ≡ []
    → (get asked resolved answer c).1 ≡ answer
unfolding get
get_empty asked resolved (found a) c e = ground arith
get_empty asked resolved (unresolved x) c e = ground arith

invalidated_empty :
    (o : Option DialAddressCache) {c : DialAddressCache} → invalidated o ≡ some c → c.addresses ≡ []
unfolding invalidate
invalidated_empty none e = cc
invalidated_empty (some d) e = ground arith

failure_cache :
    (env : Env) (permit : DohPermit) (r : Result Msg) (u : Upstream) (s : RuntimeState)
    {e : ExchangeError}
    → (conclude env permit r u s).2 ≡ err e
    → (conclude env permit r u s).0.cache ≡ invalidated u.cache
unfolding conclude
failure_cache env permit (ok m) u s h = cc
failure_cache env permit (err x) u s h = refl

-- After a request that failed, the next dial asks the bootstrap server again, whatever addresses the
-- failed request had cached: stale ones are never dialed a second time.
pub failure_drops_addresses :
    (env : Env) (query : Msg) (u : Upstream) (s : RuntimeState) (c : DialAddressCache)
    (e : ExchangeError) (asked resolved : ℕ) (answer : Addresses)
    → (acquire env.acquired_at u.retry).2 ≡ true
    → (exchange env query u s).2 ≡ err e
    → (exchange env query u s).0.cache ≡ some c
    → (get asked resolved answer c).1 ≡ answer
failure_drops_addresses env query u s c e asked resolved answer adm failed kept =
    let whole = exchange_admitted env query u s adm in
    let permit = (acquire env.acquired_at u.retry).1 in
    let dropped =
      failure_cache env permit (exchange_once env.http query) (dialed env query u s) s
        (sym (ap (λ x. x.2) whole) ∙ failed) in
    get_empty asked resolved answer c (
      invalidated_empty (dialed env query u s).cache
        (sym dropped ∙ sym (ap (λ x. x.0.cache) whole) ∙ kept))

-- Addresses that a lookup brings at `resolved` serve every dial of the next minute, with no other
-- lookup; from then on a dial looks them up again.
pub get_for_a_minute :
    (asked resolved : ℕ) (a : ℕ) (rest : List ℕ) (c : DialAddressCache) (later : ℕ) (t : ℕ)
    (other : Addresses)
    → c.addresses ≡ []
    → let filled = get asked resolved (found (a ∷ rest)) c in
      (filled.1 ≡ found (a ∷ rest))
      × (later < resolved + dial_address_ttl
          → get later t other filled.0 ≡ (filled.0, found (a ∷ rest)))
      × (resolved + dial_address_ttl ≤ later → (get later t other filled.0).1 ≡ other)
unfolding get
get_for_a_minute asked resolved a rest c later t (found x) e = ground arith
get_for_a_minute asked resolved a rest c later t (unresolved x) e = ground arith

get_elem?-some : (xs : List ℕ) (i : ℕ) → i < length xs → (a : ℕ) × (get_elem? xs i ≡ some a)
get_elem?-some [] i h = absurd (omega arith)
get_elem?-some (x ∷ xs) zero h = (x, refl)
get_elem?-some (x ∷ xs) (suc i) h = get_elem?-some xs i (omega arith)

-- As long as fewer than 2 ^ 63 dials were made, a dial with an address at hand takes the one whose
-- index is the number of the earlier dials modulo their number, which is in range.
pub dial_in_turn :
    (next : ℕ) (ip : ℕ) (ips : List ℕ)
    → next < two_63
    → (a : ℕ) × (get_elem? (ip ∷ ips) (next % length (ip ∷ ips)) ≡ some a)
      × (dial_context next (found (ip ∷ ips)) ≡ (next + 1, dial a))
unfolding dial_context
dial_in_turn next ip ips h =
    let (a, e) = get_elem?-some (ip ∷ ips) (next % length (ip ∷ ips)) (omega arith) in
    (a, e, ground arith)
