-- ===== src/Doh/Cache.antt =====
-- Dial addresses of cmd/guarddns/dohbridge.go: `dialAddressCache`, `resolveDoHAddresses`, and the
-- choice of an address in `DialContext`.
use guard_dns.Prelude.{
  ℕ, ◌+◌, ◌-◌, ◌%◌, not, ◌&&◌, Option, none, some, List, [], ◌∷◌, ltb, ◌==◌, if◌then◌else◌, length,
  get_elem?, wrap64, add_time, minute, two_63, two_64,
}
use guard_dns.Dns.{Msg, Record, type_a, rcode_success}

abbrev pub dial_address_ttl : ℕ
dial_address_ttl = minute

-- Addresses are numbers here; the code has their texts.
pub record DialAddressCache : Type 0 where
  pub addresses : List ℕ
  pub expires_at : ℕ

abbrev pub empty_cache : DialAddressCache
empty_cache = record { addresses = []; expires_at = 0 }

pub data ResolveError : Type 0 where
  exchange_failed no_ipv4 : ResolveError
  bad_rcode : ℕ → ResolveError

pub data Addresses : Type 0 where
  found : List ℕ → Addresses
  unresolved : ResolveError → Addresses

abbrev refill : ℕ → Addresses → DialAddressCache → DialAddressCache × Addresses
refill now (unresolved e) c = (c, unresolved e)
refill now (found addresses) c = (
  record c { addresses = addresses; expires_at = add_time now dial_address_ttl },
  found addresses,
)

-- `asked_at` and `resolved_at` are the clock before and after `resolve`.
unfoldable pub get :
    (asked_at resolved_at : ℕ) → Addresses → DialAddressCache → DialAddressCache × Addresses
get asked_at resolved_at resolved c =
    if ltb 0 (length c.addresses) && ltb asked_at c.expires_at
    then (c, found c.addresses)
    else refill resolved_at resolved c

unfoldable pub invalidate : DialAddressCache → DialAddressCache
invalidate c = record c { addresses = []; expires_at = 0 }

-- The addresses of the A records.
unfoldable pub ipv4_addresses : List Record → List ℕ
ipv4_addresses [] = []
ipv4_addresses (r ∷ rs) =
    let rest = ipv4_addresses rs in if r.rrtype == type_a then r.payload ∷ rest else rest

-- The reply of the bootstrap server, if there is one.
unfoldable pub resolve_doh_addresses : Option Msg → Addresses
unfolding ipv4_addresses
resolve_doh_addresses none = unresolved exchange_failed
resolve_doh_addresses (some m) =
    let addresses = ipv4_addresses m.answer in
    if not (m.rcode == rcode_success)
    then unresolved (bad_rcode m.rcode)
    else if length addresses == 0
    then unresolved no_ipv4
    else found addresses

pub data Dial : Type 0 where
  dial : ℕ → Dial
  not_resolved : ResolveError → Dial
  no_dial_address : Dial
  -- An index out of range: Go panics.
  panic : Dial

abbrev at_index : Option ℕ → Dial
at_index none = panic
at_index (some a) = dial a

-- `DialContext` up to its dialer: the counter, an atomic uint64, and the address dialed. The index
-- `int(next - 1) % len` is negative, and so out of range, once the counter has passed 2 ^ 63, unless
-- the length divides it.
unfoldable pub dial_context : ℕ → Addresses → ℕ × Dial
dial_context next (unresolved e) = (next, not_resolved e)
dial_context next (found ips) = if length ips == 0 then (next, no_dial_address) else (
  wrap64 (next + 1),
  at_index (
      if ltb next two_63
      then get_elem? ips (next % length ips)
      else if (two_64 - next) % length ips == 0
      then get_elem? ips 0
      else none),
)
