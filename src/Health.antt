-- ===== src/Health.antt =====
-- The health check of cmd/guarddns/healthcheck.go. The HTTP client and the DNS client are outside: what
-- they bring is an argument.
pub mod Tests
pub mod Reflects
use guard_dns.Prelude.{
  ℕ, zero, suc, ◌+◌, ◌-◌, ◌/◌, ◌%◌, Bool, true, false, not, ◌&&◌, ◌||◌, Option, none, some, List,
  [], ◌∷◌, ◌++◌, map, ltb, leb, ◌==◌, if◌then◌else◌,
}
use guard_dns.Prelude.Text.{Text, codes, rune_len, trim_space}
use guard_dns.Prelude.Search.{has_prefix}
use guard_dns.Dns.{Msg, Record, type_a, rcode_success}
use guard_dns.Supervisor.{HttpResponse, status_ok}

-- What `client.Get` brings: an answer, of which the body can be read or not.
pub data Get : Type 0 where
  no_answer : Get
  answered : HttpResponse → (readable : Bool) → Get

-- What `Exchange` brings for the query of an A record.
pub data Exchange : Type 0 where
  failed : Exchange
  received : Option Msg → Exchange

pub data Health : Type 0 where
  healthy : Health
  no_endpoint unreadable no_dns no_response no_a_record : Health
  not_ready : ℕ → Text → Health
  returned : ℕ → Health

-- The bytes of a rune, and of a byte that is none.
abbrev pub utf8 : ℕ → List ℕ
utf8 c =
    if ltb c 0x80
    then c ∷ []
    else if ltb c 0x800
    then (0xC0 + c / 64) ∷ (0x80 + c % 64) ∷ []
    else if ltb c 0x10000
    then (0xE0 + c / 4096) ∷ (0x80 + c / 64 % 64) ∷ (0x80 + c % 64) ∷ []
    else if ltb c 0x110000
    then (0xF0 + c / 262144) ∷ (0x80 + c / 4096 % 64) ∷ (0x80 + c / 64 % 64) ∷ (0x80 + c % 64) ∷ []
    else (c - 0x110000) ∷ []

abbrev take {ℓ} : {A : Type ℓ} → ℕ → List A → List A
take zero xs = []
take (suc n) [] = []
take (suc n) (x ∷ xs) = x ∷ take n xs

-- `io.LimitReader`: the first bytes. Those of a rune that is cut are none.
abbrev pub limit_reader : Text → ℕ → Text
limit_reader [] n = []
limit_reader (c ∷ cs) n =
    let rest = limit_reader cs (n - rune_len c) in
    if leb (rune_len c) n then c ∷ rest else map (λ b. 0x110000 + b) (take n (utf8 c))

abbrev starts_well : Text → Bool
starts_well status = has_prefix (codes "ok") status || has_prefix (codes "degraded") status

unfoldable pub check_supervisor_health : Get → Health
unfolding trim_space
check_supervisor_health no_answer = no_endpoint
check_supervisor_health (answered response false) = unreadable
check_supervisor_health (answered response true) =
    let status = trim_space (limit_reader response.body 256) in
    if not (response.status_code == status_ok) || not (starts_well status)
    then not_ready response.status_code status
    else healthy

abbrev any_a : List Record → Bool
any_a [] = false
any_a (r ∷ rs) = r.rrtype == type_a || any_a rs

unfoldable pub check_secure_dns : Exchange → Health
check_secure_dns failed = no_dns
check_secure_dns (received none) = no_response
check_secure_dns (received (some m)) =
    if not (m.rcode == rcode_success)
    then returned m.rcode
    else if any_a m.answer
    then healthy
    else no_a_record

abbrev and_then : Health → Health → Health
and_then healthy later = later
and_then first later = first

unfoldable pub run_healthcheck : Get → Exchange → Health
unfolding check_supervisor_health check_secure_dns
run_healthcheck supervisor dns =
    and_then (check_supervisor_health supervisor) (check_secure_dns dns)
