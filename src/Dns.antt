-- ===== src/Dns.antt =====
-- The parts of a DNS message that GuardDNS reads (github.com/miekg/dns).
use guard_dns.Prelude.{ℕ, Bool, List}

-- `dns.TypeA` and `dns.TypeRRSIG`, and the return codes that the code names.
abbrev pub type_a : ℕ
type_a = 1

abbrev pub type_rrsig : ℕ
type_rrsig = 46

abbrev pub rcode_success : ℕ
rcode_success = 0

abbrev pub rcode_server_failure : ℕ
rcode_server_failure = 2

-- A resource record: its type, and its payload (the address of an A record).
pub record Record : Type 0 where
  pub rrtype : ℕ
  pub payload : ℕ

pub record Msg : Type 0 where
  pub id : ℕ
  pub response : Bool
  pub question : List ℕ
  pub rcode : ℕ
  pub answer : List Record
