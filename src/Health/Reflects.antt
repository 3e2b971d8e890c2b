-- ===== src/Health/Reflects.antt =====
-- The health check of cmd/guarddns/healthcheck.go against the supervisor plugin that it asks, and
-- against the supervisor's state.
use mathlib.Core.Path.{subst}
use guard_dns.Prelude.{
  true-false, ℕ, ◌*◌, ◌+◌, ◌≤◌, ◌≡◌, refl, sym, ap, ◌∙◌, ◌↔◌, ◌⊎◌, Bool, true, false, not, ◌||◌,
  Option, none, some, List, [], ◌∷◌, ◌++◌, String, All, arith, lookup, second, ==_iff,
  if◌then◌else◌, ◌==◌, ltb_i64,
}
use guard_dns.Prelude.Text.{Text, is_space}
use guard_dns.Dns.{Msg, Record, type_a, rcode_success}
use guard_dns.Wire.{Snapshot}
use guard_dns.State.{new_runtime_state, unix_epoch, snapshot}
use guard_dns.State.Counts.{Change, changed_by}
use guard_dns.State.Frame.{KeepsEnabled}
use guard_dns.Supervisor.{
  HttpResponse, Plugin, Read, datagram, read_loop, is_down, live_status, ready_status, status_ok,
  status_service_unavailable, write_status, ready,
}
use guard_dns.Supervisor.Ready.{IsUp, IsDatagram, ready_reflects_state}
use guard_dns.Health.{
  Exchange, not_ready, failed, no_endpoint, unreadable, no_dns, no_response, no_a_record, returned,
  and_then, any_a, Health, answered, received, healthy, check_supervisor_health, check_secure_dns,
  run_healthcheck,
}

-- The check passes an answer of the plugin exactly where its code is 200.
abbrev IsPassed : ℕ × String → Type 0
IsPassed r =
    (check_supervisor_health (answered (write_status r) true) ≡ healthy) ↔ (r.0 ≡ status_ok)

choose-IsPassed :
    (b : Bool) (x y : ℕ × String) → IsPassed x → IsPassed y → IsPassed (if b then x else y)
choose-IsPassed true x y p q = p
choose-IsPassed false x y p q = q

not_ready-healthy : {n : ℕ} {t : Text} → not_ready n t ≡ healthy → ⊥
not_ready-healthy h = cc

-- An answer with another code is refused.
refused-IsPassed : (message : String) → IsPassed (status_service_unavailable, message)
unfolding check_supervisor_health write_status
refused-IsPassed message = (
  λ h. elim (not_ready-healthy h) [ ],
  λ h. elim (true-false (sym (ap (λ n. n == status_ok) h))) [ ],
)

live_status-IsPassed : (s : Snapshot) (age : ℕ) → IsPassed (live_status s age)
unfolding live_status check_supervisor_health write_status is_space
live_status-IsPassed s age =
    choose-IsPassed (s.timestamp == 0 || ltb_i64 (5 * second) age) _ _
      (refused-IsPassed "unhealthy: supervisor state is stale")
      (choose-IsPassed (is_down (lookup "mosdns" s.components)) _ _
        (refused-IsPassed "unhealthy: mosdns is restarting") (λ h. refl, λ h. refl))

ready_status-IsPassed : (s : Snapshot) (age : ℕ) → IsPassed (ready_status s age)
unfolding ready_status check_supervisor_health write_status is_space
ready_status-IsPassed s age =
    choose-IsPassed (not ((live_status s age).0 == status_ok)) _ _ (live_status-IsPassed s age) (
      choose-IsPassed (is_down (lookup "doh_bridge" s.components)) _ _
        (refused-IsPassed "unhealthy: encrypted DNS bridge is unavailable")
        (choose-IsPassed (is_down (lookup "unbound" s.components)) _ _ (λ h. refl, λ h. refl)
          (choose-IsPassed (is_down (lookup "unbound_recursive" s.components)) _ _
            (λ h. refl, λ h. refl) (λ h. refl, λ h. refl))))

abbrev pub HasA : List Record → Type 0
HasA [] = ⊥
HasA (r ∷ rs) = (r.rrtype ≡ type_a) ⊎ HasA rs

-- The answer to the query for an A record.
abbrev pub IsAnswered : Exchange → Type 0
IsAnswered dns = (m : Msg) × (dns ≡ received (some m)) × (m.rcode ≡ rcode_success) × HasA m.answer

and_then_iff : (a b : Health) → (and_then a b ≡ healthy) ↔ ((a ≡ healthy) × (b ≡ healthy))
and_then_iff healthy b = (λ h. (refl, h), λ h. h.1)
and_then_iff no_endpoint b = (λ h. cc, λ h. cc)
and_then_iff unreadable b = (λ h. cc, λ h. cc)
and_then_iff no_dns b = (λ h. cc, λ h. cc)
and_then_iff no_response b = (λ h. cc, λ h. cc)
and_then_iff no_a_record b = (λ h. cc, λ h. cc)
and_then_iff (not_ready n t) b = (λ h. cc, λ h. cc)
and_then_iff (returned n) b = (λ h. cc, λ h. cc)

any_a_iff : (rs : List Record) → (any_a rs ≡ true) ↔ HasA rs
any_a_iff [] = (λ h. cc, λ h. elim h [ ])
any_a_iff (r ∷ rs) = ground (arith, any_a_iff rs)

received-injective : {m n : Msg} → received (some m) ≡ received (some n) → m ≡ n
received-injective h = cc

secure_iff :
    (right has : Bool) (n : ℕ)
    → ((if not right then returned n else if has then healthy else no_a_record) ≡ healthy)
      ↔ ((right ≡ true) × (has ≡ true))
secure_iff true true n = (λ h. (refl, refl), λ h. refl)
secure_iff true false n = (λ h. cc, λ h. cc)
secure_iff false has n = (λ h. cc, λ h. cc)

check_secure_dns_iff : (dns : Exchange) → (check_secure_dns dns ≡ healthy) ↔ IsAnswered dns
unfolding check_secure_dns
check_secure_dns_iff failed = (λ h. cc, λ (m, e, r, a). cc)
check_secure_dns_iff (received none) = (λ h. cc, λ (m, e, r, a). cc)
check_secure_dns_iff (received (some m)) =
    let verdict = secure_iff (m.rcode == rcode_success) (any_a m.answer) m.rcode in
    let right = ==_iff m.rcode rcode_success in
    let has = any_a_iff m.answer in
    (
      λ h. (m, refl, right.0 (verdict.0 h).0, has.0 (verdict.0 h).1),
      λ (n, e, r, a). verdict.1 (
        right.1 (ap (λ k. k.rcode) (received-injective e) ∙ r),
        has.1 (subst (λ k. HasA k.answer) (sym (received-injective e)) a),
      ),
    )

ready-IsPassed : (now : ℕ) (p : Plugin) → IsPassed (ready now p)
unfolding ready
ready-IsPassed now p = ready_status-IsPassed p.snapshot _

module _ (decode : List ℕ → Option Snapshot) where
  -- What the readiness endpoint answers at `asked`, after the plugin has read the datagrams `earlier`
  -- and, at `received_at`, `bytes`.
  abbrev pub answer : (received_at asked : ℕ) → Plugin → List Read → List ℕ → HttpResponse
  answer received_at asked p earlier bytes =
      write_status (ready asked (read_loop decode p (earlier ++ datagram bytes received_at ∷ [])))

  -- In every state of the supervisor that its updates reach, and whatever the plugin has read before:
  -- if the last datagram decodes to the snapshot of that state, taken at least a second after 1970,
  -- and came in at most five seconds before the endpoint answered, the health check passes exactly
  -- where MosDNS and the DoH bridge are up in that state and the DNS query brings a successful
  -- response with an A record.
  pub healthcheck_reflects_state :
      (sent received_at asked : ℕ) (changes : List Change) (p : Plugin) (earlier : List Read)
      (bytes : List ℕ) (dns : Exchange)
      → decode bytes ≡ some (snapshot sent (changed_by new_runtime_state changes))
      → All KeepsEnabled changes
      → All IsDatagram earlier
      → unix_epoch + second ≤ sent
      → received_at ≤ asked
      → asked ≤ received_at + 5 * second
      → let s = changed_by new_runtime_state changes in
        (run_healthcheck (answered (answer received_at asked p earlier bytes) true) dns ≡ healthy)
        ↔ ((IsUp "mosdns" s × IsUp "doh_bridge" s) × IsAnswered dns)
  unfolding run_healthcheck
  healthcheck_reflects_state sent received_at asked changes p earlier bytes dns decoded keep ds t r
        a =
      let reached = read_loop decode p (earlier ++ datagram bytes received_at ∷ []) in
      let both =
        and_then_iff
          (check_supervisor_health (answered (answer received_at asked p earlier bytes) true))
          (check_secure_dns dns) in
      let passed = ready-IsPassed asked reached in
      let state =
        ready_reflects_state decode sent received_at asked changes p earlier bytes decoded keep ds t
          r a in
      let secure = check_secure_dns_iff dns in
      (
        λ h. (state.0 (passed.0 (both.0 h).0), secure.0 (both.0 h).1),
        λ h. both.1 (passed.1 (state.1 h.0), secure.1 h.1),
      )
