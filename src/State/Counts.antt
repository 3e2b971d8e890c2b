-- ===== src/State/Counts.antt =====
-- The counters of the DoH upstreams in cmd/guarddns/state.go add up.
use Prim.Native.String.{String}
use text.Mathlib.Text.{◌==◌ as str_eq}
use guard_dns.Prelude.{
  ℕ, ◌+◌, ◌≡◌, refl, inl, inr, Bool-cases, List, [], ◌∷◌, arith, lookup, lookup-insert, get_or_zero,
  wrap64,
}
use guard_dns.Wire.{Component, DohUpstream}
use guard_dns.State.{
  RuntimeState, new_runtime_state, update, DohObservation, zero_upstream, register_doh_upstream,
  observed, observe_doh_upstream,
}

-- Every request is counted once more, as a success, a failure or a skip, all modulo 2 ^ 64.
abbrev pub AddsUp : DohUpstream → Type 0
AddsUp u = wrap64 u.requests ≡ wrap64 (u.successes + u.failures + u.backoff_skips)

abbrev pub AllAddUp : RuntimeState → Type 0
AllAddUp s = (name : String) → AddsUp (get_or_zero zero_upstream (lookup name s.doh_upstreams))

pub data Change : Type 0 where
  updating : String → (Component → Component) → Change
  registering : String → Change
  observing : String → DohObservation → (duration retry_at now : ℕ) → Change

abbrev pub changed : RuntimeState → Change → RuntimeState
changed s (updating name fn) = update name fn s
changed s (registering name) = register_doh_upstream name s
changed s (observing name result duration retry_at now) =
    observe_doh_upstream name result duration retry_at now s

unfoldable pub changed_by : RuntimeState → List Change → RuntimeState
changed_by s [] = s
changed_by s (x ∷ xs) = changed_by (changed s x) xs

observed-AddsUp :
    (result : DohObservation) (duration retry_at now : ℕ) (u : DohUpstream)
    → AddsUp u
    → AddsUp (observed result duration retry_at now u)
unfolding observed
observed-AddsUp result duration retry_at now u h = ground arith

changed-AllAddUp : (s : RuntimeState) (x : Change) → AllAddUp s → AllAddUp (changed s x)
unfolding update register_doh_upstream observe_doh_upstream
changed-AllAddUp s (updating name fn) h k = h k
changed-AllAddUp s (registering name) h k =
    ground (arith, h k, lookup-insert name zero_upstream k s.doh_upstreams)
changed-AllAddUp s (observing name result duration retry_at now) h k =
    let old = get_or_zero zero_upstream (lookup name s.doh_upstreams) in
    elim (Bool-cases (str_eq name k)) [
      | inl same ↦
          rw (lookup-insert, same) (observed-AddsUp result duration retry_at now old (h name))
      | inr other ↦ rw (lookup-insert, other) (h k)
    ]

changed_by-AllAddUp :
    (s : RuntimeState) (xs : List Change) → AllAddUp s → AllAddUp (changed_by s xs)
unfolding changed_by
changed_by-AllAddUp s [] h = h
changed_by-AllAddUp s (x ∷ xs) h = changed_by-AllAddUp (changed s x) xs (changed-AllAddUp s x h)

-- In every state that the supervisor can reach, each upstream's requests are its successes, failures
-- and skips together, modulo 2 ^ 64.
pub reachable-AllAddUp : (xs : List Change) → AllAddUp (changed_by new_runtime_state xs)
reachable-AllAddUp xs =
    changed_by-AllAddUp new_runtime_state xs (unfold new_runtime_state lookup in λ name. refl)
