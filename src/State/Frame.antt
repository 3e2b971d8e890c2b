-- ===== src/State/Frame.antt =====
-- The components of cmd/guarddns/state.go: the four that `newRuntimeState` lists stay listed and
-- enabled, since none of the supervisor's updates writes `Enabled`.
use text.Mathlib.Text.{◌==◌ as str_eq}
use text.Mathlib.TextEquality.{eq_iff}
use guard_dns.Prelude.{
  ◌≡◌, refl, ap, ◌∙◌, inl, inr, Bool-cases, true, String, List, [], ◌∷◌, some, All, arith, lookup,
  lookup-insert,
}
use guard_dns.Wire.{Component}
use guard_dns.State.{
  RuntimeState, enabled_component, new_runtime_state, update, register_doh_upstream,
  observe_doh_upstream,
}
use guard_dns.State.Counts.{Change, updating, registering, observing, changed, changed_by}

-- The change keeps the `Enabled` flag of the component that it writes, if any.
abbrev pub KeepsEnabled : Change → Type 0
KeepsEnabled (updating name fn) = (c : Component) → (fn c).enabled ≡ c.enabled
KeepsEnabled _ = Unit

abbrev pub IsEnabled : String → RuntimeState → Type 0
IsEnabled name s = (c : Component) × (lookup name s.components ≡ some c) × (c.enabled ≡ true)

update-IsEnabled :
    (k name : String) (fn : Component → Component) (s : RuntimeState)
    → ((c : Component) → (fn c).enabled ≡ c.enabled)
    → IsEnabled k s
    → IsEnabled k (update name fn s)
unfolding update
update-IsEnabled k name fn s keep (c, e, on) = elim (Bool-cases (str_eq name k)) [
  | inl same ↦
      let e' : lookup name s.components ≡ some c =
        ap (λ t. lookup t s.components) ((eq_iff name k).0 same) ∙ e in
      (fn c, rw (lookup-insert, same, e'), keep c ∙ on)
  | inr other ↦ (c, rw (lookup-insert, other) e, on)
]

changed-IsEnabled :
    (k : String) (s : RuntimeState) (x : Change)
    → KeepsEnabled x
    → IsEnabled k s
    → IsEnabled k (changed s x)
unfolding register_doh_upstream observe_doh_upstream
changed-IsEnabled k s (updating name fn) keep h = update-IsEnabled k name fn s keep h
changed-IsEnabled k s (registering name) keep h = ground (arith, h)
changed-IsEnabled k s (observing name result duration retry_at now) keep h = h

changed_by-IsEnabled :
    (k : String) (s : RuntimeState) (xs : List Change)
    → All KeepsEnabled xs
    → IsEnabled k s
    → IsEnabled k (changed_by s xs)
unfolding changed_by
changed_by-IsEnabled k s [] keep h = h
changed_by-IsEnabled k s (x ∷ xs) (keep, keeps) h =
    changed_by-IsEnabled k (changed s x) xs keeps (changed-IsEnabled k s x keep h)

-- After any changes that keep the `Enabled` flags, all four components are listed and enabled.
pub reachable-IsEnabled :
    (xs : List Change)
    → All KeepsEnabled xs
    → let s = changed_by new_runtime_state xs in
      IsEnabled "doh_bridge" s
      × IsEnabled "mosdns" s
      × IsEnabled "unbound" s
      × IsEnabled "unbound_recursive" s
unfolding new_runtime_state lookup
reachable-IsEnabled xs keeps =
    let from = λ (k : String). changed_by-IsEnabled k new_runtime_state xs keeps in
    (
      from "doh_bridge" (enabled_component, refl, refl),
      from "mosdns" (enabled_component, refl, refl),
      from "unbound" (enabled_component, refl, refl),
      from "unbound_recursive" (enabled_component, refl, refl),
    )
