-- ===== src/Supervisor/Status.antt =====
-- The answers of the health endpoints of internal/supervisorplugin/plugin.go agree with each other.
use guard_dns.Prelude.{
  ℕ, ◌*◌, ◌≡◌, refl, ◌⊎◌, inl, inr, ◌||◌, String, Bool-cases, if◌then◌else◌, ◌==◌, ltb_i64, lookup,
  second,
}
use guard_dns.Wire.{Snapshot}
use guard_dns.Supervisor.{
  Plugin, is_down, live_status, ready_status, status_ok, status_service_unavailable, live, ready,
  status_word, dependencies,
}

-- What the three endpoints say of one snapshot: the codes of `/readyz` and `/livez`, and the status
-- in the report of `/dependencies`.
abbrev pub Agrees : Snapshot → (ready_code live_code : ℕ) → String → Type 0
Agrees s ready_code live_code word =
    let local_down =
      is_down (lookup "unbound" s.components)
      || is_down (lookup "unbound_recursive" s.components) in
    ((ready_code ≡ status_ok)
      × (live_code ≡ status_ok)
      × (word ≡ (if local_down then "degraded" else "ready")))
    ⊎ ((ready_code ≡ status_service_unavailable) × (word ≡ "unhealthy"))

status-Agrees :
    (s : Snapshot) (age : ℕ)
    → Agrees s (ready_status s age).0 (live_status s age).0 (status_word (ready_status s age).1)
unfolding ready_status status_word
status-Agrees s age = elim (Bool-cases (s.timestamp == 0 || ltb_i64 (5 * second) age)) [
  | inl stale ↦ rw (live_status, stale) (inr (refl, refl))
  | inr fresh ↦ elim (Bool-cases (is_down (lookup "mosdns" s.components))) [
    | inl restarting ↦ rw (live_status, fresh, restarting) (inr (refl, refl))
    | inr serving ↦ elim (Bool-cases (is_down (lookup "doh_bridge" s.components))) [
      | inl broken ↦ rw (live_status, fresh, serving, broken) (inr (refl, refl))
      | inr bridged ↦ elim (Bool-cases (is_down (lookup "unbound" s.components))) [
        | inl down ↦ rw (live_status, fresh, serving, bridged, down) (inl (refl, refl, refl))
        | inr up ↦ elim (Bool-cases (is_down (lookup "unbound_recursive" s.components))) [
          | inl down ↦ rw (live_status, fresh, serving, bridged, up, down) (inl (refl, refl, refl))
          | inr both ↦ rw (live_status, fresh, serving, bridged, up, both) (inl (refl, refl, refl))
        ]
      ]
    ]
  ]
]

-- `/readyz` answers 200 or 503. Where it answers 200, `/livez` answers 200 too, and the report is
-- "degraded" if an Unbound is down and "ready" if not; where it answers 503, it is "unhealthy".
pub ready-Agrees :
    (now : ℕ) (p : Plugin)
    → Agrees p.snapshot (ready now p).0 (live now p).0 (dependencies now p).status
unfolding ready live dependencies
ready-Agrees now p = status-Agrees p.snapshot _
