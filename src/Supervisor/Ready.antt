-- ===== src/Supervisor/Ready.antt =====
-- From the supervisor's state (cmd/guarddns/state.go) through its snapshot to the readiness endpoint
-- of internal/supervisorplugin/plugin.go.
use guard_dns.Prelude.{
  ℕ, ◌+◌, ◌*◌, ◌≤◌, ◌<◌, ◌≡◌, sym, ap, ◌∙◌, ◌↔◌, true, false, String, List, [], ◌∷◌, ◌++◌, Option,
  some, arith, All, lookup, second, sub_time,
}
use guard_dns.Wire.{Component, Snapshot}
use guard_dns.State.{RuntimeState, new_runtime_state, unix_epoch, snapshot}
use guard_dns.State.Counts.{Change, changed_by}
use guard_dns.State.Frame.{KeepsEnabled, IsEnabled, reachable-IsEnabled}
use guard_dns.Supervisor.{
  Plugin, Read, datagram, failed, store, read_loop, is_down, ready_status, status_ok, ready,
}

abbrev pub IsUp : String → RuntimeState → Type 0
IsUp name s = (c : Component) × (lookup name s.components ≡ some c) × (c.up ≡ true)

IsUp-iff :
    (name : String) (s : RuntimeState)
    → IsEnabled name s
    → (is_down (lookup name s.components) ≡ false) ↔ IsUp name s
IsUp-iff name s (c, e, on) = (λ h. (c, e, ground arith), λ (d, e', u). ground arith)

ready_status_iff :
    (s : Snapshot) (age : ℕ)
    → 0 < s.timestamp
    → age ≤ 5 * second
    → ((ready_status s age).0 ≡ status_ok) ↔ (
        (is_down (lookup "mosdns" s.components) ≡ false)
        × (is_down (lookup "doh_bridge" s.components) ≡ false))
unfolding ready_status
ready_status_iff s age t a = ground arith

-- Reads that are all datagrams: the socket did not fail.
abbrev pub IsDatagram : Read → Type 0
IsDatagram (datagram bytes now) = Unit
IsDatagram failed = ⊥

module _ (decode : List ℕ → Option Snapshot) where
  -- The datagram `bytes` is the last that the plugin reads, at `received`, before the readiness
  -- endpoint is asked at `asked`.
  abbrev pub reply : (received asked : ℕ) → Plugin → List Read → List ℕ → ℕ
  reply received asked p earlier bytes =
      (ready asked (read_loop decode p (earlier ++ datagram bytes received ∷ []))).0

  read_last :
      (p : Plugin) (earlier : List Read) (bytes : List ℕ) (now : ℕ) {s : Snapshot}
      → All IsDatagram earlier
      → decode bytes ≡ some s
      → read_loop decode p (earlier ++ datagram bytes now ∷ [])
        ≡ record { snapshot = s; received_at = now }
  unfolding read_loop
  read_last p [] bytes now d e = rw e
  read_last p (datagram b t ∷ earlier) bytes now (d, ds) e =
      read_last (store (decode b) t p) earlier bytes now ds e
  read_last p (failed ∷ earlier) bytes now (d, ds) e = elim d [ ]

  -- In every state of the supervisor that its updates reach, whatever was read before: if the last
  -- datagram decodes to the snapshot of that state, taken at least a second after 1970, and came in
  -- at most five seconds before, the readiness endpoint answers 200 exactly when MosDNS and the DoH
  -- bridge are up in that state.
  pub ready_reflects_state :
      (sent received asked : ℕ) (changes : List Change) (p : Plugin) (earlier : List Read)
      (bytes : List ℕ)
      → decode bytes ≡ some (snapshot sent (changed_by new_runtime_state changes))
      → All KeepsEnabled changes
      → All IsDatagram earlier
      → unix_epoch + second ≤ sent
      → received ≤ asked
      → asked ≤ received + 5 * second
      → let s = changed_by new_runtime_state changes in
        (reply received asked p earlier bytes ≡ status_ok) ↔ (IsUp "mosdns" s × IsUp "doh_bridge" s)
  unfolding ready snapshot
  ready_reflects_state sent received asked changes p earlier bytes decoded keep ds t r a =
      let s = changed_by new_runtime_state changes in
      let (bridge, mosdns, unbound, recursive) = reachable-IsEnabled changes keep in
      let status =
        ready_status_iff (snapshot sent s) (sub_time asked received) (omega arith) (ground arith) in
      let live = IsUp-iff "mosdns" s mosdns in
      let bridged = IsUp-iff "doh_bridge" s bridge in
      let same = ap (λ q. (ready asked q).0) (read_last p earlier bytes received ds decoded) in
      (
        λ h. (let r = status.0 (sym same ∙ h) in (live.0 r.0, bridged.0 r.1)),
        λ h. same ∙ status.1 (live.1 h.0, bridged.1 h.1),
      )
