-- ===== src/Rules/Watch/History.antt =====
-- `watch` of internal/rulesplugin/rulesplugin.go with its history, over any inputs.
use guard_dns.Prelude.{
  ℕ, ◌+◌, ◌≤◌, ◌≡◌, refl, ◌⊎◌, inl, inr, Bool, true, false, not, ◌&&◌, Option, none, some, List, [],
  ◌∷◌, All, arith, if◌then◌else◌, Bool-cases,
}
use guard_dns.Prelude.Text.{Text}
use guard_dns.Rules.Reload.{RuleFile, Disk, Reloaded}
use guard_dns.Rules.Watch.Timing.{Fits, clock-Fits, fire-Fits, restart-Fits, drained-Fits}
use guard_dns.Rules.Watch.{
  Watch, Timer, Input, edited, fires, event, watcher_error, closed, timer_value, reload_debounce,
  is_relevant, has_value, drained, take,
}

abbrev pub time_of : Input → ℕ
time_of (edited d now) = now
time_of (fires now) = now
time_of (event name ops now) = now
time_of (watcher_error now) = now
time_of (closed now) = now
time_of (timer_value now) = now

module _ {ℓ} {M : Type ℓ} (reload : Disk → RuleFile M → Reloaded M) where
  -- The watcher with its history: the time of the last input, the last change of the file that it was
  -- told and did not reload since, and each reload, with the last change that it was told before.
  pub record Trace : Type ℓ where
    pub watch : Watch M
    pub clock : ℕ
    pub pending : Bool
    pub last_change : ℕ
    pub reloads : List (ℕ × ℕ)

  abbrev pub tells : Watch M → Input → Bool
  tells w (event name ops now) = not w.returned && is_relevant w.path name ops
  tells w i = false

  abbrev pub reloads_at : Watch M → Input → Bool
  reloads_at w (timer_value now) = not w.returned && w.timer_c && has_value w.timer
  reloads_at w i = false

  abbrev pub after : Input → Trace → Trace
  after i t = record {
    watch = take reload i t.watch;
    clock = time_of i;
    pending = if tells t.watch i then true else if reloads_at t.watch i then false else t.pending;
    last_change = if tells t.watch i then time_of i else t.last_change;
    reloads = if reloads_at t.watch i then (time_of i, t.last_change) ∷ t.reloads else t.reloads;
  }

  unfoldable pub after_all : List Input → Trace → Trace
  after_all [] t = t
  after_all (i ∷ is) t = after_all is (after i t)

  -- The clock does not go back.
  abbrev pub InTurn : ℕ → List Input → Type 0
  InTurn clock [] = Unit
  InTurn clock (i ∷ is) = (clock ≤ time_of i) × InTurn (time_of i) is

  -- The last change that was told and not reloaded since is on its way: the timer runs and is due when
  -- that change is 200 ms old, or it has fired and the value waits in its channel.
  abbrev pub IsComing : ℕ → Option Timer → Type 0
  IsComing last o =
      (x : Timer) × (o ≡ some x) × ((x.armed ≡ some (last + reload_debounce)) ⊎ (x.full ≡ true))

  abbrev pub AreSpaced : List (ℕ × ℕ) → Type 0
  AreSpaced = All (λ r. r.1 + reload_debounce ≤ r.0)

  abbrev pub IsDebounced : Trace → Type 0
  IsDebounced t =
      Fits t.last_change t.clock t.watch.timer_c t.watch.timer
      × (t.pending ≡ t.watch.timer_c)
      × AreSpaced t.reloads

  pub after-IsDebounced :
      (i : Input) (t : Trace) → t.clock ≤ time_of i → IsDebounced t → IsDebounced (after i t)
  unfolding take
  after-IsDebounced (edited d now) t h (f, p, s) =
      (clock-Fits t.last_change t.clock now t.watch.timer_c t.watch.timer h f, p, s)
  after-IsDebounced (fires now) t h (f, p, s) =
      (fire-Fits t.last_change t.clock now t.watch.timer_c t.watch.timer h f, p, s)
  after-IsDebounced (event name ops now) t h (f, p, s) =
      let w = t.watch in
      let same = clock-Fits t.last_change t.clock now w.timer_c w.timer h f in
      elim (Bool-cases w.returned) [
        | inl over ↦ rw over (same, p, s)
        | inr running ↦ elim (Bool-cases (is_relevant w.path name ops)) [
          | inl change ↦
              rw (running, change)
                (restart-Fits t.last_change t.clock now w.timer_c w.timer f, refl, s)
          | inr other ↦ rw (running, other) (same, p, s)
        ]
      ]
  after-IsDebounced (watcher_error now) t h (f, p, s) =
      (clock-Fits t.last_change t.clock now t.watch.timer_c t.watch.timer h f, p, s)
  after-IsDebounced (closed now) t h (f, p, s) =
      (clock-Fits t.last_change t.clock now t.watch.timer_c t.watch.timer h f, p, s)
  after-IsDebounced (timer_value now) t h (f, p, s) =
      let w = t.watch in
      let same = clock-Fits t.last_change t.clock now w.timer_c w.timer h f in
      elim (Bool-cases w.returned) [
        | inl over ↦ rw over (same, p, s)
        | inr running ↦ elim (Bool-cases (w.timer_c && has_value w.timer)) [
          | inl due ↦
              let (passed, drained) =
                drained-Fits t.last_change t.clock now w.timer_c w.timer due f in
              rw (running, due) (drained, refl, (omega (arith, passed, h), s))
          | inr nothing ↦ rw (running, nothing) (same, p, s)
        ]
      ]

  pub after_all-IsDebounced :
      (is : List Input) (t : Trace)
      → InTurn t.clock is
      → IsDebounced t
      → IsDebounced (after_all is t)
  unfolding after_all
  after_all-IsDebounced [] t h d = d
  after_all-IsDebounced (i ∷ is) t h d =
      after_all-IsDebounced is (after i t) h.1 (after-IsDebounced i t h.0 d)

  -- `watch` when it begins.
  abbrev pub begun : Text → RuleFile M → Disk → ℕ → Trace
  begun path file disk now = record {
    watch = record {
      path = path;
      timer = none;
      timer_c = false;
      file = file;
      disk = disk;
      returned = false;
    };
    clock = now;
    pending = false;
    last_change = 0;
    reloads = [];
  }
