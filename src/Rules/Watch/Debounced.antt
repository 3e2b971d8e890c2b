-- ===== src/Rules/Watch/Debounced.antt =====
-- The debouncing of `watch` in internal/rulesplugin/rulesplugin.go, over any inputs.
use mathlib.Core.Path.{subst}
use guard_dns.Prelude.{
  true-false, some_injective, ℕ, ◌+◌, ◌≤◌, ◌≡◌, refl, ◌⊎◌, inl, inr, Bool, true, false, ◌&&◌,
  Option, none, some, List, [], ◌∷◌, All, arith, leb, Bool-cases, ap, le→leb, sym, ◌∙◌,
}
use guard_dns.Prelude.Text.{Text}
use guard_dns.Rules.Reload.{RuleFile, Disk, Reloaded}
use guard_dns.Rules.Watch.Timing.{FitsAt, Fits, drained-Fits, timer_injective, if_full, kept_full}
use guard_dns.Rules.Watch.History.{
  time_of, Trace, reloads_at, after, after_all, InTurn, IsComing, IsDebounced, after-IsDebounced,
  after_all-IsDebounced, begun,
}
use guard_dns.Rules.Watch.{
  Timer, Input, edited, fires, event, watcher_error, closed, timer_value, reload_debounce,
  is_relevant, fire, fire_at, has_value, drained, take,
}

abbrev on_disk : Input → Disk → Disk
on_disk (edited d now) old = d
on_disk _ old = old

module _ {ℓ} {M : Type ℓ} (reload : Disk → RuleFile M → Reloaded M) where
  -- What the watcher does with an input: it reloads the file, as the disk is, when the last change
  -- that it was told of is at least 200 ms old, or it leaves the rule file alone, and the disk as the
  -- operator leaves it.
  abbrev pub Step : Input → Trace reload → Type ℓ
  Step i t =
      let w = t.watch in
      let w' = take reload i w in
      let x = reload w.disk w.file in
      ((reloads_at reload w i ≡ true)
        × (t.last_change + reload_debounce ≤ time_of i)
        × (w'.file ≡ x.state)
        × (w'.disk ≡ record w.disk { content = x.disk }))
      ⊎ ((reloads_at reload w i ≡ false) × (w'.file ≡ w.file) × (w'.disk ≡ on_disk i w.disk))

  abbrev pub Steps : List Input → Trace reload → Type ℓ
  Steps [] t = Unit
  Steps (i ∷ is) t = Step i t × Steps is (after reload i t)

  takes-Step :
      (i : Input) (t : Trace reload) → t.clock ≤ time_of i → IsDebounced reload t → Step i t
  unfolding take
  takes-Step (edited d now) t h k = inr (refl, refl, refl)
  takes-Step (fires now) t h k = inr (refl, refl, refl)
  takes-Step (event name ops now) t h k = elim (Bool-cases t.watch.returned) [
    | inl over ↦ rw over (inr (refl, refl, refl))
    | inr running ↦ elim (Bool-cases (is_relevant t.watch.path name ops)) [
      | inl change ↦ rw (running, change) (inr (refl, refl, refl))
      | inr other ↦ rw (running, other) (inr (refl, refl, refl))
    ]
  ]
  takes-Step (watcher_error now) t h k = inr (refl, refl, refl)
  takes-Step (closed now) t h k = inr (refl, refl, refl)
  takes-Step (timer_value now) t h (f, p, s) =
      let w = t.watch in
      elim (Bool-cases w.returned) [
        | inl over ↦ rw over (inr (refl, refl, refl))
        | inr running ↦ elim (Bool-cases (w.timer_c && has_value w.timer)) [
          | inl due ↦
              let (passed, drained) =
                drained-Fits t.last_change t.clock now w.timer_c w.timer due f in
              rw (running, due) (inl (refl, omega (arith, passed, h), refl, refl))
          | inr nothing ↦ rw (running, nothing) (inr (refl, refl, refl))
        ]
      ]

  take-Steps :
      (is : List Input) (t : Trace reload)
      → InTurn reload t.clock is
      → IsDebounced reload t
      → Steps is t
  take-Steps [] t h k = tt
  take-Steps (i ∷ is) t h k = (
    takes-Step i t h.0 k,
    take-Steps is (after reload i t) h.1 (after-IsDebounced reload i t h.0 k),
  )

  coming_at :
      (last clock : ℕ) (armed : Option ℕ) (full : Bool)
      → FitsAt last clock true armed full
      → (armed ≡ some (last + reload_debounce)) ⊎ (full ≡ true)
  coming_at last clock none true f = inr refl
  coming_at last clock none false f = elim (true-false f) [ ]
  coming_at last clock (some due) full f = inl (ap (λ d. some d) f.0)

  coming :
      (last clock : ℕ) (watched : Bool) (o : Option Timer)
      → Fits last clock watched o
      → (watched ≡ false) ⊎ IsComing reload last o
  coming last clock false o f = inl refl
  coming last clock true none f = elim (true-false f) [ ]
  coming last clock true (some x) f = inr (x, refl, coming_at last clock x.armed x.full f)

  -- Over any inputs, with a clock that does not go back: at each input the watcher either reloads the
  -- file, with the disk as it is then, and only when the last change that it was told of is at least
  -- 200 ms old, or it leaves the rule file alone, and the disk as the operator leaves it. No change is
  -- lost: where the watcher was told of one and has not reloaded the file since, the timer is due when
  -- the last of them is 200 ms old, or has fired and its value waits.
  pub debounced :
      (path : Text) (file : RuleFile M) (disk : Disk) (now : ℕ) (is : List Input)
      → InTurn reload now is
      → let t = after_all reload is (begun reload path file disk now) in
        Steps is (begun reload path file disk now)
        × All (λ r. r.1 + reload_debounce ≤ r.0) t.reloads
        × ((t.pending ≡ false) ⊎ IsComing reload t.last_change t.watch.timer)
  debounced path file disk now is h =
      let t = after_all reload is (begun reload path file disk now) in
      let (f, p, s) =
        after_all-IsDebounced reload is (begun reload path file disk now) h (refl, refl, tt) in
      (
        take-Steps is (begun reload path file disk now) h (refl, refl, tt),
        s,
        elim (coming t.last_change t.clock t.watch.timer_c t.watch.timer f) [
          | inl unwatched ↦ inl (p ∙ unwatched)
          | inr due ↦ inr due
        ],
      )

  -- A running timer that is due fires, and one that has fired keeps its value.
  ready_at :
      (last now : ℕ) (armed : Option ℕ) (full : Bool)
      → last + reload_debounce ≤ now
      → (armed ≡ some (last + reload_debounce)) ⊎ (full ≡ true)
      → (fire_at now armed (record { armed = armed; full = full })).full ≡ true
  ready_at last now none full h (inl e) = cc
  ready_at last now none full h (inr e) = e
  ready_at last now (some due) full h (inl e) =
      if_full (leb due now) full due (le→leb due now (omega (arith, h, some_injective e)))
  ready_at last now (some due) full h (inr e) =
      kept_full (leb due now) (record { armed = some due; full = full }) e

  ready :
      (last now : ℕ) (o : Option Timer)
      → last + reload_debounce ≤ now
      → IsComing reload last o
      → has_value (fire now o) ≡ true
  ready last now none h (x, e, c) = cc
  ready last now (some y) h (x, e, c) = ready_at last now y.armed y.full h (
      subst (λ z. (z.armed ≡ some (last + reload_debounce)) ⊎ (z.full ≡ true))
        (sym (timer_injective e)) c)

  -- A change that the watcher was told of is followed by a reload: while it runs, and whatever came
  -- before, if no input comes until that change is 200 ms old, the timer fires, and the file is then
  -- reloaded once, as the disk is at that time; after that no change is pending.
  pub change_reloads :
      (path : Text) (file : RuleFile M) (disk : Disk) (now later : ℕ) (is : List Input)
      → InTurn reload now is
      → (after_all reload is (begun reload path file disk now)).pending ≡ true
      → (after_all reload is (begun reload path file disk now)).watch.returned ≡ false
      → (after_all reload is (begun reload path file disk now)).last_change + reload_debounce
        ≤ later
      → let t = after_all reload is (begun reload path file disk now) in
        let u = after reload (timer_value later) (after reload (fires later) t) in
        (u.watch.file ≡ (reload t.watch.disk t.watch.file).state)
        × (u.reloads ≡ (later, t.last_change) ∷ t.reloads)
        × (u.pending ≡ false)
  unfolding take
  change_reloads path file disk now later is h told running old =
      let t = after_all reload is (begun reload path file disk now) in
      let (f, p, s) =
        after_all-IsDebounced reload is (begun reload path file disk now) h (refl, refl, tt) in
      let watched : t.watch.timer_c ≡ true = sym p ∙ told in
      let full : has_value (fire later t.watch.timer) ≡ true =
        elim (coming t.last_change t.clock t.watch.timer_c t.watch.timer f) [
          | inl unwatched ↦ elim (true-false (sym watched ∙ unwatched)) [ ]
          | inr due ↦ ready t.last_change later t.watch.timer old due
        ] in
      rw (running, watched, full) (refl, refl, refl)
