-- ===== src/Rules/Watch.antt =====
-- `newRuleFile`, `watch`, `Match` and `Close` of internal/rulesplugin/rulesplugin.go: when the watcher
-- reloads the file. `reload` stands for the reload of the module Rules/Reload; the events of fsnotify,
-- the clock, and the choice of the `select` are inputs.
pub mod Timing
pub mod History
pub mod Debounced
pub mod Serving
pub mod Tests
use guard_dns.Prelude.{
  ℕ, ◌+◌, ◌*◌, Bool, true, false, not, ◌&&◌, ◌||◌, Option, none, some, List, [], ◌∷◌, leb,
  millisecond, if◌then◌else◌, is_some,
}
use guard_dns.Prelude.Text.{Text, text_eq, is_empty}
use guard_dns.Rules.Reload.{RuleFile, Disk, Reloaded, new_file}

abbrev pub reload_debounce : ℕ
reload_debounce = 200 * millisecond

-- What an event of fsnotify says that was done.
pub data Op : Type 0 where
  create write remove rename chmod : Op

-- A `time.Timer`: when it is to fire, if it is active, and whether its channel holds a value.
pub record Timer : Type 0 where
  pub armed : Option ℕ
  pub full : Bool

-- The variables of `watch` (`timer`, and whether `timerC` is its channel), the rule file with its path,
-- the disk, and whether `watch` has returned.
pub record Watch {ℓ} (M : Type ℓ) : Type ℓ where
  pub path : Text
  pub timer : Option Timer
  pub timer_c : Bool
  pub file : RuleFile M
  pub disk : Disk
  pub returned : Bool

-- What comes next, at which time: the operator changes the disk, the timer fires, or the `select`
-- takes an event (with the name that `filepath.Clean` gives), an error of the watcher, the end of
-- either channel or of `done`, or the value in the channel of the timer.
pub data Input : Type 0 where
  edited : Disk → ℕ → Input
  fires : ℕ → Input
  event : (name : Text) → List Op → ℕ → Input
  watcher_error : ℕ → Input
  closed : ℕ → Input
  timer_value : ℕ → Input

abbrev pub is_change : Op → Bool
is_change create = true
is_change write = true
is_change remove = true
is_change rename = true
is_change chmod = false

abbrev pub any_change : List Op → Bool
any_change [] = false
any_change (o ∷ os) = is_change o || any_change os

abbrev pub is_relevant : Text → Text → List Op → Bool
is_relevant path name ops = text_eq name path && any_change ops

-- The runtime's part: an active timer that is due puts its value into the channel.
abbrev pub fire_at : ℕ → Option ℕ → Timer → Timer
fire_at now none t = t
fire_at now (some due) t = if leb due now then record { armed = none; full = true } else t

abbrev pub fire : ℕ → Option Timer → Option Timer
fire now none = none
fire now (some t) = some (fire_at now t.armed t)

-- `timer.Stop`, and the receive from the channel where it answers false.
abbrev pub stop : Timer → Timer
stop t = record { armed = none; full = if is_some t.armed then t.full else false }

-- `timer.Reset`.
abbrev pub reset : ℕ → Timer → Timer
reset due t = record t { armed = some due }

abbrev pub restart : ℕ → Option Timer → Timer
restart due none = record { armed = some due; full = false }
restart due (some t) = reset due (stop t)

abbrev pub has_value : Option Timer → Bool
has_value none = false
has_value (some t) = t.full

abbrev pub drained : Option Timer → Option Timer
drained none = none
drained (some t) = some (record t { full = false })

module _ {ℓ} {M : Type ℓ} (reload : Disk → RuleFile M → Reloaded M) where
  abbrev pub reloaded : Reloaded M → Watch M → Watch M
  reloaded x w = record w { file = x.state; disk = record w.disk { content = x.disk } }

  abbrev pub on_event : Text → List Op → ℕ → Watch M → Watch M
  on_event name ops now w =
      if is_relevant w.path name ops
      then record w { timer = some (restart (now + reload_debounce) w.timer); timer_c = true }
      else w

  -- The receive is possible only where the channel is watched and holds a value.
  abbrev pub on_timer : Watch M → Watch M
  on_timer w =
      if w.timer_c && has_value w.timer
      then reloaded (reload w.disk w.file) (record w { timer = drained w.timer; timer_c = false })
      else w

  abbrev pub while_running : (Watch M → Watch M) → Watch M → Watch M
  while_running f w = if w.returned then w else f w

  unfoldable pub take : Input → Watch M → Watch M
  take (edited d now) w = record w { disk = d }
  take (fires now) w = record w { timer = fire now w.timer }
  take (event name ops now) w = while_running (on_event name ops now) w
  take (watcher_error now) w = w
  take (closed now) w = record w { returned = true }
  take (timer_value now) w = while_running on_timer w

abbrev match_with {ℓ} : {M : Type ℓ} → (M → Text → Bool) → Text → Option M → Bool
match_with match name none = false
match_with match name (some m) = match m name

-- `Match`: what the matcher says, if there is one.
abbrev pub matches {ℓ} : {M : Type ℓ} → (M → Text → Bool) → Text → RuleFile M → Bool
matches match name r = match_with match name r.matcher

-- What `newRuleFile` returns, and the disk that it leaves.
pub data Opened {ℓ} (M : Type ℓ) : Type ℓ where
  opened : (path : Text) → RuleFile M → (watching : Bool) → Disk → Opened M
  no_file no_path not_loaded no_watcher not_watched : Opened M

-- The part behind the first reload: the watcher is made, and the directory added to it.
abbrev start_watch {ℓ} :
    {M : Type ℓ} → (watch makes adds : Bool) → Text → RuleFile M → Disk → Opened M
start_watch false makes adds path r d = opened path r false d
start_watch true false adds path r d = no_watcher
start_watch true true false path r d = not_watched
start_watch true true true path r d = opened path r true d

abbrev load_path {ℓ} :
    {M : Type ℓ}
    → (Disk → RuleFile M → Reloaded M)
    → (watch makes adds : Bool) → Disk
    → Option Text
    → Opened M
load_path reload watch makes adds d none = no_path
load_path reload watch makes adds d (some path) =
    let x = reload d new_file in
    if x.ok
    then start_watch watch makes adds path x.state (record d { content = x.disk })
    else not_loaded

-- `abs` stands for `filepath.Abs`.
unfoldable pub new_rule_file {ℓ} :
    {M : Type ℓ}
    → (Disk → RuleFile M → Reloaded M)
    → (abs : Text → Option Text) → (watch makes adds : Bool) → Disk
    → Option Text
    → Opened M
new_rule_file reload abs watch makes adds d none = no_file
new_rule_file reload abs watch makes adds d (some file) =
    if is_empty file then no_file else load_path reload watch makes adds d (abs file)
