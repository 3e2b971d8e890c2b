-- ===== src/Rules/Watch/Serving.antt =====
-- A rule file of internal/rulesplugin/rulesplugin.go from `newRuleFile` on, while it is watched.
use guard_dns.Prelude.{
  true-false, ℕ, ◌≡◌, refl, sym, ◌∙◌, inl, inr, Bool, true, false, ◌&&◌, Option, none, some, List,
  [], ◌∷◌, if◌then◌else◌,
}
use mathlib.Core.Path.{subst}
use guard_dns.Prelude.Text.{Text, is_empty}
use guard_dns.Rules.Reload.{RuleFile, Disk, Reloaded, new_file, reload}
use guard_dns.Rules.Reload.Consistent.{Agrees, Outcome, reload-Outcome}
use guard_dns.Rules.Watch.{
  Watch, Input, edited, fires, event, watcher_error, closed, timer_value, take, is_relevant,
  has_value, Opened, opened, no_file, not_loaded, start_watch, load_path, new_rule_file,
}

module _ {ℓ} {M : Type ℓ} (empty : M) (add load : M → Text → Option M) (includes : List Text)
    (lower : ℕ → ℕ) (compiles : Text → Bool) where
  abbrev run : Disk → RuleFile M → Reloaded M
  run = reload empty add load includes lower compiles

  abbrev Serves : RuleFile M → Type ℓ
  Serves = Agrees empty add load includes lower compiles

  unfoldable pub take_all : List Input → Watch M → Watch M
  unfolding take
  take_all [] w = w
  take_all (i ∷ is) w = take_all is (take run i w)

  Outcome-Serves :
      (r : RuleFile M) (x : Reloaded M)
      → Serves r
      → Outcome empty add load includes lower compiles r x
      → Serves x.state
  Outcome-Serves r x a (inl failed) = subst Serves (sym failed.1) a
  Outcome-Serves r x a (inr (succeeded, text, agrees)) = agrees

  reload-Serves : (d : Disk) (r : RuleFile M) → Serves r → Serves (run d r).state
  reload-Serves d r a =
      Outcome-Serves r (run d r) a
        (reload-Outcome empty add load includes lower compiles d r (inr a))

  choose-Serves :
      (b : Bool) (v w : Watch M) → Serves v.file → Serves w.file → Serves (if b then v else w).file
  choose-Serves true v w a c = a
  choose-Serves false v w a c = c

  take-Serves : (i : Input) (w : Watch M) → Serves w.file → Serves (take run i w).file
  unfolding take
  take-Serves (edited d now) w a = a
  take-Serves (fires now) w a = a
  take-Serves (event name ops now) w a =
      choose-Serves w.returned w _ a (choose-Serves (is_relevant w.path name ops) _ w a a)
  take-Serves (watcher_error now) w a = a
  take-Serves (closed now) w a = a
  take-Serves (timer_value now) w a =
      choose-Serves w.returned w _ a
        (choose-Serves (w.timer_c && has_value w.timer) _ w (reload-Serves w.disk w.file a) a)

  take_all-Serves : (is : List Input) (w : Watch M) → Serves w.file → Serves (take_all is w).file
  unfolding take_all
  take_all-Serves [] w a = a
  take_all-Serves (i ∷ is) w a = take_all-Serves is (take run i w) (take-Serves i w a)

  -- `watch` when it begins, with the rule file and the disk that `newRuleFile` leaves.
  abbrev pub begun_watch : Text → RuleFile M → Disk → Watch M
  begun_watch path r d = record {
    path = path;
    timer = none;
    timer_c = false;
    file = r;
    disk = d;
    returned = false;
  }

  -- What an opened rule file has.
  abbrev IsClean : RuleFile M → Disk → Type ℓ
  IsClean r d = (d.content ≡ some r.last_good) × Serves r

  abbrev OpensClean : Opened M → Type ℓ
  OpensClean (opened path r watching d) = IsClean r d
  OpensClean _ = Unit

  start_watch-OpensClean :
      (watch makes adds : Bool) (path : Text) (r : RuleFile M) (d : Disk)
      → IsClean r d
      → OpensClean (start_watch watch makes adds path r d)
  start_watch-OpensClean false makes adds path r d c = c
  start_watch-OpensClean true false adds path r d c = tt
  start_watch-OpensClean true true false path r d c = tt
  start_watch-OpensClean true true true path r d c = c

  Outcome-IsClean :
      (d : Disk) (x : Reloaded M)
      → x.ok ≡ true
      → Outcome empty add load includes lower compiles new_file x
      → IsClean x.state (record d { content = x.disk })
  Outcome-IsClean d x ok (inl (failed, same)) = elim (true-false (sym ok ∙ failed)) [ ]
  Outcome-IsClean d x ok (inr (succeeded, text, agrees)) = (text, agrees)

  choose-OpensClean :
      (b : Bool) (x y : Opened M)
      → (b ≡ true → OpensClean x)
      → OpensClean y
      → OpensClean (if b then x else y)
  choose-OpensClean true x y h k = h refl
  choose-OpensClean false x y h k = k

  load_path-OpensClean :
      (watch makes adds : Bool) (d : Disk) (o : Option Text)
      → OpensClean (load_path run watch makes adds d o)
  load_path-OpensClean watch makes adds d none = tt
  load_path-OpensClean watch makes adds d (some path) =
      let x = run d new_file in
      choose-OpensClean x.ok
        (start_watch watch makes adds path x.state (record d { content = x.disk })) not_loaded
        (λ ok.
          start_watch-OpensClean watch makes adds path x.state (record d { content = x.disk })
            (Outcome-IsClean d x ok
              (reload-Outcome empty add load includes lower compiles d new_file (inl refl))))
        tt

  new_rule_file-OpensClean :
      (abs : Text → Option Text) (watch makes adds : Bool) (d : Disk) (o : Option Text)
      → OpensClean (new_rule_file run abs watch makes adds d o)
  unfolding new_rule_file
  new_rule_file-OpensClean abs watch makes adds d none = tt
  new_rule_file-OpensClean abs watch makes adds d (some file) =
      choose-OpensClean (is_empty file) no_file (load_path run watch makes adds d (abs file))
        (λ h. tt) (load_path-OpensClean watch makes adds d (abs file))

  -- A rule file that newRuleFile opens, and after it whatever the operator does to the file and
  -- whatever events, errors, timers and reloads follow: the matcher in use is always the one that was
  -- built of the rules in normal form whose text is the last good one; and when it is opened, that is
  -- the text of the file.
  pub opened-Serves :
      (abs : Text → Option Text) (watch makes adds : Bool) (d e : Disk) (o : Option Text)
      (path : Text) (r : RuleFile M) (watching : Bool) (is : List Input)
      → new_rule_file run abs watch makes adds d o ≡ opened path r watching e
      → (e.content ≡ some r.last_good) × Serves (take_all is (begun_watch path r e)).file
  opened-Serves abs watch makes adds d e o path r watching is h =
      let clean = subst OpensClean h (new_rule_file-OpensClean abs watch makes adds d o) in
      (clean.0, take_all-Serves is (begun_watch path r e) clean.1)
