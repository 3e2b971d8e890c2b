-- ===== src/Rules/Watch/Tests.antt =====
-- A watched rule file that is changed twice within the debouncing time.
use guard_dns.Prelude.{
  ℕ, ◌+◌, ◌*◌, ◌≤◌, ◌≡◌, refl, ◌⊎◌, Bool, true, false, Option, some, List, [], ◌∷◌, All, arith,
  millisecond,
}
use guard_dns.Prelude.Text.{Text, codes, split, cut, trim_space, trim_suffix, is_space}
use guard_dns.Rules.{sanitize_rules}
use guard_dns.Rules.Reload.{RuleFile, Reloaded, Disk, adopted, new_file, reload, build_matcher}
use guard_dns.Rules.Watch.{
  Input, opened, create, write, chmod, fires, event, timer_value, take, reload_debounce,
  new_rule_file,
}
use guard_dns.Rules.Watch.History.{Trace, after, after_all, begun, IsComing}
use guard_dns.Rules.Watch.Debounced.{Steps, debounced, change_reloads}
use guard_dns.Rules.Watch.Serving.{take_all, begun_watch, opened-Serves}
use guard_dns.Rules.Reload.Consistent.{Agrees}

abbrev same : ℕ → ℕ
same c = c

abbrev any_pattern : Text → Bool
any_pattern t = true

abbrev add_rule : List Text → Text → Option (List Text)
add_rule m t = some (t ∷ m)

abbrev path : Text
path = codes "/data/direct.txt"

abbrev disk : Disk
disk = record { content = some (codes "a.b\n"); readable = true; writable = true }

abbrev clean_disk : Disk
clean_disk = record { content = some (codes "domain:a.b\n"); readable = true; writable = true }

-- A reload that takes the text for the matcher.
abbrev plain_reload : Disk → RuleFile Text → Reloaded Text
plain_reload d r = record {
  state = adopted (codes "rules") (codes "text");
  disk = d.content;
  wrote = false;
  ok = true;
}

-- Two changes 100 ms apart, the timer of the first tried too early, and one of the mode.
abbrev inputs : List Input
inputs =
    event path (create ∷ write ∷ []) (100 * millisecond)
    ∷ event path (write ∷ []) (200 * millisecond)
    ∷ fires (310 * millisecond)
    ∷ timer_value (310 * millisecond)
    ∷ event path (chmod ∷ []) (320 * millisecond)
    ∷ []

abbrev seen : Trace plain_reload
seen = after_all plain_reload inputs (begun plain_reload path new_file disk 0)

debounced_example :
    Steps plain_reload inputs (begun plain_reload path new_file disk 0)
    × All (λ r. r.1 + reload_debounce ≤ r.0) seen.reloads
    × ((seen.pending ≡ false) ⊎ IsComing plain_reload seen.last_change seen.watch.timer)
debounced_example =
    debounced plain_reload path new_file disk 0 inputs
      (omega arith, (omega arith, (omega arith, (omega arith, (omega arith, tt)))))

change_is_pending : seen.pending ≡ true
unfolding after_all take
change_is_pending = refl

still_watching : seen.watch.returned ≡ false
unfolding after_all take
still_watching = refl

old_enough : seen.last_change + reload_debounce ≤ 400 * millisecond
unfolding after_all take
old_enough = omega arith

change_reloads_example :
    let u =
      after plain_reload
        (timer_value (400 * millisecond))
        (after plain_reload (fires (400 * millisecond)) seen) in
    (u.watch.file ≡ (plain_reload seen.watch.disk seen.watch.file).state)
    × (u.reloads ≡ (400 * millisecond, seen.last_change) ∷ seen.reloads)
    × (u.pending ≡ false)
change_reloads_example =
    change_reloads plain_reload path new_file disk 0 (400 * millisecond) inputs
      (omega arith, (omega arith, (omega arith, (omega arith, (omega arith, tt)))))
      change_is_pending still_watching old_enough

abbrev run : Disk → RuleFile (List Text) → Reloaded (List Text)
run = reload [] add_rule add_rule [] same any_pattern

abbrev loaded_file : RuleFile (List Text)
loaded_file = adopted (codes "domain:a.b" ∷ []) (codes "domain:a.b\n")

opens :
    new_rule_file run (λ t. some t) true true true disk (some path)
    ≡ opened path loaded_file true clean_disk
unfolding new_rule_file reload sanitize_rules build_matcher split cut trim_space trim_suffix
    is_space
opens = refl

opened-Serves_example :
    (clean_disk.content ≡ some loaded_file.last_good)
    × Agrees [] add_rule add_rule [] same any_pattern
        (take_all [] add_rule add_rule [] same any_pattern inputs
          (begun_watch [] add_rule add_rule [] same any_pattern path loaded_file clean_disk)).file
opened-Serves_example =
    opened-Serves [] add_rule add_rule [] same any_pattern (λ t. some t) true true true disk
      clean_disk (some path) path loaded_file true inputs opens
