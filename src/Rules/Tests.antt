-- ===== src/Rules/Tests.antt =====
-- Rule files at work.
use mathlib.Core.Path.{subst}
use guard_dns.Prelude.{
  ℕ, ap, sym, ◌≤◌, ◌<◌, inl, false, arith, ◌≡◌, refl, Bool, true, Option, some, List, [], ◌∷◌,
}
use guard_dns.Prelude.Text.{
  Text, codes, byte_len, split, cut, join_lines, trim_space, trim_suffix, is_space,
}
use guard_dns.Rules.{Sanitized, sanitize_rules, normalize_rule, max_rule_file_bytes}
use guard_dns.Rules.FixedPoint.{settled, sanitize_rules-fixed}
use guard_dns.Rules.Growth.{bare_lines, typed_rules, byte_len-typed_rules, sanitize_rules-grows}
use guard_dns.Rules.Reload.{RuleFile, Reloaded, Disk, adopted, new_file, reload, build_matcher}
use guard_dns.Rules.Reload.Consistent.{Outcome, reload-Outcome}
use guard_dns.Rules.Reload.Settled.{reload-reload, reload-oversized}

abbrev same : ℕ → ℕ
same c = c

abbrev any_pattern : Text → Bool
any_pattern t = true

abbrev file : Text
file = codes "# mine\nExample.COM.\n  full:a.b  # why\r\nkeyword:-x\n1.2.3.4\nregexp:^a\n"

cleaned_file :
    sanitize_rules same any_pattern file
    ≡ some (record {
      rules = codes "domain:example.com" ∷ codes "full:a.b" ∷ codes "regexp:^a" ∷ [];
      cleaned = codes "domain:example.com\nfull:a.b\nregexp:^a\n";
      meaningful = 5;
      rejected = 2;
    })
unfolding sanitize_rules split cut trim_space trim_suffix is_space
cleaned_file = refl

normalized : normalize_rule same any_pattern (codes "full:A.b.") ≡ some (codes "full:a.b")
unfolding normalize_rule split cut trim_suffix is_space
normalized = refl

abbrev read_file : Sanitized
read_file = record {
  rules = codes "domain:example.com" ∷ codes "full:a.b" ∷ codes "regexp:^a" ∷ [];
  cleaned = codes "domain:example.com\nfull:a.b\nregexp:^a\n";
  meaningful = 5;
  rejected = 2;
}

sanitize_rules-fixed_example :
    sanitize_rules same any_pattern (codes "domain:example.com\nfull:a.b\nregexp:^a\n")
    ≡ some (settled same any_pattern read_file.rules)
sanitize_rules-fixed_example =
    sanitize_rules-fixed same any_pattern file {s = read_file} cleaned_file (omega arith)

sanitize_rules-grows_example :
    (s : Sanitized) × (sanitize_rules same any_pattern (bare_lines 120000) ≡ some s)
    × (s.rejected ≡ 0)
    × (max_rule_file_bytes < byte_len s.cleaned)
sanitize_rules-grows_example =
    sanitize_rules-grows same any_pattern 120000 (omega arith) (omega arith)

-- A matcher that lists its rules, the last one first.
abbrev add_rule : List Text → Text → Option (List Text)
add_rule m t = some (t ∷ m)

abbrev run_b : Disk → RuleFile (List Text) → Reloaded (List Text)
run_b = reload [] add_rule add_rule (codes "b" ∷ []) same any_pattern

abbrev file_disk : Disk
file_disk = record { content = some file; readable = true; writable = true }

abbrev cleaned_disk : Disk
cleaned_disk = record { content = some read_file.cleaned; readable = true; writable = false }

abbrev loaded_file : RuleFile (List Text)
loaded_file =
    adopted (codes "b" ∷ codes "regexp:^a" ∷ codes "full:a.b" ∷ codes "domain:example.com" ∷ [])
      read_file.cleaned

reloaded :
    run_b file_disk new_file
    ≡ record { state = loaded_file; disk = some read_file.cleaned; wrote = true; ok = true }
unfolding reload sanitize_rules build_matcher split cut trim_space trim_suffix is_space
reloaded = refl

reload-Outcome_example :
    Outcome [] add_rule add_rule
      (codes "b" ∷ [])
      same
      any_pattern
      new_file
      (run_b file_disk new_file)
reload-Outcome_example =
    reload-Outcome [] add_rule add_rule (codes "b" ∷ []) same any_pattern file_disk new_file
      (inl refl)

reload-reload_example : run_b cleaned_disk (run_b file_disk new_file).state ≡ record {
  state = (run_b file_disk new_file).state;
  disk = (run_b file_disk new_file).disk;
  wrote = false;
  ok = true;
}
reload-reload_example =
    reload-reload [] add_rule add_rule (codes "b" ∷ []) same any_pattern file_disk cleaned_disk
      new_file (inl refl) (ap (λ x. x.ok) reloaded)
      (subst (λ x. byte_len x.state.last_good ≤ max_rule_file_bytes) (sym reloaded) (omega arith))
      refl (sym (ap (λ x. x.disk) reloaded))

abbrev large_file : RuleFile (List Text)
large_file = adopted [] (join_lines (typed_rules 120000))

abbrev large_disk : Disk
large_disk = record {
  content = some (join_lines (typed_rules 120000));
  readable = true;
  writable = true;
}

no_rules_built : build_matcher [] add_rule add_rule [] [] ≡ some []
unfolding build_matcher
no_rules_built = refl

typed_rules-IsLarge : max_rule_file_bytes < byte_len (join_lines (typed_rules 120000))
typed_rules-IsLarge =
    subst (λ k. max_rule_file_bytes < k) (sym (byte_len-typed_rules 120000)) (omega arith)

reload-oversized_example :
    (reload [] add_rule add_rule [] same any_pattern large_disk large_file
      ≡ record { state = large_file; disk = some large_file.last_good; wrote = true; ok = true })
    × (reload [] add_rule add_rule [] same any_pattern large_disk new_file
        ≡ record { state = adopted [] []; disk = some []; wrote = true; ok = true })
reload-oversized_example =
    reload-oversized [] add_rule add_rule [] same any_pattern large_disk large_file [] refl
      typed_rules-IsLarge refl refl refl no_rules_built
