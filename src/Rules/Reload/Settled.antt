-- ===== src/Rules/Reload/Settled.antt =====
-- `RuleFile` of internal/rulesplugin/rulesplugin.go watches the file that it writes: the reload that its
-- own write sets off.
use mathlib.Core.Path.{subst}
use guard_dns.Prelude.{
  ℕ, ◌≤◌, ◌<◌, ◌≡◌, refl, sym, ap, ◌∙◌, inl, inr, Bool, true, false, ◌&&◌, Option, none, some, List,
  [], ◌∷◌, arith, ltb, if_true, if_false, length,
}
use guard_dns.Prelude.Text.{Text, byte_len, text_eq, text_eq_refl, join_lines}
use guard_dns.Rules.{sanitize_rules, max_rule_file_bytes}
use guard_dns.Rules.FixedPoint.{AllRules, settled, sanitize_lines-settled}
use guard_dns.Rules.Reload.{
  RuleFile, Reloaded, Disk, adopted, kept, written, cleared, no_rules, build_matcher,
  restore_or_clear, publish, adopt, reload, reload_content, new_file,
}
use guard_dns.Rules.Reload.Consistent.{Agrees, IsConsistent, Outcome, reload-Outcome}

some_rules : (rs : List Text) → (ltb 0 (length rs) && no_rules rs) ≡ false
some_rules [] = refl
some_rules (r ∷ rs) = ground arith

same_state {ℓ} :
    {M : Type ℓ} (r : RuleFile M) (m : M) (text : Text)
    → r.matcher ≡ some m
    → r.last_good ≡ text
    → r.loaded ≡ true
    → adopted m text ≡ r
same_state r m text em et el =
    λ i. record { matcher = sym em i; last_good = sym et i; loaded = sym el i }

module _ {ℓ} {M : Type ℓ} (empty : M) (add load : M → Text → Option M) (includes : List Text)
    (lower : ℕ → ℕ) (compiles : Text → Bool) where
  abbrev run : Disk → RuleFile M → Reloaded M
  run = reload empty add load includes lower compiles

  -- The text of rules in their normal form, read within the limit.
  read_settled :
      (rs : List Text)
      → AllRules lower compiles rs
      → byte_len (join_lines rs) ≤ max_rule_file_bytes
      → sanitize_rules lower compiles (join_lines rs) ≡ some (settled lower compiles rs)
  unfolding sanitize_rules
  read_settled rs rules small =
      let size : ltb max_rule_file_bytes (byte_len (join_lines rs)) ≡ false = ground arith in
      rw (size, sanitize_lines-settled lower compiles rs rules)

  adopt-settled :
      (d : Disk) (r : RuleFile M) (rs : List Text) (m : M)
      → build_matcher empty add load includes rs ≡ some m
      → r.loaded ≡ true
      → r.matcher ≡ some m
      → r.last_good ≡ join_lines rs
      → d.content ≡ some r.last_good
      → adopt empty add load includes d (join_lines rs) r (some (settled lower compiles rs))
        ≡ record { state = r; disk = some r.last_good; wrote = false; ok = true }
  adopt-settled d r rs m built loaded matches text content =
      if_false (ltb 0 (length rs) && no_rules rs && r.loaded) (written d r.last_good r r)
        (publish empty add load includes d (join_lines rs) (settled lower compiles rs) r
          (build_matcher empty add load includes rs))
        (ground (arith, some_rules rs))
      ∙ ap (publish empty add load includes d (join_lines rs) (settled lower compiles rs) r) built
      ∙ if_true (text_eq (join_lines rs) (join_lines rs))
          (record { state = adopted m (join_lines rs); disk = d.content; wrote = false; ok = true })
          (written d (join_lines rs) r (adopted m (join_lines rs))) (text_eq_refl (join_lines rs))
      ∙ (λ i. record {
        state = same_state r m (join_lines rs) matches text loaded i;
        disk = content i;
        wrote = false;
        ok = true;
      })

  read_content :
      (d : Disk) (r : RuleFile M) (raw : Text)
      → d.readable ≡ true
      → d.content ≡ some raw
      → run d r ≡ adopt empty add load includes d raw r (sanitize_rules lower compiles raw)
  unfolding reload
  read_content d r raw readable content =
      if_true d.readable (reload_content empty add load includes lower compiles d r d.content)
        (kept d r) readable
      ∙ ap (reload_content empty add load includes lower compiles d r) content

  reload-settles :
      (d : Disk) (r : RuleFile M)
      → Agrees empty add load includes lower compiles r
      → byte_len r.last_good ≤ max_rule_file_bytes
      → d.readable ≡ true
      → d.content ≡ some r.last_good
      → run d r ≡ record { state = r; disk = some r.last_good; wrote = false; ok = true }
  reload-settles d r (loaded, (rs, rules, text, m, matches, built)) small readable content =
      read_content d r (join_lines rs) readable (content ∙ ap (λ t. some t) text)
      ∙ ap (adopt empty add load includes d (join_lines rs) r)
          (read_settled rs rules (subst (λ t. byte_len t ≤ max_rule_file_bytes) text small))
      ∙ adopt-settled d r rs m built loaded matches text content

  settles-Outcome :
      (d : Disk) (r : RuleFile M) (x : Reloaded M)
      → Outcome empty add load includes lower compiles r x
      → x.ok ≡ true
      → byte_len x.state.last_good ≤ max_rule_file_bytes
      → d.readable ≡ true
      → d.content ≡ x.disk
      → run d x.state ≡ record { state = x.state; disk = x.disk; wrote = false; ok = true }
  settles-Outcome d r x (inl (failed, same)) done small readable content = cc
  settles-Outcome d r x (inr (succeeded, text, agrees)) done small readable content =
      reload-settles d x.state agrees small readable (content ∙ text)
      ∙ (λ i. record { state = x.state; disk = sym text i; wrote = false; ok = true })

  -- The reload that a reload sets off by its own write changes nothing: where a reload of a consistent
  -- state succeeds and its last good text is within the limit, the next one that finds the file as it was
  -- left, and can read it, leaves state and file as they are, writes nothing, and succeeds.
  pub reload-reload :
      (d e : Disk) (r : RuleFile M)
      → IsConsistent empty add load includes lower compiles r
      → (run d r).ok ≡ true
      → byte_len (run d r).state.last_good ≤ max_rule_file_bytes
      → e.readable ≡ true
      → e.content ≡ (run d r).disk
      → run e (run d r).state
        ≡ record { state = (run d r).state; disk = (run d r).disk; wrote = false; ok = true }
  reload-reload d e r c done small readable content =
      settles-Outcome e r (run d r) (reload-Outcome empty add load includes lower compiles d r c)
        done small readable content

  too_large :
      (raw : Text) → max_rule_file_bytes < byte_len raw → sanitize_rules lower compiles raw ≡ none
  unfolding sanitize_rules
  too_large raw large =
      let size : ltb max_rule_file_bytes (byte_len raw) ≡ true = ground arith in rw size

  -- A file of more than the limit is written again, as it is, by each reload of the state whose last good
  -- text it is; and a new rule file, as at the next start, empties it. Both where the file can be read
  -- and written and the bundled rules can be loaded.
  pub reload-oversized :
      (d : Disk) (r : RuleFile M) (m : M)
      → r.loaded ≡ true
      → max_rule_file_bytes < byte_len r.last_good
      → d.readable ≡ true
      → d.writable ≡ true
      → d.content ≡ some r.last_good
      → build_matcher empty add load includes [] ≡ some m
      → (run d r ≡ record { state = r; disk = some r.last_good; wrote = true; ok = true })
        × (run d new_file
            ≡ record { state = adopted m []; disk = some []; wrote = true; ok = true })
  unfolding restore_or_clear
  reload-oversized d r m loaded large readable writable content built =
      let refused = too_large r.last_good large in
      (
        read_content d r r.last_good readable content
            ∙ ap (adopt empty add load includes d r.last_good r) refused
            ∙ if_true r.loaded (written d r.last_good r r) _ loaded
            ∙ if_true d.writable _ (kept d r) writable,
        read_content d new_file r.last_good readable content
            ∙ ap (adopt empty add load includes d r.last_good new_file) refused
            ∙ if_true d.writable (cleared new_file (build_matcher empty add load includes []))
                (kept d new_file) writable
            ∙ ap (cleared new_file) built,
      )
