-- ===== src/Rules/Reload/Consistent.antt =====
-- What a `reload` of internal/rulesplugin/rulesplugin.go leaves, on every path: an error leaves the
-- state as it was, and otherwise the matcher, the last good text and the file agree.
use mathlib.Core.Path.{subst}
use guard_dns.Prelude.{
  ℕ, ◌≡◌, refl, sym, ap, ◌∙◌, ◌⊎◌, inl, inr, Bool, true, false, ◌&&◌, Option, none, some, List, [],
  ◌∷◌, arith, Bool-cases, ltb, if◌then◌else◌,
}
use guard_dns.Prelude.Text.{Text, text_eq, join_lines}
use guard_dns.Rules.{Sanitized, sanitize_rules}
use guard_dns.Prelude.Text.{text_eq→≡}
use guard_dns.Rules.FixedPoint.{AllRules, sanitize_rules-Wellmade}
use guard_dns.Rules.Reload.{
  RuleFile, Reloaded, Disk, adopted, kept, written, cleared, no_rules, build_matcher,
  restore_or_clear, publish, adopt, reload, reload_content, new_file,
}

module _ {ℓ} {M : Type ℓ} (empty : M) (add load : M → Text → Option M) (includes : List Text)
    (lower : ℕ → ℕ) (compiles : Text → Bool) where
  abbrev build : List Text → Option M
  build = build_matcher empty add load includes

  abbrev run : Disk → RuleFile M → Reloaded M
  run = reload empty add load includes lower compiles

  -- The matcher is that of the rules whose text is the last good one.
  abbrev pub Agrees : RuleFile M → Type ℓ
  Agrees r =
      (r.loaded ≡ true)
      × ((rs : List Text) × AllRules lower compiles rs
          × (r.last_good ≡ join_lines rs)
          × (m : M) × (r.matcher ≡ some m)
          × (build rs ≡ some m))

  abbrev pub IsConsistent : RuleFile M → Type ℓ
  IsConsistent r = (r.loaded ≡ false) ⊎ Agrees r

  -- An error and the state as it was, or no error, and the file is the last good text.
  abbrev pub Outcome : RuleFile M → Reloaded M → Type ℓ
  Outcome r x =
      ((x.ok ≡ false) × (x.state ≡ r))
      ⊎ ((x.ok ≡ true) × (x.disk ≡ some x.state.last_good) × Agrees x.state)

  written-Outcome :
      (d : Disk) (text : Text) (old new : RuleFile M)
      → new.last_good ≡ text
      → Agrees new
      → Outcome old (written d text old new)
  written-Outcome d text old new e a = elim (Bool-cases d.writable) [
    | inl can ↦ rw can (inr (refl, ap (λ t. some t) (sym e), a))
    | inr cannot ↦ rw cannot (inl (refl, refl))
  ]

  cleared-Outcome : (r : RuleFile M) (o : Option M) → o ≡ build [] → Outcome r (cleared r o)
  cleared-Outcome r none e = inl (refl, refl)
  cleared-Outcome r (some m) e = inr (refl, refl, (refl, ([], tt, refl, m, refl, sym e)))

  choose-Outcome :
      (b : Bool) (r : RuleFile M) (x y : Reloaded M)
      → (b ≡ true → Outcome r x)
      → Outcome r y
      → Outcome r (if b then x else y)
  choose-Outcome true r x y h g = h refl
  choose-Outcome false r x y h g = g

  Agrees-loaded : (r : RuleFile M) → IsConsistent r → r.loaded ≡ true → Agrees r
  Agrees-loaded r (inl fresh) h = cc
  Agrees-loaded r (inr a) h = a

  restore-Outcome :
      (d : Disk) (r : RuleFile M)
      → IsConsistent r
      → Outcome r (restore_or_clear empty add load includes d r)
  unfolding restore_or_clear
  restore-Outcome d r c =
      choose-Outcome r.loaded r (written d r.last_good r r)
        (if d.writable then cleared r (build []) else kept d r)
        (λ h. written-Outcome d r.last_good r r refl (Agrees-loaded r c h))
        (choose-Outcome d.writable r (cleared r (build [])) (kept d r)
          (λ h. cleared-Outcome r (build []) refl) (inl (refl, refl)))

  publish-Outcome :
      (d : Disk) (raw : Text) (s : Sanitized) (r : RuleFile M) (o : Option M)
      → d.content ≡ some raw
      → AllRules lower compiles s.rules
      → s.cleaned ≡ join_lines s.rules
      → o ≡ build s.rules
      → Outcome r (publish empty add load includes d raw s r o)
  publish-Outcome d raw s r none here rules text e = inl (refl, refl)
  publish-Outcome d raw s r (some m) here rules text e =
      let new : RuleFile M = adopted m s.cleaned in
      let a : Agrees new = (refl, (s.rules, rules, text, m, refl, sym e)) in
      elim (Bool-cases (text_eq raw s.cleaned)) [
        | inl same ↦ rw same (inr (refl, here ∙ ap (λ t. some t) (text_eq→≡ raw s.cleaned same), a))
        | inr changed ↦ rw changed (written-Outcome d s.cleaned r new refl a)
      ]

  adopt-Outcome :
      (d : Disk) (raw : Text) (r : RuleFile M) (o : Option Sanitized)
      → d.content ≡ some raw
      → sanitize_rules lower compiles raw ≡ o
      → IsConsistent r
      → Outcome r (adopt empty add load includes d raw r o)
  adopt-Outcome d raw r none here read c = restore-Outcome d r c
  adopt-Outcome d raw r (some s) here read c =
      let (rules, text) = sanitize_rules-Wellmade lower compiles raw read in
      choose-Outcome (ltb 0 s.meaningful && no_rules s.rules && r.loaded) r
        (written d r.last_good r r) (publish empty add load includes d raw s r (build s.rules))
        (λ h. written-Outcome d r.last_good r r refl (Agrees-loaded r c (ground arith)))
        (publish-Outcome d raw s r (build s.rules) here rules text refl)

  content-Outcome :
      (d : Disk) (r : RuleFile M) (o : Option Text)
      → d.content ≡ o
      → IsConsistent r
      → Outcome r (reload_content empty add load includes lower compiles d r o)
  content-Outcome d r none here c = restore-Outcome d r c
  content-Outcome d r (some raw) here c =
      adopt-Outcome d raw r (sanitize_rules lower compiles raw) here refl c

  -- A reload that fails leaves the state as it was. One that does not leaves a file that is the last
  -- good text, and a matcher that was built from rules, each of which `normalizeRule` gives back, whose
  -- text that is; both from a state that has nothing
  -- loaded or has these properties.
  pub reload-Outcome : (d : Disk) (r : RuleFile M) → IsConsistent r → Outcome r (run d r)
  unfolding reload
  reload-Outcome d r c =
      choose-Outcome d.readable r
        (reload_content empty add load includes lower compiles d r d.content) (kept d r)
        (λ h. content-Outcome d r d.content refl c) (inl (refl, refl))

  -- The states that any reloads lead to, whatever becomes of the file between them.
  abbrev pub reload_all : List Disk → RuleFile M → RuleFile M
  reload_all [] r = r
  reload_all (d ∷ ds) r = reload_all ds (run d r).state

  Outcome-IsConsistent :
      (r : RuleFile M) (x : Reloaded M) → IsConsistent r → Outcome r x → IsConsistent x.state
  Outcome-IsConsistent r x c (inl failed) = subst IsConsistent (sym failed.1) c
  Outcome-IsConsistent r x c (inr (succeeded, text, agrees)) = inr agrees

  pub reload-IsConsistent :
      (d : Disk) (r : RuleFile M) → IsConsistent r → IsConsistent (run d r).state
  reload-IsConsistent d r c = Outcome-IsConsistent r (run d r) c (reload-Outcome d r c)

  reload_all-keeps :
      (ds : List Disk) (r : RuleFile M) → IsConsistent r → IsConsistent (reload_all ds r)
  reload_all-keeps [] r c = c
  reload_all-keeps (d ∷ ds) r c = reload_all-keeps ds (run d r).state (reload-IsConsistent d r c)

  -- From a new rule file on, after any reloads of any contents of the file, readable or not and writable
  -- or not: nothing is loaded, or the matcher is the one built of the rules whose text is the last
  -- good one, and each of those is a rule in its normal form.
  pub reload_all-IsConsistent : (ds : List Disk) → IsConsistent (reload_all ds new_file)
  reload_all-IsConsistent ds = reload_all-keeps ds new_file (inl refl)
