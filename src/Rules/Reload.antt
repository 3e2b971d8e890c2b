-- ===== src/Rules/Reload.antt =====
-- `RuleFile` of internal/rulesplugin/rulesplugin.go: what `reload` makes of the file on disk and of the
-- matcher in memory. `add` stands for the `Add` of the MosDNS matcher, and `load` for reading a bundled
-- file into it: those files come with the program and do not change while it runs.
pub mod Consistent
pub mod Settled
use guard_dns.Prelude.{
  ℕ, Bool, true, false, not, ◌&&◌, Option, none, some, List, [], ◌∷◌, ltb, if◌then◌else◌,
}
use guard_dns.Prelude.Text.{Text, text_eq, is_empty}
use guard_dns.Rules.{Sanitized, sanitize_rules}

pub record RuleFile {ℓ} (M : Type ℓ) : Type ℓ where
  pub matcher : Option M
  pub last_good : Text
  pub loaded : Bool

-- What a reload leaves: the state, the file (`none`: there is none), whether it wrote the file, and
-- whether it returned without an error.
pub record Reloaded {ℓ} (M : Type ℓ) : Type ℓ where
  pub state : RuleFile M
  pub disk : Option Text
  pub wrote : Bool
  pub ok : Bool

abbrev pub new_file {ℓ} : {M : Type ℓ} → RuleFile M
new_file = record { matcher = none; last_good = []; loaded = false }

abbrev pub adopted {ℓ} : {M : Type ℓ} → M → Text → RuleFile M
adopted m text = record { matcher = some m; last_good = text; loaded = true }

-- A disk at the time of a reload: the file, whether it can be read, and whether it can be written.
pub record Disk : Type 0 where
  pub content : Option Text
  pub readable : Bool
  pub writable : Bool

abbrev fold_all {ℓ} : {M : Type ℓ} → (M → Text → Option M) → List Text → Option M → Option M
fold_all add [] m = m
fold_all add (t ∷ ts) none = none
fold_all add (t ∷ ts) (some m) = fold_all add ts (add m t)

abbrev pub no_rules : List Text → Bool
no_rules [] = true
no_rules (r ∷ rs) = false

abbrev pub kept {ℓ} : {M : Type ℓ} → Disk → RuleFile M → Reloaded M
kept d r = record { state = r; disk = d.content; wrote = false; ok = false }

-- `writeFileAtomic`, and what follows it when it succeeds.
abbrev pub written {ℓ} : {M : Type ℓ} → Disk → Text → RuleFile M → RuleFile M → Reloaded M
written d text old new =
    if d.writable
    then record { state = new; disk = some text; wrote = true; ok = true }
    else kept d old

-- The file is cleared by the time the matcher is built.
abbrev pub cleared {ℓ} : {M : Type ℓ} → RuleFile M → Option M → Reloaded M
cleared r none = record { state = r; disk = some []; wrote = true; ok = false }
cleared r (some m) = record { state = adopted m []; disk = some []; wrote = true; ok = true }

module _ {ℓ} {M : Type ℓ} (empty : M) (add load : M → Text → Option M) (includes : List Text) where
  unfoldable pub build_matcher : List Text → Option M
  build_matcher rules = fold_all load includes (fold_all add rules (some empty))

  unfoldable pub restore_or_clear : Disk → RuleFile M → Reloaded M
  unfolding build_matcher
  restore_or_clear d r =
      if r.loaded
      then written d r.last_good r r
      else if d.writable
      then cleared r (build_matcher [])
      else kept d r

  -- The file is rewritten only where its text is not what its rules give.
  abbrev pub publish : Disk → Text → Sanitized → RuleFile M → Option M → Reloaded M
  publish d raw s r none = kept d r
  publish d raw s r (some m) =
      if text_eq raw s.cleaned
      then record { state = adopted m s.cleaned; disk = d.content; wrote = false; ok = true }
      else written d s.cleaned r (adopted m s.cleaned)

  abbrev pub adopt : Disk → Text → RuleFile M → Option Sanitized → Reloaded M
  adopt d raw r none = restore_or_clear d r
  adopt d raw r (some s) =
      if ltb 0 s.meaningful && no_rules s.rules && r.loaded
      then written d r.last_good r r
      else publish d raw s r (build_matcher s.rules)

  module _ (lower : ℕ → ℕ) (compiles : Text → Bool) where
    abbrev pub reload_content : Disk → RuleFile M → Option Text → Reloaded M
    reload_content d r none = restore_or_clear d r
    reload_content d r (some raw) = adopt d raw r (sanitize_rules lower compiles raw)

    unfoldable pub reload : Disk → RuleFile M → Reloaded M
    unfolding restore_or_clear sanitize_rules
    reload d r = if d.readable then reload_content d r d.content else kept d r
