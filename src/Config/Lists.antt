-- ===== src/Config/Lists.antt =====
-- The lists of the operator, which `prepareRuntime` of cmd/guarddns/config.go copies only where they
-- are missing.
use mathlib.Core.Path.{subst}
use guard_dns.Prelude.{
  ◌≡◌, refl, sym, ◌∙◌, ◌⊎◌, inl, inr, Bool-cases, Option, none, some, List, [], ◌∷◌, All, String,
  lookup,
}
use guard_dns.Prelude.Text.{Text}
use guard_dns.Config.{Config}
use guard_dns.Config.Files.{Fs, Os, Attempt, done, broke, Io, bind_at, ◌>>=◌, ◌>>◌}
use guard_dns.Config.Runtime.{
  prepare_list, copy_missing, prepare_domain_lists, domain_lists, data_dir, join_path, make_dirs,
  prepare_runtime,
}
use guard_dns.Config.Frame.{Keeps, Apart, Keeps-bind, Keeps-copy_file, Keeps-make_dirs}
use guard_dns.Config.Stages.{IsUntouched, from_anchor, defaults_dir, dirs, lists, Keeps-from_anchor}

-- Where the path has this content, it has it after the call.
abbrev Holds : {A : Type 0} → String → Text → Io A → Type 0
Holds path t call = (fs : Fs) → lookup path fs ≡ some t → lookup path (call fs).0 ≡ some t

Keeps-Holds :
    {A : Type 0} (path : String) (t : Text) (call : Io A) → Keeps path call → Holds path t call
Keeps-Holds path t call keeps fs h = keeps fs ∙ h

Holds-bind_at :
    {A B : Type 0} (path : String) (t : Text) (k : A → Io B) (r : Fs × Attempt A)
    → ((a : A) → Holds path t (k a))
    → lookup path r.0 ≡ some t
    → lookup path (bind_at k r).0 ≡ some t
Holds-bind_at path t k (fs, broke e) holds h = h
Holds-bind_at path t k (fs, done a) holds h = holds a fs h

Holds-bind :
    {A B : Type 0} (path : String) (t : Text) (call : Io A) (k : A → Io B)
    → Holds path t call
    → ((a : A) → Holds path t (k a))
    → Holds path t (call >>= k)
Holds-bind path t call k first next fs h = Holds-bind_at path t k (call fs) next (first fs h)

-- The list itself is not copied over.
Holds-own_list :
    (os : Os) (source target : String) (t : Text) → Holds target t (prepare_list os source target)
unfolding prepare_list
Holds-own_list os source target t fs h = elim (Bool-cases (os.stats target)) [
  | inl found ↦ rw (found, h) h
  | inr unknown ↦ rw unknown h
]

Keeps-copy_missing :
    (os : Os) (path source target : String) (o : Option Text)
    → Apart path target
    → Keeps path (copy_missing os source target o)
Keeps-copy_missing os path source target none apart = Keeps-copy_file os path target apart source
Keeps-copy_missing os path source target (some t) apart = λ fs. refl

Keeps-other_list :
    (os : Os) (path source target : String)
    → Apart path target
    → Keeps path (prepare_list os source target)
unfolding prepare_list
Keeps-other_list os path source target apart fs = elim (Bool-cases (os.stats target)) [
  | inl found ↦ rw found (Keeps-copy_missing os path source target (lookup target fs) apart fs)
  | inr unknown ↦ rw unknown
]

-- The path is that of the list, or it is not touched for it.
abbrev IsListOrApart : String → String → String → Type 0
IsListOrApart path data_path name =
    (join_path data_path name ≡ path) ⊎ Apart path (join_path data_path name)

Holds-list :
    (os : Os) (path data_path source name : String) (t : Text)
    → IsListOrApart path data_path name
    → Holds path t (prepare_list os source (join_path data_path name))
Holds-list os path data_path source name t (inl same) =
    subst (λ p. Holds p t (prepare_list os source (join_path data_path name))) same
      (Holds-own_list os source (join_path data_path name) t)
Holds-list os path data_path source name t (inr apart) =
    Keeps-Holds path t (prepare_list os source (join_path data_path name))
      (Keeps-other_list os path source (join_path data_path name) apart)

Holds-lists :
    (os : Os) (path data_path defaults : String) (names : List String) (t : Text)
    → All (IsListOrApart path data_path) names
    → Holds path t (prepare_domain_lists os data_path defaults names)
unfolding prepare_domain_lists
Holds-lists os path data_path defaults [] t each fs h = h
Holds-lists os path data_path defaults (name ∷ names) t each fs h =
    Holds-bind path t (prepare_list os (join_path defaults name) (join_path data_path name))
      (λ u. prepare_domain_lists os data_path defaults names)
      (Holds-list os path data_path (join_path defaults name) name t each.0)
      (λ u. Holds-lists os path data_path defaults names t each.1) fs h

pub Keeps-lists :
    (os : Os) (path data_path defaults : String) (names : List String)
    → All (λ name. Apart path (join_path data_path name)) names
    → Keeps path (prepare_domain_lists os data_path defaults names)
unfolding prepare_domain_lists
Keeps-lists os path data_path defaults [] each fs = refl
Keeps-lists os path data_path defaults (name ∷ names) each fs =
    Keeps-bind path (prepare_list os (join_path defaults name) (join_path data_path name))
      (λ u. prepare_domain_lists os data_path defaults names)
      (Keeps-other_list os path (join_path defaults name) (join_path data_path name) each.0)
      (λ u. Keeps-lists os path data_path defaults names each.1) fs

module _ (os : Os) (cfg : Config) where
  kept_list :
      (path : String) (t : Text)
      → All (IsListOrApart path data_dir) domain_lists
      → IsUntouched path
      → Holds path t (prepare_runtime os cfg)
  unfolding prepare_runtime
  kept_list path t each untouched =
      Holds-bind path t (make_dirs os (dirs os cfg)) (λ u. lists os cfg >> from_anchor os cfg)
        (Keeps-Holds path t (make_dirs os (dirs os cfg)) (Keeps-make_dirs os path (dirs os cfg)))
        (λ u.
          Holds-bind path t (lists os cfg) (λ v. from_anchor os cfg)
            (Holds-lists os path data_dir (defaults_dir os cfg) domain_lists t each)
            (λ v.
              Keeps-Holds path t (from_anchor os cfg) (Keeps-from_anchor os cfg path untouched)))

  -- A list of the operator that is there when the start begins has the same content after it, whatever
  -- becomes of the start.
  pub user_lists_kept :
      (fs : Fs) (name : String) (t : Text)
      → (name ≡ "direct.txt") ⊎ (name ≡ "proxy.txt")
      → lookup (join_path data_dir name) fs ≡ some t
      → lookup (join_path data_dir name) (prepare_runtime os cfg fs).0 ≡ some t
  user_lists_kept fs name t (inl direct) =
      subst
        (λ n.
          lookup (join_path data_dir n) fs ≡ some t
          → lookup (join_path data_dir n) (prepare_runtime os cfg fs).0 ≡ some t)
        (sym direct)
        (kept_list "/data/direct.txt" t (inl refl, (inr (refl, refl), tt))
          ((refl, refl), (refl, refl), (refl, refl), (refl, refl), (refl, refl), refl, refl) fs)
  user_lists_kept fs name t (inr proxy) =
      subst
        (λ n.
          lookup (join_path data_dir n) fs ≡ some t
          → lookup (join_path data_dir n) (prepare_runtime os cfg fs).0 ≡ some t)
        (sym proxy)
        (kept_list "/data/proxy.txt" t (inr (refl, refl), (inl refl, tt))
          ((refl, refl), (refl, refl), (refl, refl), (refl, refl), (refl, refl), refl, refl) fs)
