-- ===== src/Config/Frame.antt =====
-- Which files the calls of cmd/guarddns/config.go leave alone.
use text.Mathlib.Text.{◌==◌ as str_eq}
use guard_dns.Prelude.{
  ◌≡◌, refl, ◌∙◌, inl, inr, Bool, true, false, not, Bool-cases, Option, none, some, List, [], ◌∷◌,
  String, lookup, insert, lookup-insert, lookup-erase, if◌then◌else◌,
}
use guard_dns.Prelude.Text.{Text, codes}
use guard_dns.Prelude.Search.{contains_text, replace_all}
use guard_dns.Config.{Config}
use guard_dns.Config.Files.{
  Fs, Os, os_error, unresolved, invalid_unbound, StartError, Attempt, done, broke, Io, bind_at,
  ◌>>=◌, give_up, require, read_at, read_file, tmp_of, rename, remove, write_file_atomic,
  copy_content, copy_file, write_rendered,
}
use guard_dns.Config.Runtime.{
  make_dirs, chown_all, install_anchor, install_anchor_from, find_anchor, anchors, root_key, render,
  render_foreign, remove_pids, check_configs, accepted_config, foreign_runtime_config,
  mihomo_template, secure_template, endpoint_mark, unbound_runtime_dir,
  unbound_recursive_runtime_dir,
}

-- Whatever the call comes to, it leaves the content of the path as it was.
abbrev pub Keeps : {A : Type 0} → String → Io A → Type 0
Keeps path call = (fs : Fs) → lookup path (call fs).0 ≡ lookup path fs

-- The path is neither that one nor the one that is written on the way to it.
abbrev pub Apart : String → String → Type 0
Apart path target = (str_eq target path ≡ false) × (str_eq (tmp_of target) path ≡ false)

Keeps-bind_at :
    {A B : Type 0} (path : String) (k : A → Io B) (r : Fs × Attempt A)
    → ((a : A) → Keeps path (k a))
    → lookup path (bind_at k r).0 ≡ lookup path r.0
Keeps-bind_at path k (fs, broke e) keeps = refl
Keeps-bind_at path k (fs, done a) keeps = keeps a fs

pub Keeps-bind :
    {A B : Type 0} (path : String) (call : Io A) (k : A → Io B)
    → Keeps path call
    → ((a : A) → Keeps path (k a))
    → Keeps path (call >>= k)
Keeps-bind path call k first next fs = Keeps-bind_at path k (call fs) next ∙ first fs

Keeps-if :
    {A : Type 0} (path : String) (b : Bool) (x y : Fs × Attempt A) {o : Option Text}
    → lookup path x.0 ≡ o
    → lookup path y.0 ≡ o
    → lookup path (if b then x else y).0 ≡ o
Keeps-if path true x y h g = h
Keeps-if path false x y h g = g

Keeps-choice :
    {A : Type 0} (path : String) (b : Bool) (x y : Io A)
    → Keeps path x
    → Keeps path y
    → Keeps path (if b then x else y)
Keeps-choice path true x y h g = h
Keeps-choice path false x y h g = g

Keeps-require : (path : String) (b : Bool) (e : StartError) → Keeps path (require b e)
Keeps-require path true e fs = refl
Keeps-require path false e fs = refl

lookup-remove :
    (os : Os) (path other : String) (fs : Fs)
    → str_eq other path ≡ false
    → lookup path (remove os other fs) ≡ lookup path fs
unfolding remove
lookup-remove os path other fs h = elim (Bool-cases (os.removes other)) [
  | inl can ↦ rw (can, lookup-erase, h)
  | inr cannot ↦ rw cannot
]

module _ (os : Os) (path target : String) (apart : Apart path target) where
  Keeps-rename : (content : Text) → Keeps path (rename os (tmp_of target) content target)
  unfolding rename
  Keeps-rename content fs = elim (Bool-cases (os.renames (tmp_of target))) [
    | inl can ↦ rw (can, lookup-insert, apart.0, lookup-erase, apart.1)
    | inr cannot ↦ rw cannot
  ]

  lookup-tmp :
      (content : Text) (fs : Fs) → lookup path (insert (tmp_of target) content fs) ≡ lookup path fs
  lookup-tmp content fs = rw (lookup-insert, apart.1)

  pub Keeps-write_file_atomic : (content : Text) → Keeps path (write_file_atomic os target content)
  unfolding write_file_atomic
  Keeps-write_file_atomic content fs =
      let tmp = tmp_of target in
      Keeps-if path (not (os.creates tmp)) (fs, broke os_error) _ refl
        (Keeps-if path (not (os.writes tmp))
          (insert tmp (os.partial tmp content) fs, broke os_error)
          (rename os tmp content target (insert tmp content fs))
          (lookup-tmp (os.partial tmp content) fs)
          (Keeps-rename content (insert tmp content fs) ∙ lookup-tmp content fs))

  Keeps-copy_content : (o : Option Text) → Keeps path (copy_content os target o)
  Keeps-copy_content none fs = refl
  Keeps-copy_content (some content) fs =
      let tmp = tmp_of target in
      Keeps-if path (not (os.creates tmp)) (fs, broke os_error) _ refl
        (Keeps-if path (not (os.writes tmp))
          (remove os tmp (insert tmp (os.partial tmp content) fs), broke os_error)
          (rename os tmp content target (insert tmp content fs))
          (lookup-remove os path tmp (insert tmp (os.partial tmp content) fs) apart.1
            ∙ lookup-tmp (os.partial tmp content) fs)
          (Keeps-rename content (insert tmp content fs) ∙ lookup-tmp content fs))

  pub Keeps-copy_file : (source : String) → Keeps path (copy_file os source target)
  unfolding copy_file
  Keeps-copy_file source fs =
      Keeps-copy_content (if os.opens source then lookup source fs else none) fs

  pub Keeps-write_rendered : (content : Text) → Keeps path (write_rendered os target content)
  unfolding write_rendered
  Keeps-write_rendered content =
      Keeps-choice path (contains_text (codes "__") content) (give_up (unresolved target))
        (write_file_atomic os target content) (λ fs. refl) (Keeps-write_file_atomic content)

Keeps-read_at :
    (path : String) (b : Bool) (o : Option Text) (fs : Fs)
    → lookup path (read_at b o fs).0 ≡ lookup path fs
Keeps-read_at path true none fs = refl
Keeps-read_at path true (some t) fs = refl
Keeps-read_at path false o fs = refl

Keeps-read_file : (os : Os) (path source : String) → Keeps path (read_file os source)
unfolding read_file
Keeps-read_file os path source fs = Keeps-read_at path (os.reads source) (lookup source fs) fs

pub Keeps-render :
    (os : Os) (path template : String) (mark value : Text) (target : String)
    → Apart path target
    → Keeps path (render os template mark value target)
unfolding render
Keeps-render os path template mark value target apart =
    Keeps-bind path (read_file os template)
      (λ t. write_rendered os target (replace_all mark value t)) (Keeps-read_file os path template)
      (λ t. Keeps-write_rendered os path target apart (replace_all mark value t))

pub Keeps-render_foreign :
    (os : Os) (path : String) (cfg : Config)
    → Apart path foreign_runtime_config
    → Keeps path (render_foreign os cfg)
unfolding render_foreign
Keeps-render_foreign os path cfg apart =
    Keeps-choice path cfg.auto_enabled
      (render os mihomo_template endpoint_mark cfg.auto_dns foreign_runtime_config)
      (read_file os secure_template >>= (λ t. write_rendered os foreign_runtime_config t))
      (Keeps-render os path mihomo_template endpoint_mark cfg.auto_dns foreign_runtime_config apart)
      (Keeps-bind path (read_file os secure_template)
        (λ t. write_rendered os foreign_runtime_config t) (Keeps-read_file os path secure_template)
        (λ t. Keeps-write_rendered os path foreign_runtime_config apart t))

pub Keeps-make_dirs :
    (os : Os) (path : String) (dirs : List String) → Keeps path (make_dirs os dirs)
Keeps-make_dirs os path [] fs = refl
Keeps-make_dirs os path (dir ∷ dirs) fs =
    Keeps-bind path (require (os.mkdirs dir) os_error) (λ u. make_dirs os dirs)
      (Keeps-require path (os.mkdirs dir) os_error) (λ u. Keeps-make_dirs os path dirs) fs

Keeps-chown_all : (os : Os) (path : String) (paths : List String) → Keeps path (chown_all os paths)
Keeps-chown_all os path [] fs = refl
Keeps-chown_all os path (p ∷ ps) fs =
    Keeps-bind path (require (os.chowns p) os_error) (λ u. chown_all os ps)
      (Keeps-require path (os.chowns p) os_error) (λ u. Keeps-chown_all os path ps) fs

Keeps-install_from :
    (os : Os) (path : String) (o : Option String)
    → Apart path root_key
    → Keeps path (install_anchor_from os o)
Keeps-install_from os path none apart = λ fs. refl
Keeps-install_from os path (some source) apart =
    let owned = unbound_runtime_dir ∷ root_key ∷ unbound_recursive_runtime_dir ∷ [] in
    Keeps-bind path (copy_file os source root_key) (λ u. chown_all os owned)
      (Keeps-copy_file os path root_key apart source) (λ u. Keeps-chown_all os path owned)

pub Keeps-install_anchor :
    (os : Os) (path : String) → Apart path root_key → Keeps path (install_anchor os)
unfolding install_anchor
Keeps-install_anchor os path apart fs =
    Keeps-install_from os path (find_anchor os anchors fs) apart fs

pub Keeps-remove_pids :
    (os : Os) (path : String)
    → str_eq "/run/guarddns/unbound/unbound.pid" path ≡ false
    → str_eq "/run/guarddns/unbound-recursive/unbound.pid" path ≡ false
    → Keeps path (remove_pids os)
unfolding remove_pids
Keeps-remove_pids os path h g fs =
    lookup-remove os path "/run/guarddns/unbound-recursive/unbound.pid"
      (remove os "/run/guarddns/unbound/unbound.pid" fs) g
    ∙ lookup-remove os path "/run/guarddns/unbound/unbound.pid" fs h

pub Keeps-check_configs :
    (os : Os) (path : String) (paths : List String) → Keeps path (check_configs os paths)
unfolding check_configs
Keeps-check_configs os path [] fs = refl
Keeps-check_configs os path (p ∷ ps) fs =
    let valid = accepted_config os p (lookup p fs) in
    Keeps-bind path (require valid (invalid_unbound p)) (λ u. check_configs os ps)
      (Keeps-require path valid (invalid_unbound p)) (λ u. Keeps-check_configs os path ps) fs
