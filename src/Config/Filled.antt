-- ===== src/Config/Filled.antt =====
-- What a stage of `prepareRuntime` in cmd/guarddns/config.go has written when it succeeds.
use text.Mathlib.TextEquality.{eq_iff}
use guard_dns.Prelude.{
  ◌≡◌, refl, sym, ap, ◌∙◌, ◌⊎◌, inl, inr, Bool, true, false, not, Bool-cases, Option, none, some,
  String, arith, lookup, insert, erase, lookup-insert, if◌then◌else◌, if_true, if_false,
}
use guard_dns.Prelude.Text.{Text, codes}
use guard_dns.Prelude.Search.{contains_text, replace_all}
use guard_dns.Config.{Config}
use guard_dns.Config.Files.{
  Fs, Os, os_error, unresolved, give_up, StartError, Attempt, done, broke, Io, bind_at, ◌>>=◌,
  read_at, read_file, tmp_of, rename, write_file_atomic, write_rendered,
}
use guard_dns.Config.Runtime.{
  render, render_foreign, endpoint_mark, mihomo_template, secure_template, foreign_runtime_config,
}
use guard_dns.Config.Frame.{Keeps}

-- The template as the start found it, its placeholder filled in, is the content of the target, and no
-- placeholder is left in it.
abbrev pub IsFilled : String → Text → Text → String → Fs → Fs → Type 0
IsFilled template mark value target before after =
    (t : Text) × (lookup template before ≡ some t)
    × (lookup target after ≡ some (replace_all mark value t))
    × (contains_text (codes "__") (replace_all mark value t) ≡ false)

pub bind_done :
    {A B : Type 0} (k : A → Io B) (r : Fs × Attempt A) {fs' : Fs} {b : B}
    → bind_at k r ≡ (fs', done b)
    → (fs1 : Fs) × (a : A) × (r ≡ (fs1, done a)) × (k a fs1 ≡ (fs', done b))
bind_done k (fs, broke e) h = cc
bind_done k (fs, done a) h = (fs, a, refl, h)

pub Keeps-step :
    {A : Type 0} (path : String) (call : Io A) (fs fs' : Fs) {r : Attempt A}
    → Keeps path call
    → call fs ≡ (fs', r)
    → lookup path fs' ≡ lookup path fs
Keeps-step path call fs fs' keeps e = ap (λ x. lookup path x.0) (sym e) ∙ keeps fs

-- One that breaks is not the branch that was taken.
pub not_broke :
    {A : Type 0} (b : Bool) (fs1 : Fs) (e : StartError) (y : Fs × Attempt A) {fs' : Fs} {a : A}
    → (if b then (fs1, broke e) else y) ≡ (fs', done a)
    → (b ≡ false) × (y ≡ (fs', done a))
not_broke true fs1 e y h = cc
not_broke false fs1 e y h = (refl, h)

pub renamed :
    (os : Os) (source target : String) (content : Text) (fs fs' : Fs)
    → rename os source content target fs ≡ (fs', done tt)
    → lookup target fs' ≡ some content
unfolding rename
renamed os source target content fs fs' h = elim (Bool-cases (os.renames source)) [
  | inl can ↦
      let there : lookup target (insert target content (erase source fs)) ≡ some content =
        rw (lookup-insert, (eq_iff target target).1 refl) in
      ap (λ x. lookup target x.0) (sym (rw can at h)) ∙ there
  | inr cannot ↦ let broken = rw cannot at h in cc
]

pub atomic-done :
    (os : Os) (target : String) (content : Text) (fs fs' : Fs)
    → write_file_atomic os target content fs ≡ (fs', done tt)
    → lookup target fs' ≡ some content
unfolding write_file_atomic
atomic-done os target content fs fs' h =
    let tmp = tmp_of target in
    let last = rename os tmp content target (insert tmp content fs) in
    let (opened, h1) =
      not_broke (not (os.creates tmp)) fs os_error
        (if not (os.writes tmp)
          then (insert tmp (os.partial tmp content) fs, broke os_error)
          else last)
        h in
    let (whole, h2) =
      not_broke (not (os.writes tmp)) (insert tmp (os.partial tmp content) fs) os_error last h1 in
    renamed os tmp target content (insert tmp content fs) fs' h2

pub choose_at :
    {A : Type 0} (b : Bool) (x y : Io A) (fs : Fs)
    → (if b then x else y) fs ≡ (if b then x fs else y fs)
choose_at true x y fs = refl
choose_at false x y fs = refl

pub write-done :
    (os : Os) (target : String) (content : Text) (fs fs' : Fs)
    → write_rendered os target content fs ≡ (fs', done tt)
    → (lookup target fs' ≡ some content) × (contains_text (codes "__") content ≡ false)
unfolding write_rendered
write-done os target content fs fs' h =
    let marked = contains_text (codes "__") content in
    let (clean, rest) =
      not_broke marked fs (unresolved target) (write_file_atomic os target content fs) (
        sym
          (choose_at marked (give_up (unresolved target)) (write_file_atomic os target content) fs)
        ∙ h) in
    (atomic-done os target content fs fs' rest, clean)

pub read_at-done :
    (b : Bool) (o : Option Text) (fs fs' : Fs) {t : Text}
    → read_at b o fs ≡ (fs', done t)
    → (fs' ≡ fs) × (o ≡ some t)
read_at-done true none fs fs' h = cc
read_at-done true (some u) fs fs' h = ground arith
read_at-done false o fs fs' h = cc

pub read-done :
    (os : Os) (path : String) (fs fs' : Fs) {t : Text}
    → read_file os path fs ≡ (fs', done t)
    → (fs' ≡ fs) × (lookup path fs ≡ some t)
unfolding read_file
read-done os path fs fs' h = read_at-done (os.reads path) (lookup path fs) fs fs' h

pub render-IsFilled :
    (os : Os) (template : String) (mark value : Text) (target : String) (fs fs' : Fs)
    → render os template mark value target fs ≡ (fs', done tt)
    → IsFilled template mark value target fs fs'
unfolding render
render-IsFilled os template mark value target fs fs' h =
    let (fs1, t, read, wrote) =
      bind_done (λ t. write_rendered os target (replace_all mark value t))
        (read_file os template fs) h in
    let (there, clean) = write-done os target (replace_all mark value t) fs1 fs' wrote in
    (t, (read-done os template fs fs1 read).1, there, clean)

pub IsFilled-moved :
    (template : String) (mark value : Text) (target : String) (before a b after : Fs)
    → lookup template a ≡ lookup template before
    → lookup target after ≡ lookup target b
    → IsFilled template mark value target a b
    → IsFilled template mark value target before after
IsFilled-moved template mark value target before a b after same kept (t, found, there, clean) =
    (t, sym same ∙ found, kept ∙ there, clean)

-- The foreign part is the template with the endpoint, or the one that needs none.
abbrev pub IsForeign : Config → Fs → Fs → Type 0
IsForeign cfg before after =
    ((cfg.auto_enabled ≡ true)
      × IsFilled mihomo_template endpoint_mark cfg.auto_dns foreign_runtime_config before after)
    ⊎ ((cfg.auto_enabled ≡ false)
        × (t : Text) × (lookup secure_template before ≡ some t)
        × (lookup foreign_runtime_config after ≡ some t)
        × (contains_text (codes "__") t ≡ false))

pub if_true_at :
    {A : Type 0} (b : Bool) (x y : Io A) (fs : Fs) → b ≡ true → (if b then x else y) fs ≡ x fs
if_true_at b x y fs h = ap (λ call. call fs) (if_true b x y h)

pub if_false_at :
    {A : Type 0} (b : Bool) (x y : Io A) (fs : Fs) → b ≡ false → (if b then x else y) fs ≡ y fs
if_false_at b x y fs h = ap (λ call. call fs) (if_false b x y h)

pub IsForeign-done :
    (os : Os) (cfg : Config) (fs fs' : Fs)
    → render_foreign os cfg fs ≡ (fs', done tt)
    → IsForeign cfg fs fs'
unfolding render_foreign
IsForeign-done os cfg fs fs' h = elim (Bool-cases cfg.auto_enabled) [
  | inl on ↦
      let rendered =
        sym (
          if_true_at cfg.auto_enabled
            (render os mihomo_template endpoint_mark cfg.auto_dns foreign_runtime_config)
            (read_file os secure_template >>= (λ t. write_rendered os foreign_runtime_config t)) fs
            on)
        ∙ h in
      inl (
        on,
        render-IsFilled os mihomo_template endpoint_mark cfg.auto_dns foreign_runtime_config fs fs'
            rendered,
      )
  | inr off ↦
      let copied =
        sym (
          if_false_at cfg.auto_enabled
            (render os mihomo_template endpoint_mark cfg.auto_dns foreign_runtime_config)
            (read_file os secure_template >>= (λ t. write_rendered os foreign_runtime_config t)) fs
            off)
        ∙ h in
      let (fs1, t, read, wrote) =
        bind_done (λ t. write_rendered os foreign_runtime_config t)
          (read_file os secure_template fs) copied in
      let (there, clean) = write-done os foreign_runtime_config t fs1 fs' wrote in
      inr (off, t, (read-done os secure_template fs fs1 read).1, there, clean)
]

pub IsForeign-moved :
    (cfg : Config) (before a b after : Fs)
    → lookup mihomo_template a ≡ lookup mihomo_template before
    → lookup secure_template a ≡ lookup secure_template before
    → lookup foreign_runtime_config after ≡ lookup foreign_runtime_config b
    → IsForeign cfg a b
    → IsForeign cfg before after
IsForeign-moved cfg before a b after same plain kept (inl (on, filled)) = inl (
  on,
  IsFilled-moved mihomo_template endpoint_mark cfg.auto_dns foreign_runtime_config before a b after
      same kept filled,
)
IsForeign-moved cfg before a b after same plain kept (inr (off, t, found, there, clean)) =
    inr (off, t, sym plain ∙ found, kept ∙ there, clean)
