-- ===== src/Config/Passed.antt =====
-- The files between the stages of a `prepareRuntime` of cmd/guarddns/config.go that succeeds.
use guard_dns.Prelude.{◌≡◌, refl, ◌∙◌, All, String, lookup}
use guard_dns.Config.{Config}
use guard_dns.Config.Files.{Fs, Os, done, ◌>>◌}
use guard_dns.Config.Runtime.{
  domain_lists, data_dir, join_path, make_dirs, install_anchor, render_foreign, remove_pids,
  check_configs, prepare_runtime, unbound_runtime_config, unbound_recursive_runtime_config,
  mosdns_runtime_config, foreign_runtime_config,
}
use guard_dns.Config.Frame.{Apart, Keeps-make_dirs, Keeps-install_anchor}
use guard_dns.Config.Lists.{Keeps-lists}
use guard_dns.Config.Stages.{
  configs, finish, unbound_template, recursive_template, mosdns_template, from_mosdns,
  from_recursive, from_unbound, from_anchor, defaults_dir, dirs, lists, Keeps-pids_on, Keeps-finish,
  Keeps-mosdns, Keeps-recursive, Keeps-unbound, Keeps-from_mosdns, Keeps-from_recursive,
}
use guard_dns.Config.Filled.{bind_done, Keeps-step}

module _ (os : Os) (cfg : Config) where
  -- The files between the stages of a start that succeeds.
  pub record Passed (before after : Fs) : Type 0 where
    pub fs1 : Fs
    pub fs2 : Fs
    pub fs3 : Fs
    pub fs4 : Fs
    pub fs5 : Fs
    pub fs6 : Fs
    pub fs7 : Fs
    pub made : make_dirs os (dirs os cfg) before ≡ (fs1, done tt)
    pub listed : lists os cfg fs1 ≡ (fs2, done tt)
    pub anchored : install_anchor os fs2 ≡ (fs3, done tt)
    pub unbound : unbound_template os cfg fs3 ≡ (fs4, done tt)
    pub after_unbound : from_recursive os cfg fs4 ≡ (after, done tt)
    pub recursive : recursive_template os cfg fs4 ≡ (fs5, done tt)
    pub after_recursive : from_mosdns os cfg fs5 ≡ (after, done tt)
    pub mosdns : mosdns_template os cfg fs5 ≡ (fs6, done tt)
    pub after_mosdns : finish os cfg fs6 ≡ (after, done tt)
    pub foreign : render_foreign os cfg fs6 ≡ (fs7, done tt)
    pub after_foreign : (remove_pids os >> check_configs os configs) fs7 ≡ (after, done tt)

  pub prepare-Passed :
      (before after : Fs) → prepare_runtime os cfg before ≡ (after, done tt) → Passed before after
  unfolding prepare_runtime
  prepare-Passed before after h =
      let (fs1, u1, made, h1) =
        bind_done (λ u. lists os cfg >> from_anchor os cfg) (make_dirs os (dirs os cfg) before) h in
      let (fs2, u2, listed, h2) = bind_done (λ u. from_anchor os cfg) (lists os cfg fs1) h1 in
      let (fs3, u3, anchored, h3) =
        bind_done (λ u. from_unbound os cfg) (install_anchor os fs2) h2 in
      let (fs4, u4, unbound, h4) =
        bind_done (λ u. from_recursive os cfg) (unbound_template os cfg fs3) h3 in
      let (fs5, u5, recursive, h5) =
        bind_done (λ u. from_mosdns os cfg) (recursive_template os cfg fs4) h4 in
      let (fs6, u6, mosdns, h6) = bind_done (λ u. finish os cfg) (mosdns_template os cfg fs5) h5 in
      let (fs7, u7, foreign, h7) =
        bind_done (λ u. remove_pids os >> check_configs os configs) (render_foreign os cfg fs6)
          h6 in
      record {
        fs1 = fs1;
        fs2 = fs2;
        fs3 = fs3;
        fs4 = fs4;
        fs5 = fs5;
        fs6 = fs6;
        fs7 = fs7;
        made = made;
        listed = listed;
        anchored = anchored;
        unbound = unbound;
        after_unbound = h4;
        recursive = recursive;
        after_recursive = h5;
        mosdns = mosdns;
        after_mosdns = h6;
        foreign = foreign;
        after_foreign = h7;
      }

  -- A path that none of the stages touches before the foreign part.
  abbrev pub IsTemplate : String → Type 0
  IsTemplate path =
      All (λ name. Apart path (join_path data_dir name)) domain_lists
      × Apart path "/run/guarddns/unbound/root.key"
      × Apart path unbound_runtime_config
      × Apart path unbound_recursive_runtime_config
      × Apart path mosdns_runtime_config

  module _ {before after : Fs} (s : Passed before after) (path : String)
      (free : IsTemplate path) where
    pub template_at3 : lookup path s.fs3 ≡ lookup path before
    template_at3 =
        Keeps-step path (install_anchor os) s.fs2 s.fs3 (Keeps-install_anchor os path free.1)
          s.anchored
        ∙ Keeps-step path (lists os cfg) s.fs1 s.fs2
            (Keeps-lists os path data_dir (defaults_dir os cfg) domain_lists free.0) s.listed
        ∙ Keeps-step path (make_dirs os (dirs os cfg)) before s.fs1
            (Keeps-make_dirs os path (dirs os cfg)) s.made

    pub template_at4 : lookup path s.fs4 ≡ lookup path before
    template_at4 =
        Keeps-step path (unbound_template os cfg) s.fs3 s.fs4 (Keeps-unbound os cfg path free.2)
          s.unbound
        ∙ template_at3

    pub template_at5 : lookup path s.fs5 ≡ lookup path before
    template_at5 =
        Keeps-step path (recursive_template os cfg) s.fs4 s.fs5 (Keeps-recursive os cfg path free.3)
          s.recursive
        ∙ template_at4

    pub template_at6 : lookup path s.fs6 ≡ lookup path before
    template_at6 =
        Keeps-step path (mosdns_template os cfg) s.fs5 s.fs6 (Keeps-mosdns os cfg path free.4)
          s.mosdns
        ∙ template_at5

  -- What each configuration is after its own stage, it is at the end.
  module _ {before after : Fs} (s : Passed before after) where
    pub unbound_kept : lookup unbound_runtime_config after ≡ lookup unbound_runtime_config s.fs4
    unbound_kept =
        let path = unbound_runtime_config in
        Keeps-step path (from_recursive os cfg) s.fs4 after
          (Keeps-from_recursive os cfg path (refl, refl)
            (Keeps-from_mosdns os cfg path (refl, refl)
              (Keeps-finish os cfg path (refl, refl) refl refl)))
          s.after_unbound

    pub recursive_kept :
        lookup unbound_recursive_runtime_config after
        ≡ lookup unbound_recursive_runtime_config s.fs5
    recursive_kept =
        let path = unbound_recursive_runtime_config in
        Keeps-step path (from_mosdns os cfg) s.fs5 after
          (Keeps-from_mosdns os cfg path (refl, refl)
            (Keeps-finish os cfg path (refl, refl) refl refl))
          s.after_recursive

    pub mosdns_kept : lookup mosdns_runtime_config after ≡ lookup mosdns_runtime_config s.fs6
    mosdns_kept =
        Keeps-step mosdns_runtime_config (finish os cfg) s.fs6 after
          (Keeps-finish os cfg mosdns_runtime_config (refl, refl) refl refl) s.after_mosdns

    pub foreign_kept : lookup foreign_runtime_config after ≡ lookup foreign_runtime_config s.fs7
    foreign_kept =
        Keeps-step foreign_runtime_config (remove_pids os >> check_configs os configs) s.fs7 after
          (Keeps-pids_on os cfg foreign_runtime_config refl refl) s.after_foreign
