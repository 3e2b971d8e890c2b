-- ===== src/Doh/Exhausted.antt =====
-- The loop of `ServeDNS` in cmd/guarddns/dohbridge.go where no upstream answers: with which error it ends.
use mathlib.Core.Path.{subst}
use guard_dns.Prelude.{
  ◌≡◌, refl, sym, ap, ◌∙◌, ◌⊎◌, inl, inr, true, false, List, [], ◌∷◌, ◌++◌, Bool-cases,
}
use guard_dns.Dns.{Msg}
use guard_dns.State.{RuntimeState}
use guard_dns.Doh.Exchange.{ExchangeError, Result, err, Upstream, exchange}
use guard_dns.Doh.Bridge.{
  LastError, resolver_failed, context_ended, Resolver, exhausted, Served, untouched, serve_loop,
}
use guard_dns.Doh.Failover.{
  Fails, nothing, failing, Result-cases, loop, loop_ok, loop_ended, loop_goes_on,
}

-- The last failure: all before it fail while the query goes on, and then a resolver fails with an error.
-- Either the query has ended by then, which is the error, and none behind it is called; or that resolver
-- is the last one, and its error is the error.
pub record LastFailure (query : Msg) (s : RuntimeState) (resolvers : List Resolver)
    (us : List Upstream) (t : RuntimeState) (last : LastError) : Type 0 where
  pub before : List Resolver
  pub giving_up : Resolver
  pub later : List Resolver
  pub tried : List Upstream
  pub middle : RuntimeState
  pub failed : Upstream
  pub error : ExchangeError
  pub splits : resolvers ≡ before ++ giving_up ∷ later
  pub fails : Fails query s before middle tried
  pub errs : exchange giving_up.env query giving_up.upstream middle ≡ (failed, t, err error)
  pub upstreams : us ≡ tried ++ failed ∷ untouched later
  pub ends :
      ((giving_up.ended ≡ true) × (last ≡ context_ended))
      ⊎ ((giving_up.ended ≡ false) × (later ≡ []) × (last ≡ resolver_failed error))

-- The error without an answer: the last failure's, or `first` where there is no resolver at all.
abbrev pub IsLast :
    (query : Msg) (first : LastError) (s : RuntimeState) (resolvers : List Resolver)
    (us : List Upstream) (t : RuntimeState) (last : LastError)
    → Type 0
IsLast query first s resolvers us t last =
    ((resolvers ≡ []) × (us ≡ []) × (t ≡ s) × (last ≡ first))
    ⊎ LastFailure query s resolvers us t last

module _ (query : Msg) where
  last_here :
      (r : Resolver) (later : List Resolver) (s : RuntimeState) (e : ExchangeError)
      (us : List Upstream) (last : LastError)
      → let (u, s', reply) = exchange r.env query r.upstream s in
        reply ≡ err e
        → us ≡ u ∷ untouched later
        → ((r.ended ≡ true) × (last ≡ context_ended))
          ⊎ ((r.ended ≡ false) × (later ≡ []) × (last ≡ resolver_failed e))
        → LastFailure query s (r ∷ later) us s' last
  last_here r later s e us last failed same ends = record {
    before = [];
    giving_up = r;
    later = later;
    tried = [];
    middle = s;
    failed = (exchange r.env query r.upstream s).0;
    error = e;
    splits = refl;
    fails = nothing;
    errs =
        ap
          (λ (y : Result Msg).
            ((exchange r.env query r.upstream s).0, (exchange r.env query r.upstream s).1, y))
          failed;
    upstreams = same;
    ends = ends;
  }

  last_behind :
      (r : Resolver) (rs : List Resolver) (s : RuntimeState) (e : ExchangeError)
      (us : List Upstream) (t : RuntimeState) (last : LastError)
      → let (u, s', reply) = exchange r.env query r.upstream s in
        reply ≡ err e
        → r.ended ≡ false
        → IsLast query (resolver_failed e) s' rs us t last
        → LastFailure query s (r ∷ rs) (u ∷ us) t last
  last_behind r rs s e us t last failed on (inl (none_left, untried, same, first)) =
      let x = exchange r.env query r.upstream s in
      let here =
        last_here r rs s e (x.0 ∷ us) last failed
          (ap (λ ys. x.0 ∷ ys) (untried ∙ sym (ap untouched none_left)))
          (inr (on, none_left, first)) in
      subst (λ y. LastFailure query s (r ∷ rs) (x.0 ∷ us) y last) (sym same) here
  last_behind r rs s e us t last failed on (inr f) = record {
    before = r ∷ f.before;
    giving_up = f.giving_up;
    later = f.later;
    tried = (exchange r.env query r.upstream s).0 ∷ f.tried;
    middle = f.middle;
    failed = f.failed;
    error = f.error;
    splits = ap (λ xs. r ∷ xs) f.splits;
    fails =
        failing r e _ _
          (ap
            (λ (y : Result Msg).
              ((exchange r.env query r.upstream s).0, (exchange r.env query r.upstream s).1, y))
            failed)
          on f.fails;
    errs = f.errs;
    upstreams = ap (λ xs. (exchange r.env query r.upstream s).0 ∷ xs) f.upstreams;
    ends = f.ends;
  }

  pub loop_exhausted :
      (rs : List Resolver) (s : RuntimeState) (first last : LastError)
      → (loop query rs s first).2 ≡ exhausted last
      → IsLast query first s rs (loop query rs s first).0 (loop query rs s first).1 last
  loop_exhausted [] s first last h = unfold serve_loop in inl (refl, refl, refl, cc)
  loop_exhausted (r ∷ rs) s first last h =
      let x = exchange r.env query r.upstream s in
      let goal = λ (y : Served). IsLast query first s (r ∷ rs) y.0 y.1 last in
      elim (Result-cases x.2) [
        | inl (a, e) ↦ let bad = sym (ap (λ y. y.2) (loop_ok query r rs s first e)) ∙ h in cc
        | inr (e, f) ↦ elim (Bool-cases r.ended) [
          | inl over ↦
              let whole = loop_ended query r rs s first f over in
              let z = sym (ap (λ y. y.2) whole) ∙ h in
              let is_last : last ≡ context_ended = cc in
              subst goal (sym whole)
                (inr (last_here r rs s e (x.0 ∷ untouched rs) last f refl (inl (over, is_last))))
          | inr on ↦
              let whole = loop_goes_on query r rs s first f on in
              let inner =
                loop_exhausted rs x.1 (resolver_failed e) last (sym (ap (λ y. y.2) whole) ∙ h) in
              let rest = loop query rs x.1 (resolver_failed e) in
              subst goal (sym whole) (inr (last_behind r rs s e rest.0 rest.1 last f on inner))
        ]
      ]
