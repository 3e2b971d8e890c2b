-- ===== src/Doh/Failover.antt =====
-- The loop of `ServeDNS` in cmd/guarddns/dohbridge.go, over the upstreams in order.
use mathlib.Core.Path.{subst}
use guard_dns.Prelude.{
  ◌≡◌, refl, sym, ap, ◌∙◌, ◌⊎◌, inl, inr, true, false, List, [], ◌∷◌, ◌++◌, Bool-cases,
}
use guard_dns.Dns.{Msg}
use guard_dns.State.{RuntimeState}
use guard_dns.Doh.Exchange.{ExchangeError, Result, ok, err, Upstream, exchange}
use guard_dns.Doh.Bridge.{
  LastError, resolver_failed, context_ended, Resolver, served, exhausted, Served, untouched, after,
  judge, serve_loop,
}

-- These resolvers, called in order from the state `s`, all fail while the query goes on. They leave
-- the state `t` and the upstreams `us`.
pub data Fails (query : Msg)
    : RuntimeState → List Resolver → RuntimeState → List Upstream → Type 0 where
  nothing : {s : RuntimeState} → Fails query s [] s []
  failing :
      {s t : RuntimeState} {rs : List Resolver} {us : List Upstream} (r : Resolver)
      (e : ExchangeError) (s' : RuntimeState) (u : Upstream)
      → exchange r.env query r.upstream s ≡ (u, s', err e)
      → r.ended ≡ false
      → Fails query s' rs t us
      → Fails query s (r ∷ rs) t (u ∷ us)

-- The first answer: all before it fail, and none after it is called.
pub record FirstAnswer (query : Msg) (s : RuntimeState) (resolvers : List Resolver)
    (us : List Upstream) (t : RuntimeState) (m : Msg) : Type 0 where
  pub before : List Resolver
  pub answering : Resolver
  pub later : List Resolver
  pub tried : List Upstream
  pub middle : RuntimeState
  pub answered : Upstream
  pub splits : resolvers ≡ before ++ answering ∷ later
  pub fails : Fails query s before middle tried
  pub answers : exchange answering.env query answering.upstream middle ≡ (answered, t, ok m)
  pub upstreams : us ≡ tried ++ answered ∷ untouched later

pub Result-cases : (r : Result Msg) → ((m : Msg) × (r ≡ ok m)) ⊎ ((e : ExchangeError) × (r ≡ err e))
Result-cases (ok m) = inl (m, refl)
Result-cases (err e) = inr (e, refl)

module _ (query : Msg) where
  pub loop_ok :
      (r : Resolver) (rs : List Resolver) (s : RuntimeState) (last : LastError) {m : Msg}
      → (exchange r.env query r.upstream s).2 ≡ ok m
      → let (u, s', reply) = exchange r.env query r.upstream s in
        serve_loop (r ∷ rs) query s last ≡ (u ∷ untouched rs, s', served m)
  unfolding serve_loop
  loop_ok r rs s last e = rw (e, judge)

  pub loop_ended :
      (r : Resolver) (rs : List Resolver) (s : RuntimeState) (last : LastError) {e : ExchangeError}
      → (exchange r.env query r.upstream s).2 ≡ err e
      → r.ended ≡ true
      → let (u, s', reply) = exchange r.env query r.upstream s in
        serve_loop (r ∷ rs) query s last ≡ (u ∷ untouched rs, s', exhausted context_ended)
  unfolding serve_loop
  loop_ended r rs s last e h = rw (e, h, judge)

  pub loop_goes_on :
      (r : Resolver) (rs : List Resolver) (s : RuntimeState) (last : LastError) {e : ExchangeError}
      → (exchange r.env query r.upstream s).2 ≡ err e
      → r.ended ≡ false
      → let (u, s', reply) = exchange r.env query r.upstream s in
        serve_loop (r ∷ rs) query s last ≡ after u (serve_loop rs query s' (resolver_failed e))
  unfolding serve_loop
  loop_goes_on r rs s last e h = rw (e, h, judge)

  prepend :
      (r : Resolver) (rs : List Resolver) (s : RuntimeState) {us : List Upstream} {t : RuntimeState}
      {m : Msg} (e : ExchangeError)
      → let (u, s', reply) = exchange r.env query r.upstream s in
        reply ≡ err e
        → r.ended ≡ false
        → FirstAnswer query s' rs us t m
        → FirstAnswer query s (r ∷ rs) (u ∷ us) t m
  prepend r rs s e failed on f = record {
    before = r ∷ f.before;
    answering = f.answering;
    later = f.later;
    tried = (exchange r.env query r.upstream s).0 ∷ f.tried;
    middle = f.middle;
    answered = f.answered;
    splits = ap (λ xs. r ∷ xs) f.splits;
    fails = failing r e _ _ (ap (λ y. (x.0, x.1, y)) failed) on f.fails;
    answers = f.answers;
    upstreams = ap (λ xs. (exchange r.env query r.upstream s).0 ∷ xs) f.upstreams;
  }
    where
      x : Upstream × RuntimeState × Result Msg
      x = exchange r.env query r.upstream s

  abbrev pub loop : List Resolver → RuntimeState → LastError → Served
  loop rs s last = serve_loop rs query s last

  pub loop_served :
      (rs : List Resolver) (s : RuntimeState) (last : LastError) (m : Msg)
      → (loop rs s last).2 ≡ served m
      → FirstAnswer query s rs (loop rs s last).0 (loop rs s last).1 m
  loop_served [] s last m h = unfold serve_loop in cc
  loop_served (r ∷ rs) s last m h =
      let x = exchange r.env query r.upstream s in
      let goal = λ (y : Served). FirstAnswer query s (r ∷ rs) y.0 y.1 m in
      elim (Result-cases x.2) [
        | inl (a, e) ↦
            let whole = loop_ok r rs s last e in
            let z = sym (ap (λ y. y.2) whole) ∙ h in
            let same : a ≡ m = cc in
            subst goal (sym whole) (record {
              before = [];
              answering = r;
              later = rs;
              tried = [];
              middle = s;
              answered = x.0;
              splits = refl;
              fails = nothing;
              answers = ap (λ y. (x.0, x.1, y)) (e ∙ ap ok same);
              upstreams = refl;
            })
        | inr (e, f) ↦ elim (Bool-cases r.ended) [
          | inl over ↦ let bad = sym (ap (λ y. y.2) (loop_ended r rs s last f over)) ∙ h in cc
          | inr on ↦
              let whole = loop_goes_on r rs s last f on in
              let inner =
                loop_served rs x.1 (resolver_failed e) m (sym (ap (λ y. y.2) whole) ∙ h) in
              subst goal (sym whole) (prepend r rs s e f on inner)
        ]
      ]

  loop_after_failures :
      {s t : RuntimeState} {before : List Resolver} {tried : List Upstream} (later : List Resolver)
      (last : LastError)
      → Fails query s before t tried
      → (next : LastError) × (loop (before ++ later) s last
          ≡ ((tried ++ (loop later t next).0), (loop later t next).1, (loop later t next).2))
  loop_after_failures later last nothing = (last, refl)
  loop_after_failures later last (failing {rs} r e s' u x on fs) =
      let (next, ih) = loop_after_failures later (resolver_failed e) fs in
      (
        next,
        loop_goes_on r (rs ++ later) _ last (ap (λ y. y.2) x) on
            ∙ ap (λ y. after y.0 (serve_loop (rs ++ later) query y.1 (resolver_failed e))) x
            ∙ ap (after u) ih,
      )

  pub FirstAnswer-served :
      {s t : RuntimeState} {rs : List Resolver} {us : List Upstream} {m : Msg} (last : LastError)
      → FirstAnswer query s rs us t m
      → loop rs s last ≡ (us, t, served m)
  FirstAnswer-served {s} {t} {m} last f =
      let (next, passed) = loop_after_failures (f.answering ∷ f.later) last f.fails in
      let found =
        loop_ok f.answering f.later f.middle next (ap (λ y. y.2) f.answers)
        ∙ ap (λ y. (y.0 ∷ untouched f.later, y.1, served m)) f.answers in
      ap (λ xs. loop xs s last) f.splits
      ∙ passed
      ∙ ap (λ y. (f.tried ++ y.0, y.1, y.2)) found
      ∙ ap (λ xs. (xs, t, served m)) (sym f.upstreams)
