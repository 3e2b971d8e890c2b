-- ===== src/Supervisor/Scrape.antt =====
-- What `Collect` of internal/supervisorplugin/plugin.go sends.
use guard_dns.Prelude.{
  ℕ, suc, ◌+◌, ◌-◌, ◌*◌, ◌≤◌, ◌<◌, ◌≡◌, refl, ap, ◌∙◌, false, Option, none, some, List, [], ◌∷◌,
  ◌++◌, String, arith, All, All-append, length, length-append, get_elem?, ◌==◌, if◌then◌else◌,
  two_62, two_63, ltb_i64, ltb, lt→ltb, if_true, if_false, sub_time, millisecond, second,
}
use guard_dns.State.{DohObservation, unix_epoch, unix_milli, observed}
use guard_dns.Wire.{Component, DohUpstream}
use guard_dns.Supervisor.{Plugin}
use guard_dns.Supervisor.Metrics.{
  Desc, Metric, must_new_const_metric, describe, sequence, component_metrics, upstream_metrics,
  each, collect, remaining_backoff, time_of_unix_milli, state_age_desc, gauge_value,
}

abbrev pub Among : Desc → List Desc → Type 0
Among d ds = (i : ℕ) × (get_elem? ds i ≡ some d)

-- The registry takes a metric with a description that it knows and a value for each of its labels.
abbrev pub IsDescribed : Metric → Type 0
IsDescribed m = Among m.desc describe × (length m.label_values ≡ length m.desc.labels)

abbrev IsSent : Option Metric → Type 0
IsSent none = ⊥
IsSent (some m) = IsDescribed m

abbrev pub Sends : ℕ → Option (List Metric) → Type 0
Sends n o = (ms : List Metric) × (o ≡ some ms) × (length ms ≡ n) × All IsDescribed ms

sequence-Sends : (os : List (Option Metric)) → All IsSent os → Sends (length os) (sequence os)
sequence-Sends [] h = ([], refl, refl, tt)
sequence-Sends (none ∷ os) h = elim h.0 [ ]
sequence-Sends (some m ∷ os) h =
    let (ms, e, n, d) = sequence-Sends os h.1 in (m ∷ ms, rw e refl, ap suc n, (h.0, d))

-- A metric for every entry, each of a number of parts.
each-IsSent :
    {A : Type 0} (f : A → List (Option Metric))
    → ((x : A) → All IsSent (f x))
    → (xs : List A) → All IsSent (each f xs)
each-IsSent f h [] = tt
each-IsSent f h (x ∷ xs) = All-append IsSent (f x) (each f xs) (h x) (each-IsSent f h xs)

length-each :
    {A : Type 0} (f : A → List (Option Metric)) (n : ℕ)
    → ((x : A) → length (f x) ≡ n)
    → (xs : List A) → length (each f xs) ≡ n * length xs
length-each f n h [] = omega arith
length-each f n h (x ∷ xs) =
    omega (arith, length-append (f x) (each f xs), h x, length-each f n h xs)

component-IsSent : (x : String × Component) → All IsSent (component_metrics x)
component-IsSent (name, c) =
    (((0, refl), refl), (((1, refl), refl), (((2, refl), refl), (((3, refl), refl), tt))))

upstream-IsSent : (now : ℕ) (x : String × DohUpstream) → All IsSent (upstream_metrics now x)
upstream-IsSent now (name, u) = (
  ((5, refl), refl),
  (
    ((6, refl), refl),
    (
      ((7, refl), refl),
      (
        ((8, refl), refl),
        (((9, refl), refl), (((10, refl), refl), (((11, refl), refl), (((12, refl), refl), tt)))),
      ),
    ),
  ),
)

-- A scrape never panics, whatever snapshot was received: each component sends four metrics, each
-- upstream eight, and the age of the state one more; and each has a description that `Describe` gives
-- to the registry, with a value for each of its labels.
pub collect-Sends :
    (now : ℕ) (p : Plugin)
    → Sends
        (4 * length p.snapshot.components + 1 + 8 * length p.snapshot.doh_upstreams)
        (collect now p)
unfolding collect
collect-Sends now p =
    let age = if p.received_at == 0 then 0 else sub_time now p.received_at in
    let components = each component_metrics p.snapshot.components in
    let state =
      must_new_const_metric state_age_desc gauge_value (record { amount = age; unit = second })
        [] in
    let upstreams = each (upstream_metrics now) p.snapshot.doh_upstreams in
    let (ms, e, n, d) = sequence-Sends (components ++ state ∷ upstreams) (
      All-append IsSent components (state ∷ upstreams)
        (each-IsSent component_metrics component-IsSent p.snapshot.components)
        (
          ((4, refl), refl),
          each-IsSent (upstream_metrics now) (upstream-IsSent now) p.snapshot.doh_upstreams,
        )) in
    (
      ms,
      e,
      omega (
        arith,
        n,
        length-append components (state ∷ upstreams),
        length-each component_metrics 4 (λ x. refl) p.snapshot.components,
        length-each (upstream_metrics now) 8 (λ x. refl) p.snapshot.doh_upstreams,
      ),
      d,
    )

milli-bounds :
    (t : ℕ)
    → unix_epoch ≤ t
    → (unix_epoch + unix_milli t * millisecond ≤ t)
      × (t < unix_epoch + unix_milli t * millisecond + millisecond)
milli-bounds t h = (omega arith, omega arith)

left_over :
    (target now : ℕ)
    → target < unix_epoch + two_62
    → unix_epoch ≤ now
    → now < unix_epoch + two_62
    → (if ltb_i64 (sub_time target now) 0 then 0 else sub_time target now) ≡ target - now
left_over target now t n m = ground arith

remaining_backoff-at :
    (u : DohUpstream) (now ms : ℕ)
    → u.retry_at_unix_milli ≡ ms
    → 0 < ms
    → unix_epoch + ms * millisecond < unix_epoch + two_62
    → unix_epoch ≤ now
    → now < unix_epoch + two_62
    → remaining_backoff u now ≡ (unix_epoch + ms * millisecond) - now
unfolding remaining_backoff
remaining_backoff-at u now ms e p t n m =
    let left : ℕ → ℕ =
      λ target. (if ltb_i64 (sub_time target now) 0 then 0 else sub_time target now) in
    let set : (u.retry_at_unix_milli == 0) ≡ false = ground (arith, e, p) in
    let target : time_of_unix_milli u.retry_at_unix_milli ≡ unix_epoch + ms * millisecond =
      rw e (if_true (ltb ms two_63) _ _ (lt→ltb ms two_63 (omega (arith, t)))) in
    if_false (u.retry_at_unix_milli == 0) 0 (left (time_of_unix_milli u.retry_at_unix_milli)) set
    ∙ ap left target
    ∙ left_over (unix_epoch + ms * millisecond) now t n m

-- For an upstream whose retry time was observed, the gauge of its backoff shows, at any later time,
-- what is left until then: never more, and short of it by less than a millisecond.
pub remaining_backoff-bounds :
    (result : DohObservation) (duration retry_at seen now : ℕ) (u : DohUpstream)
    → unix_epoch + millisecond ≤ retry_at
    → unix_epoch ≤ now
    → retry_at < unix_epoch + two_62
    → now < unix_epoch + two_62
    → let shown = remaining_backoff (observed result duration retry_at seen u) now in
      (shown ≤ retry_at - now) × (retry_at - now < shown + millisecond)
unfolding remaining_backoff observed
remaining_backoff-bounds result duration retry_at seen now u r n rb nb =
    let ms = unix_milli retry_at in
    let (low, high) = milli-bounds retry_at (omega (arith, r)) in
    let set : (observed result duration retry_at seen u).retry_at_unix_milli ≡ ms =
      if_false (retry_at == 0) 0 ms (ground (arith, r)) in
    let shown =
      remaining_backoff-at (observed result duration retry_at seen u) now ms set
        (omega (arith, r, low, high)) (omega (arith, low, rb)) n nb in
    (omega (arith, shown, low, high), omega (arith, shown, low, high))
