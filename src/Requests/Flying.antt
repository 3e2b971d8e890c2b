-- ===== src/Requests/Flying.antt =====
-- Queries that pass through the collector of internal/requestmetricsplugin/collector.go at once.
use guard_dns.Prelude.{
  ℕ, ◌+◌, ◌≡◌, refl, ap, ◌∙◌, Bool, true, false, not, ◌&&◌, Option, none, some, List, [], ◌∷◌, ◌++◌,
  arith, length, length-append, sub_time, is_some, if◌then◌else◌,
}
use guard_dns.Cancel.{Err, expected}
use guard_dns.Requests.{
  Collector, Outcome, fresh_collector, milliseconds, count_error, observe, enter, leave,
}

-- The collector, when each query that is in its sequence came in, and how the others went out.
pub record System : Type 0 where
  pub collector : Collector
  pub flying : List ℕ
  pub gone : List Outcome

abbrev pub idle_system : System
idle_system = record { collector = fresh_collector; flying = []; gone = [] }

module _ (lower : ℕ → ℕ) where
  abbrev pub entered : ℕ → System → System
  entered now s = record s { collector = enter s.collector; flying = now ∷ s.flying }

  -- The query that came in behind those of `front` goes out.
  abbrev pub left : List ℕ → ℕ → List ℕ → ℕ → Outcome → System → System
  left front started back now o s = record {
    collector = leave lower started now o s.collector;
    flying = front ++ back;
    gone = o ∷ s.gone;
  }

  -- The states that queries reach, in any order of coming in and going out.
  pub data Reached : System → Type 0 where
    idle : Reached idle_system
    comes : {s : System} → Reached s → (now : ℕ) → Reached (entered now s)
    goes :
        {s : System}
        → Reached s
        → (front back : List ℕ) (started now : ℕ) (o : Outcome) → s.flying ≡ front ++ started ∷ back
        → Reached (left front started back now o s)

  abbrev is_expected : Outcome → Bool
  is_expected o = expected lower o.err

  abbrev is_failed : Outcome → Bool
  is_failed o = is_some o.err && not (expected lower o.err)

  abbrev pub number : (Outcome → Bool) → List Outcome → ℕ
  number test [] = 0
  number test (o ∷ os) = (if test o then 1 else 0) + number test os

  abbrev pub IsCounted : System → Type 0
  IsCounted s =
      (s.collector.thread ≡ length s.flying)
      × (s.collector.query_total ≡ length s.flying + length s.gone)
      × (s.collector.canceled_total ≡ number is_expected s.gone)
      × (s.collector.err_total ≡ number is_failed s.gone)
      × (length s.collector.response_latency ≡ number (λ o. o.answered) s.gone)

  enter-IsCounted : (now : ℕ) (s : System) → IsCounted s → IsCounted (entered now s)
  unfolding enter
  enter-IsCounted now s (t, q, c, e, l) = (omega (arith, t), omega (arith, q), c, e, l)

  -- What one leaving query adds to the counters.
  abbrev Adds : Outcome → Collector → Collector → Type 0
  Adds o c d =
      (d.thread ≡ c.thread)
      × (d.query_total ≡ c.query_total)
      × (d.canceled_total ≡ (if is_expected o then 1 else 0) + c.canceled_total)
      × (d.err_total ≡ (if is_failed o then 1 else 0) + c.err_total)
      × (length d.response_latency ≡ (if o.answered then 1 else 0) + length c.response_latency)

  counted-Adds :
      (err : Option Err) (answered : Bool) (ms : ℕ) (c : Collector)
      → Adds
          (record { err = err; answered = answered })
          c
          (observe lower answered ms (count_error lower err c))
  unfolding expected
  counted-Adds none true ms c = ground arith
  counted-Adds none false ms c = ground arith
  counted-Adds (some e) true ms c = ground arith
  counted-Adds (some e) false ms c = ground arith

  leave-IsCounted :
      (front back : List ℕ) (started now : ℕ) (o : Outcome) (s : System)
      → s.flying ≡ front ++ started ∷ back
      → IsCounted s
      → IsCounted (left front started back now o s)
  unfolding leave
  leave-IsCounted front back started now o s f (t, q, c, e, l) =
      let size = ap length f ∙ length-append front (started ∷ back) in
      let (t', q', c', e', l') =
        counted-Adds o.err o.answered (milliseconds (sub_time now started)) s.collector in
      (
        omega (arith, size, length-append front back, t, t'),
        omega (arith, size, length-append front back, q, q'),
        omega (arith, c, c'),
        omega (arith, e, e'),
        omega (arith, l, l'),
      )

  -- Whatever queries pass through the collector at once, in whatever order they come in and go out:
  -- the thread gauge is the number of those inside, and the total is the number of those inside and
  -- those that have gone; of those that have gone, the canceled counter has those whose client went
  -- away, the error counter the others that failed, and there is a latency for each that was answered.
  pub Reached-IsCounted : (s : System) → Reached s → IsCounted s
  Reached-IsCounted s idle = (refl, refl, refl, refl, refl)
  Reached-IsCounted s (comes {s = t} r now) = enter-IsCounted now t (Reached-IsCounted t r)
  Reached-IsCounted s (goes {s = t} r front back started now o f) =
      leave-IsCounted front back started now o t f (Reached-IsCounted t r)
