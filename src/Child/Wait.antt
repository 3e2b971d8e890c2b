-- ===== src/Child/Wait.antt =====
-- `waitForTCP` of cmd/guarddns/process.go: it dials a child until the child answers, the context ends,
-- or the time is over.
use guard_dns.Prelude.{
  ℕ, zero, suc, ◌+◌, ◌*◌, ◌/◌, ◌≤◌, ◌<◌, ◌≡◌, refl, Bool, true, false, Option, some, none, ltb,
  ltb→lt, arith, inl, inr, Bool-cases, if◌then◌else◌, if_false, millisecond,
}

abbrev pub pause : ℕ
pause = 100 * millisecond

-- One round: the time when it begins, whether the dial succeeds, and whether the context has ended by
-- the end of the pause.
pub record Attempt : Type 0 where
  pub now : ℕ
  pub connects : Bool
  pub cancelled : Bool

pub data Waited : Type 0 where
  ready interrupted timed_out : Waited

-- The loop, on the rounds that are left; `none` if they do not suffice.
unfoldable pub wait_loop : (ℕ → Attempt) → (deadline rounds i : ℕ) → Option Waited
wait_loop env deadline zero i = none
wait_loop env deadline (suc rounds) i =
    let later = wait_loop env deadline rounds (suc i) in
    if ltb (env i).now deadline
    then (if (env i).connects
        then some ready
        else if (env i).cancelled
        then some interrupted
        else later)
    else some timed_out

-- `begun` is when it is called, and `timeout` how long it may take.
unfoldable pub wait_for_tcp : (ℕ → Attempt) → (begun timeout : ℕ) → Option Waited
unfolding wait_loop
wait_for_tcp env begun timeout = wait_loop env (begun + timeout) (suc (suc (timeout / pause))) 0

-- The first `k` rounds began in time, and neither did their dial succeed nor did the context end.
abbrev pub AllFailed : (ℕ → Attempt) → (deadline k : ℕ) → Type 0
AllFailed env deadline zero = Unit
AllFailed env deadline (suc k) =
    AllFailed env deadline k
    × ((env k).now < deadline)
    × ((env k).connects ≡ false)
    × ((env k).cancelled ≡ false)

-- How a round ends the loop.
abbrev pub EndsWith : Attempt → (deadline : ℕ) → Waited → Type 0
EndsWith a deadline ready = (a.now < deadline) × (a.connects ≡ true)
EndsWith a deadline interrupted = (a.now < deadline) × (a.connects ≡ false) × (a.cancelled ≡ true)
EndsWith a deadline timed_out = deadline ≤ a.now

-- What the result tells of the rounds: which of them ended the loop, and that none before it did.
abbrev pub Explains : (ℕ → Attempt) → (deadline : ℕ) → Waited → Type 0
Explains env deadline r = (k : ℕ) × AllFailed env deadline k × EndsWith (env k) deadline r

-- A round by which the time is over ends the loop, and one before that leads on or ends it.
wait_loop-over :
    (env : ℕ → Attempt) (deadline rounds i : ℕ)
    → deadline ≤ (env i).now
    → wait_loop env deadline (suc rounds) i ≡ some timed_out
unfolding wait_loop
wait_loop-over env deadline rounds i over =
    if_false (ltb (env i).now deadline) _ _ (ground (arith, over))

wait_loop-round :
    (env : ℕ → Attempt) (deadline rounds i : ℕ)
    → ltb (env i).now deadline ≡ true
    → AllFailed env deadline i
    → (AllFailed env deadline (suc i)
        → (r : Waited) × (wait_loop env deadline rounds (suc i) ≡ some r) × Explains env deadline r)
    → (r : Waited) × (wait_loop env deadline (suc rounds) i ≡ some r) × Explains env deadline r
unfolding wait_loop
wait_loop-round env deadline rounds i early failed next =
    let in_time = ltb→lt (env i).now deadline early in
    elim (Bool-cases (env i).connects) [
      | inl up ↦ (ready, rw (early, up) refl, (i, failed, (in_time, up)))
      | inr down ↦ elim (Bool-cases (env i).cancelled) [
        | inl ended ↦
            (interrupted, rw (early, down, ended) refl, (i, failed, (in_time, down, ended)))
        | inr going ↦
            let (r, e, x) = next (failed, in_time, down, going) in (r, rw (early, down, going) e, x)
      ]
    ]

wait_loop-total :
    (env : ℕ → Attempt) (deadline rounds i : ℕ)
    → ((k : ℕ) → (env k).now + pause ≤ (env (suc k)).now)
    → deadline ≤ (env i).now + rounds * pause
    → AllFailed env deadline i
    → (r : Waited) × (wait_loop env deadline (suc rounds) i ≡ some r) × Explains env deadline r
wait_loop-total env deadline zero i steps enough failed =
    let over : deadline ≤ (env i).now = omega (arith, enough) in
    (timed_out, wait_loop-over env deadline zero i over, (i, failed, over))
wait_loop-total env deadline (suc rounds) i steps enough failed =
    elim (Bool-cases (ltb (env i).now deadline)) [
      | inr late ↦
          let over : deadline ≤ (env i).now = ground (arith, late) in
          (timed_out, wait_loop-over env deadline (suc rounds) i over, (i, failed, over))
      | inl early ↦
          wait_loop-round env deadline (suc rounds) i early failed
            (wait_loop-total env deadline rounds (suc i) steps (omega (arith, enough, steps i)))
    ]

-- Where the pause of each round takes its 100 ms, waitForTCP returns after at most as many rounds as
-- there are pauses in the time that it has, and two more. Which result it gives is settled by the first
-- round that does not begin in time with a dial that fails and a context that goes on: no error if that
-- round begins in time and its dial succeeds, the error of the context if its dial fails and the context
-- has ended, and that the time is over if it does not begin in time.
pub wait_for_tcp_total :
    (env : ℕ → Attempt) (begun timeout : ℕ)
    → ((k : ℕ) → (env k).now + pause ≤ (env (suc k)).now)
    → begun ≤ (env 0).now
    → (r : Waited) × (wait_for_tcp env begun timeout ≡ some r) × Explains env (begun + timeout) r
unfolding wait_for_tcp
wait_for_tcp_total env begun timeout steps late =
    wait_loop-total env (begun + timeout) (suc (timeout / pause)) 0 steps (omega (arith, late)) tt
