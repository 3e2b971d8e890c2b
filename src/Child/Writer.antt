-- ===== src/Child/Writer.antt =====
-- `childLogWriter` of cmd/guarddns/process.go: the output of a child is cut into lines, and each goes to
-- the deduper and, unless that suppresses it, to the destination. `suppress` stands for the deduper with
-- its state and its clock, `takes` for a write to the destination that succeeds.
pub mod Chunks
use mathlib.Core.Path.{subst}
use guard_dns.Prelude.{
  ℕ, zero, suc, ◌+◌, ◌≤◌, ◌<◌, ◌≡◌, refl, sym, ap, ◌∙◌, Bool, true, false, Option, none, some, List,
  [], ◌∷◌, ◌++◌, arith, Option-cases, Bool-cases, inl, inr, if◌then◌else◌, length, length-append,
}
use guard_dns.Prelude.Text.{Text, is_empty, cut}
use guard_dns.Prelude.Search.{cut-some}

pub record Writer (D : Type 0) : Type 0 where
  pub pending : Text
  pub deduper : D
  pub written : List Text

module _ {D : Type 0} (suppress : D → Text → D × Bool) (takes : Text → Bool) where
  -- What becomes of a line. The answer is whether the destination took it, if it was to.
  abbrev pub pass_on : Text → D × Bool → Writer D → Writer D × Bool
  pass_on line (d, true) w = (record w { deduper = d }, true)
  pass_on line (d, false) w =
      (record w { deduper = d; written = w.written ++ line ∷ [] }, takes line)

  abbrev pub after_line :
      Writer D × Bool → (Writer D → Option (Writer D × Bool)) → Option (Writer D × Bool)
  after_line (w, true) next = next w
  after_line (w, false) next = some (w, false)

  -- One round: the first line of what is pending, or the end.
  abbrev pub round :
      Option (Text × Text)
      → (Writer D → Option (Writer D × Bool))
      → Writer D
      → Option (Writer D × Bool)
  round none next w = some (w, true)
  round (some (front, rest)) next w =
      let line = front ++ b'\n' ∷ [] in
      after_line (pass_on line (suppress w.deduper line) (record w { pending = rest })) next

  -- The loop of `Write`, on the rounds that are left; `none` if they do not suffice. It ends with the
  -- first line that the destination does not take.
  unfoldable pub write_loop : ℕ → Writer D → Option (Writer D × Bool)
  unfolding cut
  write_loop zero w = none
  write_loop (suc rounds) w = round (cut b'\n' w.pending) (write_loop rounds) w

  abbrev pub append : Text → Writer D → Writer D
  append p w = record w { pending = w.pending ++ p }

  unfoldable pub write : Text → Writer D → Option (Writer D × Bool)
  unfolding write_loop
  write p w = write_loop (suc (length (w.pending ++ p))) (append p w)

  unfoldable pub flush : Writer D → Writer D × Bool
  flush w =
      if is_empty w.pending
      then (w, true)
      else pass_on w.pending (suppress w.deduper w.pending) (record w { pending = [] })

  pub pass_on-pending :
      (line : Text) (r : D × Bool) (w : Writer D) → (pass_on line r w).0.pending ≡ w.pending
  pass_on-pending line (d, true) w = refl
  pass_on-pending line (d, false) w = refl

  -- A round takes its line from what is pending.
  pub cut_shorter :
      (t front rest : Text) → cut b'\n' t ≡ some (front, rest) → length rest < length t
  cut_shorter t front rest h =
      let (spelled, counted) = cut-some b'\n' t front rest h in
      omega (arith, ap length spelled, length-append front (b'\n' ∷ rest))

  abbrev Answer : Type 0
  Answer = Option (Writer D × Bool)

  after_line-total :
      (rest : Text) (next : Writer D → Answer) (x : Writer D × Bool)
      → x.0.pending ≡ rest
      → ((v : Writer D) → v.pending ≡ rest → (r : Writer D × Bool) × (next v ≡ some r))
      → (r : Writer D × Bool) × (after_line x next ≡ some r)
  after_line-total rest next (v, true) same total = total v same
  after_line-total rest next (v, false) same total = ((v, false), refl)

  round-line :
      (front rest : Text) (next : Writer D → Answer) (w : Writer D)
      → ((v : Writer D) → v.pending ≡ rest → (r : Writer D × Bool) × (next v ≡ some r))
      → (r : Writer D × Bool) × (round (some (front, rest)) next w ≡ some r)
  round-line front rest next w total =
      let line = front ++ b'\n' ∷ [] in
      let popped : Writer D = record w { pending = rest } in
      after_line-total rest next (pass_on line (suppress w.deduper line) popped)
        (pass_on-pending line (suppress w.deduper line) popped) total

  -- As many rounds as there are characters pending, and one more, always suffice: the loop ends.
  pub write_loop_total :
      (rounds : ℕ) (w : Writer D)
      → length w.pending < rounds
      → (r : Writer D × Bool) × (write_loop rounds w ≡ some r)
  unfolding write_loop
  write_loop_total zero w h = elim h [ ]
  write_loop_total (suc rounds) w h = elim (Option-cases (cut b'\n' w.pending)) [
    | inl last ↦ ((w, true), ap (λ o. round o (write_loop rounds) w) last)
    | inr ((front, rest), found) ↦
        let shorter = cut_shorter w.pending front rest found in
        let (r, e) =
          round-line front rest (write_loop rounds) w
            (λ v same. write_loop_total rounds v (omega (arith, ap length same))) in
        (r, ap (λ o. round o (write_loop rounds) w) found ∙ e)
  ]
