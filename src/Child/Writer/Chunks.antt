-- ===== src/Child/Writer/Chunks.antt =====
-- `childLogWriter` of cmd/guarddns/process.go does not depend on how the output of the child is divided
-- among its writes.
use mathlib.Core.Path.{subst}
use mathlib.Core.List.{append_assoc}
use guard_dns.Prelude.{
  ℕ, zero, suc, ◌<◌, ◌≡◌, refl, sym, ap, ◌∙◌, Bool, true, false, Option, some, [], ◌∷◌, ◌++◌, arith,
  Option-cases, inl, inr, length,
}
use guard_dns.Prelude.Text.{Text, cut}
use guard_dns.Prelude.Search.{cut-some, cut-at, count, count-append}
use guard_dns.Child.Writer.{
  Writer, pass_on, pass_on-pending, after_line, round, write_loop, append, write, cut_shorter,
}

cut-grow :
    (k : ℕ) (t more front rest : Text)
    → cut k t ≡ some (front, rest)
    → cut k (t ++ more) ≡ some (front, rest ++ more)
cut-grow k t more front rest h =
    let (spelled, counted) = cut-some k t front rest h in
    let total = ap (count k) spelled ∙ count-append k front (k ∷ rest) in
    ap (cut k) (ap (λ s. s ++ more) spelled ∙ append_assoc front (k ∷ rest) more)
    ∙ cut-at k front (rest ++ more) (ground (arith, total))

module _ {D : Type 0} (suppress : D → Text → D × Bool) (takes : Text → Bool) where
  abbrev Answer : Type 0
  Answer = Option (Writer D × Bool)

  -- A line that is passed on is passed on alike with more behind it.
  after_line-same :
      (x : Writer D × Bool) (f g : Writer D → Answer)
      → ((v : Writer D) → v.pending ≡ x.0.pending → f v ≡ g v)
      → after_line suppress takes x f ≡ after_line suppress takes x g
  after_line-same (v, true) f g same = same v refl
  after_line-same (v, false) f g same = refl

  -- The number of rounds makes no difference, if there are enough.
  write_loop-same :
      (m n : ℕ) (w : Writer D)
      → length w.pending < m
      → length w.pending < n
      → write_loop suppress takes m w ≡ write_loop suppress takes n w
  unfolding write_loop
  write_loop-same zero n w h k = elim h [ ]
  write_loop-same (suc m) zero w h k = elim k [ ]
  write_loop-same (suc m) (suc n) w h k = elim (Option-cases (cut b'\n' w.pending)) [
    | inl last ↦
        ap (λ o. round suppress takes o (write_loop suppress takes m) w) last
        ∙ ap (λ o. round suppress takes o (write_loop suppress takes n) w) (sym last)
    | inr ((front, rest), found) ↦
        let shorter = cut_shorter suppress takes w.pending front rest found in
        let line = front ++ b'\n' ∷ [] in
        let popped : Writer D = record w { pending = rest } in
        let passed = pass_on suppress takes line (suppress w.deduper line) popped in
        let left = pass_on-pending suppress takes line (suppress w.deduper line) popped in
        ap (λ o. round suppress takes o (write_loop suppress takes m) w) found
        ∙ after_line-same passed (write_loop suppress takes m) (write_loop suppress takes n)
            (λ v same.
              let size = ap length (same ∙ left) in
              write_loop-same m n v (omega (arith, size)) (omega (arith, size)))
        ∙ ap (λ o. round suppress takes o (write_loop suppress takes n) w) (sym found)
  ]

  after_line-taken :
      (b : Bool) (u u' v : Writer D) (f g : Writer D → Answer) (r : Answer)
      → (f u ≡ some (v, true) → g u' ≡ r)
      → after_line suppress takes (u, b) f ≡ some (v, true)
      → after_line suppress takes (u', b) g ≡ r
  after_line-taken true u u' v f g r lead h = lead h
  after_line-taken false u u' v f g r lead h = cc

  -- A line that is taken leads on with the text that is to come behind what is pending.
  after_line-append :
      (line q rest : Text) (x : D × Bool) (w v : Writer D) (f g : Writer D → Answer) (r : Answer)
      → ((u : Writer D)
          → u.pending ≡ rest
          → f u ≡ some (v, true)
          → g (append suppress takes q u) ≡ r)
      → after_line suppress takes (pass_on suppress takes line x (record w { pending = rest })) f
        ≡ some (v, true)
      → after_line suppress takes
          (pass_on suppress takes line x (record w { pending = rest ++ q }))
          g
        ≡ r
  after_line-append line q rest (d, true) w v f g r lead h =
      lead (record w { pending = rest; deduper = d }) refl h
  after_line-append line q rest (d, false) w v f g r lead h =
      let u : Writer D = record w {
        pending = rest;
        deduper = d;
        written = w.written ++ line ∷ [];
      } in
      after_line-taken (takes line) u (append suppress takes q u) v f g r (lead u refl) h

  stopped : (w v : Writer D) → ◌≡◌ {A = Answer} (some (w, true)) (some (v, true)) → w ≡ v
  stopped w v h = cc

  write_loop-append :
      (m n o : ℕ) (q : Text) (w v : Writer D)
      → length w.pending < m
      → length (w.pending ++ q) < n
      → length (v.pending ++ q) < o
      → write_loop suppress takes m w ≡ some (v, true)
      → write_loop suppress takes n (append suppress takes q w)
        ≡ write_loop suppress takes o (append suppress takes q v)
  unfolding write_loop
  write_loop-append zero n o q w v hm hn ho h = elim hm [ ]
  write_loop-append (suc m) zero o q w v hm hn ho h = elim hn [ ]
  write_loop-append (suc m) (suc n) o q w v hm hn ho h = elim (Option-cases (cut b'\n' w.pending)) [
    | inl last ↦
        let same =
          stopped w v
            (sym (ap (λ c. round suppress takes c (write_loop suppress takes m) w) last) ∙ h) in
        write_loop-same (suc n) o (append suppress takes q w) hn
          (subst (λ (u : Writer D). length (u.pending ++ q) < o) (sym same) ho)
        ∙ ap (λ u. write_loop suppress takes o (append suppress takes q u)) same
    | inr ((front, rest), found) ↦
        let line = front ++ b'\n' ∷ [] in
        let shorter = cut_shorter suppress takes w.pending front rest found in
        let found' = cut-grow b'\n' w.pending q front rest found in
        let shorter' = cut_shorter suppress takes (w.pending ++ q) front (rest ++ q) found' in
        ap (λ c. round suppress takes c (write_loop suppress takes n) (append suppress takes q w))
          found'
        ∙ after_line-append line q rest (suppress w.deduper line) w v (write_loop suppress takes m)
            (write_loop suppress takes n) (write_loop suppress takes o (append suppress takes q v))
            (λ u same e.
              write_loop-append m n o q u v (omega (arith, ap length same))
                (omega (arith, ap (λ t. length (t ++ q)) same)) ho e)
            (sym (ap (λ c. round suppress takes c (write_loop suppress takes m) w) found) ∙ h)
  ]

  -- Two writes of which the first succeeds are one write of both texts: the same lines reach the deduper
  -- and the destination in the same order, with the same result and the same rest pending.
  pub write-append :
      (p q : Text) (w v : Writer D)
      → write suppress takes p w ≡ some (v, true)
      → write suppress takes (p ++ q) w ≡ write suppress takes q v
  unfolding write
  write-append p q w v h =
      ap (λ t. write_loop suppress takes (suc (length t)) (record w { pending = t }))
        (sym (append_assoc w.pending p q))
      ∙ write_loop-append (suc (length (w.pending ++ p))) (suc (length ((w.pending ++ p) ++ q)))
          (suc (length (v.pending ++ q))) q (append suppress takes p w) v (omega arith)
          (omega arith) (omega arith) h
