-- ===== src/Child/Dedupe/Suppressed.antt =====
-- Why `suppress` of cmd/guarddns/process.go suppresses a line.
use mathlib.Core.Path.{subst}
use guard_dns.Prelude.{
  some_injective, both_true, ℕ, ◌≡◌, refl, sym, ◌⊎◌, inl, inr, Bool, true, false, not, ◌&&◌, Option,
  none, some, List, [], ◌∷◌, String, All, Bool-cases, ltb_i64, leb_i64, if◌then◌else◌, sub_time,
}
use guard_dns.Prelude.Text.{Text, text_eq}
use guard_dns.Prelude.Text.{text_eq→≡}
use guard_dns.Child.Dedupe.{
  Deduper, Boundaries, new_deduper, child_log_dedupe_window, query_id, boundary_at, record_boundary,
  prune, is_startup, is_deadline, is_boundary, is_internal, is_recent, of_query, suppress,
}

-- The lines that were looked at, each with its time, the last one first.
abbrev pub History : Type 0
History = List (ℕ × Text)

unfoldable pub after_lines : Deduper → History → Deduper
unfolding suppress
after_lines d [] = d
after_lines d ((now, line) ∷ older) = (suppress (after_lines d older) now line).0

-- A boundary line of the query was looked at, at that time.
abbrev pub WasReported : Text → ℕ → History → Type 0
WasReported id at [] = ⊥
WasReported id at ((now, line) ∷ older) =
    ((now ≡ at) × (is_boundary line ≡ true) × (query_id line ≡ some id)) ⊎ WasReported id at older

abbrev AllReported : History → Boundaries → Type 0
AllReported ls = All (λ entry. WasReported entry.0 entry.1 ls)

AllReported-later :
    (now : ℕ) (line : Text) (ls : History) (bs : Boundaries)
    → AllReported ls bs
    → AllReported ((now, line) ∷ ls) bs
AllReported-later now line ls [] h = tt
AllReported-later now line ls (entry ∷ rest) h = (inr h.0, AllReported-later now line ls rest h.1)

AllReported-prune :
    (now : ℕ) (ls : History) (bs : Boundaries) → AllReported ls bs → AllReported ls (prune now bs)
unfolding prune
AllReported-prune now ls [] h = tt
AllReported-prune now ls (entry ∷ rest) h =
    elim (Bool-cases (ltb_i64 child_log_dedupe_window (sub_time now entry.1))) [
      | inl old ↦ rw old (AllReported-prune now ls rest h.1)
      | inr recent ↦ rw recent (h.0, AllReported-prune now ls rest h.1)
    ]

AllReported-record :
    (id : Text) (now : ℕ) (ls : History) (bs : Boundaries)
    → WasReported id now ls
    → AllReported ls bs
    → AllReported ls (record_boundary id now bs)
unfolding record_boundary
AllReported-record id now ls [] new h = (new, tt)
AllReported-record id now ls (entry ∷ rest) new h = elim (Bool-cases (text_eq entry.0 id)) [
  | inl same ↦
      rw same (subst (λ t. WasReported t now ls) (sym (text_eq→≡ entry.0 id same)) new, h.1)
  | inr other ↦ rw other (h.0, AllReported-record id now ls rest new h.1)
]

reported_at :
    (id : Text) (at : ℕ) (ls : History) (bs : Boundaries)
    → AllReported ls bs
    → boundary_at id bs ≡ some at
    → WasReported id at ls
unfolding boundary_at
reported_at id at ls [] h e = cc
reported_at id at ls (entry ∷ rest) h e = elim (Bool-cases (text_eq entry.0 id)) [
  | inl same ↦
      let there : entry.1 ≡ at = some_injective (rw same at e) in
      subst (λ k. WasReported id k ls) there
        (subst (λ t. WasReported t entry.1 ls) (text_eq→≡ entry.0 id same) h.0)
  | inr other ↦ reported_at id at ls rest h.1 (rw other at e)
]

-- What is kept of the lines is known from them, and the child stays the same.
abbrev IsKnown : String → Bool → History → Deduper → Type 0
IsKnown child quiet ls d =
    (d.child ≡ child) × (d.suppress_startup_info ≡ quiet) × AllReported ls d.boundaries

choose-IsKnown :
    (child : String) (quiet : Bool) (ls : History) (b : Bool) (x y : Deduper × Bool)
    → (b ≡ true → IsKnown child quiet ls x.0)
    → IsKnown child quiet ls y.0
    → IsKnown child quiet ls (if b then x else y).0
choose-IsKnown child quiet ls true x y h g = h refl
choose-IsKnown child quiet ls false x y h g = g

of_query-IsKnown :
    (child : String) (quiet : Bool) (ls : History) (d : Deduper) (now : ℕ) (line : Text)
    (o : Option Text)
    → query_id line ≡ o
    → IsKnown child quiet ls d
    → IsKnown child quiet ((now, line) ∷ ls) (of_query d now line o).0
of_query-IsKnown child quiet ls d now line none e h =
    (h.0, h.1, AllReported-later now line ls d.boundaries h.2)
of_query-IsKnown child quiet ls d now line (some id) e h =
    let kept =
      AllReported-later now line ls (prune now d.boundaries)
        (AllReported-prune now ls d.boundaries h.2) in
    let recent = prune now d.boundaries in
    choose-IsKnown child quiet ((now, line) ∷ ls) (is_boundary line)
      (record d { boundaries = record_boundary id now recent }, false)
      (record d { boundaries = recent }, is_internal line && is_recent now (boundary_at id recent))
      (λ boundary. (
        h.0,
        h.1,
        AllReported-record id now ((now, line) ∷ ls) recent (inl (refl, boundary, e)) kept,
      ))
      (h.0, h.1, kept)

later-IsKnown :
    (child : String) (quiet : Bool) (ls : History) (d : Deduper) (now : ℕ) (line : Text)
    → IsKnown child quiet ls d
    → IsKnown child quiet ((now, line) ∷ ls) d
later-IsKnown child quiet ls d now line h =
    (h.0, h.1, AllReported-later now line ls d.boundaries h.2)

suppress-IsKnown :
    (child : String) (quiet : Bool) (ls : History) (d : Deduper) (now : ℕ) (line : Text)
    → IsKnown child quiet ls d
    → IsKnown child quiet ((now, line) ∷ ls) (suppress d now line).0
unfolding suppress
suppress-IsKnown child quiet ls d now line h =
    let same = later-IsKnown child quiet ls d now line h in
    let ls' : History = (now, line) ∷ ls in
    choose-IsKnown child quiet ls' (is_startup d.child d.suppress_startup_info line) (d, true) _
      (λ startup. same)
      (choose-IsKnown child quiet ls' (not (is_deadline d.child line)) (d, false)
        (of_query d now line (query_id line)) (λ other. same)
        (of_query-IsKnown child quiet ls d now line (query_id line) refl h))

after_lines-IsKnown :
    (child : String) (quiet : Bool) (ls : History)
    → IsKnown child quiet ls (after_lines (new_deduper child quiet) ls)
unfolding after_lines
after_lines-IsKnown child quiet [] = (refl, refl, tt)
after_lines-IsKnown child quiet ((now, line) ∷ older) =
    suppress-IsKnown child quiet older (after_lines (new_deduper child quiet) older) now line
      (after_lines-IsKnown child quiet older)

-- The line repeats what a boundary line of the same query has said within the window before.
abbrev pub Repeats : History → ℕ → Text → Type 0
Repeats ls now line =
    (id : Text) × (at : ℕ) × (query_id line ≡ some id)
    × (is_internal line ≡ true)
    × (is_boundary line ≡ false)
    × WasReported id at ls
    × (leb_i64 (sub_time now at) child_log_dedupe_window ≡ true)

recent_at :
    (now : ℕ) (o : Option ℕ)
    → is_recent now o ≡ true
    → (at : ℕ) × (o ≡ some at) × (leb_i64 (sub_time now at) child_log_dedupe_window ≡ true)
recent_at now none h = cc
recent_at now (some at) h = (at, refl, h)

chosen_second :
    (b : Bool) (d e : Deduper) (c : Bool)
    → (if◌then◌else◌ {A = Deduper × Bool} b (d, false) (e, c)).1 ≡ true
    → (b ≡ false) × (c ≡ true)
chosen_second true d e c h = cc
chosen_second false d e c h = (refl, h)

of_query-Repeats :
    (child : String) (quiet : Bool) (ls : History) (d : Deduper) (now : ℕ) (line : Text)
    (o : Option Text)
    → query_id line ≡ o
    → IsKnown child quiet ls d
    → (of_query d now line o).1 ≡ true
    → Repeats ls now line
of_query-Repeats child quiet ls d now line none e k h = cc
of_query-Repeats child quiet ls d now line (some id) e k h =
    let recent = prune now d.boundaries in
    let (inside, hidden) =
      chosen_second (is_boundary line) (record d { boundaries = record_boundary id now recent })
        (record d { boundaries = recent })
        (is_internal line && is_recent now (boundary_at id recent)) h in
    let (internal, fresh) =
      both_true (is_internal line) (is_recent now (boundary_at id recent)) hidden in
    let (at, found, near) = recent_at now (boundary_at id recent) fresh in
    (
      id,
      at,
      e,
      internal,
      inside,
      reported_at id at ls recent (AllReported-prune now ls d.boundaries k.2) found,
      near,
    )

-- The answer comes from one of three branches.
suppressed_branch :
    (startup deadline : Bool) (d : Deduper) (x : Deduper × Bool)
    → (if◌then◌else◌ {A = Deduper × Bool} startup
        (d, true)
        (if not deadline then (d, false) else x)).1
      ≡ true
    → (startup ≡ true) ⊎ ((deadline ≡ true) × (x.1 ≡ true))
suppressed_branch true deadline d x h = inl refl
suppressed_branch false true d x h = inr (refl, h)
suppressed_branch false false d x h = cc

suppressed_by :
    (child : String) (quiet : Bool) (ls : History) (d : Deduper) (now : ℕ) (line : Text)
    → IsKnown child quiet ls d
    → (suppress d now line).1 ≡ true
    → (is_startup d.child d.suppress_startup_info line ≡ true)
      ⊎ ((is_deadline d.child line ≡ true) × Repeats ls now line)
unfolding suppress
suppressed_by child quiet ls d now line k h =
    elim (suppressed_branch (is_startup d.child d.suppress_startup_info line)
      (is_deadline d.child line) d (of_query d now line (query_id line)) h) [
        | inl startup ↦ inl startup
        | inr (deadline, hidden) ↦
            inr (deadline, of_query-Repeats child quiet ls d now line (query_id line) refl k hidden)
      ]

-- A line of a child is suppressed only if it is a notice that an Unbound starts, where those are not
-- wanted, or if it is an error inside of MosDNS for a query whose error a boundary line that was looked at
-- before has told, within ten seconds. A boundary line itself is never suppressed.
pub suppressed_why :
    (child : String) (quiet : Bool) (ls : History) (now : ℕ) (line : Text)
    → (suppress (after_lines (new_deduper child quiet) ls) now line).1 ≡ true
    → (is_startup child quiet line ≡ true) ⊎ ((is_deadline child line ≡ true) × Repeats ls now line)
suppressed_why child quiet ls now line h =
    let d = after_lines (new_deduper child quiet) ls in
    let k = after_lines-IsKnown child quiet ls in
    subst
      (λ q.
        (is_startup child q line ≡ true) ⊎ ((is_deadline child line ≡ true) × Repeats ls now line))
      k.1
      (subst
        (λ c.
          (is_startup c d.suppress_startup_info line ≡ true)
          ⊎ ((is_deadline c line ≡ true) × Repeats ls now line))
        k.0 (suppressed_by child quiet ls d now line k h))
