-- ===== src/Child/LogTests.antt =====
-- The logs of the child processes on concrete lines, and the wait for a child.
use guard_dns.Prelude.{
  false, leb, ℕ, ◌*◌, ◌+◌, ◌≡◌, refl, ◌⊎◌, Bool, true, some, [], ◌∷◌, ◌++◌, arith, second,
}
use guard_dns.Prelude.Text.{Text, codes}
use guard_dns.Child.Writer.{Writer, write_loop, write, write_loop_total}
use guard_dns.Child.Writer.Chunks.{write-append}
use guard_dns.Child.Wait.{Attempt, Waited, pause, wait_for_tcp, Explains, wait_for_tcp_total}
use guard_dns.Child.Dedupe.{Deduper, new_deduper, is_startup, is_deadline, suppress}
use guard_dns.Child.Dedupe.Suppressed.{History, after_lines, Repeats, suppressed_why}

abbrev boundary_line : Text
boundary_line =
    codes "error\tmain_tcp\tentry err\t{\"uqid\": 42, \"error\": \"context deadline exceeded\"}\n"

abbrev internal_line : Text
internal_line =
    codes
      "warn\tforward_unbound\tupstream error\t{\"uqid\": 42, \"error\": \"context deadline exceeded\"}\n"

abbrev noon : ℕ
noon = 63800000000 * second

abbrev history : History
history = (noon, boundary_line) ∷ []

abbrev mosdns : Deduper
mosdns = after_lines (new_deduper "mosdns" true) history

repeated_is_suppressed : (suppress mosdns (noon + second) internal_line).1 ≡ true
unfolding after_lines suppress
repeated_is_suppressed = refl

suppressed_why_example :
    (is_startup "mosdns" true internal_line ≡ true)
    ⊎ ((is_deadline "mosdns" internal_line ≡ true) × Repeats history (noon + second) internal_line)
suppressed_why_example =
    suppressed_why "mosdns" true history (noon + second) internal_line repeated_is_suppressed

abbrev at_noon : Deduper → Text → Deduper × Bool
at_noon d line = suppress d noon line

abbrev started : Writer Deduper
started = record { pending = codes "one\ntw"; deduper = new_deduper "unbound" true; written = [] }

write_loop_total_example :
    (r : Writer Deduper × Bool) × (write_loop at_noon (λ line. true) 7 started ≡ some r)
write_loop_total_example = write_loop_total at_noon (λ line. true) 7 started (omega arith)

abbrev blank : Writer Deduper
blank = record { pending = []; deduper = new_deduper "unbound" true; written = [] }

abbrev one_line : Writer Deduper
one_line = record {
  pending = codes "tw";
  deduper = new_deduper "unbound" true;
  written = codes "one\n" ∷ [];
}

first_write : write at_noon (λ line. true) (codes "one\ntw") blank ≡ some (one_line, true)
unfolding write suppress
first_write = refl

write-append_example :
    write at_noon (λ line. true) (codes "one\ntw" ++ codes "o\n") blank
    ≡ write at_noon (λ line. true) (codes "o\n") one_line
write-append_example =
    write-append at_noon (λ line. true) (codes "one\ntw") (codes "o\n") blank one_line first_write

-- A child that answers at the second dial.
abbrev dials : ℕ → Attempt
dials k = record { now = noon + k * pause; connects = leb 1 k; cancelled = false }

wait_for_tcp_total_example :
    (r : Waited) × (wait_for_tcp dials noon (3 * second) ≡ some r)
    × Explains dials (noon + 3 * second) r
wait_for_tcp_total_example =
    wait_for_tcp_total dials noon (3 * second) (λ k. omega arith) (omega arith)
