-- ===== src/Rules/Growth.antt =====
-- The size of what `sanitizeRules` of internal/rulesplugin/rulesplugin.go writes: a pattern with no type
-- gets one, which no limit is tested for.
use guard_dns.Prelude.{
  ℕ, zero, suc, ◌*◌, ◌≤◌, ◌<◌, ◌≡◌, refl, ap, ◌∙◌, Bool, false, some, List, [], ◌∷◌, arith, ltb,
}
use guard_dns.Prelude.Text.{
  Text, codes, byte_len, is_space, split, cut, trim_space, trim_suffix, join_lines,
}
use guard_dns.Rules.{
  rule, add_line, Sanitized, sanitize_line, sanitize_lines, sanitize_rules, max_rule_file_bytes,
}

-- Some lines with the pattern `a`, and the rules of it.
abbrev pub bare_lines : ℕ → Text
bare_lines zero = []
bare_lines (suc n) = b'a' ∷ b'\n' ∷ bare_lines n

abbrev pub typed_rules : ℕ → List Text
typed_rules zero = []
typed_rules (suc n) = codes "domain:a" ∷ typed_rules n

byte_len-bare_lines : (n : ℕ) → byte_len (bare_lines n) ≡ 2 * n
byte_len-bare_lines zero = refl
byte_len-bare_lines (suc n) = ground (arith, byte_len-bare_lines n)

pub byte_len-typed_rules : (n : ℕ) → byte_len (join_lines (typed_rules n)) ≡ 9 * n
byte_len-typed_rules zero = refl
byte_len-typed_rules (suc n) = ground (arith, byte_len-typed_rules n)

module _ (lower : ℕ → ℕ) (compiles : Text → Bool) where
  bare_line : sanitize_line lower compiles (codes "a") ≡ rule (codes "domain:a")
  unfolding sanitize_line split cut trim_space trim_suffix is_space
  bare_line = refl

  sanitize_lines-bare :
      (n : ℕ)
      → sanitize_lines lower compiles (split b'\n' (bare_lines n)) ≡ record {
        rules = typed_rules n;
        cleaned = join_lines (typed_rules n);
        meaningful = n;
        rejected = 0;
      }
  unfolding sanitize_lines split sanitize_line trim_space trim_suffix is_space
  sanitize_lines-bare zero = refl
  sanitize_lines-bare (suc n) =
      ap (add_line (rule (codes "domain:a"))) (sanitize_lines-bare n)
      ∙ ap
          (λ k. record {
            rules = typed_rules (suc n);
            cleaned = join_lines (typed_rules (suc n));
            meaningful = k;
            rejected = 0;
          })
          (omega arith)

  -- A file of lines with the pattern `a` alone, of at most the limit, is accepted with no line refused,
  -- and what is written in its place has 9 bytes for each 2: enough lines, and that is over the limit.
  pub sanitize_rules-grows :
      (n : ℕ)
      → 2 * n ≤ max_rule_file_bytes
      → max_rule_file_bytes < 9 * n
      → (s : Sanitized) × (sanitize_rules lower compiles (bare_lines n) ≡ some s)
        × (s.rejected ≡ 0)
        × (max_rule_file_bytes < byte_len s.cleaned)
  unfolding sanitize_rules
  sanitize_rules-grows n fits grows =
      let size : ltb max_rule_file_bytes (byte_len (bare_lines n)) ≡ false =
        ground (arith, byte_len-bare_lines n) in
      (
        record {
          rules = typed_rules n;
          cleaned = join_lines (typed_rules n);
          meaningful = n;
          rejected = 0;
        },
        rw (size, sanitize_lines-bare n),
        refl,
        ground (arith, byte_len-typed_rules n),
      )
