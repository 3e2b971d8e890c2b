-- ===== src/Config/Endpoint.antt =====
-- What `parseForwardEndpoint` of cmd/guarddns/config.go accepts.
use mathlib.Core.Path.{subst}
use guard_dns.Prelude.{
  ℕ, ◌≤◌, ◌≡◌, refl, sym, ap, ◌∙◌, ◌⊎◌, inl, inr, ◌↔◌, Bool, true, false, not, ◌||◌, Option, none,
  some, [], ◌∷◌, ◌++◌, arith, Option-cases, ltb, if◌then◌else◌, if_false,
}
use guard_dns.Prelude.Text.{Text, codes, is_empty, cut}
use guard_dns.Prelude.Search.{count, cut-some, cut-at, cut_nowhere}
use guard_dns.Prelude.Decimal.{Int64, above, below, atoi, itoa, all_digits, atoi-itoa, itoa-digits}
use guard_dns.Config.{
  Checked, accepted, rejected, ConfigError, empty_host, unsafe_host, too_many_colons,
  port_out_of_range, is_safe_char, all_safe, is_safe_host, whole_or, in_range, checked_parts,
  parse_forward_endpoint, join_host_port,
}

safe-count :
    (k : ℕ) (host : Text) → is_safe_char k ≡ false → all_safe host ≡ true → count k host ≡ 0
safe-count k [] u h = refl
safe-count k (c ∷ cs) u h = ground (arith, safe-count k cs u)

digits-count : (t : Text) → all_digits t ≡ true → count b':' t ≡ 0
digits-count [] h = refl
digits-count (c ∷ cs) h = ground (arith, digits-count cs)

-- A port as it is written, its number, and as it is printed.
abbrev pub IsPort : Text → Text → Type 0
IsPort written port =
    (n : ℕ) × (atoi written ≡ some (above n)) × (1 ≤ n) × (n ≤ 65535) × (port ≡ itoa n)

-- A safe host alone, with the port 53, or one with a port behind the only colon.
abbrev pub IsEndpoint : Text → Text → Text → Type 0
IsEndpoint value host port =
    (is_safe_host host ≡ true)
    × (((value ≡ host) × (port ≡ codes "53"))
        ⊎ ((written : Text) × (value ≡ host ++ b':' ∷ written)
            × (count b':' written ≡ 0)
            × IsPort written port))

if_rejected :
    {A : Type 0} (b : Bool) (e : ConfigError) (y : Checked A) {a : A}
    → (if b then rejected e else y) ≡ accepted a
    → (b ≡ false) × (y ≡ accepted a)
if_rejected true e y h = cc
if_rejected false e y h = (refl, h)

in_range-IsPort :
    (host written : Text) {h p : Text} (o : Option Int64)
    → atoi written ≡ o
    → in_range host o ≡ accepted (h, p)
    → (host ≡ h) × IsPort written p
in_range-IsPort host written none e r = cc
in_range-IsPort host written (some (below n)) e r = cc
in_range-IsPort host written (some (above n)) e r =
    let (fits, same) =
      if_rejected (ltb n 1 || ltb 65535 n) port_out_of_range (accepted (host, itoa n)) r in
    (ground arith, (n, e, ground arith, ground arith, ground arith))

IsPort-in_range :
    (host written port : Text)
    → IsPort written port
    → in_range host (atoi written) ≡ accepted (host, port)
IsPort-in_range host written port (n, read, low, high, same) = rw read (ground arith)

checked-IsPort :
    (host written : Text) {h p : Text}
    → checked_parts (host, written) ≡ accepted (h, p)
    → (is_safe_host host ≡ true) × (host ≡ h) × IsPort written p
checked-IsPort host written {h} {p} e =
    let (full, e') =
      if_rejected (is_empty host) empty_host
        (if not (is_safe_host host) then rejected unsafe_host else in_range host (atoi written))
        e in
    let (safe, e2) =
      if_rejected (not (is_safe_host host)) unsafe_host (in_range host (atoi written)) e' in
    let (same, port) = in_range-IsPort host written (atoi written) refl e2 in
    (ground arith, same, port)

IsPort-checked :
    (host written port : Text)
    → is_safe_host host ≡ true
    → IsPort written port
    → checked_parts (host, written) ≡ accepted (host, port)
IsPort-checked host written port safe p =
    let ranged = IsPort-in_range host written port p in ground arith

IsPort-default : (p : Text) → IsPort (codes "53") p → p ≡ codes "53"
unfolding atoi itoa
IsPort-default p (n, read, low, high, same) =
    let fixed : n ≡ 53 = ground arith in same ∙ ap itoa fixed

-- What is accepted is an endpoint, and the result is its host and its port.
pub parse-IsEndpoint :
    (value h p : Text) → parse_forward_endpoint value ≡ accepted (h, p) → IsEndpoint value h p
unfolding parse_forward_endpoint
parse-IsEndpoint value h p e =
    let (few, rest) =
      if_rejected (ltb 1 (count b':' value)) too_many_colons
        (checked_parts (whole_or value (cut b':' value))) e in
    elim (Option-cases (cut b':' value)) [
      | inl whole ↦
          let (safe, same, port) =
            checked-IsPort value (codes "53")
              (subst (λ o. checked_parts (whole_or value o) ≡ accepted (h, p)) whole rest) in
          (subst (λ t. is_safe_host t ≡ true) same safe, inl (same, IsPort-default p port))
      | inr ((host, written), parts) ↦
          let (safe, same, port) =
            checked-IsPort host written
              (subst (λ o. checked_parts (whole_or value o) ≡ accepted (h, p)) parts rest) in
          let (spelled, counted) = cut-some b':' value host written parts in
          (
            subst (λ t. is_safe_host t ≡ true) same safe,
            inr (written, spelled ∙ ap (λ t. t ++ b':' ∷ written) same, ground arith, port),
          )
    ]

safe_colons : (host : Text) → is_safe_host host ≡ true → count b':' host ≡ 0
unfolding is_safe_char
safe_colons host h = safe-count b':' host refl (ground arith)

accepted_split :
    (value host written : Text) {r : Checked (Text × Text)}
    → count b':' value ≤ 1
    → whole_or value (cut b':' value) ≡ (host, written)
    → checked_parts (host, written) ≡ r
    → parse_forward_endpoint value ≡ r
unfolding parse_forward_endpoint
accepted_split value host written few parts checked =
    if_false (ltb 1 (count b':' value)) (rejected too_many_colons)
      (checked_parts (whole_or value (cut b':' value))) (ground arith)
    ∙ ap checked_parts parts
    ∙ checked

default-IsPort : IsPort (codes "53") (codes "53")
unfolding atoi itoa
default-IsPort = (53, refl, omega arith, omega arith, refl)

IsEndpoint-parse :
    (value h p : Text) → IsEndpoint value h p → parse_forward_endpoint value ≡ accepted (h, p)
IsEndpoint-parse value h p (safe, inl (same, port)) =
    let colons = subst (λ t. count b':' t ≡ 0) (sym same) (safe_colons h safe) in
    accepted_split value h (codes "53") (omega (arith, colons))
      (ap (whole_or value) (cut_nowhere b':' value colons) ∙ ap (λ t. (t, codes "53")) same)
      (IsPort-checked h (codes "53") p safe (subst (IsPort (codes "53")) (sym port) default-IsPort))
IsEndpoint-parse value h p (safe, inr (written, spelled, none_left, port)) =
    let colons = safe_colons h safe in
    let found : cut b':' value ≡ some (h, written) =
      ap (cut b':') spelled ∙ cut-at b':' h written colons in
    let (shape, counted) = cut-some b':' value h written found in
    accepted_split value h written (omega (arith, counted, none_left)) (ap (whole_or value) found)
      (IsPort-checked h written p safe port)

IsPort-again : (written p : Text) → IsPort written p → (count b':' p ≡ 0) × IsPort p p
IsPort-again written p (n, read, low, high, same) = (
  subst (λ t. count b':' t ≡ 0) (sym same) (digits-count (itoa n) (itoa-digits n)),
  (n, subst (λ t. atoi t ≡ some (above n)) (sym same) (atoi-itoa n (omega arith)), low, high, same),
)

pub unbracketed : (h p : Text) → is_safe_host h ≡ true → join_host_port h p ≡ h ++ b':' ∷ p
unfolding join_host_port is_safe_char
unbracketed h p safe =
    let colons = safe-count b':' h refl (ground arith) in
    let percents = safe-count b'%' h refl (ground arith) in ground arith

rejoined : (value h p : Text) → IsEndpoint value h p → IsEndpoint (join_host_port h p) h p
rejoined value h p (safe, inl (same, port)) =
    let (none_left, again) =
      IsPort-again (codes "53") p (subst (IsPort (codes "53")) (sym port) default-IsPort) in
    (safe, inr (p, unbracketed h p safe, none_left, again))
rejoined value h p (safe, inr (written, spelled, none_left, port)) =
    let (no_colon, again) = IsPort-again written p port in
    (safe, inr (p, unbracketed h p safe, no_colon, again))

-- Exactly these texts are accepted, each with this result: a host of the characters that are safe, alone
-- and with the port 53, or with one colon and a number from 1 to 65535 behind it, which is printed again.
pub parse_forward_endpoint_iff :
    (value h p : Text) → (parse_forward_endpoint value ≡ accepted (h, p)) ↔ IsEndpoint value h p
parse_forward_endpoint_iff value h p = (parse-IsEndpoint value h p, IsEndpoint-parse value h p)

-- An accepted endpoint, put together again, is accepted with the same host and port.
pub parse-join :
    (value h p : Text)
    → parse_forward_endpoint value ≡ accepted (h, p)
    → parse_forward_endpoint (join_host_port h p) ≡ accepted (h, p)
parse-join value h p e =
    IsEndpoint-parse (join_host_port h p) h p (rejoined value h p (parse-IsEndpoint value h p e))
