-- ===== src/Config/Rendering.antt =====
-- How the templates of cmd/guarddns/config.go are filled in, and when `writeRendered` refuses the text.
use mathlib.Core.Path.{subst}
use mathlib.Core.List.{append_assoc, append-nil}
use guard_dns.Prelude.{
  ◌≡◌, refl, sym, ap, ◌∙◌, inl, inr, Bool, true, false, not, ◌&&◌, ◌||◌, List, [], ◌∷◌, ◌++◌, All,
  arith, ◌==◌, ◌⊎◌, String,
}
use guard_dns.Prelude.Text.{Text, codes}
use guard_dns.Prelude.Search.{contains_text, replace_from, replace_all, replace_all-here}
use guard_dns.Prelude.Decimal.{all_digits, itoa, itoa-digits}
use guard_dns.Config.{accepted, parse_forward_endpoint, join_host_port}
use guard_dns.Config.Endpoint.{IsEndpoint, parse-IsEndpoint, unbracketed}
use guard_dns.Config.Runtime.{endpoint_mark}
use guard_dns.Config.Files.{Fs, Os, broke, unresolved, write_file_atomic, write_rendered}

abbrev pub dunder : Text
dunder = codes "__"

-- Every underscore in the text is followed by another character, which is no underscore.
abbrev pub is_smooth : Text → Bool
is_smooth [] = true
is_smooth (c ∷ []) = not (c == b'_')
is_smooth (c ∷ d ∷ ds) = not (c == b'_' && d == b'_') && is_smooth (d ∷ ds)

-- Behind such a text nothing is found that would not be found without it.
contains-smooth :
    (a b : Text) → is_smooth a ≡ true → contains_text dunder (a ++ b) ≡ contains_text dunder b
unfolding contains_text
contains-smooth [] b h = refl
contains-smooth (c ∷ []) b h = ground arith
contains-smooth (c ∷ d ∷ ds) b h = ground (arith, contains-smooth (d ∷ ds) b)

replace_from-smooth :
    (ks new a b : Text)
    → is_smooth a ≡ true
    → replace_from b'_' (b'_' ∷ ks) new 0 (a ++ b) ≡ a ++ replace_from b'_' (b'_' ∷ ks) new 0 b
unfolding replace_from
replace_from-smooth ks new [] b h = refl
replace_from-smooth ks new (c ∷ []) b h = ground arith
replace_from-smooth ks new (c ∷ d ∷ ds) b h = ground (arith, replace_from-smooth ks new (d ∷ ds) b)

-- The pieces of a template with a text between them.
abbrev pub filled : Text → Text → List Text → Text
filled between first [] = first
filled between first (piece ∷ pieces) = first ++ (between ++ filled between piece pieces)

abbrev pub AllSmooth : List Text → Type 0
AllSmooth = All (λ t. is_smooth t ≡ true)

replace_from-filled :
    (ks new first : Text) (pieces : List Text)
    → is_smooth first ≡ true
    → AllSmooth pieces
    → replace_all (b'_' ∷ b'_' ∷ ks) new (filled (b'_' ∷ b'_' ∷ ks) first pieces)
      ≡ filled new first pieces
unfolding replace_all
replace_from-filled ks new first [] smooth each =
    ap (replace_from b'_' (b'_' ∷ ks) new 0) (sym (append-nil first))
    ∙ replace_from-smooth ks new first [] smooth
    ∙ append-nil first
replace_from-filled ks new first (piece ∷ pieces) smooth each =
    let mark = b'_' ∷ b'_' ∷ ks in
    replace_from-smooth ks new first (mark ++ filled mark piece pieces) smooth
    ∙ ap (λ t. first ++ t) (replace_all-here b'_' (b'_' ∷ ks) new (filled mark piece pieces))
    ∙ ap (λ t. first ++ (new ++ t)) (replace_from-filled ks new piece pieces each.0 each.1)

-- Nothing is found across another character.
contains-across :
    (h y : Text)
    → contains_text dunder (h ++ b':' ∷ y) ≡ (contains_text dunder h || contains_text dunder y)
unfolding contains_text
contains-across [] y = refl
contains-across (c ∷ []) y = ground arith
contains-across (c ∷ d ∷ ds) y = ground (arith, contains-across (d ∷ ds) y)

digits-smooth : (t : Text) → all_digits t ≡ true → is_smooth t ≡ true
digits-smooth [] h = refl
digits-smooth (c ∷ []) h = ground arith
digits-smooth (c ∷ d ∷ ds) h = ground (arith, digits-smooth (d ∷ ds))

smooth_clean : (t : Text) → is_smooth t ≡ true → contains_text dunder t ≡ false
unfolding contains_text
smooth_clean t h = ap (contains_text dunder) (sym (append-nil t)) ∙ contains-smooth t [] h

module _ (h p : Text) (smooth : is_smooth p ≡ true) where
  endpoint_then :
      (r : Text)
      → contains_text dunder ((h ++ b':' ∷ p) ++ r)
        ≡ (contains_text dunder h || contains_text dunder r)
  endpoint_then r =
      ap (contains_text dunder) (append_assoc h (b':' ∷ p) r)
      ∙ contains-across h (p ++ r)
      ∙ ap (λ b. contains_text dunder h || b) (contains-smooth p r smooth)

  -- A host and a port between the pieces of a template: what is found is found in the host.
  contains-filled :
      (first piece : Text) (pieces : List Text)
      → is_smooth first ≡ true
      → is_smooth piece ≡ true
      → AllSmooth pieces
      → contains_text dunder (filled (h ++ b':' ∷ p) first (piece ∷ pieces))
        ≡ contains_text dunder h
  contains-filled first piece [] f q each =
      contains-smooth first ((h ++ b':' ∷ p) ++ piece) f
      ∙ endpoint_then piece
      ∙ ground (arith, smooth_clean piece q)
  contains-filled first piece (next ∷ pieces) f q each =
      contains-smooth first ((h ++ b':' ∷ p) ++ filled (h ++ b':' ∷ p) piece (next ∷ pieces)) f
      ∙ endpoint_then (filled (h ++ b':' ∷ p) piece (next ∷ pieces))
      ∙ ground (arith, contains-filled piece next pieces q each.0 each.1)

shape_of :
    (value h p : Text)
    → IsEndpoint value h p
    → (join_host_port h p ≡ h ++ b':' ∷ p) × (is_smooth p ≡ true)
shape_of value h p (safe, inl (same, port)) =
    (unbracketed h p safe, subst (λ t. is_smooth t ≡ true) (sym port) refl)
shape_of value h p (safe, inr (written, spelled, none_left, (n, read, low, high, same))) = (
  unbracketed h p safe,
  subst (λ t. is_smooth t ≡ true) (sym same) (digits-smooth (itoa n) (itoa-digits n)),
)

-- An accepted endpoint is a host, a colon and digits.
endpoint_shape :
    (value h p : Text)
    → parse_forward_endpoint value ≡ accepted (h, p)
    → (join_host_port h p ≡ h ++ b':' ∷ p) × (is_smooth p ≡ true)
endpoint_shape value h p e = shape_of value h p (parse-IsEndpoint value h p e)

refused_or_written :
    (os : Os) (target : String) (fs : Fs) (text : Text) (marked : Bool)
    → contains_text dunder text ≡ marked
    → ((marked ≡ true) × (write_rendered os target text fs ≡ (fs, broke (unresolved target))))
      ⊎ ((marked ≡ false)
          × (write_rendered os target text fs ≡ write_file_atomic os target text fs))
unfolding write_rendered
refused_or_written os target fs text true e = inl (refl, rw e refl)
refused_or_written os target fs text false e = inr (refl, rw e refl)

-- A template with the mark of the endpoint between smooth pieces, filled in with an endpoint that the
-- settings accept, has the endpoint in the place of each mark, and nothing else is changed; it is found to
-- have a placeholder left exactly if there are two underscores in a row in the host. `writeRendered`
-- refuses it in that case and leaves the files as they are, whatever the operating system does; in the
-- other it does what `writeFileAtomic` does with that text.
pub endpoint_rendered :
    (os : Os) (target : String) (fs : Fs) (value h p first piece : Text) (pieces : List Text)
    → parse_forward_endpoint value ≡ accepted (h, p)
    → is_smooth first ≡ true
    → is_smooth piece ≡ true
    → AllSmooth pieces
    → let text =
        replace_all endpoint_mark
          (join_host_port h p)
          (filled endpoint_mark first (piece ∷ pieces)) in
      (text ≡ filled (join_host_port h p) first (piece ∷ pieces))
      × (contains_text dunder text ≡ contains_text dunder h)
      × (((contains_text dunder h ≡ true)
            × (write_rendered os target text fs ≡ (fs, broke (unresolved target))))
          ⊎ ((contains_text dunder h ≡ false)
              × (write_rendered os target text fs ≡ write_file_atomic os target text fs)))
endpoint_rendered os target fs value h p first piece pieces e f q each =
    let (joined, digits) = endpoint_shape value h p e in
    let put_in =
      replace_from-filled (codes "AUTO_FORWARD_ENDPOINT__") (join_host_port h p) first
        (piece ∷ pieces) f (q, each) in
    let marks =
      ap (contains_text dunder) put_in
      ∙ ap (λ t. contains_text dunder (filled t first (piece ∷ pieces))) joined
      ∙ contains-filled h p digits first piece pieces f q each in
    (put_in, marks, refused_or_written os target fs _ (contains_text dunder h) marks)
