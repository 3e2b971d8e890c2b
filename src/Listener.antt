-- ===== src/Listener.antt =====
-- The TCP server plugin of internal/tcpserverplugin/server.go: how it starts, and the core that keeps
-- the errors of clients that have gone out of the log and counts them. The server itself is that of
-- MosDNS. `lower` is `unicode.ToLower`, as in the module Rules.
pub mod Tests
pub mod Log
pub mod Start
use guard_dns.Prelude.{
  ℕ, Bool, true, false, not, ◌&&◌, ◌||◌, Option, none, some, List, [], ◌∷◌, ◌++◌, if◌then◌else◌,
}
use guard_dns.Prelude.Text.{Text, codes, is_empty, text_eq}
use guard_dns.Prelude.Counters.{Counters, increase}
use guard_dns.Cancel.{Err, expected}

-- A field of a log entry: its type, and the error that its interface holds, if it holds one.
pub data FieldType : Type 0 where
  error_type : FieldType
  other_type : FieldType

pub record Field : Type 0 where
  pub type : FieldType
  pub interface : Option Err

pub record Entry : Type 0 where
  pub level : ℕ
  pub message : Text

-- A core: the fields that `With` has given to the core inside, and the name of its listener.
pub record CancellationCore : Type 0 where
  pub context : List Field
  pub listener : Text

abbrev pub with_fields : List Field → CancellationCore → CancellationCore
with_fields fields c = record c { context = c.context ++ fields }

-- What the core inside has been given to write.
pub record Written : Type 0 where
  pub context : List Field
  pub entry : Entry
  pub fields : List Field

pub record Logs : Type 0 where
  pub events : Counters
  pub written : List Written

abbrev pub cancellation_stage : Text → Text
cancellation_stage message =
    if text_eq message (codes "entry err")
    then codes "entry"
    else if text_eq message (codes "failed to write response")
    then codes "write"
    else []

abbrev is_error : FieldType → Bool
is_error error_type = true
is_error other_type = false

abbrev is_cancellation : (ℕ → ℕ) → Field → Bool
is_cancellation lower f = is_error f.type && expected lower f.interface

unfoldable pub fields_contain_expected_cancellation : (ℕ → ℕ) → List Field → Bool
fields_contain_expected_cancellation lower [] = false
fields_contain_expected_cancellation lower (f ∷ fs) =
    is_cancellation lower f || fields_contain_expected_cancellation lower fs

module _ (lower : ℕ → ℕ) (enabled : ℕ → Bool) (takes : Written → Bool) where
  -- The write of the core inside, and whether it succeeds.
  abbrev write_inside : CancellationCore → Entry → List Field → Logs → Logs × Bool
  write_inside c e fields w =
      let line : Written = record { context = c.context; entry = e; fields = fields } in
      (record w { written = w.written ++ line ∷ [] }, takes line)

  unfoldable pub write : CancellationCore → Entry → List Field → Logs → Logs × Bool
  unfolding fields_contain_expected_cancellation increase
  write c e fields w =
      let stage = cancellation_stage e.message in
      if not (is_empty stage) && fields_contain_expected_cancellation lower fields
      then (record w { events = increase (c.listener ∷ stage ∷ []) w.events }, true)
      else write_inside c e fields w

  -- The cores that write an entry: those that were checked before, and this one if it is enabled.
  abbrev pub check : CancellationCore → Entry → List CancellationCore → List CancellationCore
  check c e checked = if enabled e.level then checked ++ c ∷ [] else checked

  abbrev write_all : List CancellationCore → Entry → List Field → Logs → Logs
  write_all [] e fields w = w
  write_all (c ∷ cs) e fields w = write_all cs e fields (write c e fields w).0

  -- `logger.Log`: the check, then the writes.
  unfoldable pub log : CancellationCore → Entry → List Field → Logs → Logs
  unfolding write
  log c e fields w = write_all (check c e []) e fields w
