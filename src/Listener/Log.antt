-- ===== src/Listener/Log.antt =====
-- What the core of internal/tcpserverplugin/server.go writes and counts, over any sequence of entries.
use mathlib.Core.List.{append_assoc, append-nil}
use guard_dns.Prelude.{
  ℕ, ◌+◌, ◌≡◌, sym, ap, ◌∙◌, Bool, not, ◌&&◌, ◌||◌, List, [], ◌∷◌, ◌++◌, arith, if◌then◌else◌,
}
use guard_dns.Prelude.Text.{codes, text_eq}
use guard_dns.Prelude.Counters.{Labels, labels_eq, value_of, value_of-increase}
use guard_dns.Listener.{
  Field, Entry, CancellationCore, Written, Logs, cancellation_stage,
  fields_contain_expected_cancellation, write, log,
}

-- A call of the logger, at one of the cores.
pub record Call : Type 0 where
  pub core : CancellationCore
  pub entry : Entry
  pub fields : List Field

abbrev pub line_of : Call → Written
line_of c = record { context = c.core.context; entry = c.entry; fields = c.fields }

abbrev pub labels_of : Call → Labels
labels_of c = c.core.listener ∷ cancellation_stage c.entry.message ∷ []

module _ (lower : ℕ → ℕ) (enabled : ℕ → Bool) (takes : Written → Bool) where
  -- The two messages of the server that tell of a client, with the error of one that has gone.
  abbrev pub is_gone_client : Call → Bool
  is_gone_client c =
      (text_eq c.entry.message (codes "entry err")
        || text_eq c.entry.message (codes "failed to write response"))
      && fields_contain_expected_cancellation lower c.fields

  abbrev pub kept : List Call → List Written
  kept [] = []
  kept (c ∷ cs) =
      (if enabled c.entry.level && not (is_gone_client c) then line_of c ∷ [] else []) ++ kept cs

  abbrev pub counted : Labels → List Call → ℕ
  counted labels [] = 0
  counted labels (c ∷ cs) =
      (if enabled c.entry.level && is_gone_client c && labels_eq (labels_of c) labels then 1 else 0)
      + counted labels cs

  unfoldable pub logged : List Call → Logs → Logs
  logged [] w = w
  logged (c ∷ cs) w = logged cs (log lower enabled takes c.core c.entry c.fields w)

  log-written :
      (c : Call) (w : Logs)
      → (log lower enabled takes c.core c.entry c.fields w).written
        ≡ w.written
          ++ (if enabled c.entry.level && not (is_gone_client c) then line_of c ∷ [] else [])
  unfolding log write
  log-written c w = ground (arith, append-nil w.written)

  log-events :
      (c : Call) (w : Logs) (labels : Labels)
      → value_of labels (log lower enabled takes c.core c.entry c.fields w).events
        ≡ (if enabled c.entry.level && is_gone_client c && labels_eq (labels_of c) labels
            then 1
            else 0)
          + value_of labels w.events
  unfolding log write
  log-events c w labels = ground (arith, value_of-increase (labels_of c) labels w.events)

  -- Over any calls of the logger at any of its cores: what is written is each enabled entry in turn,
  -- with the fields of its core, but those that tell of a client that has gone; and of these, each is
  -- counted once, under its listener and the stage of its message, and nothing else is counted. The
  -- stage is "entry" for "entry err" and "write" for "failed to write response".
  pub logged_once :
      (calls : List Call) (w : Logs)
      → ((logged calls w).written ≡ w.written ++ kept calls)
        × ((labels : Labels)
            → value_of labels (logged calls w).events
              ≡ counted labels calls + value_of labels w.events)
  unfolding logged
  logged_once [] w = (sym (append-nil w.written), λ labels. omega arith)
  logged_once (c ∷ cs) w =
      let next = log lower enabled takes c.core c.entry c.fields w in
      let (lines, counts) = logged_once cs next in
      (
        lines ∙ ap (λ t. t ++ kept cs) (log-written c w) ∙ append_assoc w.written _ (kept cs),
        λ labels. omega (arith, counts labels, log-events c w labels),
      )
