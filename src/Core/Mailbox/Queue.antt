-- ===== src/Core/Mailbox/Queue.antt =====
-- What core/include/ev/mailbox.h promises of a mailbox, over the list of pending messages, oldest
-- first: it says nothing of indices, masks or counters.
use esp8266_event_driven_fra.Prelude.{
  ℕ, Bool, true, false, not, ◌||◌, Option, none, some, List, [], ◌∷◌, ◌++◌, length, leb, ◌==◌,
  if◌then◌else◌,
}
use esp8266_event_driven_fra.Core.Result.{Result, ok, err_full, err_contract, err_empty}
use esp8266_event_driven_fra.Core.Catalog.{
  MailboxKind, fifo_8, fifo_16, mailbox_1, lossy_ring_8, coalesced_flag,
}
use esp8266_event_driven_fra.Core.Msg
use esp8266_event_driven_fra.Core.Msg.{Msg, is_storage_none}

-- The answer, the messages then pending, those given up, and whether the new one is queued.
pub record Outcome (S : Type 0) : Type 0 where
  pub result : Result
  pub pending : List (Msg S)
  pub evicted : List (Msg S)
  pub queued : Bool

module _ {S : Type 0} where
  abbrev pub outcome : Result → List (Msg S) → List (Msg S) → Bool → Outcome S
  outcome rc q e b = record { result = rc; pending = q; evicted = e; queued = b }

  abbrev pub accept_bounded : ℕ → List (Msg S) → Msg S → Outcome S
  accept_bounded cap q m =
      if leb cap (length q) then outcome err_full q [] false else outcome ok (q ++ m ∷ []) [] true

  abbrev pub accept_lossy : ℕ → List (Msg S) → Msg S → Outcome S
  accept_lossy cap [] m = outcome ok (m ∷ []) [] true
  accept_lossy cap (x ∷ q) m =
      if leb cap (length (x ∷ q))
      then outcome ok (q ++ m ∷ []) (x ∷ []) true
      else outcome ok (x ∷ (q ++ m ∷ [])) [] true

  abbrev pub accept_pending : List (Msg S) → Msg S → Outcome S
  accept_pending [] m = outcome ok (m ∷ []) [] true
  accept_pending (x ∷ q) m =
      if x.event_id == m.event_id
      then outcome ok (x ∷ q) [] false
      else outcome err_contract (x ∷ q) [] false

  abbrev pub accept_flag : List (Msg S) → Msg S → Outcome S
  accept_flag q m =
      if not (is_storage_none m.storage) || not (m.payload_size == 0)
      then outcome err_contract q [] false
      else accept_pending q m

  -- A queue with room takes the message at its end. A full FIFO refuses it, a full lossy ring gives
  -- up its oldest message, a single slot its only one, and a flag keeps one message without payload,
  -- of one event.
  abbrev pub accept : MailboxKind → List (Msg S) → Msg S → Outcome S
  accept fifo_8 q m = accept_bounded 8 q m
  accept fifo_16 q m = accept_bounded 16 q m
  accept mailbox_1 q m = outcome ok (m ∷ []) q true
  accept lossy_ring_8 q m = accept_lossy 8 q m
  accept coalesced_flag q m = accept_flag q m

  -- Each message given up is disposed of, oldest first.
  abbrev pub dispose_all : List (Msg S) → S → S
  dispose_all [] s = s
  dispose_all (m ∷ ms) s = dispose_all ms (Msg.dispose m s).2

  abbrev pub take_oldest : List (Msg S) → Result × Option (Msg S) × List (Msg S)
  take_oldest [] = (err_empty, none, [])
  take_oldest (m ∷ q) = (ok, some m, q)
