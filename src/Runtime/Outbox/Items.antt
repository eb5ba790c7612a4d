-- ===== src/Runtime/Outbox/Items.antt =====
-- The items and the operations of runtime/src/ev_network_outbox.c. A count or a limit by category is
-- a function of the category; a NULL payload is `none`.
use esp8266_event_driven_fra.Prelude.{
  ℕ, zero, suc, ◌-◌, Bool, true, false, not, ◌&&◌, Option, none, some, List, [], ◌∷◌, leb, ltb,
  ◌==◌, if◌then◌else◌, get_or, set, replicate, inc32, sub32, bit_and,
}
use esp8266_event_driven_fra.Core.Result.{Result, ok, err_full, err_empty}

pub data Category : Type 0 where
  telemetry_latest telemetry_periodic command_response fault_critical : Category

abbrev pub same : Category → Category → Bool
same telemetry_latest telemetry_latest = true
same telemetry_periodic telemetry_periodic = true
same command_response command_response = true
same fault_critical fault_critical = true
same _ _ = false

pub record Policy : Type 0 where
  pub category_limit : Category → ℕ
  pub drop_oldest : Category → Bool

pub record Item : Type 0 where
  pub category : Category
  pub size : ℕ
  pub payload : List ℕ

pub record Outbox : Type 0 where
  pub items : List Item
  pub write_seq : ℕ
  pub read_seq : ℕ
  pub high_water : ℕ
  pub queued_by_category : Category → ℕ
  pub accepted : ℕ
  pub rejected : ℕ
  pub dropped : ℕ

-- `EV_NETWORK_OUTBOX_CAPACITY`
abbrev pub capacity : ℕ
capacity = 8

-- `EV_NETWORK_OUTBOX_MASK`
abbrev pub mask : ℕ
mask = 7

-- `EV_NETWORK_PAYLOAD_BYTES`
abbrev pub payload_bytes : ℕ
payload_bytes = 64

abbrev pub zero_item : Item
zero_item = record { category = telemetry_latest; size = 0; payload = replicate payload_bytes 0 }

-- One count of a table by category.
abbrev pub update : (Category → ℕ) → Category → ℕ → Category → ℕ
update f c n d = if same c d then n else f d

-- `ev_network_outbox_init`
unfoldable pub init : Outbox
init = record {
  items = replicate capacity zero_item;
  write_seq = 0;
  read_seq = 0;
  high_water = 0;
  queued_by_category = λ c. 0;
  accepted = 0;
  rejected = 0;
  dropped = 0;
}

-- `ev_network_pending_u32`
abbrev pub pending : Outbox → ℕ
pending o = sub32 o.write_seq o.read_seq

-- `memcpy` of `n` bytes; the bytes behind them stay.
abbrev pub copy : ℕ → List ℕ → List ℕ → List ℕ
copy zero from to = to
copy (suc n) [] to = to
copy (suc n) (b ∷ from) [] = []
copy (suc n) (b ∷ from) (t ∷ to) = b ∷ copy n from to

abbrev copied : Option (List ℕ) → ℕ → List ℕ → List ℕ
copied none n to = to
copied (some from) n to = copy n from to

-- `ev_network_copy_payload`, into the slot of the next item, with its category.
unfoldable pub written : Outbox → Category → Option (List ℕ) → ℕ → Item
written o category payload size =
    let old = get_or o.items (bit_and o.write_seq mask) zero_item in
    let n = if ltb payload_bytes size then payload_bytes else size in
    record { category = category; size = n; payload = copied payload n old.payload }

-- What `ev_network_drop_head` and `ev_network_outbox_pop` do to the queue: the head's category is
-- counted down, unless it is 0, and the read number moves on.
unfoldable pub advance : Outbox → Outbox
advance o =
    let c = (get_or o.items (bit_and o.read_seq mask) zero_item).category in
    record o {
      queued_by_category = update o.queued_by_category c (o.queued_by_category c - 1);
      read_seq = inc32 o.read_seq;
    }

-- `ev_network_drop_head`
unfoldable pub drop_head : Outbox → Outbox
unfolding advance
drop_head o = record (advance o) { dropped = inc32 o.dropped }

abbrev reject : Outbox → Result × Outbox
reject o = (err_full, record o { rejected = inc32 o.rejected })

-- The second half of `ev_network_outbox_push`, after its limit was looked at.
unfoldable pub append : Outbox → Category → Option (List ℕ) → ℕ → Result × Outbox
append o category payload size = if leb capacity (pending o) then reject o else (
  ok,
  record o {
    items = set o.items (bit_and o.write_seq mask) (written o category payload size);
    write_seq = inc32 o.write_seq;
    queued_by_category =
        update o.queued_by_category category (inc32 (o.queued_by_category category));
    accepted = inc32 o.accepted;
    high_water = if ltb o.high_water (inc32 (pending o)) then inc32 (pending o) else o.high_water;
  },
)

-- The test of `ev_network_outbox_push` for the limit of the category.
abbrev pub at_limit : Policy → Category → ℕ → Bool
at_limit policy c queued =
    not (policy.category_limit c == 0) && leb (policy.category_limit c) queued

-- `ev_network_outbox_push`
unfoldable pub push : Outbox → Policy → Category → Option (List ℕ) → ℕ → Result × Outbox
unfolding append drop_head
push o policy category payload size =
    let limited = at_limit policy category (o.queued_by_category category) in
    if limited && not (policy.drop_oldest category && ltb 0 (pending o))
    then reject o
    else append (if limited then drop_head o else o) category payload size

-- `ev_network_outbox_pop`
unfoldable pub pop : Outbox → Result × Option Item × Outbox
unfolding advance
pop o =
    if pending o == 0
    then (err_empty, none, o)
    else (ok, some (get_or o.items (bit_and o.read_seq mask) zero_item), advance o)
