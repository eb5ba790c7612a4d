-- ===== src/Core/Actor/State.antt =====
-- The runtimes of the actors and the registry that finds them: the types of
-- core/include/ev/actor_runtime.h, and what core/src/ev_actor_runtime.c does to wire them.
--
-- A runtime lives in the slot of the registry it is bound to, and its mailbox in the runtime, so
-- that a handler that delivers, also to its own actor, acts on the same objects as the runtime. The
-- state S that the callbacks of the payloads act on is the `owner` of the system.
use esp8266_event_driven_fra.Prelude.{
  ℕ, not, Option, none, some, List, ltb, ◌==◌, if◌then◌else◌, get_or, set, replicate, is_none,
}
use esp8266_event_driven_fra.Core.Result.{Result, ok, err_out_of_range, err_state, err_contract}
use esp8266_event_driven_fra.Core.Catalog.{
  MailboxKind, fifo_8, fifo_16, mailbox_1, lossy_ring_8, coalesced_flag, actor_none, actor_count,
  actor_meta, actor_id_is_valid,
}
use esp8266_event_driven_fra.Core.Mailbox.{Mailbox}

pub record RuntimeStats : Type 0 where
  pub enqueued : ℕ
  pub enqueue_failed : ℕ
  pub steps_ok : ℕ
  pub steps_empty : ℕ
  pub handler_errors : ℕ
  pub dispose_errors : ℕ
  pub pump_calls : ℕ
  pub pump_budget_hits : ℕ
  pub pending_high_watermark : ℕ
  pub last_pump_budget : ℕ
  pub last_pump_processed : ℕ
  pub last_result : Result

-- `ev_actor_runtime_t` without its handler and context, which are a parameter of what calls them.
pub record ActorRuntime (S : Type 0) : Type 0 where
  pub actor_id : ℕ
  pub mailbox : Mailbox S
  pub stats : RuntimeStats

pub record RegistryStats : Type 0 where
  pub delivery_attempted : ℕ
  pub delivery_succeeded : ℕ
  pub delivery_failed : ℕ
  pub delivery_target_missing : ℕ
  pub last_target_actor : ℕ
  pub last_result : Result

-- A registry with the runtimes it points at, and the owner of the payloads.
pub record System (S : Type 0) : Type 0 where
  pub slots : List (Option (ActorRuntime S))
  pub stats : RegistryStats
  pub owner : S

abbrev pub fresh_runtime_stats : RuntimeStats
fresh_runtime_stats = record {
  enqueued = 0;
  enqueue_failed = 0;
  steps_ok = 0;
  steps_empty = 0;
  handler_errors = 0;
  dispose_errors = 0;
  pump_calls = 0;
  pump_budget_hits = 0;
  pending_high_watermark = 0;
  last_pump_budget = 0;
  last_pump_processed = 0;
  last_result = ok;
}

abbrev pub fresh_registry_stats : RegistryStats
fresh_registry_stats = record {
  delivery_attempted = 0;
  delivery_succeeded = 0;
  delivery_failed = 0;
  delivery_target_missing = 0;
  last_target_actor = actor_none;
  last_result = ok;
}

-- `mailbox->kind != meta->mailbox_kind`, on the positions of the constructors.
abbrev kind_index : MailboxKind → ℕ
kind_index fifo_8 = 0
kind_index fifo_16 = 1
kind_index mailbox_1 = 2
kind_index lossy_ring_8 = 3
kind_index coalesced_flag = 4

module _ {S : Type 0} where
  -- What stands in a slot of the registry; none for NULL.
  abbrev pub runtime_at : System S → ℕ → Option (ActorRuntime S)
  runtime_at sys i = get_or sys.slots i none

  -- The runtime in a slot after a change to its fields.
  abbrev pub put_runtime : System S → ℕ → ActorRuntime S → System S
  put_runtime sys i rt = record sys { slots = set sys.slots i (some rt) }

  -- A change to the counters of the runtime in a slot.
  unfoldable pub restat : System S → ℕ → (RuntimeStats → RuntimeStats) → System S
  restat sys i f = elim (runtime_at sys i) [
    | none ↦ sys
    | some rt ↦ put_runtime sys i (record rt { stats = f rt.stats })
  ]

  -- `ev_actor_runtime_pending`
  abbrev pub pending : ActorRuntime S → ℕ
  pending rt = rt.mailbox.count

  -- `ev_actor_runtime_record_pending_high_watermark`
  unfoldable pub record_pending_high_watermark : ActorRuntime S → ActorRuntime S
  record_pending_high_watermark rt =
      if ltb rt.stats.pending_high_watermark (pending rt)
      then record rt { stats = record (rt.stats) { pending_high_watermark = pending rt } }
      else rt

  -- `ev_actor_runtime_init`
  unfoldable pub runtime_init : ℕ → Mailbox S → Result × Option (ActorRuntime S)
  runtime_init actor_id mailbox = elim (actor_meta actor_id) [
    | none ↦ (err_out_of_range, none)
    | some m ↦
        if not (kind_index mailbox.kind == kind_index m.mailbox_kind)
        then (err_contract, none)
        else if m.drain_budget == 0
        then (err_contract, none)
        else (
          ok,
          some (record { actor_id = actor_id; mailbox = mailbox; stats = fresh_runtime_stats }),
        )
  ]

  -- `ev_actor_registry_init`, for payloads of the given owner.
  unfoldable pub registry_init : S → Result × System S
  registry_init owner = (
    ok,
    record { slots = replicate actor_count none; stats = fresh_registry_stats; owner = owner },
  )

  -- `ev_actor_registry_reset_stats`
  unfoldable pub registry_reset_stats : System S → Result × System S
  registry_reset_stats sys = (ok, record sys { stats = fresh_registry_stats })

  -- `ev_actor_registry_find`
  unfoldable pub find : System S → ℕ → Option (ActorRuntime S)
  find sys actor_id = if not (actor_id_is_valid actor_id) then none else runtime_at sys actor_id

  -- `ev_actor_registry_bind`
  unfoldable pub bind : System S → ActorRuntime S → Result × System S
  bind sys rt =
      if not (actor_id_is_valid rt.actor_id)
      then (err_out_of_range, sys)
      else if not (is_none (runtime_at sys rt.actor_id))
      then (err_state, sys)
      else (ok, put_runtime sys rt.actor_id rt)
