-- ===== src/Tests/Actors.antt =====
-- The theorems on actors and pumps at a system with one actor that has two messages.
use esp8266_event_driven_fra.Prelude.{
  ℕ, ◌+◌, ◌≡◌, ◌≢◌, refl, none, some, [], set, replicate, arith, ring, ◌≤◌,
}
use esp8266_event_driven_fra.Core.Result.{ok, err_empty}
use esp8266_event_driven_fra.Core.Catalog.{
  act_app, act_boot, actor_count, actor_meta, actor_catalog, fast_loop, actor_id_is_valid,
  default_drain_budget,
}
use esp8266_event_driven_fra.Core.Msg
use esp8266_event_driven_fra.Core.Mailbox
use esp8266_event_driven_fra.Core.Mailbox.Ring.{contents}
use esp8266_event_driven_fra.Core.Actor
use esp8266_event_driven_fra.Core.Actor.{
  ActorRuntime, System, Handler, fresh_runtime_stats, fresh_registry_stats, pending_at, runtime_at,
}
use esp8266_event_driven_fra.Core.Actor.Wired.{IsWired}
use esp8266_event_driven_fra.Core.Actor.Reach.{Reached-IsWired, start, delivered, pumped}
use esp8266_event_driven_fra.Core.Actor.Drained.{pump_lem}
use esp8266_event_driven_fra.Core.Actor.Served.{local, pump_local-Serves, Serves}
use esp8266_event_driven_fra.Core.Actor.Delivery.{delivery-push}
use esp8266_event_driven_fra.Core.DomainPump
use esp8266_event_driven_fra.Core.DomainPump.{DomainPump}
use esp8266_event_driven_fra.Core.DomainPump.Stops.{passes-enough, run_bounds}
use esp8266_event_driven_fra.Core.DomainPump.Idle.{run_drained}
use esp8266_event_driven_fra.Core.SystemPump
use esp8266_event_driven_fra.Core.SystemPump.{SystemPump}
use esp8266_event_driven_fra.Core.SystemPump.Stops.{run_turns}
use esp8266_event_driven_fra.Tests.Samples.{tick, two_pending, two_pending-IsValid}

abbrev app_runtime : ActorRuntime ℕ
app_runtime = record { actor_id = act_app; mailbox = two_pending; stats = fresh_runtime_stats }

abbrev app_system : System ℕ
app_system = record {
  slots = set (replicate 18 none) act_app (some app_runtime);
  stats = fresh_registry_stats;
  owner = 1;
}

-- A handler that counts the messages it is given.
abbrev counting : Handler ℕ
counting = local (λ i m n. (ok, n + 1))

Reached-IsWired_example :
    IsWired
      (Actor.pump counting act_app 2 (Actor.delivery act_app tick (Actor.registry_init 1).1).1).2
Reached-IsWired_example =
    Reached-IsWired counting (λ i m sys w. record { balanced = w.balanced; slots = w.slots })
      (Actor.pump counting act_app 2 (Actor.delivery act_app tick (Actor.registry_init 1).1).1).2
      (pumped act_app 2 (delivered act_app tick (start 1)))

two_waiting : pending_at app_system act_app ≢ 0
two_waiting e = absurd (omega (arith, e))

pump_example : (Actor.pump counting act_app 1 app_system).1.processed ≤ 1
pump_example =
    (pump_lem counting act_app 1 app_system (λ e. absurd (omega (arith, e))) two_waiting).0

two_contents : contents two_pending ≢ []
unfolding ring
two_contents e = absurd (cc e)

pump_local-Serves_example :
    Serves
      (λ i m n. (ok, n + 1))
      act_app
      1
      (contents two_pending)
      1
      (
        (Actor.pump counting act_app 1 app_system).0,
        (Actor.pump counting act_app 1 app_system).1.processed,
        (Actor.pump counting act_app 1 app_system).2,
      )
pump_local-Serves_example =
    pump_local-Serves (λ i m n. (ok, n + 1)) act_app 1 app_system app_runtime refl
      two_pending-IsValid (λ e. absurd (omega (arith, e))) two_contents

delivery-push_example :
    runtime_at (Actor.delivery act_app tick app_system).1 act_boot ≡ runtime_at app_system act_boot
delivery-push_example =
    (delivery-push act_app tick app_system).2 act_boot (λ e. absurd (omega (arith, e)))

abbrev fast_pump : DomainPump
fast_pump = (DomainPump.init fast_loop).1

abbrev fast_system_pump : SystemPump
fast_system_pump = (SystemPump.bind SystemPump.init.1 fast_pump).1

never_empty : (i : ℕ) (m : _) (sys : System ℕ) → (counting i m sys).0 ≢ err_empty
never_empty i m sys e = absurd (cc e)

passes-enough_example :
    DomainPump.passes counting 7 (DomainPump.start_frame 4 fast_pump app_system)
    ≡ DomainPump.passes counting 4 (DomainPump.start_frame 4 fast_pump app_system)
passes-enough_example =
    (passes-enough counting 4 fast_pump app_system (omega arith) 7 (omega arith)).0

run_bounds_example : (DomainPump.run counting 4 fast_pump app_system).1.processed ≤ 4
run_bounds_example =
    (run_bounds counting 4 fast_pump app_system (omega arith) (λ e. absurd (omega (arith, e)))).0

fast_run : (DomainPump.run counting 4 fast_pump app_system).0 ≡ ok
unfolding DomainPump.run DomainPump.pending DomainPump.init DomainPump.actor_matches
    DomainPump.cursor_advance Actor.pump Actor.default_budget Actor.restat actor_count actor_meta
    actor_catalog actor_id_is_valid default_drain_budget Mailbox.pop Mailbox.index_advance
    Msg.dispose
fast_run = refl

fast_stop : (DomainPump.run counting 4 fast_pump app_system).1.stop_result ≡ err_empty
unfolding DomainPump.run DomainPump.pending DomainPump.init DomainPump.actor_matches
    DomainPump.cursor_advance Actor.pump Actor.default_budget Actor.restat actor_count actor_meta
    actor_catalog actor_id_is_valid default_drain_budget Mailbox.pop Mailbox.index_advance
    Msg.dispose
fast_stop = refl

run_drained_example :
    let (_, _, pump', sys') = DomainPump.run counting 4 fast_pump app_system in
    DomainPump.pending pump' sys' ≡ 0
run_drained_example =
    run_drained counting 4 fast_pump app_system never_empty (omega arith)
      (λ e. absurd (omega (arith, e))) fast_run fast_stop

run_turns_example : (SystemPump.run counting 2 fast_system_pump app_system).1.turns_processed ≤ 2
run_turns_example =
    (run_turns counting 2 fast_system_pump app_system (omega arith)
      (λ e. absurd (omega (arith, e)))).0
