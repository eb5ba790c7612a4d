-- ===== src/Lib.antt =====
-- The core of an event-driven framework for the ESP8266: typed messages with owned payloads, actor
-- mailboxes with qualities of service, a pool of reference-counted leases, the pumps that run the
-- actors, and the services of the runtime.
--
-- An event is a message (core/src/ev_msg.c) whose payload is stored in the envelope or held by a
-- lease; a lease comes from a fixed pool (core/src/ev_lease_pool.c), and a message that carries one
-- calls back into that pool to retain and to release it. Messages are delivered into the mailbox of
-- an actor (core/src/ev_mailbox.c), which retains a share of what it queues and disposes of what it
-- gives up. Interrupts enter through the ingress service, timers through the timer service; faults
-- and traces are kept in bounded stores, and the power state machine guards the way into deep sleep;
-- what goes to the network waits in an outbox with limits by category.
--
--   Prelude     arrays as lists, rings over an array, words and masks, Boolean tests
--   Core        Catalog: core/src/ev_event_catalog.c, core/src/ev_actor_catalog.c and config/*.def;
--               Route: core/src/ev_route_table.c and core/include/ev/route_table.h;
--               Msg: core/src/ev_msg.c and core/src/ev_dispose.c;
--               LeasePool: core/src/ev_lease_pool.c; Mailbox: core/src/ev_mailbox.c;
--               Publish: core/src/ev_publish.c and core/src/ev_send.c;
--               Actor: core/src/ev_actor_runtime.c; DomainPump: core/src/ev_domain_pump.c;
--               SystemPump: core/src/ev_system_pump.c
--   Runtime     Timer: runtime/src/ev_timer_service.c; Ingress: runtime/src/ev_ingress_service.c;
--               Trace: runtime/src/ev_trace_ring.c; Faults: runtime/src/ev_fault_bus.c;
--               Power: runtime/src/ev_power_state_machine.c;
--               Outbox: runtime/src/ev_network_outbox.c;
--               ActiveRoutes: runtime/src/ev_active_route_table.c;
--               Quality: runtime/src/ev_qos_contract.c; Metrics: runtime/src/ev_metrics_registry.c;
--               Security: runtime/src/ev_command_security.c;
--               Delivery: runtime/src/ev_delivery_service.c;
--               PublishPort: runtime/src/ev_actor_publish_port.c
--   Tests       small runs, and each theorem with conditions at one of them
--
-- A publish walks over the routes of its event and calls a delivery callback for each; the registry
-- of the actors is such a callback, and puts the message into the mailbox of its target. The
-- delivery service does the same over the active routes of a runtime, and keeps a report, faults,
-- traces and metrics. The pump of an actor takes messages out of its mailbox and hands them to the
-- handler of the actor; the pump of a domain goes round the actors of that domain, and the pump of
-- the system round the domains, each within a budget and from where it stopped the last time.
--
-- Functions keep the names of the source without their ev_ prefix and the name of their component.
-- A function that changes an object returns the changed object; an out-parameter is an Option that
-- is there on success. The lifecycle callbacks of a payload and the publish callback of the timers
-- act on a state S that the caller owns and that every call threads through; for a lease of the
-- pool it is the pool. Objects themselves are not NULL; a payload pointer, a callback and a context
-- may be, and are then none. The two members of the payload union stand side by side, since every
-- write of the code clears both first.
--
-- Counters, times, sequence numbers and identifiers are 32-bit words (generations of timers 16-bit)
-- whose wrap is written out; size_t is a 32-bit word as on the target. Enumerations hold their
-- declared constants only, so the default branches of the switches have no counterpart. A loop over
-- an array, or with a number of rounds that is fixed beforehand, is a recursion over it. The outer
-- loops of the two pumps run while a budget is left: their fuel is that budget, and it is enough,
-- since every pass that goes on takes at least one from it.
--
-- The handlers of all actors with their contexts are one parameter, a function of the actor and the
-- message on the state S. An actor runtime and its mailbox live in the slot of the registry they are
-- bound to, and the pumps of the domains in the slots of the system pump. The route tables that the
-- build generates are parameters, and so are the ports of the platform that are called.
--
-- Not modelled: the scheduler, poll and quiescence, and the runtime graph and loop that compose the
-- parts, but for the publish and the send of the graph; the drivers, ports, adapters and applications, which are
-- input and output; names and summaries for diagnostics.
pub mod Prelude
pub mod Core
pub mod Runtime
pub mod Tests
