-- ===== src/Tests/Mailboxes.antt =====
-- The theorems on mailboxes at a FIFO that goes round at the end of its array, and at a lossy ring
-- that is full.
use esp8266_event_driven_fra.Prelude.{◌≡◌, ◌≢◌, refl, set, ring, arith}
use esp8266_event_driven_fra.Core.Result.{ok}
use esp8266_event_driven_fra.Core.Catalog.{
  lossy_ring_8, event_meta, event_id_is_valid, actor_id_is_valid, event_catalog, actor_meta,
  actor_catalog,
}
use esp8266_event_driven_fra.Core.Route.{qos_coalesced, qos_latest_only}
use esp8266_event_driven_fra.Core.Msg
use esp8266_event_driven_fra.Core.Msg.{zero_msg}
use esp8266_event_driven_fra.Core.Mailbox
use esp8266_event_driven_fra.Core.Mailbox.{retain_for_queue, kind_capacity}
use esp8266_event_driven_fra.Core.Mailbox.Ring.{IsValid, contents}
use esp8266_event_driven_fra.Core.Mailbox.Queue.{accept, take_oldest}
use esp8266_event_driven_fra.Core.Mailbox.Pushes.{Pushes}
use esp8266_event_driven_fra.Core.Mailbox.Refine.{push_refines}
use esp8266_event_driven_fra.Core.Mailbox.Pop.{pop_refines}
use esp8266_event_driven_fra.Core.Mailbox.Refusals.{push_refused}
use esp8266_event_driven_fra.Core.Mailbox.Quality.{push_qos_coalesced, push_qos_latest_only}
use esp8266_event_driven_fra.Tests.Samples.{
  later_tick, chunk, two_pending, two_pending-IsValid, full_ring,
}

full_ring-IsValid : IsValid full_ring
full_ring-IsValid = record {
  sized = refl;
  array = refl;
  masked = refl;
  head_in = omega arith;
  tail_at = refl;
  within = omega arith;
}

chunk-validate : Msg.validate chunk ≡ ok
unfolding Msg.validate event_id_is_valid actor_id_is_valid event_meta event_catalog actor_meta
    actor_catalog
chunk-validate = refl

later_tick-validate : Msg.validate later_tick ≡ ok
unfolding Msg.validate event_id_is_valid actor_id_is_valid event_meta event_catalog actor_meta
    actor_catalog
later_tick-validate = refl

chunk-granted : (retain_for_queue chunk 8).0 ≡ ok
unfolding retain_for_queue Msg.retain event_id_is_valid event_meta event_catalog
chunk-granted = refl

later_tick-granted : (retain_for_queue later_tick 1).0 ≡ ok
unfolding retain_for_queue
later_tick-granted = refl

push_refines_example :
    Pushes full_ring
      (accept lossy_ring_8 (contents full_ring) chunk)
      8
      (retain_for_queue chunk 8).1
      (Mailbox.push full_ring chunk 8)
push_refines_example = push_refines full_ring chunk 8 full_ring-IsValid chunk-validate chunk-granted

pop_refines_example :
    let (rc, out, mb') = Mailbox.pop two_pending in
    (rc, out, contents mb') ≡ take_oldest (contents two_pending)
pop_refines_example = (pop_refines two_pending two_pending-IsValid).0

-- A message that was never initialised is refused.
zero_msg-refused : (Mailbox.push two_pending zero_msg 1).0 ≢ ok
unfolding Mailbox.push Msg.validate
zero_msg-refused e = absurd (cc e)

push_refused_example : contents (Mailbox.push two_pending zero_msg 1).1 ≡ contents two_pending
push_refused_example = (push_refused two_pending zero_msg 1 two_pending-IsValid zero_msg-refused).0

push_qos_coalesced_example : (Mailbox.push_qos two_pending later_tick qos_coalesced 1).2 ≡ 1
unfolding ring
push_qos_coalesced_example =
    ((push_qos_coalesced two_pending later_tick 1 two_pending-IsValid later_tick-validate).0 0
      refl).2

push_qos_latest_only_example :
    contents (Mailbox.push_qos two_pending later_tick qos_latest_only 1).1
    ≡ set (contents two_pending) 0 later_tick
unfolding ring
push_qos_latest_only_example =
    ((push_qos_latest_only two_pending later_tick 1 two_pending-IsValid later_tick-validate).0 0
      refl later_tick-granted).1
