-- ===== src/Tests/Envelopes.antt =====
-- The theorems on the envelope at a tick without payload and at a chunk with a lease.
use esp8266_event_driven_fra.Prelude.{◌≡◌, ◌≢◌, ◌↔◌, refl, inr, none, some, [], ◌∷◌, arith}
use esp8266_event_driven_fra.Core.Result.{ok, err_state}
use esp8266_event_driven_fra.Core.Catalog.{
  lease, event_meta, event_id_is_valid, actor_id_is_valid, event_catalog, actor_meta, actor_catalog,
}
use esp8266_event_driven_fra.Core.Msg
use esp8266_event_driven_fra.Core.Msg.{Msg, zero_external}
use esp8266_event_driven_fra.Core.Msg.Contract.{
  IsWellFormed, IsAddressed, validate_iff, set_inline_payload_lem, set_lease_payload_lem,
}
use esp8266_event_driven_fra.Core.Msg.Lifetime.{dispose_final}
use esp8266_event_driven_fra.Tests.Samples.{tick, chunk, empty_chunk, lease_payload, one_more}

tick-IsAddressed : IsAddressed tick
unfolding event_id_is_valid actor_id_is_valid event_meta event_catalog actor_meta actor_catalog
tick-IsAddressed = record {
  cookie = refl;
  live = refl;
  event = refl;
  source = refl;
  target = inr refl;
}

empty_chunk-IsAddressed : IsAddressed empty_chunk
unfolding event_id_is_valid actor_id_is_valid event_meta event_catalog actor_meta actor_catalog
empty_chunk-IsAddressed = record {
  cookie = refl;
  live = refl;
  event = refl;
  source = refl;
  target = inr refl;
}

validate_iff_example : (Msg.validate chunk ≡ ok) ↔ IsWellFormed lease chunk
unfolding event_meta event_catalog
validate_iff_example = validate_iff lease chunk refl

set_inline_payload_example :
    Msg.validate (Msg.set_inline_payload tick (some (1 ∷ 2 ∷ 3 ∷ [])) 3 0).1 ≡ ok
unfolding event_meta event_catalog
set_inline_payload_example =
    (set_inline_payload_lem tick (1 ∷ 2 ∷ 3 ∷ []) 3 0 refl tick-IsAddressed (omega arith)).2

set_lease_payload_example :
    Msg.validate (Msg.set_external_payload empty_chunk lease_payload 0).1 ≡ ok
unfolding event_meta event_catalog
set_lease_payload_example =
    (set_lease_payload_lem empty_chunk lease_payload one_more 0 refl empty_chunk-IsAddressed
      (omega arith) (λ e. absurd (cc e)) refl (λ e. absurd (cc e))).2

too_large : (Msg.set_inline_payload tick (some (1 ∷ [])) 25 0).0 ≢ ok
unfolding Msg.set_inline_payload
too_large e = ground arith

dispose_final_example : Msg.validate (Msg.dispose chunk 1).1 ≡ err_state
dispose_final_example = (dispose_final chunk 1 none 0 zero_external).3
