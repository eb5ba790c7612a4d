-- ===== src/Core/LeasePool/Carried.antt =====
-- A message that carries a lease holds a share of it: `ev_lease_pool_attach_msg` with
-- core/src/ev_msg.c on top of the pool.
use esp8266_event_driven_fra.Prelude.{
  ℕ, ◌+◌, ◌*◌, ◌<◌, ◌≡◌, refl, ap, ◌∙◌, true, some, none, arith, replicate, ◌≢◌, u32_mod, ltb,
  lt→ltb,
}
use esp8266_event_driven_fra.Core.Result.{ok}
use esp8266_event_driven_fra.Core.Catalog.{event_meta, lease}
use esp8266_event_driven_fra.Core.Msg
use esp8266_event_driven_fra.Core.Msg.{Msg, External, storage_none, storage_external}
use esp8266_event_driven_fra.Core.Msg.Contract.{IsAddressed, set_lease_payload_lem}
use esp8266_event_driven_fra.Core.LeasePool.Slots.{Slot, Pool, Handle, handle_slot, handle_is_live}
use esp8266_event_driven_fra.Core.LeasePool.Shares.{
  retain, handle_data, handle_size, lease_payload, attach_share, attach_msg, retain_from_slot,
  release_from_slot,
}
use esp8266_event_driven_fra.Core.LeasePool.Invariant.{IsValid, handle_slot-inv}
use esp8266_event_driven_fra.Core.LeasePool.Leases.{data_ptr_at, retain_lem, live_range}

carried : Pool → Handle → ℕ → Slot → External Pool
carried p h i s = record {
  payload = some (i * p.slot_size);
  size = s.payload_size;
  retain_fn = some retain_from_slot;
  release_fn = some release_from_slot;
  lifecycle_ctx = h.slot;
}

-- A message after an external payload was attached.
attached :
    {S : Type 0} (m : Msg S) (x : External S) (s : S)
    → event_meta m.event_id ≡ some (record { payload_kind = lease })
    → IsAddressed m
    → 0 < x.size
    → x.payload ≢ none
    → x.retain_fn ≢ none
    → x.release_fn ≢ none
    → (Msg.set_external_payload m x s).1 ≡ record m {
      storage = storage_external;
      payload_size = x.size;
      inline_bytes = replicate 24 0;
      external = x;
    }
unfolding Msg.set_external_payload
attached m x s e a pos some_payload keeps frees = ground arith

release_payload-none :
    {S : Type 0} (m : Msg S) (s : S) → m.storage ≡ storage_none → Msg.release_payload m s ≡ s
unfolding Msg.release_payload
release_payload-none m s h = ground arith

-- Attaching a live lease with a payload to an addressed message of a lease event that is still
-- empty, from a well-formed pool and where the count of shares does not wrap, succeeds: the
-- message validates, points at the bytes and the size of the leased slot with the callbacks of the
-- pool, is otherwise as before, and the handle stays live with one share more.
pub attach_msg_lem :
    (p : Pool) (h : Handle) (i : ℕ) (s : Slot) (m : Msg Pool)
    → IsValid p
    → handle_slot p h ≡ some (i, s)
    → 0 < s.payload_size
    → s.refcount + 1 < u32_mod
    → event_meta m.event_id ≡ some (record { payload_kind = lease })
    → IsAddressed m
    → m.storage ≡ storage_none
    → let (rc, m', p') = attach_msg m h p in
      (rc ≡ ok)
      × (Msg.validate m' ≡ ok)
      × (m' ≡ record m {
        storage = storage_external;
        payload_size = s.payload_size;
        inline_bytes = replicate 24 0;
        external = record {
          payload = some (i * p.slot_size);
          size = s.payload_size;
          retain_fn = some retain_from_slot;
          release_fn = some release_from_slot;
          lifecycle_ctx = h.slot;
        };
      })
      × (handle_slot p' h ≡ some (i, record s { refcount = s.refcount + 1 }))
unfolding attach_msg handle_data handle_size handle_is_live lease_payload attach_share carried
attach_msg_lem p h i s m v found pos room e a empty =
    let (named, at, used, gen, shares) = handle_slot-inv p h i s found in
    let range = live_range p v h i s found in
    let size : handle_size p h ≡ s.payload_size = rw (found, handle_size) refl in
    let bytes : handle_data p h ≡ some (i * p.slot_size) =
      rw (found, handle_data) (data_ptr_at p v i s at range) in
    let live : handle_is_live p h ≡ true = rw (found, handle_is_live) refl in
    let some_bytes : ltb 0 s.payload_size ≡ true = lt→ltb 0 s.payload_size pos in
    let (taken, kept, others) = retain_lem p v h i s found room in
    let (rc, same, fine, later) =
      set_lease_payload_lem m (carried p h i s) retain_from_slot (retain p h).1 e a pos
        (λ q. absurd (cc q)) refl (λ q. absurd (cc q)) in
    rw (size, bytes, live, some_bytes, attach_msg, taken, rc)
      (
        refl,
        fine,
        attached m (carried p h i s) (retain p h).1 e a pos (λ q. absurd (cc q))
            (λ q. absurd (cc q)) (λ q. absurd (cc q)),
        ap (λ x. handle_slot x h) (same ∙ release_payload-none m (retain p h).1 empty) ∙ kept,
      )
