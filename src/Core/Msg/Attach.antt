-- ===== src/Core/Msg/Attach.antt =====
-- core/src/ev_dispose.c, and the functions of core/src/ev_msg.c that initialise a message and attach
-- a payload to it.
use esp8266_event_driven_fra.Prelude.{
  ℕ, Bool, true, false, not, ◌&&◌, ◌||◌, Option, none, some, List, ◌++◌, ◌-◌, replicate, take, ltb,
  ◌==◌, if◌then◌else◌, is_none, bit_or,
}
use esp8266_event_driven_fra.Core.Result.{
  Result, ok, is_ok, err_out_of_range, err_state, err_contract, err_invalid_arg,
}
use esp8266_event_driven_fra.Core.Catalog.{
  PayloadKind, inline, copy_fixed, lease, stream_view, event_meta, event_id_is_valid,
  actor_id_is_valid, actor_none,
}
use esp8266_event_driven_fra.Core.Msg.Data.{
  inline_capacity, flag_disposed, storage_none, storage_inline, storage_external, is_external,
  ReleaseFn, External, Msg, zero_bytes, zero_external, has_cookie, is_disposed, reset,
}

-- `memcpy` of the first `size` bytes into the cleared buffer.
abbrev pub inline_copy : List ℕ → ℕ → List ℕ
inline_copy bytes size = take size bytes ++ replicate (inline_capacity - size) 0

pub allows_inline : PayloadKind → Bool
allows_inline inline = true
allows_inline copy_fixed = true
allows_inline _ = false

pub allows_external : PayloadKind → Bool
allows_external lease = true
allows_external stream_view = true
allows_external _ = false

module _ {S : Type 0} where
  -- The message owns a share that its disposal gives back.
  unfoldable pub payload_requires_release : Msg S → Bool
  payload_requires_release m =
      is_external m.storage && ltb 0 m.payload_size && not (is_none m.external.release_fn)

  call_release : Option (ReleaseFn S) → Msg S → S → S
  call_release none m s = s
  call_release (some f) m s = f m.external.lifecycle_ctx m.external.payload m.payload_size s

  -- The release that `ev_msg_dispose` and `ev_msg_release_attached_payload` share.
  unfoldable pub release_payload : Msg S → S → S
  unfolding call_release payload_requires_release
  release_payload m s =
      if payload_requires_release m then call_release m.external.release_fn m s else s

  clear_payload : Msg S → Msg S
  clear_payload m = record m {
    storage = storage_none;
    payload_size = 0;
    inline_bytes = zero_bytes;
    external = zero_external;
  }

  pub release_attached_payload : Msg S → S → Result × Msg S × S
  unfolding release_payload clear_payload
  release_attached_payload m s = (ok, clear_payload m, release_payload m s)

  -- `ev_msg_dispose`
  unfoldable pub dispose : Msg S → S → Result × Msg S × S
  unfolding release_payload clear_payload is_disposed has_cookie reset
  dispose m s =
      if not (has_cookie m)
      then (ok, record reset { flags = bit_or 0 flag_disposed }, s)
      else if is_disposed m
      then (ok, m, s)
      else (
        ok,
        record (clear_payload m) { flags = bit_or m.flags flag_disposed },
        release_payload m s,
      )

  -- `ev_msg_init_publish`; a refused call leaves the message alone.
  unfoldable pub init_publish : Msg S → ℕ → ℕ → Result × Msg S
  init_publish m event_id source =
      if not (event_id_is_valid event_id) || not (actor_id_is_valid source)
      then (err_out_of_range, m)
      else (
        ok,
        record reset { event_id = event_id; source_actor = source; target_actor = actor_none },
      )

  -- `ev_msg_init_send`
  unfoldable pub init_send : Msg S → ℕ → ℕ → ℕ → Result × Msg S
  init_send m event_id source target =
      if (target == actor_none)
        || not (event_id_is_valid event_id)
        || not (actor_id_is_valid source)
        || not (actor_id_is_valid target)
      then (err_out_of_range, m)
      else (ok, record reset { event_id = event_id; source_actor = source; target_actor = target })

  -- The catalogue's payload kind; an unknown event counts as inline.
  unfoldable pub payload_kind : Msg S → PayloadKind
  payload_kind m = elim (event_meta m.event_id) [ none ↦ inline | some e ↦ e.payload_kind ]

  store_inline : Option (List ℕ) → ℕ → Msg S → Msg S
  store_inline none size m = m
  store_inline (some bytes) size m = record m {
    storage = storage_inline;
    inline_bytes = inline_copy bytes size;
  }

  attach_inline : Msg S → Option (List ℕ) → ℕ → S → Result × Msg S × S
  unfolding release_attached_payload store_inline
  attach_inline m bytes size s =
      let (rc, m', s') = release_attached_payload m s in
      if not (is_ok rc)
      then (rc, m', s')
      else if ltb 0 size
      then (ok, record (store_inline bytes size m') { payload_size = size }, s')
      else (ok, record m' { storage = storage_none; payload_size = size }, s')

  -- `ev_msg_set_inline_payload`
  unfoldable pub set_inline_payload : Msg S → Option (List ℕ) → ℕ → S → Result × Msg S × S
  unfolding attach_inline has_cookie is_disposed allows_inline
  set_inline_payload m bytes size s =
      if not (has_cookie m)
      then (err_state, m, s)
      else if is_disposed m
      then (err_state, m, s)
      else if ltb 0 size && is_none bytes
      then (err_invalid_arg, m, s)
      else if ltb inline_capacity size
      then (err_out_of_range, m, s)
      else elim (event_meta m.event_id) [
        | none ↦ (err_out_of_range, m, s)
        | some e ↦
            if not (allows_inline e.payload_kind)
            then (err_contract, m, s)
            else attach_inline m bytes size s
      ]

  -- The payload-kind rules of `ev_msg_set_external_payload`.
  external_refused : PayloadKind → External S → Bool
  external_refused lease x = ltb 0 x.size && (is_none x.retain_fn || is_none x.release_fn)
  external_refused stream_view x =
      not (is_none x.retain_fn) || not (is_none x.release_fn) || not (is_none x.lifecycle_ctx)
  external_refused _ x = false

  attach_external : Msg S → External S → S → Result × Msg S × S
  unfolding release_attached_payload
  attach_external m x s =
      let (rc, m', s') = release_attached_payload m s in
      if not (is_ok rc)
      then (rc, m', s')
      else if ltb 0 x.size
      then (ok, record m' { storage = storage_external; external = x; payload_size = x.size }, s')
      else (ok, record m' { storage = storage_none; payload_size = x.size }, s')

  -- `ev_msg_set_external_payload`; its last five arguments are the fields of the descriptor.
  unfoldable pub set_external_payload : Msg S → External S → S → Result × Msg S × S
  unfolding attach_external has_cookie is_disposed allows_external external_refused
  set_external_payload m x s =
      if not (has_cookie m)
      then (err_state, m, s)
      else if is_disposed m
      then (err_state, m, s)
      else if ltb 0 x.size && is_none x.payload
      then (err_invalid_arg, m, s)
      else elim (event_meta m.event_id) [
        | none ↦ (err_out_of_range, m, s)
        | some e ↦
            if not (allows_external e.payload_kind)
            then (err_contract, m, s)
            else if external_refused e.payload_kind x
            then (err_contract, m, s)
            else attach_external m x s
      ]
