-- ===== src/Core/Msg/Validate.antt =====
-- The functions of core/src/ev_msg.c that retain, check and read a payload.
use esp8266_event_driven_fra.Prelude.{
  ℕ, Bool, not, ◌&&◌, ◌||◌, Option, none, some, List, ltb, ◌==◌, if◌then◌else◌, is_none,
}
use esp8266_event_driven_fra.Core.Result.{
  Result, ok, err_out_of_range, err_state, err_contract, err_unsupported,
}
use esp8266_event_driven_fra.Core.Catalog.{
  PayloadKind, inline, copy_fixed, lease, stream_view, event_meta, event_id_is_valid,
  actor_id_is_valid, actor_none,
}
use esp8266_event_driven_fra.Core.Msg.Data.{
  inline_capacity, Storage, storage_none, storage_inline, storage_external, is_external, is_inline,
  is_storage_none, RetainFn, Msg, has_cookie, is_disposed,
}

module _ {S : Type 0} where
  call_retain : Option (RetainFn S) → Msg S → S → Result × S
  call_retain none m s = (err_unsupported, s)
  call_retain (some f) m s = f m.external.lifecycle_ctx m.external.payload m.payload_size s

  retain_kind : PayloadKind → Msg S → S → Result × S
  retain_kind lease m s = call_retain m.external.retain_fn m s
  retain_kind stream_view m s = (err_unsupported, s)
  retain_kind _ m s = (err_contract, s)

  -- `ev_msg_retain`
  unfoldable pub retain : Msg S → S → Result × S
  unfolding retain_kind call_retain has_cookie
  retain m s = if not (has_cookie m) then (err_state, s) else elim (event_meta m.event_id) [
    | none ↦ (err_out_of_range, s)
    | some e ↦
        if not (is_external m.storage) || (m.payload_size == 0)
        then (ok, s)
        else retain_kind e.payload_kind m s
  ]

  external_bad : Msg S → Bool
  external_bad m =
      is_external m.storage
      && ltb 0 m.payload_size
      && (is_none m.external.payload || not (m.external.size == m.payload_size))

  -- The switch of `ev_msg_validate` on the catalogue's payload kind.
  validate_inline : Msg S → Result
  validate_inline m =
      if is_external m.storage
      then err_contract
      else if ltb inline_capacity m.payload_size
      then err_out_of_range
      else ok

  validate_kind : PayloadKind → Msg S → Result
  unfolding validate_inline external_bad
  validate_kind inline m = validate_inline m
  validate_kind copy_fixed m = validate_inline m
  validate_kind lease m =
      if is_inline m.storage
      then err_contract
      else if is_external m.storage
          && ltb 0 m.payload_size
          && (is_none m.external.payload
              || not (m.external.size == m.payload_size)
              || is_none m.external.retain_fn
              || is_none m.external.release_fn)
      then err_contract
      else ok
  validate_kind stream_view m =
      if is_inline m.storage
      then err_contract
      else if is_external m.storage
          && (not (is_none m.external.retain_fn)
              || not (is_none m.external.release_fn)
              || not (is_none m.external.lifecycle_ctx))
      then err_contract
      else if external_bad m
      then err_contract
      else ok

  -- `ev_msg_validate`
  unfoldable pub validate : Msg S → Result
  unfolding validate_kind has_cookie is_disposed
  validate m =
      if not (has_cookie m)
      then err_state
      else if is_disposed m
      then err_state
      else if not (event_id_is_valid m.event_id) || not (actor_id_is_valid m.source_actor)
      then err_out_of_range
      else if not (m.target_actor == actor_none) && not (actor_id_is_valid m.target_actor)
      then err_out_of_range
      else if is_storage_none m.storage && not (m.payload_size == 0)
      then err_contract
      else if not (is_storage_none m.storage) && (m.payload_size == 0)
      then err_contract
      else elim (event_meta m.event_id) [
        | none ↦ err_out_of_range
        | some e ↦ validate_kind e.payload_kind m
      ]

-- Where `ev_msg_payload_data` points: nowhere, at the message's own buffer, or outside.
pub data DataRef : Type 0 where
  null : DataRef
  own_bytes : List ℕ → DataRef
  outside : Option ℕ → DataRef

module _ {S : Type 0} where
  data_of : Storage → Msg S → DataRef
  data_of storage_inline m = own_bytes m.inline_bytes
  data_of storage_external m = outside m.external.payload
  data_of storage_none m = null

  -- `ev_msg_payload_data`
  unfoldable pub payload_data : Msg S → DataRef
  unfolding data_of
  payload_data m = data_of m.storage m
