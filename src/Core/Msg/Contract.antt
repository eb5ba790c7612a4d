-- ===== src/Core/Msg/Contract.antt =====
-- What the checks of core/src/ev_msg.c accept, and that a payload attached by it is accepted.
use esp8266_event_driven_fra.Prelude.{
  take, replicate, ◌++◌, ◌-◌, ℕ, ◌≤◌, ◌<◌, ◌≡◌, ◌≢◌, ◌↔◌, ◌⊎◌, true, Option, none, some, List,
  arith, ◌==◌, if◌then◌else◌, bit_and,
}
use esp8266_event_driven_fra.Core.Result.{Result, ok, err_unsupported}
use esp8266_event_driven_fra.Core.Catalog.{
  PayloadKind, inline, copy_fixed, lease, stream_view, event_meta, event_id_is_valid,
  actor_id_is_valid, actor_none,
}
use esp8266_event_driven_fra.Core.Msg.Data.{
  inline_capacity, msg_cookie, flag_disposed, storage_none, storage_inline, storage_external, Msg,
  RetainFn, External,
}
use esp8266_event_driven_fra.Core.Msg.Attach.{
  release_payload, set_inline_payload, set_external_payload,
}
use esp8266_event_driven_fra.Core.Msg.Validate.{validate, retain, payload_data, null, own_bytes}

module _ {S : Type 0} where
  -- The part of the contract that does not depend on the payload.
  pub record IsAddressed (m : Msg S) : Type 0 where
    pub cookie : m.cookie ≡ msg_cookie
    pub live : bit_and m.flags flag_disposed ≡ 0
    pub event : event_id_is_valid m.event_id ≡ true
    pub source : actor_id_is_valid m.source_actor ≡ true
    pub target : (m.target_actor ≡ actor_none) ⊎ (actor_id_is_valid m.target_actor ≡ true)

  -- What each payload kind of the catalogue lets a message carry.
  abbrev pub Carries : PayloadKind → Msg S → Type 0
  Carries inline m = (m.storage ≢ storage_external) × (m.payload_size ≤ inline_capacity)
  Carries copy_fixed m = (m.storage ≢ storage_external) × (m.payload_size ≤ inline_capacity)
  Carries lease m =
      (m.storage ≢ storage_inline)
      × (m.storage ≡ storage_external
          → (m.external.payload ≢ none)
            × (m.external.size ≡ m.payload_size)
            × (m.external.retain_fn ≢ none)
            × (m.external.release_fn ≢ none))
  Carries stream_view m =
      (m.storage ≢ storage_inline)
      × (m.storage ≡ storage_external
          → (m.external.payload ≢ none)
            × (m.external.size ≡ m.payload_size)
            × (m.external.retain_fn ≡ none)
            × (m.external.release_fn ≡ none)
            × (m.external.lifecycle_ctx ≡ none))

  pub record IsWellFormed (k : PayloadKind) (m : Msg S) : Type 0 where
    pub addressed : IsAddressed m
    pub sized : (m.storage ≡ storage_none) ↔ (m.payload_size ≡ 0)
    pub carries : Carries k m

  validate-IsWellFormed :
      (k : PayloadKind) (m : Msg S)
      → event_meta m.event_id ≡ some (record { payload_kind = k })
      → validate m ≡ ok
      → IsWellFormed k m
  unfolding validate event_id_is_valid
  validate-IsWellFormed inline m e h = ground arith
  validate-IsWellFormed copy_fixed m e h = ground arith
  validate-IsWellFormed lease m e h = ground arith
  validate-IsWellFormed stream_view m e h = ground arith

  IsWellFormed-validate :
      (k : PayloadKind) (m : Msg S)
      → event_meta m.event_id ≡ some (record { payload_kind = k })
      → IsWellFormed k m
      → validate m ≡ ok
  unfolding validate event_id_is_valid
  IsWellFormed-validate inline m e h = ground arith
  IsWellFormed-validate copy_fixed m e h = ground arith
  IsWellFormed-validate lease m e h = ground arith
  IsWellFormed-validate stream_view m e h = ground arith

  -- For an event of the catalogue with payload kind k, validation accepts a message exactly when
  -- it carries the cookie and no disposed flag, its identifiers are valid, it is without payload
  -- exactly when its size is 0, and the payload is one that kind k allows.
  pub validate_iff :
      (k : PayloadKind) (m : Msg S)
      → event_meta m.event_id ≡ some (record { payload_kind = k })
      → (validate m ≡ ok) ↔ IsWellFormed k m
  validate_iff k m e = (validate-IsWellFormed k m e, IsWellFormed-validate k m e)

  -- Attaching at most 24 bytes to an addressed message of an inline event succeeds, gives back
  -- what the message held before, and leaves a message that validates and reads back as those
  -- bytes with zeros behind them (as no payload where the size is 0).
  pub set_inline_payload_lem :
      (m : Msg S) (bytes : List ℕ) (size : ℕ) (s : S)
      → event_meta m.event_id ≡ some (record { payload_kind = inline })
      → IsAddressed m
      → size ≤ inline_capacity
      → let (rc, m', s') = set_inline_payload m (some bytes) size s in
        (rc ≡ ok)
        × (s' ≡ release_payload m s)
        × (validate m' ≡ ok)
        × (m'.payload_size ≡ size)
        × (payload_data m'
            ≡ (if size == 0 then null else own_bytes (take size bytes ++ replicate (24 - size) 0)))
  unfolding set_inline_payload validate payload_data event_id_is_valid
  set_inline_payload_lem m bytes size s e a h = ground arith

  -- Attaching a non-empty lease with both callbacks to an addressed message of a lease event
  -- succeeds, gives back what the message held before, and leaves a message that validates and
  -- whose retain is one call of the callback of the lease.
  pub set_lease_payload_lem :
      (m : Msg S) (x : External S) (f : RetainFn S) (s : S)
      → event_meta m.event_id ≡ some (record { payload_kind = lease })
      → IsAddressed m
      → 0 < x.size
      → x.payload ≢ none
      → x.retain_fn ≡ some f
      → x.release_fn ≢ none
      → let (rc, m', s') = set_external_payload m x s in
        (rc ≡ ok)
        × (s' ≡ release_payload m s)
        × (validate m' ≡ ok)
        × ((t : S) → retain m' t ≡ f x.lifecycle_ctx x.payload x.size t)
  unfolding set_external_payload validate retain event_id_is_valid
  set_lease_payload_lem m x f s e a hs hp hf hr = ground arith

  -- An attempt to attach an inline or an external payload that does not succeed changes neither
  -- the message nor the owner of a payload.
  pub set_payload_refused :
      (m : Msg S) (bytes : Option (List ℕ)) (size : ℕ) (x : External S) (s : S)
      → let (rc, m', s') = set_inline_payload m bytes size s in
        let (rx, n', t') = set_external_payload m x s in
        (rc ≢ ok → (m' ≡ m) × (s' ≡ s)) × (rx ≢ ok → (n' ≡ m) × (t' ≡ s))
  unfolding set_inline_payload set_external_payload
  set_payload_refused m bytes size x s = ground arith

  -- What retaining does by the payload kind, for a message that validates.
  abbrev pub retained : PayloadKind → Msg S → S → Result × S
  retained lease m s = if m.payload_size == 0 then (ok, s) else elim m.external.retain_fn [
    | none ↦ (err_unsupported, s)
    | some f ↦ f m.external.lifecycle_ctx m.external.payload m.payload_size s
  ]
  retained stream_view m s = if m.payload_size == 0 then (ok, s) else (err_unsupported, s)
  retained _ m s = (ok, s)

  -- Retaining a message of an event of the catalogue that validates touches the owner of the
  -- payload only for a non-empty lease, by its callback; a non-empty stream view is refused, and
  -- everything else needs no share.
  pub retain_of_valid :
      (k : PayloadKind) (m : Msg S) (s : S)
      → event_meta m.event_id ≡ some (record { payload_kind = k })
      → validate m ≡ ok
      → retain m s ≡ retained k m s
  unfolding validate retain event_id_is_valid
  retain_of_valid inline m s e h = ground arith
  retain_of_valid copy_fixed m s e h = ground arith
  retain_of_valid lease m s e h = ground arith
  retain_of_valid stream_view m s e h = ground arith
