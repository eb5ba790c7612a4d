-- ===== src/Core/Msg/Lifetime.antt =====
-- The lifetime of an envelope: core/src/ev_dispose.c, and its guards in core/src/ev_msg.c.
use esp8266_event_driven_fra.Prelude.{ℕ, ◌≡◌, true, false, Option, List, arith, bit_or_1-odd}
use esp8266_event_driven_fra.Core.Result.{ok, err_state}
use esp8266_event_driven_fra.Core.Msg.Data.{storage_none, External, Msg, has_cookie, is_disposed}
use esp8266_event_driven_fra.Core.Msg.Attach.{
  release_payload, dispose, set_inline_payload, set_external_payload,
}
use esp8266_event_driven_fra.Core.Msg.Validate.{validate}

module _ {S : Type 0} where
  -- Disposing of any message succeeds and leaves a disposed message, without payload if it was
  -- live before; it does not validate, no payload can be attached to it, and disposing of it again
  -- changes neither it nor the owner of a payload.
  pub dispose_final :
      (m : Msg S) (s : S) (bytes : Option (List ℕ)) (size : ℕ) (x : External S)
      → let (rc, m', s') = dispose m s in
        (rc ≡ ok)
        × (is_disposed m' ≡ true)
        × (m.cookie ≡ 0x45564D53 → is_disposed m ≡ false → m'.storage ≡ storage_none)
        × (validate m' ≡ err_state)
        × (dispose m' s' ≡ (ok, m', s'))
        × (set_inline_payload m' bytes size s' ≡ (err_state, m', s'))
        × (set_external_payload m' x s' ≡ (err_state, m', s'))
  unfolding dispose validate set_inline_payload set_external_payload
  dispose_final m s bytes size x = ground (arith, bit_or_1-odd m.flags, bit_or_1-odd 0)

  -- Disposing of a live message gives its share back to the owner of the payload; disposing of a
  -- message without cookie or already disposed gives nothing back.
  pub dispose-release_payload :
      (m : Msg S) (s : S)
      → (has_cookie m ≡ true → is_disposed m ≡ false → (dispose m s).2 ≡ release_payload m s)
        × (has_cookie m ≡ false → (dispose m s).2 ≡ s)
        × (is_disposed m ≡ true → (dispose m s).2 ≡ s)
  unfolding dispose
  dispose-release_payload m s = ground arith

  pub dispose-ok : (m : Msg S) (s : S) → (dispose m s).0 ≡ ok
  unfolding dispose
  dispose-ok m s = ground arith
