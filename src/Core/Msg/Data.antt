-- ===== src/Core/Msg/Data.antt =====
-- The runtime envelope: core/include/ev/msg.h, core/src/ev_msg.c and core/src/ev_dispose.c.
--
-- The lifecycle callbacks act on a state `S` that the message does not own: the lease pool in
-- Core/LeasePool.antt, a lease of the network adapter, or the pool of a test. They are therefore
-- fields of the message, as in the source, and every call of one threads `S`.
--
-- A pointer is a number, and `none` is NULL; messages themselves are passed by reference and are
-- never NULL here. The two members of the payload union stand side by side: each write of the code
-- first clears both by `memset`.
use esp8266_event_driven_fra.Prelude.{
  ℕ, Bool, true, false, not, ◌&&◌, Option, none, List, replicate, ◌==◌, bit_and,
}
use esp8266_event_driven_fra.Core.Result.{Result}

abbrev pub inline_capacity : ℕ
inline_capacity = 24

abbrev pub msg_cookie : ℕ
msg_cookie = 0x45564D53

abbrev pub flag_disposed : ℕ
flag_disposed = 1

pub data Storage : Type 0 where
  storage_none storage_inline storage_external : Storage

abbrev pub is_external : Storage → Bool
is_external storage_external = true
is_external _ = false

abbrev pub is_inline : Storage → Bool
is_inline storage_inline = true
is_inline _ = false

abbrev pub is_storage_none : Storage → Bool
is_storage_none storage_none = true
is_storage_none _ = false

-- Context, payload pointer and payload size.
abbrev pub RetainFn : Type 0 → Type 0
RetainFn S = Option ℕ → Option ℕ → ℕ → S → Result × S

abbrev pub ReleaseFn : Type 0 → Type 0
ReleaseFn S = Option ℕ → Option ℕ → ℕ → S → S

pub record External (S : Type 0) : Type 0 where
  pub payload : Option ℕ
  pub size : ℕ
  pub retain_fn : Option (RetainFn S)
  pub release_fn : Option (ReleaseFn S)
  pub lifecycle_ctx : Option ℕ

pub record Msg (S : Type 0) : Type 0 where
  pub cookie : ℕ
  pub event_id : ℕ
  pub source_actor : ℕ
  pub target_actor : ℕ
  pub flags : ℕ
  pub storage : Storage
  pub payload_size : ℕ
  pub inline_bytes : List ℕ
  pub external : External S

abbrev pub zero_bytes : List ℕ
zero_bytes = replicate inline_capacity 0

module _ {S : Type 0} where
  -- What `memset` makes of the union's external member.
  abbrev pub zero_external : External S
  zero_external = record {
    payload = none;
    size = 0;
    retain_fn = none;
    release_fn = none;
    lifecycle_ctx = none;
  }

  -- `EV_MSG_INITIALIZER`
  abbrev pub zero_msg : Msg S
  zero_msg = record {
    cookie = 0;
    event_id = 0;
    source_actor = 0;
    target_actor = 0;
    flags = 0;
    storage = storage_none;
    payload_size = 0;
    inline_bytes = zero_bytes;
    external = zero_external;
  }

  unfoldable pub has_cookie : Msg S → Bool
  has_cookie m = m.cookie == msg_cookie

  unfoldable pub is_disposed : Msg S → Bool
  unfolding has_cookie
  is_disposed m = has_cookie m && not (bit_and m.flags flag_disposed == 0)

  -- `ev_msg_reset`; it overwrites whatever the message held.
  unfoldable pub reset : Msg S
  reset = record zero_msg { cookie = msg_cookie }
