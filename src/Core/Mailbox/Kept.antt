-- ===== src/Core/Mailbox/Kept.antt =====
-- Every delivery of `ev_mailbox_push_qos` keeps a mailbox well formed, on all of its branches.
use esp8266_event_driven_fra.Prelude.{
  ℕ, ◌≡◌, ◌≢◌, refl, ne→==, inl, inr, true, false, leb, Bool-cases, Option-cases,
}
use esp8266_event_driven_fra.Core.Result.{ok, is_ok}
use esp8266_event_driven_fra.Core.Catalog.{
  MailboxKind, fifo_8, fifo_16, mailbox_1, lossy_ring_8, coalesced_flag,
}
use esp8266_event_driven_fra.Core.Route.{
  Qos, qos_critical, qos_best_effort, qos_lossy, qos_coalesced, qos_latest_only,
  qos_wakeup_critical, qos_telemetry, qos_command,
}
use esp8266_event_driven_fra.Core.Msg
use esp8266_event_driven_fra.Core.Msg.{Msg}
use esp8266_event_driven_fra.Core.Mailbox.State.{
  Mailbox, dispose_slot, store_at, retain_for_queue, replace_slot, find_event_slot,
}
use esp8266_event_driven_fra.Core.Mailbox.Deliver.{
  push_qos, push_by, push_coalesced, push_latest_only, push_reported, drop_reported,
  replace_reported,
}
use esp8266_event_driven_fra.Core.Mailbox.Push.{push}
use esp8266_event_driven_fra.Core.Mailbox.Drain.{pop, pop_kind}
use esp8266_event_driven_fra.Core.Mailbox.Ring.{IsValid}
use esp8266_event_driven_fra.Core.Mailbox.Refusals.{push-IsValid}
use esp8266_event_driven_fra.Core.Mailbox.Quality.{restat-IsValid, rewrite-IsValid}

module _ {S : Type 0} where
  dispose_slot-IsValid :
      (mb : Mailbox S) (i : ℕ) (s : S) → IsValid mb → IsValid (dispose_slot mb i s).1
  unfolding dispose_slot
  dispose_slot-IsValid mb i s v = elim (Bool-cases (leb mb.storage_count i)) [
    | inl out ↦ rw out v
    | inr fits ↦ rw fits (rewrite-IsValid mb i Msg.reset v)
  ]

  store_at-IsValid : (mb : Mailbox S) (i : ℕ) (m : Msg S) → IsValid mb → IsValid (store_at mb i m).1
  unfolding store_at
  store_at-IsValid mb i m v = elim (Bool-cases (leb mb.storage_count i)) [
    | inl out ↦ rw out v
    | inr fits ↦ rw fits (rewrite-IsValid mb i m v)
  ]

  replace_slot-IsValid :
      (mb : Mailbox S) (i : ℕ) (m : Msg S) (s : S) → IsValid mb → IsValid (replace_slot mb i m s).1
  unfolding replace_slot
  replace_slot-IsValid mb i m s v =
      let s₁ = (retain_for_queue m s).1 in
      let (rc, mb₁, _) = dispose_slot mb i s₁ in
      let v₁ = dispose_slot-IsValid mb i s₁ v in
      let v₂ = store_at-IsValid mb₁ i m v₁ in
      elim (Bool-cases (is_ok (retain_for_queue m s).0)) [
        | inr denied ↦ rw denied v
        | inl granted ↦ elim (Bool-cases (is_ok rc)) [
          | inr stuck ↦ rw (granted, stuck) v₁
          | inl gone ↦ elim (Bool-cases (is_ok (store_at mb₁ i m).0)) [
            | inr lost ↦ rw (granted, gone, lost) v₂
            | inl kept ↦ rw (granted, gone, kept) v₂
          ]
        ]
      ]

  push_reported-IsValid :
      (mb : Mailbox S) (m : Msg S) (s : S) → IsValid mb → IsValid (push_reported mb m s).1
  unfolding push_reported
  push_reported-IsValid mb m s v = push-IsValid mb m s v

  push_or_drop-IsValid :
      (mb : Mailbox S) (m : Msg S) (s : S)
      → IsValid mb
      → IsValid (push_coalesced mb m s).1 × IsValid (push_latest_only mb m s).1
  unfolding push_coalesced push_latest_only drop_reported replace_reported
  push_or_drop-IsValid mb m s v =
      let room = Bool-cases (leb mb.storage_count mb.count) in
      (
        elim (Option-cases (find_event_slot mb m.event_id false)) [
          | inr (i, found) ↦ rw (found, push_coalesced) (restat-IsValid mb _ v)
          | inl new ↦ elim room [
            | inl full ↦ rw (new, push_coalesced, full) (restat-IsValid mb _ v)
            | inr free ↦ rw (new, push_coalesced, free) (push_reported-IsValid mb m s v)
          ]
        ],
        elim (Option-cases (find_event_slot mb m.event_id true)) [
          | inr (i, found) ↦ elim (Bool-cases (is_ok (replace_slot mb i m s).0)) [
            | inl done ↦
                rw (found, push_latest_only, replace_reported, done)
                  (restat-IsValid _ _ (replace_slot-IsValid mb i m s v))
            | inr failed ↦
                rw (found, push_latest_only, replace_reported, failed)
                  (restat-IsValid _ _ (replace_slot-IsValid mb i m s v))
          ]
          | inl new ↦ elim room [
            | inl full ↦ rw (new, push_latest_only, full) (restat-IsValid mb _ v)
            | inr free ↦ rw (new, push_latest_only, free) (push_reported-IsValid mb m s v)
          ]
        ],
      )

  push_by-IsValid :
      (q : Qos) (mb : Mailbox S) (m : Msg S) (s : S) → IsValid mb → IsValid (push_by q mb m s).1
  unfolding push_by
  push_by-IsValid qos_coalesced mb m s v = (push_or_drop-IsValid mb m s v).0
  push_by-IsValid qos_latest_only mb m s v = (push_or_drop-IsValid mb m s v).1
  push_by-IsValid qos_critical mb m s v = push_reported-IsValid mb m s v
  push_by-IsValid qos_best_effort mb m s v = push_reported-IsValid mb m s v
  push_by-IsValid qos_lossy mb m s v = push_reported-IsValid mb m s v
  push_by-IsValid qos_wakeup_critical mb m s v = push_reported-IsValid mb m s v
  push_by-IsValid qos_telemetry mb m s v = push_reported-IsValid mb m s v
  push_by-IsValid qos_command mb m s v = push_reported-IsValid mb m s v

  -- A delivery of any quality of service leaves a well-formed mailbox well formed.
  pub push_qos-IsValid :
      (mb : Mailbox S) (m : Msg S) (q : Qos) (s : S) → IsValid mb → IsValid (push_qos mb m q s).1
  unfolding push_qos
  push_qos-IsValid mb m q s v = elim (Bool-cases (is_ok (Msg.validate m))) [
    | inl fine ↦ rw (fine, push_qos) (push_by-IsValid q mb m s v)
    | inr bad ↦ rw (bad, push_qos) (restat-IsValid mb _ v)
  ]

  -- A critical delivery is a plain push.
  pub push_qos_critical :
      (mb : Mailbox S) (m : Msg S) (s : S)
      → let (rc, mb', s', _) = push_qos mb m qos_critical s in (rc, mb', s') ≡ push mb m s
  unfolding push_qos push_by push_reported push
  push_qos_critical mb m s = elim (Bool-cases (is_ok (Msg.validate m))) [
    | inl fine ↦ rw (fine, push_qos) refl
    | inr bad ↦ rw (bad, push_qos, push) refl
  ]

  pop_kind-ok : (k : MailboxKind) (mb : Mailbox S) → (pop_kind k mb).0 ≡ ok
  unfolding pop_kind
  pop_kind-ok fifo_8 mb = refl
  pop_kind-ok fifo_16 mb = refl
  pop_kind-ok mailbox_1 mb = refl
  pop_kind-ok lossy_ring_8 mb = refl
  pop_kind-ok coalesced_flag mb = refl

  -- A mailbox that counts a message hands one out.
  pub pop-ok : (mb : Mailbox S) → mb.count ≢ 0 → (pop mb).0 ≡ ok
  unfolding pop
  pop-ok mb busy = rw (ne→== mb.count 0 busy) (pop_kind-ok mb.kind mb)
