-- ===== src/Core/Actor/Answers.antt =====
-- A pump of an actor with messages answers EV_ERR_EMPTY only if a handler does.
use esp8266_event_driven_fra.Prelude.{
  ℕ, zero, suc, ◌≡◌, ◌≢◌, ◌∙◌, inl, inr, false, arith, ◌==◌, ne→==, Bool-cases, Option-cases,
}
use esp8266_event_driven_fra.Core.Result.{ok, is_ok, err_empty}
use esp8266_event_driven_fra.Core.Msg.{Msg, zero_msg}
use esp8266_event_driven_fra.Core.Msg.Lifetime.{dispose-ok}
use esp8266_event_driven_fra.Core.Mailbox
use esp8266_event_driven_fra.Core.Mailbox.{Mailbox}
use esp8266_event_driven_fra.Core.Mailbox.Kept.{pop-ok}
use esp8266_event_driven_fra.Core.Actor.State.{System, runtime_at, pending}
use esp8266_event_driven_fra.Core.Actor.Pump.{
  Handler, handle, process_one, pump_loop, finish_pump, pump, pending_at,
}
use esp8266_event_driven_fra.Core.Actor.Drained.{pending_at_bound}

module _ {S : Type 0} where
  -- A handler that never answers EV_ERR_EMPTY.
  abbrev pub NeverEmpty : Handler S → Type 0
  NeverEmpty handler = (i : ℕ) (m : Msg S) (sys : System S) → (handler i m sys).0 ≢ err_empty

module _ {S : Type 0} (handler : Handler S) (never : NeverEmpty handler) where
  handle-result : (i : ℕ) (m : Msg S) (sys : System S) → (handle handler i m sys).0 ≢ err_empty
  unfolding handle
  handle-result i m sys =
      let fine = dispose-ok m (handler i m sys).1.owner in
      let other = never i m sys in
      elim (Bool-cases (is_ok (handler i m sys).0)) [
        | inl quiet ↦ rw (quiet, fine) (λ e. absurd (cc e))
        | inr bad ↦ rw bad other
      ]

  process_one-result :
      (i : ℕ) (sys : System S) → pending_at sys i ≢ 0 → (process_one handler i sys).0 ≢ err_empty
  unfolding process_one
  process_one-result i sys busy = elim (Option-cases (runtime_at sys i)) [
    | inl free ↦ rw (free, process_one) (λ e. absurd (cc e))
    | inr (rt, e) ↦
        let (rc, out, mb) = Mailbox.pop rt.mailbox in
        let fine : rc ≡ ok = pop-ok rt.mailbox (λ z. busy (pending_at_bound sys i rt e ∙ z)) in
        elim (Option-cases out) [
          | inl nothing ↦ rw (e, process_one, fine, nothing) (handle-result i zero_msg _)
          | inr (m, taken) ↦ rw (e, process_one, fine, taken) (handle-result i m _)
        ]
  ]

  pump_loop-result : (n i : ℕ) (sys : System S) → (pump_loop handler n i sys).0 ≢ err_empty
  unfolding pump_loop
  pump_loop-result zero i sys = λ e. absurd (cc e)
  pump_loop-result (suc n) i sys = elim (Bool-cases (pending_at sys i == 0)) [
    | inl idle ↦ rw (idle, pump_loop) (λ e. absurd (cc e))
    | inr busy ↦
        let other = process_one-result i sys (ground arith) in
        elim (Bool-cases (is_ok (process_one handler i sys).0)) [
          | inl fine ↦ rw (busy, pump_loop, fine) (pump_loop-result n i _)
          | inr bad ↦ rw (busy, pump_loop, bad) other
        ]
  ]

  pub pump-result :
      (i budget : ℕ) (sys : System S)
      → pending_at sys i ≢ 0
      → (pump handler i budget sys).0 ≢ err_empty
  unfolding pump finish_pump
  pump-result i budget sys busy = elim (Option-cases (runtime_at sys i)) [
    | inl free ↦ rw (free, pump) (λ e. absurd (cc e))
    | inr (rt, e) ↦
        let w : (pending rt == 0) ≡ false =
          ne→== (pending rt) 0 (λ z. busy (pending_at_bound sys i rt e ∙ z)) in
        elim (Bool-cases (budget == 0)) [
          | inl unfunded ↦ rw (e, pump, unfunded) (λ q. absurd (cc q))
          | inr funded ↦ rw (e, pump, funded, w) (pump_loop-result budget i _)
        ]
  ]
