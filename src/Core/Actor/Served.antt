-- ===== src/Core/Actor/Served.antt =====
-- A pump with handlers that act on the owner of the payloads only: which messages it serves.
use esp8266_event_driven_fra.Prelude.{
  ℕ, zero, suc, ◌≡◌, ◌≢◌, refl, sym, ap, ◌∙◌, ◌⊎◌, inl, inr, true, false, Option, some, List, [],
  ◌∷◌, arith, length, drop, get_or-set-some, ◌==◌, not, ◌&&◌, ltb, ne→==, Bool-cases, if◌then◌else◌,
}
use esp8266_event_driven_fra.Core.Result.{Result, ok, is_ok}
use esp8266_event_driven_fra.Core.Msg
use esp8266_event_driven_fra.Core.Msg.{Msg}
use esp8266_event_driven_fra.Core.Msg.Lifetime.{dispose-ok}
use esp8266_event_driven_fra.Core.Mailbox
use esp8266_event_driven_fra.Core.Mailbox.Ring
use esp8266_event_driven_fra.Core.Mailbox.Ring.{contents, contents-nil, length-contents}
use esp8266_event_driven_fra.Core.Mailbox.Queue.{take_oldest}
use esp8266_event_driven_fra.Core.Mailbox.Pop.{pop_refines}
use esp8266_event_driven_fra.Core.Actor.State.{
  ActorRuntime, System, runtime_at, put_runtime, pending,
}
use esp8266_event_driven_fra.Core.Actor.Pump.{
  Handler, handle, process_one, pump_loop, finish_pump, pump, pending_at, begin_pump, end_pump,
  count_handled,
}
use esp8266_event_driven_fra.Core.Actor.Drained.{restat-put_runtime}

List-cases {ℓ} : {A : Type ℓ} (xs : List A) → (xs ≡ []) ⊎ ((x : A) × (ys : List A) × (xs ≡ x ∷ ys))
List-cases [] = inl refl
List-cases (x ∷ ys) = inr (x, ys, refl)

module _ {S : Type 0} (act : ℕ → Msg S → S → Result × S) where
  -- A handler that delivers nothing.
  abbrev pub local : Handler S
  local i m sys = let (rc, s) = act i m sys.owner in (rc, record sys { owner = s })

  -- At most so many messages are handled and then disposed of, in order, up to the first that is not
  -- answered ok: the last answer, how many they were, and the owner.
  abbrev pub serve : ℕ → ℕ → List (Msg S) → S → Result × ℕ × S
  serve i zero ms s = (ok, 0, s)
  serve i (suc n) [] s = (ok, 0, s)
  serve i (suc n) (m ∷ ms) s =
      let (rc, s₁) = act i m s in
      let s₂ = (Msg.dispose m s₁).2 in
      let (rc', k, s₃) = serve i n ms s₂ in if is_ok rc then (rc', suc k, s₃) else (rc, 1, s₂)

  -- What serving the first messages of a queue leaves behind.
  pub record Serves (i : ℕ) (n : ℕ) (queue : List (Msg S)) (s : S) (r : Result × ℕ × System S)
      : Type 0 where
    pub answer : r.0 ≡ (serve i n queue s).0
    pub served : r.1 ≡ (serve i n queue s).1
    pub owner : r.2.owner ≡ (serve i n queue s).2
    pub after : ActorRuntime S
    pub bound : runtime_at r.2 i ≡ some after
    pub left : contents after.mailbox ≡ drop (serve i n queue s).1 queue
    pub valid : Ring.IsValid after.mailbox

  -- What handling the oldest message leaves behind.
  record Handles (i : ℕ) (m : Msg S) (q : List (Msg S)) (s : S) (r : Result × System S)
      : Type 0 where
    answer : r.0 ≡ (act i m s).0
    owner : r.1.owner ≡ (Msg.dispose m (act i m s).1).2
    after : ActorRuntime S
    bound : runtime_at r.1 i ≡ some after
    left : contents after.mailbox ≡ q
    valid : Ring.IsValid after.mailbox

  process_one-Handles :
      (i : ℕ) (sys : System S) (rt : ActorRuntime S) (m : Msg S) (q : List (Msg S))
      → runtime_at sys i ≡ some rt
      → Ring.IsValid rt.mailbox
      → contents rt.mailbox ≡ m ∷ q
      → Handles i m q sys.owner (process_one local i sys)
  unfolding process_one handle
  process_one-Handles i sys rt m q e v here =
      let (taken, v', _) = pop_refines rt.mailbox v in
      let (rc, out, mb) = Mailbox.pop rt.mailbox in
      let popped : ◌≡◌ {A = Result × Option (Msg S) × List (Msg S)} (rc, out, contents mb)
          (ok, some m, q) =
        taken ∙ ap take_oldest here in
      let done : rc ≡ ok = ap (λ x. x.0) popped in
      let got : out ≡ some m = ap (λ x. x.1) popped in
      let (a, s₁) = act i m sys.owner in
      let rt₁ : ActorRuntime S = record rt { mailbox = mb } in
      let sys₁ : System S = record (put_runtime sys i rt₁) { owner = (Msg.dispose m s₁).2 } in
      let here₁ = get_or-set-some sys.slots i rt₁ rt e in
      rw
        (
          e,
          process_one,
          done,
          got,
          dispose-ok m s₁,
          restat-put_runtime sys₁ i (count_handled a ok) rt₁ here₁,
        )
        (record {
          answer = ground arith;
          owner = refl;
          after = record rt₁ { stats = count_handled a ok rt₁.stats };
          bound = get_or-set-some sys₁.slots i _ rt₁ here₁;
          left = ap (λ x. x.2) popped;
          valid = v';
        })

  stop-Serves :
      (n i : ℕ) (m : Msg S) (q : List (Msg S)) (s : S) (r : Result × System S)
      → is_ok (act i m s).0 ≡ false
      → Handles i m q s r
      → Serves i (suc n) (m ∷ q) s (r.0, 1, r.1)
  stop-Serves n i m q s r stop one = record {
    answer = rw stop one.answer;
    served = rw stop refl;
    owner = rw stop one.owner;
    after = one.after;
    bound = one.bound;
    left = rw stop one.left;
    valid = one.valid;
  }

  go-Serves :
      (n i : ℕ) (m : Msg S) (q : List (Msg S)) (s : S) (r : Result × System S)
      (r' : Result × ℕ × System S)
      → is_ok (act i m s).0 ≡ true
      → (one : Handles i m q s r) → Serves i n (contents one.after.mailbox) r.1.owner r'
      → Serves i (suc n) (m ∷ q) s (r'.0, suc r'.1, r'.2)
  go-Serves n i m q s r r' go one rest =
      let same : ◌≡◌ {A = Result × ℕ × S} (serve i n (contents one.after.mailbox) r.1.owner)
          (serve i n q (Msg.dispose m (act i m s).1).2) =
        ap (λ x. serve i n x r.1.owner) one.left ∙ ap (serve i n q) one.owner in
      record {
        answer = rw go (rest.answer ∙ ap (λ x. x.0) same);
        served = rw go (ap suc (rest.served ∙ ap (λ x. x.1) same));
        owner = rw go (rest.owner ∙ ap (λ x. x.2) same);
        after = rest.after;
        bound = rest.bound;
        left = rw go (
            rest.left
            ∙ ap (drop (serve i n (contents one.after.mailbox) r.1.owner).1) one.left
            ∙ ap (λ x. drop x.1 q) same);
        valid = rest.valid;
      }

  pump_loop-Serves :
      (n i : ℕ) (sys : System S) (rt : ActorRuntime S)
      → runtime_at sys i ≡ some rt
      → Ring.IsValid rt.mailbox
      → Serves i n (contents rt.mailbox) sys.owner (pump_loop local n i sys)
  unfolding pump_loop
  pump_loop-Serves zero i sys rt e v = record {
    answer = refl;
    served = refl;
    owner = refl;
    after = rt;
    bound = e;
    left = refl;
    valid = v;
  }
  pump_loop-Serves (suc n) i sys rt e v = elim (List-cases (contents rt.mailbox)) [
    | inl idle ↦
        let z : pending_at sys i ≡ 0 =
          rw (e, pending_at) (sym (length-contents rt.mailbox) ∙ ap length idle) in
        rw (z, pump_loop, idle)
          (record {
            answer = refl;
            served = refl;
            owner = refl;
            after = rt;
            bound = e;
            left = idle;
            valid = v;
          })
    | inr (m, q, here) ↦
        let one = process_one-Handles i sys rt m q e v here in
        let busy : (pending_at sys i == 0) ≡ false =
          rw (e, pending_at) (ground (arith, length-contents rt.mailbox, ap length here)) in
        let sys₁ = (process_one local i sys).1 in
        elim (Bool-cases (is_ok (act i m sys.owner).0)) [
          | inr stop ↦
              rw (busy, pump_loop, one.answer, stop, here)
                (stop-Serves n i m q sys.owner _ stop one)
          | inl go ↦
              rw (busy, pump_loop, one.answer, go, here)
                (go-Serves n i m q sys.owner _ _ go one
                  (pump_loop-Serves n i sys₁ one.after one.bound one.valid))
        ]
  ]

  finish_pump-Serves :
      (i budget before n : ℕ) (q : List (Msg S)) (s : S) (r : Result × ℕ × System S)
      → Serves i n q s r
      → let (rc, rep, sys') = finish_pump i budget before r in
        Serves i n q s (rc, rep.processed, sys')
  unfolding finish_pump
  finish_pump-Serves i budget before n q s (rc, k, sys) p =
      rw (finish_pump, restat-put_runtime sys i _ p.after p.bound)
        (record {
          answer = p.answer;
          served = p.served;
          owner = p.owner;
          after = record (p.after) {
            stats =
                end_pump k (is_ok rc && (not (ltb k budget) && ltb 0 (pending_at sys i)))
                  p.after.stats;
          };
          bound = get_or-set-some sys.slots i _ p.after p.bound;
          left = p.left;
          valid = p.valid;
        })

  -- With handlers that deliver nothing, act on the owner of the payloads only and may answer
  -- anything, a pump with a budget of an actor that has messages in a well-formed mailbox serves its
  -- oldest messages, each handled and then disposed of, in order: as many as the budget allows, or
  -- fewer if one is not answered ok, which is the last one then. It answers what that one was
  -- answered, else ok, and reports how many it served; the others stay in order.
  pub pump_local-Serves :
      (i budget : ℕ) (sys : System S) (rt : ActorRuntime S)
      → runtime_at sys i ≡ some rt
      → Ring.IsValid rt.mailbox
      → budget ≢ 0
      → contents rt.mailbox ≢ []
      → let (rc, rep, sys') = pump local i budget sys in
        Serves i budget (contents rt.mailbox) sys.owner (rc, rep.processed, sys')
  unfolding pump
  pump_local-Serves i budget sys rt e v funded busy =
      let rt₁ : ActorRuntime S = record rt { stats = begin_pump budget rt.stats } in
      let u : (budget == 0) ≡ false = ground arith in
      let w : (pending rt == 0) ≡ false =
        ne→== (pending rt) 0 (λ z. busy (contents-nil rt.mailbox v z)) in
      rw (e, pump, u, w, restat-put_runtime sys i (begin_pump budget) rt e)
        (finish_pump-Serves i budget (pending rt) budget (contents rt.mailbox) sys.owner _ (
          pump_loop-Serves budget i (put_runtime sys i rt₁) rt₁
            (get_or-set-some sys.slots i rt₁ rt e) v))
