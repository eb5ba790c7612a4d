-- ===== src/Tests/Outboxes.antt =====
-- The theorems on the network outbox at two faults of which the policy allows one.
use esp8266_event_driven_fra.Prelude.{
  ℕ, Option, some, List, ◌≡◌, refl, true, none, [], ◌∷◌, ring, arith,
}
use esp8266_event_driven_fra.Runtime.Outbox
use esp8266_event_driven_fra.Runtime.Outbox.{Category, Item, Policy}
use esp8266_event_driven_fra.Runtime.Outbox.Stored.{item_for, stale}
use esp8266_event_driven_fra.Runtime.Outbox.Held
use esp8266_event_driven_fra.Runtime.Outbox.Limits.{push_lem, offer}

abbrev one_each : Policy
one_each = record { category_limit = λ c. 1; drop_oldest = λ c. true }

abbrev item_of : Category → Item
item_of c = record Outbox.zero_item { category = c }

-- A response and a fault, with sequence numbers about to wrap.
abbrev two_items : Outbox.Outbox
two_items = record {
  items =
      item_of Outbox.command_response
      ∷ item_of Outbox.command_response
      ∷ item_of Outbox.command_response
      ∷ item_of Outbox.command_response
      ∷ item_of Outbox.command_response
      ∷ item_of Outbox.command_response
      ∷ item_of Outbox.command_response
      ∷ item_of Outbox.fault_critical
      ∷ [];
  write_seq = 0;
  read_seq = 0xfffffffe;
  high_water = 2;
  queued_by_category =
      Outbox.update (Outbox.update (λ c. 0) Outbox.command_response 1) Outbox.fault_critical 1;
  accepted = 2;
  rejected = 0;
  dropped = 0;
}

two_items-counted :
    (c : Category) → two_items.queued_by_category c ≡ Held.count_in c (Held.contents two_items)
unfolding ring
two_items-counted Outbox.telemetry_latest = refl
two_items-counted Outbox.telemetry_periodic = refl
two_items-counted Outbox.command_response = refl
two_items-counted Outbox.fault_critical = refl

two_items-IsValid : Held.IsValid two_items
two_items-IsValid = record {
  array = refl;
  buffers = (refl, (refl, (refl, (refl, (refl, (refl, (refl, (refl, tt))))))));
  write_word = omega arith;
  read_word = omega arith;
  within = omega arith;
  counted = two_items-counted;
}

abbrev four_bytes : Option (List ℕ)
four_bytes = some (1 ∷ 2 ∷ 3 ∷ 4 ∷ [])

push_example :
    let (rc, o') = Outbox.push two_items one_each Outbox.fault_critical four_bytes 4 in
    (rc, Held.contents o')
    ≡ offer one_each
        (item_for Outbox.fault_critical four_bytes 4 (stale two_items))
        (Held.contents two_items)
push_example =
    (push_lem two_items one_each Outbox.fault_critical four_bytes 4 two_items-IsValid
      (omega arith)).0

-- The response at the head is given up for the new fault, and two faults are queued where the policy
-- allows one.
limit_exceeded :
    (Outbox.push two_items one_each Outbox.fault_critical none 4).1.queued_by_category
      Outbox.fault_critical
    ≡ 2
unfolding Outbox.push
limit_exceeded = refl
