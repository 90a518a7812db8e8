-- ===== src/Tests/System.antt =====
-- A run of a publisher and a subscriber.
use native.Mathlib.Omega.{arith}
use drive_bus.Prelude.{ℕ, ◌≡◌, List, [], ◌∷◌, ◌++◌, some, Bool, refl, ◌==◌, ==_iff, subst, inl}
use drive_bus.Shared.{initialize_shared_data, initialize_chunk_usage_tracker}
use drive_bus.Delivery.{queue}
use drive_bus.System.{System, Action, publish, event, perform_all}
use drive_bus.System.Broadcast.{Link, Linked, perform_all-delivered}
use drive_bus.Tests.Delivery.{
  open_publisher, joined-Sound, attachment, open-Served, slots_known, third_bit,
}

abbrev start : System
start = record {
  publisher = open_publisher;
  attachment = λ k. attachment;
  delivered = λ k. [];
  published = [];
}

abbrev second_slot : ℕ → Bool
second_slot k = 2 == k

start-Link : Link start 2
unfolding initialize_shared_data initialize_chunk_usage_tracker
start-Link = record {
  first = 0;
  served = open-Served;
  attached = record {
    at_slot = refl;
    low = omega arith;
    active = open-Served.active;
    place = inl refl;
    expecting = inl refl;
  };
  account = refl;
}

start-Linked : Linked 4 second_slot start
start-Linked = record {
  sound = joined-Sound;
  tables = slots_known;
  small_seq = omega arith;
  small_mask = omega arith;
  links = λ k on. subst (Link start) ((==_iff 2 k).0 on) start-Link;
  bits = λ k on. let e : 2 ≡ k = (==_iff 2 k).0 on in rw (← e) third_bit;
  low = λ k on. let e : 2 ≡ k = (==_iff 2 k).0 on in omega arith;
}

abbrev actions : List Action
actions = publish (7 ∷ []) ∷ publish (8 ∷ []) ∷ event 2 ∷ publish (9 ∷ []) ∷ []

perform_all-delivered_example :
    (z : System) × (perform_all actions start ≡ some z)
    × (z.delivered 2 ++ queue z.publisher.shared_data 2 ≡ z.published)
perform_all-delivered_example =
    perform_all-delivered 4 second_slot actions start 2 start-Linked
      (omega arith, (omega arith, (refl, (omega arith, tt)))) refl
