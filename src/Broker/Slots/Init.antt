-- ===== src/Broker/Slots/Init.antt =====
-- The free slots of a new publisher, `init_available_subscriber_slots` of src/broker.cpp.
use drive_bus.Prelude.{ℕ, zero, suc, ◌+◌, ◌≡◌, List, [], ◌&&◌, ltb, leb, tick, count, arith}
use drive_bus.Layout.{max_subscribers}
use drive_bus.Broker.{emplace, slots_from, init_available_subscriber_slots}
use drive_bus.Broker.Slots.{count-emplace}

count-slots_from :
    (k n slot : ℕ) (heap : List ℕ)
    → count k (slots_from n slot heap) ≡ tick (leb slot k && ltb k (slot + n)) + count k heap
unfolding slots_from
count-slots_from k zero slot heap = ground arith
count-slots_from k (suc n) slot heap =
    ground (arith, count-slots_from k n (slot + 1) (emplace slot heap), count-emplace k slot heap)

-- When they are entered into an empty heap, each slot below 16 stands in it once, and no other number
-- does.
pub count-init_available_subscriber_slots :
    (k : ℕ) → count k (init_available_subscriber_slots []) ≡ tick (ltb k max_subscribers)
unfolding count
count-init_available_subscriber_slots k = ground (arith, count-slots_from k 16 0 [])
