-- ===== src/EventQueue/Examples.antt =====
-- Tests of the event queue, and its theorems at concrete inputs.
use ventmac.Prelude.{ℕ, ◌≡◌, refl, true, false, List, [], ◌∷◌, none, some, arith}
use ventmac.EventQueue.{
  Event, Cells, update, Queue, stamp, v3_create_event, v3_queue_event, link, v3_get_event,
  v3_clear_events, v3_get_last_event,
}
use ventmac.EventQueue.Chain.{Entry}
use ventmac.EventQueue.Refinement.{
  Represents, Queued, v3_queue_event-Queued, Dequeued, v3_get_event-Dequeued, Emptied,
  v3_clear_events-Emptied,
}
use ventmac.EventQueue.History.{
  fill_event, Call, put, get, clear, step, run, spec_run, events, AllAllocated, Follows,
  run-Follows,
}

abbrev nothing : Cells
nothing p = none

abbrev ping : ℕ → Event
ping n = record { type = 2; timestamp = 0; channel_id = 5; others = n ∷ []; contents = some [] }

-- Two events, at the addresses 40 and 16, and a third that is not queued, at 24.
abbrev cells : Cells
cells =
    update
      (update (update nothing 40 (some (record { event = ping 1; next = some 16 }))) 16
        (some (record { event = ping 2; next = none })))
      24 (some (record { event = ping 3; next = some 7 }))

abbrev two : Queue
two = record { cell = cells; eventq = some 40; tail = some 16; count = 2; mutex = true }

abbrev two_entries : List Entry
two_entries = (40, ping 1) ∷ (16, ping 2) ∷ []

two-Represents : Represents two two_entries
two-Represents = record {
  chain = (refl, some 16, refl, (refl, none, refl, refl));
  distinct = omega arith;
  tail_last = refl;
  counted = refl;
  small = omega arith;
}

v3_queue_event-Queued_example :
    Queued two two_entries 24 (stamp true 3 99 (ping 3)) (v3_queue_event two true 3 99 24)
v3_queue_event-Queued_example =
    v3_queue_event-Queued two two_entries 24 (record { event = ping 3; next = some 7 }) true 3 99
      refl two-Represents (omega arith) (omega arith) refl

v3_get_event-Dequeued_example : Dequeued two 40 (ping 1) ((16, ping 2) ∷ []) (v3_get_event two true)
v3_get_event-Dequeued_example =
    v3_get_event-Dequeued two true 40 (ping 1) ((16, ping 2) ∷ []) two-Represents

v3_clear_events-Emptied_example : Emptied two two_entries (v3_clear_events two)
v3_clear_events-Emptied_example = v3_clear_events-Emptied two two_entries refl two-Represents

-- The address 40 is used again after its event was taken.
abbrev history : List Call
history =
    get
    ∷ put 40 14 (7 ∷ []) [] (λ e. record e { channel_id = 3 }) false 3 100
    ∷ get
    ∷ get
    ∷ get
    ∷ put 8 15 [] [] (λ e. record e { channel_id = 4 }) true 3 101
    ∷ clear
    ∷ put 8 16 [] [] (λ e. e) true 3 102
    ∷ []

history-AllAllocated : AllAllocated two history
unfolding step fill_event v3_create_event v3_queue_event v3_get_event v3_clear_events link
history-AllAllocated = (tt, (refl, (tt, (tt, (tt, (refl, (tt, (refl, tt))))))))

run-Follows_example :
    Follows two
      (spec_run (events two_entries) history).0
      (spec_run (events two_entries) history).1
      (run two history)
run-Follows_example =
    run-Follows two two_entries history refl two-Represents history-AllAllocated (omega arith)

last_of_two : v3_get_last_event 2 two ≡ some (some (16, 1))
unfolding v3_get_last_event
last_of_two = refl

unready_frees :
    v3_queue_event (record two { mutex = false }) true 3 99 24
    ≡ some (record two { mutex = false; cell = update cells 24 none })
unfolding v3_queue_event
unready_frees = refl
