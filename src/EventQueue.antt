-- ===== src/EventQueue.antt =====
-- Sources/CVentrilo3/libventrilo3.c, from `v3_queue_event` to `v3_clear_events`: the queue of events
-- for the client, a linked list on the heap with a pointer to its last node.
-- A pointer is `none` for NULL. `none` as a result is a fault: an access through NULL or through a
-- pointer to freed memory. Every operation runs under the mutex, so calls of several threads are
-- sequences of operations.
pub mod Chain
pub mod Refinement
pub mod History
mod Examples
use ventmac.Prelude.{
  ℕ, zero, suc, ◌+◌, ◌-◌, ◌%◌, ◌^◌, ◌≡◌, Bool, true, false, not, ◌||◌, List, Option, none, some,
  ◌==◌, if◌then◌else◌, ◌>>=◌,
}

-- The fields of `v3_event` that the queue writes, the other fields, and what `data` points to.
pub record Event : Type 0 where
  pub type : ℕ
  pub timestamp : ℕ
  pub channel_id : ℕ
  pub others : List ℕ
  pub contents : Option (List ℕ)

pub record Node : Type 0 where
  pub event : Event
  pub next : Option ℕ

abbrev pub Cells : Type 0
Cells = ℕ → Option Node

abbrev pub update : Cells → ℕ → Option Node → Cells
update cell p v q = if p == q then v else cell q

-- `_v3_eventq`, `_v3_eventq_tail`, `_v3_eventq_length`, and whether `eventq_mutex` is set.
pub record Queue : Type 0 where
  pub cell : Cells
  pub eventq : Option ℕ
  pub tail : Option ℕ
  pub count : ℕ
  pub mutex : Bool

-- `malloc` gave the address `p`; the other fields and `*data` are all zero.
pub v3_create_event : Queue → ℕ → List ℕ → List ℕ → ℕ → Queue
v3_create_event q p zero_fields zero_data type = record q {
  cell = update q.cell p (
      some (record {
        event = record {
          type = type;
          timestamp = 0;
          channel_id = 0;
          others = zero_fields;
          contents = some zero_data;
        };
        next = none;
      }));
}

pub v3_free_event : Queue → Option ℕ → Option Queue
v3_free_event q none = some q
v3_free_event q (some p) = do n ← q.cell p; some (record q { cell = update q.cell p none })

-- `see_chan_list` is `v3_luser.perms.see_chan_list`, `channels` is `v3_channel_count()`.
abbrev pub stamp : Bool → ℕ → ℕ → Event → Event
stamp see_chan_list channels now e = record e {
  channel_id = if not see_chan_list || channels == 0 then 0 else e.channel_id;
  timestamp = now;
}

-- `_v3_eventq_tail->next = ev`
pub link : Cells → ℕ → ℕ → Option Cells
link cell last p = do n ← cell last; some (update cell last (some (record n { next = some p })))

pub append : Queue → ℕ → Cells → Option ℕ → Option Queue
append q p cell none = some (record q { cell = cell; eventq = some p; tail = some p; count = 1 })
append q p cell (some last) = do
  linked ← link cell last p
  some (record q { cell = linked; tail = some p; count = (q.count + 1) % 2 ^ 64 })

pub v3_queue_event : Queue → Bool → ℕ → ℕ → ℕ → Option Queue
unfolding append v3_free_event
v3_queue_event q see_chan_list channels now p =
    if not q.mutex then v3_free_event q (some p) else (do
      n ← q.cell p
      let stamped = stamp see_chan_list channels now n.event
      append q p (update q.cell p (some (record { event = stamped; next = none }))) q.tail)

-- What `v3_get_event` does: it returns NULL, waits on the condition variable, or returns an event.
pub data Got : Type 0 where
  null waits : Got
  event : ℕ → Got

pub take_first : Queue → Bool → Option ℕ → Option (Got × Queue)
take_first q block none = some (if block then waits else null, q)
take_first q block (some p) = do
  n ← q.cell p
  some (
    event p,
    record q {
      eventq = n.next;
      tail = elim n.next [ none ↦ none | some r ↦ q.tail ];
      count = (q.count + (2 ^ 64 - 1)) % 2 ^ 64;
    },
  )

pub v3_get_event : Queue → Bool → Option (Got × Queue)
unfolding take_first
v3_get_event q block = take_first (record q { mutex = true }) block q.eventq

-- `while (_v3_eventq != NULL)`, on fuel.
pub clear_loop : ℕ → Queue → Option ℕ → Option Queue
clear_loop fuel q none = some (record q { eventq = none })
clear_loop zero q (some p) = none
clear_loop (suc fuel) q (some p) = do
  n ← q.cell p
  q' ← v3_free_event q (some p)
  clear_loop fuel q' n.next

-- The length of the list is fuel enough: `v3_clear_events-Represents`.
pub v3_clear_events : Queue → Option Queue
unfolding clear_loop
v3_clear_events q =
    if not q.mutex
    then some q
    else (do q' ← clear_loop q.count q q.eventq; some (record q' { tail = none; count = 0 }))

-- The walk of `_v3_get_last_event`, with the number of steps, on fuel.
pub last_loop : ℕ → Cells → ℕ → ℕ → Option (ℕ × ℕ)
last_loop zero cell ctr p = none
last_loop (suc fuel) cell ctr p = do
  n ← cell p
  elim n.next [ none ↦ some (p, ctr) | some r ↦ last_loop fuel cell (ctr + 1) r ]

-- The last event and what is stored in `*len`; the inner `none` is the NULL of an empty queue.
pub v3_get_last_event : ℕ → Queue → Option (Option (ℕ × ℕ))
unfolding last_loop
v3_get_last_event fuel q = elim q.eventq [
  | none ↦ some none
  | some p ↦ (do r ← last_loop fuel q.cell 0 p; some (some r))
]
