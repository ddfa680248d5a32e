-- ===== src/EventQueue/Refinement.antt =====
-- The event queue implements a first-in first-out list of events.
use ventmac.Prelude.{
  ℕ, zero, suc, ◌+◌, ◌-◌, ◌%◌, ◌≤◌, ◌<◌, ◌^◌, ◌≡◌, refl, sym, ◌∙◌, Bool, true, List, [], ◌∷◌, ◌++◌,
  Option, none, some, arith, length, length-append, All, if◌then◌else◌,
}
use ventmac.EventQueue.{
  Event, Node, update, Queue, stamp, v3_free_event, v3_queue_event, link, Got, null, waits, event,
  v3_get_event, take_first, v3_clear_events, clear_loop,
}
use ventmac.EventQueue.Chain.{
  Entry, IsChain, IsNew, IsDistinct, last_pointer, IsChain-update, IsDistinct-append,
  last_pointer-append, IsChain-append, update_self, update_ne,
}

-- The queue holds exactly these events, oldest first: the chain from `_v3_eventq`, the tail pointer
-- to its last node, and its length.
pub record Represents (q : Queue) (es : List Entry) : Type 0 where
  pub chain : IsChain q.cell q.eventq es
  pub distinct : IsDistinct es
  pub tail_last : q.tail ≡ last_pointer es
  pub counted : q.count ≡ length es
  pub small : length es < 2 ^ 64

-- The outcome of `v3_queue_event`: no fault, and the stamped event behind the others.
pub record Queued (q : Queue) (es : List Entry) (p : ℕ) (e : Event) (result : Option Queue)
    : Type 0 where
  pub q' : Queue
  pub returns : result ≡ some q'
  pub mutex' : q'.mutex ≡ q.mutex
  pub holds : Represents q' (es ++ (p, e) ∷ [])

-- With the mutex set up, an event that is not yet in the queue is put behind the events that are
-- there, with its channel cleared where the client may not see channels or knows none, and with the
-- time; no other event changes and the mutex stays. The length must stay below 2 ^ 64.
pub v3_queue_event-Queued :
    (q : Queue) (es : List Entry) (p : ℕ) (n : Node) (see : Bool) (channels now : ℕ)
    → q.mutex ≡ true
    → Represents q es
    → length es + 1 < 2 ^ 64
    → IsNew p es
    → q.cell p ≡ some n
    → Queued q es p (stamp see channels now n.event) (v3_queue_event q see channels now p)
unfolding v3_queue_event link
v3_queue_event-Queued q [] p n see channels now ready r room fresh live = record {
  q' = record q {
    cell = update q.cell p (some (record { event = stamp see channels now n.event; next = none }));
    eventq = some p;
    tail = some p;
    count = 1;
  };
  returns = rw (ready, live, r.tail_last);
  mutex' = refl;
  holds = record {
    chain = (refl, none, update_self q.cell p _, refl);
    distinct = (tt, tt);
    tail_last = refl;
    counted = refl;
    small = omega arith;
  };
}
v3_queue_event-Queued q (a ∷ es) p n see channels now ready r room fresh live =
    let e = stamp see channels now n.event in
    let cell = update q.cell p (some (record { event = e; next = none })) in
    let (last, m, l, at, c) =
      IsChain-append cell q.eventq a es p e r.distinct fresh
        (IsChain-update q.cell p _ q.eventq (a ∷ es) fresh r.chain) (update_self q.cell p _) in
    record {
      q' = record q {
        cell = update cell last (some (record m { next = some p }));
        tail = some p;
        count = (q.count + 1) % 2 ^ 64;
      };
      returns = rw (ready, live, r.tail_last, l, at);
      mutex' = refl;
      holds = record {
        chain = c;
        distinct = IsDistinct-append p e (a ∷ es) r.distinct fresh;
        tail_last = sym (last_pointer-append p e (a ∷ es));
        counted = omega (arith, r.counted, length-append es ((p, e) ∷ []));
        small = omega (arith, length-append es ((p, e) ∷ []));
      };
    }

-- An empty queue gives NULL, or makes a blocking caller wait, and stays as it is.
pub v3_get_event-empty :
    (q : Queue) (block : Bool)
    → Represents q []
    → v3_get_event q block ≡ some (if block then waits else null, record q { mutex = true })
unfolding v3_get_event
v3_get_event-empty q block r = rw r.chain

-- The outcome of `v3_get_event` on a queue that is not empty.
pub record Dequeued (q : Queue) (p : ℕ) (e : Event) (es : List Entry)
    (result : Option (Got × Queue)) : Type 0 where
  pub q' : Queue
  pub next : Option ℕ
  pub returns : result ≡ some (event p, q')
  pub live : q'.cell p ≡ some (record { event = e; next = next })
  pub outside : IsNew p es
  pub mutex' : q'.mutex ≡ true
  pub holds : Represents q' es

-- A queue that holds events gives its oldest one, still allocated, and keeps the others in order,
-- whether the caller blocks or not. The mutex is set up from then on.
pub v3_get_event-Dequeued :
    (q : Queue) (block : Bool) (p : ℕ) (e : Event) (es : List Entry)
    → Represents q ((p, e) ∷ es)
    → Dequeued q p e es (v3_get_event q block)
unfolding v3_get_event take_first
v3_get_event-Dequeued q block p e [] r = record {
  q' = record q {
    mutex = true;
    eventq = none;
    tail = none;
    count = (q.count + (2 ^ 64 - 1)) % 2 ^ 64;
  };
  next = r.chain.1;
  returns = rw (r.chain.0, r.chain.2, r.chain.3);
  live = r.chain.2;
  outside = tt;
  mutex' = refl;
  holds = record {
    chain = refl;
    distinct = tt;
    tail_last = refl;
    counted = omega (arith, r.counted);
    small = omega arith;
  };
}
v3_get_event-Dequeued q block p e ((p2, e2) ∷ es) r =
    let (head, next, at, rest) = r.chain in
    record {
      q' = record q { mutex = true; eventq = next; count = (q.count + (2 ^ 64 - 1)) % 2 ^ 64 };
      next = next;
      returns = rw (head, at, rest.0);
      live = at;
      outside = r.distinct.0;
      mutex' = refl;
      holds = record {
        chain = rest;
        distinct = r.distinct.1;
        tail_last = r.tail_last;
        counted = omega (arith, r.counted, r.small);
        small = omega (arith, r.small);
      };
    }

-- The outcome of a walk that frees the nodes of a list.
pub record Cleared (q : Queue) (es : List Entry) (result : Option Queue) : Type 0 where
  pub q' : Queue
  pub returns : result ≡ some q'
  pub emptied : q'.eventq ≡ none
  pub mutex' : q'.mutex ≡ q.mutex
  pub freed : All (λ (a : Entry). q'.cell a.0 ≡ none) es
  pub others : (x : ℕ) → IsNew x es → q'.cell x ≡ q.cell x

clear_loop-Cleared :
    (fuel : ℕ) (q : Queue) (head : Option ℕ) (es : List Entry)
    → length es ≤ fuel
    → IsDistinct es
    → IsChain q.cell head es
    → Cleared q es (clear_loop fuel q head)
unfolding clear_loop v3_free_event
clear_loop-Cleared zero q head [] h d c = record {
  q' = record q { eventq = none };
  returns = rw c;
  emptied = refl;
  mutex' = refl;
  freed = tt;
  others = λ x n. refl;
}
clear_loop-Cleared (suc fuel) q head [] h d c = record {
  q' = record q { eventq = none };
  returns = rw c;
  emptied = refl;
  mutex' = refl;
  freed = tt;
  others = λ x n. refl;
}
clear_loop-Cleared zero q head (a ∷ es) h d c = elim h [ ]
clear_loop-Cleared (suc fuel) q head ((p, e) ∷ es) h d c =
    let q1 = record q { cell = update q.cell p none } in
    let r =
      clear_loop-Cleared fuel q1 c.1 es (omega arith) d.1
        (IsChain-update q.cell p none c.1 es d.0 c.3) in
    record {
      q' = r.q';
      returns = rw (c.0, c.2) r.returns;
      emptied = r.emptied;
      mutex' = r.mutex';
      freed = (r.others p d.0 ∙ update_self q.cell p none, r.freed);
      others = λ x n. r.others x n.1 ∙ update_ne q.cell p none x (λ x-p. n.0 (sym x-p));
    }

pub record Emptied (q : Queue) (es : List Entry) (result : Option Queue) : Type 0 where
  pub cleared : Cleared q es result
  pub holds : Represents cleared.q' []

-- With the mutex set up, `v3_clear_events` empties the queue: it frees every event once and touches
-- no other node, and its loop ends.
pub v3_clear_events-Emptied :
    (q : Queue) (es : List Entry)
    → q.mutex ≡ true
    → Represents q es
    → Emptied q es (v3_clear_events q)
unfolding v3_clear_events
v3_clear_events-Emptied q es ready r =
    let c =
      clear_loop-Cleared q.count q q.eventq es (omega (arith, r.counted)) r.distinct r.chain in
    record {
      cleared = record {
        q' = record c.q' { tail = none; count = 0 };
        returns = simp (ready, c.returns);
        emptied = c.emptied;
        mutex' = c.mutex';
        freed = c.freed;
        others = c.others;
      };
      holds = record {
        chain = c.emptied;
        distinct = tt;
        tail_last = refl;
        counted = refl;
        small = omega arith;
      };
    }
