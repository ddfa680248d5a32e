-- ===== src/EventQueue/History.antt =====
-- Histories of the event queue: any sequence of calls, by any threads, behaves as a list.
use ventmac.Prelude.{
  ℕ, ◌+◌, ◌≤◌, ◌<◌, ◌^◌, ◌≡◌, refl, ap, ◌∙◌, Bool, true, false, List, [], ◌∷◌, ◌++◌, map,
  map-append, Option, none, some, arith, length, length-append, length-map, ◌>>=◌,
}
use ventmac.EventQueue.{
  Event, Node, update, Queue, stamp, v3_create_event, v3_free_event, v3_queue_event, Got, null,
  waits, event, v3_get_event, v3_clear_events,
}
use ventmac.EventQueue.Chain.{Entry, IsChain-update, IsNew-of_free, update_self}
use ventmac.EventQueue.Refinement.{
  Represents, v3_queue_event-Queued, v3_get_event-empty, v3_get_event-Dequeued,
  v3_clear_events-Emptied,
}

-- One call by a thread: create an event, for which `malloc` gives the address `p`, fill it and queue it;
-- take an event without blocking and free it after use; or clear the queue.
pub data Call : Type 0 where
  put :
      (p type : ℕ) (fields contents : List ℕ) (fill : Event → Event) (see : Bool) (channels now : ℕ)
      → Call
  get : Call
  clear : Call

-- The event that `v3_create_event` makes and the caller fills, as it is queued.
abbrev pub made : ℕ → List ℕ → List ℕ → (Event → Event) → Bool → ℕ → ℕ → Event
made type fields contents fill see channels now = stamp see channels now (
    fill (record {
      type = type;
      timestamp = 0;
      channel_id = 0;
      others = fields;
      contents = some contents;
    }))

-- What the caller writes into an event before it is queued.
unfoldable pub fill_event : Queue → ℕ → (Event → Event) → Option Queue
fill_event q p fill = do
  n ← q.cell p
  some (record q { cell = update q.cell p (some (record n { event = fill n.event })) })

-- What a taken event shows the client, before the client frees it.
pub use_event : Got × Queue → Option (Option Event × Queue)
use_event (event p, q) = do n ← q.cell p; q' ← v3_free_event q (some p); some (some n.event, q')
use_event (null, q) = some (none, q)
use_event (waits, q) = some (none, q)

unfoldable pub step : Queue → Call → Option (List (Option Event) × Queue)
unfolding use_event
step q (put p type fields contents fill see channels now) = do
  filled ← fill_event (v3_create_event q p fields contents type) p fill
  q' ← v3_queue_event filled see channels now p
  some ([], q')
step q get = do r ← v3_get_event q false; (e, q') ← use_event r; some (e ∷ [], q')
step q clear = do q' ← v3_clear_events q; some ([], q')

-- A run stops at the first fault.
pub run : Queue → List Call → Option (List (Option Event) × Queue)
run q [] = some ([], q)
run q (c ∷ cs) = do (out, q') ← step q c; (outs, q'') ← run q' cs; some (out ++ outs, q'')

-- `malloc` gives an address that is not in use at the time of the call.
abbrev pub IsAllocated : Queue → Call → Type 0
IsAllocated q (put p type fields contents fill see channels now) = q.cell p ≡ none
IsAllocated q get = Unit
IsAllocated q clear = Unit

-- It does so all along the run.
abbrev pub AllAllocated : Queue → List Call → Type 0
AllAllocated q [] = Unit
AllAllocated q (c ∷ cs) =
    IsAllocated q c × elim (step q c) [ none ↦ Unit | some r ↦ AllAllocated r.1 cs ]

-- The same calls on a list of events.
pub spec_step : List Event → Call → List (Option Event) × List Event
spec_step es (put p type fields contents fill see channels now) =
    ([], es ++ made type fields contents fill see channels now ∷ [])
spec_step [] get = (none ∷ [], [])
spec_step (e ∷ es) get = (some e ∷ [], es)
spec_step es clear = ([], [])

pub spec_run : List Event → List Call → List (Option Event) × List Event
spec_run es [] = ([], es)
spec_run es (c ∷ cs) =
    let (out, es') = spec_step es c in let (outs, es'') = spec_run es' cs in (out ++ outs, es'')

abbrev pub events : List Entry → List Event
events = map λ a. a.1

pub record Follows (q : Queue) (outs : List (Option Event)) (es' : List Event)
    (result : Option (List (Option Event) × Queue)) : Type 0 where
  pub q' : Queue
  pub entries : List Entry
  pub returns : result ≡ some (outs, q')
  pub mutex' : q'.mutex ≡ true
  pub holds : Represents q' entries
  pub same : events entries ≡ es'

module _ (q : Queue) (es : List Entry) (ready : q.mutex ≡ true) (r : Represents q es) where
  put-Follows :
      (p type : ℕ) (fields contents : List ℕ) (fill : Event → Event) (see : Bool) (channels now : ℕ)
      → q.cell p ≡ none
      → length es + 1 < 2 ^ 64
      → Follows q []
          (events es ++ made type fields contents fill see channels now ∷ [])
          (step q (put p type fields contents fill see channels now))
  unfolding step v3_create_event fill_event
  put-Follows p type fields contents fill see channels now free room =
      let fresh = IsNew-of_free q.cell p q.eventq es free r.chain in
      let q0 = v3_create_event q p fields contents type in
      let n0 : Node = record {
        event = record {
          type = type;
          timestamp = 0;
          channel_id = 0;
          others = fields;
          contents = some contents;
        };
        next = none;
      } in
      let q1 = record q0 { cell = update q0.cell p (some (record n0 { event = fill n0.event })) } in
      let d =
        v3_queue_event-Queued q1 es p _ see channels now ready
          (record {
            chain =
                IsChain-update q0.cell p _ q.eventq es fresh
                  (IsChain-update q.cell p _ q.eventq es fresh r.chain);
            distinct = r.distinct;
            tail_last = r.tail_last;
            counted = r.counted;
            small = r.small;
          })
          room fresh (update_self q0.cell p _) in
      record {
        q' = d.q';
        entries = es ++ (p, made type fields contents fill see channels now) ∷ [];
        returns = rw (update_self q.cell p (some n0), d.returns);
        mutex' = d.mutex' ∙ ready;
        holds = d.holds;
        same = map-append (λ (a : Entry). a.1) es (_ ∷ []);
      }

  clear-Follows : Follows q [] [] (step q clear)
  unfolding step
  clear-Follows =
      let d = v3_clear_events-Emptied q es ready r in
      record {
        q' = d.cleared.q';
        entries = [];
        returns = rw d.cleared.returns;
        mutex' = d.cleared.mutex' ∙ ready;
        holds = d.holds;
        same = refl;
      }

get-Follows :
    (q : Queue) (es : List Entry)
    → q.mutex ≡ true
    → Represents q es
    → Follows q (spec_step (events es) get).0 (spec_step (events es) get).1 (step q get)
unfolding step spec_step v3_free_event
get-Follows q [] ready r = record {
  q' = record q { mutex = true };
  entries = [];
  returns = rw (v3_get_event-empty q false r);
  mutex' = refl;
  holds = record {
    chain = r.chain;
    distinct = tt;
    tail_last = r.tail_last;
    counted = r.counted;
    small = r.small;
  };
  same = refl;
}
get-Follows q ((p, e) ∷ es) ready r =
    let d = v3_get_event-Dequeued q false p e es r in
    record {
      q' = record d.q' { cell = update d.q'.cell p none };
      entries = es;
      returns = rw (d.returns, d.live);
      mutex' = d.mutex';
      holds = record {
        chain = IsChain-update d.q'.cell p none d.q'.eventq es d.outside d.holds.chain;
        distinct = d.holds.distinct;
        tail_last = d.holds.tail_last;
        counted = d.holds.counted;
        small = d.holds.small;
      };
      same = refl;
    }

length-events : (es : List Entry) → length (events es) ≡ length es
length-events es = length-map es λ a. a.1

step-Follows :
    (q : Queue) (es : List Entry) (c : Call)
    → q.mutex ≡ true
    → Represents q es
    → IsAllocated q c
    → length es + 1 < 2 ^ 64
    → Follows q (spec_step (events es) c).0 (spec_step (events es) c).1 (step q c)
unfolding spec_step
step-Follows q es (put p type fields contents fill see channels now) ready r free room =
    put-Follows q es ready r p type fields contents fill see channels now free room
step-Follows q es get ready r free room = get-Follows q es ready r
step-Follows q es clear ready r free room = clear-Follows q es ready r

length-spec_step : (es : List Event) (c : Call) → length (spec_step es c).1 ≤ length es + 1
unfolding spec_step
length-spec_step es (put p type fields contents fill see channels now) =
    omega (arith, length-append es (made type fields contents fill see channels now ∷ []))
length-spec_step [] get = omega arith
length-spec_step (e ∷ es) get = omega arith
length-spec_step es clear = omega arith

later :
    (q : Queue) (c : Call) (cs : List Call) (q' : Queue) {out : List (Option Event)}
    → step q c ≡ some (out, q')
    → elim (step q c) as (λ x. Type 0) [ none ↦ Unit | some r ↦ AllAllocated r.1 cs ]
    → AllAllocated q' cs
later q c cs q' e h = rw e at h

-- Every history of three kinds of calls, each as a whole, is free of faults and shows clients
-- exactly what a first-in first-out list shows them: an event is created, filled in any way and
-- queued; one is taken without blocking, read and freed; the queue is cleared. At the end the
-- queue holds what the list holds. `malloc` gives free addresses, the mutex is set up, and events
-- and calls together are fewer than 2 ^ 64.
pub run-Follows :
    (q : Queue) (es : List Entry) (cs : List Call)
    → q.mutex ≡ true
    → Represents q es
    → AllAllocated q cs
    → length es + length cs < 2 ^ 64
    → Follows q (spec_run (events es) cs).0 (spec_run (events es) cs).1 (run q cs)
unfolding run spec_run
run-Follows q es [] ready r free room = record {
  q' = q;
  entries = es;
  returns = refl;
  mutex' = ready;
  holds = r;
  same = refl;
}
run-Follows q es (c ∷ cs) ready r free room =
    let s = step-Follows q es c ready r free.0 (omega arith) in
    let t = run-Follows s.q' s.entries cs s.mutex' s.holds (later q c cs s.q' s.returns free.1) (
      omega (
        arith,
        length-spec_step (events es) c,
        length-events es,
        length-events s.entries,
        ap length s.same,
      )) in
    record {
      q' = t.q';
      entries = t.entries;
      returns =
          simp (s.returns, t.returns)
            (ap (λ l. some ((spec_step (events es) c).0 ++ (spec_run l cs).0, t.q')) s.same);
      mutex' = t.mutex';
      holds = t.holds;
      same = t.same ∙ ap (λ l. (spec_run l cs).1) s.same;
    }
