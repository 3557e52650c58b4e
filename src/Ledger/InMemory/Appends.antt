-- ===== src/Ledger/InMemory/Appends.antt =====
-- What an append does to the lists of events, as `list_events` shows them.
use recallops.Dict
use recallops.Result.{Result, ok, err}
use recallops.Ledger.Event.{Hashing, AuthorityEvent}
use recallops.Common.{
  String, Option, List, [], ◌≢◌, some, ◌≡◌, arith, ◌++◌, none, pair_eq, string_eq, ◌∷◌, ap, ◌∙◌,
  refl,
}
use recallops.Ledger.InMemory.{
  FaultHook, Append, Ledger, Run, append_transition, list_events, append_event, append_run, event,
  events_or_none,
}
use recallops.Workflow.Snapshot.{Uuid, Time, WorkflowSnapshot}
use recallops.Dict.{Dict, get-put_ne, get-put_self}

-- The list after an append, by how the call ended.
abbrev pub appended : Result (Option AuthorityEvent) → List AuthorityEvent → List AuthorityEvent
appended (ok (some e)) events = events ++ e ∷ []
appended _ events = events

module _ (h : Hashing) (hook : FaultHook) where
  append_event-events :
      (key : String × Uuid) (events : List AuthorityEvent) (r : Result AuthorityEvent) (l : Ledger)
      → Dict.get key l.events ≡ some events
      → events_or_none (Dict.get key (append_event h hook key events r l).1.events)
        ≡ appended (append_event h hook key events r l).0 events
  unfolding append_event
  append_event-events key events (err x) l found = ground arith
  append_event-events key events (ok e) l found = ground (
    arith,
    get-put_self key (events ++ e ∷ []) l.events,
    get-put_self key events (Dict.put key (events ++ e ∷ []) l.events),
  )

  append_event-frame :
      (key j : String × Uuid) (events : List AuthorityEvent) (r : Result AuthorityEvent)
      (l : Ledger)
      → key ≢ j
      → Dict.get j (append_event h hook key events r l).1.events ≡ Dict.get j l.events
  unfolding append_event
  append_event-frame key j events (err x) l other = refl
  append_event-frame key j events (ok e) l other = ground (
    arith,
    get-put_ne key j (events ++ e ∷ []) l.events other,
    get-put_ne key j events (Dict.put key (events ++ e ∷ []) l.events) other,
  )

  -- An append that returns an event was given that event.
  append_event-ok :
      (key : String × Uuid) (events : List AuthorityEvent) (r : Result AuthorityEvent) (l : Ledger)
      (e : AuthorityEvent)
      → (append_event h hook key events r l).0 ≡ ok (some e)
      → r ≡ ok e
  unfolding append_event
  append_event-ok key events (err x) l e done = cc
  append_event-ok key events (ok d) l e done = ground arith

module _ (key : String × Uuid) (d : Dict (String × Uuid) (List AuthorityEvent)) where
  setdefault-value : (Dict.setdefault key [] d).0 ≡ events_or_none (Dict.get key d)
  unfolding Dict.setdefault
  setdefault-value = ground arith

  get-setdefault : Dict.get key (Dict.setdefault key [] d).1 ≡ some (Dict.setdefault key [] d).0
  unfolding Dict.setdefault
  get-setdefault = ground (arith, get-put_self {V = List AuthorityEvent} key [] d)

  get-setdefault_ne :
      (j : String × Uuid) → key ≢ j → Dict.get j (Dict.setdefault key [] d).1 ≡ Dict.get j d
  unfolding Dict.setdefault
  get-setdefault_ne j other = ground (arith, get-put_ne {V = List AuthorityEvent} key j [] d other)

module _ (h : Hashing) (hook : FaultHook) (event_id : Uuid) (now : Time)
    (before after : WorkflowSnapshot) (a : Append) (l : Ledger) where
  abbrev result : Result (Option AuthorityEvent) × Ledger
  result = append_transition h hook event_id now before after a l

  -- A workflow that no run binds gets no event.
  pub append_transition_unbound :
      Dict.get (before.tenant_id, before.workflow_id) l.runs ≡ none → result ≡ (ok none, l)
  unfolding append_transition
  append_transition_unbound unbound = rw (unbound, append_run)

  module _ (run : Run)
      (bound : Dict.get (before.tenant_id, before.workflow_id) l.runs ≡ some run) where
    abbrev key : String × Uuid
    key = (before.tenant_id, run.run_id)

    -- the event that is made for the list, and the ledger once the list is there
    abbrev made : Result AuthorityEvent
    made = event h event_id now run (Dict.setdefault key [] l.events).0 before after a

    abbrev opened : Ledger
    opened = record l { events = (Dict.setdefault key [] l.events).1 }

    -- A returned event is the one that `_event` makes for the list as it stood.
    pub append_transition-made :
        (e : AuthorityEvent)
        → result.0 ≡ ok (some e)
        → event h event_id now run (list_events run.run_id before.tenant_id l) before after a ≡ ok e
    unfolding append_transition list_events
    append_transition-made e done = rw (← setdefault-value key l.events) (
        append_event-ok h hook key (Dict.setdefault key [] l.events).0 made opened e
          (rw (bound, append_run) at done))

    -- For a workflow that a run binds, the list of events of its run after the call is the list before it, with the returned event at its
    -- end if there is one: a call that raises leaves the list as it was.
    pub list_events-append_transition :
        list_events run.run_id before.tenant_id result.1
        ≡ appended result.0 (list_events run.run_id before.tenant_id l)
    unfolding append_transition list_events
    list_events-append_transition =
        rw (bound, append_run)
          (append_event-events h hook key (Dict.setdefault key [] l.events).0 made opened
              (get-setdefault key l.events)
            ∙ ap
                (appended
                  (append_event h hook key (Dict.setdefault key [] l.events).0 made opened).0)
                (setdefault-value key l.events))

    -- For a workflow that a run binds, the call leaves the list of events of every other run or tenant as it
    -- was.
    pub append_transition_frame :
        (r : Uuid) (t : String) → key ≢ (t, r) → list_events r t result.1 ≡ list_events r t l
    unfolding append_transition list_events
    append_transition_frame r t other =
        rw (bound, append_run)
          (ap events_or_none (
            append_event-frame h hook key (t, r) (Dict.setdefault key [] l.events).0 made opened
              other
            ∙ get-setdefault_ne key l.events (t, r) other))
