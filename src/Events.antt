-- ===== src/Events.antt =====
-- The class `EventBus` of noema/core/events.py. The consumer awaits one handler at a time, so its `for`
-- loop is a sequence of steps: `dequeue` takes an event and lists the handlers, `deliver` runs the next
-- one. Whether a handler raises is decided outside, and is an argument of `deliver`.
pub mod Delivery
pub mod Overflow
mod Tests
use Prim.Native.String.{String}
use text.Mathlib.Text.{◌==◌ as str_eq}
use noema.Prelude.{
  ℕ, zero, suc, ◌+◌, Bool, true, false, List, [], ◌∷◌, ◌++◌, Option, none, some, ltb, leb,
  if◌then◌else◌, length, lookup_or, insert,
}

pub record Event : Type 0 where
  pub type : String
  pub payload : String
  pub id : String
  pub source : String

-- A handler is known by the name that identifies it.
abbrev pub Handler : Type 0
Handler = String

pub data Exn : Type 0 where
  queue_full : Exn
  handler_error : String → Exn

pub record Bus : Type 0 where
  pub max_queue : ℕ
  pub subscribers : List (String × List Handler)
  pub queue : List Event
  pub dead_letters : List (Event × Exn)
  pub published : ℕ
  pub delivered : ℕ
  pub failed : ℕ
  -- The event of the consumer loop with the handlers that still have to run.
  pub at_hand : List (Event × Handler)

abbrev pub init : ℕ → Bus
init max_queue = record {
  max_queue = max_queue;
  subscribers = [];
  queue = [];
  dead_letters = [];
  published = 0;
  delivered = 0;
  failed = 0;
  at_hand = [];
}

-- `self._subscribers.get(event_type, [])`
unfoldable pub handlers_of : String → Bus → List Handler
handlers_of event_type bus = lookup_or [] event_type bus.subscribers

unfoldable pub subscribe : String → Handler → Bus → Bus
unfolding handlers_of
subscribe event_type handler bus = record bus {
  subscribers = insert event_type (handlers_of event_type bus ++ handler ∷ []) bus.subscribers;
}

abbrev pub has : Handler → List Handler → Bool
has handler [] = false
has handler (h ∷ hs) = if str_eq handler h then true else has handler hs

-- `list.remove`
unfoldable pub remove_first : Handler → List Handler → List Handler
remove_first handler [] = []
remove_first handler (h ∷ hs) =
    let rest = remove_first handler hs in if str_eq handler h then hs else h ∷ rest

unfoldable pub unsubscribe : String → Handler → Bus → Bus
unfolding handlers_of
unsubscribe event_type handler bus =
    let handlers = handlers_of event_type bus in
    if has handler handlers
    then record bus {
      subscribers = insert event_type (remove_first handler handlers) bus.subscribers;
    }
    else bus

-- `pop(0)` when there are more than 1000 dead letters.
unfoldable pub bound_letters : List (Event × Exn) → List (Event × Exn)
bound_letters [] = []
bound_letters (l ∷ ls) = if ltb 1000 (length (l ∷ ls)) then ls else l ∷ ls

-- A queue made with `maxsize` 0 is never full.
unfoldable pub is_full : Bus → Bool
is_full bus = if leb bus.max_queue 0 then false else leb bus.max_queue (length bus.queue)

unfoldable pub publish : Event → Bus → Bus
publish event bus =
    if is_full bus
    then record bus {
      dead_letters = bound_letters (bus.dead_letters ++ (event, queue_full) ∷ []);
      failed = bus.failed + 1;
    }
    else record bus { queue = bus.queue ++ event ∷ []; published = bus.published + 1 }

unfoldable pub handlers_for : Event → Bus → List Handler
unfolding handlers_of
handlers_for event bus = handlers_of event.type bus ++ handlers_of "*" bus

abbrev pub pair_with : Event → List Handler → List (Event × Handler)
pair_with event [] = []
pair_with event (h ∷ hs) = (event, h) ∷ pair_with event hs

-- `if not handlers`
unfoldable pub begin : Event → List Handler → Bus → Bus
begin event [] bus = record bus { delivered = bus.delivered + 1 }
begin event (h ∷ hs) bus = record bus { at_hand = pair_with event (h ∷ hs) }

-- The head of the loop: while handlers are left the loop is not there, and with an empty queue the wait
-- times out.
unfoldable pub dequeue_when : List (Event × Handler) → List Event → Bus → Bus
dequeue_when (l ∷ ls) queue bus = bus
dequeue_when [] [] bus = bus
dequeue_when [] (event ∷ queue) bus =
    begin event (handlers_for event bus) (record bus { queue = queue })

unfoldable pub dequeue : Bus → Bus
dequeue bus = dequeue_when bus.at_hand bus.queue bus

-- One handler has returned, or raised.
unfoldable pub deliver_to : List (Event × Handler) → Option String → Bus → Bus
deliver_to [] outcome bus = bus
deliver_to ((event, handler) ∷ rest) none bus = record bus {
  delivered = bus.delivered + 1;
  at_hand = rest;
}
deliver_to ((event, handler) ∷ rest) (some exc) bus = record bus {
  failed = bus.failed + 1;
  dead_letters = bus.dead_letters ++ (event, handler_error exc) ∷ [];
  at_hand = rest;
}

unfoldable pub deliver : Option String → Bus → Bus
deliver outcome bus = deliver_to bus.at_hand outcome bus

pub data Op : Type 0 where
  subscribe_op : String → Handler → Op
  unsubscribe_op : String → Handler → Op
  publish_op : Event → Op
  dequeue_op : Op
  deliver_op : Option String → Op

unfoldable pub step : Op → Bus → Bus
step (subscribe_op t h) bus = subscribe t h bus
step (unsubscribe_op t h) bus = unsubscribe t h bus
step (publish_op e) bus = publish e bus
step dequeue_op bus = dequeue bus
step (deliver_op o) bus = deliver o bus

unfoldable pub run : List Op → Bus → Bus
run [] bus = bus
run (op ∷ ops) bus = run ops (step op bus)
