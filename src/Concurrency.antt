-- ===== src/Concurrency.antt =====
-- src/utils/concurrency.ts: workers that take the items of a list in turn. A worker runs without a
-- break from one await to the next; between these steps the workers, the callbacks and the abort
-- signal come in any order, which is a list of events.
mod Workers
mod Tests
use b2_mcp.Base.{
  Bool, List, Option, [], false, get_elem?, get_or, if◌then◌else◌, leb, min, some, suc, true, zero,
  ℕ, ◌+◌, ◌||◌, ◌∷◌,
}

abbrev pub default_bounded_worker_concurrency : ℕ
default_bounded_worker_concurrency = 8

-- About to begin a round of its loop, waiting for the callback at an index, returned, or ended by
-- the callback's error.
pub data Worker : Type 0 where
  ready : Worker
  waits : ℕ → Worker
  returned failed : Worker

-- The variables of the call, the state of the signal, and the indices at which the callback has been
-- called, the last first.
pub record Pool : Type 0 where
  pub workers : List Worker
  pub next_index : ℕ
  pub aborted : Bool
  pub signal_aborted : Bool
  pub called : List ℕ

pub data Event : Type 0 where
  runs resolves rejects : ℕ → Event
  aborts : Event

abbrev pub update : ℕ → Worker → List Worker → List Worker
update i w [] = []
update zero w (v ∷ ws) = w ∷ ws
update (suc i) w (v ∷ ws) = v ∷ update i w ws

-- A round of the loop of the worker `w`, for `n` items.
unfoldable pub worker_round : ℕ → ℕ → Pool → Pool
worker_round n w s =
    if s.signal_aborted
    then record s { aborted = true; workers = update w returned s.workers }
    else if leb n s.next_index
    then record s { next_index = s.next_index + 1; workers = update w returned s.workers }
    else record s {
      next_index = s.next_index + 1;
      workers = update w (waits s.next_index) s.workers;
      called = s.next_index ∷ s.called;
    }

abbrev pub is_ready : Option Worker → Bool
is_ready (some ready) = true
is_ready _ = false

abbrev pub is_waiting : Option Worker → Bool
is_waiting (some (waits i)) = true
is_waiting _ = false

-- An event that does not apply changes nothing.
unfoldable pub step : ℕ → Event → Pool → Pool
step n (runs w) s = if is_ready (get_elem? s.workers w) then worker_round n w s else s
step n (resolves w) s =
    if is_waiting (get_elem? s.workers w)
    then record s { workers = update w ready s.workers }
    else s
step n (rejects w) s =
    if is_waiting (get_elem? s.workers w)
    then record s { workers = update w failed s.workers }
    else s
step n aborts s = record s { signal_aborted = true }

abbrev pub copies : ℕ → List Worker
copies zero = []
copies (suc k) = ready ∷ copies k

-- `options.maxConcurrency`, and whether the signal is aborted at the call.
pub record Options : Type 0 where
  pub max_concurrency : Option ℕ
  pub aborted_at_call : Bool

abbrev pub worker_count : Options → ℕ → ℕ
worker_count o n = min (get_or o.max_concurrency default_bounded_worker_concurrency) n

unfoldable pub for_each_bounded : Options → ℕ → Pool
for_each_bounded o n = record {
  workers = copies (worker_count o n);
  next_index = 0;
  aborted = o.aborted_at_call;
  signal_aborted = o.aborted_at_call;
  called = [];
}

-- After some events, the last first.
unfoldable pub run : Options → ℕ → List Event → Pool
run o n [] = for_each_bounded o n
run o n (e ∷ es) = step n e (run o n es)

-- `aborted` in the result.
abbrev pub reports_abort : Pool → Bool
reports_abort s = s.aborted || s.signal_aborted
