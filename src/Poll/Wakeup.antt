-- ===== src/Poll/Wakeup.antt =====
-- How the poll thread sleeps and is woken (src/ros1_foxglove_bridge.cpp): the loop of `pollThread`
-- around its body, `pokePoll` as any number of threads call it, and the destructor up to the join.
-- A step is what one thread does at once. The critical sections of `pokePoll` and of the destructor
-- hold one write each, so each is one step, that waits until the poll thread has left the mutex.
pub mod Progress
use foxglove_bridge_ros.Prelude.{
  ℕ, suc, ◌+◌, ◌-◌, ◌<◌, ◌≡◌, Bool, true, false, not, ◌&&◌, ◌||◌, if◌then◌else◌,
}
use foxglove_bridge_ros.Poll.Backoff.{PollState, poke_poll, before_wait, after_wait}

-- Where the poll thread is: at the loop's test, in the body, before the mutex, at the predicate of
-- `wait_for`, behind a predicate that was false, asleep and out of the mutex, woken by a
-- notification or by the time-out, behind the wait, or returned.
pub data PollPc : Type 0 where
  looping cycling locking checking dozing sleeping : PollPc
  woken : Bool → PollPc
  resuming finished : PollPc

-- Where the destructor is: not begun, between unlocking and `notify_all`, joining, behind the join.
pub data StopPc : Type 0 where
  running notifying joining joined : StopPc

-- `pending` counts the calls of `pokePoll` between unlocking and `notify_all`.
pub record Threads : Type 0 where
  pub poll : PollPc
  pub state : PollState
  pub shutting_down : Bool
  pub ros_ok : Bool
  pub pending : ℕ
  pub stopper : StopPc

abbrev pub holds_mutex : PollPc → Bool
holds_mutex checking = true
holds_mutex dozing = true
holds_mutex resuming = true
holds_mutex _ = false

-- The predicate of `wait_for`.
abbrev pub wants_to_run : Threads → Bool
wants_to_run s = s.shutting_down || s.state.poll_poke

-- The poll thread's next step. Behind a time-out `wait_for` returns whatever the predicate says.
unfoldable pub next_at : PollPc → Threads → Threads
next_at looping s = record s {
  poll = if not s.shutting_down && s.ros_ok then cycling else finished;
}
next_at cycling s = record s { poll = locking; state = (before_wait s.state).0 }
next_at locking s = record s { poll = checking }
next_at checking s = record s { poll = if wants_to_run s then resuming else dozing }
next_at dozing s = record s { poll = sleeping }
next_at sleeping s = s
next_at (woken timed_out) s = record s { poll = if timed_out then resuming else checking }
next_at resuming s = record s { poll = looping; state = after_wait s.state }
next_at finished s = s

unfoldable pub poll_move : Threads → Threads
unfolding next_at
poll_move s = next_at s.poll s

-- `notify_all`.
unfoldable pub notified : PollPc → PollPc
notified sleeping = woken false
notified p = p

-- The two parts of `pokePoll`.
unfoldable pub poke : Threads → Threads
poke s = record s { state = poke_poll s.state; pending = s.pending + 1 }

unfoldable pub poke_notify : Threads → Threads
unfolding notified
poke_notify s = record s { poll = notified s.poll; pending = s.pending - 1 }

-- The parts of the destructor.
unfoldable pub stop : Threads → Threads
stop s = record s { shutting_down = true; stopper = notifying }

unfoldable pub stop_notify : Threads → Threads
unfolding notified
stop_notify s = record s { poll = notified s.poll; stopper = joining }

pub data Step (s : Threads) : Threads → Type 0 where
  polls : Step s (poll_move s)
  -- The time-out, or a spurious return of the wait.
  wakes : (timed_out : Bool) → s.poll ≡ sleeping → Step s (record s { poll = woken timed_out })
  pokes : holds_mutex s.poll ≡ false → Step s (poke s)
  pokes_notify : 0 < s.pending → Step s (poke_notify s)
  stops : s.stopper ≡ running → holds_mutex s.poll ≡ false → Step s (stop s)
  stops_notify : s.stopper ≡ notifying → Step s (stop_notify s)
  joins : s.stopper ≡ joining → s.poll ≡ finished → Step s (record s { stopper = joined })
  ros_ends : Step s (record s { ros_ok = false })

abbrev pub start : PollState → Threads
start state = record {
  poll = looping;
  state = state;
  shutting_down = false;
  ros_ok = true;
  pending = 0;
  stopper = running;
}

pub data Reach (state : PollState) : Threads → Type 0 where
  here : Reach state (start state)
  next : {s t : Threads} → Reach state s → Step s t → Reach state t
