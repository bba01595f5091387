-- ===== src/Tests/Wakeups.antt =====
-- The poll thread's sleep and end at concrete schedules.
use foxglove_bridge_ros.Prelude.{◌≡◌, refl, false, ◌&&◌, ◌||◌, ◌==◌, nat_eq, arith}
use foxglove_bridge_ros.Prelude.Int.{pos}
use foxglove_bridge_ros.Poll.Backoff.{PollState, before_wait}
use foxglove_bridge_ros.Poll.Wakeup.{
  finished, Threads, poll_move, stop, stop_notify, polls, stops, stops_notify, start, Reach, here,
  next,
}
use foxglove_bridge_ros.Poll.Wakeup.Progress.{
  has_notified, no_lost_wakeup, Run, none, own, shutdown_ends,
}

abbrev resting : PollState
resting = record {
  graph_subscription_count = pos 0;
  poll_poke = false;
  update_count = 40;
  max_update_period_ms = 5000;
}

abbrev asleep : Threads
asleep = poll_move (poll_move (poll_move (poll_move (poll_move (start resting)))))

asleep-Reach : Reach resting asleep
asleep-Reach = next (next (next (next (next here polls) polls) polls) polls) polls

no_lost_wakeup_example :
    has_notified asleep.stopper || (asleep.state.poll_poke && asleep.pending == 0) ≡ false
unfolding poll_move before_wait
no_lost_wakeup_example = no_lost_wakeup refl asleep-Reach refl

abbrev told : Threads
told = stop_notify (stop asleep)

told-Reach : Reach resting told
unfolding poll_move before_wait stop
told-Reach = next (next asleep-Reach (stops refl refl)) (stops_notify refl)

abbrev ended : Threads
ended = poll_move (poll_move (poll_move (poll_move (poll_move told))))

told-Run : Run told 5 ended
told-Run = own (own (own (own (own none))))

shutdown_ends_example : ended.poll ≡ finished
unfolding stop_notify
shutdown_ends_example = shutdown_ends refl told-Reach refl told-Run (omega arith)
