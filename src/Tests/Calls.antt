-- ===== src/Tests/Calls.antt =====
-- Service calls at concrete inputs.
use foxglove_bridge_ros.Prelude.{
  ◌≡◌, ◌+◌, refl, none, some, List, [], ◌∷◌, lookup, nat_eq, string_eq, arith, String, ◌&&◌, ◌||◌,
  contains, insert, erase, contains-insert, contains-erase, true, false, Bool, ◌==◌,
}
use foxglove_bridge_ros.Services.Advertised.{Services}
use foxglove_bridge_ros.Services.Advertised.{ServiceSchema}
use foxglove_bridge_ros.Transports.{ServiceHost, Transports, add_service}
use foxglove_bridge_ros.Services.Calls.{CallState, ServiceRequest, GenericService, check_request}
use foxglove_bridge_ros.Services.Calls.Once.{
  IsOnce, Step, requests, returns, collects, expires, run, run-IsOnce,
}
use foxglove_bridge_ros.Prelude.Int.{pos}
use foxglove_bridge_ros.Poll.Backoff.{before_wait, after_wait}
use foxglove_bridge_ros.Poll.Timing.{LoopState, Round, to_sweep, to_next, loop}
use foxglove_bridge_ros.Poll.Timing.Answered.{AnsweredBy, with_request, loop-answered}

abbrev services : Services
services = ("/reset", record { type = "std_srvs/Empty"; md5sum = "d41"; description = none }) ∷ []

abbrev quiet : CallState
quiet = record { next_call = 0; calls = []; watched = []; expired = []; responses = [] }

quiet-IsOnce : IsOnce quiet
unfolding lookup
quiet-IsOnce = record { once = λ id. ground arith; known = λ id h. refl }

abbrev reset : ServiceRequest
reset = record { service_name = "/reset"; encoding = "ros1"; payload = [] }

abbrev bad : ServiceRequest
bad = record reset { encoding = "json" }

-- The sweep collects the first call, its worker returns in between, and the second is refused.
abbrev steps : List Step
steps =
    requests services reset 0 30
    ∷ requests services bad 1 30
    ∷ collects 30
    ∷ returns 0 (some [])
    ∷ expires
    ∷ []

run-IsOnce_example : IsOnce (run quiet steps)
run-IsOnce_example = run-IsOnce quiet steps quiet-IsOnce

abbrev call : GenericService
call = record { type = "std_srvs/Empty"; md5sum = "d41"; content = [] }

-- Two rounds of 10 ms, each with the longest wait; the worker never returns.
abbrev round : Round
round = record {
  work_ms = 10;
  before_sweep = requests services reset 5 30 ∷ [];
  woken_after_ms = 6000;
  poked = false;
  while_waiting = [];
}

abbrev polling : LoopState
polling = record {
  now = 0;
  poll = record {
    graph_subscription_count = pos 0;
    poll_poke = false;
    update_count = 40;
    max_update_period_ms = 5000;
  };
  calls = quiet;
}

loop-answered_example :
    AnsweredBy 0 (30 + 5000 + 10) (round ∷ round ∷ []) (with_request services reset 0 30 polling)
unfolding lookup check_request loop to_sweep to_next before_wait after_wait
loop-answered_example =
    loop-answered (round ∷ round ∷ []) polling services reset 0 30 10 call quiet-IsOnce refl
      (omega arith, (omega arith, tt)) (omega arith) (ground arith)

added :
    (n : String) (s : List String) (m : String)
    → contains m (insert n s) ≡ ((true && n == m) || contains m s)
added n s m = contains-insert n m s

-- A table that takes every service, and one that takes none.
abbrev open_host : ServiceHost (List String)
open_host = record {
  add = λ n schema s. (insert n s, true);
  drop = λ n s. (erase n s, true);
  offers = λ s n. contains n s;
  offers-add = λ n schema s m. added n s m;
  offers-drop = λ n s m. contains-erase n m s;
}

abbrev full_host : ServiceHost (List String)
full_host = record {
  add = λ n schema s. (s, false);
  drop = λ n s. (erase n s, true);
  offers = λ s n. contains n s;
  offers-add = λ n schema s m. refl;
  offers-drop = λ n s m. contains-erase n m s;
}

abbrev creates : String → ServiceSchema → Bool
creates name schema = true

abbrev transports : Transports (List String) (List String)
transports = record { server = "/stop" ∷ []; gateway = some ("/stop" ∷ []) }

abbrev trigger : ServiceSchema
trigger = record { name = "std_srvs/Trigger"; request = none; response = none }

abbrev both : Transports (List String) (List String)
both = (add_service creates open_host full_host "/reset" trigger transports).0
