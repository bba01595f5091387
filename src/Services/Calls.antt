-- ===== src/Services/Calls.antt =====
-- `handleServiceRequest` and `sweepExpiredServiceCalls` of src/ros1_foxglove_bridge.cpp. A pending
-- call is shared by the list of outstanding calls and its worker thread; each step below is what
-- one thread does under one lock, so steps of several threads may follow one another in any order.
pub mod Once
pub mod Deadline
use foxglove_bridge_ros.Prelude.{
  ℕ, suc, ◌+◌, String, Bool, true, false, not, Option, none, some, List, [], ◌∷◌, ◌++◌, lookup,
  assign, leb, is_empty, if◌then◌else◌, nat_eq, string_eq, ◌==◌,
}
use foxglove_bridge_ros.Services.Advertised.{ServiceDetails, Services}

abbrev pub Bytes : Type 0
Bytes = List ℕ

pub data Response : Type 0 where
  respond_ok : Bytes → Response
  unknown_service unsupported_encoding no_type_information : Response
  call_failed timed_out : Response

-- `PendingServiceCall`: whether the responder is still there, and the service's name.
pub record PendingServiceCall : Type 0 where
  pub has_responder : Bool
  pub service_name : String

-- Calls are numbered as they start. `watched` is `_pendingServiceCalls`, `expired` the local list
-- of a sweep, and `responses` what went out, newest last.
pub record CallState : Type 0 where
  pub next_call : ℕ
  pub calls : List (ℕ × PendingServiceCall)
  pub watched : List (ℕ × ℕ)
  pub expired : List ℕ
  pub responses : List (ℕ × Response)

pub record ServiceRequest : Type 0 where
  pub service_name : String
  pub encoding : String
  pub payload : Bytes

-- `GenericService`, as the worker sends it.
pub record GenericService : Type 0 where
  pub type : String
  pub md5sum : String
  pub content : Bytes

-- A request is refused at once, or a worker is started with what it is to send.
pub data Handling : Type 0 where
  refused : Response → Handling
  started : GenericService → Handling

-- The guards, on what the map has for the service's name.
unfoldable pub check_request : Option ServiceDetails → ServiceRequest → Handling
check_request none request = refused unknown_service
check_request (some details) request =
    if not (request.encoding == "ros1")
    then refused unsupported_encoding
    else if details.md5sum == ""
    then refused no_type_information
    else started
        (record { type = details.type; md5sum = details.md5sum; content = request.payload })

-- The request of the responder number `next_call`.
unfoldable pub place_call : CallState → ServiceRequest → ℕ → Handling → CallState
place_call s request deadline (refused r) = record s {
  next_call = suc s.next_call;
  responses = s.responses ++ (s.next_call, r) ∷ [];
}
place_call s request deadline (started req) = record s {
  next_call = suc s.next_call;
  calls =
      assign s.next_call (record { has_responder = true; service_name = request.service_name })
        s.calls;
  watched = s.watched ++ (deadline, s.next_call) ∷ [];
}

unfoldable pub handle_service_request : Services → CallState → ServiceRequest → ℕ → ℕ → CallState
unfolding check_request place_call
handle_service_request services s request now timeout =
    place_call s request (now + timeout)
      (check_request (lookup request.service_name services) request)

-- `takenResponder.swap(pending->responder)` and the response with what was taken.
unfoldable pub take_and_respond : ℕ → Response → Option PendingServiceCall → CallState → CallState
take_and_respond id r none s = s
take_and_respond id r (some call) s =
    if call.has_responder
    then record s {
      calls = assign id (record call { has_responder = false }) s.calls;
      responses = s.responses ++ (id, r) ∷ [];
    }
    else s

-- The worker of a call, when `ros::service::call` returns.
unfoldable pub worker_returns : ℕ → Option Bytes → CallState → CallState
unfolding take_and_respond
worker_returns id none s = take_and_respond id call_failed (lookup id s.calls) s
worker_returns id (some content) s = take_and_respond id (respond_ok content) (lookup id s.calls) s

abbrev pub is_pending : List (ℕ × PendingServiceCall) → ℕ → Bool
is_pending calls id = elim (lookup id calls) [ none ↦ false | some call ↦ call.has_responder ]

-- The first loop of the sweep: completed calls are dropped, overdue ones collected.
unfoldable pub sweep_list : ℕ → List (ℕ × PendingServiceCall) → List (ℕ × ℕ) → List (ℕ × ℕ) × List ℕ
sweep_list now calls [] = ([], [])
sweep_list now calls ((deadline, id) ∷ watched) =
    let (stay, overdue) = sweep_list now calls watched in
    (
      if is_pending calls id
          then if leb deadline now then stay else (deadline, id) ∷ stay
          else stay,
      if is_pending calls id then if leb deadline now then id ∷ overdue else overdue else overdue,
    )

unfoldable pub sweep_collect : ℕ → CallState → CallState
unfolding sweep_list
sweep_collect now s =
    let (stay, overdue) = sweep_list now s.calls s.watched in
    record s { watched = stay; expired = s.expired ++ overdue }

-- One round of the second loop.
unfoldable pub expire : List ℕ → CallState → CallState
unfolding take_and_respond
expire [] s = s
expire (id ∷ rest) s =
    take_and_respond id timed_out (lookup id s.calls) (record s { expired = rest })

unfoldable pub sweep_expire_one : CallState → CallState
unfolding expire
sweep_expire_one s = expire s.expired s

-- The second loop.
unfoldable pub sweep_expire_all : List ℕ → CallState → CallState
unfolding take_and_respond
sweep_expire_all [] s = record s { expired = [] }
sweep_expire_all (id ∷ rest) s =
    sweep_expire_all rest (take_and_respond id timed_out (lookup id s.calls) s)

-- The whole sweep, where no worker comes between.
unfoldable pub sweep_expired_service_calls : ℕ → CallState → CallState
unfolding sweep_collect sweep_expire_all
sweep_expired_service_calls now s = let s₁ = sweep_collect now s in sweep_expire_all s₁.expired s₁
