-- ===== src/Services/Probe/Once.antt =====
-- The promise of src/service_utils.cpp is set at most once.
use foxglove_bridge_ros.Prelude.{
  ℕ, ◌+◌, ◌≤◌, ◌≡◌, refl, subst, String, Bool, true, false, Option, none, some, List, [], ◌∷◌,
  length, lookup, string_eq, arith,
}
use foxglove_bridge_ros.Options.{Checked, throws}
use foxglove_bridge_ros.Services.Probe.{
  Header, Promised, unset, Probe, Event, receives, sets_promise, looks, receive, promised,
  set_promise, outcome, look, probe_step, probe, connected,
}

-- What the first callback finds in its header.
abbrev pub first_type : List Event → Option (Option String)
first_type [] = none
first_type (receives header ∷ es) = some (lookup "type" header)
first_type (sets_promise ∷ es) = first_type es
first_type (looks timed_out ∷ es) = first_type es

-- The same, of what was found before an event and of the event.
abbrev next_type : Event → Option (Option String) → Option (Option String)
next_type (receives header) none = some (lookup "type" header)
next_type (receives header) (some found) = some found
next_type sets_promise known = known
next_type (looks timed_out) known = known

abbrev types_from : Option (Option String) → List Event → Option (Option String)
types_from known [] = known
types_from known (e ∷ es) = types_from (next_type e known) es

types_from_known :
    (found : Option String) (es : List Event) → types_from (some found) es ≡ some found
types_from_known found [] = refl
types_from_known found (receives header ∷ es) = types_from_known found es
types_from_known found (sets_promise ∷ es) = types_from_known found es
types_from_known found (looks timed_out ∷ es) = types_from_known found es

types_from-first_type : (es : List Event) → types_from none es ≡ first_type es
types_from-first_type [] = refl
types_from-first_type (receives header ∷ es) = types_from_known (lookup "type" header) es
types_from-first_type (sets_promise ∷ es) = types_from-first_type es
types_from-first_type (looks timed_out ∷ es) = types_from-first_type es

-- What the callbacks have come to: none has begun, the first is about to set the promise, or it has.
pub data Phase : Option (Option String) → Bool → List (Option String) → Promised → ℕ → Type 0 where
  idle : Phase none false [] unset 0
  won : (found : Option String) → Phase (some found) true (found ∷ []) unset 0
  done : (found : Option String) → Phase (some found) true [] (promised found) 1

abbrev pub time_out : Checked String
time_out = throws "Timed out when retrieving service type"

-- The waiting thread has no result, or a time-out, or what the first callback found.
pub data Answer : Option (Option String) → Option (Checked String) → Type 0 where
  waiting : {known : Option (Option String)} → Answer known none
  late : {known : Option (Option String)} → Answer known (some time_out)
  answered : (found : Option String) → Answer (some found) (outcome true (promised found))

abbrev pub IsFair : Option (Option String) → Probe → Type 0
IsFair known p = Phase known p.fulfilled p.setting p.promise p.sets × Answer known p.result

Answer-next_type :
    (e : Event) {known : Option (Option String)} {result : Option (Checked String)}
    → Answer known result
    → Answer (next_type e known) result
Answer-next_type e waiting = waiting
Answer-next_type e late = late
Answer-next_type (receives header) (answered found) = answered found
Answer-next_type sets_promise (answered found) = answered found
Answer-next_type (looks timed_out) (answered found) = answered found

receive-Phase :
    {known : Option (Option String)} {fulfilled : Bool} {setting : List (Option String)}
    {promise : Promised} {sets : ℕ} (result : Option (Checked String)) (header : Header)
    → Phase known fulfilled setting promise sets
    → let p = receive header (record {
      fulfilled = fulfilled;
      setting = setting;
      promise = promise;
      sets = sets;
      result = result;
    }) in
      Phase (next_type (receives header) known) p.fulfilled p.setting p.promise p.sets
unfolding receive
receive-Phase result header idle = won (lookup "type" header)
receive-Phase result header (won found) = won found
receive-Phase result header (done found) = done found

set_promise-Phase :
    {known : Option (Option String)} {fulfilled : Bool} {setting : List (Option String)}
    {promise : Promised} {sets : ℕ} (result : Option (Checked String))
    → Phase known fulfilled setting promise sets
    → let p = set_promise setting (record {
      fulfilled = fulfilled;
      setting = setting;
      promise = promise;
      sets = sets;
      result = result;
    }) in
      Phase known p.fulfilled p.setting p.promise p.sets
unfolding set_promise
set_promise-Phase result idle = idle
set_promise-Phase result (won found) = done found
set_promise-Phase result (done found) = done found

pub set_promise_result :
    (setting : List (Option String)) (p : Probe) → (set_promise setting p).result ≡ p.result
unfolding set_promise
set_promise_result [] p = refl
set_promise_result (found ∷ setting) p = refl

pub receive_result : (header : Header) (p : Probe) → (receive header p).result ≡ p.result
unfolding receive
receive_result header p = ground arith

outcome-Answer :
    {known : Option (Option String)} {fulfilled : Bool} {setting : List (Option String)}
    {promise : Promised} {sets : ℕ} (timed_out : Bool)
    → Phase known fulfilled setting promise sets
    → Answer known (outcome timed_out promise)
unfolding outcome promised
outcome-Answer true idle = late
outcome-Answer false idle = waiting
outcome-Answer true (won found) = late
outcome-Answer false (won found) = waiting
outcome-Answer timed_out (done none) = answered none
outcome-Answer timed_out (done (some service_type)) = answered (some service_type)

look-IsFair :
    {known : Option (Option String)} (timed_out : Bool) (result : Option (Checked String))
    (p : Probe)
    → p.result ≡ result
    → IsFair known p
    → IsFair known (look timed_out result p)
unfolding look
look-IsFair timed_out none p e (phase, answer) = (phase, outcome-Answer timed_out phase)
look-IsFair timed_out (some result) p e fair = fair

probe_step-IsFair :
    {known : Option (Option String)} (e : Event) (p : Probe)
    → IsFair known p
    → IsFair (next_type e known) (probe_step e p)
unfolding probe_step
probe_step-IsFair (receives header) p (phase, answer) = (
  receive-Phase p.result header phase,
  rw (receive_result header p) (Answer-next_type (receives header) answer),
)
probe_step-IsFair sets_promise p (phase, answer) =
    (set_promise-Phase p.result phase, rw (set_promise_result p.setting p) answer)
probe_step-IsFair (looks timed_out) p fair = look-IsFair timed_out p.result p refl fair

probe-IsFair :
    (es : List Event) (known : Option (Option String)) (p : Probe)
    → IsFair known p
    → IsFair (types_from known es) (probe es p)
unfolding probe
probe-IsFair [] known p fair = fair
probe-IsFair (e ∷ es) known p fair =
    probe-IsFair es (next_type e known) (probe_step e p) (probe_step-IsFair e p fair)

pub probe-connected-IsFair : (es : List Event) → IsFair (first_type es) (probe es connected)
probe-connected-IsFair es =
    subst (λ known. IsFair known (probe es connected)) (types_from-first_type es)
      (probe-IsFair es none connected (idle, waiting))

Phase-sets :
    {known : Option (Option String)} {fulfilled : Bool} {setting : List (Option String)}
    {promise : Promised} {sets : ℕ}
    → Phase known fulfilled setting promise sets
    → length setting + sets ≤ 1
Phase-sets idle = omega arith
Phase-sets (won found) = omega arith
Phase-sets (done found) = omega arith

-- However often the header callback runs, and whenever: the promise is set at most once, also by
-- the callbacks that are about to set it. A second time would throw.
pub promise_set_once :
    (es : List Event) → let p = probe es connected in length p.setting + p.sets ≤ 1
promise_set_once es = Phase-sets (probe-connected-IsFair es).0
