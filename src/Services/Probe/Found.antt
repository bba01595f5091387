-- ===== src/Services/Probe/Found.antt =====
-- What `retrieveServiceType` of src/service_utils.cpp returns.
use foxglove_bridge_ros.Prelude.{
  ℕ, ◌≡◌, refl, ◌∙◌, String, Bool, true, Option, none, some, List, [], ◌∷◌, lookup, string_eq,
  arith, Bool-cases, inl, inr,
}
use foxglove_bridge_ros.Options.{Checked, ok, throws}
use foxglove_bridge_ros.Services.Probe.{
  Header, Probe, Event, receives, sets_promise, looks, receive, promised, set_promise, outcome,
  look, probe_step, probe, retrieve_service_type, retrieve_from,
}
use foxglove_bridge_ros.Services.Probe.Once.{
  first_type, Answer, waiting, late, answered, receive_result, set_promise_result,
  probe-connected-IsFair,
}

Answer-ok :
    {known : Option (Option String)} {result : Option (Checked String)} (service_type : String)
    → Answer known result
    → result ≡ some (ok service_type)
    → known ≡ some (some service_type)
unfolding outcome promised
Answer-ok service_type waiting e = absurd (ground arith)
Answer-ok service_type late e = absurd (ground arith)
Answer-ok service_type (answered none) e = absurd (ground arith)
Answer-ok service_type (answered (some found)) e = ground (arith, e)

-- What the waiting thread makes of what the callback found.
abbrev pub answer_of : Option String → Checked String
answer_of none = throws "Key 'type' not found in service connection header"
answer_of (some service_type) = ok service_type

look_settled :
    (timed_out : Bool) (o : Option (Checked String)) (p : Probe) (r : Checked String)
    → o ≡ some r
    → p.result ≡ some r
    → (look timed_out o p).result ≡ some r
unfolding look
look_settled timed_out none p r e f = absurd (ground arith)
look_settled timed_out (some result) p r e f = f

settled :
    (es : List Event) (p : Probe) (r : Checked String)
    → p.result ≡ some r
    → (probe es p).result ≡ some r
unfolding probe probe_step look
settled [] p r e = e
settled (receives header ∷ es) p r e = settled es _ r (receive_result header p ∙ e)
settled (sets_promise ∷ es) p r e = settled es _ r (set_promise_result p.setting p ∙ e)
settled (looks timed_out ∷ es) p r e = settled es _ r (look_settled timed_out p.result p r e e)

outcome-promised :
    (timed_out : Bool) (found : Option String)
    → outcome timed_out (promised found) ≡ some (answer_of found)
unfolding outcome promised
outcome-promised timed_out none = refl
outcome-promised timed_out (some service_type) = refl

module _ (lookup_service : String → Option (String × ℕ)) (connect : String → ℕ → Bool)
    (name : String) where
  retrieve_from_found :
      (o : Option (String × ℕ)) (es : List Event) (service_type : String)
      → retrieve_from lookup_service connect name o es ≡ some (ok service_type)
      → (host : String) × (port : ℕ) × (o ≡ some (host, port))
        × (connect host port ≡ true)
        × (first_type es ≡ some (some service_type))
  unfolding retrieve_from
  retrieve_from_found none es service_type e = absurd (ground arith)
  retrieve_from_found (some (host, port)) es service_type e =
      elim (Bool-cases (connect host port)) [
        | inr f ↦ absurd (ground arith)
        | inl f ↦ (
          host,
          port,
          refl,
          f,
          Answer-ok service_type (probe-connected-IsFair es).1 (ground arith),
        )
      ]

  -- A type is returned only where the service was found and connected to, and then it is the type
  -- in the header that the first callback got, whatever callbacks come later and however they are
  -- interleaved with the waiting thread.
  pub retrieve_service_type_found :
      (es : List Event) (service_type : String)
      → retrieve_service_type lookup_service connect name es ≡ some (ok service_type)
      → (host : String) × (port : ℕ) × (lookup_service name ≡ some (host, port))
        × (connect host port ≡ true)
        × (first_type es ≡ some (some service_type))
  unfolding retrieve_service_type
  retrieve_service_type_found es service_type e =
      retrieve_from_found (lookup_service name) es service_type e

  -- Where the service is found and connected to, and the header is there and the promise set before
  -- the waiting thread looks, the call ends with what the header says, its type or the error for a
  -- header without one, even if the time is over, and nothing later changes that.
  pub retrieve_service_type_in_time :
      (host : String) (port : ℕ) (header : Header) (timed_out : Bool) (es : List Event)
      → lookup_service name ≡ some (host, port)
      → connect host port ≡ true
      → retrieve_service_type lookup_service connect name
          (receives header ∷ sets_promise ∷ looks timed_out ∷ es)
        ≡ some (answer_of (lookup "type" header))
  unfolding retrieve_service_type retrieve_from probe probe_step receive set_promise look promised
      outcome
  retrieve_service_type_in_time host port header timed_out es e f =
      rw (e, f) (settled es _ _ (outcome-promised timed_out (lookup "type" header)))
