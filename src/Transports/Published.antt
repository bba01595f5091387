-- ===== src/Transports/Published.antt =====
-- What src/transport_manager.cpp sends to the clients of both transports by itself:
-- `publishConnectionGraph`, `publishParameterValues`, `broadcastTime` and `cloneParameterList`; and
-- the updates of parameters, from `parameterUpdates` of src/param_interface.cpp to the callback that
-- the constructor of `Ros1FoxgloveBridge` sets.
use foxglove_bridge_ros.Prelude.{
  ℕ, ◌≡◌, refl, String, Bool, true, false, not, Option, none, some, List, [], ◌∷◌, ◌++◌, keep,
  is_some, arith, ◌∙◌, sym,
}
use foxglove_bridge_ros.Prelude.Int.{ℤ}
use foxglove_bridge_ros.Utils.{RegexEngine}
use foxglove_bridge_ros.Params.Values.{ParameterClass, RosItems}
use foxglove_bridge_ros.Params.Interface.{Master, ParamInterface, parameter_updates}

-- `G` is a connection graph.
pub data Publication (G P : Type 0) : Type 0 where
  graph : G → Publication G P
  parameters : List P → Publication G P
  time : ℕ → Publication G P

-- What was sent to each transport, newest last; there may be no gateway.
pub record Sent (G P : Type 0) : Type 0 where
  pub server : List (Publication G P)
  pub gateway : Option (List (Publication G P))

unfoldable pub clone_parameter_list : {P : Type 0} → (P → P) → List P → List P
clone_parameter_list clone [] = []
clone_parameter_list clone (p ∷ params) = clone p ∷ clone_parameter_list clone params

module _ {G P : Type 0} where
  abbrev pub send : Publication G P → List (Publication G P) → List (Publication G P)
  send p sent = sent ++ p ∷ []

  abbrev pub send_if_any :
      Publication G P → Option (List (Publication G P)) → Option (List (Publication G P))
  send_if_any p none = none
  send_if_any p (some sent) = some (send p sent)

  unfoldable pub publish_connection_graph : G → Sent G P → Sent G P
  publish_connection_graph g t = record {
    server = send (graph g) t.server;
    gateway = send_if_any (graph g) t.gateway;
  }

  -- Each transport gets a copy of its own.
  unfoldable pub publish_parameter_values : (P → P) → List P → Sent G P → Sent G P
  unfolding clone_parameter_list
  publish_parameter_values clone params t = record {
    server = send (parameters (clone_parameter_list clone params)) t.server;
    gateway = send_if_any (parameters (clone_parameter_list clone params)) t.gateway;
  }

  unfoldable pub broadcast_time : ℕ → Sent G P → Sent G P
  broadcast_time nanoseconds t = record t { server = send (time nanoseconds) t.server }

  unfoldable pub has_gateway : Sent G P → Bool
  has_gateway t = is_some t.gateway

  module _ (engine : RegexEngine String) (node_name : String) (whitelist : List engine.Regex)
      {W D : Type 0} (class : ParameterClass D P) (master : Master W D) (of_int : ℤ → D)
      (clone : P → P) where
    -- A call of the master to `paramUpdate`.
    unfoldable pub notify : ParamInterface W → RosItems D → Sent G P → Sent G P
    unfolding publish_parameter_values
    notify i params t =
        elim (parameter_updates engine node_name whitelist class master of_int i params) [
          | none ↦ t
          | some p ↦ publish_parameter_values clone (p ∷ []) t
        ]

  abbrev pub is_time : Publication G P → Bool
  is_time (time nanoseconds) = true
  is_time p = false

  keep-append :
      (xs ys : List (Publication G P))
      → keep (λ p. not (is_time p)) (xs ++ ys)
        ≡ (keep (λ p. not (is_time p)) xs ++ keep (λ p. not (is_time p)) ys)
  keep-append [] ys = refl
  keep-append (x ∷ xs) ys = ground (arith, keep-append xs ys)

  keep-time :
      (n : ℕ) (xs : List (Publication G P))
      → keep (λ p. not (is_time p)) (xs ++ time n ∷ []) ≡ keep (λ p. not (is_time p)) xs
  keep-time n [] = refl
  keep-time n (x ∷ xs) = ground (arith, keep-time n xs)

  -- The clients of the gateway were sent what those of the server were, but for the time.
  pub SeesSame : Sent G P → Type 0
  SeesSame t =
      (sent : List (Publication G P))
      → t.gateway ≡ some sent
      → sent ≡ keep (λ p. not (is_time p)) t.server

  send-SeesSame :
      (p : Publication G P) (t : Sent G P)
      → is_time p ≡ false
      → SeesSame t
      → SeesSame (record { server = send p t.server; gateway = send_if_any p t.gateway })
  unfolding SeesSame
  send-SeesSame p t e same sent g = go t.gateway refl g
    where
      go :
          (o : Option (List (Publication G P)))
          → t.gateway ≡ o
          → send_if_any p o ≡ some sent
          → sent ≡ keep (λ q. not (is_time q)) (t.server ++ p ∷ [])
      go none f h = absurd (cc h)
      go (some before) f h = ground (arith, keep-append t.server (p ∷ []), same before f, e, h)

  -- What is published keeps the two transports' clients the same, and the time is the server's.
  pub publishing-SeesSame :
      (clone : P → P) (g : G) (params : List P) (n : ℕ) (t : Sent G P)
      → SeesSame t
      → SeesSame (publish_connection_graph g t)
        × SeesSame (publish_parameter_values clone params t)
        × SeesSame (broadcast_time n t)
  unfolding publish_connection_graph publish_parameter_values broadcast_time SeesSame
  publishing-SeesSame clone g params n t same = (
    send-SeesSame (graph g) t refl same,
    send-SeesSame (parameters (clone_parameter_list clone params)) t refl same,
    λ sent e. same sent e ∙ sym (keep-time n t.server),
  )
