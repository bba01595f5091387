-- ===== src/Requests/Separate.antt =====
-- The clients of the two transports do not meet: ids are unique within a transport only
-- (src/ros1_foxglove_bridge.cpp), and who is subscribed does not depend on the other's requests.
use foxglove_bridge_ros.Prelude.{
  ℕ, ◌≡◌, refl, sym, ap, ◌∙◌, Bool, none, lookup, bool_eq, nat_eq, arith,
}
use foxglove_bridge_ros.Utils.{RegexEngine}
use foxglove_bridge_ros.Channels.Sharing.{is_subscriber, requests-subscribers}
use foxglove_bridge_ros.Channels.Session.Callbacks.{
  on_subscribe-IsCallback, on_unsubscribe-IsCallback,
}
use foxglove_bridge_ros.ClientChannels.{
  ClientState, ShapeShifter, Result, ok, throws, key_eq, key_of, on_client_message, gateway_call,
}
use foxglove_bridge_ros.Assets.{Bytes}
use foxglove_bridge_ros.Startup.Wiring.{DelegateCall}
use foxglove_bridge_ros.Requests.{
  Host, BridgeState, client_state, with_clients, with_message, delegate,
}

-- What the clients of a transport have is the same in both states, and so are the channels.
pub record Alike {S P Publisher : Type 0} (t : Bool) (b c : BridgeState S P Publisher)
    : Type 0 where
  pub channels : b.channels.channels ≡ c.channels.channels
  pub subscribers : (k d : ℕ) → is_subscriber b.channels k t d ≡ is_subscriber c.channels k t d
  pub advertised :
      (k d : ℕ) → lookup (key_of k d t) b.advertised ≡ lookup (key_of k d t) c.advertised

-- The channels are the same in both states, and so are the subscribers of a transport.
pub record SameSubscribers {S P Publisher : Type 0} (t : Bool) (b c : BridgeState S P Publisher)
    : Type 0 where
  pub channels : b.channels.channels ≡ c.channels.channels
  pub subscribers : (k d : ℕ) → is_subscriber b.channels k t d ≡ is_subscriber c.channels k t d

module _ {S P Publisher : Type 0} where
  -- Equality of states that differ only in what the clients do not see.
  pub same-Alike :
      (t : Bool) (b c : BridgeState S P Publisher)
      → b.channels ≡ c.channels
      → b.advertised ≡ c.advertised
      → Alike t b c
  same-Alike t b c e f = record {
    channels = ap (λ s. s.channels) e;
    subscribers = λ k d. ap (λ s. is_subscriber s k t d) e;
    advertised = λ k d. ap (lookup (key_of k d t)) f;
  }

  pub with_clients-advertised :
      (b : BridgeState S P Publisher) (r : Result (ClientState Publisher))
      → (with_clients b r).0.advertised ≡ (gateway_call (client_state b) r).advertised
  with_clients-advertised b (ok c) = refl
  with_clients-advertised b (throws error) = refl

  pub with_clients-channels :
      (b : BridgeState S P Publisher) (r : Result (ClientState Publisher))
      → (with_clients b r).0.channels ≡ b.channels
  with_clients-channels b (ok c) = refl
  with_clients-channels b (throws error) = refl

  pub with_message-kept :
      (b : BridgeState S P Publisher) (r : Result (Publisher × ShapeShifter))
      → ((with_message b r).0.channels ≡ b.channels)
        × ((with_message b r).0.advertised ≡ b.advertised)
  with_message-kept b (ok (publisher, message)) = (refl, refl)
  with_message-kept b (throws error) = (refl, refl)

  -- Client publishing leaves the subscriptions alone.
  with_clients-SameSubscribers :
      (t : Bool) (b c : BridgeState S P Publisher) (r q : Result (ClientState Publisher))
      → SameSubscribers t b c
      → SameSubscribers t (with_clients b r).0 (with_clients c q).0
  with_clients-SameSubscribers t b c r q a =
      let kept_b = with_clients-channels b r in
      let kept_c = with_clients-channels c q in
      record {
        channels = rw (kept_b, kept_c) a.channels;
        subscribers = λ k d. rw (kept_b, kept_c) (a.subscribers k d);
      }

  module _ {engine : RegexEngine Bytes} (host : Host Publisher engine) where
    -- Any call takes states with the same subscribers to states with the same subscribers.
    pub delegate-SameSubscribers :
        (t : Bool) (call : DelegateCall P) (b c : BridgeState S P Publisher)
        → SameSubscribers t b c
        → SameSubscribers t (delegate host call b).0 (delegate host call c).0
    unfolding delegate
    delegate-SameSubscribers t DelegateCall.on_client_connect b c a = a
    delegate-SameSubscribers t DelegateCall.on_client_disconnect b c a = a
    delegate-SameSubscribers t (DelegateCall.on_connection_graph_subscribe subscribes) b c a =
        record { channels = a.channels; subscribers = a.subscribers }
    delegate-SameSubscribers t (DelegateCall.on_subscribe k client gw sink) b c a = record {
      channels =
          (on_subscribe-IsCallback b.channels k client gw sink).0
          ∙ a.channels
          ∙ sym (on_subscribe-IsCallback c.channels k client gw sink).0;
      subscribers = λ j d. ground (
        arith,
        (requests-subscribers b.channels k client gw sink j t d).0,
        (requests-subscribers c.channels k client gw sink j t d).0,
        a.channels,
        a.subscribers j d,
      );
    }
    delegate-SameSubscribers t (DelegateCall.on_unsubscribe k client gw) b c a = record {
      channels =
          (on_unsubscribe-IsCallback b.channels k client gw).0
          ∙ a.channels
          ∙ sym (on_unsubscribe-IsCallback c.channels k client gw).0;
      subscribers = λ j d. ground (
        arith,
        (requests-subscribers b.channels k client gw none j t d).1,
        (requests-subscribers c.channels k client gw none j t d).1,
        a.subscribers j d,
      );
    }
    delegate-SameSubscribers t (DelegateCall.on_client_advertise info client gw) b c a =
        with_clients-SameSubscribers t b c _ _ a
    delegate-SameSubscribers t (DelegateCall.on_client_unadvertise channel client gw) b c a =
        with_clients-SameSubscribers t b c _ _ a
    delegate-SameSubscribers t (DelegateCall.on_client_message channel client gw bytes) b c a =
        let kept_b =
          with_message-kept b (on_client_message (client_state b) channel client gw bytes) in
        let kept_c =
          with_message-kept c (on_client_message (client_state c) channel client gw bytes) in
        record {
          channels = rw (kept_b.0, kept_c.0) a.channels;
          subscribers = λ k d. rw (kept_b.0, kept_c.0) (a.subscribers k d);
        }
    delegate-SameSubscribers t (DelegateCall.fetch_asset uri responder) b c a = record {
      channels = a.channels;
      subscribers = a.subscribers;
    }
    delegate-SameSubscribers t (DelegateCall.enqueue_parameter_op op) b c a = record {
      channels = a.channels;
      subscribers = a.subscribers;
    }
