-- ===== src/Mqtt/Client/Sessions.antt =====
-- Calls of the application and rounds of the task of CMQTTClient, in any order.
use circle_stdlib.Common.{
  ℕ, ◌≤◌, ◌<◌, ◌≡◌, Bool, true, List, [], ◌∷◌, Option, some, length, ◌>>=◌, Holds, Holds-result,
}
use circle_stdlib.Mqtt.Client.{Client, Circle, is_disconnected}
use circle_stdlib.Mqtt.Client.Requests.{
  ConnectOptions, connect_to, disconnect_from, subscribe_to, unsubscribe_from, publish_message,
}
use circle_stdlib.Mqtt.Client.Task.{run_round}
use circle_stdlib.Mqtt.Client.Invariant.{IsValid, IsFriendly}
use circle_stdlib.Mqtt.Client.Methods.{
  disconnect_from-IsValid, subscribe_to-IsValid, unsubscribe_from-IsValid, publish_message-IsValid,
}
use circle_stdlib.Mqtt.Client.Connecting.{connect_to-IsValid}
use circle_stdlib.Mqtt.Client.ConnectPacket.{IsWritable}
use circle_stdlib.Mqtt.Client.Rounds.{StaysPolite, run_round-IsValid}

pub data Action : Type 0 where
  connect_with : ConnectOptions → Action
  disconnect_with : Bool → Action
  subscribe_with : List ℕ → ℕ → Action
  unsubscribe_with : List ℕ → Action
  publish_with : List ℕ → List ℕ → ℕ → Bool → Action
  -- a round of `Run`, with the bounds on its loops
  task_round : ℕ → ℕ → Action

module _ (C : Circle) where
  open C use {World}

  abbrev pub perform : Action → Client World → Option (Client World)
  perform (connect_with o) c = connect_to C o c
  perform (disconnect_with force) c = disconnect_from C force c
  perform (subscribe_with topic qos) c = subscribe_to C topic qos c
  perform (unsubscribe_with topic) c = unsubscribe_from C topic c
  perform (publish_with topic payload qos retain) c = publish_message C topic payload qos retain c
  perform (task_round rounds fuel) c = run_round C rounds fuel c

  abbrev pub perform_all : List Action → Client World → Option (Client World)
  perform_all [] c = some c
  perform_all (a ∷ rest) c = perform a c >>= λ d. perform_all rest d

  -- What the documentation of the methods asks for, and that the broker sends no PUBLISH packet that lacks
  -- its identifier.
  abbrev pub IsAllowed : Action → Client World → Type 0
  IsAllowed (connect_with o) c = IsWritable o × (is_disconnected c.status ≡ true)
  IsAllowed (disconnect_with force) c = Unit
  IsAllowed (subscribe_with topic qos) c = (length topic < 65536) × (qos ≤ 2)
  IsAllowed (unsubscribe_with topic) c = length topic < 65536
  IsAllowed (publish_with topic payload qos retain) c =
      (length topic < 65536) × (length payload < 2147483648) × (qos ≤ 2)
  IsAllowed (task_round rounds fuel) c = StaysPolite C rounds c

  -- Each action is allowed when its turn comes.
  abbrev pub AreAllowed : List Action → Client World → Type 0
  AreAllowed [] c = Unit
  AreAllowed (a ∷ rest) c =
      IsAllowed a c × ((d : Client World) → perform a c ≡ some d → AreAllowed rest d)

  perform-IsValid :
      (a : Action) (c : Client World)
      → IsFriendly C
      → ((w : World) → length (C.default_identifier w).0 < 65536)
      → IsAllowed a c
      → IsValid C c
      → Holds (IsValid C) (perform a c)
  perform-IsValid (connect_with o) c F n k v = connect_to-IsValid C F o c k.0 n k.1 v
  perform-IsValid (disconnect_with force) c F n k v = disconnect_from-IsValid C F force c v
  perform-IsValid (subscribe_with topic qos) c F n k v =
      subscribe_to-IsValid C F topic qos c k.0 k.1 v
  perform-IsValid (unsubscribe_with topic) c F n k v = unsubscribe_from-IsValid C F topic c k v
  perform-IsValid (publish_with topic payload qos retain) c F n k v =
      publish_message-IsValid C F topic payload qos retain c k.0 k.1 k.2 v
  perform-IsValid (task_round rounds fuel) c F n k v = run_round-IsValid C F rounds fuel c k v

  -- Whatever the application calls between the rounds of the task of a client that satisfies the
  -- invariant, in any order, no assertion fails and the invariant holds. The conditions: arguments are as
  -- they are documented, a default identifier has less than 65536 bytes, `Connect` is called on a
  -- disconnected client only, and `Receiver` accepts in no round a PUBLISH packet that lacks its
  -- identifier; there is memory for packet and socket objects, and `new` returns as many bytes as were
  -- asked for; the socket stores bytes, and no more than it may; callbacks and other tasks call only
  -- methods that keep the invariant; and `OnConnect` and `OnMessage` do not touch the packet that is
  -- being received, so they do not disconnect and connect again.
  pub perform_all-IsValid :
      (actions : List Action) (c : Client World)
      → IsFriendly C
      → ((w : World) → length (C.default_identifier w).0 < 65536)
      → AreAllowed actions c
      → IsValid C c
      → Holds (IsValid C) (perform_all actions c)
  perform_all-IsValid [] c F n k v = v
  perform_all-IsValid (a ∷ rest) c F n k v =
      let (d, e, v') = Holds-result (IsValid C) (perform a c) (perform-IsValid a c F n k.0 v) in
      rw e (perform_all-IsValid rest d F n (k.1 d e) v')
