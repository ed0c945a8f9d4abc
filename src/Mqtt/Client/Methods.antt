-- ===== src/Mqtt/Client/Methods.antt =====
-- The public methods of CMQTTClient on a client that satisfies the invariant.
use circle_stdlib.Common.{
  ℕ, zero, suc, ◌≤◌, ◌<◌, ◌≡◌, ◌≢◌, refl, ap, ◌∙◌, ◌⊎◌, inl, inr, Bool, true, false, List, Option,
  some, length, le→leb, Holds, Holds->>=, Holds-mono, Bool-cases, arith, ◌==◌, ◌>>=◌, if◌then◌else◌,
  eq→==, ne→==, ℕ_discrete,
}
use circle_stdlib.Mqtt.{PacketType, publish, subscribe, unsubscribe, disconnect}
use circle_stdlib.Mqtt.SendPacket.{SendPacket, set_flags}
use circle_stdlib.Mqtt.SendPacket.Body.{Field, byte, word, string, bytes, field_bytes, append}
use circle_stdlib.Mqtt.SendPacket.Sendable.{
  IsSendable, SameKind, append-IsSendable, set_flags-IsSendable,
}
use circle_stdlib.Mqtt.Client.{Client, Circle, from_application, send_failed, is_disconnected}
use circle_stdlib.Mqtt.Client.Connection.{
  is_activity, new_packet, heap_packet, close_connection, send_packet, take_identifier,
}
use circle_stdlib.Mqtt.Client.Requests.{
  build_subscribe, build_unsubscribe, build_publish, publish_flags, await, send_request,
  disconnect_from, subscribe_to, unsubscribe_from, publish_message,
}
use circle_stdlib.Mqtt.Client.Invariant.{IsValid, IsFriendly, close_connection-IsValid}
use circle_stdlib.Mqtt.Client.Sending.{Sent, send_packet-IsValid}
use circle_stdlib.Mqtt.Client.Retained.{
  await-IsValid, new_packet_lem, heap_packet_lem, take_identifier_lem,
}

-- A packet made from `p` by appending to it.
abbrev pub Built : PacketType → SendPacket → Type 0
Built t q = IsSendable q × (q.packet_type ≡ t)

pub append-Built :
    (t : PacketType) (p : SendPacket) (f : Field)
    → Built t p
    → length (field_bytes f) < 2147483648
    → Holds (Built t) (append p f)
append-Built t p f (s, e) h =
    Holds-mono (λ q. IsSendable q × SameKind p q) (Built t) (append p f)
      (λ q (s', k). (s', k.0 ∙ e)) (append-IsSendable p f s h)

subscribe-Built :
    (t : PacketType) (p : SendPacket) (id : ℕ) (topic : List ℕ) (qos : ℕ)
    → Built t p
    → length topic < 65536
    → Holds (Built t) (build_subscribe id topic qos p)
unfolding build_subscribe append
subscribe-Built t p id topic qos b h =
    Holds->>= (Built t) (Built t) (append p (word id)) _
      (append-Built t p (word id) b (omega arith))
      (λ p₁ b₁.
        Holds->>= (Built t) (Built t) (append p₁ (string topic)) _
          (append-Built t p₁ (string topic) b₁ (omega arith))
          (λ p₂ b₂. append-Built t p₂ (byte qos) b₂ (omega arith)))

unsubscribe-Built :
    (t : PacketType) (p : SendPacket) (id : ℕ) (topic : List ℕ)
    → Built t p
    → length topic < 65536
    → Holds (Built t) (build_unsubscribe id topic p)
unfolding build_unsubscribe append
unsubscribe-Built t p id topic b h =
    Holds->>= (Built t) (Built t) (append p (word id)) _
      (append-Built t p (word id) b (omega arith))
      (λ p₁ b₁. append-Built t p₁ (string topic) b₁ (omega arith))

publish_flags-lt : (qos : ℕ) (retain : Bool) → qos ≤ 2 → publish_flags qos retain < 16
unfolding publish_flags
publish_flags-lt zero true h = omega arith
publish_flags-lt zero false h = omega arith
publish_flags-lt (suc zero) true h = omega arith
publish_flags-lt (suc zero) false h = omega arith
publish_flags-lt (suc (suc zero)) true h = omega arith
publish_flags-lt (suc (suc zero)) false h = omega arith
publish_flags-lt (suc (suc (suc n))) retain h = absurd (omega arith)

publish-Built :
    (p : SendPacket) (id : ℕ) (topic payload : List ℕ) (qos : ℕ) (retain : Bool)
    → Built publish p
    → length topic < 65536
    → length payload < 2147483648
    → qos ≤ 2
    → Holds (Built publish) (build_publish id topic payload qos retain p)
unfolding build_publish append
publish-Built p id topic payload qos retain (s, e) h l q =
    Holds->>= _ (Built publish) (set_flags p (publish_flags qos retain)) _
      (set_flags-IsSendable p (publish_flags qos retain) s e (publish_flags-lt qos retain q))
      (λ p₁ (s₁, e₁, _).
        Holds->>= (Built publish) (Built publish) (append p₁ (string topic)) _
          (append-Built publish p₁ (string topic) (s₁, e₁) (omega arith))
          (λ p₂ b₂.
            Holds->>= (Built publish) (Built publish) (append p₂ (word id)) _
              (append-Built publish p₂ (word id) b₂ (omega arith))
              (λ p₃ b₃. elim (Bool-cases (length payload == 0)) [
                | inl z ↦ simp z b₃
                | inr z ↦ simp z (append-Built publish p₃ (bytes payload) b₃ l)
              ])))

module _ (C : Circle) where
  open C use {World}

  take_identifier-IsValid : (c : Client World) → IsValid C c → IsValid C (take_identifier C c).1
  unfolding take_identifier
  take_identifier-IsValid c v = record {
    socket = v.socket;
    idle = v.idle;
    timer = v.timer;
    waiting = v.waiting;
    size = v.size;
    next_range = omega (arith, (take_identifier_lem C c v.next_range).1);
    next_nonzero = inr (omega (arith, (take_identifier_lem C c v.next_range).1));
    queued = v.queued;
    usable = v.usable;
  }

  module _ (F : IsFriendly C) where
    keep_request :
        (p q : SendPacket) (qos id : ℕ) (c d : Client World) (sent : Bool)
        → Sent C c p (sent, q, d)
        → is_activity p.packet_type ≡ true
        → qos ≤ 2
        → Holds (IsValid C) (
            if sent
            then some (if qos == 0 then d else await C q qos id d)
            else close_connection C send_failed d)
    keep_request p q qos id c d false (s, k, v, r, up) a h =
        close_connection-IsValid C F send_failed d v
    keep_request p q qos id c d true (s, k, v, r, up) a h = elim (ℕ_discrete qos 0) [
      | yes e ↦ simp (eq→== qos 0 e) v
      | no e ↦ simp (ne→== qos 0 e) (
          await-IsValid C q qos id d v (ap is_disconnected r.status ∙ up refl) s
            (ap is_activity k.0 ∙ a) (split qos h e))
    ]
      where
        split : (n : ℕ) → n ≤ 2 → n ≢ 0 → (n ≡ 1) ⊎ (n ≡ 2)
        split n h e = elim (ℕ_discrete n 1) [ yes f ↦ inl f | no f ↦ inr (omega arith) ]

    send_request-IsValid :
        (p : SendPacket) (qos id : ℕ) (c : Client World)
        → IsValid C c
        → IsSendable p
        → is_activity p.packet_type ≡ true
        → qos ≤ 2
        → Holds (IsValid C) (send_request C p qos id c)
    unfolding send_request
    send_request-IsValid p qos id c v s a h =
        Holds->>= (Sent C c p) (IsValid C) (send_packet C p c) _
          (send_packet-IsValid C c p v s (inl a))
          (λ (sent, q, d) r. keep_request p q qos id c d sent r a h)

    -- A packet with a new identifier is built and sent.
    request-IsValid :
        (t : PacketType) (qos id : ℕ) (build : SendPacket → Option SendPacket) (c : Client World)
        → IsValid C c
        → is_activity t ≡ true
        → qos ≤ 2
        → ((p : SendPacket) → Built t p → Holds (Built t) (build p))
        → Holds (IsValid C) (
            heap_packet C t c.max_packet_size c >>= λ r.
            build r.0 >>= λ p. send_request C p qos id r.1)
    request-IsValid t qos id build c v a h b =
        Holds->>= _ (IsValid C) (heap_packet C t c.max_packet_size c) _
          (heap_packet_lem C t c.max_packet_size c F v v.size.0 v.size.1)
          (λ (p, d) (s, e, v', _, _).
            Holds->>= (Built t) (IsValid C) (build p) _ (b p (s, e))
              (λ q (s', e'). send_request-IsValid q qos id d v' s' (ap is_activity e' ∙ a) h))

    -- `Subscribe` keeps the invariant and fails no assertion, for a topic of less than 65536 bytes and a
    -- quality of service of at most 2, in any state, the disconnected one included.
    pub subscribe_to-IsValid :
        (topic : List ℕ) (qos : ℕ) (c : Client World)
        → length topic < 65536
        → qos ≤ 2
        → IsValid C c
        → Holds (IsValid C) (subscribe_to C topic qos c)
    unfolding subscribe_to
    subscribe_to-IsValid topic qos c l h v =
        let (id, c₁) = take_identifier C c in
        simp (le→leb qos 2 h) (
          request-IsValid subscribe 1 id (build_subscribe id topic qos) c₁
            (take_identifier-IsValid c v) refl (omega arith)
            (λ p b. subscribe-Built subscribe p id topic qos b l))

    -- `Unsubscribe` keeps the invariant and fails no assertion, for a topic of less than 65536 bytes.
    pub unsubscribe_from-IsValid :
        (topic : List ℕ) (c : Client World)
        → length topic < 65536
        → IsValid C c
        → Holds (IsValid C) (unsubscribe_from C topic c)
    unfolding unsubscribe_from
    unsubscribe_from-IsValid topic c l v =
        let (id, c₁) = take_identifier C c in
        request-IsValid unsubscribe 1 id (build_unsubscribe id topic) c₁
          (take_identifier-IsValid c v) refl (omega arith)
          (λ p b. unsubscribe-Built unsubscribe p id topic b l)

    -- `Publish` keeps the invariant and fails no assertion, for a topic of less than 65536 bytes, a
    -- payload of less than 2 ^ 31 bytes and a quality of service of at most 2.
    pub publish_message-IsValid :
        (topic payload : List ℕ) (qos : ℕ) (retain : Bool) (c : Client World)
        → length topic < 65536
        → length payload < 2147483648
        → qos ≤ 2
        → IsValid C c
        → Holds (IsValid C) (publish_message C topic payload qos retain c)
    unfolding publish_message
    publish_message-IsValid topic payload qos retain c l m h v =
        let (id, c₁) = take_identifier C c in
        simp (le→leb qos 2 h) (
          request-IsValid publish qos id (build_publish id topic payload qos retain) c₁
            (take_identifier-IsValid c v) refl h
            (λ p b. publish-Built p id topic payload qos retain b l m h))

    -- `Disconnect`, with or without a DISCONNECT packet, keeps the invariant and fails no assertion.
    pub disconnect_from-IsValid :
        (force : Bool) (c : Client World)
        → IsValid C c
        → Holds (IsValid C) (disconnect_from C force c)
    unfolding disconnect_from
    disconnect_from-IsValid true c v = close_connection-IsValid C F from_application c v
    disconnect_from-IsValid false c v =
        Holds->>= _ (IsValid C) (new_packet C disconnect 128 c) _
          (new_packet_lem C disconnect 128 c F v (omega arith) (omega arith))
          (λ (p, d) (s, e, v', _, _).
            Holds->>= (Sent C d p) (IsValid C) (send_packet C p d) _
              (send_packet-IsValid C d p v' s (inr e))
              (λ (sent, q, d') (_, _, v'', _, _).
                close_connection-IsValid C F from_application d' v''))
