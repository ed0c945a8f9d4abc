-- ===== src/Mqtt/Client/Rounds.antt =====
-- `Receiver` and `Run` of CMQTTClient and the invariant.
use circle_stdlib.Common.{
  ℕ, zero, suc, ◌+◌, ◌*◌, ◌≤◌, ◌≡◌, refl, ap, ◌∙◌, ◌⊎◌, inl, inr, Bool, true, false, ◌&&◌, List, [],
  ◌∷◌, Option, some, length, ◌==◌, Holds, Holds->>=, Holds-result, Holds-known, Holds-then,
  Holds-else, Bool-cases, arith, ◌>>=◌, if◌then◌else◌,
}
use circle_stdlib.Mqtt.{
  PacketType, connect, conn_ack, publish, pub_ack, pub_rec, pub_rel, pub_comp, subscribe, sub_ack,
  unsubscribe, unsub_ack, ping_req, ping_resp, disconnect, unknown,
}
use circle_stdlib.Mqtt.ReceivePacket.{
  ReceivePacket, ReceiveStatus, continue_later, packet_ok, packet_invalid, peer_disconnect,
  not_enough_memory, unknown_status, receive, basic_checks, qos_of_flags,
}
use circle_stdlib.Mqtt.ReceivePacket.Usable.{IsUsable, IsReceived, Answer, receive-Answer}
use circle_stdlib.Mqtt.Client.{
  Client, Circle, DisconnectReason, invalid_packet, from_peer, insufficient_resources,
  is_disconnected,
}
use circle_stdlib.Mqtt.Client.Connection.{close_connection}
use circle_stdlib.Mqtt.Client.Task.{
  dispatch, on_status, receive_round, receiver, sender, keep_alive_handler, run_round,
}
use circle_stdlib.Mqtt.Client.Invariant.{IsValid, IsFriendly, close_connection-IsValid}
use circle_stdlib.Mqtt.Client.Receiving.{Handling, received-IsValid}
use circle_stdlib.Mqtt.Client.Sending.{world-IsValid}
use circle_stdlib.Mqtt.Client.Acknowledging.{
  handle_conn_ack-IsValid, handle_ack-IsValid, handle_sub_ack-IsValid, handle_ping_resp-IsValid,
  handle_pub_rec-IsValid, handle_pub_rel-IsValid,
}
use circle_stdlib.Mqtt.Client.Publishing.{handle_publish-IsValid}
use circle_stdlib.Mqtt.Client.Running.{sender-IsValid, sender-idle-IsValid}
use circle_stdlib.Mqtt.Client.KeepAlive.{keep_alive_handler-IsValid}

-- The body of a PUBLISH packet of quality of service 1 or 2 has room for a packet identifier behind its
-- topic.
abbrev pub IsIdentified : PacketType → ℕ → List ℕ → Type 0
IsIdentified publish flags (hi ∷ lo ∷ more) =
    (qos_of_flags flags ≡ 0) ⊎ (hi * 256 + lo + 2 ≤ length more)
IsIdentified _ flags body = Unit {0}

acknowledgement_length : (flags f n : ℕ) → (flags == f) && (n == 2) ≡ true → n ≡ 2
acknowledgement_length flags f n e = ground arith

module _ (C : Circle) where
  open C use {World, frame_size, receive_bytes}

  -- What `Receive` accepts next is no PUBLISH packet that lacks its identifier.
  abbrev pub IsPolite : Client World → Type 0
  IsPolite c =
      (q : ReceivePacket) (w : World)
      → receive frame_size receive_bytes c.receive_packet c.world ≡ some (packet_ok, q, w)
      → (r : IsReceived frame_size q) → IsIdentified q.packet_type q.flags r.body

  -- The same in each of so many rounds of `Receiver`.
  abbrev pub StaysPolite : ℕ → Client World → Type 0
  StaysPolite zero c = Unit {0}
  StaysPolite (suc rounds) c =
      IsPolite c × ((d : Client World) → receive_round C c ≡ some (true, d) → StaysPolite rounds d)

  module _ (F : IsFriendly C) where
    two_bytes :
        (handle : Client World → Option (Client World)) (c : Client World) (body : List ℕ)
        → ((hi lo : ℕ) → Handling C c (hi ∷ lo ∷ []) → Holds (IsValid C) (handle c))
        → Handling C c body
        → length body ≡ 2
        → Holds (IsValid C) (handle c)
    two_bytes handle c [] f h e = absurd (omega arith)
    two_bytes handle c (a ∷ []) f h e = absurd (omega arith)
    two_bytes handle c (a ∷ b ∷ []) f h e = f a b h
    two_bytes handle c (a ∷ b ∷ d ∷ more) f h e = absurd (omega arith)

    -- Every received packet that has passed the checks of `Receive`, and is no PUBLISH packet that
    -- lacks its identifier, is handled without a failed assertion, and the client is valid afterwards:
    -- no handler reads behind the packet, and what it leaves in the queue can be sent. The conditions:
    -- there is memory for packet and socket objects, and `new` returns as many bytes as were asked for;
    -- the socket stores bytes, and no more than it may; callbacks and other tasks call only methods
    -- that keep the invariant; and `OnConnect` and `OnMessage` do not touch the packet that is being
    -- received, so they do not disconnect and connect again.
    pub dispatch-IsValid :
        (t : PacketType) (c : Client World) (body : List ℕ)
        → Handling C c body
        → basic_checks t c.receive_packet.flags (length body) ≡ true
        → c.receive_packet.bytes_consumed ≡ 0
        → IsIdentified t c.receive_packet.flags body
        → Holds (IsValid C) (dispatch C t c)
    unfolding dispatch basic_checks
    dispatch-IsValid connect c body h e z i = absurd (cc)
    dispatch-IsValid subscribe c body h e z i = absurd (cc)
    dispatch-IsValid unsubscribe c body h e z i = absurd (cc)
    dispatch-IsValid ping_req c body h e z i = absurd (cc)
    dispatch-IsValid disconnect c body h e z i = absurd (cc)
    dispatch-IsValid unknown c body h e z i = absurd (cc)
    dispatch-IsValid conn_ack c body h e z i =
        two_bytes (dispatch C conn_ack) c body (handle_conn_ack-IsValid C F c) h
          (acknowledgement_length c.receive_packet.flags 0 (length body) e)
    dispatch-IsValid pub_ack c body h e z i =
        two_bytes (dispatch C pub_ack) c body (handle_ack-IsValid C F 1 c) h
          (acknowledgement_length c.receive_packet.flags 0 (length body) e)
    dispatch-IsValid pub_comp c body h e z i =
        two_bytes (dispatch C pub_comp) c body (handle_ack-IsValid C F 2 c) h
          (acknowledgement_length c.receive_packet.flags 0 (length body) e)
    dispatch-IsValid unsub_ack c body h e z i =
        two_bytes (dispatch C unsub_ack) c body (handle_ack-IsValid C F 1 c) h
          (acknowledgement_length c.receive_packet.flags 0 (length body) e)
    dispatch-IsValid pub_rec c body h e z i =
        two_bytes (dispatch C pub_rec) c body (handle_pub_rec-IsValid C F c) h
          (acknowledgement_length c.receive_packet.flags 0 (length body) e)
    dispatch-IsValid pub_rel c body h e z i =
        two_bytes (dispatch C pub_rel) c body (handle_pub_rel-IsValid C F c) h
          (acknowledgement_length c.receive_packet.flags 2 (length body) e)
    dispatch-IsValid publish c [] h e z i = absurd (ground arith)
    dispatch-IsValid publish c (a ∷ []) h e z i = absurd (ground arith)
    dispatch-IsValid publish c (hi ∷ lo ∷ more) h e z i =
        handle_publish-IsValid C F c hi lo more h z i
    dispatch-IsValid sub_ack c [] h e z i = absurd (ground arith)
    dispatch-IsValid sub_ack c (a ∷ []) h e z i = absurd (ground arith)
    dispatch-IsValid sub_ack c (a ∷ b ∷ []) h e z i = absurd (ground arith)
    dispatch-IsValid sub_ack c (hi ∷ lo ∷ code ∷ more) h e z i =
        handle_sub_ack-IsValid C F c hi lo code more h
    dispatch-IsValid ping_resp c [] h e z i = handle_ping_resp-IsValid C F c h
    dispatch-IsValid ping_resp c (a ∷ more) h e z i = absurd (ground arith)

    abbrev IsOne : Bool × Client World → Type 0
    IsOne (more, c) = IsValid C c

    closing :
        (c : Client World) (reason : DisconnectReason) (q : ReceivePacket) (w : World)
        → IsValid C c
        → IsUsable frame_size q
        → Holds IsOne (
            close_connection C reason (record c { receive_packet = q; world = w }) >>= λ d.
            some (false, d))
    closing c reason q w v u =
        Holds->>= (IsValid C) IsOne
          (close_connection C reason (record c { receive_packet = q; world = w })) _
          (close_connection-IsValid C F reason (record c { receive_packet = q; world = w })
            (received-IsValid C (record c { world = w }) q (world-IsValid C c w v) u))
          (λ d v'. v')

    answered_IsOne :
        (c : Client World) (s : ReceiveStatus) (q : ReceivePacket) (w : World)
        → IsValid C c
        → is_disconnected c.status ≡ false
        → Answer frame_size s q
        → (s ≡ packet_ok
            → (r : IsReceived frame_size q) → IsIdentified q.packet_type q.flags r.body)
        → Holds IsOne (on_status C s (record c { receive_packet = q; world = w }))
    unfolding on_status
    answered_IsOne c continue_later q w v e u i =
        received-IsValid C (record c { world = w }) q (world-IsValid C c w v) u
    answered_IsOne c packet_invalid q w v e u i = closing c invalid_packet q w v u
    answered_IsOne c peer_disconnect q w v e u i = closing c from_peer q w v u
    answered_IsOne c not_enough_memory q w v e u i = closing c insufficient_resources q w v u
    answered_IsOne c unknown_status q w v e u i = absurd u
    answered_IsOne c packet_ok q w v e r i =
        Holds->>= (IsValid C) IsOne
          (dispatch C q.packet_type (record c { receive_packet = q; world = w })) _
          (dispatch-IsValid q.packet_type (record c { receive_packet = q; world = w }) r.body
            (record {
              valid =
                  received-IsValid C (record c { world = w }) q (world-IsValid C c w v)
                    r.holding.usable;
              up = e;
              holding = r.holding;
            })
            r.checked r.fresh (i refl r))
          (λ d v'. v')

    -- One round of the loop of `Receiver` on an open connection fails no assertion and keeps the
    -- invariant, whatever the peer sends but a PUBLISH packet that lacks its identifier.
    pub receive_round-IsValid :
        (c : Client World)
        → IsPolite c
        → IsValid C c
        → is_disconnected c.status ≡ false
        → Holds IsOne (receive_round C c)
    unfolding receive_round
    receive_round-IsValid c polite v e =
        let (answer, step, a) =
          Holds-result (λ r. Answer frame_size r.0 r.1)
            (receive frame_size receive_bytes c.receive_packet c.world)
            (receive-Answer frame_size receive_bytes c.receive_packet c.world F.socket v.usable) in
        finish_round answer step a
      where
        finish_round :
            (answer : ReceiveStatus × ReceivePacket × World)
            → receive frame_size receive_bytes c.receive_packet c.world ≡ some answer
            → Answer frame_size answer.0 answer.1
            → Holds IsOne (
                receive frame_size receive_bytes c.receive_packet c.world >>= λ r.
                on_status C r.0 (record c { receive_packet = r.1; world = r.2 }))
        finish_round (s, q, w) step a =
            Holds-known IsOne (receive frame_size receive_bytes c.receive_packet c.world) (s, q, w)
              _ step
              (answered_IsOne c s q w v e a
                (λ f. polite q w (step ∙ ap (λ (x : ReceiveStatus). some (x, q, w)) f)))

    open_up :
        (c : Client World) → IsValid C c → c.socket_open ≡ true → is_disconnected c.status ≡ false
    open_up c v e = elim (Bool-cases (is_disconnected c.status)) [
      | inr x ↦ x
      | inl x ↦ absurd (ground (arith, v.socket))
    ]

    continued :
        (k : Client World → Option (Client World)) (more : Bool) (d : Client World)
        → (more ≡ true → Holds (IsValid C) (k d))
        → IsValid C d
        → Holds (IsValid C) (elim more [ false ↦ some d | true ↦ k d ])
    continued k false d f v = v
    continued k true d f v = f refl

    -- So many rounds of `Receiver` fail no assertion and keep the invariant, if none of them accepts a
    -- PUBLISH packet that lacks its identifier.
    pub receiver-IsValid :
        (rounds : ℕ) (c : Client World)
        → StaysPolite rounds c
        → IsValid C c
        → Holds (IsValid C) (receiver C rounds c)
    unfolding receiver
    receiver-IsValid zero c polite v = v
    receiver-IsValid (suc rounds) c polite v =
        next c.socket_open refl (λ x p w. receiver-IsValid rounds x p w)
      where
        round_done :
            (answer : Bool × Client World)
            → receive_round C c ≡ some answer
            → IsValid C answer.1
            → ((x : Client World)
                → StaysPolite rounds x
                → IsValid C x
                → Holds (IsValid C) (receiver C rounds x))
            → Holds (IsValid C) (
                receive_round C c >>= λ r. elim r.0 [
                  | false ↦ some r.1
                  | true ↦ receiver C rounds r.1
                ])
        round_done (more, d) step v' f =
            Holds-known (IsValid C) (receive_round C c) (more, d) _ step
              (continued (receiver C rounds) more d
                (λ m. f d (polite.1 d (step ∙ ap (λ (b : Bool). some (b, d)) m)) v') v')

        next :
            (there : Bool)
            → c.socket_open ≡ there
            → ((x : Client World)
                → StaysPolite rounds x
                → IsValid C x
                → Holds (IsValid C) (receiver C rounds x))
            → Holds (IsValid C) (elim there [
              | false ↦ some c
              | true ↦ receive_round C c >>= λ r. elim r.0 [
                | false ↦ some r.1
                | true ↦ receiver C rounds r.1
              ]
            ])
        next false e f = v
        next true e f =
            let (answer, step, v') =
              Holds-result IsOne (receive_round C c)
                (receive_round-IsValid c polite.0 v (open_up c v e)) in
            round_done answer step v' f

    -- One round of `Run`, with any bounds on its loops, fails no assertion and keeps the invariant. The
    -- conditions: `Receiver` accepts in it no PUBLISH packet that lacks its identifier; there is memory
    -- for packet and socket objects, and `new` returns as many bytes as were asked for; the socket
    -- stores bytes, and no more than it may; callbacks and other tasks call only methods that keep the
    -- invariant; and `OnConnect` and `OnMessage` do not touch the packet that is being received, so
    -- they do not disconnect and connect again.
    pub run_round-IsValid :
        (rounds fuel : ℕ) (c : Client World)
        → StaysPolite rounds c
        → IsValid C c
        → Holds (IsValid C) (run_round C rounds fuel c)
    unfolding run_round
    run_round-IsValid rounds fuel c polite v =
        Holds->>= (IsValid C) (IsValid C)
          (if is_disconnected c.status
            then C.ms_sleep 200 c
            else (receiver C rounds c >>= λ c₁.
                sender C fuel c₁ >>= λ r. keep_alive_handler C r.1 >>= C.ms_sleep 50))
          C.on_loop
          (elim (Bool-cases (is_disconnected c.status)) [
            | inl e ↦ Holds-then (IsValid C) (is_disconnected c.status) _ _ e (F.sleeps 200 c v)
            | inr e ↦ Holds-else (IsValid C) (is_disconnected c.status) _ _ e (
                Holds->>= (IsValid C) (IsValid C) (receiver C rounds c) _
                  (receiver-IsValid rounds c polite v)
                  (λ c₁ v₁.
                    Holds->>= IsOne (IsValid C) (sender C fuel c₁) _ (sender_any fuel c₁ v₁)
                      (λ r v₂.
                        Holds->>= (IsValid C) (IsValid C) (keep_alive_handler C r.1) (C.ms_sleep 50)
                          (keep_alive_handler-IsValid C F r.1 v₂) (λ c₃ v₃. F.sleeps 50 c₃ v₃))))
          ])
          (λ d v'. F.loops d v')
      where
        sender_any : (fuel : ℕ) (d : Client World) → IsValid C d → Holds IsOne (sender C fuel d)
        sender_any fuel d w = elim (Bool-cases (is_disconnected d.status)) [
          | inr e ↦ sender-IsValid C F fuel d w e
          | inl e ↦ sender-idle-IsValid C F fuel d w e
        ]
