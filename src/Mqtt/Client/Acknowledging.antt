-- ===== src/Mqtt/Client/Acknowledging.antt =====
-- The handlers of CONNACK, PUBACK, PUBREC, PUBREL, PUBCOMP, SUBACK, UNSUBACK and PINGRESP packets, and the
-- invariant of CMQTTClient.
use circle_stdlib.Common.{
  ℕ, ◌+◌, ◌*◌, ◌≡◌, refl, sym, ap, ◌∙◌, inl, inr, Bool, true, false, not, List, [], ◌∷◌, some, ltb,
  Holds, Holds->>=, Holds-mono, Bool-cases, arith, ◌==◌, ◌>>=◌, if◌then◌else◌, bit_and, dec_lt,
  lt→ltb, ge→ltb,
}
use circle_stdlib.Mqtt.{PacketType, pub_rel, pub_comp}
use circle_stdlib.Mqtt.SendPacket.{SendPacket}
use circle_stdlib.Mqtt.SendPacket.Body.{word, append}
use circle_stdlib.Mqtt.SendPacket.Sendable.{IsSendable, SameKind, append-IsSendable}
use circle_stdlib.Mqtt.ReceivePacket.Reads.{moved}
use circle_stdlib.Mqtt.Client.{
  Client, Circle, ConnectStatus, connected, invalid_packet, packet_identifier_error, send_failed,
  subscribe_error, is_disconnected,
}
use circle_stdlib.Mqtt.Client.Queue.{remove_packet, remove_identifier}
use circle_stdlib.Mqtt.Client.Connection.{is_activity, new_packet, close_connection, send_packet}
use circle_stdlib.Mqtt.Client.Requests.{await}
use circle_stdlib.Mqtt.Client.Handlers.{
  is_pending, reason_of_code, lacks_qos, finish, handle_conn_ack, reply, heap_reply, acknowledge,
  handle_ack, handle_pub_rec, handle_pub_rel, handle_sub_ack, handle_ping_resp,
}
use circle_stdlib.Mqtt.Client.Invariant.{IsQueued, IsValid, IsFriendly, close_connection-IsValid}
use circle_stdlib.Mqtt.Client.Sending.{
  SameRest, Sent, send_packet-IsValid, start_timer-IsValid, world-IsValid,
}
use circle_stdlib.Mqtt.Client.Retained.{
  queue-IsValid, await-IsValid, new_packet_lem, remove_packet-All,
}
use circle_stdlib.Mqtt.Client.Receiving.{
  Received, Handling, connected-IsValid, store-IsValid, finish_rest, moved_on, read_byte, read_word,
}

pending_up : (s : ConnectStatus) → is_pending s ≡ true → is_disconnected s ≡ false
pending_up s e = ground arith

module _ (C : Circle) where
  open C use {World, hz, frame_size}

  module _ (F : IsFriendly C) where
    -- A CONNACK packet leaves a valid client, in every state and for every return code.
    pub handle_conn_ack-IsValid :
        (c : Client World) (flags code : ℕ)
        → Handling C c (flags ∷ code ∷ [])
        → Holds (IsValid C) (handle_conn_ack C c)
    unfolding handle_conn_ack
    handle_conn_ack-IsValid c flags code h =
        let h₁ = moved_on C c (flags ∷ []) (code ∷ []) h in
        let c₁ : Client World = record c { receive_packet = moved c.receive_packet 1 } in
        let h₂ = moved_on C c₁ (code ∷ []) [] h₁ in
        let c₂ : Client World = record c₁ { receive_packet = moved c₁.receive_packet 1 } in
        simp (read_byte C c flags (code ∷ []) h, read_byte C c₁ code [] h₁)
          (Holds->>= (Received C c₂) (IsValid C) (finish C c₂) _ (finish_rest C c₂ [] h₂)
            (λ d r. answered d r.0))
      where
        answered :
            (d : Client World)
            → IsValid C d
            → Holds (IsValid C) (
                if not (is_pending d.status)
                then close_connection C invalid_packet d
                else if code == 0
                then C.on_connect (not (bit_and flags 1 == 0)) (record d { status = connected })
                else close_connection C (reason_of_code code) d)
        answered d v = elim (Bool-cases (is_pending d.status)) [
          | inr e ↦ simp e (close_connection-IsValid C F invalid_packet d v)
          | inl e ↦ elim (Bool-cases (code == 0)) [
            | inr f ↦ simp (e, f) (close_connection-IsValid C F (reason_of_code code) d v)
            | inl f ↦
                simp (e, f)
                  (Holds-mono _ (IsValid C)
                    (C.on_connect (not (bit_and flags 1 == 0)) (record d { status = connected }))
                    (λ d' (v', _). v')
                    (F.connects (not (bit_and flags 1 == 0)) (record d { status = connected })
                      (connected-IsValid C d v (pending_up d.status e))))
          ]
        ]

    acknowledge-IsValid :
        (id qos : ℕ) (c : Client World)
        → IsValid C c
        → is_disconnected c.status ≡ false
        → Holds (IsValid C) (acknowledge C id qos c)
    unfolding acknowledge
    acknowledge-IsValid id qos c v e =
        let rest : List SendPacket = (remove_packet id c.queue).1 in
        let v' : IsValid C (record c { queue = rest }) =
          queue-IsValid C c rest v e (remove_packet-All IsQueued id c.queue v.queued) in
        elim (Bool-cases (lacks_qos (remove_packet id c.queue).0 qos)) [
          | inl f ↦
              simp f (
                close_connection-IsValid C F packet_identifier_error (record c { queue = rest }) v')
          | inr f ↦ simp f v'
        ]

    -- A PUBACK, PUBCOMP or UNSUBACK packet leaves a valid client, whatever its identifier.
    pub handle_ack-IsValid :
        (qos : ℕ) (c : Client World) (hi lo : ℕ)
        → Handling C c (hi ∷ lo ∷ [])
        → Holds (IsValid C) (handle_ack C qos c)
    unfolding handle_ack
    handle_ack-IsValid qos c hi lo h =
        let h₁ = moved_on C c (hi ∷ lo ∷ []) [] h in
        let c₁ : Client World = record c { receive_packet = moved c.receive_packet 2 } in
        simp (read_word C c hi lo [] h) (
          Holds->>= (Received C c₁) (IsValid C) (finish C c₁) _ (finish_rest C c₁ [] h₁)
            (λ d r. acknowledge-IsValid (hi * 256 + lo) qos d r.0 (ap is_disconnected r.1 ∙ h.up)))

    -- A SUBACK packet leaves a valid client, whatever it says and whatever follows its return code.
    pub handle_sub_ack-IsValid :
        (c : Client World) (hi lo code : ℕ) (more : List ℕ)
        → Handling C c (hi ∷ lo ∷ code ∷ more)
        → Holds (IsValid C) (handle_sub_ack C c)
    unfolding handle_sub_ack
    handle_sub_ack-IsValid c hi lo code more h =
        let h₁ = moved_on C c (hi ∷ lo ∷ []) (code ∷ more) h in
        let c₁ : Client World = record c { receive_packet = moved c.receive_packet 2 } in
        let h₂ = moved_on C c₁ (code ∷ []) more h₁ in
        let c₂ : Client World = record c₁ { receive_packet = moved c₁.receive_packet 1 } in
        simp (read_word C c hi lo (code ∷ more) h, read_byte C c₁ code more h₁)
          (Holds->>= (Received C c₂) (IsValid C) (finish C c₂) _ (finish_rest C c₂ more h₂) (λ d r.
            elim (Bool-cases (ltb 2 code)) [
              | inl f ↦ simp f (close_connection-IsValid C F subscribe_error d r.0)
              | inr f ↦
                  simp f
                    (acknowledge-IsValid (hi * 256 + lo) 1 d r.0 (ap is_disconnected r.1 ∙ h.up))
            ]))

    -- A PINGRESP packet leaves a valid client.
    pub handle_ping_resp-IsValid :
        (c : Client World) → Handling C c [] → Holds (IsValid C) (handle_ping_resp C c)
    unfolding handle_ping_resp
    handle_ping_resp-IsValid c h =
        Holds->>= (Received C c) (IsValid C) (finish C c) _ (finish_rest C c [] h) (λ d r.
          let v = connected-IsValid C d r.0 (ap is_disconnected r.1 ∙ h.up) in
          elim (dec_lt 0 d.keep_alive_seconds) [
            | yes k ↦ simp (lt→ltb 0 d.keep_alive_seconds k) (
                start_timer-IsValid C (d.keep_alive_seconds * hz) (record d { status = connected })
                  v k refl)
            | no k ↦ simp (ge→ltb 0 d.keep_alive_seconds (omega arith)) v
          ])

    -- What a reply leaves.
    abbrev pub Replied : PacketType → Client World → Bool × SendPacket × Client World → Type 0
    Replied t c (sent, q, d) =
        IsSendable q
        × (q.packet_type ≡ t)
        × IsValid C d
        × SameRest C c d
        × (sent ≡ true → is_disconnected c.status ≡ false)

    pub reply-IsValid :
        (t : PacketType) (id : ℕ) (c : Client World)
        → IsValid C c
        → is_activity t ≡ true
        → Holds (Replied t c) (reply C t id c)
    unfolding reply append
    reply-IsValid t id c v a =
        Holds->>= _ (Replied t c) (new_packet C t 128 c) _
          (new_packet_lem C t 128 c F v (omega arith) (omega arith))
          (λ (p, d) (s, e, v', r, _).
            Holds->>= (λ q. IsSendable q × SameKind p q) (Replied t c) (append p (word id)) _
              (append-IsSendable p (word id) s (omega arith))
              (λ q (s', k).
                Holds-mono (Sent C d q) (Replied t c) (send_packet C q d)
                  (λ (sent, q', d') (s'', k', v'', r', up). (
                    s'',
                    k'.0 ∙ k.0 ∙ e,
                    v'',
                    record {
                      received = r'.received ∙ r.received;
                      queue = r'.queue ∙ r.queue;
                      store = r'.store ∙ r.store;
                      status = r'.status ∙ r.status;
                      topic = r'.topic ∙ r.topic;
                    },
                    λ x. ap is_disconnected (sym r.status) ∙ up x,
                  ))
                  (send_packet-IsValid C d q v' s' (inl (ap is_activity (k.0 ∙ e) ∙ a)))))

    heap_reply-IsValid :
        (t : PacketType) (id : ℕ) (c : Client World)
        → IsValid C c
        → is_activity t ≡ true
        → Holds (Replied t c) (heap_reply C t id c)
    unfolding heap_reply
    heap_reply-IsValid t id c v a =
        let c' : Client World = record c { world = (C.has_memory c.world).1 } in
        rw (F.objects c.world) (
          Holds-mono (Replied t c') (Replied t c) (reply C t id c')
            (λ (sent, q, d) (s, e, v', k, up). (
              s,
              e,
              v',
              record {
                received = k.received;
                queue = k.queue;
                store = k.store;
                status = k.status;
                topic = k.topic;
              },
              up,
            ))
            (reply-IsValid t id c' (world-IsValid C c (C.has_memory c.world).1 v) a))

    -- A PUBREC packet leaves a valid client: the packet that it acknowledges is replaced in the queue
    -- by a PUBREL packet.
    pub handle_pub_rec-IsValid :
        (c : Client World) (hi lo : ℕ)
        → Handling C c (hi ∷ lo ∷ [])
        → Holds (IsValid C) (handle_pub_rec C c)
    unfolding handle_pub_rec
    handle_pub_rec-IsValid c hi lo h =
        let h₁ = moved_on C c (hi ∷ lo ∷ []) [] h in
        let c₁ : Client World = record c { receive_packet = moved c.receive_packet 2 } in
        simp (read_word C c hi lo [] h) (
          Holds->>= (Received C c₁) (IsValid C) (finish C c₁) _ (finish_rest C c₁ [] h₁)
            (λ d r. recorded (hi * 256 + lo) d r.0 (ap is_disconnected r.1 ∙ h.up)))
      where
        released :
            (id : ℕ) (d : Client World)
            → IsValid C d
            → Holds (IsValid C) (
                heap_reply C pub_rel id d >>= λ r.
                if r.0 then some (await C r.1 2 id r.2) else close_connection C send_failed r.2)
        released id d v =
            Holds->>= (Replied pub_rel d) (IsValid C) (heap_reply C pub_rel id d) _
              (heap_reply-IsValid pub_rel id d v refl)
              (λ (sent, p, d') (s, k, v', r, up). elim (Bool-cases sent) [
                | inr f ↦ simp f (close_connection-IsValid C F send_failed d' v')
                | inl f ↦ simp f (
                    await-IsValid C p 2 id d' v' (ap is_disconnected r.status ∙ up f) s
                      (ap is_activity k) (inr refl))
              ])

        recorded :
            (id : ℕ) (d : Client World)
            → IsValid C d
            → is_disconnected d.status ≡ false
            → Holds (IsValid C) (
                if lacks_qos (remove_packet id d.queue).0 2
                then close_connection C packet_identifier_error
                    (record d { queue = (remove_packet id d.queue).1 })
                else (heap_reply C pub_rel id (record d { queue = (remove_packet id d.queue).1 })
                    >>= λ r.
                        if r.0
                        then some (await C r.1 2 id r.2)
                        else close_connection C send_failed r.2))
        recorded id d v e =
            let rest : List SendPacket = (remove_packet id d.queue).1 in
            let v' : IsValid C (record d { queue = rest }) =
              queue-IsValid C d rest v e (remove_packet-All IsQueued id d.queue v.queued) in
            elim (Bool-cases (lacks_qos (remove_packet id d.queue).0 2)) [
              | inl f ↦ simp f (
                  close_connection-IsValid C F packet_identifier_error (record d { queue = rest })
                    v')
              | inr f ↦ simp f (released id (record d { queue = rest }) v')
            ]

    -- A PUBREL packet leaves a valid client: its identifier leaves the store, and a PUBCOMP packet
    -- answers it.
    pub handle_pub_rel-IsValid :
        (c : Client World) (hi lo : ℕ)
        → Handling C c (hi ∷ lo ∷ [])
        → Holds (IsValid C) (handle_pub_rel C c)
    unfolding handle_pub_rel
    handle_pub_rel-IsValid c hi lo h =
        let h₁ = moved_on C c (hi ∷ lo ∷ []) [] h in
        let c₁ : Client World = record c { receive_packet = moved c.receive_packet 2 } in
        let id : ℕ = hi * 256 + lo in
        simp (read_word C c hi lo [] h) (
          Holds->>= (Received C c₁) (IsValid C) (finish C c₁) _ (finish_rest C c₁ [] h₁) (λ d r.
            elim (Bool-cases (id == 0)) [
              | inl f ↦ simp f (close_connection-IsValid C F invalid_packet d r.0)
              | inr f ↦ simp f (completed id d r.0)
            ]))
      where
        completed :
            (id : ℕ) (d : Client World)
            → IsValid C d
            → Holds (IsValid C) (
                reply C pub_comp id d >>= λ r.
                if r.0
                then some (record r.2 { store = remove_identifier id r.2.store })
                else close_connection C send_failed r.2)
        completed id d v =
            Holds->>= (Replied pub_comp d) (IsValid C) (reply C pub_comp id d) _
              (reply-IsValid pub_comp id d v refl)
              (λ (sent, p, d') (s, k, v', r, up). elim (Bool-cases sent) [
                | inr f ↦ simp f (close_connection-IsValid C F send_failed d' v')
                | inl f ↦ simp f (
                    store-IsValid C d' (remove_identifier id d'.store) v'
                      (ap is_disconnected r.status ∙ up f))
              ])
