-- ===== src/Mqtt/Client/Task.antt =====
-- CMQTTClient: the task, `Run`, with `Receiver`, `Sender` and `KeepAliveHandler`.
use circle_stdlib.Common.{
  ℕ, zero, suc, ◌+◌, ◌*◌, ◌%◌, bit_or, Bool, true, false, ◌||◌, List, [], ◌∷◌, ◌++◌, Option, none,
  some, if◌then◌else◌, ◌>>=◌, ◌>>◌, assert,
}
use circle_stdlib.Mqtt.{
  PacketType, conn_ack, publish, pub_ack, pub_rec, pub_rel, pub_comp, sub_ack, unsub_ack, ping_req,
  ping_resp, flag_dup, u32_mod,
}
use circle_stdlib.Mqtt.SendPacket.{SendPacket, get_scheduled_time, set_flags, is_publish}
use circle_stdlib.Mqtt.ReceivePacket.{
  get_type, ReceiveStatus, continue_later, packet_ok, packet_invalid, peer_disconnect,
  not_enough_memory, receive,
}
use circle_stdlib.Mqtt.Client.{
  Client, Circle, invalid_packet, from_peer, insufficient_resources, send_failed, ping_failed,
  is_disconnected, is_waiting, is_ready,
}
use circle_stdlib.Mqtt.Client.Queue.{is_after, insert_packet}
use circle_stdlib.Mqtt.Client.Connection.{get_ticks, new_packet, close_connection, send_packet}
use circle_stdlib.Mqtt.Client.Handlers.{
  handle_conn_ack, handle_publish, handle_ack, handle_pub_rec, handle_pub_rel, handle_sub_ack,
  handle_ping_resp,
}

module _ (C : Circle) where
  open C use {World, hz, frame_size, receive_bytes, on_loop, ms_sleep}

  -- The second `switch` of `Receiver`.
  unfoldable pub dispatch : PacketType → Client World → Option (Client World)
  dispatch conn_ack c = handle_conn_ack C c
  dispatch publish c = handle_publish C c
  dispatch pub_ack c = handle_ack C 1 c
  dispatch pub_rec c = handle_pub_rec C c
  dispatch pub_rel c = handle_pub_rel C c
  dispatch pub_comp c = handle_ack C 2 c
  dispatch sub_ack c = handle_sub_ack C c
  dispatch unsub_ack c = handle_ack C 1 c
  dispatch ping_resp c = handle_ping_resp C c
  dispatch _ c = none

  -- The first `switch` of `Receiver`; the result says whether its loop goes on.
  unfoldable pub on_status : ReceiveStatus → Client World → Option (Bool × Client World)
  on_status continue_later c = some (false, c)
  on_status packet_ok c = dispatch (get_type c.receive_packet) c >>= λ c'. some (true, c')
  on_status packet_invalid c = close_connection C invalid_packet c >>= λ c'. some (false, c')
  on_status peer_disconnect c = close_connection C from_peer c >>= λ c'. some (false, c')
  on_status not_enough_memory c =
      close_connection C insufficient_resources c >>= λ c'. some (false, c')
  on_status _ c = none

  -- One round of the loop of `Receiver`.
  unfoldable pub receive_round : Client World → Option (Bool × Client World)
  receive_round c = do
    (status, r, w) ← receive frame_size receive_bytes c.receive_packet c.world
    on_status status (record c { receive_packet = r; world = w })

  -- At most `rounds` rounds of `Receiver`. The loop ends when nothing more has arrived or the socket is
  -- closed; a peer that goes on sending keeps it running.
  unfoldable pub receiver : ℕ → Client World → Option (Client World)
  receiver zero c = some c
  receiver (suc rounds) c = elim c.socket_open [
    | false ↦ some c
    | true ↦ receive_round c >>= λ r. elim r.0 [ false ↦ some r.1 | true ↦ receiver rounds r.1 ]
  ]

  -- A packet that is sent again, with the flag for a duplicate if it is a PUBLISH packet.
  unfoldable pub mark_duplicate : SendPacket → Option SendPacket
  mark_duplicate p =
      if is_publish p.packet_type then set_flags p (bit_or p.flags flag_dup) else some p

  abbrev pub some_after : ℕ → List SendPacket → Bool
  some_after t [] = false
  some_after t (q ∷ qs) = is_after q.scheduled_time t || some_after t qs

  -- The loop of `Sender`. The queue is `done ++ rest`, and `pElement` points to the first packet of
  -- `rest`. A packet that is sent again goes back into the queue: before `pElement`, also directly, and is
  -- not visited again then, or behind it; if
  -- `pElement` was null, the loop ends. The result `false` means that the fuel ran out.
  unfoldable pub sender_loop :
      ℕ → ℕ → List SendPacket → List SendPacket → Client World → Option (Bool × Client World)
  sender_loop zero now done rest c = some (false, record c { queue = done ++ rest })
  sender_loop (suc fuel) now done [] c = some (true, record c { queue = done })
  sender_loop (suc fuel) now done (p ∷ rest) c =
      if is_after (get_scheduled_time p) now
      then some (true, record c { queue = done ++ (p ∷ rest) })
      else do
        p₁ ← mark_duplicate p
        (sent, p₂, c₁) ← send_packet C p₁ (record c { queue = done ++ rest })
        let (t, c₂) = get_ticks C c₁
        let due = (t + 5 * hz) % u32_mod
        let again : Option (Bool × Client World) = elim rest [
          | [] ↦ some (true, record c₂ { queue = insert_packet p₂ due done })
          | q ∷ qs ↦ elim (some_after due (done ++ (q ∷ []))) [
            | true ↦ sender_loop fuel now (insert_packet p₂ due done) (q ∷ qs) c₂
            | false ↦ sender_loop fuel now done (insert_packet p₂ due (q ∷ qs)) c₂
          ]
        ]
        if sent then again else (close_connection C send_failed c₁ >>= λ c'. some (true, c'))

  unfoldable pub sender : ℕ → Client World → Option (Bool × Client World)
  sender fuel c = let (now, c₁) = get_ticks C c in sender_loop fuel now [] c₁.queue c₁

  unfoldable pub keep_alive_handler : Client World → Option (Client World)
  keep_alive_handler c =
      if c.timer_running
      then (let (now, c₁) = get_ticks C c in
          let c₂ : Client World = record c₁ { timer_running = false } in
          if is_after c.timer_elapses_at now
          then some c₁
          else if is_ready c.status
          then (do
            (p, c₃) ← new_packet C ping_req 128 c₂
            (sent, _, c₄) ← send_packet C p c₃
            if sent then some c₄ else close_connection C send_failed c₄)
          else (do assert (is_waiting c.status); close_connection C ping_failed c₂))
      else some c

  -- One round of `Run`, with bounds on the rounds of the loops in it.
  unfoldable pub run_round : ℕ → ℕ → Client World → Option (Client World)
  run_round rounds fuel c = do
    c' ← if is_disconnected c.status then ms_sleep 200 c else (do
      c₁ ← receiver rounds c
      (_, c₂) ← sender fuel c₁
      c₃ ← keep_alive_handler c₂
      ms_sleep 50 c₃)
    on_loop c'
