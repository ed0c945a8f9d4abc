-- ===== src/Mqtt/Client/KeepAlive.antt =====
-- The keep alive handling of CMQTTClient: `KeepAliveHandler`, and PINGREQ packets in `SendPacket`.
use circle_stdlib.Common.{
  ℕ, ◌*◌, ◌<◌, ◌≡◌, refl, sym, ap, subst, ◌∙◌, inl, inr, Bool, true, false, not, ◌>>◌, ◌>>=◌, some,
  lt→ltb, Holds, Holds->>=, Holds-known, Holds-then, Holds-else, Bool-cases, arith, if◌then◌else◌,
  assert,
}
use circle_stdlib.Mqtt.{ping_req}
use circle_stdlib.Mqtt.SendPacket.{SendPacket, send}
use circle_stdlib.Mqtt.SendPacket.Sendable.{IsSendable, SendKeeps, send-IsSendable}
use circle_stdlib.Mqtt.Client.{
  Client, Circle, ConnectStatus, connected, wait_for_ping_resp, send_failed, ping_failed,
  is_disconnected, is_connected, is_waiting, is_ready,
}
use circle_stdlib.Mqtt.Client.Queue.{is_after}
use circle_stdlib.Mqtt.Client.Connection.{
  get_ticks, start_timer, new_packet, close_connection, keep_alive_sent, send_packet,
}
use circle_stdlib.Mqtt.Client.Task.{keep_alive_handler}
use circle_stdlib.Mqtt.Client.Invariant.{IsValid, IsFriendly, close_connection-IsValid, close_open}
use circle_stdlib.Mqtt.Client.Sending.{world-IsValid, open_Holds}
use circle_stdlib.Mqtt.Client.Retained.{new_packet_lem}

ready_only : (s : ConnectStatus) → is_ready s ≡ true → s ≡ connected
ready_only s e = ground arith

waits : (s : ConnectStatus) → is_connected s ≡ true → is_ready s ≡ false → is_waiting s ≡ true
waits s e f = ground arith

up : (s : ConnectStatus) → is_connected s ≡ true → is_disconnected s ≡ false
up s e = ground arith

not_waiting : (s : ConnectStatus) → is_ready s ≡ true → is_waiting s ≡ false
not_waiting s e = ground arith

module _ (C : Circle) where
  open C use {World, hz}

  -- The client whose timer has elapsed and which is to send a PINGREQ packet.
  record IsIdle (c : Client World) : Type 0 where
    valid : IsValid C c
    period : 0 < c.keep_alive_seconds
    ready : is_ready c.status ≡ true
    stopped : c.timer_running ≡ false

  waiting_IsValid :
      (c : Client World) (n : ℕ)
      → IsIdle c
      → IsValid C (start_timer C n (record c { status = wait_for_ping_resp }))
  unfolding start_timer get_ticks
  waiting_IsValid c n i = record {
    socket = i.valid.socket ∙ ap (λ s. not (is_disconnected s)) (ready_only c.status i.ready);
    idle = inl refl;
    timer = inr (i.period, refl);
    waiting = inr (i.period, refl);
    size = i.valid.size;
    next_range = i.valid.next_range;
    next_nonzero = elim i.valid.next_nonzero [
      | inl x ↦ absurd (cc (ap is_disconnected (ready_only c.status i.ready)))
      | inr x ↦ inr x
    ];
    queued = i.valid.queued;
    usable = i.valid.usable;
  }

  ping_sent : (c : Client World) → IsIdle c → Holds (IsValid C) (keep_alive_sent C ping_req c)
  unfolding keep_alive_sent
  ping_sent c i =
      simp (lt→ltb 0 c.keep_alive_seconds i.period, i.ready, i.stopped)
        (waiting_IsValid c (5 * hz) i)

  world_IsIdle : (c : Client World) (w : World) → IsIdle c → IsIdle (record c { world = w })
  world_IsIdle c w i = record {
    valid = world-IsValid C c w i.valid;
    period = i.period;
    ready = i.ready;
    stopped = i.stopped;
  }

  abbrev IsSent : Bool × SendPacket × Client World → Type 0
  IsSent (sent, p, c) = IsValid C c

  send_ping :
      (p : SendPacket) (c : Client World)
      → IsIdle c
      → IsSendable p
      → p.packet_type ≡ ping_req
      → Holds IsSent (send_packet C p c)
  unfolding send_packet
  send_ping p c i s t =
      let e : is_disconnected c.status ≡ false = ap is_disconnected (ready_only c.status i.ready) in
      open_Holds IsSent (is_disconnected c.status) c.socket_open (some (false, p, c)) _ e
        (i.valid.socket ∙ ap not e)
        (Holds->>= (SendKeeps World p) IsSent (send C.send_bytes p c.world) _
          (send-IsSendable C.send_bytes p c.world s)
          (λ (sent, q, w) (s', k). answered sent q w (k.0 ∙ t)))
    where
      answered :
          (sent : Bool) (q : SendPacket) (w : World)
          → q.packet_type ≡ ping_req
          → Holds IsSent (
              if sent
              then (keep_alive_sent C q.packet_type (record c { world = w }) >>= λ d.
                  some (true, q, d))
              else some (false, q, record c { world = w }))
      answered false q w t = world-IsValid C c w i.valid
      answered true q w t = rw t (
          Holds->>= (IsValid C) IsSent (keep_alive_sent C ping_req (record c { world = w })) _
            (ping_sent (record c { world = w }) (world_IsIdle c w i)) (λ d v. v))

  module _ (F : IsFriendly C) where
    ping :
        (c : Client World)
        → IsIdle c
        → Holds (IsValid C) (
            new_packet C ping_req 128 c >>= λ r. send_packet C r.0 r.1 >>= λ a.
            if a.0 then some a.2 else close_connection C send_failed a.2)
    ping c i =
        Holds->>= _ (IsValid C) (new_packet C ping_req 128 c) _
          (new_packet_lem C ping_req 128 c F i.valid (omega arith) (omega arith))
          (λ (p, d) (s, t, v, r, e).
            Holds->>= IsSent (IsValid C) (send_packet C p d) _
              (send_ping p d (subst IsIdle (sym e) (world_IsIdle c d.world i)) s t)
              (λ (sent, q, d') v'. elim (Bool-cases sent) [
                | inl x ↦ simp x v'
                | inr x ↦ simp x (close_connection-IsValid C F send_failed d' v')
              ]))

    -- The client whose timer has elapsed.
    elapsed :
        (c : Client World)
        → IsValid C c
        → 0 < c.keep_alive_seconds
        → is_connected c.status ≡ true
        → Holds (IsValid C) (
            if is_ready c.status
            then (new_packet C ping_req 128 (record c { timer_running = false }) >>= λ r.
                send_packet C r.0 r.1 >>= λ a.
                if a.0 then some a.2 else close_connection C send_failed a.2)
            else (assert (is_waiting c.status)
                >> close_connection C ping_failed (record c { timer_running = false })))
    elapsed c v k conn = elim (Bool-cases (is_ready c.status)) [
      | inl e ↦ Holds-then (IsValid C) (is_ready c.status) _ _ e (
          ping (record c { timer_running = false })
            (record {
              valid = record {
                socket = v.socket;
                idle = v.idle;
                timer = inl refl;
                waiting = inl (not_waiting c.status e);
                size = v.size;
                next_range = v.next_range;
                next_nonzero = v.next_nonzero;
                queued = v.queued;
                usable = v.usable;
              };
              period = k;
              ready = e;
              stopped = refl;
            }))
      | inr e ↦ Holds-else (IsValid C) (is_ready c.status) _ _ e (
          Holds-known (IsValid C) (assert (is_waiting c.status)) tt _
            (ap assert (waits c.status conn e))
            (close_open C F ping_failed (record c { timer_running = false })
              (record {
                up = up c.status conn;
                socket = v.socket ∙ ap not (up c.status conn);
                size = v.size;
                next_range = v.next_range;
                usable = v.usable;
              })))
    ]

    -- `KeepAliveHandler` fails no assertion, in particular not the one on the status, and keeps the
    -- invariant.
    pub keep_alive_handler-IsValid :
        (c : Client World) → IsValid C c → Holds (IsValid C) (keep_alive_handler C c)
    unfolding keep_alive_handler get_ticks
    keep_alive_handler-IsValid c v = elim (Bool-cases c.timer_running) [
      | inr e ↦ Holds-else (IsValid C) c.timer_running _ _ e v
      | inl e ↦
          let (now, w) = C.ticks c.world in
          let v' : IsValid C (record c { world = w }) = world-IsValid C c w v in
          Holds-then (IsValid C) c.timer_running _ _ e
            (elim (Bool-cases (is_after c.timer_elapses_at now)) [
              | inl f ↦ Holds-then (IsValid C) (is_after c.timer_elapses_at now) _ _ f v'
              | inr f ↦
                  Holds-else (IsValid C) (is_after c.timer_elapses_at now) _ _ f (elim v.timer [
                    | inl x ↦ absurd (cc)
                    | inr (k, conn) ↦ elapsed (record c { world = w }) v' k conn
                  ])
            ])
    ]
