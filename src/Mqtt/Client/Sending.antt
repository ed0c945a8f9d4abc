-- ===== src/Mqtt/Client/Sending.antt =====
-- `SendPacket` of CMQTTClient and the invariant.
use circle_stdlib.Common.{
  ℕ, ◌*◌, ◌<◌, ◌≡◌, refl, sym, ap, ◌∙◌, ◌⊎◌, inl, inr, Bool, true, false, not, ◌&&◌, Option, some,
  ltb, Holds, Holds->>=, Bool-cases, arith, ◌>>=◌, if◌then◌else◌, lt→ltb, ge→ltb, dec_lt, assert,
  ◌>>◌,
}
use circle_stdlib.Mqtt.{PacketType, disconnect}
use circle_stdlib.Mqtt.SendPacket.{SendPacket, send}
use circle_stdlib.Mqtt.SendPacket.Sendable.{IsSendable, send-IsSendable, SameKind, SendKeeps}
use circle_stdlib.Mqtt.Client.{
  Client, Circle, ConnectStatus, is_disconnected, is_connected, is_ready,
}
use circle_stdlib.Mqtt.Client.Connection.{
  is_activity, get_ticks, start_timer, keep_alive_sent, send_packet,
}
use circle_stdlib.Mqtt.Client.Invariant.{IsValid}

pub ready_connected : (s : ConnectStatus) → is_ready s ≡ true → is_connected s ≡ true
ready_connected s e = ground arith

-- The start of a method on a connection that is open.
pub open_Holds {ℓ} :
    {A : Type ℓ} (P : A → Type 0) (gone there : Bool) (m k : Option A)
    → gone ≡ false
    → there ≡ true
    → Holds P k
    → Holds P (if gone then m else (assert there >> k))
open_Holds P gone there m k e f h = rw (e, f) h

module _ (C : Circle) where
  open C use {World, hz}

  pub world-IsValid :
      (c : Client World) (w : World) → IsValid C c → IsValid C (record c { world = w })
  world-IsValid c w v = record {
    socket = v.socket;
    idle = v.idle;
    timer = v.timer;
    waiting = v.waiting;
    size = v.size;
    next_range = v.next_range;
    next_nonzero = v.next_nonzero;
    queued = v.queued;
    usable = v.usable;
  }

  -- The timer is started on a connection with a keep alive period.
  pub start_timer-IsValid :
      (n : ℕ) (c : Client World)
      → IsValid C c
      → 0 < c.keep_alive_seconds
      → is_connected c.status ≡ true
      → IsValid C (start_timer C n c)
  unfolding start_timer get_ticks
  start_timer-IsValid n c v k e = record {
    socket = v.socket;
    idle = v.idle;
    timer = inr (k, e);
    waiting = elim v.waiting [ inl x ↦ inl x | inr x ↦ inr (x.0, refl) ];
    size = v.size;
    next_range = v.next_range;
    next_nonzero = v.next_nonzero;
    queued = v.queued;
    usable = v.usable;
  }

  -- The part of the client that sending a packet leaves alone.
  pub record SameRest (c d : Client World) : Type 0 where
    pub received : d.receive_packet ≡ c.receive_packet
    pub queue : d.queue ≡ c.queue
    pub store : d.store ≡ c.store
    pub status : d.status ≡ c.status
    pub topic : d.max_topic_size ≡ c.max_topic_size

  activity_steps :
      (t : PacketType) (c : Client World)
      → is_activity t ≡ true
      → keep_alive_sent C t c
        ≡ some (
            if is_ready c.status && ltb 0 c.keep_alive_seconds
            then start_timer C (c.keep_alive_seconds * hz) c
            else c)
  unfolding keep_alive_sent
  activity_steps t c e = ground arith

  -- A packet whose sending is acknowledged or answered, and the timer.
  activity-IsValid :
      (t : PacketType) (c : Client World)
      → IsValid C c
      → is_activity t ≡ true
      → Holds (λ d. IsValid C d × SameRest c d) (keep_alive_sent C t c)
  unfolding start_timer get_ticks
  activity-IsValid t c v a = rw (activity_steps t c a) (elim (Bool-cases (is_ready c.status)) [
    | inr e ↦
        simp e
          (v, record { received = refl; queue = refl; store = refl; status = refl; topic = refl })
    | inl e ↦ elim (dec_lt 0 c.keep_alive_seconds) [
      | no k ↦
          simp (e, ge→ltb 0 c.keep_alive_seconds (omega arith))
            (v, record { received = refl; queue = refl; store = refl; status = refl; topic = refl })
      | yes k ↦
          simp (e, lt→ltb 0 c.keep_alive_seconds k)
            (
              start_timer-IsValid (c.keep_alive_seconds * hz) c v k (ready_connected c.status e),
              record { received = refl; queue = refl; store = refl; status = refl; topic = refl },
            )
    ]
  ])

  -- What `SendPacket` leaves: a packet that can be sent again, and a client that satisfies the
  -- invariant and of which only the timer and what Circle keeps have changed.
  abbrev pub Sent : Client World → SendPacket → Bool × SendPacket × Client World → Type 0
  Sent c p (sent, q, d) =
      IsSendable q
      × SameKind p q
      × IsValid C d
      × SameRest c d
      × (sent ≡ true → is_disconnected c.status ≡ false)

  quiet-IsValid :
      (t : PacketType) (c : Client World)
      → IsValid C c
      → ((is_activity t ≡ true) ⊎ (t ≡ disconnect))
      → Holds (λ d. IsValid C d × SameRest c d) (keep_alive_sent C t c)
  unfolding keep_alive_sent
  quiet-IsValid t c v (inl a) = activity-IsValid t c v a
  quiet-IsValid t c v (inr e) =
      rw e (v, record { received = refl; queue = refl; store = refl; status = refl; topic = refl })

  after_send :
      (c : Client World) (p q : SendPacket) (w : World) (sent : Bool)
      → IsValid C c
      → is_disconnected c.status ≡ false
      → IsSendable q
      → SameKind p q
      → ((is_activity p.packet_type ≡ true) ⊎ (p.packet_type ≡ disconnect))
      → Holds (Sent c p) (
          if sent
          then (keep_alive_sent C q.packet_type (record c { world = w }) >>= λ d. some (true, q, d))
          else some (false, q, record c { world = w }))
  after_send c p q w true v e s k t =
      Holds->>= (λ d. IsValid C d × SameRest (record c { world = w }) d) (Sent c p)
        (keep_alive_sent C q.packet_type (record c { world = w })) _
        (quiet-IsValid q.packet_type (record c { world = w }) (world-IsValid c w v) (rw k.0 t))
        (λ d (v', r). (
          s,
          k,
          v',
          record {
            received = r.received;
            queue = r.queue;
            store = r.store;
            status = r.status;
            topic = r.topic;
          },
          λ _. e,
        ))
  after_send c p q w false v e s k t = (
    s,
    k,
    world-IsValid c w v,
    record { received = refl; queue = refl; store = refl; status = refl; topic = refl },
    λ _. e,
  )

  -- `SendPacket` fails no assertion, and keeps the invariant.
  pub send_packet-IsValid :
      (c : Client World) (p : SendPacket)
      → IsValid C c
      → IsSendable p
      → ((is_activity p.packet_type ≡ true) ⊎ (p.packet_type ≡ disconnect))
      → Holds (Sent c p) (send_packet C p c)
  unfolding send_packet
  send_packet-IsValid c p v s t = elim (Bool-cases (is_disconnected c.status)) [
    | inl e ↦ simp e (
      s,
      (refl, refl, refl, refl),
      v,
      record { received = refl; queue = refl; store = refl; status = refl; topic = refl },
      sym,
    )
    | inr e ↦
        open_Holds (Sent c p) (is_disconnected c.status) c.socket_open (some (false, p, c)) _ e
          (v.socket ∙ ap not e)
          (Holds->>= (SendKeeps World p) (Sent c p) (send C.send_bytes p c.world) _
            (send-IsSendable C.send_bytes p c.world s)
            (λ (sent, q, w) (s', k). after_send c p q w sent v e s' k t))
  ]
