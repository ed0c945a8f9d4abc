-- ===== src/Mqtt/Client/Retained.antt =====
-- The packets that CMQTTClient keeps until they are acknowledged, and what `new` and
-- `m_usNextPacketIdentifier` give for them.
use circle_stdlib.Common.{
  ℕ, ◌+◌, ◌*◌, ◌%◌, ◌≤◌, ◌<◌, ◌≡◌, refl, ◌⊎◌, inl, inr, true, false, List, [], ◌∷◌, All, Holds,
  Holds->>=, Holds-mono, Bool-cases, arith, eq→==, ne→==, ℕ_discrete,
}
use circle_stdlib.Mqtt.{PacketType}
use circle_stdlib.Mqtt.SendPacket.{SendPacket, init}
use circle_stdlib.Mqtt.SendPacket.Body.{Contains}
use circle_stdlib.Mqtt.SendPacket.Sendable.{IsSendable, size_limit, init-IsSendable}
use circle_stdlib.Mqtt.Client.{Client, Circle, is_disconnected}
use circle_stdlib.Mqtt.Client.Queue.{insert_sorted, insert_packet, is_after, remove_packet}
use circle_stdlib.Mqtt.Client.Connection.{
  is_activity, get_ticks, new_packet, heap_packet, take_identifier,
}
use circle_stdlib.Mqtt.Client.Requests.{await}
use circle_stdlib.Mqtt.Client.Invariant.{IsQueued, IsValid, IsFriendly}
use circle_stdlib.Mqtt.Client.Sending.{SameRest, world-IsValid}

renamed-IsSendable :
    (p : SendPacket) (qos id time : ℕ)
    → IsSendable p
    → IsSendable (record p { qos = qos; packet_identifier = id; scheduled_time = time })
renamed-IsSendable p qos id time s = record {
  flags_fit = s.flags_fit;
  size_fits = s.size_fits;
  state = renamed s.state;
}
  where
    renamed :
        (p.error ≡ true) ⊎ ((body : List ℕ) × Contains p body)
        → (p.error ≡ true)
          ⊎ ((body : List ℕ) × Contains
                (record p { qos = qos; packet_identifier = id; scheduled_time = time })
                body)
    renamed (inl x) = inl x
    renamed (inr (body, c)) = inr (
      body,
      record {
        front = c.front;
        back = c.back;
        no_error = c.no_error;
        memory = c.memory;
        front_size = c.front_size;
        pointer = c.pointer;
        size = c.size;
        in_range = c.in_range;
      },
    )

insert_sorted-All :
    (P : SendPacket → Type 0) (p : SendPacket) (qs : List SendPacket)
    → P p
    → All P qs
    → All P (insert_sorted p qs)
unfolding insert_sorted
insert_sorted-All P p [] h a = (h, tt)
insert_sorted-All P p (q ∷ qs) h a =
    elim (Bool-cases (is_after q.scheduled_time p.scheduled_time)) [
      | inl e ↦ simp e (h, a)
      | inr e ↦ simp e (a.0, insert_sorted-All P p qs h a.1)
    ]

pub remove_packet-All :
    (P : SendPacket → Type 0) (id : ℕ) (qs : List SendPacket)
    → All P qs
    → All P (remove_packet id qs).1
unfolding remove_packet
remove_packet-All P id [] a = tt
remove_packet-All P id (q ∷ qs) a = elim (ℕ_discrete q.packet_identifier id) [
  | yes e ↦ simp (eq→== q.packet_identifier id e) a.1
  | no e ↦ simp (ne→== q.packet_identifier id e) (a.0, remove_packet-All P id qs a.1)
]

pub insert_packet-All :
    (p : SendPacket) (qos id time : ℕ) (qs : List SendPacket)
    → IsSendable p
    → is_activity p.packet_type ≡ true
    → ((qos ≡ 1) ⊎ (qos ≡ 2))
    → All IsQueued qs
    → All IsQueued (insert_packet (record p { qos = qos; packet_identifier = id }) time qs)
unfolding insert_packet
insert_packet-All p qos id time qs s k q a =
    insert_sorted-All IsQueued
      (record p { qos = qos; packet_identifier = id; scheduled_time = time }) qs
      (record { sendable = renamed-IsSendable p qos id time s; kind = k; acknowledged = q }) a

pub requeue-All :
    (p : SendPacket) (time : ℕ) (qs : List SendPacket)
    → IsQueued p
    → All IsQueued qs
    → All IsQueued (insert_packet p time qs)
unfolding insert_packet
requeue-All p time qs h a =
    insert_sorted-All IsQueued (record p { scheduled_time = time }) qs
      (record {
        sendable = renamed-IsSendable p p.qos p.packet_identifier time h.sendable;
        kind = h.kind;
        acknowledged = h.acknowledged;
      })
      a

module _ (C : Circle) where
  open C use {World, hz, allocate}

  pub queue-IsValid :
      (c : Client World) (qs : List SendPacket)
      → IsValid C c
      → is_disconnected c.status ≡ false
      → All IsQueued qs
      → IsValid C (record c { queue = qs })
  queue-IsValid c qs v e a = record {
    socket = v.socket;
    idle = inl e;
    timer = v.timer;
    waiting = v.waiting;
    size = v.size;
    next_range = v.next_range;
    next_nonzero = v.next_nonzero;
    queued = a;
    usable = v.usable;
  }

  -- The queued packet is one that can be sent again.
  pub await-IsValid :
      (p : SendPacket) (qos id : ℕ) (c : Client World)
      → IsValid C c
      → is_disconnected c.status ≡ false
      → IsSendable p
      → is_activity p.packet_type ≡ true
      → ((qos ≡ 1) ⊎ (qos ≡ 2))
      → IsValid C (await C p qos id c)
  unfolding await get_ticks
  await-IsValid p qos id c v e s k q =
      let (t, w) = C.ticks c.world in
      queue-IsValid (record c { world = w })
        (insert_packet (record p { qos = qos; packet_identifier = id }) ((t + 5 * hz) % 4294967296)
          c.queue)
        (world-IsValid C c w v) e
        (insert_packet-All p qos id ((t + 5 * hz) % 4294967296) c.queue s k q v.queued)

  -- `new CMQTTSendPacket` for a size between the least one and the limit.
  pub new_packet_lem :
      (t : PacketType) (size : ℕ) (c : Client World)
      → IsFriendly C
      → IsValid C c
      → 128 ≤ size
      → size ≤ size_limit
      → Holds
          (λ r.
            IsSendable r.0
            × (r.0.packet_type ≡ t)
            × IsValid C r.1
            × SameRest C c r.1
            × (r.1 ≡ record c { world = r.1.world }))
          (new_packet C t size c)
  unfolding new_packet
  new_packet_lem t size c F v h l =
      Holds->>= _ _ (init t size (allocate c.world size).0) _
        (init-IsSendable t size (allocate c.world size).0 h l (F.memory c.world size))
        (λ p (s, e, _). (
          s,
          e,
          world-IsValid C c (allocate c.world size).1 v,
          record { received = refl; queue = refl; store = refl; status = refl; topic = refl },
          refl,
        ))

  -- The same with an object of its own.
  pub heap_packet_lem :
      (t : PacketType) (size : ℕ) (c : Client World)
      → IsFriendly C
      → IsValid C c
      → 128 ≤ size
      → size ≤ size_limit
      → Holds
          (λ r.
            IsSendable r.0
            × (r.0.packet_type ≡ t)
            × IsValid C r.1
            × SameRest C c r.1
            × (r.1 ≡ record c { world = r.1.world }))
          (heap_packet C t size c)
  unfolding heap_packet
  heap_packet_lem t size c F v h l =
      let c' : Client World = record c { world = (C.has_memory c.world).1 } in
      rw (F.objects c.world) (
        Holds-mono _ _ (new_packet C t size c')
          (λ r (s, e, v', k, q). (
            s,
            e,
            v',
            record {
              received = k.received;
              queue = k.queue;
              store = k.store;
              status = k.status;
              topic = k.topic;
            },
            q,
          ))
          (new_packet_lem t size c' F (world-IsValid C c (C.has_memory c.world).1 v) h l))

  -- A packet gets the next identifier, a `u16`, and the one after it is the next in the circle from 1 to
  -- 65535, so that no later packet gets 0.
  pub take_identifier_lem :
      (c : Client World)
      → c.next_packet_identifier < 65536
      → ((take_identifier C c).0 ≡ c.next_packet_identifier)
        × ((take_identifier C c).1.next_packet_identifier ≡ c.next_packet_identifier % 65535 + 1)
  unfolding take_identifier
  take_identifier_lem c h = (refl, next)
    where
      next : (take_identifier C c).1.next_packet_identifier ≡ c.next_packet_identifier % 65535 + 1
      next = elim (ℕ_discrete ((c.next_packet_identifier + 1) % 65536) 0) [
        | yes e ↦ simp (eq→== ((c.next_packet_identifier + 1) % 65536) 0 e) (omega arith)
        | no e ↦ simp (ne→== ((c.next_packet_identifier + 1) % 65536) 0 e) (omega arith)
      ]
