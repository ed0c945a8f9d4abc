-- ===== src/Mqtt/Client/Receiving.antt =====
-- The reads of the handlers of received packets, and the invariant of CMQTTClient.
use circle_stdlib.Common.{
  ℕ, ◌+◌, ◌*◌, ◌≤◌, ◌≡◌, refl, ap, ◌∙◌, inl, inr, false, not, List, ◌∷◌, some, length, Holds,
  Holds->>=, arith, ◌++◌,
}
use circle_stdlib.Mqtt.ReceivePacket.{ReceivePacket, get_byte, get_word, complete}
use circle_stdlib.Mqtt.ReceivePacket.Reads.{moved, get_byte_lem, get_word_lem}
use circle_stdlib.Mqtt.ReceivePacket.Usable.{IsUsable, complete-IsUsable, Holding, Holding-moved}
use circle_stdlib.Mqtt.Client.{Client, Circle, connected, is_disconnected}
use circle_stdlib.Mqtt.Client.Handlers.{read, finish}
use circle_stdlib.Mqtt.Client.Invariant.{IsValid}

module _ (C : Circle) where
  open C use {World, hz, frame_size}

  pub received-IsValid :
      (c : Client World) (r : ReceivePacket)
      → IsValid C c
      → IsUsable frame_size r
      → IsValid C (record c { receive_packet = r })
  received-IsValid c r v u = record {
    socket = v.socket;
    idle = v.idle;
    timer = v.timer;
    waiting = v.waiting;
    size = v.size;
    next_range = v.next_range;
    next_nonzero = v.next_nonzero;
    queued = v.queued;
    usable = u;
  }

  pub connected-IsValid :
      (c : Client World)
      → IsValid C c
      → is_disconnected c.status ≡ false
      → IsValid C (record c { status = connected })
  connected-IsValid c v e = record {
    socket = v.socket ∙ ap not e;
    idle = inl refl;
    timer = elim v.timer [ inl x ↦ inl x | inr x ↦ inr (x.0, refl) ];
    waiting = inl refl;
    size = v.size;
    next_range = v.next_range;
    next_nonzero = elim v.next_nonzero [ inl x ↦ absurd (ground arith) | inr x ↦ inr x ];
    queued = v.queued;
    usable = v.usable;
  }

  pub store-IsValid :
      (c : Client World) (ids : List ℕ)
      → IsValid C c
      → is_disconnected c.status ≡ false
      → IsValid C (record c { store = ids })
  store-IsValid c ids v e = record {
    socket = v.socket;
    idle = inl e;
    timer = v.timer;
    waiting = v.waiting;
    size = v.size;
    next_range = v.next_range;
    next_nonzero = v.next_nonzero;
    queued = v.queued;
    usable = v.usable;
  }

  -- A client that has changed at most in the packet that it is receiving.
  abbrev pub Received : Client World → Client World → Type 0
  Received c d =
      IsValid C d
      × (d.status ≡ c.status)
      × (d.queue ≡ c.queue)
      × (d.store ≡ c.store)
      × (d.max_topic_size ≡ c.max_topic_size)

  pub finish-IsValid :
      (c : Client World)
      → IsValid C c
      → c.receive_packet.out_ptr ≤ c.receive_packet.in_ptr
      → Holds (Received c) (finish C c)
  unfolding finish
  finish-IsValid c v h =
      Holds->>= (IsUsable frame_size) (Received c) (complete c.receive_packet) _
        (complete-IsUsable frame_size c.receive_packet v.usable h)
        (λ r u. (received-IsValid c r v u, refl, refl, refl, refl))

  -- What a client holds that has received a packet, of whose body `body` is still to be read.
  pub record Handling (c : Client World) (body : List ℕ) : Type 0 where
    pub valid : IsValid C c
    pub up : is_disconnected c.status ≡ false
    pub holding : Holding frame_size c.receive_packet body

  pub moved_on :
      (c : Client World) (bs rest : List ℕ)
      → Handling c (bs ++ rest)
      → Handling (record c { receive_packet = moved c.receive_packet (length bs) }) rest
  moved_on c bs rest h =
      let l = Holding-moved frame_size c.receive_packet bs rest h.holding in
      record {
        valid = received-IsValid c (moved c.receive_packet (length bs)) h.valid l.usable;
        up = h.up;
        holding = l;
      }

  pub read_byte :
      (c : Client World) (b : ℕ) (body : List ℕ)
      → Handling c (b ∷ body)
      → read C get_byte c ≡ some (b, record c { receive_packet = moved c.receive_packet 1 })
  unfolding read
  read_byte c b body h =
      simp (get_byte_lem c.receive_packet b body h.holding.behind h.holding.unread)

  pub read_word :
      (c : Client World) (hi lo : ℕ) (body : List ℕ)
      → Handling c (hi ∷ lo ∷ body)
      → read C get_word c
        ≡ some (hi * 256 + lo, record c { receive_packet = moved c.receive_packet 2 })
  unfolding read
  read_word c hi lo body h =
      simp (get_word_lem c.receive_packet hi lo body h.holding.behind h.holding.unread)

  pub finish_rest :
      (c : Client World) (body : List ℕ) → Handling c body → Holds (Received c) (finish C c)
  finish_rest c body h = finish-IsValid c h.valid (omega (arith, h.holding.inside))
