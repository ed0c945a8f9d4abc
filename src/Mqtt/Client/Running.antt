-- ===== src/Mqtt/Client/Running.antt =====
-- `Sender` of CMQTTClient and the invariant.
use circle_stdlib.Common.{
  ℕ, zero, suc, ◌+◌, ◌*◌, ◌%◌, ◌≡◌, refl, sym, ap, subst, ◌∙◌, inl, inr, Bool, true, false, List,
  [], ◌∷◌, ◌++◌, Option, some, All, All-append, Holds, Holds->>=, Holds-mono, Bool-cases, arith,
  ◌>>=◌, if◌then◌else◌, bit_or,
}
use circle_stdlib.Common.Bits.{set_dup-lt}
use circle_stdlib.Mqtt.{PacketType, publish, flag_dup, u32_mod}
use circle_stdlib.Mqtt.SendPacket.{SendPacket, set_flags, is_publish}
use circle_stdlib.Mqtt.SendPacket.Sendable.{set_flags-IsSendable}
use circle_stdlib.Mqtt.Client.{Client, Circle, send_failed, is_disconnected}
use circle_stdlib.Mqtt.Client.Queue.{is_after, insert_packet}
use circle_stdlib.Mqtt.Client.Connection.{is_activity, get_ticks, close_connection, send_packet}
use circle_stdlib.Mqtt.Client.Task.{mark_duplicate, some_after, sender_loop, sender}
use circle_stdlib.Mqtt.Client.Invariant.{IsQueued, IsValid, IsFriendly, close_connection-IsValid}
use circle_stdlib.Mqtt.Client.Sending.{Sent, send_packet-IsValid, world-IsValid}
use circle_stdlib.Mqtt.Client.Retained.{queue-IsValid, requeue-All}

is_publish_only : (t : PacketType) → is_publish t ≡ true → t ≡ publish
is_publish_only t e = ground arith

either_Holds {ℓ} :
    {A : Type ℓ} (P : A → Type 0) (b : Bool) (m k : Option A)
    → Holds P m
    → Holds P k
    → Holds P (elim b [ true ↦ m | false ↦ k ])
either_Holds P true m k h i = h
either_Holds P false m k h i = i

module _ (C : Circle) where
  open C use {World, hz}

  -- A packet of the queue stays one when the flag for a duplicate is set.
  mark_duplicate-IsQueued : (p : SendPacket) → IsQueued p → Holds IsQueued (mark_duplicate C p)
  unfolding mark_duplicate
  mark_duplicate-IsQueued p h = elim (Bool-cases (is_publish p.packet_type)) [
    | inr e ↦ simp e h
    | inl e ↦ simp e (
        Holds-mono _ IsQueued (set_flags p (bit_or p.flags flag_dup))
          (λ q (s, t, o). record {
            sendable = s;
            kind = ap is_activity t;
            acknowledged = elim h.acknowledged [ inl x ↦ inl (o ∙ x) | inr x ↦ inr (o ∙ x) ];
          })
          (set_flags-IsSendable p (bit_or p.flags flag_dup) h.sendable
            (is_publish_only p.packet_type e) (set_dup-lt p.flags h.sendable.flags_fit)))
  ]

  resent-IsQueued :
      (c d : Client World) (p q : SendPacket) (sent : Bool)
      → IsQueued p
      → Sent C c p (sent, q, d)
      → IsQueued q
  resent-IsQueued c d p q sent h (s, k, v, r, up) = record {
    sendable = s;
    kind = ap is_activity k.0 ∙ h.kind;
    acknowledged = elim h.acknowledged [ inl x ↦ inl (k.3 ∙ x) | inr x ↦ inr (k.3 ∙ x) ];
  }

  empty_IsValid :
      (c : Client World) → IsValid C c → c.store ≡ [] → IsValid C (record c { queue = [] })
  empty_IsValid c v st = record {
    socket = v.socket;
    idle = inr (refl, st);
    timer = v.timer;
    waiting = v.waiting;
    size = v.size;
    next_range = v.next_range;
    next_nonzero = v.next_nonzero;
    queued = tt;
    usable = v.usable;
  }

  module _ (F : IsFriendly C) where
    abbrev IsRun : Bool × Client World → Type 0
    IsRun (finished, c) = IsValid C c

    -- One packet is sent again; `k` is what follows if that succeeds.
    resend_Holds :
        (p : SendPacket) (others : List SendPacket) (c : Client World)
        (k : SendPacket → Client World → Option (Bool × Client World))
        → IsValid C c
        → is_disconnected c.status ≡ false
        → IsQueued p
        → All IsQueued others
        → ((q : SendPacket) (d : Client World)
            → IsQueued q
            → IsValid C d
            → is_disconnected d.status ≡ false
            → Holds IsRun (k q d))
        → Holds IsRun (
            mark_duplicate C p >>= λ p₁. send_packet C p₁ (record c { queue = others }) >>= λ r.
            if r.0
            then k r.1 r.2
            else (close_connection C send_failed r.2 >>= λ c'. some (true, c')))
    resend_Holds p others c k v e h a f =
        let c₀ : Client World = record c { queue = others } in
        Holds->>= IsQueued IsRun (mark_duplicate C p) _ (mark_duplicate-IsQueued p h) (λ p₁ h₁.
          Holds->>= (Sent C c₀ p₁) IsRun (send_packet C p₁ c₀) _
            (send_packet-IsValid C c₀ p₁ (queue-IsValid C c others v e a) h₁.sendable (inl h₁.kind))
            (λ (sent, q, d) r. elim (Bool-cases sent) [
              | inl g ↦ simp g (
                  f q d (resent-IsQueued c₀ d p₁ q sent h₁ r) r.2
                    (ap is_disconnected r.3.status ∙ e))
              | inr g ↦ simp g (
                  Holds->>= (IsValid C) IsRun (close_connection C send_failed d) _
                    (close_connection-IsValid C F send_failed d r.2) (λ d' v'. v'))
            ]))

    -- The loop of `Sender`, from any of its rounds and with any fuel, fails no assertion and keeps the
    -- invariant of a client that is not disconnected, whatever the socket answers: the packets that it
    -- has passed and those before it can be sent again.
    pub sender_loop-IsValid :
        (fuel now : ℕ) (done rest : List SendPacket) (c : Client World)
        → IsValid C c
        → is_disconnected c.status ≡ false
        → All IsQueued done
        → All IsQueued rest
        → Holds IsRun (sender_loop C fuel now done rest c)
    unfolding sender_loop get_ticks
    sender_loop-IsValid zero now done rest c v e a b =
        queue-IsValid C c (done ++ rest) v e (All-append IsQueued done rest a b)
    sender_loop-IsValid (suc fuel) now done [] c v e a b = queue-IsValid C c done v e a
    sender_loop-IsValid (suc fuel) now done (p ∷ []) c v e a b =
        elim (Bool-cases (is_after p.scheduled_time now)) [
          | inl f ↦
              simp f
                (queue-IsValid C c (done ++ (p ∷ [])) v e (All-append IsQueued done (p ∷ []) a b))
          | inr f ↦ simp f (
              resend_Holds p (done ++ []) c _ v e b.0 (All-append IsQueued done [] a tt)
                (λ q d h w u.
                  queue-IsValid C (record d { world = (C.ticks d.world).1 })
                    (insert_packet q (((C.ticks d.world).0 + 5 * hz) % u32_mod) done)
                    (world-IsValid C d (C.ticks d.world).1 w) u
                    (requeue-All q (((C.ticks d.world).0 + 5 * hz) % u32_mod) done h a)))
        ]
    sender_loop-IsValid (suc fuel) now done (p ∷ r ∷ rs) c v e a b =
        elim (Bool-cases (is_after p.scheduled_time now)) [
          | inl f ↦ simp f (
              queue-IsValid C c (done ++ (p ∷ r ∷ rs)) v e
                (All-append IsQueued done (p ∷ r ∷ rs) a b))
          | inr f ↦ simp f (
              resend_Holds p (done ++ (r ∷ rs)) c _ v e b.0
                (All-append IsQueued done (r ∷ rs) a b.1)
                (λ q d h w u.
                  let due : ℕ = ((C.ticks d.world).0 + 5 * hz) % u32_mod in
                  let d' : Client World = record d { world = (C.ticks d.world).1 } in
                  let w' : IsValid C d' = world-IsValid C d (C.ticks d.world).1 w in
                  either_Holds IsRun (some_after C due (done ++ (r ∷ []))) _ _
                    (sender_loop-IsValid fuel now (insert_packet q due done) (r ∷ rs) d' w' u
                      (requeue-All q due done h a) b.1)
                    (sender_loop-IsValid fuel now done (insert_packet q due (r ∷ rs)) d' w' u a
                      (requeue-All q due (r ∷ rs) h b.1))))
        ]

    -- One pass of `Sender` over the queue.
    pub sender-IsValid :
        (fuel : ℕ) (c : Client World)
        → IsValid C c
        → is_disconnected c.status ≡ false
        → Holds IsRun (sender C fuel c)
    unfolding sender get_ticks
    sender-IsValid fuel c v e =
        sender_loop-IsValid fuel (C.ticks c.world).0 [] c.queue
          (record c { world = (C.ticks c.world).1 }) (world-IsValid C c (C.ticks c.world).1 v) e tt
          v.queued

    idle_loop :
        (fuel now : ℕ) (c : Client World)
        → IsValid C c
        → c.store ≡ []
        → Holds IsRun (sender_loop C fuel now [] [] c)
    unfolding sender_loop
    idle_loop zero now c v st = empty_IsValid c v st
    idle_loop (suc fuel) now c v st = empty_IsValid c v st

    -- On a disconnected client the queue is empty, and `Sender` does nothing.
    pub sender-idle-IsValid :
        (fuel : ℕ) (c : Client World)
        → IsValid C c
        → is_disconnected c.status ≡ true
        → Holds IsRun (sender C fuel c)
    unfolding sender get_ticks
    sender-idle-IsValid fuel c v e = elim v.idle [
      | inl x ↦ absurd (cc)
      | inr (q, st) ↦
          let c' : Client World = record c { world = (C.ticks c.world).1 } in
          subst
            (λ (qs : List SendPacket).
              Holds IsRun (sender_loop C fuel (C.ticks c.world).0 [] qs c'))
            (sym q)
            (idle_loop fuel (C.ticks c.world).0 c' (world-IsValid C c (C.ticks c.world).1 v) st)
    ]
