-- ===== src/Mqtt/Client/Queue/Order.antt =====
-- The retransmission queue: its order, and what goes in and out.
use mathlib.Core.List.{Perm}
use mathlib.Core.List.Perm
use circle_stdlib.Common.{
  ℕ, ◌+◌, ◌-◌, ◌%◌, ◌≤◌, ◌<◌, ◌^◌, ◌≡◌, refl, ap, List, [], ◌∷◌, ◌++◌, Option, none, some, ltb, All,
  arith, eq→==, ne→==, ℕ_discrete, Bool-cases, inl, inr, ◌≢◌,
}
use circle_stdlib.Mqtt.{u32_mod}
use circle_stdlib.Mqtt.SendPacket.{SendPacket}
use circle_stdlib.Mqtt.Client.Queue.{is_after, insert_sorted, insert_packet, remove_packet}

-- The time from `base` to `t`, on a 32-bit clock that may have wrapped in between.
abbrev pub offset : ℕ → ℕ → ℕ
offset base t = (t + u32_mod - base) % u32_mod

-- `t` is a time of the clock, less than 2 ^ 31 ticks after `base`.
abbrev pub InWindow : ℕ → ℕ → Type 0
InWindow base t = (t < u32_mod) × (offset base t < 2 ^ 31)

-- Within such a window the signed comparison is the order of the times, across a wrap too.
is_after-offset :
    (base a b : ℕ)
    → base < u32_mod
    → InWindow base a
    → InWindow base b
    → is_after a b ≡ ltb (offset base b) (offset base a)
is_after-offset base a b h p q = ground arith

-- Each packet of the queue is scheduled at `low` after `base` or later, and none before the one in
-- front of it.
abbrev pub IsScheduled : ℕ → ℕ → List SendPacket → Type 0
IsScheduled base low [] = Unit {0}
IsScheduled base low (p ∷ ps) =
    InWindow base p.scheduled_time
    × (low ≤ offset base p.scheduled_time)
    × IsScheduled base (offset base p.scheduled_time) ps

insert_sorted-IsScheduled :
    (base low : ℕ) (p : SendPacket) (ps : List SendPacket)
    → base < u32_mod
    → InWindow base p.scheduled_time
    → low ≤ offset base p.scheduled_time
    → IsScheduled base low ps
    → IsScheduled base low (insert_sorted p ps)
unfolding insert_sorted
insert_sorted-IsScheduled base low p [] h w l s = (w, l, tt)
insert_sorted-IsScheduled base low p (q ∷ qs) h w l s =
    let e = is_after-offset base q.scheduled_time p.scheduled_time h s.0 w in
    elim (Bool-cases (is_after q.scheduled_time p.scheduled_time)) [
      | inl t ↦ rw t (w, l, (s.0, ground (arith, e, t), s.2))
      | inr f ↦ rw f (
        s.0,
        s.1,
        insert_sorted-IsScheduled base (offset base q.scheduled_time) p qs h w
            (ground (arith, e, f)) s.2,
      )
    ]

insert_sorted-perm : (p : SendPacket) (ps : List SendPacket) → Perm (insert_sorted p ps) (p ∷ ps)
unfolding insert_sorted
insert_sorted-perm p [] = Perm.refl (p ∷ [])
insert_sorted-perm p (q ∷ qs) = elim (Bool-cases (is_after q.scheduled_time p.scheduled_time)) [
  | inl e ↦ rw e (Perm.refl (p ∷ q ∷ qs))
  | inr e ↦ rw e (Perm.trans (Perm.cons q (insert_sorted-perm p qs)) (Perm.swap p q qs))
]

-- `InsertPacketIntoQueue` gives the packet its time and puts it among the others: the queue holds
-- those packets and no others, and if it was in the order of the scheduled times, it still is. The
-- times are those of a 32-bit clock, all less than 2 ^ 31 ticks after `base`; between them the clock
-- may have wrapped.
pub insert_packet_lem :
    (base low t : ℕ) (p : SendPacket) (ps : List SendPacket)
    → base < u32_mod
    → InWindow base t
    → low ≤ offset base t
    → IsScheduled base low ps
    → IsScheduled base low (insert_packet p t ps)
      × Perm (insert_packet p t ps) (record p { scheduled_time = t } ∷ ps)
unfolding insert_packet
insert_packet_lem base low t p ps h w l s = (
  insert_sorted-IsScheduled base low (record p { scheduled_time = t }) ps h w l s,
  insert_sorted-perm (record p { scheduled_time = t }) ps,
)

-- The two answers of a search for an identifier.
abbrev pub Removes : ℕ → List SendPacket → Option SendPacket → List SendPacket → Type 0
Removes id ps none rest = All (λ p. p.packet_identifier ≢ id) ps × (rest ≡ ps)
Removes id ps (some p) rest =
    (front : List SendPacket) × (back : List SendPacket) × (ps ≡ front ++ (p ∷ back))
    × (rest ≡ front ++ back)
    × (p.packet_identifier ≡ id)
    × All (λ q. q.packet_identifier ≢ id) front

Removes-skip :
    (id : ℕ) (q : SendPacket) (ps rest : List SendPacket) (found : Option SendPacket)
    → q.packet_identifier ≢ id
    → Removes id ps found rest
    → Removes id (q ∷ ps) found (q ∷ rest)
Removes-skip id q ps rest none ne (a, e) = ((ne, a), ap (◌∷◌ q) e)
Removes-skip id q ps rest (some p) ne (front, back, e, f, i, a) =
    (q ∷ front, back, ap (◌∷◌ q) e, ap (◌∷◌ q) f, i, (ne, a))

-- `RemovePacketFromQueue` takes the first packet with the identifier out of the queue and leaves the
-- others in their order. Without such a packet it answers a null pointer and leaves the queue alone.
pub remove_packet_lem :
    (id : ℕ) (ps : List SendPacket) → Removes id ps (remove_packet id ps).0 (remove_packet id ps).1
unfolding remove_packet
remove_packet_lem id [] = (tt, refl)
remove_packet_lem id (p ∷ ps) = elim (ℕ_discrete p.packet_identifier id) [
  | yes e ↦ rw (eq→== p.packet_identifier id e) ([], ps, refl, refl, e, tt)
  | no ne ↦ rw (ne→== p.packet_identifier id ne) (
      Removes-skip id p ps (remove_packet id ps).1 (remove_packet id ps).0 ne
        (remove_packet_lem id ps))
]
