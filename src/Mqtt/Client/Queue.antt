-- ===== src/Mqtt/Client/Queue.antt =====
-- The retransmission queue and the packet identifier store of CMQTTClient.
pub mod Order
pub mod Identifiers
use circle_stdlib.Common.{
  ◌≡◌, refl, ℕ, ◌+◌, ◌-◌, ◌%◌, ◌^◌, Bool, true, false, ◌&&◌, List, [], ◌∷◌, Option, none, some, ltb,
  ◌==◌, if◌then◌else◌,
}
use circle_stdlib.Mqtt.{u32_mod}
use circle_stdlib.Mqtt.SendPacket.{
  SendPacket, set_scheduled_time, get_scheduled_time, get_packet_identifier,
}

-- `(int) (a - b) > 0` for two `unsigned` times
abbrev pub is_after : ℕ → ℕ → Bool
is_after a b = let d = (a + u32_mod - b) % u32_mod in ltb 0 d && ltb d (2 ^ 31)

-- `InsertPacketIntoQueue`: the packet gets its time and stands before the first packet that is
-- scheduled after it, or at the end.
unfoldable pub insert_sorted : SendPacket → List SendPacket → List SendPacket
insert_sorted p [] = p ∷ []
insert_sorted p (q ∷ qs) =
    let rest = insert_sorted p qs in
    if is_after (get_scheduled_time q) p.scheduled_time then p ∷ q ∷ qs else q ∷ rest

unfoldable pub insert_packet : SendPacket → ℕ → List SendPacket → List SendPacket
insert_packet p time qs = insert_sorted (set_scheduled_time p time) qs

-- `RemovePacketFromQueue`: the first packet with the identifier, and the queue without it.
unfoldable pub remove_packet : ℕ → List SendPacket → Option SendPacket × List SendPacket
remove_packet id [] = (none, [])
remove_packet id (p ∷ ps) =
    let (found, rest) = remove_packet id ps in
    if get_packet_identifier p == id then (some p, ps) else (found, p ∷ rest)

-- `InsertPacketIdentifierIntoStore`, `IsPacketIdentifierInStore`, `RemovePacketIdentifierFromStore`
unfoldable pub insert_identifier : ℕ → List ℕ → List ℕ
insert_identifier id store = id ∷ store

unfoldable pub identifier_in_store : ℕ → List ℕ → Bool
identifier_in_store id [] = false
identifier_in_store id (x ∷ xs) =
    let rest = identifier_in_store id xs in if x == id then true else rest

unfoldable pub remove_identifier : ℕ → List ℕ → List ℕ
remove_identifier id [] = []
remove_identifier id (x ∷ xs) =
    let rest = remove_identifier id xs in if x == id then xs else x ∷ rest

-- `CleanupQueue` and `CleanupPacketIdentifierStore`: the elements are removed one after the other.
unfoldable pub cleanup_queue : List SendPacket → List SendPacket
cleanup_queue [] = []
cleanup_queue (p ∷ ps) = cleanup_queue ps

unfoldable pub cleanup_store : List ℕ → List ℕ
cleanup_store [] = []
cleanup_store (x ∷ xs) = cleanup_store xs

pub cleanup_queue_lem : (ps : List SendPacket) → cleanup_queue ps ≡ []
unfolding cleanup_queue
cleanup_queue_lem [] = refl
cleanup_queue_lem (p ∷ ps) = cleanup_queue_lem ps

pub cleanup_store_lem : (xs : List ℕ) → cleanup_store xs ≡ []
unfolding cleanup_store
cleanup_store_lem [] = refl
cleanup_store_lem (x ∷ xs) = cleanup_store_lem xs
