-- ===== src/Mqtt/RoundTrip.antt =====
-- A packet from CMQTTSendPacket::Send to CMQTTReceivePacket::Receive.
use circle_stdlib.Common.{
  ℕ, ◌+◌, ◌/◌, ◌%◌, ◌≤◌, ◌<◌, ◌≡◌, refl, sym, ap, subst, ◌∙◌, inl, inr, false, true, List, ◌∷◌,
  ◌++◌, some, if◌then◌else◌, length, length-append, take, drop, take-append, drop-append, All,
  Holds_some, arith,
}
use circle_stdlib.Mqtt.{u32_mod}
use circle_stdlib.Mqtt.SendPacket.{SendPacket, prepare, append_string, string_bytes}
use circle_stdlib.Mqtt.SendPacket.Body.{Contains, Appended, append_string_lem}
use circle_stdlib.Mqtt.SendPacket.Wire.{frame, Prepared, prepare_lem}
use circle_stdlib.Mqtt.ReceivePacket.{
  ReceivePacket, packet_ok, packet_invalid, basic_checks, parse, get_string,
}
use circle_stdlib.Mqtt.ReceivePacket.Reads.{Unread, IsAscii, moved, get_string_lem}
use circle_stdlib.Mqtt.ReceivePacket.Frames.{at_body, parse-frame}

-- Where the bytes that `Send` handed to its socket have arrived, perhaps with more behind them,
-- `Receive` finds the type, the flags and the length of the body that were sent, with the read
-- pointer before the body. It accepts the packet exactly if its checks admit a packet of this type,
-- flags and length. The packet has met no error, has tries left, and its body is shorter than 2 ^ 21
-- bytes.
pub parse-prepare :
    (p q : SendPacket) (body wire : List ℕ) (r : ReceivePacket) (rest : List ℕ)
    → Contains p body
    → 0 < p.send_tries
    → p.flags < 16
    → length body < 2097152
    → prepare p ≡ some (q, some wire)
    → r.buffer ≡ some (wire ++ rest)
    → length wire ≤ r.in_ptr
    → parse r
      ≡ some (
        if basic_checks p.packet_type p.flags (length body) then packet_ok else packet_invalid,
        at_body r p.packet_type p.flags body,
      )
parse-prepare p q body wire r rest c t f l e m i =
    let h =
      Holds_some (Prepared p body) (prepare p) (q, some wire) e (prepare_lem p body c t f l) in
    let w : wire ≡ frame p.packet_type p.flags body = cc h.wire in
    parse-frame r p.packet_type p.flags body rest (rw w at m) f (omega arith) (rw w at i)

false_not_true : false ≡ true → ⊥
false_not_true e = cc

-- Where a list stands in a longer one.
middle :
    (front middle back : List ℕ) (n : ℕ)
    → n ≡ length front
    → take (length middle) (drop n (front ++ (middle ++ back))) ≡ middle
middle front xs back n e =
    ap (take (length xs)) (drop-append n front (xs ++ back) e)
    ∙ take-append (length xs) xs back refl

-- A packet holds one body of a length only.
Contains-unique :
    (p : SendPacket) (body x y : List ℕ) → Contains p (body ++ x) → Contains p (body ++ y) → x ≡ y
Contains-unique p body x y c d =
    let m : c.front ++ ((body ++ x) ++ c.back) ≡ d.front ++ ((body ++ y) ++ d.back) =
      cc (c.memory, d.memory) in
    let n : length y ≡ length x =
      omega (arith, c.pointer, d.pointer, length-append body x, length-append body y) in
    let whole : body ++ x ≡ body ++ y =
      sym (middle c.front (body ++ x) c.back 5 (sym c.front_size))
      ∙ ap (λ z. take (length (body ++ x)) (drop 5 z)) m
      ∙ ap (λ k. take k (drop 5 (d.front ++ ((body ++ y) ++ d.back))))
          (length-append body x ∙ ap (λ k. length body + k) (sym n) ∙ sym (length-append body y))
      ∙ middle d.front (body ++ y) d.back 5 (sym d.front_size) in
    sym (drop-append (length body) body x refl)
    ∙ ap (drop (length body)) whole
    ∙ drop-append (length body) body y refl

-- `GetString` reads back a string that `AppendString` has written: the bytes that are behind the old body
-- in the packet to be sent, where they have arrived as the next ones to be read of a received packet, with
-- any bytes behind them. It returns the string, and the read pointer is behind its bytes. The string has
-- less than 65536 characters, all of them ASCII characters; its end in the buffer of the packet is an
-- address below 2 ^ 32, and there has been room for it; the buffer of the caller has room for it and the
-- terminating zero.
pub get_string-append_string :
    (p q : SendPacket) (body str written : List ℕ) (r : ReceivePacket) (size : ℕ)
    (rest behind : List ℕ)
    → Contains p body
    → p.buf_ptr + length str + 2 < u32_mod
    → append_string p str ≡ some q
    → Contains q (body ++ written)
    → Unread r (written ++ rest) behind
    → length str < 65536
    → All IsAscii str
    → length str < size
    → get_string r size ≡ some (str, moved r (2 + length str))
get_string-append_string p q body str written r size rest behind c range e d u l a room =
    get_string_lem r size str rest behind (subst (λ x. Unread r (x ++ rest) behind) (same ∙ ends) u)
      a room
  where
    ends : string_bytes str ≡ (length str / 256) ∷ (length str % 256) ∷ str
    ends =
        let k : length str / 256 % 256 ≡ length str / 256 = omega arith in
        ap (λ (x : ℕ). x ∷ (length str % 256) ∷ str) k

    same : written ≡ string_bytes str
    same =
        elim (Holds_some (Appended p body (string_bytes str)) (append_string p str) q e
          (append_string_lem p body str c range)) [
            | inl h ↦ Contains-unique q body written (string_bytes str) d h.1
            | inr h ↦ absurd (false_not_true (sym d.no_error ∙ ap (λ x. x.error) h.1))
          ]
