-- ===== src/Mqtt/Client/Publishing.antt =====
-- The handler of PUBLISH packets and the invariant of CMQTTClient.
use circle_stdlib.Common.{
  ℕ, ◌+◌, ◌-◌, ◌*◌, ◌/◌, ◌%◌, ◌≤◌, ◌<◌, ◌≡◌, ◌≢◌, length-append, refl, sym, ap, subst, ◌∙◌, ◌⊎◌,
  inl, inr, Bool, false, not, ◌||◌, List, [], ◌∷◌, ◌++◌, append-nil, Option, none, some, length,
  ltb, All, Holds, Holds->>=, Holds-mono, Holds-known, Bool-cases, arith, ◌==◌, ◌>>=◌,
  if◌then◌else◌, bit_and, ge→ltb, ℕ_discrete, eq→==, ne→==,
}
use circle_stdlib.Mqtt.{pub_ack, pub_rec, u32_mod}
use circle_stdlib.Mqtt.ReceivePacket.{ReceivePacket, get_word, get_string, get_data, qos_of_flags}
use circle_stdlib.Mqtt.ReceivePacket.Reads.{
  Unread, moved, IsAscii, get_data_lem, get_string_lem, get_word_short,
}
use circle_stdlib.Mqtt.ReceivePacket.Strings.{Result, get_string-Result}
use circle_stdlib.Mqtt.Client.{
  Client, Circle, invalid_packet, send_failed, not_supported, is_disconnected,
}
use circle_stdlib.Mqtt.Client.Queue.{identifier_in_store, insert_identifier}
use circle_stdlib.Mqtt.Client.Connection.{close_connection}
use circle_stdlib.Mqtt.Client.Handlers.{read, finish, reply, deliver, handle_publish}
use circle_stdlib.Mqtt.Client.Invariant.{IsValid, IsFriendly, close_connection-IsValid}
use circle_stdlib.Mqtt.Client.Sending.{SameRest}
use circle_stdlib.Mqtt.Client.Receiving.{
  Received, Handling, received-IsValid, store-IsValid, finish-IsValid, moved_on, read_word,
}
use circle_stdlib.Mqtt.Client.Acknowledging.{Replied, reply-IsValid}

module _ (C : Circle) where
  open C use {World, frame_size, on_message}

  -- The payload is the rest of the packet.
  read_payload :
      (c : Client World) (rest : List ℕ)
      → Handling C c rest
      → read C (λ r. get_data r (length rest)) c
        ≡ some (some rest, record c { receive_packet = moved c.receive_packet (length rest) })
  unfolding read
  read_payload c rest h = simp (
      get_data_lem c.receive_packet rest [] h.holding.behind (
        subst (λ x. Unread c.receive_packet x h.holding.behind) (sym (append-nil rest))
          h.holding.unread))

  past_payload :
      (c : Client World) (rest : List ℕ)
      → Handling C c rest
      → Handling C (record c { receive_packet = moved c.receive_packet (length rest) }) []
  past_payload c rest h = moved_on C c rest [] (subst (Handling C c) (sym (append-nil rest)) h)

  module _ (F : IsFriendly C) where
    module _ (topic : List ℕ) (retain : Bool) where
      told_IsValid :
          (payload : Option (List ℕ)) (n : ℕ) (c : Client World)
          → IsValid C c
          → c.receive_packet.out_ptr ≤ c.receive_packet.in_ptr
          → Holds (IsValid C) (on_message topic payload n retain c >>= finish C)
      told_IsValid payload n c v h =
          Holds->>= _ (IsValid C) (on_message topic payload n retain c) (finish C)
            (F.messages topic payload n retain c v)
            (λ d (v', e).
              Holds-mono (Received C d) (IsValid C) (finish C d) (λ d' r. r.0)
                (finish-IsValid C d v'
                  (subst (λ (r : ReceivePacket). r.out_ptr ≤ r.in_ptr) (sym e) h)))

      failed_IsValid :
          (c : Client World)
          → IsValid C c
          → c.receive_packet.out_ptr ≤ c.receive_packet.in_ptr
          → Holds (IsValid C) (finish C c >>= close_connection C send_failed)
      failed_IsValid c v h =
          Holds->>= (Received C c) (IsValid C) (finish C c) (close_connection C send_failed)
            (finish-IsValid C c v h) (λ d r. close_connection-IsValid C F send_failed d r.0)

      once_IsValid :
          (id : ℕ) (payload : Option (List ℕ)) (n : ℕ) (c : Client World)
          → IsValid C c
          → is_disconnected c.status ≡ false
          → c.receive_packet.out_ptr ≤ c.receive_packet.in_ptr
          → Holds (IsValid C) (
              (if identifier_in_store id c.store
                then some c
                else on_message topic payload n retain
                    (record c { store = insert_identifier id c.store }))
              >>= finish C)
      once_IsValid id payload n c v e h = elim (Bool-cases (identifier_in_store id c.store)) [
        | inl f ↦ simp f (
            Holds-mono (Received C c) (IsValid C) (finish C c) (λ d r. r.0)
              (finish-IsValid C c v h))
        | inr f ↦ simp f (
            told_IsValid payload n (record c { store = insert_identifier id c.store })
              (store-IsValid C c (insert_identifier id c.store) v e) h)
      ]

      deliver-IsValid :
          (qos id : ℕ) (c : Client World) (rest : List ℕ)
          → Handling C c rest
          → Holds (IsValid C) (deliver C qos id topic (length rest) retain c)
      unfolding deliver
      deliver-IsValid qos id c rest h =
          let p = past_payload c rest h in
          let d : Client World = record c {
            receive_packet = moved c.receive_packet (length rest);
          } in
          let n = length rest in
          let inside : d.receive_packet.out_ptr ≤ d.receive_packet.in_ptr =
            omega (arith, p.holding.inside) in
          let pointers : (x : Client World)
              → SameRest C d x
              → x.receive_packet.out_ptr ≤ x.receive_packet.in_ptr =
            λ x r. subst (λ (q : ReceivePacket). q.out_ptr ≤ q.in_ptr) (sym r.received) inside in
          Holds-known (IsValid C) (read C (λ r. get_data r n) c) (some rest, d) _
            (read_payload c rest h)
            (elim (ℕ_discrete qos 0) [
              | yes e ↦ simp (eq→== qos 0 e) (told_IsValid (some rest) n d p.valid inside)
              | no e ↦ elim (ℕ_discrete qos 1) [
                | yes f ↦
                    simp (ne→== qos 0 e, eq→== qos 1 f)
                      (Holds->>= (Replied C F pub_ack d) (IsValid C) (reply C pub_ack id d) _
                        (reply-IsValid C F pub_ack id d p.valid refl)
                        (λ (sent, q, x) (s, k, v, r, up). elim (Bool-cases sent) [
                          | inl y ↦ simp y (told_IsValid (some rest) n x v (pointers x r))
                          | inr y ↦ simp y (failed_IsValid x v (pointers x r))
                        ]))
                | no f ↦ elim (ℕ_discrete qos 2) [
                  | no g ↦ simp (ne→== qos 0 e, ne→== qos 1 f, ne→== qos 2 g) p.valid
                  | yes g ↦
                      simp (ne→== qos 0 e, ne→== qos 1 f, eq→== qos 2 g)
                        (Holds->>= (Replied C F pub_rec d) (IsValid C) (reply C pub_rec id d) _
                          (reply-IsValid C F pub_rec id d p.valid refl)
                          (λ (sent, q, x) (s, k, v, r, up). elim (Bool-cases sent) [
                            | inl y ↦ simp y (
                                once_IsValid id (some rest) n x v
                                  (ap is_disconnected r.status ∙ up y) (pointers x r))
                            | inr y ↦ simp y (failed_IsValid x v (pointers x r))
                          ]))
                ]
              ]
            ])

      -- The packet identifier, and what follows it.
      identified_IsValid :
          (qos n : ℕ) (c : Client World) (rest : List ℕ)
          → Handling C c rest
          → n ≡ length rest
          → 2 ≤ length rest
          → Holds (IsValid C) (
              read C get_word c >>= λ r.
              if (r.0 == 0) || ltb n 2
              then close_connection C invalid_packet r.1
              else deliver C qos r.0 topic (n - 2) retain r.1)
      identified_IsValid qos n c [] h e l = absurd (omega arith)
      identified_IsValid qos n c (a ∷ []) h e l = absurd (omega arith)
      identified_IsValid qos n c (hi ∷ lo ∷ rest) h e l =
          let h₁ = moved_on C c (hi ∷ lo ∷ []) rest h in
          let d : Client World = record c { receive_packet = moved c.receive_packet 2 } in
          let m : n - 2 ≡ length rest = omega arith in
          simp (read_word C c hi lo rest h, ge→ltb n 2 (omega arith), m)
            (elim (Bool-cases (hi * 256 + lo == 0)) [
              | inl f ↦ simp f (close_connection-IsValid C F invalid_packet d h₁.valid)
              | inr f ↦ simp f (deliver-IsValid qos (hi * 256 + lo) d rest h₁)
            ])

      published_IsValid :
          (qos n : ℕ) (c : Client World) (rest : List ℕ)
          → Handling C c rest
          → n ≡ length rest
          → ((qos ≡ 0) ⊎ (2 ≤ length rest))
          → Holds (IsValid C) (
              if qos == 0
              then deliver C 0 0 topic n retain c
              else (read C get_word c >>= λ r.
                  if (r.0 == 0) || ltb n 2
                  then close_connection C invalid_packet r.1
                  else deliver C qos r.0 topic (n - 2) retain r.1))
      published_IsValid qos n c rest h e q = elim (ℕ_discrete qos 0) [
        | yes z ↦ simp (eq→== qos 0 z, e) (deliver-IsValid 0 0 c rest h)
        | no z ↦
            simp (ne→== qos 0 z)
              (identified_IsValid qos n c rest h e (elim q [ inl z' ↦ absurd (z z') | inr l ↦ l ]))
      ]

    -- What `Receiver` has read when it has the topic.
    abbrev Topic : ℕ → ℕ → List ℕ → ℕ → List ℕ × Client World → Type 0
    Topic hi lo more remaining (topic, d) =
        ((topic ≡ []) × IsValid C d)
        ⊎ ((rest : List ℕ) × Handling C d rest
            × (length topic ≡ hi * 256 + lo)
            × (length topic + length rest ≡ length more)
            × (d.receive_packet.remaining_length ≡ remaining))

    read-Topic :
        (c : Client World) (hi lo : ℕ) (more : List ℕ)
        → Handling C c (hi ∷ lo ∷ more)
        → Holds
            (Topic hi lo more c.receive_packet.remaining_length)
            (read C (λ r. get_string r (c.max_topic_size + 1)) c)
    unfolding read
    read-Topic c hi lo more h =
        Holds->>= (Result frame_size hi lo more c.receive_packet)
          (Topic hi lo more c.receive_packet.remaining_length)
          (get_string c.receive_packet (c.max_topic_size + 1)) _
          (get_string-Result frame_size (c.max_topic_size + 1) c.receive_packet hi lo more
            h.holding)
          (λ (topic, r) t. taken topic r t)
      where
        taken :
            (topic : List ℕ) (r : ReceivePacket)
            → Result frame_size hi lo more c.receive_packet (topic, r)
            → Topic hi lo more c.receive_packet.remaining_length
                (topic, record c { receive_packet = r })
        taken topic r (inl (e, u)) = inl (e, received-IsValid C c r h.valid u)
        taken topic r (inr t) = inr (
          t.rest,
          record {
            valid = received-IsValid C c r h.valid t.holding.usable;
            up = h.up;
            holding = t.holding;
          },
          t.length_is,
          t.rest_is,
          t.remaining,
        )

    -- A PUBLISH packet leaves a valid client, whatever its topic and payload are, if it has quality of
    -- service 0, or its topic leaves room for a packet identifier.
    pub handle_publish-IsValid :
        (c : Client World) (hi lo : ℕ) (more : List ℕ)
        → Handling C c (hi ∷ lo ∷ more)
        → c.receive_packet.bytes_consumed ≡ 0
        → ((qos_of_flags c.receive_packet.flags ≡ 0) ⊎ (hi * 256 + lo + 2 ≤ length more))
        → Holds (IsValid C) (handle_publish C c)
    unfolding handle_publish
    handle_publish-IsValid c hi lo more h z q =
        Holds->>= (Topic hi lo more c.receive_packet.remaining_length) (IsValid C)
          (read C (λ r. get_string r (c.max_topic_size + 1)) c) _ (read-Topic c hi lo more h)
          (λ (topic, d) t. handled topic d t)
      where
        flags : ℕ
        flags = c.receive_packet.flags

        total : c.receive_packet.remaining_length ≡ 2 + length more
        total = omega (arith, h.holding.unread.left)

        small : c.receive_packet.remaining_length < 4294967296
        small = omega (
          arith, h.holding.unread.left, h.holding.inside, h.holding.usable.received,
          h.holding.usable.size, h.holding.usable.range,
        )

        payload_size : (d : Client World) (topic : List ℕ) → ℕ
        payload_size d topic =
            (d.receive_packet.remaining_length + u32_mod - (length topic + 2) % u32_mod) % u32_mod

        handled :
            (topic : List ℕ) (d : Client World)
            → Topic hi lo more c.receive_packet.remaining_length (topic, d)
            → Holds (IsValid C) (
                if length topic == 0
                then close_connection C not_supported d
                else if qos_of_flags flags == 0
                then deliver C 0 0 topic (payload_size d topic) (not (bit_and flags 1 == 0)) d
                else (read C get_word d >>= λ r.
                    if (r.0 == 0) || ltb (payload_size d topic) 2
                    then close_connection C invalid_packet r.1
                    else deliver C
                        (qos_of_flags flags)
                        r.0
                        topic
                        (payload_size d topic - 2)
                        (not (bit_and flags 1 == 0))
                        r.1))
        handled topic d (inl (e, v)) = rw e (close_connection-IsValid C F not_supported d v)
        handled topic d (inr (rest, h', l, s, m)) = elim (Bool-cases (length topic == 0)) [
          | inl e ↦ simp e (close_connection-IsValid C F not_supported d h'.valid)
          | inr e ↦ simp e (
              published_IsValid topic (not (bit_and flags 1 == 0)) (qos_of_flags flags)
                (payload_size d topic) d rest h' (omega (arith, m, total, small, l, s))
                (elim q [ inl y ↦ inl y | inr y ↦ inr (omega arith) ]))
        ]

  -- A PUBLISH packet of quality of service 1 or 2, with an ASCII topic of at most the maximum size, that
  -- ends less than two bytes behind its topic fails the assertion in `GetWord`.
  pub handle_publish_short :
      (c : Client World) (str rest : List ℕ)
      → Handling C c ((length str / 256) ∷ (length str % 256) ∷ (str ++ rest))
      → All IsAscii str
      → 0 < length str
      → length str ≤ c.max_topic_size
      → qos_of_flags c.receive_packet.flags ≢ 0
      → length rest < 2
      → handle_publish C c ≡ none
  unfolding handle_publish read
  handle_publish_short c str rest h a l m q s = simp (
    get_string_lem c.receive_packet (c.max_topic_size + 1) str rest h.holding.behind
        h.holding.unread a (omega arith),
    ne→== (length str) 0 (omega arith),
    ne→== (qos_of_flags c.receive_packet.flags) 0 q,
    get_word_short (moved c.receive_packet (2 + length str))
        (omega (arith, h.holding.unread.left, length-append str rest)),
  )
