-- ===== src/Mqtt/Client/ConnectPacket.antt =====
-- The CONNECT packet that CMQTTClient::Connect builds.
use circle_stdlib.Common.{
  ℕ, ◌≤◌, ◌<◌, ◌≡◌, refl, ap, inl, inr, Bool, true, List, [], ◌∷◌, Option, none, some, length,
  le→leb, lt→ltb, Holds, Holds->>=, Holds-known, Bool-cases, arith, ◌==◌, ◌>>=◌, ◌>>◌, assert, ltb,
  leb, if◌then◌else◌,
}
use circle_stdlib.Mqtt.{connect, protocol_level}
use circle_stdlib.Mqtt.SendPacket.{SendPacket}
use circle_stdlib.Mqtt.SendPacket.Body.{Field, byte, word, string, bytes, field_bytes, append}
use circle_stdlib.Mqtt.Client.Requests.{
  ConnectOptions, connect_flags, build_connect, append_will, append_login, will_qos_ok,
}
use circle_stdlib.Mqtt.Client.Methods.{Built, append-Built}

-- A text that a packet can hold, if there is one.
abbrev pub IsShort : Option (List ℕ) → Type 0
IsShort none = Unit
IsShort (some text) = length text < 65536

-- Arguments of `Connect` that can be written into a packet.
pub record IsWritable (o : ConnectOptions) : Type 0 where
  pub identifier : IsShort o.client_identifier
  pub user : IsShort o.username
  pub password : IsShort o.password
  pub topic : IsShort o.will_topic
  pub payload : length o.will_payload < 65536
  pub qos : o.will_qos ≤ 2

login-Built :
    (o : ConnectOptions) (p : SendPacket)
    → IsShort o.username
    → IsShort o.password
    → Built connect p
    → Holds (Built connect) (append_login o p)
unfolding append_login append
login-Built o p u s b = by_name o.username u
  where
    by_word :
        (word : Option (List ℕ)) (q : SendPacket)
        → IsShort word
        → Built connect q
        → Holds (Built connect) (elim word [ none ↦ some q | some w ↦ append q (string w) ])
    by_word none q s b = b
    by_word (some w) q s b = append-Built connect q (string w) b (omega (arith, s))

    by_name :
        (name : Option (List ℕ))
        → IsShort name
        → Holds (Built connect) (elim name [
          | none ↦ some p
          | some user ↦ append p (string user) >>= λ p₁. elim o.password [
            | none ↦ some p₁
            | some w ↦ append p₁ (string w)
          ]
        ])
    by_name none u = b
    by_name (some user) u =
        Holds->>= (Built connect) (Built connect) (append p (string user)) _
          (append-Built connect p (string user) b (omega (arith, u)))
          (λ q c. by_word o.password q s c)

will-Built :
    (o : ConnectOptions) (p : SendPacket)
    → IsShort o.will_topic
    → length o.will_payload < 65536
    → Built connect p
    → Holds (Built connect) (append_will o p)
unfolding append_will append
will-Built o p t l b = by_topic o.will_topic t
  where
    payload_there :
        (q : SendPacket)
        → Built connect q
        → Holds
            (Built connect)
            (if length o.will_payload == 0 then some q else append q (bytes o.will_payload))
    payload_there q c = elim (Bool-cases (length o.will_payload == 0)) [
      | inl z ↦ simp z c
      | inr z ↦ simp z (append-Built connect q (bytes o.will_payload) c (omega (arith, l)))
    ]

    by_topic :
        (topic : Option (List ℕ))
        → IsShort topic
        → Holds (Built connect) (elim topic [
          | none ↦ some p
          | some topic ↦ append p (string topic) >>= λ p₁.
              assert (ltb (length o.will_payload) 0x10000)
              >> (append p₁ (word (length o.will_payload)) >>= λ p₂.
                  if length o.will_payload == 0 then some p₂ else append p₂ (bytes o.will_payload))
        ])
    by_topic none t = b
    by_topic (some topic) t =
        Holds->>= (Built connect) (Built connect) (append p (string topic)) _
          (append-Built connect p (string topic) b (omega (arith, t)))
          (λ p₁ b₁.
            Holds-known _ (assert (ltb (length o.will_payload) 65536)) tt _
              (ap assert (lt→ltb (length o.will_payload) 65536 l))
              (Holds->>= (Built connect) (Built connect) (append p₁ (word (length o.will_payload)))
                _ (append-Built connect p₁ (word (length o.will_payload)) b₁ (omega arith))
                (λ p₂ b₂. payload_there p₂ b₂)))

will_qos-IsWritable : (o : ConnectOptions) → IsWritable o → will_qos_ok o ≡ true
unfolding will_qos_ok
will_qos-IsWritable o w = by_topic o.will_topic
  where
    by_topic :
        (t : Option (List ℕ))
        → elim t as (λ _. Bool) [ none ↦ true | some _ ↦ leb o.will_qos 2 ] ≡ true
    by_topic none = refl
    by_topic (some t) = le→leb o.will_qos 2 w.qos

pub connect-Built :
    (o : ConnectOptions) (identifier : List ℕ) (p : SendPacket)
    → IsWritable o
    → length identifier < 65536
    → Built connect p
    → Holds (Built connect) (build_connect o identifier p)
unfolding build_connect append
connect-Built o identifier p w l b = rw (will_qos-IsWritable o w) (
    then_append p (string (0x4d ∷ 0x51 ∷ 0x54 ∷ 0x54 ∷ [])) _ b (omega arith) (λ p₁ b₁.
      then_append p₁ (byte protocol_level) _ b₁ (omega arith) (λ p₂ b₂.
        then_append p₂ (byte (connect_flags o)) _ b₂ (omega arith) (λ p₃ b₃.
          then_append p₃ (word o.keep_alive) _ b₃ (omega arith) (λ p₄ b₄.
            then_append p₄ (string identifier) _ b₄ (omega (arith, l)) (λ p₅ b₅.
              Holds->>= (Built connect) (Built connect) (append_will o p₅) _
                (will-Built o p₅ w.topic w.payload b₅)
                (λ p₆ b₆. login-Built o p₆ w.user w.password b₆)))))))
  where
    then_append :
        (q : SendPacket) (f : Field) (k : SendPacket → Option SendPacket)
        → Built connect q
        → length (field_bytes f) < 2147483648
        → ((q' : SendPacket) → Built connect q' → Holds (Built connect) (k q'))
        → Holds (Built connect) (append q f >>= k)
    then_append q f k c n h =
        Holds->>= (Built connect) (Built connect) (append q f) k (append-Built connect q f c n) h
