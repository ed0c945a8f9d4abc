-- ===== src/Tls/Handshakes.antt =====
-- CTLSSocket::Connect against what the handshake does.
use circle_stdlib.Common.{
  ℕ, zero, suc, ◌<◌, ◌≡◌, refl, ap, true, false, Option, some, arith, ◌==◌, if◌then◌else◌, Holds,
}
use circle_stdlib.Common.Int.{is_negative}
use circle_stdlib.Net.{NetSubSystem}
use circle_stdlib.Net.Adapter.{AdaptedSocket, Net, object, connect_address}
use circle_stdlib.Tls.{
  Shaken, finished, wants_more, broken, TlsResult, success, verify_failed, tls_error, TlsLibrary,
}
use circle_stdlib.Tls.Socket.{TlsSocket, shake_hands, verify, start_tls, connect_tls}

module _ (C : NetSubSystem) (L : TlsLibrary C) where
  open C use {socket_connect}
  open L use {Ssl, ssl_handshake, ssl_verify_result}

  -- The handshake asks so many times for another call, and then gives this result, which is no such
  -- request.
  abbrev pub Shakes : ℕ → ℕ → Ssl → Net C → Shaken × Ssl × Net C → Type 0
  Shakes zero p context n (wants_more, context', n') = ⊥
  Shakes zero p context n end = ssl_handshake p context n ≡ end
  Shakes (suc k) p context n end =
      ((ssl_handshake p context n).0 ≡ wants_more)
      × Shakes k p (ssl_handshake p context n).1 (ssl_handshake p context n).2 end

  shake_hands-Shakes :
      (k fuel p : ℕ) (context : Ssl) (n : Net C) (r : Shaken) (context' : Ssl) (n' : Net C)
      → k < fuel
      → Shakes k p context n (r, context', n')
      → shake_hands C L fuel p context n ≡ (some r, context', n')
  unfolding shake_hands
  shake_hands-Shakes k zero p context n r context' n' l h = absurd (omega arith)
  shake_hands-Shakes zero (suc fuel) p context n wants_more context' n' l h = absurd h
  shake_hands-Shakes zero (suc fuel) p context n finished context' n' l h =
      rw (shake_hands, ap (λ x. x.0) h, ap (λ x. x.1) h, ap (λ x. x.2) h) refl
  shake_hands-Shakes zero (suc fuel) p context n (broken code) context' n' l h =
      rw (shake_hands, ap (λ x. x.0) h, ap (λ x. x.1) h, ap (λ x. x.2) h) refl
  shake_hands-Shakes (suc k) (suc fuel) p context n r context' n' l (h, hs) =
      rw (shake_hands, h) (shake_hands-Shakes k fuel p _ _ r context' n' (omega arith) hs)

  -- The results of `Connect` for the results of the handshake.
  abbrev pub Secured :
      TlsSocket Ssl → Shaken × Ssl × Net C → Option TlsResult × TlsSocket Ssl × Net C → Type 0
  Secured t (wants_more, context, n) q = ⊥
  Secured t (finished, context, n) q =
      (q.0 ≡ some (if ssl_verify_result context == 0 then success else verify_failed))
      × (q.1 ≡ record t { context = context; connected = true })
      × (q.2 ≡ n)
  Secured t (broken code, context, n) q =
      (q.0 ≡ some (tls_error code)) × (q.1 ≡ record t { context = context }) × (q.2 ≡ n)

  start_tls-Secured :
      (k fuel p : ℕ) (t : TlsSocket Ssl) (n : Net C) (r : Shaken) (context : Ssl) (n' : Net C)
      → k < fuel
      → Shakes k p t.context n (r, context, n')
      → Secured t (r, context, n') (start_tls C L fuel p t n)
  unfolding start_tls verify
  start_tls-Secured k fuel p t n finished context n' l s =
      let e = shake_hands-Shakes k fuel p t.context n finished context n' l s in
      rw (start_tls, ap (λ x. x.0) e, ap (λ x. x.1) e, ap (λ x. x.2) e) (refl, refl, refl)
  start_tls-Secured k fuel p t n (broken code) context n' l s =
      let e = shake_hands-Shakes k fuel p t.context n (broken code) context n' l s in
      rw (start_tls, ap (λ x. x.0) e, ap (λ x. x.1) e, ap (λ x. x.2) e) (refl, refl, refl)
  start_tls-Secured zero fuel p t n wants_more context n' l s = s
  start_tls-Secured (suc k) fuel p t n wants_more context n' l s = never k p _ _ context n' s.1
    where
      never :
          (k p : ℕ) (c : Ssl) (n : Net C) (c' : Ssl) (n' : Net C)
          → Shakes k p c n (wants_more, c', n')
          → ⊥
      never zero p c n c' n' s = s
      never (suc k) p c n c' n' s = never k p _ _ c' n' s.1

  -- A socket that is not connected yet.
  abbrev pub unconnected : Ssl → ℕ → TlsSocket Ssl
  unconnected context p = record { context = context; adapted = some p; connected = false }

  -- `Connect` on a connection that TCP has opened with a CSocket that is not null, with a handshake that ends at some time: its loop ends,
  -- and it succeeds if and only if the handshake does and the certificate of the server is verified. The
  -- socket counts as connected behind a handshake that succeeds.
  pub connect_tls-Secured :
      (k fuel ip port p : ℕ) (context : Ssl) (n : Net C) (a : AdaptedSocket C.Socket)
      (end : Shaken × Ssl × Net C)
      → object C p n ≡ some a
      → C.is_null a.socket ≡ false
      → is_negative (socket_connect n.world a.socket ip port).0 ≡ false
      → Shakes k p context (record n { world = (socket_connect n.world a.socket ip port).1 }) end
      → k < fuel
      → Holds
          (Secured (unconnected context p) end)
          (connect_tls C L fuel ip port (unconnected context p) n)
  unfolding connect_tls connect_address
  connect_tls-Secured k fuel ip port p context n a (r, context', n') e alive opened shakes l =
      rw (e, alive, opened)
        (start_tls-Secured k fuel p (unconnected context p)
          (record n { world = (socket_connect n.world a.socket ip port).1 }) r context' n' l shakes)
