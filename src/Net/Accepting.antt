-- ===== src/Net/Accepting.antt =====
-- Connections that mbedtls_net_accept accepts: CAdaptedSocket::Accept calls AddSocket for an object that
-- its constructor has in_table in the table already.
use circle_stdlib.Common.{
  ℕ, ◌≡◌, ◌≢◌, refl, sym, ap, ◌∙◌, true, false, List, [], ◌∷◌, Option, none, some, length,
  get_elem?, copy_in, Holds, Holds->>=, Holds-mono,
}
use circle_stdlib.Common.Int.{ℤ, pos}
use circle_stdlib.Net.{ok, NetSubSystem}
use circle_stdlib.Net.Adapter.{
  AdaptedSocket, Net, object, set_object, add_socket, remove_socket, adapt, adopt, delete_adapted,
  get_socket, accept_connection,
}
use circle_stdlib.Net.Contexts.{Context, is_too_small, wanted, net_accept, net_free}
use circle_stdlib.Net.Table.{overwrite, add_socket-get_elem?, add_socket_kept}
use circle_stdlib.Net.Handles.{set_object-split}
use circle_stdlib.Net.Opening.{fresh, adapt-object}

module _ (C : NetSubSystem) where
  open C use {World, Socket, socket_accept, has_memory}

  -- The handle stands for an object that has been deleted.
  abbrev pub IsDangling : ℤ → Net C → Type 0
  IsDangling fd s = (p : ℕ) × (get_socket C fd s ≡ some (some p)) × (object C p s ≡ none)

  -- The object has two slots, and only one of them is cleared when it is deleted.
  delete_adopted :
      (socket : Socket) (s : Net C)
      → Holds
          (λ s'. IsDangling (pos (adopt C socket s).0) s')
          (delete_adapted C (length s.objects) (adopt C socket s).1)
  unfolding adopt get_socket delete_adapted remove_socket adapt object
  delete_adopted socket s = rw found (
      Holds->>= _ _ (copy_in t first (none ∷ [])) _ (overwrite t first (some p) none (in_table.0))
        (λ t' (gone, kept, size).
          Holds-mono _ _ (set_object C p none (at t'))
            (λ s' (same, here, other, w). (
              p,
              ap (λ x. get_elem? x second) same
                  ∙ kept second (λ z. in_table.1 (sym z))
                  ∙ add_socket-get_elem? p made.table,
              here,
            ))
            (set_object-split C p (at t') (fresh C socket s) none found)))
    where
      p : ℕ
      p = length s.objects

      made : Net C
      made = (adapt C socket s).1

      first : ℕ
      first = (fresh C socket s).handle

      second : ℕ
      second = (add_socket p made.table).0

      t : List (Option ℕ)
      t = (add_socket p made.table).1

      at : List (Option ℕ) → Net C
      at t' = record made { table = t'; world = C.delete_socket made.world socket }

      found : object C p made ≡ some (fresh C socket s)
      found = adapt-object C socket s

      in_table : (get_elem? t first ≡ some (some p)) × (first ≢ second)
      in_table = add_socket_kept p made.table first p (add_socket-get_elem? p s.table)

  free_adopted :
      (socket : Socket) (s : Net C)
      → Holds
          (λ r. IsDangling (pos (adopt C socket s).0) r.1)
          (net_free C (record { fd = pos (adopt C socket s).0 }) (adopt C socket s).1)
  unfolding net_free get_socket adopt adapt
  free_adopted socket s = rw (add_socket-get_elem? (length s.objects) (adapt C socket s).1.table) (
      Holds->>= _ _ (delete_adapted C (length s.objects) (adopt C socket s).1) _
        (delete_adopted socket s) (λ s' h. h))

  -- A connection that `mbedtls_net_accept` accepts for the CSocket of a context, which is not null, if
  -- there is memory for its object and a buffer for the address is large enough: the context of the
  -- connection gets a handle and the address is given if there is a buffer for it. But when that context is
  -- freed, the handle still stands in the table for the object that has just been deleted.
  pub net_accept-IsDangling :
      (bound client : Context) (size : Option ℕ) (s : Net C) (p : ℕ) (a : AdaptedSocket Socket)
      (socket : Socket) (ip : ℕ) (w w' : World)
      → is_too_small size ≡ false
      → get_socket C bound.fd s ≡ some (some p)
      → object C p s ≡ some a
      → C.is_null a.socket ≡ false
      → socket_accept s.world a.socket ≡ (some (socket, ip), w)
      → has_memory w ≡ (true, w')
      → Holds
          (λ r.
            (r.0 ≡ ok (wanted size ip)) × Holds (λ q. IsDangling r.1.fd q.1) (net_free C r.1 r.2))
          (net_accept C bound client size s)
  unfolding net_accept accept_connection
  net_accept-IsDangling bound client size s p a socket ip w w' large found e alive accepted memory =
      rw
        (
          large,
          found,
          e,
          alive,
          ap (λ x. x.0) accepted,
          ap (λ x. (has_memory x.1).0) accepted ∙ ap (λ x. x.0) memory,
        )
        (refl, free_adopted socket (record s { world = _ }))
