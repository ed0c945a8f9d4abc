-- ===== src/Net/Opening.antt =====
-- Objects of CAdaptedSocket that are made and deleted.
use circle_stdlib.Common.{
  false, ℕ, ◌≤◌, ◌≡◌, ◌≢◌, refl, sym, ap, ◌∙◌, subst, List, [], ◌∷◌, ◌++◌, Option, none, some,
  length, get_elem?, get_elem?-append, drop, arith, copy_in, Holds, Holds->>=, Holds-mono, true,
  ◌⊎◌, inl, inr,
}
use circle_stdlib.Net.{NetSubSystem}
use circle_stdlib.Net.Adapter.{
  AdaptedSocket, Net, flatten, object, set_object, add_socket, remove_socket, adapt, delete_adapted,
}
use circle_stdlib.Net.Store.{flatten-some}
use circle_stdlib.Net.Stream.{Pending}
use circle_stdlib.Net.Table.{overwrite, add_socket-get_elem?, add_socket_kept, add_socket_old}
use circle_stdlib.Net.Handles.{
  get_elem?_more, get_elem?_last, the_same, IsConsistent, set_object-split,
}

module _ (C : NetSubSystem) where
  open C use {World, Socket, new_socket}

  -- The object that the constructor makes.
  abbrev pub fresh : Socket → Net C → AdaptedSocket Socket
  fresh socket s = record {
    socket = socket;
    handle = (add_socket (length s.objects) s.table).0;
    rx = [];
    valid = 0;
    used = 0;
    block = true;
  }

  pub adapt-object :
      (socket : Socket) (s : Net C)
      → object C (adapt C socket s).0 (adapt C socket s).1 ≡ some (fresh socket s)
  unfolding object adapt
  adapt-object socket s =
      ap (flatten C) (get_elem?-append (length s.objects) s.objects (some (fresh socket s)) [] refl)

  object_more :
      (socket : Socket) (s : Net C) (p : ℕ) (a : AdaptedSocket Socket)
      → object C p s ≡ some a
      → object C p (adapt C socket s).1 ≡ some a
  unfolding object adapt
  object_more socket s p a e = ap (flatten C) (
      get_elem?_more s.objects (some (fresh socket s) ∷ []) p (some a)
        (flatten-some (get_elem? s.objects p) a e))

  object_last :
      (socket : Socket) (s : Net C) (p : ℕ) (a : AdaptedSocket Socket)
      → object C p (adapt C socket s).1 ≡ some a
      → (object C p s ≡ some a) ⊎ ((p ≡ length s.objects) × (fresh socket s ≡ a))
  unfolding object adapt
  object_last socket s p a e =
      elim (get_elem?_last s.objects (some (fresh socket s)) (some a) p
        (flatten-some (get_elem? (s.objects ++ (some (fresh socket s) ∷ [])) p) a e)) [
          | inl f ↦ inl (ap (flatten C) f)
          | inr f ↦ inr (f.0, the_same (fresh socket s) a f.1)
        ]

  pub adapt-length : (t : List (Option ℕ)) (p : ℕ) → length t ≤ length (add_socket p t).1
  unfolding add_socket
  adapt-length [] p = omega arith
  adapt-length (none ∷ t) p = omega arith
  adapt-length (some q ∷ t) p = omega (arith, adapt-length t p)

  pub adapt-IsConsistent :
      (socket : Socket) (s : Net C)
      → C.is_null socket ≡ false
      → IsConsistent C s
      → IsConsistent C (adapt C socket s).1
  unfolding adapt
  adapt-IsConsistent socket s alive v = record {
    in_table = λ q b e. elim (object_last socket s q b e) [
      | inl f ↦ (add_socket_kept (length s.objects) s.table b.handle q (v.in_table q b f)).0
      | inr f ↦
          subst (λ x. get_elem? t x.handle ≡ some (some q)) f.1
            (subst (λ x. get_elem? t (fresh socket s).handle ≡ some (some x)) (sym f.0)
              (add_socket-get_elem? (length s.objects) s.table))
    ];
    points = λ h q e. elim (add_socket_old (length s.objects) s.table h q e) [
      | inr f ↦ let (b, g, k) = v.points h q f in (b, object_more socket s q b g, k)
      | inl f ↦ (
        fresh socket s,
        subst (λ x. object C x (adapt C socket s).1 ≡ some (fresh socket s)) (sym f.1)
            (adapt-object socket s),
        sym f.0,
      )
    ];
    sound = λ q b e. elim (object_last socket s q b e) [
      | inl f ↦ v.sound q b f
      | inr f ↦
          subst (λ x. Pending C x (drop x.used x.rx)) f.1
            (record {
              rest = refl;
              whole = refl;
              inside = omega arith;
              small = omega arith;
              exists = alive;
            })
    ];
  }
    where
      t : List (Option ℕ)
      t = (add_socket (length s.objects) s.table).1

  some_other : {A : Type 0} (x : A) → none ≡ some x → ⊥
  some_other x e = cc

  -- No object has a slot that has been cleared.
  cleared :
      (t : List (Option ℕ)) (h q : ℕ)
      → get_elem? t h ≡ some none
      → get_elem? t h ≡ some (some q)
      → ⊥
  cleared t h q e f = some_other q (the_element none (some q) (sym e ∙ f))
    where
      the_element : (x y : Option ℕ) → some x ≡ some y → x ≡ y
      the_element x y e = cc

  -- Two objects with one handle are one.
  same_handle :
      (s : Net C) (p q : ℕ) (a b : AdaptedSocket Socket)
      → IsConsistent C s
      → object C p s ≡ some a
      → object C q s ≡ some b
      → b.handle ≡ a.handle
      → q ≡ p
  same_handle s p q a b v e f g =
      the_entry q p (sym (v.in_table q b f) ∙ ap (λ x. get_elem? s.table x) g ∙ v.in_table p a e)
    where
      the_entry : (q p : ℕ) → some (some q) ≡ some (some p) → q ≡ p
      the_entry q p f = cc

  -- A state without the object `p`, and with its slot cleared.
  deleted-IsConsistent :
      (p : ℕ) (s s' : Net C) (a : AdaptedSocket Socket)
      → object C p s ≡ some a
      → IsConsistent C s
      → get_elem? s'.table a.handle ≡ some none
      → ((h : ℕ) → h ≢ a.handle → get_elem? s'.table h ≡ get_elem? s.table h)
      → object C p s' ≡ none
      → ((q : ℕ) → q ≢ p → object C q s' ≡ object C q s)
      → IsConsistent C s'
  deleted-IsConsistent p s s' a e v gone kept here other = record {
    in_table = λ q b f.
        let f' : object C q s ≡ some b = sym (other q (alive q b f)) ∙ f in
        kept b.handle (λ g. alive q b f (same_handle s p q a b v e f' g)) ∙ v.in_table q b f';
    points = λ h q f.
        let (b, g, k) = v.points h q (sym (kept h (in_use h q f)) ∙ f) in
        (b, other q (λ z. in_use h q f (sym k ∙ handle_of q b z g)) ∙ g, k);
    sound = λ q b f. v.sound q b (sym (other q (alive q b f)) ∙ f);
  }
    where
      alive : (q : ℕ) (b : AdaptedSocket Socket) → object C q s' ≡ some b → q ≢ p
      alive q b f z = some_other b (sym here ∙ ap (λ x. object C x s') (sym z) ∙ f)

      in_use : (h q : ℕ) → get_elem? s'.table h ≡ some (some q) → h ≢ a.handle
      in_use h q f z = cleared s'.table a.handle q gone (ap (λ x. get_elem? s'.table x) (sym z) ∙ f)

      handle_of :
          (q : ℕ) (b : AdaptedSocket Socket) → q ≡ p → object C q s ≡ some b → b.handle ≡ a.handle
      handle_of q b z g = ap (λ x. x.handle) (the_same b a (sym g ∙ ap (λ x. object C x s) z ∙ e))

  -- The destructor.
  pub delete_adapted-IsConsistent :
      (p : ℕ) (s : Net C) (a : AdaptedSocket Socket)
      → object C p s ≡ some a
      → IsConsistent C s
      → Holds (λ s'. IsConsistent C s' × (length s'.table ≡ length s.table)) (delete_adapted C p s)
  unfolding delete_adapted remove_socket object
  delete_adapted-IsConsistent p s a e v = rw e (
      Holds->>= _ _ (copy_in s.table a.handle (none ∷ [])) _
        (overwrite s.table a.handle (some p) none (v.in_table p a e))
        (λ t (gone, kept, size).
          Holds-mono _ _ (set_object C p none (at t))
            (λ s' (t', here, other, w). (
              deleted-IsConsistent p s s' a e v (ap (λ x. get_elem? x a.handle) t' ∙ gone)
                  (λ h n. ap (λ x. get_elem? x h) t' ∙ kept h n) here other,
              ap length t' ∙ size,
            ))
            (set_object-split C p (at t) a none e)))
    where
      at : List (Option ℕ) → Net C
      at t = record s { table = t; world = C.delete_socket s.world a.socket }
