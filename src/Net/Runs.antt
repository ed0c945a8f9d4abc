-- ===== src/Net/Runs.antt =====
-- Sequences of calls of the network routines with several contexts.
use circle_stdlib.Common.{
  ℕ, ◌≤◌, ◌<◌, sym, subst, List, [], ◌∷◌, Option, some, length, get_elem?, get_elem?_lem, All,
  All-get_elem?, arith, ◌>>=◌, copy_in, copy_in-All, Holds, Holds->>=,
}
use circle_stdlib.Mqtt.{u32_mod}
use circle_stdlib.Net.{NetSubSystem}
use circle_stdlib.Net.Adapter.{Net}
use circle_stdlib.Net.Contexts.{Context}
use circle_stdlib.Net.Handles.{IsConsistent}
use circle_stdlib.Net.Kept.{AllFit}
use circle_stdlib.Net.Calls.{Call, HasSockets, run_call, IsGiven, IsGiven-mono, run_call-After}

module _ (C : NetSubSystem) where
  open C use {frame_size}

  -- Calls with these contexts, each with the number of its context.
  abbrev pub run_calls : ℕ → List (ℕ × Call) → List Context → Net C → Option (List Context × Net C)
  run_calls fuel [] ctxs s = some (ctxs, s)
  run_calls fuel ((i, call) ∷ calls) ctxs s = do
    ctx ← get_elem? ctxs i
    (ctx', s') ← run_call C fuel call ctx s
    ctxs' ← copy_in ctxs i (ctx' ∷ [])
    run_calls fuel calls ctxs' s'

  -- The contexts have no handles but such that have been given out.
  abbrev pub AllGiven : List Context → Net C → Type 0
  AllGiven ctxs s = All (λ ctx. IsGiven C ctx.fd s) ctxs

  AllGiven-mono :
      (ctxs : List Context) (s s' : Net C)
      → length s.table ≤ length s'.table
      → AllGiven ctxs s
      → AllGiven ctxs s'
  AllGiven-mono [] s s' l k = tt
  AllGiven-mono (ctx ∷ ctxs) s s' l (k, ks) =
      (IsGiven-mono C ctx.fd s s' l k, AllGiven-mono ctxs s s' l ks)

  abbrev pub AllBelow : ℕ → List (ℕ × Call) → Type 0
  AllBelow n calls = All (λ c. c.0 < n) calls

  -- Calls with several contexts in any order, but for mbedtls_net_accept, from a consistent table, whose
  -- objects have CSockets, and contexts with no handles but such that have been given out, where there is
  -- memory for every CSocket, though not for every object, and sockets deliver no more than a frame at
  -- once: none of them faults, whether or not its context has a socket or had one, and behind
  -- them the table is consistent and the contexts have such handles only.
  pub run_calls-IsConsistent :
      (fuel : ℕ) (calls : List (ℕ × Call)) (ctxs : List Context) (s : Net C)
      → AllFit C
      → HasSockets C
      → frame_size < u32_mod
      → AllBelow (length ctxs) calls
      → IsConsistent C s
      → AllGiven ctxs s
      → Holds (λ r. IsConsistent C r.1 × AllGiven r.0 r.1) (run_calls fuel calls ctxs s)
  run_calls-IsConsistent fuel [] ctxs s fit sockets small inside v k = (v, k)
  run_calls-IsConsistent fuel ((i, call) ∷ calls) ctxs s fit sockets small (below, inside) v k =
      let (ctx, e) = get_elem?_lem ctxs i below in
      rw e (
        Holds->>= _ _ (run_call C fuel call ctx s) _
          (run_call-After C fuel call ctx s fit sockets small v
            (All-get_elem? (λ c. IsGiven C c.fd s) ctxs i ctx k e))
          (λ r (w, given, l).
            Holds->>= _ _ (copy_in ctxs i (r.0 ∷ [])) _
              (copy_in-All (λ c. IsGiven C c.fd r.1) ctxs (r.0 ∷ []) i
                (AllGiven-mono ctxs s r.1 l k) (given, tt) (omega (arith, below)))
              (λ ctxs' (ks, same).
                run_calls-IsConsistent fuel calls ctxs' r.1 fit sockets small
                  (subst (λ n. AllBelow n calls) (sym same) inside) w ks)))
