-- ===== src/Adb/Program/Life.antt =====
-- What becomes of the connections of src/mcu/adb.c in a whole program.
use microbridge.Base.{ℕ, ◌<◌, ◌≡◌, List, [], ◌∷◌, some, arith, subst, sym}
use microbridge.Adb.Link.{closed, Connection, Adb}
use microbridge.Adb.Discovery.{Configuration}
use microbridge.Adb.History.{start, then_step, History-Lives}
use microbridge.Adb.Registry.{Below, Pointwise}
use microbridge.Adb.Program.{Action, session}
use microbridge.Adb.Program.Loops.{Past, Past-all}
use microbridge.Adb.Program.Registry.{session-IsKeeping}

module _ (fuel : ℕ) (handle : Configuration) where
  -- A list of connections, each of which goes back to one of the list `cs`, in its order, or to one that
  -- was added, closed, in front of it.
  pub data Grown (cs : List Connection) : List Connection → Type 0 where
    kept : {ds : List Connection} → Pointwise (Past fuel handle) cs ds → Grown cs ds
    added :
        {ds : List Connection} (c d : Connection)
        → c.status ≡ closed
        → Past fuel handle c d
        → Grown cs ds
        → Grown cs (d ∷ ds)

  Past-trans :
      (c : Connection) {d e : Connection}
      → Past fuel handle c d
      → Past fuel handle d e
      → Past fuel handle c e
  Past-trans c p start = p
  Past-trans c p (then_step q s) = then_step (Past-trans c p q) s

  Pointwise-trans :
      (cs ds es : List Connection)
      → Pointwise (Past fuel handle) cs ds
      → Pointwise (Past fuel handle) ds es
      → Pointwise (Past fuel handle) cs es
  Pointwise-trans [] [] [] p q = tt
  Pointwise-trans [] [] (e ∷ es) p q = elim q [ ]
  Pointwise-trans [] (d ∷ ds) es p q = elim p [ ]
  Pointwise-trans (c ∷ cs) [] es p q = elim p [ ]
  Pointwise-trans (c ∷ cs) (d ∷ ds) [] p q = elim q [ ]
  Pointwise-trans (c ∷ cs) (d ∷ ds) (e ∷ es) (p, ps) (q, qs) =
      (Past-trans c p q, Pointwise-trans cs ds es ps qs)

  grown_front :
      (cs ds : List Connection) (c d : Connection) (es : List Connection)
      → c.status ≡ closed
      → Past fuel handle c d
      → ((fs : List Connection) → Pointwise (Past fuel handle) ds fs → Grown cs fs)
      → Pointwise (Past fuel handle) (d ∷ ds) es
      → Grown cs es
  grown_front cs ds c d [] u p rest m = elim m [ ]
  grown_front cs ds c d (e ∷ es) u p rest (m, ms) = added c e u (Past-trans c p m) (rest es ms)

  Grown-moves :
      (cs : List Connection) {ds : List Connection}
      → Grown cs ds
      → (es : List Connection) → Pointwise (Past fuel handle) ds es
      → Grown cs es
  Grown-moves cs {ds} (kept p) es m = kept (Pointwise-trans cs ds es p m)
  Grown-moves cs (added {ds} c d u p g) es m =
      grown_front cs ds c d es u p (λ fs n. Grown-moves cs g fs n) m

  -- In every program of adb_init and calls of adb_poll, adb_addConnection, adb_write and
  -- adb_writeString, in any order, that returns, the list of connections only grows at its front: each
  -- connection goes back, through steps of its history, to the one that stood at its place at the start,
  -- or to a closed one that was added.
  pub session-Grown :
      (es : List Action) (a b : Adb)
      → session fuel handle es a ≡ some (tt, b)
      → Grown a.connections b.connections
  session-Grown es a b p =
      (session-IsKeeping fuel handle (λ ds n. Grown a.connections ds)
          (λ cs ds n m g. Grown-moves a.connections g ds m) (λ c ds n u e g. added c c u start g)
          es).after
        a b tt p (kept (Past-all fuel handle a.connections))

  Below-moves :
      (cs ds : List Connection) (n : ℕ)
      → Pointwise (Past fuel handle) cs ds
      → Below n cs
      → Below n ds
  Below-moves [] [] n m b = tt
  Below-moves [] (d ∷ ds) n m b = elim m [ ]
  Below-moves (c ∷ cs) [] n m b = elim m [ ]
  Below-moves (c ∷ cs) (d ∷ ds) n (m, ms) (lt, b) =
      let e : d.local_id ≡ c.local_id = (History-Lives fuel handle m).id in
      (rw e lt, subst (λ k. Below k ds) (sym e) (Below-moves cs ds c.local_id ms b))

  -- In every such program the ids of the connections stay distinct, and below the counter, as long as
  -- the counter, a 16-bit int, has not passed its last value.
  pub session-Below :
      (es : List Action) (a b : Adb)
      → Below a.connection_local_id a.connections
      → session fuel handle es a ≡ some (tt, b)
      → b.connection_local_id < 0x8000
      → Below b.connection_local_id b.connections
  session-Below es a b u p =
      (session-IsKeeping fuel handle (λ ds n. n < 0x8000 → Below n ds)
          (λ cs ds n m g lt. Below-moves cs ds n m (g lt))
          (λ c ds n u e g lt.
            let f : c.local_id ≡ n = omega (arith, e) in
            (omega (arith, f), subst (λ k. Below k ds) (sym f) (g (omega arith))))
          es).after
        a b tt p (λ lt. u)
