-- ===== src/Adb/Program/Loops.antt =====
-- The writes of a program over src/mcu/adb.c as steps of its connections.
use microbridge.Base.{ℕ, zero, suc, ◌≡◌, subst, List, [], ◌∷◌, some, arith}
use microbridge.Base.Run.{Cmd, bind-inv}
use microbridge.Adb.Link.{Connection, Adb}
use microbridge.Adb.Connection.{write, write_string}
use microbridge.Adb.Discovery.{Configuration}
use microbridge.Adb.History.{History, start, then_step, Step, wrote, wrote_string}
use microbridge.Adb.Registry.{Pointwise}
use microbridge.Adb.Program.{at_place, for_place, written, written_string}

module _ (fuel : ℕ) (handle : Configuration) where
  abbrev pub Past : Connection → Connection → Type 0
  Past = History fuel handle

  pub once : {c d : Connection} → Step fuel handle c d → Past c d
  once s = then_step start s

  pub Past-all : (cs : List Connection) → Pointwise Past cs cs
  Past-all [] = tt
  Past-all (c ∷ cs) = (start, Past-all cs)

  at_place-Pointwise :
      (k : ℕ) (body : Connection → Cmd Adb Connection)
      → ((c d : Connection) (a b : Adb) → body c a ≡ some (d, b) → Past c d)
      → (cs ds : List Connection) (a b : Adb) → at_place k body cs a ≡ some (ds, b)
      → Pointwise Past cs ds
  unfolding at_place
  at_place-Pointwise k body each [] ds a b h =
      let g : [] ≡ ds = ground arith in subst (Pointwise Past []) g tt
  at_place-Pointwise zero body each (c ∷ cs) ds a b h =
      let (d, a', e, f) = bind-inv (body c) _ a h in
      let g : d ∷ cs ≡ ds = ground arith in
      let rest : Pointwise Past (c ∷ cs) (d ∷ cs) = (each c d a a' e, Past-all cs) in
      subst (Pointwise Past (c ∷ cs)) g rest
  at_place-Pointwise (suc k) body each (c ∷ cs) ds a b h =
      let (es, a', e, f) = bind-inv (at_place k body cs) _ a h in
      let g : c ∷ es ≡ ds = ground arith in
      let rest : Pointwise Past (c ∷ cs) (c ∷ es) =
        (start, at_place-Pointwise k body each cs es a a' e) in
      subst (Pointwise Past (c ∷ cs)) g rest

  pub for_place-Pointwise :
      (k : ℕ) (body : Connection → Cmd Adb Connection)
      → ((c d : Connection) (a b : Adb) → body c a ≡ some (d, b) → Past c d)
      → (a b : Adb) → for_place k body a ≡ some (tt, b)
      → Pointwise Past a.connections b.connections
  unfolding for_place
  for_place-Pointwise k body each a b h =
      let (ds, a', e, f) = bind-inv (at_place k body a.connections) _ a h in
      let g : ds ≡ b.connections = ground arith in
      subst (Pointwise Past a.connections) g
        (at_place-Pointwise k body each a.connections ds a a' e)

  pub written-Past :
      (bytes : List ℕ) (c d : Connection) (a b : Adb)
      → written fuel bytes c a ≡ some (d, b)
      → Past c d
  unfolding written
  written-Past bytes c d a b h =
      let ((r, d'), a', e, f) = bind-inv (write fuel c bytes) _ a h in
      let g : d' ≡ d = ground arith in subst (Past c) g (once (wrote bytes r a a' e))

  pub written_string-Past :
      (str : List ℕ) (c d : Connection) (a b : Adb)
      → written_string fuel str c a ≡ some (d, b)
      → Past c d
  unfolding written_string
  written_string-Past str c d a b h =
      let ((r, d'), a', e, f) = bind-inv (write_string fuel c str) _ a h in
      let g : d' ≡ d = ground arith in subst (Past c) g (once (wrote_string str r a a' e))
