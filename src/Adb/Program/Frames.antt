-- ===== src/Adb/Program/Frames.antt =====
-- Properties of the connection list and the counter of ids in src/mcu/adb.c, over what changes neither.
use microbridge.Base.{ℕ, ◌≡◌, sym, subst, List, some, arith}
use microbridge.Base.Run.{Cmd, modify}
use microbridge.Base.Keeps.{IsKeeping, modify-IsKeeping}
use microbridge.Usb.Poll.{on_host}
use microbridge.Usb.Host.{Host}
use microbridge.Adb.Link.{
  Connection, Adb, on_board, adb_read, adb_bulk_write, adb_transfer, transfer,
}
use microbridge.Adb.Discovery.{Configuration}
use microbridge.Adb.Poll.{client}
use microbridge.Adb.Keeping.{Calm}

-- A property of the list and of the counter of ids.
module _ (Q : List Connection → ℕ → Type 0) where
  abbrev pub Of : Adb → Type 0
  Of a = Q a.connections a.connection_local_id

  -- A command that leaves both alone.
  pub frame-IsKeeping :
      {A : Type 0} {m : Cmd Adb A}
      → ((a b : Adb) (r : A)
          → m a ≡ some (r, b)
          → (b.connections ≡ a.connections) × (b.connection_local_id ≡ a.connection_local_id))
      → IsKeeping Of m
  frame-IsKeeping same = record {
    after = λ a b r e q.
        let (f, g) = same a b r e in
        subst (λ cs. Q cs b.connection_local_id) (sym f) (subst (Q a.connections) (sym g) q);
  }

  pub list-Calm : Calm Of
  unfolding adb_read adb_bulk_write adb_transfer transfer on_board
  list-Calm = record {
    read = λ fuel length poll. frame-IsKeeping λ a b r e. ground arith;
    bulk_write = λ fuel bytes. frame-IsKeeping λ a b r e. ground arith;
    clock = frame-IsKeeping λ a b r e. ground arith;
    wait = λ fuel ms. frame-IsKeeping λ a b r e. ground arith;
    notice = λ n. frame-IsKeeping λ a b r e. ground arith;
    call = λ c. modify-IsKeeping λ a p. p;
    greeted = modify-IsKeeping λ a p. p;
  }

  pub on_host-IsKeeping :
      (fuel : ℕ) (handle : Configuration)
      → {A : Type 0} (m : Cmd Host A) → IsKeeping Of (on_host (client fuel handle) m)
  unfolding on_host
  on_host-IsKeeping fuel handle m = frame-IsKeeping λ a b r e. ground arith

-- The counter of ids has a value.
abbrev pub Counted : ℕ → Adb → Type 0
Counted n = Of (λ _ k. k ≡ n)

pub list-Counted :
    (n : ℕ) (cs : List Connection)
    → IsKeeping (Counted n) (modify λ a. record a { connections = cs })
list-Counted n cs = modify-IsKeeping λ a p. p
