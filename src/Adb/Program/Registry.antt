-- ===== src/Adb/Program/Registry.antt =====
-- The connection list of src/mcu/adb.c over whole programs.
use microbridge.Base.{
  ℕ, ◌+◌, ◌≡◌, refl, sym, subst, List, ◌∷◌, Bool, true, false, Option, none, some, arith, u32,
}
use microbridge.Base.Run.{Cmd}
use microbridge.Base.Keeps.{IsKeeping, modify-IsKeeping, bind-IsKeeping}
use microbridge.Usb.Poll.Keeping.{Steps}
use microbridge.Usb.Host.{init}
use microbridge.Adb.Link.{closed, Connection, Adb, transfer}
use microbridge.Adb.Connection.{for_each, add_connection, open_closed, close_if_open}
use microbridge.Adb.Discovery.{Configuration, scan}
use microbridge.Adb.Poll.{client, dispatch, adb_init}
use microbridge.Adb.History.{received, retried, dropped}
use microbridge.Adb.Registry.{Pointwise, for_each-Pointwise}
use microbridge.Adb.Keeping.{
  open_closed-IsKeeping, close_if_open-IsKeeping, dispatch-IsKeeping, written-IsKeeping,
  written_string-IsKeeping,
}
use microbridge.Adb.Keeping.Lists.{for_each-IsKeeping, for_place-IsKeeping}
use microbridge.Adb.Keeping.Polling.{Parts, handler-IsKeeping, run-IsKeeping}
use microbridge.Adb.Program.{Action, for_place, written, written_string, session}
use microbridge.Adb.Program.Frames.{
  Of, frame-IsKeeping, list-Calm, on_host-IsKeeping, Counted, list-Counted,
}
use microbridge.Adb.Program.Loops.{
  Past, once, for_place-Pointwise, written-Past, written_string-Past,
}

-- The connection that adb_addConnection makes.
abbrev added : Connection → List ℕ → Bool → Option ℕ → (n : ℕ) → Connection
added block string reconnect handler n = record block {
  connection_string = string;
  local_id = u32 n;
  last_connection_attempt = 0;
  status = closed;
  reconnect = reconnect;
  event_handler = handler;
}

module _ (fuel : ℕ) (handle : Configuration) (Q : List Connection → ℕ → Type 0)
    (moves : (cs ds : List Connection) (n : ℕ)
      → Pointwise (Past fuel handle) cs ds
      → Q cs n
      → Q ds n)
    (adds : (c : Connection) (cs : List Connection) (n : ℕ)
      → c.status ≡ closed
      → c.local_id ≡ u32 n
      → Q cs n
      → Q (c ∷ cs) (n + 1)) where
  -- A loop that leaves the counter alone and moves the connections.
  loop-IsKeeping :
      (m : Cmd Adb (Unit {0}))
      → ((n : ℕ) → IsKeeping (Counted n) m)
      → ((a b : Adb)
          → m a ≡ some (tt, b)
          → Pointwise (Past fuel handle) a.connections b.connections)
      → IsKeeping (Of Q) m
  loop-IsKeeping m counted past = record {
    after = λ a b r e q.
        subst (Q b.connections) (sym ((counted a.connection_local_id).after a b r e refl))
          (moves a.connections b.connections a.connection_local_id (past a b e) q);
  }

  list-Parts : Parts fuel handle (Of Q)
  unfolding scan transfer
  list-Parts = record {
    calm = list-Calm Q;
    configuration = λ conf i stack. frame-IsKeeping Q λ a b r e. ground arith;
    scanned = λ n buf. frame-IsKeeping Q λ a b r e. ground arith;
    preparation = λ i found stack. frame-IsKeeping Q λ a b r e. ground arith;
    chosen = λ i. modify-IsKeeping λ a p. p;
    dropped = modify-IsKeeping λ a p. p;
    closing =
        loop-IsKeeping (for_each close_if_open)
          (λ n.
            for_each-IsKeeping (Counted n) (list-Counted n) close_if_open
              (close_if_open-IsKeeping (Counted n) (list-Calm λ _ k. k ≡ n)))
          (for_each-Pointwise (Past fuel handle) close_if_open
            λ c d a b e. once fuel handle (dropped a b e));
    opening =
        loop-IsKeeping (for_each (open_closed fuel))
          (λ n.
            for_each-IsKeeping (Counted n) (list-Counted n) (open_closed fuel)
              (open_closed-IsKeeping (Counted n) (list-Calm λ _ k. k ≡ n) fuel))
          (for_each-Pointwise (Past fuel handle) (open_closed fuel)
            λ c d a b e. once fuel handle (retried a b e));
    dispatching = λ m.
        loop-IsKeeping (for_each (dispatch fuel handle m))
          (λ n.
            for_each-IsKeeping (Counted n) (list-Counted n) (dispatch fuel handle m)
              (dispatch-IsKeeping (Counted n) (list-Calm λ _ k. k ≡ n) fuel handle m))
          (for_each-Pointwise (Past fuel handle) (dispatch fuel handle m)
            λ c d a b e. once fuel handle (received m a b e));
  }

  list-Steps : Steps (client fuel handle) (Of Q)
  list-Steps = record {
    read = on_host-IsKeeping Q fuel handle _;
    poll = on_host-IsKeeping Q fuel handle _;
    address = λ n i d. on_host-IsKeeping Q fuel handle _;
    start = λ n. on_host-IsKeeping Q fuel handle _;
    move = λ n. on_host-IsKeeping Q fuel handle _;
    fail = λ n. on_host-IsKeeping Q fuel handle _;
    follow = on_host-IsKeeping Q fuel handle _;
    settle = on_host-IsKeeping Q fuel handle _;
    reset = on_host-IsKeeping Q fuel handle _;
    wait_reset = on_host-IsKeeping Q fuel handle _;
    wait_sof = on_host-IsKeeping Q fuel handle _;
    descriptor_size = λ n. on_host-IsKeeping Q fuel handle _;
    occupy = λ i. on_host-IsKeeping Q fuel handle _;
    put_back = λ d. on_host-IsKeeping Q fuel handle _;
    event = handler-IsKeeping fuel handle (Of Q) list-Parts;
  }

  add-IsKeeping :
      (block : Option Connection) (copied : Bool) (string : List ℕ) (reconnect : Bool)
      (h : Option ℕ)
      → IsKeeping (Of Q) (add_connection block copied string reconnect h)
  unfolding add_connection
  add-IsKeeping none copied string reconnect h = frame-IsKeeping Q λ a b r e. ground arith
  add-IsKeeping (some block) false string reconnect h = frame-IsKeeping Q λ a b r e. ground arith
  add-IsKeeping (some block) true string reconnect h = record {
    after = λ a b r e q.
        let c = added block string reconnect h a.connection_local_id in
        let f : b.connections ≡ c ∷ a.connections = ground arith in
        let g : b.connection_local_id ≡ a.connection_local_id + 1 = ground arith in
        subst (λ cs. Q cs b.connection_local_id) (sym f)
          (subst (Q (c ∷ a.connections)) (sym g)
            (adds c a.connections a.connection_local_id refl refl q));
  }

  -- A program that returns keeps the property from its start on.
  pub session-IsKeeping : (es : List Action) → IsKeeping (Of Q) (session fuel handle es)
  unfolding session adb_init
  session-IsKeeping es =
      bind-IsKeeping
        (bind-IsKeeping
          (modify-IsKeeping {f = λ a. record a { device = none; connected = false }} λ a p. p)
          λ _. on_host-IsKeeping Q fuel handle (init fuel))
        λ _.
          run-IsKeeping fuel handle (Of Q) list-Parts list-Steps add-IsKeeping
            (λ k bytes.
              loop-IsKeeping (for_place k (written fuel bytes))
                (λ n.
                  for_place-IsKeeping (Counted n) (list-Counted n) k (written fuel bytes)
                    (written-IsKeeping (Counted n) (list-Calm λ _ k. k ≡ n) fuel bytes))
                (for_place-Pointwise fuel handle k (written fuel bytes)
                  (written-Past fuel handle bytes)))
            (λ k str.
              loop-IsKeeping (for_place k (written_string fuel str))
                (λ n.
                  for_place-IsKeeping (Counted n) (list-Counted n) k (written_string fuel str)
                    (written_string-IsKeeping (Counted n) (list-Calm λ _ k. k ≡ n) fuel str))
                (for_place-Pointwise fuel handle k (written_string fuel str)
                  (written_string-Past fuel handle str)))
            es
