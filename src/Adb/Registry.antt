-- ===== src/Adb/Registry.antt =====
-- The connection list of src/mcu/adb.c: adb_addConnection, and what the loops along it do.
use microbridge.Base.{
  ℕ, ◌<◌, ◌≡◌, refl, sym, subst, inl, inr, Bool, true, false, not, ◌&&◌, List, [], ◌∷◌, Option,
  none, some, arith, ◌==◌, u32, Option-cases, Bool-cases, if◌then◌else◌,
}
use microbridge.Base.Run.{Cmd}
use microbridge.Adb.Link.{unused, closed, Connection, Adb, adb_read}
use microbridge.Adb.Message.{Message, a_cnxn}
use microbridge.Adb.Connection.{is, add_connection, visit, for_each, fire_global_event}
use microbridge.Adb.Discovery.{Configuration}
use microbridge.Adb.Poll.{dispatch, handle_message, handle_connect}
use microbridge.Adb.States.{Follows, dispatch-Follows, dispatch_other}

-- The ids fall along the list and stay below `n`: no two connections have the same one.
abbrev pub Below : ℕ → List Connection → Type 0
Below n [] = Unit {0}
Below n (c ∷ cs) = (c.local_id < n) × Below c.local_id cs

-- The members of two lists are related in order.
abbrev pub Pointwise :
    (Connection → Connection → Type 0) → List Connection → List Connection → Type 0
Pointwise R [] [] = Unit {0}
Pointwise R [] (d ∷ ds) = ⊥
Pointwise R (c ∷ cs) [] = ⊥
Pointwise R (c ∷ cs) (d ∷ ds) = R c d × Pointwise R cs ds

-- Unless the counter of ids, a 16-bit int, is at its last value, a connection that is added is a closed
-- one with a new id at the front of the list, so the ids stay distinct; if there is no memory, nothing
-- changes.
pub add_connection-Below :
    (block : Option Connection) (copied reconnect : Bool) (string : List ℕ) (handler : Option ℕ)
    (a : Adb)
    → Below a.connection_local_id a.connections
    → a.connection_local_id < 0x7fff
    → (done : Bool) × (b : Adb) × (add_connection block copied string reconnect handler a
        ≡ some (done, b))
      × Below b.connection_local_id b.connections
      × (if done
          then ((c : Connection) × (b.connections ≡ c ∷ a.connections)
              × (c.status ≡ closed)
              × (c.connection_string ≡ string)
              × (c.local_id ≡ a.connection_local_id))
          else b ≡ a)
unfolding add_connection
add_connection-Below none copied reconnect string handler a u h = (false, a, refl, u, refl)
add_connection-Below (some block) false reconnect string handler a u h = (false, a, refl, u, refl)
add_connection-Below (some block) true reconnect string handler a u h =
    let e : u32 a.connection_local_id ≡ a.connection_local_id = omega arith in
    (
      true,
      _,
      refl,
      (omega arith, subst (λ n. Below n a.connections) (sym e) u),
      (_, refl, refl, refl, omega arith),
    )

-- A loop relates the lists before and after it as its body relates the connections.
visit-Pointwise :
    (R : Connection → Connection → Type 0) (body : Connection → Cmd Adb Connection)
    → ((c d : Connection) (a b : Adb) → body c a ≡ some (d, b) → R c d)
    → (cs ds : List Connection) (a b : Adb) → visit body cs a ≡ some (ds, b)
    → Pointwise R cs ds
unfolding visit
visit-Pointwise R body each [] ds a b h =
    let e : [] ≡ ds = ground arith in subst (Pointwise R []) e tt
visit-Pointwise R body each (c ∷ cs) ds a b h = elim (Option-cases (body c a)) [
  | inl e ↦ absurd (ground arith)
  | inr ((d, a'), e) ↦ elim (Option-cases (visit body cs a')) [
    | inl f ↦ absurd (ground arith)
    | inr ((ds', b'), f) ↦
        let g : d ∷ ds' ≡ ds = ground arith in
        let rest : Pointwise R (c ∷ cs) (d ∷ ds') =
          (each c d a a' e, visit-Pointwise R body each cs ds' a' b' f) in
        subst (Pointwise R (c ∷ cs)) g rest
  ]
]

pub for_each-Pointwise :
    (R : Connection → Connection → Type 0) (body : Connection → Cmd Adb Connection)
    → ((c d : Connection) (a b : Adb) → body c a ≡ some (d, b) → R c d)
    → (a b : Adb) → for_each body a ≡ some (tt, b)
    → Pointwise R a.connections b.connections
unfolding for_each
for_each-Pointwise R body each a b h = elim (Option-cases (visit body a.connections a)) [
  | inl e ↦ absurd (ground arith)
  | inr ((ds, a'), e) ↦
      let g : ds ≡ b.connections = ground arith in
      subst (Pointwise R a.connections) g (visit-Pointwise R body each a.connections ds a a' e)
]

connect-frame :
    (fuel : ℕ) (m : Message) (a b : Adb)
    → handle_connect fuel m a ≡ some (tt, b)
    → b.connections ≡ a.connections
unfolding handle_connect adb_read fire_global_event
connect-frame fuel m a b h = ground arith

module _ (fuel : ℕ) (handle : Configuration) (m : Message) where
  -- The message moves the connections that it is for along the protocol, and no other.
  abbrev pub Touched : Connection → Connection → Type 0
  Touched c d = if not (is c.status unused) && c.local_id == m.arg1 then Follows c d else d ≡ c

  dispatch-Touched :
      (c d : Connection) (a b : Adb) → dispatch fuel handle m c a ≡ some (d, b) → Touched c d
  dispatch-Touched c d a b h =
      elim (Bool-cases (not (is c.status unused) && c.local_id == m.arg1)) [
        | inl e ↦ rw e (dispatch-Follows fuel handle m c d a b h)
        | inr e ↦ rw e (ground (arith, dispatch_other fuel handle m c a e))
      ]

  -- A message that comes in moves only the used connections with its id, and these along the protocol;
  -- the list keeps its length and order.
  pub handle_message-Touched :
      (a b : Adb)
      → handle_message fuel handle (some m) a ≡ some (tt, b)
      → Pointwise Touched a.connections b.connections
  unfolding handle_message
  handle_message-Touched a b h = elim (Bool-cases (m.command == a_cnxn)) [
    | inl e ↦ elim (Option-cases (handle_connect fuel m a)) [
      | inl f ↦ absurd (ground arith)
      | inr ((u, a'), f) ↦
          let same : a'.connections ≡ a.connections = connect-frame fuel m a a' (ground arith) in
          subst (λ cs. Pointwise Touched cs b.connections) same
            (for_each-Pointwise Touched (dispatch fuel handle m) dispatch-Touched a' b
              (ground arith))
    ]
    | inr e ↦
        for_each-Pointwise Touched (dispatch fuel handle m) dispatch-Touched a b (ground arith)
  ]
