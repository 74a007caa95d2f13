-- ===== src/Adb/Keeping/Lists.antt =====
-- Properties of the state that the loops along the connection list of src/mcu/adb.c keep.
use microbridge.Base.{ℕ, zero, suc, ◌∷◌, List, []}
use microbridge.Base.Run.{Cmd, modify}
use microbridge.Base.Keeps.{IsKeeping, pure-IsKeeping, bind-IsKeeping, get-IsKeeping}
use microbridge.Adb.Link.{Connection, Adb}
use microbridge.Adb.Connection.{for_each, visit}
use microbridge.Adb.Program.{at_place, for_place}

module _ (P : Adb → Type 0) where
  pub visit-IsKeeping :
      (body : Connection → Cmd Adb Connection)
      → ((c : Connection) → IsKeeping P (body c))
      → (cs : List Connection) → IsKeeping P (visit body cs)
  unfolding visit
  visit-IsKeeping body keep [] = pure-IsKeeping
  visit-IsKeeping body keep (c ∷ cs) =
      bind-IsKeeping (keep c)
        λ c'. bind-IsKeeping (visit-IsKeeping body keep cs) λ cs'. pure-IsKeeping {a = c' ∷ cs'}

  pub at_place-IsKeeping :
      (k : ℕ) (body : Connection → Cmd Adb Connection)
      → ((c : Connection) → IsKeeping P (body c))
      → (cs : List Connection) → IsKeeping P (at_place k body cs)
  unfolding at_place
  at_place-IsKeeping k body keep [] = pure-IsKeeping
  at_place-IsKeeping zero body keep (c ∷ cs) =
      bind-IsKeeping (keep c) λ c'. pure-IsKeeping {a = c' ∷ cs}
  at_place-IsKeeping (suc k) body keep (c ∷ cs) =
      bind-IsKeeping (at_place-IsKeeping k body keep cs) λ cs'. pure-IsKeeping {a = c ∷ cs'}

-- The list can be replaced.
module _ (P : Adb → Type 0)
    (replaced : (cs : List Connection)
      → IsKeeping P (modify λ a. record a { connections = cs })) where
  pub for_each-IsKeeping :
      (body : Connection → Cmd Adb Connection)
      → ((c : Connection) → IsKeeping P (body c))
      → IsKeeping P (for_each body)
  unfolding for_each
  for_each-IsKeeping body keep =
      bind-IsKeeping get-IsKeeping
        λ a. bind-IsKeeping (visit-IsKeeping P body keep a.connections) λ cs. replaced cs

  pub for_place-IsKeeping :
      (k : ℕ) (body : Connection → Cmd Adb Connection)
      → ((c : Connection) → IsKeeping P (body c))
      → IsKeeping P (for_place k body)
  unfolding for_place
  for_place-IsKeeping k body keep =
      bind-IsKeeping get-IsKeeping
        λ a. bind-IsKeeping (at_place-IsKeeping P k body keep a.connections) λ cs. replaced cs
