-- ===== src/Adb/Console.antt =====
-- The functions of src/mcu/adb.c that do not look at what has been printed.
use microbridge.Base.{ℕ, ◌≡◌, refl, ap, ◌∙◌, List, [], ◌∷◌, Bool, Option, none, some}
use microbridge.Base.Run.{Cmd}
use microbridge.Base.Mute.{IsMute, outcome_set, pure-IsMute, bind-IsMute, if_IsMute, get-IsMute}
use microbridge.Shield.{Shield, Notice}
use microbridge.Shield.Console.{talked}
use microbridge.Usb.Device.{Device}
use microbridge.Usb.Host.{set_device}
use microbridge.Usb.Transfer.Console.{bulk_read-IsMute}
use microbridge.Usb.Output.Console.{bulk_write-IsMute}
use microbridge.Adb.Link.{
  EventType, Connection, Adb, transfer, adb_transfer, adb_read, adb_bulk_write,
}
use microbridge.Adb.Message.{Message, write_empty_message}
use microbridge.Adb.Connection.{call_handler, fire_event, visit, handle_okay, handle_close}

-- The program with another console.
abbrev pub chatted : List Notice → Adb → Adb
chatted k a = record a { host = record (a.host) { shield = talked k a.host.shield } }

-- A transfer that ended, written back.
abbrev put_back : {A : Type 0} → (i : ℕ) → Adb → Option ((A × Device) × Shield) → Option (A × Adb)
put_back i a none = none
put_back i a (some ((r, d), s)) =
    some (r, record a { host = set_device (record (a.host) { shield = s }) i d })

put_back-chatted :
    {A : Type 0} (k : List Notice) (i : ℕ) (a : Adb) (o : Option ((A × Device) × Shield))
    → put_back i (chatted k a) (outcome_set (talked k) o) ≡ outcome_set (chatted k) (put_back i a o)
put_back-chatted k i a none = refl
put_back-chatted k i a (some ((r, d), s)) = refl

module _ {k : List Notice} where
  transfer-IsMute :
      {A : Type 0} {m : Device → Cmd Shield (A × Device)}
      → ((d : Device) → IsMute (talked k) (m d))
      → (i : ℕ) → IsMute (chatted k) (transfer m i)
  unfolding transfer
  transfer-IsMute {A} {m} mute i = record {
    at = λ a.
        ap (put_back i (chatted k a)) ((mute (a.host.table i)).at a.host.shield)
        ∙ put_back-chatted k i a (m (a.host.table i) a.host.shield);
  }

  adb_transfer-IsMute :
      {A : Type 0} {m : Device → Cmd Shield (A × Device)}
      → ((d : Device) → IsMute (talked k) (m d))
      → IsMute (chatted k) (adb_transfer m)
  unfolding adb_transfer
  adb_transfer-IsMute {A} {m} mute = record { at = λ a. go a.device a }
    where
      go :
          (device : Option ℕ) (a : Adb)
          → elim device [ none ↦ none | some i ↦ transfer m i (chatted k a) ]
            ≡ outcome_set (chatted k) (elim device [ none ↦ none | some i ↦ transfer m i a ])
      go none a = refl
      go (some i) a = (transfer-IsMute mute i).at a

  pub adb_read-IsMute :
      (fuel length : ℕ) (poll : Bool) → IsMute (chatted k) (adb_read fuel length poll)
  unfolding adb_read
  adb_read-IsMute fuel length poll = adb_transfer-IsMute λ d. bulk_read-IsMute fuel d length poll

  adb_bulk_write-IsMute :
      (fuel : ℕ) (bytes : List ℕ) → IsMute (chatted k) (adb_bulk_write fuel bytes)
  unfolding adb_bulk_write
  adb_bulk_write-IsMute fuel bytes = adb_transfer-IsMute λ d. bulk_write-IsMute fuel d bytes

  pub write_empty_message-IsMute :
      (fuel command arg0 arg1 : ℕ) → IsMute (chatted k) (write_empty_message fuel command arg0 arg1)
  unfolding write_empty_message
  write_empty_message-IsMute fuel command arg0 arg1 = adb_bulk_write-IsMute fuel _

  call_handler-IsMute :
      (handler connection : Option ℕ) (event : EventType) (bytes : List ℕ)
      → IsMute (chatted k) (call_handler handler connection event bytes)
  unfolding call_handler
  call_handler-IsMute none connection event bytes = pure-IsMute
  call_handler-IsMute (some h) connection event bytes = record { at = λ a. refl }

  pub fire_event-IsMute :
      (c : Connection) (event : EventType) (bytes : List ℕ)
      → IsMute (chatted k) (fire_event c event bytes)
  unfolding fire_event
  fire_event-IsMute c event bytes =
      get-IsMute (λ a. refl)
        λ a.
          bind-IsMute (call_handler-IsMute a.event_handler (some c.local_id) event bytes)
            λ _. call_handler-IsMute c.event_handler (some c.local_id) event bytes

  pub handle_okay-IsMute : (c : Connection) (m : Message) → IsMute (chatted k) (handle_okay c m)
  unfolding handle_okay
  handle_okay-IsMute c m =
      bind-IsMute (if_IsMute _ (bind-IsMute (fire_event-IsMute _ _ _) λ _. pure-IsMute) pure-IsMute)
        λ c'. pure-IsMute

  pub handle_close-IsMute : (c : Connection) → IsMute (chatted k) (handle_close c)
  unfolding handle_close
  handle_close-IsMute c = bind-IsMute (fire_event-IsMute c _ _) λ _. pure-IsMute

  pub visit-IsMute :
      (body : Connection → Cmd Adb Connection)
      → ((c : Connection) → IsMute (chatted k) (body c))
      → (cs : List Connection) → IsMute (chatted k) (visit body cs)
  unfolding visit
  visit-IsMute body mute [] = pure-IsMute
  visit-IsMute body mute (c ∷ cs) =
      bind-IsMute (mute c)
        λ c'. bind-IsMute (visit-IsMute body mute cs) λ cs'. pure-IsMute {a = c' ∷ cs'}
