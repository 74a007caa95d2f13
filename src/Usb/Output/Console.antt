-- ===== src/Usb/Output/Console.antt =====
-- The OUT transfers of src/mcu/max3421e/max3421e_usb.c do not look at what has been printed.
use microbridge.Base.{ℕ, zero, suc, List, [], ◌∷◌, Bool, true, length}
use microbridge.Base.Run.{pure, ◌>>=◌}
use microbridge.Base.Mute.{IsMute, pure-IsMute, stuck-IsMute, bind-IsMute, if_IsMute}
use microbridge.Shield.{Notice}
use microbridge.Shield.Console.{
  talked, millis-IsMute, write-IsMute, write_multiple-IsMute, read-IsMute,
}
use microbridge.Usb.Constants.{nak_limit}
use microbridge.Usb.Device.{Endpoint, Device}
use microbridge.Usb.Transfer.{Verdict, finish, again, verdict}
use microbridge.Usb.Output.{
  wait_done, launch, resend, retry_loop, send_packet, send_loop, usb_write, bulk_write,
}

module _ {k : List Notice} where
  wait_done-IsMute : (fuel : ℕ) → IsMute (talked k) (wait_done fuel)
  unfolding wait_done
  wait_done-IsMute zero = stuck-IsMute
  wait_done-IsMute (suc fuel) =
      bind-IsMute (read-IsMute _) λ hirq. if_IsMute _ (wait_done-IsMute fuel) pure-IsMute

  launch-IsMute : (fuel address : ℕ) → IsMute (talked k) (launch fuel address)
  unfolding launch
  launch-IsMute fuel address = bind-IsMute (write-IsMute _ _) λ _.
      bind-IsMute (wait_done-IsMute fuel)
        λ _. bind-IsMute (write-IsMute _ _) λ _. bind-IsMute (read-IsMute _) λ hrsl. pure-IsMute

  resend-IsMute :
      (wait address first count : ℕ) → IsMute (talked k) (resend wait address first count)
  unfolding resend
  resend-IsMute wait address first count = bind-IsMute (write-IsMute _ _) λ _.
      bind-IsMute (write-IsMute _ _)
        λ _. bind-IsMute (write-IsMute _ _) λ _. launch-IsMute wait address

  retry_loop-IsMute :
      (wait fuel address timeout first count rcode naks retries : ℕ)
      → IsMute (talked k) (retry_loop wait fuel address timeout first count rcode naks retries)
  unfolding retry_loop
  retry_loop-IsMute wait zero address timeout first count rcode naks retries = stuck-IsMute
  retry_loop-IsMute wait (suc fuel) address timeout first count rcode naks retries =
      let next = retry_loop-IsMute wait fuel address timeout first count in
      if_IsMute _ pure-IsMute (
        bind-IsMute millis-IsMute
          λ now. if_IsMute _ (follow (verdict nak_limit rcode naks retries) next) pure-IsMute)
    where
      follow :
          (v : Verdict)
          → ((result n m : ℕ)
              → IsMute (talked k) (retry_loop wait fuel address timeout first count result n m))
          → IsMute {A = Bool × ℕ} (talked k) (elim v [
            | finish ↦ pure (true, rcode)
            | again n m ↦ (do
              result ← resend wait address first count
              retry_loop wait fuel address timeout first count result n m)
          ])
      follow finish next = pure-IsMute
      follow (again n m) next =
          bind-IsMute (resend-IsMute wait address first count) λ result. next result n m

  send_packet-IsMute :
      (fuel address timeout : ℕ) (bytes : List ℕ)
      → IsMute (talked k) (send_packet fuel address timeout bytes)
  unfolding send_packet
  send_packet-IsMute fuel address timeout bytes = bind-IsMute (write_multiple-IsMute _ bytes) λ _.
      bind-IsMute (write-IsMute _ _) λ _.
        bind-IsMute (launch-IsMute fuel address)
          λ result. retry_loop-IsMute fuel fuel address timeout _ _ result 0 0

  send_loop-IsMute :
      (fuel rounds address timeout size : ℕ) (bytes : List ℕ) (rcode : ℕ)
      → IsMute (talked k) (send_loop fuel rounds address timeout size bytes rcode)
  unfolding send_loop
  send_loop-IsMute fuel zero address timeout size [] rcode = pure-IsMute
  send_loop-IsMute fuel (suc rounds) address timeout size [] rcode = pure-IsMute
  send_loop-IsMute fuel zero address timeout size (b ∷ bs) rcode = stuck-IsMute
  send_loop-IsMute fuel (suc rounds) address timeout size (b ∷ bs) rcode =
      let next = send_loop-IsMute fuel rounds address timeout size in
      bind-IsMute (send_packet-IsMute fuel address timeout _)
        λ r. if_IsMute r.0 pure-IsMute (next _ r.1)

  usb_write-IsMute :
      (fuel address : ℕ) (endpoint : Endpoint) (bytes : List ℕ)
      → IsMute (talked k) (usb_write fuel address endpoint bytes)
  unfolding usb_write
  usb_write-IsMute fuel address endpoint bytes = bind-IsMute (write-IsMute _ _) λ _.
      bind-IsMute millis-IsMute λ now. if_IsMute _ pure-IsMute (
        bind-IsMute (write-IsMute _ _) λ _.
          bind-IsMute (send_loop-IsMute fuel (length bytes) endpoint.address _ _ bytes 0)
            λ r. if_IsMute r.0 pure-IsMute (bind-IsMute (read-IsMute _) λ hrsl. pure-IsMute))

  pub bulk_write-IsMute :
      (fuel : ℕ) (device : Device) (bytes : List ℕ)
      → IsMute (talked k) (bulk_write fuel device bytes)
  unfolding bulk_write
  bulk_write-IsMute fuel device bytes =
      bind-IsMute (usb_write-IsMute fuel device.address device.bulk_out bytes) λ r. pure-IsMute
