-- ===== src/Usb/Transfer/Console.antt =====
-- The IN transfers of src/mcu/max3421e/max3421e_usb.c do not look at what has been printed.
use microbridge.Base.{ℕ, zero, suc, ◌+◌, List, [], ◌++◌, Bool, ltb, leb, ◌||◌, u16, if◌then◌else◌}
use microbridge.Base.Run.{pure}
use microbridge.Base.Mute.{IsMute, pure-IsMute, stuck-IsMute, bind-IsMute, if_IsMute}
use microbridge.Shield.{Notice}
use microbridge.Shield.Console.{
  talked, millis-IsMute, write-IsMute, read-IsMute, read_multiple-IsMute,
}
use microbridge.Usb.Device.{Endpoint, Device}
use microbridge.Usb.Transfer.{
  Input, wait_interrupt, wait_result, Verdict, finish, again, verdict, dispatch_round,
  dispatch_loop, dispatch_packet, Packet, failed, packet, read_packet, finish_read, read_loop,
  usb_read, bulk_read,
}

module _ {k : List Notice} where
  wait_interrupt-IsMute : (fuel timeout : ℕ) → IsMute (talked k) (wait_interrupt fuel timeout)
  unfolding wait_interrupt
  wait_interrupt-IsMute zero timeout = stuck-IsMute
  wait_interrupt-IsMute (suc fuel) timeout = bind-IsMute millis-IsMute λ now.
      if_IsMute _
        (bind-IsMute (read-IsMute _) λ hirq.
          if_IsMute _ (wait_interrupt-IsMute fuel timeout)
            (bind-IsMute (write-IsMute _ _) λ _. pure-IsMute))
        pure-IsMute

  wait_result-IsMute : (fuel timeout rcode : ℕ) → IsMute (talked k) (wait_result fuel timeout rcode)
  unfolding wait_result
  wait_result-IsMute zero timeout rcode = stuck-IsMute
  wait_result-IsMute (suc fuel) timeout rcode = bind-IsMute millis-IsMute λ now.
      if_IsMute _
        (bind-IsMute (read-IsMute _)
          λ hrsl. if_IsMute _ (wait_result-IsMute fuel timeout _) pure-IsMute)
        pure-IsMute

  dispatch_round-IsMute :
      (wait token address timeout : ℕ)
      → IsMute (talked k) (dispatch_round wait token address timeout)
  unfolding dispatch_round
  dispatch_round-IsMute wait token address timeout = bind-IsMute (write-IsMute _ _) λ _.
      bind-IsMute (wait_interrupt-IsMute wait timeout) λ done.
        if_IsMute _ (bind-IsMute (wait_result-IsMute wait timeout done) λ result. pure-IsMute)
          pure-IsMute

  dispatch_loop-IsMute :
      (wait fuel token address limit timeout rcode naks retries : ℕ)
      → IsMute (talked k) (dispatch_loop wait fuel token address limit timeout rcode naks retries)
  unfolding dispatch_loop
  dispatch_loop-IsMute wait zero token address limit timeout rcode naks retries = stuck-IsMute
  dispatch_loop-IsMute wait (suc fuel) token address limit timeout rcode naks retries =
      let next = dispatch_loop-IsMute wait fuel token address limit timeout in
      bind-IsMute millis-IsMute λ now.
        if_IsMute _
          (bind-IsMute (dispatch_round-IsMute wait token address timeout)
            λ r. if_IsMute r.0 (follow (verdict limit r.1 naks retries) r.1 (next r.1)) pure-IsMute)
          pure-IsMute
    where
      follow :
          (v : Verdict) (result : ℕ)
          → ((n m : ℕ)
              → IsMute (talked k) (dispatch_loop wait fuel token address limit timeout result n m))
          → IsMute (talked k) (elim v [
            | finish ↦ pure result
            | again n m ↦ dispatch_loop wait fuel token address limit timeout result n m
          ])
      follow finish result next = pure-IsMute
      follow (again n m) result next = next n m

  dispatch_packet-IsMute :
      (fuel token : ℕ) (endpoint : Endpoint) (limit : ℕ)
      → IsMute (talked k) (dispatch_packet fuel token endpoint limit)
  unfolding dispatch_packet
  dispatch_packet-IsMute fuel token endpoint limit =
      bind-IsMute millis-IsMute
        λ now. dispatch_loop-IsMute fuel fuel token endpoint.address limit _ 0 0 0

  read_packet-IsMute :
      (fuel : ℕ) (endpoint : Endpoint) (limit : ℕ)
      → IsMute (talked k) (read_packet fuel endpoint limit)
  unfolding read_packet
  read_packet-IsMute fuel endpoint limit =
      bind-IsMute (dispatch_packet-IsMute fuel _ endpoint limit) λ rcode.
        if_IsMute _
          (bind-IsMute (read-IsMute _) λ hirq. if_IsMute _ pure-IsMute (
            bind-IsMute (read-IsMute _) λ count.
              bind-IsMute (read_multiple-IsMute _ count)
                λ bytes. bind-IsMute (write-IsMute _ _) λ _. pure-IsMute))
          pure-IsMute

  finish_read-IsMute :
      (endpoint : Endpoint) (total : ℕ) (stored : List ℕ)
      → IsMute (talked k) (finish_read endpoint total stored)
  unfolding finish_read
  finish_read-IsMute endpoint total stored = bind-IsMute (read-IsMute _) λ hrsl. pure-IsMute

  read_loop-IsMute :
      (fuel rounds : ℕ) (endpoint : Endpoint) (length limit total : ℕ) (stored : List ℕ)
      → IsMute (talked k) (read_loop fuel rounds endpoint length limit total stored)
  unfolding read_loop
  read_loop-IsMute fuel zero endpoint length limit total stored = stuck-IsMute
  read_loop-IsMute fuel (suc rounds) endpoint length limit total stored =
      let next = read_loop-IsMute fuel rounds endpoint length limit in
      bind-IsMute (read_packet-IsMute fuel endpoint limit) λ p. go p next
    where
      go :
          (p : Packet)
          → ((sum : ℕ) (bytes : List ℕ)
              → IsMute (talked k) (read_loop fuel rounds endpoint length limit sum bytes))
          → IsMute {A = Input} (talked k) (elim p [
            | failed r ↦ pure (record { result = r; bytes = stored; endpoint = endpoint })
            | packet count bytes ↦
                let sum = u16 (total + count) in
                if ltb count endpoint.max_packet_size || leb length sum
                then finish_read endpoint sum (stored ++ bytes)
                else read_loop fuel rounds endpoint length limit sum (stored ++ bytes)
          ])
      go (failed r) next = pure-IsMute
      go (packet count bytes) next = if_IsMute _ (finish_read-IsMute endpoint _ _) (next _ _)

  usb_read-IsMute :
      (fuel address : ℕ) (endpoint : Endpoint) (length limit : ℕ)
      → IsMute (talked k) (usb_read fuel address endpoint length limit)
  unfolding usb_read
  usb_read-IsMute fuel address endpoint length limit =
      bind-IsMute (write-IsMute _ _) λ _.
        bind-IsMute (write-IsMute _ _) λ _. read_loop-IsMute fuel fuel endpoint length limit 0 []

  pub bulk_read-IsMute :
      (fuel : ℕ) (device : Device) (length : ℕ) (poll : Bool)
      → IsMute (talked k) (bulk_read fuel device length poll)
  unfolding bulk_read
  bulk_read-IsMute fuel device length poll =
      bind-IsMute (usb_read-IsMute fuel device.address device.bulk_in length _) λ input. pure-IsMute
