-- ===== src/Shield/Console.antt =====
-- The driver of src/mcu/max3421e/max3421e.c and the clock do not look at what has been printed.
use microbridge.Base.{ℕ, zero, suc, refl, List, [], ◌∷◌, bit_or}
use microbridge.Base.Mute.{IsMute, pure-IsMute, bind-IsMute, get-IsMute}
use microbridge.Shield.{Shield, Notice, Wire, select, release, millis, put_wire, exchange}
use microbridge.Max3421e.{write, write_values, write_multiple, read, read_values, read_multiple}

-- The board with another console.
abbrev pub talked : List Notice → Shield → Shield
talked k s = record s { console = k }

module _ {k : List Notice} where
  pub millis-IsMute : IsMute (talked k) millis
  unfolding millis
  millis-IsMute = record { at = λ s. refl }

  pub write-IsMute : (reg value : ℕ) → IsMute (talked k) (write reg value)
  unfolding write
  write-IsMute reg value = record { at = λ s. refl }

  pub read-IsMute : (reg : ℕ) → IsMute (talked k) (read reg)
  unfolding read
  read-IsMute reg = record { at = λ s. refl }

  put_wire-IsMute : (w : Wire) → IsMute (talked k) (put_wire w)
  unfolding put_wire
  put_wire-IsMute w = record { at = λ s. refl }

  exchange-IsMute : (value : ℕ) → IsMute (talked k) (exchange value)
  unfolding exchange
  exchange-IsMute value = record { at = λ s. refl }

  write_values-IsMute : (values : List ℕ) → IsMute (talked k) (write_values values)
  unfolding write_values
  write_values-IsMute [] = pure-IsMute
  write_values-IsMute (v ∷ vs) = bind-IsMute (exchange-IsMute v) λ _. write_values-IsMute vs

  read_values-IsMute : (count : ℕ) → IsMute (talked k) (read_values count)
  unfolding read_values
  read_values-IsMute zero = pure-IsMute
  read_values-IsMute (suc count) = bind-IsMute (exchange-IsMute 0) λ _.
      get-IsMute (λ s. refl)
        λ s. bind-IsMute (read_values-IsMute count) λ rest. pure-IsMute {a = s.spdr ∷ rest}

  pub write_multiple-IsMute :
      (reg : ℕ) (values : List ℕ) → IsMute (talked k) (write_multiple reg values)
  unfolding write_multiple
  write_multiple-IsMute reg values = bind-IsMute (put_wire-IsMute select) λ _.
      bind-IsMute (exchange-IsMute (bit_or reg 2))
        λ _. bind-IsMute (write_values-IsMute values) λ _. put_wire-IsMute release

  pub read_multiple-IsMute : (reg count : ℕ) → IsMute (talked k) (read_multiple reg count)
  unfolding read_multiple
  read_multiple-IsMute reg count = bind-IsMute (put_wire-IsMute select) λ _.
      bind-IsMute (exchange-IsMute reg) λ _.
        bind-IsMute (read_values-IsMute count)
          λ values. bind-IsMute (put_wire-IsMute release) λ _. pure-IsMute {a = values}
