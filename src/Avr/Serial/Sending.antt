-- ===== src/Avr/Serial/Sending.antt =====
-- What the serial port of src/mcu/avr.c sends.
use microbridge.Base.{
  ℕ, zero, suc, ◌+◌, ◌<◌, ◌^◌, ◌≡◌, refl, false, List, [], ◌∷◌, ◌++◌, bit_and, u8, reverse, map,
  sym, ◌==◌, if◌then◌else◌, arith, some, Bool-cases, inl, inr, subst, ap, ◌∙◌, append_assoc,
}
use mathlib.Core.List.{reverse-cons}
use microbridge.Base.Run.{bind-at}
use microbridge.Avr.Serial.{Port, read_status, serial_write, serial_print}

-- The bytes of a string in memory, up to its first zero.
abbrev pub until_zero : List ℕ → List ℕ
until_zero [] = []
until_zero (c ∷ cs) = if c == 0 then [] else c ∷ until_zero cs

-- What the port shows of a string, newest first.
abbrev pub sent_bytes : List ℕ → List ℕ
sent_bytes str = reverse (map u8 (until_zero str))

-- The register is empty again within `fuel` readings, whenever one starts to read.
abbrev pub Drains : (fuel : ℕ) → (status : ℕ → ℕ) → Type 0
Drains fuel status =
    (n : ℕ) → (j : ℕ) × (j < fuel) × ((bit_and (status (n + j)) (2 ^ 5) == 0) ≡ false)

-- The port once it has sent the bytes, newest first, at some reading.
abbrev pub Sent : Port → List ℕ → Port → Type 0
Sent p bytes q = (q.status ≡ p.status) × (q.sent ≡ bytes ++ p.sent)

-- The port after a byte that was written at the first reading.
abbrev written : (value : ℕ) → Port → Port
written value p = record p { readings = p.readings + 1; sent = u8 value ∷ p.sent }

serial_write-sends :
    (fuel value j : ℕ) (p : Port)
    → j < fuel
    → (bit_and (p.status (p.readings + j)) (2 ^ 5) == 0) ≡ false
    → (q : Port) × (serial_write fuel value p ≡ some (tt, q)) × Sent p (u8 value ∷ []) q
unfolding serial_write read_status
serial_write-sends zero value j p less e = absurd (omega arith)
serial_write-sends (suc fuel) value zero p less e =
    let here : p.readings + zero ≡ p.readings = omega arith in
    let ready = subst (λ n. (bit_and (p.status n) (2 ^ 5) == 0) ≡ false) here e in
    (written value p, rw ready, (refl, refl))
serial_write-sends (suc fuel) value (suc j) p less e =
    elim (Bool-cases (bit_and (p.status p.readings) (2 ^ 5) == 0)) [
      | inr ready ↦ (written value p, rw ready, (refl, refl))
      | inl busy ↦
          let p' = record p { readings = p.readings + 1 } in
          let (q, r, s) =
            serial_write-sends fuel value j p' (omega arith)
              (subst (λ n. (bit_and (p.status n) (2 ^ 5) == 0) ≡ false) (omega arith) e) in
          (q, rw busy r, s)
    ]

sent_bytes-cons :
    (c : ℕ) (cs rest : List ℕ)
    → (c == 0) ≡ false
    → sent_bytes cs ++ (u8 c ∷ rest) ≡ sent_bytes (c ∷ cs) ++ rest
sent_bytes-cons c cs rest more =
    rw (more, reverse-cons (u8 c) (map u8 (until_zero cs)))
      (sym (append_assoc (reverse (map u8 (until_zero cs))) (u8 c ∷ []) rest))

-- If UDR0 always empties within `fuel` readings, avr_serialPrint of bytes comes back, and has sent
-- exactly the bytes before the first zero, in order.
pub serial_print-sends :
    (fuel : ℕ) (str : List ℕ) (p : Port)
    → Drains fuel p.status
    → (q : Port) × (serial_print fuel str p ≡ some (tt, q)) × Sent p (sent_bytes str) q
unfolding serial_print
serial_print-sends fuel [] p drains = (p, refl, (refl, refl))
serial_print-sends fuel (c ∷ cs) p drains = elim (Bool-cases (c == 0)) [
  | inl end ↦ (p, rw end, (refl, rw end))
  | inr more ↦
      let (j, less, ready) = drains p.readings in
      let (q, r, (s, b)) = serial_write-sends fuel c j p less ready in
      let (u, v, (x, y)) = serial_print-sends fuel cs q (subst (Drains fuel) (sym s) drains) in
      (
        u,
        rw more (bind-at (serial_write fuel c) (λ _. serial_print fuel cs) p r ∙ v),
        (x ∙ s, y ∙ ap (λ l. sent_bytes cs ++ l) b ∙ sent_bytes-cons c cs p.sent more),
      )
]
