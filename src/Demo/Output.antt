-- ===== src/Demo/Output.antt =====
-- What src/mcu/logcat.c writes to the serial port.
use microbridge.Base.{
  ℕ, ◌≡◌, refl, sym, ap, ◌∙◌, subst, Bool-cases, inl, inr, List, [], ◌∷◌, ◌++◌, Option, some, ◌==◌,
  u8, All, if◌then◌else◌, append_assoc, append-nil, none, ◌<◌, ◌^◌,
}
use microbridge.Base.Run.{pure, bind-at}
use microbridge.Avr.Serial.{Port, serial_printf}
use microbridge.Avr.Serial.Sending.{Drains, Sent, serial_print-sends, sent_bytes}
use microbridge.Adb.Link.{Connection, Call, Adb}
use microbridge.Adb.Message.{Message}
use microbridge.Adb.Connection.{handle_write}
use microbridge.Adb.Receiving.{IsReceipt}
use microbridge.Adb.Delivery.{Delivers, given, handle_write-Handed}
use microbridge.Demo.{print_bytes, logcat_handler, replay}

-- The bytes that are not zero, newest first: a zero ends the text of its own printf.
abbrev pub shown : List ℕ → List ℕ
shown [] = []
shown (b ∷ bs) = if b == 0 then shown bs else shown bs ++ u8 b ∷ []

shown-append : (xs ys : List ℕ) → shown (xs ++ ys) ≡ shown ys ++ shown xs
shown-append [] ys = sym (append-nil (shown ys))
shown-append (x ∷ xs) ys = elim (Bool-cases (x == 0)) [
  | inl end ↦ rw end (shown-append xs ys)
  | inr more ↦ rw more (
      ap (λ l. l ++ u8 x ∷ []) (shown-append xs ys)
      ∙ append_assoc (shown ys) (shown xs) (u8 x ∷ []))
]

-- A command that comes back and sends the bytes.
abbrev pub Prints : (Port → Option ((Unit {0}) × Port)) → Port → List ℕ → Type 0
Prints m p bytes = (q : Port) × (m p ≡ some (tt, q)) × Sent p bytes q

shown-cons :
    (b : ℕ) (bs rest : List ℕ)
    → shown bs ++ (sent_bytes (b ∷ 0 ∷ []) ++ rest) ≡ shown (b ∷ bs) ++ rest
shown-cons b bs rest = elim (Bool-cases (b == 0)) [
  | inl end ↦ rw end
  | inr more ↦ rw more (sym (append_assoc (shown bs) (u8 b ∷ []) rest))
]

print_bytes-Prints :
    (fuel : ℕ) (bytes : List ℕ) (p : Port)
    → Drains fuel p.status
    → Prints (print_bytes fuel bytes) p (shown bytes)
unfolding print_bytes serial_printf
print_bytes-Prints fuel [] p drains = (p, refl, (refl, refl))
print_bytes-Prints fuel (b ∷ bs) p drains =
    let (q, r, (s, t)) = serial_print-sends fuel (b ∷ 0 ∷ []) p drains in
    let (u, v, (x, y)) = print_bytes-Prints fuel bs q (subst (Drains fuel) (sym s) drains) in
    (
      u,
      bind-at (serial_printf fuel (b ∷ [])) (λ _. print_bytes fuel bs) p r ∙ v,
      (x ∙ s, y ∙ ap (λ l. shown bs ++ l) t ∙ shown-cons b bs p.sent),
    )

receipt-Prints :
    (fuel handler id : ℕ) (string : List ℕ) (call : Call) (p : Port)
    → Drains fuel p.status
    → IsReceipt id call
    → Prints
        (if call.handler == handler
          then logcat_handler fuel string call.event call.bytes
          else pure tt)
        p
        (shown (if call.handler == handler then call.bytes else []))
unfolding logcat_handler
receipt-Prints fuel handler id string call p drains receipt =
    elim (Bool-cases (call.handler == handler)) [
      | inl ours ↦ rw (ours, receipt.1) (print_bytes-Prints fuel call.bytes p drains)
      | inr other ↦ rw other (p, refl, (refl, refl))
    ]

replay-Prints :
    (fuel handler id : ℕ) (string_of : Option ℕ → List ℕ) (calls : List Call) (p : Port)
    → Drains fuel p.status
    → All (IsReceipt id) calls
    → Prints (replay fuel handler string_of calls) p (shown (given handler calls))
unfolding replay
replay-Prints fuel handler id string_of [] p drains all = (p, refl, (refl, refl))
replay-Prints fuel handler id string_of (call ∷ older) p drains (receipt, receipts) =
    let (q, r, (s, t)) = replay-Prints fuel handler id string_of older p drains receipts in
    let (u, v, (x, y)) =
      receipt-Prints fuel handler id (string_of call.connection) call q
        (subst (Drains fuel) (sym s) drains) receipt in
    let before = given handler older in
    let last = if call.handler == handler then call.bytes else [] in
    (
      u,
      bind-at (replay fuel handler string_of older) _ p r ∙ v,
      (
        x ∙ s,
        y
            ∙ ap (λ l. shown last ++ l) t
            ∙ sym (append_assoc (shown last) (shown before) p.sent)
            ∙ ap (λ l. l ++ p.sent) (sym (shown-append before last)),
      ),
    )

-- What logcat writes while a WRTE message is taken in is its payload and nothing else: where the payload
-- arrives whole, on a connection with the handler of logcat.c and in a program with no other handler, and
-- where UDR0 always empties within the rounds given, the calls that an adb_handleWrite which comes back
-- has made of that handler all come back, and have sent the bytes of the payload, less the zeros, in order.
pub logcat-Prints :
    (fuel rounds handler : ℕ) (string_of : Option ℕ → List ℕ) (c d : Connection) (m : Message)
    (a b : Adb) (payload : List ℕ) (p : Port)
    → Delivers fuel m.data_length a payload
    → m.data_length < 2 ^ 32
    → c.event_handler ≡ some handler
    → a.event_handler ≡ none
    → handle_write fuel c m a ≡ some (d, b)
    → Drains rounds p.status
    → (new : List Call) × (b.calls ≡ new ++ a.calls)
      × Prints (replay rounds handler string_of new) p (shown payload)
logcat-Prints fuel rounds handler string_of c d m a b payload p whole small own global done drains =
    let (new, more, all, bytes) =
      handle_write-Handed fuel handler c d m a b payload whole small own global done in
    (
      new,
      more,
      subst (λ l. Prints (replay rounds handler string_of new) p (shown l)) bytes
          (replay-Prints rounds handler c.local_id string_of new p drains all),
    )
