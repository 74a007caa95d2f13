-- ===== src/Base/Run.antt =====
-- Commands over a state. `none` means that a wait did not end within the rounds it was given.
use mathlib.Core.Path.{◌≡◌, refl, ap}
use mathlib.Core.Option.{Option, none, some}

abbrev pub Cmd : Type 0 → Type 0 → Type 0
Cmd S A = S → Option (A × S)

abbrev pub pure : {S A : Type 0} → A → Cmd S A
pure a s = some (a, s)

infixl 5 ◌>>=◌ ◌>>◌
abbrev pub ◌>>=◌ : {S A B : Type 0} → Cmd S A → (A → Cmd S B) → Cmd S B
◌>>=◌ m f s = elim (m s) [ none ↦ none | some (a, t) ↦ f a t ]

abbrev pub ◌>>◌ : {S B : Type 0} → Cmd S (Unit {0}) → Cmd S B → Cmd S B
m >> k = m >>= λ _. k

abbrev pub get : {S : Type 0} → Cmd S S
get s = some (s, s)

abbrev pub put : {S : Type 0} → S → Cmd S (Unit {0})
put t s = some (tt, t)

abbrev pub modify : {S : Type 0} → (S → S) → Cmd S (Unit {0})
modify f s = some (tt, f s)

-- A step that ends hands its result and its state on.
pub bind-at :
    {S A B : Type 0} (m : Cmd S A) (f : A → Cmd S B) (s : S) {t : S} {a : A}
    → m s ≡ some (a, t)
    → (m >>= f) s ≡ f a t
bind-at m f s p = ap (λ o. elim o [ none ↦ none | some (b, u) ↦ f b u ]) p

-- Inversion: a command that ends has ended in each step.
pub bind-inv :
    {S A B : Type 0} (m : Cmd S A) (f : A → Cmd S B) (s : S) {u : S} {b : B}
    → (m >>= f) s ≡ some (b, u)
    → (a : A) × (t : S) × (m s ≡ some (a, t)) × (f a t ≡ some (b, u))
bind-inv {S} {A} {B} m f s {u} {b} h = go (m s) refl h
  where
    go :
        (o : Option (A × S))
        → m s ≡ o
        → elim o [ none ↦ none | some (a, t) ↦ f a t ] ≡ some (b, u)
        → (a : A) × (t : S) × (m s ≡ some (a, t)) × (f a t ≡ some (b, u))
    go none e k = cc
    go (some (a, t)) e k = (a, t, e, k)
