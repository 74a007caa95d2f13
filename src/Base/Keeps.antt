-- ===== src/Base/Keeps.antt =====
-- Commands that keep a property of their state whenever they come back.
use mathlib.Core.Path.{◌≡◌, refl, subst}
use mathlib.Core.Option.{Option, none, some}
use mathlib.Core.Bool.{Bool, true, false}
use microbridge.Base.Tests.{if◌then◌else◌}
use microbridge.Base.Run.{Cmd, pure, get, modify, ◌>>=◌, bind-inv}

pub record IsKeeping {S A : Type 0} (P : S → Type 0) (m : Cmd S A) : Type 0 where
  pub after : (s t : S) (a : A) → m s ≡ some (a, t) → P s → P t

pub result-inv :
    {S A : Type 0} (o : Option (A × S)) (a : A) (s : S) {b : A} {t : S}
    → o ≡ some (a, s)
    → o ≡ some (b, t)
    → s ≡ t
result-inv o a s e f = cc

module _ {S : Type 0} {P : S → Type 0} where
  pub pure-IsKeeping : {A : Type 0} {a : A} → IsKeeping P (pure {S = S} a)
  pure-IsKeeping {A} {a} = record {
    after = λ s t b e p. subst P (result-inv (pure a s) a s refl e) p;
  }

  pub modify-IsKeeping : {f : S → S} → ((s : S) → P s → P (f s)) → IsKeeping P (modify f)
  modify-IsKeeping {f} keep = record {
    after = λ s t b e p. subst P (result-inv (modify f s) tt (f s) refl e) (keep s p);
  }

  pub bind-IsKeeping :
      {A B : Type 0} {m : Cmd S A} {f : A → Cmd S B}
      → IsKeeping P m
      → ((a : A) → IsKeeping P (f a))
      → IsKeeping P (m >>= f)
  bind-IsKeeping {A} {B} {m} {f} first rest = record {
    after = λ s u b e p.
        let (a, t, e1, e2) = bind-inv m f s e in (rest a).after t u b e2 (first.after s t a e1 p);
  }

  pub get-IsKeeping : IsKeeping P get
  get-IsKeeping = record { after = λ s t a e p. subst P (result-inv (get s) s s refl e) p }

  pub stuck-IsKeeping : {A : Type 0} → IsKeeping {A = A} P (λ _. none)
  stuck-IsKeeping = record { after = λ s t a e p. cc }

  pub if_IsKeeping :
      {A : Type 0} (b : Bool) {m n : Cmd S A}
      → IsKeeping P m
      → IsKeeping P n
      → IsKeeping P (if b then m else n)
  if_IsKeeping true p q = p
  if_IsKeeping false p q = q
