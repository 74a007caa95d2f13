-- ===== src/Base/Ends.antt =====
-- Commands that end wherever a property of their state holds, and keep it.
use mathlib.Core.Path.{◌≡◌, refl, sym, subst, ◌∙◌}
use mathlib.Core.Option.{Option, some}
use mathlib.Core.Bool.{Bool, true, false}
use microbridge.Base.Tests.{if◌then◌else◌}
use microbridge.Base.Keeps.{result-inv}
use microbridge.Base.Run.{Cmd, pure, get, modify, ◌>>=◌, bind-at}

pub record IsEnding {S A : Type 0} (P : S → Type 0) (m : Cmd S A) : Type 0 where
  pub ends : (s : S) → P s → (a : A) × (t : S) × (m s ≡ some (a, t)) × P t

-- The state that is reached has the property.
pub reached :
    {S A : Type 0} {P : S → Type 0} {m : Cmd S A} (ending : IsEnding P m) (s t : S) (a : A)
    → m s ≡ some (a, t)
    → P s
    → P t
reached {S} {A} {P} {m} ending s t a e p =
    let (b, u, f, q) = ending.ends s p in subst P (result-inv (m s) b u f e) q

module _ {S : Type 0} {P : S → Type 0} where
  pub pure-IsEnding : {A : Type 0} {a : A} → IsEnding P (pure {S = S} a)
  pure-IsEnding {A} {a} = record { ends = λ s p. (a, s, refl, p) }

  pub get-IsEnding : IsEnding P get
  get-IsEnding = record { ends = λ s p. (s, s, refl, p) }

  pub modify-IsEnding : {f : S → S} → ((s : S) → P s → P (f s)) → IsEnding P (modify f)
  modify-IsEnding {f} keep = record { ends = λ s p. (tt, f s, refl, keep s p) }

  pub bind-IsEnding :
      {A B : Type 0} {m : Cmd S A} {f : A → Cmd S B}
      → IsEnding P m
      → ((a : A) → IsEnding P (f a))
      → IsEnding P (m >>= f)
  bind-IsEnding {A} {B} {m} {f} first rest = record {
    ends = λ s p.
        let (a, t, e, q) = first.ends s p in
        let (b, u, e', r) = (rest a).ends t q in (b, u, bind-at m f s e ∙ e', r);
  }

  pub if_IsEnding :
      {A : Type 0} (b : Bool) {m n : Cmd S A}
      → IsEnding P m
      → IsEnding P n
      → IsEnding P (if b then m else n)
  if_IsEnding true p q = p
  if_IsEnding false p q = q

  -- The second command only has to end where it is taken.
  pub else_IsEnding :
      {A : Type 0} (b : Bool) {m n : Cmd S A}
      → IsEnding P m
      → (b ≡ false → IsEnding P n)
      → IsEnding P (if b then m else n)
  else_IsEnding true p q = p
  else_IsEnding false p q = q refl

-- What a command comes to, wherever a property of its state holds.
pub record IsReaching {S A : Type 0} (P : S → Type 0) (R : Option (A × S) → Type 0) (m : Cmd S A)
    : Type 0 where
  pub reaches : (s : S) → P s → R (m s)

module _ {S A : Type 0} {P : S → Type 0} {R : Option (A × S) → Type 0} where
  -- A command that ends comes to what the rest comes to.
  pub bind-IsReaching :
      {B : Type 0} {m : Cmd S B} {f : B → Cmd S A}
      → IsEnding P m
      → ((b : B) → IsReaching P R (f b))
      → IsReaching P R (m >>= f)
  bind-IsReaching {B} {m} {f} first rest = record {
    reaches = λ s p.
        let (b, t, e, q) = first.ends s p in subst R (sym (bind-at m f s e)) ((rest b).reaches t q);
  }
