-- ===== src/Base/Alike.antt =====
-- Commands that agree but for one part of the state: `set` puts the same there after both.
use mathlib.Core.Path.{◌≡◌, refl, ap, sym, ◌∙◌, subst}
use mathlib.Core.Option.{Option, none, some}
use mathlib.Core.Bool.{Bool, true, false}
use microbridge.Base.Tests.{if◌then◌else◌}
use microbridge.Base.Run.{Cmd, pure, ◌>>=◌, ◌>>◌}
use microbridge.Base.Mute.{outcome_set, IsMute}

pub record IsAlike {S A : Type 0} (set : S → S) (m n : Cmd S A) : Type 0 where
  pub at : (s : S) → outcome_set set (m s) ≡ outcome_set set (n s)

module _ {S : Type 0} {set : S → S} where
  pub same-IsAlike : {A : Type 0} {m n : Cmd S A} → m ≡ n → IsAlike set m n
  same-IsAlike p = record { at = λ s. ap (λ c. outcome_set set (c s)) p }

  pub if_IsAlike :
      {A : Type 0} (b : Bool) {m m' n n' : Cmd S A}
      → IsAlike set m n
      → IsAlike set m' n'
      → IsAlike set (if b then m else m') (if b then n else n')
  if_IsAlike true p q = p
  if_IsAlike false p q = q

  -- The continuations agree after the same first command.
  after_one :
      {A B : Type 0} (f g : A → Cmd S B) (o : Option (A × S))
      → ((a : A) → IsAlike set (f a) (g a))
      → outcome_set set (elim o [ none ↦ none | some (a, t) ↦ f a t ])
        ≡ outcome_set set (elim o [ none ↦ none | some (a, t) ↦ g a t ])
  after_one f g none alike = refl
  after_one f g (some (a, t)) alike = (alike a).at t

  twice :
      {A : Type 0} (o : Option (A × S))
      → ((s : S) → set (set s) ≡ set s)
      → outcome_set set (outcome_set set o) ≡ outcome_set set o
  twice none idem = refl
  twice (some (a, t)) idem = ap (λ s. some (a, s)) (idem t)

  -- A mute continuation does the same after the part has been set.
  after_set :
      {A B : Type 0} (g : A → Cmd S B) (o : Option (A × S))
      → ((s : S) → set (set s) ≡ set s)
      → ((a : A) → IsMute set (g a))
      → outcome_set set (elim (outcome_set set o) [ none ↦ none | some (a, t) ↦ g a t ])
        ≡ outcome_set set (elim o [ none ↦ none | some (a, t) ↦ g a t ])
  after_set g none idem mute = refl
  after_set g (some (a, t)) idem mute = ap (outcome_set set) ((mute a).at t) ∙ twice (g a t) idem

  pub bind-IsAlike :
      {A B : Type 0} {m n : Cmd S A} {f g : A → Cmd S B}
      → ((s : S) → set (set s) ≡ set s)
      → IsAlike set m n
      → ((a : A) → IsAlike set (f a) (g a))
      → ((a : A) → IsMute set (g a))
      → IsAlike set (m >>= f) (n >>= g)
  bind-IsAlike {A} {B} {m} {n} {f} {g} idem first rest mute = record {
    at = λ s.
        after_one f g (m s) rest
        ∙ sym (after_set g (m s) idem mute)
        ∙ ap (λ o. outcome_set set (elim o [ none ↦ none | some (a, t) ↦ g a t ])) (first.at s)
        ∙ after_set g (n s) idem mute;
  }

  -- After the same command nothing need be mute.
  pub then-IsAlike :
      {A B : Type 0} (m : Cmd S A) {f g : A → Cmd S B}
      → ((a : A) → IsAlike set (f a) (g a))
      → IsAlike set (m >>= f) (m >>= g)
  then-IsAlike {A} {B} m {f} {g} rest = record { at = λ s. after_one f g (m s) rest }

  pub quiet_if :
      (b : Bool) {m n : Cmd S (Unit {0})}
      → IsAlike set m (pure tt)
      → IsAlike set n (pure tt)
      → IsAlike set (if b then m else n) (pure tt)
  quiet_if true p q = p
  quiet_if false p q = q

  -- A first command that only changes that part may be left out.
  pub drop-IsAlike :
      {B : Type 0} {m : Cmd S (Unit {0})} {g : Cmd S B}
      → ((s : S) → set (set s) ≡ set s)
      → IsAlike set m (pure tt)
      → IsMute set g
      → IsAlike set (m >> g) g
  drop-IsAlike {B} {m} {g} idem first mute =
      bind-IsAlike {f = λ _. g} {g = λ _. g} idem first (λ _. same-IsAlike refl) (λ _. mute)

  -- After equal commands nothing need be mute.
  pub path-IsAlike :
      {A B : Type 0} {m n : Cmd S A} {f g : A → Cmd S B}
      → m ≡ n
      → ((a : A) → IsAlike set (f a) (g a))
      → IsAlike set (m >>= f) (n >>= g)
  path-IsAlike {A} {B} {m} {n} {f} {g} p rest =
      subst (λ n. IsAlike set (m >>= f) (n >>= g)) p (then-IsAlike m rest)
