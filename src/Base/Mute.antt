-- ===== src/Base/Mute.antt =====
-- Commands that do not look at one part of their state: they do the same whatever is put there.
use mathlib.Core.Path.{◌≡◌, refl, ap, ◌∙◌}
use mathlib.Core.Option.{Option, none, some}
use mathlib.Core.Bool.{Bool, true, false}
use microbridge.Base.Tests.{if◌then◌else◌}
use microbridge.Base.Run.{Cmd, pure, get, ◌>>=◌}

-- A result where `set` has been applied to the state.
abbrev pub outcome_set : {S A : Type 0} → (S → S) → Option (A × S) → Option (A × S)
outcome_set set none = none
outcome_set set (some (a, s)) = some (a, set s)

-- The command commutes with what `set` does.
pub record IsMute {S A : Type 0} (set : S → S) (m : Cmd S A) : Type 0 where
  pub at : (s : S) → m (set s) ≡ outcome_set set (m s)

module _ {S : Type 0} {set : S → S} where
  pub pure-IsMute : {A : Type 0} {a : A} → IsMute set (pure {S = S} a)
  pure-IsMute = record { at = λ s. refl }

  pub stuck-IsMute : {A : Type 0} → IsMute {A = A} set (λ _. none)
  stuck-IsMute = record { at = λ s. refl }

  bind_at :
      {A B : Type 0} (f : A → Cmd S B) (o : Option (A × S))
      → ((a : A) → IsMute set (f a))
      → elim (outcome_set set o) [ none ↦ none | some (a, t) ↦ f a t ]
        ≡ outcome_set set (elim o [ none ↦ none | some (a, t) ↦ f a t ])
  bind_at f none mute = refl
  bind_at f (some (a, t)) mute = (mute a).at t

  pub bind-IsMute :
      {A B : Type 0} {m : Cmd S A} {f : A → Cmd S B}
      → IsMute set m
      → ((a : A) → IsMute set (f a))
      → IsMute set (m >>= f)
  bind-IsMute {A} {B} {m} {f} first rest = record {
    at = λ s.
        ap (λ o. elim o [ none ↦ none | some (a, t) ↦ f a t ]) (first.at s) ∙ bind_at f (m s) rest;
  }

  pub if_IsMute :
      {A : Type 0} (b : Bool) {m n : Cmd S A}
      → IsMute set m
      → IsMute set n
      → IsMute set (if b then m else n)
  if_IsMute true p q = p
  if_IsMute false p q = q

  -- The state is read, but not that part of it.
  pub get-IsMute :
      {A : Type 0} {f : S → Cmd S A}
      → ((s : S) → f (set s) ≡ f s)
      → ((s : S) → IsMute set (f s))
      → IsMute set (get >>= f)
  get-IsMute same mute = record { at = λ s. ap (λ m. m (set s)) (same s) ∙ (mute s).at s }
