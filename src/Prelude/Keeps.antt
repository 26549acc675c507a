-- ===== src/Prelude/Keeps.antt =====
-- Invariants of actions: one rule for each way to build an action.
use mathlib.Core.Path.{◌≡◌, refl, subst}
use mathlib.Core.Bool.{Bool, true, false}
use quick_stock_bot.Prelude.Tests.{if◌then◌else◌}
use quick_stock_bot.Prelude.Outcome.{Result, ok, err, Error}
use quick_stock_bot.Prelude.Action.{Action, pure, raise, lift, gets, modify, ◌>>=◌}

-- `m` keeps `P`, whether it returns or raises.
pub record Keeps {S A : Type 0} (P : S → Type 0) (m : Action S A) : Type 0 where
  pub at : (s : S) → P s → P (m s).1

module _ {S : Type 0} {P : S → Type 0} where
  pub Keeps-modify : (f : S → S) → ((s : S) → P s → P (f s)) → Keeps P (modify f)
  unfolding modify
  Keeps-modify f h = record { at = h }

  -- an action that leaves the state as it is
  still : {A : Type 0} (m : Action S A) → ((s : S) → s ≡ (m s).1) → Keeps P m
  still m same = record { at = λ s. subst P (same s) }

  pub Keeps-lift : {A : Type 0} (r : Result A) → Keeps P (lift r)
  unfolding lift
  Keeps-lift r = still (lift r) (λ s. refl)

  pub Keeps-raise : {A : Type 0} (e : Error) → Keeps P (raise {A = A} e)
  unfolding raise
  Keeps-raise {A} e = still (raise {A = A} e) (λ s. refl)

  pub Keeps-pure : {A : Type 0} (a : A) → Keeps P (pure a)
  unfolding pure
  Keeps-pure a = still (pure a) (λ s. refl)

  -- either branch may use the answer of the test
  pub Keeps-if :
      {A : Type 0} (test : Bool) (first second : Action S A)
      → (test ≡ true → Keeps P first)
      → (test ≡ false → Keeps P second)
      → Keeps P (if test then first else second)
  Keeps-if true first second on_true on_false = on_true refl
  Keeps-if false first second on_true on_false = on_false refl

  bind_at :
      {A B : Type 0} (r : Result A) (t : S) (f : A → Action S B)
      → P t
      → ((a : A) → r ≡ ok a → Keeps P (f a))
      → let out : Result B × S = elim r [ ok a ↦ f a t | err e ↦ (err e, t) ] in P out.1
  bind_at (ok a) t f h k = (k a refl).at t h
  bind_at (err e) t f h k = h

  -- the rest may use what the first part returned, at a state that satisfies `P`
  pub Keeps-bind_ok :
      {A B : Type 0} (m : Action S A) (f : A → Action S B)
      → Keeps P m
      → ((s : S) (a : A) → P s → (m s).0 ≡ ok a → Keeps P (f a))
      → Keeps P (m >>= f)
  unfolding ◌>>=◌
  Keeps-bind_ok m f km kf = record {
    at = λ s h. bind_at (m s).0 (m s).1 f (km.at s h) (λ a e. kf s a h e);
  }

  pub Keeps-bind :
      {A B : Type 0} (m : Action S A) (f : A → Action S B)
      → Keeps P m
      → ((a : A) → Keeps P (f a))
      → Keeps P (m >>= f)
  Keeps-bind m f km kf = Keeps-bind_ok m f km (λ s a h e. kf a)

  -- what is read from the state is known to come from a state that satisfies `P`
  pub Keeps-read :
      {A B : Type 0} (g : S → A) (f : A → Action S B)
      → ((s : S) → P s → Keeps P (f (g s)))
      → Keeps P (gets g >>= f)
  unfolding ◌>>=◌ gets
  Keeps-read g f kf = record { at = λ s h. (kf s h).at s h }
