-- ===== src/Prelude/Succeeds.antt =====
-- Actions that return: one rule for each way to build them.
use mathlib.Core.Path.{◌≡◌, refl, ap, ◌∙◌}
use mathlib.Core.Bool.{Bool, true, false}
use quick_stock_bot.Prelude.Tests.{if◌then◌else◌}
use quick_stock_bot.Prelude.Outcome.{Result, ok, err, Returns}
use quick_stock_bot.Prelude.Action.{Action, pure, lift, gets, modify, ◌>>=◌}

-- from a state that satisfies `P` the action returns, in a state that satisfies `Q`
pub record Succeeds {S A : Type 0} (P Q : S → Type 0) (m : Action S A) : Type 0 where
  pub run : (s : S) → P s → (a : A) × (t : S) × (m s ≡ (ok a, t)) × Q t

abbrev pub Anywhere : {S : Type 0} → S → Type 0
Anywhere s = Unit

module _ {S : Type 0} where
  -- a step that returned, followed by the rest
  pub bind_run :
      {A B : Type 0} (m : Action S A) (f : A → Action S B) {s t : S} {a : A} {x : Result B × S}
      → m s ≡ (ok a, t)
      → f a t ≡ x
      → (m >>= f) s ≡ x
  unfolding ◌>>=◌
  bind_run m f m_eq f_eq = ap (λ p. elim p.0 [ ok a ↦ f a p.1 | err e ↦ (err e, p.1) ]) m_eq ∙ f_eq

module _ {S : Type 0} {P : S → Type 0} where
  pub Succeeds-pure : {A : Type 0} (a : A) → Succeeds {S = S} P P (pure a)
  unfolding pure
  Succeeds-pure a = record { run = λ s p. (a, s, refl, p) }

  pub Succeeds-gets : {A : Type 0} (f : S → A) → Succeeds P P (gets f)
  unfolding gets
  Succeeds-gets f = record { run = λ s p. (f s, s, refl, p) }

  pub Succeeds-lift : {A : Type 0} (r : Result A) → Returns r → Succeeds P P (lift r)
  unfolding lift
  Succeeds-lift (ok a) h = record { run = λ s p. (a, s, refl, p) }
  Succeeds-lift (err e) h = absurd h

  pub Succeeds-modify :
      {Q : S → Type 0} (f : S → S) → ((s : S) → P s → Q (f s)) → Succeeds P Q (modify f)
  unfolding modify
  Succeeds-modify f h = record { run = λ s p. (tt, f s, refl, h s p) }

  pub Succeeds-if :
      {A : Type 0} {Q : S → Type 0} (b : Bool) (m n : Action S A)
      → Succeeds P Q m
      → Succeeds P Q n
      → Succeeds P Q (if b then m else n)
  Succeeds-if true m n hm hn = hm
  Succeeds-if false m n hm hn = hn

  -- an action that returns, followed by one that does
  pub Succeeds-bind :
      {A B : Type 0} {Q R : S → Type 0} (m : Action S A) (f : A → Action S B)
      → Succeeds P R m
      → ((a : A) → Succeeds R Q (f a))
      → Succeeds P Q (m >>= f)
  Succeeds-bind m f hm hf = record {
    run = λ s p.
        let (a, t, m_eq, r) = hm.run s p in
        let (b, u, f_eq, q) = (hf a).run t r in (b, u, bind_run m f m_eq f_eq, q);
  }

  -- what is read from the state is known to come from a state that satisfies `P`
  pub Succeeds-read :
      {A B : Type 0} {Q : S → Type 0} (g : S → A) (f : A → Action S B)
      → ((s : S) → P s → Succeeds P Q (f (g s)))
      → Succeeds P Q (gets g >>= f)
  unfolding ◌>>=◌ gets
  Succeeds-read g f hf = record { run = λ s p. (hf s p).run s p }

  -- from fewer states
  pub Succeeds-from :
      {A : Type 0} {P' Q : S → Type 0} (m : Action S A)
      → ((s : S) → P s → P' s)
      → Succeeds P' Q m
      → Succeeds P Q m
  Succeeds-from m weaker h = record { run = λ s p. h.run s (weaker s p) }

  -- in more states
  pub Succeeds-to :
      {A : Type 0} {Q Q' : S → Type 0} (m : Action S A)
      → ((t : S) → Q t → Q' t)
      → Succeeds P Q m
      → Succeeds P Q' m
  Succeeds-to m weaker h = record {
    run = λ s p. let (a, t, e, q) = h.run s p in (a, t, e, weaker t q);
  }
