-- ===== src/Exec/Keeps.antt =====
-- Invariants of actions: what holds of the state before holds after, whether the action returns,
-- fails or panics. One rule for each way to build an action.
use sssd_oidc.Outcome.{Outcome, ok, err, panic}
use sssd_oidc.Exec.{Exec, pure, reads, continue, ◌>>=◌}

pub record Keeps {S E A : Type 0} (P : S → Type 0) (m : Exec S E A) : Type 0 where
  pub at : (s : S) → P s → P (m s).1

module _ {S E A B : Type 0} (P : S → Type 0) where
  pub Keeps-continue :
      (r : Outcome E A) (f : A → Exec S E B) (s : S)
      → ((a : A) → Keeps P (f a))
      → P s
      → P (continue r f s).1
  Keeps-continue (ok a) f s kf h = (kf a).at s h
  Keeps-continue (err e) f s kf h = h
  Keeps-continue panic f s kf h = h

  pub Keeps-bind :
      (m : Exec S E A) (f : A → Exec S E B)
      → Keeps P m
      → ((a : A) → Keeps P (f a))
      → Keeps P (m >>= f)
  Keeps-bind m f km kf = record { at = λ s h. Keeps-continue (m s).0 f (m s).1 kf (km.at s h) }

module _ {S E A : Type 0} (P : S → Type 0) where
  pub Keeps-pure : (a : A) → Keeps {E = E} P (pure a)
  Keeps-pure a = record { at = λ s h. h }

  pub Keeps-reads : (f : S → Outcome E A) → Keeps P (reads f)
  Keeps-reads f = record { at = λ s h. h }
