-- ===== src/Exec/Success.antt =====
-- Inversion of a successful sequence of actions.
use sssd_oidc.Prelude.{◌≡◌, refl, ap, ◌∙◌, some, ◌⊎◌, inl, inr}
use sssd_oidc.Outcome.{Outcome, ok, err, panic, from_result}
use sssd_oidc.Exec.{Exec, pure, continue, ◌>>=◌}

module _ {S E A B : Type 0} where
  continue-ok :
      (r : Outcome E A) (f : A → Exec S E B) (s : S) {b : B} {s' : S}
      → continue r f s ≡ (ok b, s')
      → (a : A) × (r ≡ ok a) × (f a s ≡ (ok b, s'))
  continue-ok (ok a) f s h = (a, refl, h)
  continue-ok (err e) f s h = cc
  continue-ok panic f s h = cc

  -- If the sequence returns, its first action returned, and the rest from the state that it left.
  pub bind-ok :
      (m : Exec S E A) (f : A → Exec S E B) (s : S) {b : B} {s' : S}
      → (m >>= f) s ≡ (ok b, s')
      → (a : A) × (m s ≡ (ok a, (m s).1)) × (f a (m s).1 ≡ (ok b, s'))
  bind-ok m f s h =
      let (a, e, rest) = continue-ok (m s).0 f (m s).1 h in (a, (λ i. (e i, (m s).1)), rest)

-- A call that returned has given what its result holds.
pub from_result-ok :
    {D E A : Type 0} (f : D → E) (r : D ⊎ A) {a : A} → from_result f r ≡ ok a → r ≡ inr a
from_result-ok f (inl e) h = cc
from_result-ok f (inr b) h = cc

-- The result, with the state that comes with it.
pub with_final : {A S : Type 0} (r : A × S) {a : A} → r.0 ≡ a → r ≡ (a, r.1)
with_final r h i = (h i, r.1)

pub ok_inj : {E A : Type 0} (a b : A) → ◌≡◌ {A = Outcome E A} (ok a) (ok b) → a ≡ b
ok_inj a b h = cc

-- What returned under `Some`.
pub bind_some-ok :
    {S E A : Type 0} (m : Exec S E A) (s s' : S) (a : A)
    → (m >>= λ x. pure (some x)) s ≡ (ok (some a), s')
    → m s ≡ (ok a, s')
bind_some-ok m s s' a h =
    let (b, e, rest) = bind-ok m (λ x. pure (some x)) s h in
    let found : b ≡ a = cc (ap (λ r. r.0) rest) in
    let left : (m s).1 ≡ s' = ap (λ r. r.1) rest in e ∙ (λ i. (ok (found i), left i))
