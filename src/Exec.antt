-- ===== src/Exec.antt =====
-- Methods that change a state and may fail or panic. What was written before the failure stays
-- written, so the state comes back beside the error too.
pub mod Keeps
pub mod Success
use sssd_oidc.Outcome.{Outcome, ok, err, panic}

abbrev pub Exec {ℓ} : Type ℓ → Type ℓ → Type ℓ → Type ℓ
Exec S E A = S → Outcome E A × S

module _ {ℓ} {S E A : Type ℓ} where
  abbrev pub pure : A → Exec S E A
  pure a s = (ok a, s)

  -- A step that only reads.
  abbrev pub reads : (S → Outcome E A) → Exec S E A
  reads f s = (f s, s)

  -- The result of an action, and the state that it leaves.
  abbrev pub result : Exec S E A → S → Outcome E A
  result m s = (m s).0

  abbrev pub final : Exec S E A → S → S
  final m s = (m s).1

module _ {ℓ} {S E A B : Type ℓ} where
  abbrev pub continue : Outcome E A → (A → Exec S E B) → Exec S E B
  continue (ok a) f s = f a s
  continue (err e) f s = (err e, s)
  continue panic f s = (panic, s)

  infixl 5 ◌>>=◌ ◌>>◌
  abbrev pub ◌>>=◌ : Exec S E A → (A → Exec S E B) → Exec S E B
  ◌>>=◌ m f s = let (r, s') = m s in continue r f s'

  abbrev pub ◌>>◌ : Exec S E A → Exec S E B → Exec S E B
  m >> n = m >>= λ _. n
