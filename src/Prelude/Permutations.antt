-- ===== src/Prelude/Permutations.antt =====
-- Permutations of a list: what holds of all elements, and the short cases.
use mathlib.Core.List.{Permᴰ, List, [], ◌∷◌}
use mathlib.Core.Path.{◌≡◌, refl, ap, ◌∙◌, subst, sym}
use Prim.Native.Nat.{suc}
use native.Mathlib.Omega.{arith}
use sssd_oidc.Prelude.Lists.{length, All}

module _ {A : Type 0} where
  pub length-perm : {xs ys : List A} → Permᴰ xs ys → length xs ≡ length ys
  length-perm Permᴰ.nil = refl
  length-perm (Permᴰ.cons e p) = ap suc (length-perm p)
  length-perm (Permᴰ.swap e f) = refl
  length-perm (Permᴰ.trans p q) = length-perm p ∙ length-perm q

  pub All-perm : (P : A → Type 0) {xs ys : List A} → Permᴰ xs ys → All P ys → All P xs
  All-perm P Permᴰ.nil h = tt
  All-perm P (Permᴰ.cons e p) (h, hs) = (subst P (sym e) h, All-perm P p hs)
  All-perm P (Permᴰ.swap e f) (h, (k, hs)) = (subst P (sym e) k, (subst P (sym f) h, hs))
  All-perm P (Permᴰ.trans p q) h = All-perm P p (All-perm P q h)

  eq_single : (xs : List A) (r : A) → length xs ≡ 1 → All (λ x. x ≡ r) xs → xs ≡ r ∷ []
  eq_single [] r n h = absurd (omega arith)
  eq_single (x ∷ []) r n (e, _) = ap (λ y. y ∷ []) e
  eq_single (x ∷ y ∷ xs) r n h = absurd (omega arith)

  eq_nil : (xs : List A) → length xs ≡ 0 → xs ≡ []
  eq_nil [] n = refl
  eq_nil (x ∷ xs) n = absurd (omega arith)

  pub perm-nil : {xs : List A} → Permᴰ xs [] → xs ≡ []
  perm-nil {xs} p = eq_nil xs (length-perm p)

  pub perm-single : {xs : List A} {r : A} → Permᴰ xs (r ∷ []) → xs ≡ r ∷ []
  perm-single {xs} {r} p = eq_single xs r (length-perm p) (All-perm (λ x. x ≡ r) p (refl, tt))
