-- ===== src/Base/Lists.antt =====
-- C arrays as lists indexed by native numbers.
use Prim.Native.Nat.{ℕ, zero, suc, ◌+◌}
use mathlib.Core.Path.{◌≡◌, refl}
use mathlib.Core.Logic.{◌⊎◌, inl, inr}
use mathlib.Core.List.{List, [], ◌∷◌, ◌++◌}
use mathlib.Core.Option.{Option, none, some}
use native.Mathlib.Omega.{arith}

module _ {ℓ} {A : Type ℓ} where
  abbrev pub length : List A → ℕ
  length [] = 0
  length (x ∷ xs) = suc (length xs)

  abbrev pub get_elem? : List A → ℕ → Option A
  get_elem? [] i = none
  get_elem? (x ∷ xs) zero = some x
  get_elem? (x ∷ xs) (suc i) = get_elem? xs i

  abbrev pub get_or : List A → ℕ → A → A
  get_or [] i d = d
  get_or (x ∷ xs) zero d = x
  get_or (x ∷ xs) (suc i) d = get_or xs i d

  abbrev pub replicate : ℕ → A → List A
  replicate zero a = []
  replicate (suc n) a = a ∷ replicate n a

  pub length-append : (xs ys : List A) → length (xs ++ ys) ≡ length xs + length ys
  length-append [] ys = omega arith
  length-append (x ∷ xs) ys = omega (arith, length-append xs ys)

  -- `removed` is what is left of a list without one place where `a` stands.
  pub data Without (a : A) : List A → List A → Type ℓ where
    here : (l : List A) → Without a (a ∷ l) l
    there : {l r : List A} (b : A) → Without a l r → Without a (b ∷ l) (b ∷ r)

  pub length-Without : (a : A) (l r : List A) → Without a l r → length l ≡ suc (length r)
  length-Without a _ _ (here l) = refl
  length-Without a _ _ (there {l} {r} b w) = omega (arith, length-Without a l r w)

  pub Without-last : (a : A) (l : List A) → Without a (l ++ a ∷ []) l
  Without-last a [] = here []
  Without-last a (b ∷ l) = there b (Without-last a l)

  pub Without-middle : (a : A) (l r : List A) → Without a (l ++ a ∷ r) (l ++ r)
  Without-middle a [] r = here r
  Without-middle a (b ∷ l) r = there b (Without-middle a l r)

  -- Two places of a list can be taken out in either order.
  pub Without-swap :
      (a b : A) (l r t : List A)
      → Without a l r
      → Without b r t
      → (u : List A) × Without b l u × Without a u t
  Without-swap a b _ _ t (here l) v = (a ∷ t, there a v, here t)
  Without-swap a b _ _ _ (there {l} {r} c w) (here _) = (l, here l, w)
  Without-swap a b _ _ _ (there {l} {r} c w) (there {r = t} _ v) =
      let rest = Without-swap a b l r t w v in (c ∷ rest.0, there c rest.1, there c rest.2)

  pub Without-or :
      (a b : A) (l r t : List A)
      → Without a l r
      → Without b l t
      → (b ≡ a) ⊎ ((u : List A) × Without b r u)
  Without-or a b _ _ _ (here l) (here _) = inl refl
  Without-or a b _ _ _ (here l) (there {r = t} _ v) = inr (t, v)
  Without-or a b _ _ _ (there {l} {r} c w) (here _) = inr (r, here r)
  Without-or a b _ _ _ (there {l} {r} c w) (there {r = t} _ v) = elim (Without-or a b l r t w v) [
    | inl e ↦ inl e
    | inr (u, x) ↦ inr (c ∷ u, there c x)
  ]

  pub Without-second : (a b : A) (l r : List A) → Without a (l ++ b ∷ a ∷ r) (l ++ b ∷ r)
  Without-second a b [] r = there b (here r)
  Without-second a b (c ∷ l) r = there c (Without-second a b l r)
