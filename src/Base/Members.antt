-- ===== src/Base/Members.antt =====
-- Membership in lists that are filtered, cut or updated.
use Prim.Native.Nat.{ℕ, zero, suc, ◌≤◌}
use mathlib.Core.Path.{◌≡◌, refl, ap}
use mathlib.Core.Logic.{inl, inr}
use mathlib.Core.Bool.{Bool, true}
use mathlib.Core.List.{List, [], ◌∷◌, Memᴰ}
use native.Mathlib.Omega.{arith}
use isms_portal.Base.Tests.{Bool-cases}
use isms_portal.Base.Lists.{length, filter, take, any, update_where, All}

module _ {A : Type 0} where
  pub mem-take : (n : ℕ) (xs : List A) (a : A) → Memᴰ a (take n xs) → Memᴰ a xs
  mem-take zero [] a m = m
  mem-take zero (x ∷ xs) a m = elim m [ ]
  mem-take (suc n) [] a m = m
  mem-take (suc n) (x ∷ xs) a (Memᴰ.head e) = Memᴰ.head e
  mem-take (suc n) (x ∷ xs) a (Memᴰ.tail m) = Memᴰ.tail (mem-take n xs a m)

  pub take-all : (n : ℕ) (xs : List A) → length xs ≤ n → take n xs ≡ xs
  take-all zero [] h = refl
  take-all zero (x ∷ xs) h = absurd (ground arith)
  take-all (suc n) [] h = refl
  take-all (suc n) (x ∷ xs) h = ap (λ ys. x ∷ ys) (take-all n xs (ground arith))

  pub mem-kept :
      (p : A → Bool) (xs : List A) (a : A) → Memᴰ a xs → p a ≡ true → Memᴰ a (filter p xs)
  mem-kept p [] a m h = elim m [ ]
  mem-kept p (x ∷ xs) a (Memᴰ.head e) h = rw (← e, h) (Memᴰ.head refl)
  mem-kept p (x ∷ xs) a (Memᴰ.tail m) h = elim (Bool-cases (p x)) [
    | inl t ↦ rw t (Memᴰ.tail (mem-kept p xs a m h))
    | inr t ↦ rw t (mem-kept p xs a m h)
  ]

module _ {ℓ} {A : Type 0} (P : A → Type ℓ) where
  pub All-tabulate : (xs : List A) → ((a : A) → Memᴰ a xs → P a) → All P xs
  All-tabulate [] f = tt
  All-tabulate (x ∷ xs) f = (f x (Memᴰ.head refl), All-tabulate xs (λ a m. f a (Memᴰ.tail m)))

module _ {A : Type 0} where
  pub mem-updated :
      (q : A → Bool) (f : A → A) (xs : List A) (a : A)
      → Memᴰ a xs
      → q a ≡ true
      → Memᴰ (f a) (update_where q f xs)
  mem-updated q f [] a m h = elim m [ ]
  mem-updated q f (x ∷ xs) a (Memᴰ.head e) h = rw (← e, h) (Memᴰ.head refl)
  mem-updated q f (x ∷ xs) a (Memᴰ.tail m) h = Memᴰ.tail (mem-updated q f xs a m h)

  pub any_of_mem : (p : A → Bool) (xs : List A) (a : A) → Memᴰ a xs → p a ≡ true → any p xs ≡ true
  any_of_mem p [] a m h = elim m [ ]
  any_of_mem p (x ∷ xs) a (Memᴰ.head e) h = rw (← e, h) refl
  any_of_mem p (x ∷ xs) a (Memᴰ.tail m) h = ground (arith, any_of_mem p xs a m h)

  pub mem_of_any :
      (p : A → Bool) (xs : List A) → any p xs ≡ true → (a : A) × Memᴰ a xs × (p a ≡ true)
  mem_of_any p [] h = absurd (ground arith)
  mem_of_any p (x ∷ xs) h = elim (Bool-cases (p x)) [
    | inl t ↦ (x, Memᴰ.head refl, t)
    | inr t ↦ let (a, m, k) = mem_of_any p xs (ground arith) in (a, Memᴰ.tail m, k)
  ]
