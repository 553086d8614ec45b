-- ===== src/Base/Search.antt =====
-- A search by key in a filtered and mapped list, where at most one element has the key.
use Prim.Native.Nat.{◌≤◌}
use mathlib.Core.Path.{◌≡◌, refl}
use mathlib.Core.Logic.{inl, inr}
use mathlib.Core.Bool.{Bool, true, false, ◌&&◌}
use mathlib.Core.List.{List, [], ◌∷◌, map}
use mathlib.Core.Option.{Option, none, some}
use native.Mathlib.Omega.{arith}
use isms_portal.Base.Tests.{Bool-cases}
use isms_portal.Base.Lists.{filter, any, find, count_where, All}

abbrev pub holds_at {ℓ} : {B : Type ℓ} → (B → Bool) → Option B → Bool
holds_at root none = false
holds_at root (some b) = root b

module _ {A B : Type 0} (f : A → B) (has_key : A → Bool) (key_of : B → Bool) (kept : A → Bool)
    (shown : B → Bool) (root : B → Bool) (meant : A → Bool)
    (keys : (a : A) → key_of (f a) ≡ has_key a)
    (hidden : (b : B) → shown b ≡ false → root b ≡ false) where
  abbrev found : List A → Option B
  found xs = find key_of (filter shown (map f (filter kept xs)))

  found-none : (xs : List A) → count_where has_key xs ≡ 0 → found xs ≡ none
  found-none [] u = refl
  found-none (x ∷ xs) u = ground (arith, keys x, found-none xs)

  any_none : (xs : List A) → count_where has_key xs ≡ 0 → any (λ x. has_key x && meant x) xs ≡ false
  any_none [] u = refl
  any_none (x ∷ xs) u = ground (arith, any_none xs)

  -- What the element says of itself once it is found is what is meant of it in the list.
  pub holds_at-found :
      (xs : List A)
      → All
          (λ x.
            (kept x ≡ true → root (f x) ≡ meant x)
            × (has_key x ≡ true → kept x ≡ false → meant x ≡ false))
          xs
      → count_where has_key xs ≤ 1
      → holds_at root (found xs) ≡ any (λ x. has_key x && meant x) xs
  holds_at-found [] h u = refl
  holds_at-found (x ∷ xs) ((here, gone), hs) u = elim (Bool-cases (has_key x)) [
    | inr other ↦ ground (arith, keys x, holds_at-found xs hs)
    | inl same ↦ ground (arith, same, keys x, hidden (f x), found-none xs, any_none xs)
  ]

module _ {A B : Type 0} (f : A → B) (key_of : B → Bool) (has_key : A → Bool) (kept : A → Bool)
    (shown : B → Bool) (root : B → Bool) (cause : A → Bool)
    (keys : (a : A) → key_of (f a) ≡ has_key a)
    (why : (a : A) → kept a ≡ true → root (f a) ≡ true → cause a ≡ true) where
  -- If the element found passes, then some element with the key has the cause.
  pub cause_of_found :
      (xs : List A)
      → holds_at root (find key_of (filter shown (map f (filter kept xs)))) ≡ true
      → any (λ x. has_key x && cause x) xs ≡ true
  cause_of_found [] h = ground arith
  cause_of_found (x ∷ xs) h = ground (arith, keys x, why x, cause_of_found xs)
