-- ===== src/Base/Keys.antt =====
-- Tables: rows with distinct keys, and updates that leave the keys alone.
use Prim.Native.String.{String}
use mathlib.Core.Path.{◌≡◌, refl, sym, ◌∙◌, ap, ap₂, subst}
use mathlib.Core.Logic.{inl, inr}
use mathlib.Core.Bool.{◌&&◌, Bool, true, false, not, false≢true}
use mathlib.Core.List.{List, [], ◌∷◌, map, Memᴰ}
use mathlib.Core.Option.{some}
use native.Mathlib.Omega.{arith}
use isms_portal.Base.Tests.{str_eq, str_eq_iff, str_eq_self, Bool-cases}
use isms_portal.Base.Lists.{
  count_where, filter, find, insert_by, order_by, update_where, includes, All,
}

-- `[...new Set(names)]`: the first of each.
abbrev pub unique : List String → List String
unique [] = []
unique (x ∷ xs) = x ∷ filter (λ y. not (str_eq y x)) (unique xs)

abbrev pub Distinct : List String → Type 0
Distinct [] = Unit
Distinct (k ∷ ks) = (includes ks k ≡ false) × Distinct ks

module _ {ℓ κ} {A : Type ℓ} (P : A → Type κ) (p : A → Bool) (f : A → A) where
  pub All-update_where :
      (xs : List A)
      → ((x : A) → P x → p x ≡ true → P (f x))
      → All P xs
      → All P (update_where p f xs)
  All-update_where [] h k = tt
  All-update_where (x ∷ xs) h (q, k) =
      (elim (Bool-cases (p x)) [ inl e ↦ rw e (h x q e) | inr e ↦ rw e q ], All-update_where xs h k)

module _ {ℓ κ μ} {A : Type ℓ} (P : A → Type κ) (Q : A → Type μ) (p : A → Bool) (f : A → A) where
  -- The same, with a fact about each row.
  pub All-update_where₂ :
      (xs : List A)
      → ((x : A) → Q x → P x → p x ≡ true → P (f x))
      → All Q xs
      → All P xs
      → All P (update_where p f xs)
  All-update_where₂ [] h l k = tt
  All-update_where₂ (x ∷ xs) h (r, l) (q, k) = (
    elim (Bool-cases (p x)) [ inl e ↦ rw e (h x r q e) | inr e ↦ rw e q ],
    All-update_where₂ xs h l k,
  )

module _ {ℓ} {A : Type ℓ} (key : A → String) where
  pub map-update_where :
      (p : A → Bool) (f : A → A) (xs : List A)
      → ((x : A) → key (f x) ≡ key x)
      → map key (update_where p f xs) ≡ map key xs
  map-update_where p f [] h = refl
  map-update_where p f (x ∷ xs) h = elim (Bool-cases (p x)) [
    | inl e ↦ rw e (ap₂ ◌∷◌ (h x) (map-update_where p f xs h))
    | inr e ↦ rw e (ap (λ ks. key x ∷ ks) (map-update_where p f xs h))
  ]

  absent :
      (k : String) (xs : List A)
      → includes (map key xs) k ≡ false
      → All (λ x. str_eq (key x) k ≡ false) xs
  absent k [] h = tt
  absent k (x ∷ xs) h = (ground arith, absent k xs (ground arith))

  none_with :
      (k : String) (e : A) (xs : List A)
      → All (λ x. str_eq (key x) k ≡ false) xs
      → All (λ x. str_eq (key x) k ≡ true → x ≡ e) xs
  none_with k e [] h = tt
  none_with k e (x ∷ xs) (h, hs) = ((λ same. cc), none_with k e xs hs)

  -- With distinct keys, the row found is the only one with its key.
  pub find_unique :
      (k : String) (xs : List A) (e : A)
      → Distinct (map key xs)
      → find (λ x. str_eq (key x) k) xs ≡ some e
      → All (λ x. str_eq (key x) k ≡ true → x ≡ e) xs
  find_unique k [] e d h = tt
  find_unique k (x ∷ xs) e (fresh, d) h = elim (Bool-cases (str_eq (key x) k)) [
    | inl same ↦ (
      λ k'. ground arith,
      none_with k e xs (
          absent k xs
            (subst (λ j. includes (map key xs) j ≡ false) ((str_eq_iff _ _).0 same) fresh)),
    )
    | inr other ↦ ((λ same. cc), find_unique k xs e d (ground arith))
  ]

  pub All_of_find {κ} :
      (P : A → Type κ) (p : A → Bool) (xs : List A) (e : A) → All P xs → find p xs ≡ some e → P e
  All_of_find P p [] e h f = absurd (ground arith)
  All_of_find P p (x ∷ xs) e (q, h) f = elim (Bool-cases (p x)) [
    | inl t ↦ let same : x ≡ e = ground arith in subst P same q
    | inr t ↦ All_of_find P p xs e h (ground arith)
  ]

false_of_both {ℓ} : {P : Type ℓ} {b : Bool} → b ≡ true → b ≡ false → P
false_of_both h k = absurd (false≢true (sym k ∙ h))

module _ {ℓ} {A : Type ℓ} where
  pub mem_of_find : (p : A → Bool) (xs : List A) (a : A) → find p xs ≡ some a → Memᴰ a xs
  mem_of_find p [] a h = absurd (ground arith)
  mem_of_find p (x ∷ xs) a h = elim (Bool-cases (p x)) [
    | inl t ↦ Memᴰ.head (ground arith)
    | inr t ↦ Memᴰ.tail (mem_of_find p xs a (ground arith))
  ]

  pub mem-cons_cases :
      (P : Type ℓ) (x a : A) (xs : List A) → Memᴰ a (x ∷ xs) → (a ≡ x → P) → (Memᴰ a xs → P) → P
  mem-cons_cases P x a xs (Memᴰ.head e) f g = f e
  mem-cons_cases P x a xs (Memᴰ.tail m) f g = g m

  pub mem-filter :
      (p : A → Bool) (xs : List A) (a : A) → Memᴰ a (filter p xs) → Memᴰ a xs × (p a ≡ true)
  mem-filter p [] a m = elim m [ ]
  mem-filter p (x ∷ xs) a m = elim (Bool-cases (p x)) [
    | inl t ↦
        mem-cons_cases (Memᴰ a (x ∷ xs) × (p a ≡ true)) x a (filter p xs) (rw t at m)
          (λ e. (Memᴰ.head e, rw e t)) (λ n. let (n', e) = mem-filter p xs a n in (Memᴰ.tail n', e))
    | inr t ↦ let (n, e) = mem-filter p xs a (rw t at m) in (Memᴰ.tail n, e)
  ]

  pub mem-insert_by :
      (le : A → A → Bool) (x : A) (xs : List A) (a : A)
      → Memᴰ a (insert_by le x xs)
      → Memᴰ a (x ∷ xs)
  mem-insert_by le x [] a m = m
  mem-insert_by le x (y ∷ ys) a m = elim (Bool-cases (le x y)) [
    | inl t ↦ rw t at m
    | inr t ↦
        mem-cons_cases (Memᴰ a (x ∷ y ∷ ys)) y a (insert_by le x ys) (rw t at m)
          (λ e. Memᴰ.tail (Memᴰ.head e))
          (λ n.
            mem-cons_cases (Memᴰ a (x ∷ y ∷ ys)) x a ys (mem-insert_by le x ys a n)
              (λ e. Memᴰ.head e) (λ k. Memᴰ.tail (Memᴰ.tail k)))
  ]

  pub mem-order_by : (le : A → A → Bool) (xs : List A) (a : A) → Memᴰ a (order_by le xs) → Memᴰ a xs
  mem-order_by le [] a m = m
  mem-order_by le (x ∷ xs) a m =
      mem-cons_cases (Memᴰ a (x ∷ xs)) x a (order_by le xs)
        (mem-insert_by le x (order_by le xs) a m) (λ e. Memᴰ.head e)
        (λ n. Memᴰ.tail (mem-order_by le xs a n))

  includes_of_mem :
      (key : A → String) (xs : List A) (a : A) → Memᴰ a xs → includes (map key xs) (key a) ≡ true
  includes_of_mem key [] a m = elim m [ ]
  includes_of_mem key (x ∷ xs) a (Memᴰ.head e) = rw (e, str_eq_self)
  includes_of_mem key (x ∷ xs) a (Memᴰ.tail m) = ground (arith, includes_of_mem key xs a m)

  pub unique_of_mem :
      (key : A → String) (xs : List A) (a : A)
      → Distinct (map key xs)
      → Memᴰ a xs
      → All (λ x. str_eq (key x) (key a) ≡ true → x ≡ a) xs
  unique_of_mem key [] a d m = tt
  unique_of_mem key (x ∷ xs) a (fresh, d) (Memᴰ.head e) =
      (λ same. sym e, none_with key (key a) a xs (absent key (key a) xs (rw e fresh)))
  unique_of_mem key (x ∷ xs) a (fresh, d) (Memᴰ.tail m) = (
    λ same.
        false_of_both (includes_of_mem key xs a m)
          (subst (λ k. includes (map key xs) k ≡ false) ((str_eq_iff _ _).0 same) fresh),
    unique_of_mem key xs a d m,
  )

  pub mem-update_where :
      (p : A → Bool) (f : A → A) (xs : List A) (a : A)
      → Memᴰ a xs
      → p a ≡ false
      → Memᴰ a (update_where p f xs)
  mem-update_where p f [] a m h = elim m [ ]
  mem-update_where p f (x ∷ xs) a (Memᴰ.head e) h = Memᴰ.head (rw (← e, h))
  mem-update_where p f (x ∷ xs) a (Memᴰ.tail m) h = Memᴰ.tail (mem-update_where p f xs a m h)

module _ {ℓ κ μ} {A : Type ℓ} (P : A → Type κ) (Q : A → Type μ) (p : A → Bool) (f : A → A) where
  pub All-update_where_if :
      (xs : List A)
      → ((x : A) → Q x → p x ≡ true → P (f x))
      → ((x : A) → Q x → p x ≡ false → P x)
      → All Q xs
      → All P (update_where p f xs)
  All-update_where_if [] h k q = tt
  All-update_where_if (x ∷ xs) h k (q, qs) = (
    elim (Bool-cases (p x)) [ inl e ↦ rw e (h x q e) | inr e ↦ rw e (k x q e) ],
    All-update_where_if xs h k qs,
  )

pub All-trivial {ℓ} : {A : Type ℓ} → (xs : List A) → All (λ x. Unit {0}) xs
All-trivial [] = tt
All-trivial (x ∷ xs) = (tt, All-trivial xs)

module _ {ℓ} {A : Type ℓ} where
  -- The row found, after an update that keeps what it was found by.
  pub find-update_where :
      (p q : A → Bool) (f : A → A) (xs : List A) (a : A)
      → ((x : A) → p (f x) ≡ p x)
      → find p xs ≡ some a
      → q a ≡ true
      → find p (update_where q f xs) ≡ some (f a)
  find-update_where p q f [] a same found h = cc
  find-update_where p q f (x ∷ xs) a same found h = elim (Bool-cases (p x)) [
    | inl this ↦
        let e : x ≡ a = ground arith in
        let taken : q x ≡ true = rw e h in
        let named : p (f x) ≡ true = same x ∙ this in rw (taken, named) (ap (λ y. some (f y)) e)
    | inr other ↦
        let later : find p xs ≡ some a = ground arith in
        let rest = find-update_where p q f xs a same later h in
        let named : p (f x) ≡ false = same x ∙ other in
        elim (Bool-cases (q x)) [ inl e ↦ rw (e, named) rest | inr e ↦ rw (e, other) rest ]
  ]

module _ {A : Type 0} where
  pub find_of_mem :
      (p : A → Bool) (xs : List A) (a : A)
      → Memᴰ a xs
      → p a ≡ true
      → All (λ x. p x ≡ true → x ≡ a) xs
      → find p xs ≡ some a
  find_of_mem p [] a m h k = elim m [ ]
  find_of_mem p (x ∷ xs) a m h (k, ks) = elim (Bool-cases (p x)) [
    | inl e ↦ rw e (ap some (k e))
    | inr e ↦ rw e (find_of_mem p xs a (later m e) h ks)
  ]
    where
      later : {xs : List A} {x : A} → Memᴰ a (x ∷ xs) → p x ≡ false → Memᴰ a xs
      later (Memᴰ.head same) e = absurd (false≢true (sym e ∙ rw (← same) h))
      later (Memᴰ.tail n) e = n

module _ {A : Type 0} (key : A → String) where
  single_here :
      (k : String) (q : A → Bool) (xs : List A)
      → All (λ x. str_eq (key x) k ≡ false) xs
      → count_where (λ x. str_eq (key x) k && q x) xs ≡ 0
  single_here k q [] h = refl
  single_here k q (x ∷ xs) (h, hs) = ground (arith, single_here k q xs hs)

  vacuous :
      (k : String) (q : A → Bool) (xs : List A)
      → All (λ x. str_eq (key x) k ≡ false) xs
      → All (λ x. str_eq (key x) k ≡ true → q x ≡ true) xs
  vacuous k q [] h = tt
  vacuous k q (x ∷ xs) (h, hs) = ((λ same. cc), vacuous k q xs hs)

  -- With distinct keys, where one row has the key and passes, the row with the key passes.
  pub All-when_one :
      (k : String) (q : A → Bool) (xs : List A)
      → Distinct (map key xs)
      → count_where (λ x. str_eq (key x) k && q x) xs ≡ 1
      → All (λ x. str_eq (key x) k ≡ true → q x ≡ true) xs
  All-when_one k q [] d h = tt
  All-when_one k q (x ∷ xs) (fresh, d) h = elim (Bool-cases (str_eq (key x) k)) [
    | inl this ↦
        let same : key x ≡ k = (str_eq_iff (key x) k).0 this in
        let gone = absent key k xs (subst (λ j. includes (map key xs) j ≡ false) same fresh) in
        ((λ e. ground (arith, single_here k q xs gone)), vacuous k q xs gone)
    | inr other ↦ ((λ e. cc), All-when_one k q xs d (ground arith))
  ]

  -- With distinct keys, a row that passes is the only one that has its key and passes.
  pub single_mem :
      (q : A → Bool) (xs : List A) (a : A)
      → Distinct (map key xs)
      → Memᴰ a xs
      → q a ≡ true
      → count_where (λ x. str_eq (key x) (key a) && q x) xs ≡ 1
  single_mem q [] a d m h = elim m [ ]
  single_mem q (x ∷ xs) a (fresh, d) (Memᴰ.head e) h =
      let gone = absent key (key a) xs (rw e fresh) in
      let none_left = single_here (key a) q xs gone in
      let mine : (str_eq (key x) (key a) && q x) ≡ true = rw (← e, str_eq_self (key a), h) refl in
      ground arith
  single_mem q (x ∷ xs) a (fresh, d) (Memᴰ.tail m) h =
      let one = single_mem q xs a d m h in
      let other : str_eq (key x) (key a) ≡ false = elim (Bool-cases (str_eq (key x) (key a))) [
        | inr t ↦ t
        | inl t ↦
            false_of_both (includes_of_mem key xs a m)
              (subst (λ k. includes (map key xs) k ≡ false) ((str_eq_iff _ _).0 t) fresh)
      ] in
      ground arith
