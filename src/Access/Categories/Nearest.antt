-- ===== src/Access/Categories/Nearest.antt =====
-- What the walk of `resolveCategories` decides, without its set of visited categories: the nearest
-- rule up the chain of parents, and the space's own decision where the chain has no rule.
use isms_portal.Base.{
  ℕ, zero, suc, ◌<◌, String, ◌≡◌, refl, sym, ap, ◌∙◌, ◌↔◌, inl, inr, Bool, true, false, Option,
  none, some, List, [], ◌∷◌, arith, Bool-cases, Option-cases, truthy, includes, All,
  All_of_includes, All-mono, lookup,
}
use isms_portal.Access.Categories.{Category, node, climb, fuel_for, or_false}
use mathlib.Core.Path.{subst}
use isms_portal.Access.Categories.Total.{climb_total_lem}

module _ (nodes : List Category) (said : String → Option Bool) (inherited : Bool) where
  -- `Decides n c b`: after `n` steps up from `c` the first category of which `said` says something,
  -- or else the root, says `b`.
  pub data Decides : ℕ → Option String → Bool → Type 0 where
    root : Decides zero none inherited
    own :
        {id : String} {c : Category} {b : Bool}
        → node id nodes ≡ some c
        → said id ≡ some b
        → Decides zero (some id) b
    up :
        {n : ℕ} {id : String} {c : Category} {b : Bool}
        → node id nodes ≡ some c
        → said id ≡ none
        → Decides n (truthy c.parent_id) b
        → Decides (suc n) (some id) b

  -- There is one number of steps to a decision.
  steps_unique :
      (n m : ℕ) {cur : Option String} {b b' : Bool} → Decides n cur b → Decides m cur b' → n ≡ m
  steps_unique n m root root = refl
  steps_unique n m (own p q) (own p' q') = refl
  steps_unique n m (own p q) (up p' q' d') = cc
  steps_unique n m (up p q d) (own p' q') = cc
  steps_unique (suc n) (suc m) (up {c} p q d) (up {c = c'} {b = b'} p' q' d') =
      let same : truthy c.parent_id ≡ truthy c'.parent_id =
        ap (λ o. elim o [ none ↦ none | some x ↦ truthy (Category.parent_id x) ]) (sym p ∙ p') in
      ap suc (steps_unique n m d (subst (λ o. Decides m o b') (sym same) d'))

module _ (nodes : List Category) (overrides : List (String × Bool)) (inherited : Bool) where
  abbrev Leads : ℕ → Option String → Bool → Type 0
  Leads n cur b = Decides nodes (λ id. lookup id overrides) inherited n cur b

  climb_sound :
      (fuel : ℕ) (visited : List String) (cur : Option String)
      → climb nodes overrides inherited fuel visited cur ≡ some true
      → (n : ℕ) × Leads n cur true
  unfolding climb
  climb_sound zero visited cur h = cc
  climb_sound (suc fuel) visited none h =
      let granted : inherited ≡ true = cc in (zero, subst (λ b. Leads zero none b) granted root)
  climb_sound (suc fuel) visited (some id) h = elim (Option-cases (node id nodes)) [
    | inl missing ↦ absurd (ground arith)
    | inr (c, found) ↦ elim (Bool-cases (includes visited id)) [
      | inl again ↦ absurd (ground arith)
      | inr fresh ↦ elim (Option-cases (lookup id overrides)) [
        | inr (b, set) ↦ (zero, own found (ground arith))
        | inl unset ↦
            let (n, d) = climb_sound fuel (id ∷ visited) (truthy c.parent_id) (ground arith) in
            (suc n, up found unset d)
      ]
    ]
  ]

  -- What was visited stands further from the decision than what is to come.
  abbrev Further : ℕ → String → Type 0
  Further n v = (m : ℕ) × (b : Bool) × Leads m (some v) b × (n < m)

  fresh_of_Further :
      (n : ℕ) (id : String) (b : Bool) (visited : List String)
      → Leads n (some id) b
      → All (Further n) visited
      → includes visited id ≡ false
  fresh_of_Further n id b visited d h = elim (Bool-cases (includes visited id)) [
    | inr fresh ↦ fresh
    | inl again ↦
        let (m, b', d', lt) = All_of_includes (Further n) visited id h again in
        absurd (omega (arith, steps_unique nodes (λ id. lookup id overrides) inherited n m d d'))
  ]

  climb_complete :
      (n fuel : ℕ) (visited : List String) (cur : Option String) (b r : Bool)
      → Leads n cur b
      → All (Further n) visited
      → climb nodes overrides inherited fuel visited cur ≡ some r
      → r ≡ b
  unfolding climb
  climb_complete n zero visited cur b r d h e = cc
  climb_complete n (suc fuel) visited cur b r root h e = ground arith
  climb_complete n (suc fuel) visited cur b r (own {id} p q) h e =
      ground (arith, fresh_of_Further zero id b visited (own p q) h)
  climb_complete n (suc fuel) visited cur b r (up {n = k} {id} {c} p q d) h e =
      let fresh = fresh_of_Further (suc k) id b visited (up p q d) h in
      let next : climb nodes overrides inherited fuel (id ∷ visited) (truthy c.parent_id) ≡ some r =
        ground arith in
      climb_complete k fuel (id ∷ visited) (truthy c.parent_id) b r d
        (
          (suc k, b, up p q d, omega arith),
          All-mono (Further (suc k)) (Further k) visited
              (λ v (m, b', d', lt). (m, b', d', omega arith)) h,
        )
        next

-- The decision for a category is positive exactly when the first rule met on the way up from it,
-- or else the space itself, grants: a missing parent and a cycle of parents without a rule refuse.
pub climb_iff :
    (nodes : List Category) (overrides : List (String × Bool)) (inherited : Bool)
    (cur : Option String)
    → (or_false (climb nodes overrides inherited (fuel_for nodes) [] cur) ≡ true)
      ↔ ((n : ℕ) × Decides nodes (λ id. lookup id overrides) inherited n cur true)
climb_iff nodes overrides inherited cur =
    let (r, e) = climb_total_lem nodes overrides inherited cur in
    (
      λ h. climb_sound nodes overrides inherited (fuel_for nodes) [] cur (ground arith),
      λ (n, d).
          let granted =
            climb_complete nodes overrides inherited n (fuel_for nodes) [] cur true r d tt e in
          rw (e, granted),
    )
