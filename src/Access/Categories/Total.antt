-- ===== src/Access/Categories/Total.antt =====
-- The fuel of the walk of `resolveCategories`.
use isms_portal.Base.{
  ℕ, zero, suc, ◌+◌, ◌≤◌, ◌<◌, String, ◌≡◌, refl, inl, inr, Bool, false, not, Option, none, some,
  List, [], ◌∷◌, arith, Bool-cases, Option-cases, str_eq_iff, str_eq_self, truthy, length, filter,
  includes, length-filter, lookup,
}
use isms_portal.Access.Categories.{Category, node, climb, fuel_for}

-- How many categories the walk has not met yet.
abbrev unvisited : List String → List Category → ℕ
unvisited visited nodes = length (filter (λ c. not (includes visited c.id)) nodes)

unvisited-cons-le :
    (id : String) (visited : List String) (nodes : List Category)
    → unvisited (id ∷ visited) nodes ≤ unvisited visited nodes
unvisited-cons-le id visited [] = omega arith
unvisited-cons-le id visited (c ∷ cs) = ground (arith, unvisited-cons-le id visited cs)

-- A category that is met for the first time makes the rest smaller.
unvisited-cons-lt :
    (id : String) (visited : List String) (nodes : List Category) (c : Category)
    → node id nodes ≡ some c
    → includes visited id ≡ false
    → unvisited (id ∷ visited) nodes < unvisited visited nodes
unvisited-cons-lt id visited [] c found fresh = ground arith
unvisited-cons-lt id visited (d ∷ ds) c found fresh = elim (Option-cases (node id ds)) [
  | inl absent ↦
      ground (arith, absent, str_eq_iff d.id id, str_eq_self id, unvisited-cons-le id visited ds)
  | inr (e, later) ↦ ground (arith, unvisited-cons-lt id visited ds e later fresh)
]

-- With more fuel than categories that are left, the walk gives an answer.
climb_total :
    (nodes : List Category) (overrides : List (String × Bool)) (inherited : Bool) (fuel : ℕ)
    (visited : List String) (current : Option String)
    → unvisited visited nodes + 1 < fuel
    → (allowed : Bool) × (climb nodes overrides inherited fuel visited current ≡ some allowed)
unfolding climb
climb_total nodes overrides inherited zero visited current h = elim h [ ]
climb_total nodes overrides inherited (suc fuel) visited none h = (inherited, refl)
climb_total nodes overrides inherited (suc fuel) visited (some id) h =
    elim (Option-cases (node id nodes)) [
      | inl missing ↦ (false, ground arith)
      | inr (c, found) ↦ elim (Bool-cases (includes visited id)) [
        | inl again ↦ (false, ground arith)
        | inr fresh ↦ elim (Option-cases (lookup id overrides)) [
          | inr (b, set) ↦ (b, ground arith)
          | inl unset ↦
              let (b, e) =
                climb_total nodes overrides inherited fuel (id ∷ visited) (truthy c.parent_id)
                  (omega (arith, unvisited-cons-lt id visited nodes c found fresh)) in
              (b, ground arith)
        ]
      ]
    ]

-- The walk that `resolveCategories` makes from any category ends within the fuel given to it.
pub climb_total_lem :
    (nodes : List Category) (overrides : List (String × Bool)) (inherited : Bool)
    (current : Option String)
    → (allowed : Bool) × (climb nodes overrides inherited (fuel_for nodes) [] current
        ≡ some allowed)
climb_total_lem nodes overrides inherited current =
    climb_total nodes overrides inherited (fuel_for nodes) [] current
      (omega (arith, length-filter (λ (c : Category). not (includes [] c.id)) nodes))
