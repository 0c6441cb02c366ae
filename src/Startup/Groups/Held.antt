-- ===== src/Startup/Groups/Held.antt =====
-- The groups hold every policy that is to be frozen, and rise by priority.
use app_lifecycle_kubernetes.Base.{
  ℕ, ◌≤◌, Bool, true, List, [], ◌∷◌, ◌++◌, map, ltb, ◌==◌, ◌≡◌, refl, sym, ◌∙◌, subst, arith, ◌⊎◌,
  inl, inr, Every, Every-append, In, here, there, Bool-cases,
}
use app_lifecycle_kubernetes.Types.{Policy}
use app_lifecycle_kubernetes.Startup.{Sort}
use app_lifecycle_kubernetes.Startup.Groups.{
  freeze_policies, freezes_before, Groups, add_to_group, group_policies, group_of, priorities,
  freeze_groups,
}

abbrev pub priority_of : Policy → ℕ
priority_of p = p.spec.freeze_priority

abbrev pub Holds : Policy → List (List Policy) → Type 0
Holds q [] = ⊥
Holds q (group ∷ rest) = In q group ⊎ Holds q rest

-- Groups of one priority each, none below the one before it.
abbrev pub Rises : List (List Policy) → Type 0
Rises [] = Unit {0}
Rises (group ∷ rest) =
    ((p q : Policy) → In p group → Holds q rest → priority_of p ≤ priority_of q)
    × ((p q : Policy) → In p group → In q group → priority_of p ≡ priority_of q)
    × Rises rest

abbrev pub Ascends : List ℕ → Type 0
Ascends [] = Unit {0}
Ascends (n ∷ rest) = Every (λ m. n ≤ m) rest × Ascends rest

abbrev Uniform : Groups → Type 0
Uniform groups = Every (λ g. Every (λ p. priority_of p ≡ g.0) g.1) groups

same_number : (a b : ℕ) → (a == b) ≡ true → a ≡ b
same_number a b h = ground arith

eq_refl : (a : ℕ) → (a == a) ≡ true
eq_refl a = ground arith

Every-In : {A : Type 0} (P : A → Type 0) (xs : List A) {x : A} → Every P xs → In x xs → P x
Every-In P [] h i = elim i [ ]
Every-In P (y ∷ ys) h (here e) = subst P (sym e) h.0
Every-In P (y ∷ ys) h (there i) = Every-In P ys h.1 i

pub In-append : {A : Type 0} (xs ys : List A) {x : A} → In x xs → In x (xs ++ ys)
In-append [] ys i = elim i [ ]
In-append (x ∷ xs) ys (here e) = here e
In-append (x ∷ xs) ys (there i) = there (In-append xs ys i)

pub In-append_right : {A : Type 0} (xs ys : List A) {x : A} → In x ys → In x (xs ++ ys)
In-append_right [] ys i = i
In-append_right (x ∷ xs) ys i = there (In-append_right xs ys i)

add_to_group-Uniform :
    (p : Policy) (groups : Groups) → Uniform groups → Uniform (add_to_group p groups)
unfolding add_to_group
add_to_group-Uniform p [] h = ((refl, tt), tt)
add_to_group-Uniform p ((n, group) ∷ rest) (same, h) = elim (Bool-cases (n == priority_of p)) [
  | inl y ↦ rw y (
    Every-append (λ q. priority_of q ≡ n) group (p ∷ []) same
        (sym (same_number n (priority_of p) y), tt),
    h,
  )
  | inr no_match ↦ rw no_match (same, add_to_group-Uniform p rest h)
]

add_to_group-here :
    (p : Policy) (groups : Groups) → In p (group_of (priority_of p) (add_to_group p groups))
unfolding add_to_group group_of
add_to_group-here p [] = rw (eq_refl (priority_of p)) (here refl)
add_to_group-here p ((n, group) ∷ rest) = elim (Bool-cases (n == priority_of p)) [
  | inl y ↦ rw (y, y) (In-append_right group (p ∷ []) (here refl))
  | inr no_match ↦ rw (no_match, no_match) (add_to_group-here p rest)
]

add_to_group-keeps :
    (p q : Policy) (priority : ℕ) (groups : Groups)
    → In q (group_of priority groups)
    → In q (group_of priority (add_to_group p groups))
unfolding add_to_group group_of
add_to_group-keeps p q priority [] i = elim i [ ]
add_to_group-keeps p q priority ((n, group) ∷ rest) i = elim (Bool-cases (n == priority_of p)) [
  | inl y ↦ elim (Bool-cases (n == priority)) [
    | inl e ↦ rw (y, e) (In-append group (p ∷ []) (rw e at i))
    | inr d ↦ rw (y, d) (rw d at i)
  ]
  | inr no_match ↦ elim (Bool-cases (n == priority)) [
    | inl e ↦ rw (no_match, e) (rw e at i)
    | inr d ↦ rw (no_match, d) (add_to_group-keeps p q priority rest (rw d at i))
  ]
]

group_policies-Uniform :
    (ps : List Policy) (groups : Groups) → Uniform groups → Uniform (group_policies ps groups)
unfolding group_policies
group_policies-Uniform [] groups h = h
group_policies-Uniform (p ∷ ps) groups h =
    group_policies-Uniform ps (add_to_group p groups) (add_to_group-Uniform p groups h)

group_policies-keeps :
    (q : Policy) (priority : ℕ) (ps : List Policy) (groups : Groups)
    → In q (group_of priority groups)
    → In q (group_of priority (group_policies ps groups))
unfolding group_policies
group_policies-keeps q priority [] groups i = i
group_policies-keeps q priority (p ∷ ps) groups i =
    group_policies-keeps q priority ps (add_to_group p groups)
      (add_to_group-keeps p q priority groups i)

group_policies-In :
    (q : Policy) (ps : List Policy) (groups : Groups)
    → In q ps
    → In q (group_of (priority_of q) (group_policies ps groups))
unfolding group_policies
group_policies-In q [] groups i = elim i [ ]
group_policies-In q (p ∷ ps) groups (here e) =
    group_policies-keeps q (priority_of q) ps (add_to_group p groups) (
      subst (λ x. In q (group_of (priority_of q) (add_to_group x groups))) e
        (add_to_group-here q groups))
group_policies-In q (p ∷ ps) groups (there i) = group_policies-In q ps (add_to_group p groups) i

-- A group that is not empty stands under a key.
group_of-priorities :
    (q : Policy) (priority : ℕ) (groups : Groups)
    → In q (group_of priority groups)
    → In priority (priorities groups)
unfolding group_of
group_of-priorities q priority [] i = elim i [ ]
group_of-priorities q priority ((n, group) ∷ rest) i = elim (Bool-cases (n == priority)) [
  | inl e ↦ here (sym (same_number n priority e))
  | inr d ↦ there (group_of-priorities q priority rest (rw d at i))
]

group_of-same :
    (q : Policy) (priority : ℕ) (groups : Groups)
    → Uniform groups
    → In q (group_of priority groups)
    → priority_of q ≡ priority
unfolding group_of
group_of-same q priority [] h i = elim i [ ]
group_of-same q priority ((n, group) ∷ rest) (same, h) i = elim (Bool-cases (n == priority)) [
  | inl e ↦ Every-In (λ p. priority_of p ≡ n) group same (rw e at i) ∙ same_number n priority e
  | inr d ↦ group_of-same q priority rest h (rw d at i)
]

module _ (groups : Groups) where
  abbrev ordered : List ℕ → List (List Policy)
  ordered = map (λ n. group_of n groups)

  Holds-ordered :
      (q : Policy) (numbers : List ℕ)
      → In q (group_of (priority_of q) groups)
      → In (priority_of q) numbers
      → Holds q (ordered numbers)
  Holds-ordered q [] i j = elim j [ ]
  Holds-ordered q (n ∷ rest) i (here e) = inl (subst (λ m. In q (group_of m groups)) e i)
  Holds-ordered q (n ∷ rest) i (there j) = inr (Holds-ordered q rest i j)

  ordered-le :
      (uniform : Uniform groups) (least : ℕ) (q : Policy) (numbers : List ℕ)
      → Every (λ m. least ≤ m) numbers
      → Holds q (ordered numbers)
      → least ≤ priority_of q
  ordered-le uniform least q [] h held = absurd held
  ordered-le uniform least q (n ∷ rest) (le, h) (inl i) =
      omega (arith, le, group_of-same q n groups uniform i)
  ordered-le uniform least q (n ∷ rest) (le, h) (inr held) = ordered-le uniform least q rest h held

  ordered-Rises :
      (uniform : Uniform groups) (numbers : List ℕ) → Ascends numbers → Rises (ordered numbers)
  ordered-Rises uniform [] h = tt
  ordered-Rises uniform (n ∷ rest) (le, h) = (
    λ p q i held.
        omega (arith, group_of-same p n groups uniform i, ordered-le uniform n q rest le held),
    λ p q i j. group_of-same p n groups uniform i ∙ sym (group_of-same q n groups uniform j),
    ordered-Rises uniform rest h,
  )

-- What `sort.Slice` is documented to do, as far as the groups rely on it: it keeps the elements, and
-- sorts numbers.
pub record Sorts (sort : Sort Policy) (sort_numbers : Sort ℕ) : Type 0 where
  pub keeps_policies :
      (less : Policy → Policy → Bool) (q : Policy) (ps : List Policy)
      → In q ps
      → In q (sort less ps)
  pub keeps_numbers : (n : ℕ) (ns : List ℕ) → In n ns → In n (sort_numbers ltb ns)
  pub sorts_numbers : (ns : List ℕ) → Ascends (sort_numbers ltb ns)

module _ {sort : Sort Policy} {sort_numbers : Sort ℕ} (sorts : Sorts sort sort_numbers)
    (policies : List Policy) where
  pub freeze_groups-Holds :
      (q : Policy)
      → In q (freeze_policies policies)
      → Holds q (freeze_groups sort sort_numbers policies)
  unfolding freeze_groups
  freeze_groups-Holds q i =
      let grouped =
        group_policies-In q (sort freezes_before (freeze_policies policies)) []
          (sorts.keeps_policies freezes_before q (freeze_policies policies) i) in
      Holds-ordered _ q _ grouped
        (sorts.keeps_numbers (priority_of q) _ (group_of-priorities q (priority_of q) _ grouped))

  pub freeze_groups-Rises : Rises (freeze_groups sort sort_numbers policies)
  unfolding freeze_groups
  freeze_groups-Rises =
      ordered-Rises (group_policies (sort freezes_before (freeze_policies policies)) [])
        (group_policies-Uniform (sort freezes_before (freeze_policies policies)) [] tt) _
        (sorts.sorts_numbers _)
