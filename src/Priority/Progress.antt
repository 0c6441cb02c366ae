-- ===== src/Priority/Progress.antt =====
-- The priority gate: exactly when it blocks, and that it never blocks everybody.
use app_lifecycle_kubernetes.Base.{
  ℕ, zero, suc, ◌<◌, true, false, List, [], ◌∷◌, ◌≡◌, ◌≢◌, ◌↔◌, inl, inr, refl, arith, In, here,
  there, Bool-cases, str_eq_iff,
}
use app_lifecycle_kubernetes.Types.{Policy}
use app_lifecycle_kubernetes.Priority.{resume_rank, blocks, is_blocked_by}

-- `other` is pending and goes before `policy`.
pub record GoesBefore (policy other : Policy) : Type 0 where
  pub is_other : other.uid ≢ policy.uid
  pub is_pending : other.status.pending_startup_resume ≡ true
  pub is_higher : resume_rank other < resume_rank policy

pub blocks_iff : (policy other : Policy) → (blocks policy other ≡ true) ↔ GoesBefore policy other
unfolding blocks
blocks_iff policy other = ground (arith, str_eq_iff other.uid policy.uid)

abbrev Blocker : Policy → List Policy → Type 0
Blocker policy policies = (other : Policy) × In other policies × GoesBefore policy other

is_blocked_by-Blocker :
    (policy : Policy) (policies : List Policy)
    → is_blocked_by policy policies ≡ true
    → Blocker policy policies
unfolding is_blocked_by
is_blocked_by-Blocker policy [] h = cc
is_blocked_by-Blocker policy (p ∷ ps) h = elim (Bool-cases (blocks policy p)) [
  | inl e ↦ (p, here refl, (blocks_iff policy p).0 e)
  | inr e ↦
      let (q, at, before) = is_blocked_by-Blocker policy ps (rw e at h) in (q, there at, before)
]

Blocker-is_blocked_by :
    (policy : Policy) {other : Policy} (policies : List Policy)
    → In other policies
    → GoesBefore policy other
    → is_blocked_by policy policies ≡ true
unfolding is_blocked_by
Blocker-is_blocked_by policy [] at before = elim at [ ]
Blocker-is_blocked_by policy (p ∷ ps) (here e) before =
    rw ((blocks_iff policy p).1 (rw e at before))
Blocker-is_blocked_by policy (p ∷ ps) (there at) before =
    rw (Blocker-is_blocked_by policy ps at before) (ground arith)

-- A policy is blocked exactly when some other policy in the cluster still waits for its startup
-- resume and has a lower priority number, 100 standing for an unset one.
pub is_blocked_by_iff :
    (policy : Policy) (policies : List Policy)
    → (is_blocked_by policy policies ≡ true)
      ↔ ((other : Policy) × In other policies × GoesBefore policy other)
is_blocked_by_iff policy policies =
    (is_blocked_by-Blocker policy policies, λ b. Blocker-is_blocked_by policy policies b.1 b.2)

-- A policy that waits for its resume and is not blocked.
pub record CanGo (policies : List Policy) (policy : Policy) : Type 0 where
  pub listed : In policy policies
  pub is_pending : policy.status.pending_startup_resume ≡ true
  pub is_free : is_blocked_by policy policies ≡ false

some_CanGo_below :
    (n : ℕ) (policies : List Policy) (p : Policy)
    → In p policies
    → p.status.pending_startup_resume ≡ true
    → resume_rank p < n
    → (q : Policy) × CanGo policies q
some_CanGo_below zero policies p at pending h = elim h [ ]
some_CanGo_below (suc n) policies p at pending h = elim (Bool-cases (is_blocked_by p policies)) [
  | inl e ↦
      let (q, q_at, before) = is_blocked_by-Blocker p policies e in
      some_CanGo_below n policies q q_at before.is_pending (omega (arith, before.is_higher))
  | inr e ↦ (p, record { listed = at; is_pending = pending; is_free = e })
]

-- As long as some policy in the cluster waits for its startup resume, one that waits is let through:
-- the priority ordering cannot lock all policies out.
pub some_CanGo :
    (policies : List Policy) (p : Policy)
    → In p policies
    → p.status.pending_startup_resume ≡ true
    → (q : Policy) × CanGo policies q
some_CanGo policies p at pending =
    some_CanGo_below (suc (resume_rank p)) policies p at pending (omega arith)
