-- ===== src/Startup/Resumes/Scan.antt =====
-- What the scan for failed nodes leaves to the startup resume.
use app_lifecycle_kubernetes.Base.{
  String, true, not, List, [], ◌∷◌, ok, ◌≡◌, refl, ap, keep, Every, Bool-cases, inl, inr,
}
use app_lifecycle_kubernetes.Types.{Policy}
use app_lifecycle_kubernetes.Kube.{Node}
use app_lifecycle_kubernetes.Client.{Client}
use app_lifecycle_kubernetes.Startup.Resumes.{
  failed_nodes, is_already_handled, scan_policy, scan_policies, scan_with, scan_result, scan,
}

-- The policies that do not handle node failures.
abbrev pub ungoverned : List Policy → List Policy
ungoverned = keep (λ p. not p.spec.handle_node_failure)

module _ {W : Type 0} (c : Client W) (name : String) where
  scan_policies-ungoverned :
      (ps : List Policy) (w : W) → (scan_policies c name ps w).0 ≡ ungoverned ps
  unfolding scan_policies scan_policy
  scan_policies-ungoverned [] w = refl
  scan_policies-ungoverned (p ∷ ps) w = elim (Bool-cases p.spec.handle_node_failure) [
    | inr no_it_does_not ↦
        simp no_it_does_not (ap (λ rest. p ∷ rest) (scan_policies-ungoverned ps w))
    | inl handles ↦ elim (Bool-cases (is_already_handled name p)) [
      | inl done ↦ simp (handles, done) (scan_policies-ungoverned ps w)
      | inr open_still ↦ simp (handles, open_still) (scan_policies-ungoverned ps _)
    ]
  ]

  -- A failure that every policy has handled changes nothing.
  scan_policies-handled :
      (ps : List Policy) (w : W)
      → Every (λ p. is_already_handled name p ≡ true) ps
      → (scan_policies c name ps w).1 ≡ w
  unfolding scan_policies scan_policy
  scan_policies-handled [] w h = refl
  scan_policies-handled (p ∷ ps) w (handled, h) = elim (Bool-cases p.spec.handle_node_failure) [
    | inr no_it_does_not ↦ simp no_it_does_not (scan_policies-handled ps w h)
    | inl handles ↦ simp (handles, handled) (scan_policies-handled ps w h)
  ]

-- While a node is down at the startup, exactly the policies that do not handle node failures go on to
-- their startup resume, in their order, whatever becomes of the handling for the others.
pub scan-ungoverned :
    {W : Type 0} (c : Client W) (policies : List Policy) (nodes rest : List Node) (node : Node)
    (w v : W)
    → c.list_nodes_uncached w ≡ (ok nodes, v)
    → failed_nodes nodes ≡ node ∷ rest
    → (scan c policies w).0 ≡ ungoverned policies
unfolding scan scan_result scan_with
scan-ungoverned c policies nodes rest node w v listed failed =
    rw (listed, failed) (scan_policies-ungoverned c node.name policies v)

-- A restart while the failure of the first node that is down was handled for all policies only lists the
-- nodes.
pub scan-handled :
    {W : Type 0} (c : Client W) (policies : List Policy) (nodes rest : List Node) (node : Node)
    (w v : W)
    → c.list_nodes_uncached w ≡ (ok nodes, v)
    → failed_nodes nodes ≡ node ∷ rest
    → Every (λ p. is_already_handled node.name p ≡ true) policies
    → (scan c policies w).1 ≡ v
unfolding scan scan_result scan_with
scan-handled c policies nodes rest node w v listed failed handled =
    rw (listed, failed) (scan_policies-handled c node.name policies v handled)
