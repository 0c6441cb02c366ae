-- ===== src/Watches.antt =====
-- What makes a policy reconciled: the predicates of `SetupWithManager` and `mapNodeReadyToPolicy` of
-- internal/controller/namespacelifecyclepolicy_controller.go.
pub mod Events
use app_lifecycle_kubernetes.Base.{
  ℕ, ◌+◌, String, Bool, true, false, not, ◌&&◌, ◌||◌, Option, none, some, List, [], ◌∷◌, ◌++◌,
  Result, ok, err, ltb, ◌==◌, str_eq, is_some, if◌then◌else◌,
}
use app_lifecycle_kubernetes.Types.{Policy}
use app_lifecycle_kubernetes.Kube.{Node, KubeCondition}
use app_lifecycle_kubernetes.Client.{Client}
use app_lifecycle_kubernetes.Nodes.{is_node_ready}
use app_lifecycle_kubernetes.Reconcile.Parts.{is_newer, is_failure_active, seconds}
use app_lifecycle_kubernetes.Reconcile.Resuming.{is_unhandled}

-- The time is set, and is not the one before.
abbrev pub is_reset : Option ℕ → Option ℕ → Bool
is_reset before none = false
is_reset none (some after) = true
is_reset (some before) (some after) = not (after == before)

-- A flag is raised, or it is up and its delay began anew.
abbrev pub is_raised : Bool → Option ℕ → Bool → Option ℕ → Bool
is_raised old started new restarted = (not old && new) || (new && is_reset started restarted)

-- `UpdateFunc`, with the generations of the object before and after.
unfoldable pub reconciles_update : ℕ → ℕ → Policy → Policy → Bool
reconciles_update generation new_generation old new =
    not (generation == new_generation)
    || (is_raised old.status.pending_freeze old.status.freeze_delay_started_at
          new.status.pending_freeze new.status.freeze_delay_started_at
        || (is_raised old.status.pending_startup_resume old.status.resume_delay_started_at
              new.status.pending_startup_resume new.status.resume_delay_started_at
            || (is_newer new.status.node_ready_event_detected_at
                  old.status.node_ready_event_detected_at
                || is_newer new.status.node_failure_event_detected_at
                    old.status.node_failure_event_detected_at)))

-- `CreateFunc`
unfoldable pub reconciles_create : Policy → Bool
reconciles_create policy =
    policy.status.pending_startup_resume
    || (policy.status.pending_freeze || (is_failure_active policy || is_unhandled policy))

-- `UpdateFunc` of the nodes.
unfoldable pub is_ready_changed : Node → Node → Bool
is_ready_changed old new = if is_node_ready old then not (is_node_ready new) else is_node_ready new

-- A request names a policy by its namespace and name.
abbrev pub request : Policy → String × String
request p = (p.namespace, p.name)

-- The failure of this node is being handled already.
unfoldable pub is_tracked : String → Policy → Bool
is_tracked name p =
    str_eq p.status.failed_node_name name
    && is_newer p.status.node_failure_event_detected_at p.status.node_failure_event_handled_at

unfoldable pub with_failure_detected : String → ℕ → Policy → Policy
with_failure_detected name now p = record p {
  status = record p.status { failed_node_name = name; node_failure_event_detected_at = some now };
}

unfoldable pub with_ready_detected : ℕ → Policy → Policy
with_ready_detected now p = record p {
  status = record p.status { node_ready_event_detected_at = some now };
}

-- A request where the write of the status succeeded.
abbrev pub request_if : Policy → Result (Unit {0}) → List (String × String)
request_if p (ok _) = request p ∷ []
request_if p (err e) = []

-- One policy at the failure of a node: whether it is requested, and what is written.
unfoldable pub note_failure :
    {W : Type 0} → Client W → String → ℕ → Policy → W → List (String × String) × W
unfolding is_tracked with_failure_detected
note_failure c name now p w =
    let (written, w₁) = c.update_status (with_failure_detected name now p) w in
    if not p.spec.handle_node_failure
    then ([], w)
    else if is_tracked name p
    then (request p ∷ [], w)
    else (request_if p written, w₁)

-- One policy at the recovery of a node.
unfoldable pub note_ready : {W : Type 0} → Client W → Policy → W → List (String × String) × W
unfolding with_ready_detected
note_ready c p w =
    let (now, w₁) = c.now w in
    let (written, w₂) = c.update_status (with_ready_detected now p) w₁ in
    if p.spec.balance_pods && is_some p.status.last_resume_at
    then (request_if p written, w₂)
    else ([], w)

-- The loop over the policies.
unfoldable pub note_all :
    {W : Type 0}
    → (Policy → W → List (String × String) × W)
    → List Policy
    → W
    → List (String × String) × W
note_all note [] w = ([], w)
note_all note (p ∷ rest) w =
    let (requests, w₁) = note p w in
    let (more, w₂) = note_all note rest w₁ in (requests ++ more, w₂)

-- What a list of policies leads to: on an error no policy is requested.
abbrev on_failed_node :
    {W : Type 0} → Client W → String → Result (List Policy) → W → List (String × String) × W
on_failed_node c name (err e) w = ([], w)
on_failed_node c name (ok policies) w =
    let (now, w₁) = c.now w in note_all (note_failure c name now) policies w₁

abbrev on_ready_node :
    {W : Type 0} → Client W → Result (List Policy) → W → List (String × String) × W
on_ready_node c (err e) w = ([], w)
on_ready_node c (ok policies) w = note_all (note_ready c) policies w

-- The first Ready condition changed less than ten seconds ago; a time in the future counts as well.
unfoldable pub is_recent : List KubeCondition → ℕ → Bool
is_recent [] now = false
is_recent (c ∷ rest) now =
    let later = is_recent rest now in
    if str_eq c.type "Ready" then ltb now (c.last_transition_time + seconds 10) else later

unfoldable pub map_node_ready_to_policy :
    {W : Type 0} → Client W → Node → W → List (String × String) × W
unfolding is_recent note_failure note_ready note_all
map_node_ready_to_policy c node w =
    let (now, w₁) = c.now w in
    let (policies, w₂) = c.list_policies w₁ in
    if not (is_recent node.conditions now)
    then ([], w₁)
    else if not (is_node_ready node)
    then on_failed_node c node.name policies w₂
    else on_ready_node c policies w₂
