-- ===== src/Scenario/GroupE/Reasons.antt =====
-- internal/scenario/groupe_judge.go: the texts that the group E judges format, as values that
-- carry what the text shows.
use docker_net_dhcp_lab.Scenario.GroupE.Exchange.{Start}
use docker_net_dhcp_lab.Scenario.Outcome.{pass, Outcome, failed}
use docker_net_dhcp_lab.Scenario.GroupE.Windows.{Group}
use docker_net_dhcp_lab.Prelude.{ℕ, List, ℤ, Text, eq_text, ◌∷◌, ◌≡◌, [], refl}

-- `e2Names`
pub data Counter : Type 0 where
  leases_obtained leases_renewed lease_changed renewals_unanswered dhcp_timeouts : Counter
  naks_received releases_sent : Counter

-- one text of a `fails` list
pub data Fault : Type 0 where
  release_ledgered : Text → Fault
  unclassified : Text → Text → Start → Fault
  counts_differ : ℕ → ℕ → ℕ → ℕ → Fault
  order_differs : Text → Text → Fault
  declined : ℕ → Fault
  releases_not_one : ℕ → Fault
  releases_differ : ℕ → ℤ → Fault
  release_excess : ℕ → ℤ → Fault
  moved : Counter → ℕ → ℕ → Fault
  nak_on_wire : Fault
  not_flat : Counter → ℕ → Fault
  address_changed : Text → Text → Fault
  granted_other : Text → Text → Fault
  health_lacks : Counter → Fault
  views_differ : Counter → Fault

-- the reason of an outcome
pub data Reason : Type 0 where
  no_server_ack no_wire_ack : Reason
  unseen : Text → Reason
  disagree : List Group → List Group → Reason
  no_renewal : Reason
  ledger_absent : Reason
  unknown_kind : Text → Reason
  instance_changed : Text → Text → Reason
  series_missing : Counter → Reason
  restarted : Counter → ℕ → ℕ → Reason
  faults : List Fault → Reason
  e1_story : Text → ℕ → Reason
  e2_story : ℕ → ℕ → ℕ → Reason

-- the end of both judges: a FAIL with the faults, if there are any
unfoldable pub conclude : List Fault → Outcome Reason → Outcome Reason
conclude [] good = good
conclude (f ∷ fs) good = failed (faults (f ∷ fs))

pub conclude-pass :
    (fs : List Fault) (good : Outcome Reason) → (conclude fs good).result ≡ pass → fs ≡ []
unfolding conclude
conclude-pass [] good h = refl
conclude-pass (f ∷ fs) good h = cc
