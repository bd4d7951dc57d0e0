-- ===== src/Tests/Hosts.antt =====
-- internal/sourceadapter/retry.go and internal/scenario/hostrecover.go: a host that refuses a
-- connection once, and one that a reset brings back.
use docker_net_dhcp_lab.Sourceadapter.Retry.{is_connect_error, Attempt, answered, Ended, retry}
use docker_net_dhcp_lab.Sourceadapter.Retry.Laws.{NeverRan, take, retry-NeverRan, retry-ends}
use docker_net_dhcp_lab.Scenario.HostRecovery.{
  take_note, reset, Note, Recovery, Answers, is_connect, gate, without_note, Run, begin, then,
  gated, taken,
}
use docker_net_dhcp_lab.Scenario.HostRecovery.Laws.{
  Descending, gate-passes, Run-bounded, resets, BroughtBack,
}
use docker_net_dhcp_lab.Prelude.{
  ℕ, suc, ◌≤◌, ◌<◌, ◌≡◌, refl, ◌⊎◌, Bool, true, false, Option, none, some, List, [], ◌∷◌, arith,
  length, All, Text, codes, has_prefix, ◌+◌,
}

abbrev refused : Text
refused = codes "ssh: connect to host 10.200.255.11 port 22: exit status 255"

abbrev attempt_of : Option Text → Bool → Attempt
attempt_of error late = record {
  error = error;
  cut_off = false;
  past_bound = late;
  interrupted = false;
}

abbrev two_tries : List Attempt
two_tries = attempt_of (some refused) false ∷ attempt_of none false ∷ []

abbrev two_made : Ended
two_made = record { answer = answered; down = false; attempts = 2 }

ends_second : retry none false two_tries ≡ some two_made
unfolding retry is_connect_error has_prefix
ends_second = refl

retry-NeverRan_example :
    (n : ℕ) × (two_made.attempts ≡ suc n) × (n < length two_tries) × All NeverRan (take n two_tries)
retry-NeverRan_example = retry-NeverRan none false two_tries two_made ends_second

abbrev never_up : List Attempt
never_up = attempt_of (some refused) false ∷ attempt_of (some refused) true ∷ []

retry-ends_example : (r : Ended) × (retry none false never_up ≡ some r)
retry-ends_example = retry-ends none false never_up refl

abbrev fresh : Recovery
fresh = record { max = 2; used = 0; note = none }

abbrev comes_back : Answers
comes_back = record {
  reset_works = true;
  start_works = true;
  polls = (false, false) ∷ (true, true) ∷ [];
  written = true;
}

passes_second : (gate comes_back (some refused) none fresh).error ≡ none
unfolding gate is_connect_error has_prefix
passes_second = refl

gate-passes_example :
    (some refused ≡ none)
    ⊎ ((is_connect (some refused) ≡ true)
        × (◌≡◌ {A = Option Text} none none)
        × BroughtBack comes_back (gate comes_back (some refused) none fresh).commands
        × (fresh.used < fresh.max)
        × ((gate comes_back (some refused) none fresh).after.used ≡ suc fresh.used))
gate-passes_example = gate-passes comes_back (some refused) none fresh passes_second

abbrev after_gate : Recovery
after_gate = record { max = 2; used = 1; note = some (record { number = 1; action = reset }) }

abbrev first_note : Note
first_note = record { number = 1; action = reset }

gate_then_note : Run fresh (without_note after_gate) (first_note ∷ []) (reset ∷ [])
unfolding gate take_note is_connect_error has_prefix
gate_then_note =
    then after_gate (without_note after_gate) [] (first_note ∷ []) (reset ∷ []) []
      (then fresh after_gate [] [] [] (reset ∷ []) begin
        (gated comes_back (some refused) none fresh))
      (taken after_gate)

Run-bounded_example : (resets (reset ∷ []) + fresh.used ≤ fresh.max) × Descending (first_note ∷ [])
Run-bounded_example =
    Run-bounded fresh (without_note after_gate) (first_note ∷ []) (reset ∷ []) (omega arith) refl
      gate_then_note
