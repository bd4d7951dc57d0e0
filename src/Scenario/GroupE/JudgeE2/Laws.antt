-- ===== src/Scenario/GroupE/JudgeE2/Laws.antt =====
-- internal/scenario/groupe_judge.go: what a PASS of `judgeE2` says of the counters.
use docker_net_dhcp_lab.Scenario.Wire.{DhcpMsg}
use docker_net_dhcp_lab.Scenario.Outcome.{pass, Outcome}
use docker_net_dhcp_lab.Scenario.GroupE.Exchange.{bound, renew, other, WireExchange, wire_exchanges}
use docker_net_dhcp_lab.Scenario.GroupE.Reasons.{
  conclude-pass, Counter, leases_obtained, leases_renewed, lease_changed, renewals_unanswered,
  dhcp_timeouts, naks_received, releases_sent, Reason,
}
use docker_net_dhcp_lab.Scenario.GroupE.Tally.{
  e_tally, e_wire_release_excess, wire_releases, e_count, e_aligned,
}
use docker_net_dhcp_lab.Scenario.GroupE.Tally.Aligned.{
  Witnessed, e_aligned_iff, e_aligned-blocked, e_unclassified_iff,
}
use docker_net_dhcp_lab.Scenario.GroupE.JudgeE2.Views.{v4, SameView, views_disagree_iff, e2_names}
use docker_net_dhcp_lab.Scenario.GroupE.JudgeE2.{
  E2Obs, delta, counter_block, counters_block, eq_fault, flat_fault, is_nak, nak_faults,
  grant_faults, count_faults, flat_faults, address_faults, e2_faults, judge_counters, judge_e2,
}
use docker_net_dhcp_lab.Prelude.{
  ℕ, ◌≤◌, ◌≡◌, refl, ◌≢◌, inl, inr, false, not, ◌||◌, Option, none, some, List, [], ◌∷◌, arith,
  Bool-cases, Option-cases, any, All, append-eq-nil, ◌==◌, text_eq_iff, Text, eq_text, pos,
}

-- Both scrapes hold the counter, and it did not fall between them.
pub record Counted (o : E2Obs) (c : Counter) : Type 0 where
  pub first : ℕ
  pub last : ℕ
  pub at_first : o.before (v4 c) ≡ some first
  pub at_last : o.after (v4 c) ≡ some last
  pub grown : first ≤ last

counter_block-none :
    (c : Counter) (b a : Option ℕ)
    → counter_block c b a ≡ none
    → (x : ℕ) × (y : ℕ) × (b ≡ some x) × (a ≡ some y) × (x ≤ y)
unfolding counter_block
counter_block-none c (some b) (some a) h = (b, a, refl, refl, ground arith)
counter_block-none c (some b) none h = cc
counter_block-none c none a h = cc

counters_block-none :
    (o : E2Obs) (cs : List Counter) → counters_block o cs ≡ none → All (Counted o) cs
unfolding counters_block
counters_block-none o [] h = tt
counters_block-none o (c ∷ cs) h =
    elim (Option-cases (counter_block c (o.before (v4 c)) (o.after (v4 c)))) [
      | inr (r, e) ↦ absurd (ground arith)
      | inl e ↦
          let (x, y, p, q, r) = counter_block-none c _ _ e in
          (
            record { first = x; last = y; at_first = p; at_last = q; grown = r },
            counters_block-none o cs (ground arith),
          )
    ]

eq_fault-nil : (o : E2Obs) (c : Counter) (n : ℕ) → eq_fault o c n ≡ [] → delta o c ≡ n
unfolding eq_fault
eq_fault-nil o c n h = ground arith

flat_fault-nil : (o : E2Obs) (c : Counter) → flat_fault o c ≡ [] → delta o c ≡ 0
unfolding flat_fault
flat_fault-nil o c h = ground arith

nak_faults-nil : (ms : List DhcpMsg) → nak_faults ms ≡ [] → any (λ m. is_nak m.type) ms ≡ false
unfolding nak_faults
nak_faults-nil [] h = refl
nak_faults-nil (m ∷ ms) h = ground (arith, nak_faults-nil ms)

grant_faults-nil :
    (a : Text) (xs : List WireExchange) → grant_faults a xs ≡ [] → All (λ x. x.ip ≡ a) xs
unfolding grant_faults
grant_faults-nil a [] h = tt
grant_faults-nil a (x ∷ xs) h =
    (ground (arith, text_eq_iff x.ip a), grant_faults-nil a xs (ground arith))

-- What the counters and addresses of a PASS say.
pub record Matches (o : E2Obs) : Type 0 where
  pub obtained : delta o leases_obtained ≡ e_count (wire_exchanges o.wire) bound
  pub renewals : delta o leases_renewed ≡ e_count (wire_exchanges o.wire) renew
  pub released : delta o releases_sent ≡ (e_tally o.server).releases
  pub sent : wire_releases o.wire ≤ delta o releases_sent
  pub refused : delta o naks_received ≡ (e_tally o.server).naks
  pub no_nak : any (λ m. is_nak m.type) o.wire ≡ false
  pub no_timeout : delta o dhcp_timeouts ≡ 0
  pub answered : delta o renewals_unanswered ≡ 0
  pub unchanged : delta o lease_changed ≡ 0
  pub classified : e_count (wire_exchanges o.wire) other ≡ 0
  pub kept : o.addr_before ≡ o.addr_after
  pub granted : All (λ x. x.ip ≡ o.address) (wire_exchanges o.wire)
  pub one_view : (c : Counter) → SameView o.after o.health c

excess-nil :
    (ms : List DhcpMsg) (n : ℕ) → e_wire_release_excess ms (pos n) ≡ [] → wire_releases ms ≤ n
unfolding e_wire_release_excess
excess-nil ms n h = ground arith

e2_faults-nil :
    (o : E2Obs) → e2_faults o (e_tally o.server) (wire_exchanges o.wire) ≡ [] → Matches o
unfolding e2_faults count_faults flat_faults address_faults
e2_faults-nil o h =
    let (co, h1) = append-eq-nil _ _ h in
    let (nk, h2) = append-eq-nil _ _ h1 in
    let (fl, h3) = append-eq-nil _ _ h2 in
    let (un, h4) = append-eq-nil _ _ h3 in
    let (ad, vw) = append-eq-nil _ _ h4 in
    let (ob, c1) = append-eq-nil _ _ co in
    let (rn, c2) = append-eq-nil _ _ c1 in
    let (rl, c3) = append-eq-nil _ _ c2 in
    let (ex, nr) = append-eq-nil _ _ c3 in
    let (ti, f1) = append-eq-nil _ _ fl in
    let (an, lc) = append-eq-nil _ _ f1 in
    let (sa, gr) = append-eq-nil _ _ ad in
    record {
      obtained = eq_fault-nil o leases_obtained _ ob;
      renewals = eq_fault-nil o leases_renewed _ rn;
      released = eq_fault-nil o releases_sent _ rl;
      sent = excess-nil o.wire (delta o releases_sent) ex;
      refused = eq_fault-nil o naks_received _ nr;
      no_nak = nak_faults-nil o.wire nk;
      no_timeout = flat_fault-nil o dhcp_timeouts ti;
      answered = flat_fault-nil o renewals_unanswered an;
      unchanged = flat_fault-nil o lease_changed lc;
      classified = (e_unclassified_iff _).0 un;
      kept = ground (arith, text_eq_iff o.addr_before o.addr_after);
      granted = grant_faults-nil o.address _ gr;
      one_view = (views_disagree_iff o.after o.health).0 vw;
    }

-- What a PASS of E2 asserts.
pub record E2Holds (o : E2Obs) : Type 0 where
  pub running : o.instance_before ≢ []
  pub same_instance : o.instance_before ≡ o.instance_after
  pub counted : All (Counted o) e2_names
  pub witnessed : Witnessed (e_tally o.server).acks (wire_exchanges o.wire)
  pub agrees : Matches o

judge_counters-pass :
    (o : E2Obs) (r : Option Reason) (b : Option (Outcome Reason))
    → counters_block o e2_names ≡ r
    → e_aligned (e_tally o.server).acks (wire_exchanges o.wire) ≡ b
    → (judge_counters r o (e_tally o.server) (wire_exchanges o.wire)).result ≡ pass
    → All (Counted o) e2_names
      × Witnessed (e_tally o.server).acks (wire_exchanges o.wire)
      × Matches o
unfolding judge_counters
judge_counters-pass o (some r) b e k h = cc
judge_counters-pass o none (some b) e k h = absurd (ground (arith, e_aligned-blocked _ _ b k))
judge_counters-pass o none none e k h = (
  counters_block-none o e2_names e,
  (e_aligned_iff _ _).0 k,
  e2_faults-nil o (conclude-pass _ _ (simp k at h)),
)

-- A PASS of `judgeE2` says that one plugin instance ran through the window, that all seven counters
-- were read twice and did not fall, that the witnesses bear each other out, and that the counters,
-- the addresses and the two views match what the log and the wire show.
pub judge_e2-pass : (o : E2Obs) → (judge_e2 o).result ≡ pass → E2Holds o
unfolding judge_e2
judge_e2-pass o h =
    elim (Bool-cases (o.instance_before == [] || not (o.instance_before == o.instance_after))) [
      | inl e ↦ absurd (ground arith)
      | inr e ↦
          let (c, w, m) = judge_counters-pass o _ _ refl refl (simp e at h) in
          record {
            running = ground (arith, text_eq_iff o.instance_before []);
            same_instance = ground (arith, text_eq_iff o.instance_before o.instance_after);
            counted = c;
            witnessed = w;
            agrees = m;
          }
    ]
