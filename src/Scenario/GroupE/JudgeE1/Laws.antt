-- ===== src/Scenario/GroupE/JudgeE1/Laws.antt =====
-- internal/scenario/groupe_judge.go: what a PASS of `judgeE1` says of the ledger, the source's log
-- and the wire, and which readings it can give.
use docker_net_dhcp_lab.Prelude.{
  ℕ, ◌≤◌, ◌≡◌, refl, List, [], arith, ℤ, text_eq_iff, eq_text, pos, ap, subst, ◌∙◌, ◌↔◌, ◌⊎◌, inl,
  inr, true, false, Option, none, some, Bool-cases, Option-cases, append-eq-nil,
}
use docker_net_dhcp_lab.Scenario.Outcome.{pass, Outcome}
use docker_net_dhcp_lab.Scenario.GroupE.Exchange.{bound, renew, other, wire_exchanges}
use docker_net_dhcp_lab.Scenario.GroupE.Reasons.{conclude-pass, Reason}
use docker_net_dhcp_lab.Scenario.GroupE.Tally.{
  Tally, e_tally, e_wire_release_excess, wire_releases, e_count, e_aligned,
}
use docker_net_dhcp_lab.Scenario.GroupE.Tally.Aligned.{
  Witnessed, e_aligned_iff, e_aligned-blocked, e_unclassified_iff,
}
use docker_net_dhcp_lab.Scenario.GroupE.JudgeE1.{
  E1Obs, Story, kind_bound, kind_renew, LedgerRead, unreadable, read, read_ledger, wire_story,
  count_kind, pair_seq, story_faults, count_faults, e1_faults, judge_story, judge_e1,
}

-- The ledger tells the wire's story and the releases agree.
pub record Agrees (o : E1Obs) (got : Story) : Type 0 where
  pub readable : read_ledger o.ledger ≡ read got []
  pub classified : e_count (wire_exchanges o.wire) other ≡ 0
  pub bounds : count_kind got kind_bound ≡ e_count (wire_exchanges o.wire) bound
  pub renewals : count_kind got kind_renew ≡ e_count (wire_exchanges o.wire) renew
  pub in_order : pair_seq got ≡ pair_seq (wire_story (wire_exchanges o.wire))
  pub undeclined : (e_tally o.server).declines ≡ 0
  pub released : (e_tally o.server).releases ≡ 1
  pub counted : o.releases_sent ≡ pos 1
  pub sent_once : wire_releases o.wire ≤ 1

story_faults-nil :
    (got want : Story) (b r : ℕ)
    → story_faults got want b r ≡ []
    → (count_kind got kind_bound ≡ b)
      × (count_kind got kind_renew ≡ r)
      × (pair_seq got ≡ pair_seq want)
unfolding story_faults
story_faults-nil got want b r h = ground (arith, text_eq_iff (pair_seq got) (pair_seq want))

count_faults-nil :
    (t : Tally) (sent : ℤ)
    → count_faults t sent ≡ []
    → (t.declines ≡ 0) × (t.releases ≡ 1) × (sent ≡ pos 1)
unfolding count_faults
count_faults-nil t sent h = ground arith

excess-nil : (ms : List _) (n : ℕ) → e_wire_release_excess ms (pos n) ≡ [] → wire_releases ms ≤ n
unfolding e_wire_release_excess
excess-nil ms n h = ground arith

-- What a PASS of E1 asserts.
pub record E1Holds (o : E1Obs) : Type 0 where
  pub present : o.ledger_absent ≡ false
  pub witnessed : Witnessed (e_tally o.server).acks (wire_exchanges o.wire)
  pub got : Story
  pub agrees : Agrees o got

e1_faults-nil :
    (o : E1Obs) (got : Story)
    → read_ledger o.ledger ≡ read got []
    → e1_faults o (e_tally o.server) (wire_exchanges o.wire) got ≡ []
    → Agrees o got
unfolding e1_faults
e1_faults-nil o got readable h =
    let (un, h1) = append-eq-nil _ _ h in
    let (st, h2) = append-eq-nil _ _ h1 in
    let (co, ex) = append-eq-nil _ _ h2 in
    let (b, r, seq) = story_faults-nil _ _ _ _ st in
    let (d, one, sent) = count_faults-nil (e_tally o.server) o.releases_sent co in
    record {
      readable = readable;
      classified = (e_unclassified_iff _).0 un;
      bounds = b;
      renewals = r;
      in_order = seq;
      undeclined = d;
      released = one;
      counted = sent;
      sent_once = excess-nil o.wire 1 (subst (λ z. e_wire_release_excess o.wire z ≡ []) sent ex);
    }

judge_story-pass :
    (o : E1Obs) (l : LedgerRead)
    → read_ledger o.ledger ≡ l
    → (judge_story o (e_tally o.server) (wire_exchanges o.wire) l).result ≡ pass
    → (got : Story) × Agrees o got
unfolding judge_story
judge_story-pass o (unreadable k) e h = cc
judge_story-pass o (read got fs) e h =
    let (old, new) = append-eq-nil fs _ (conclude-pass _ _ h) in
    let clean : read_ledger o.ledger ≡ read got [] = e ∙ ap (read got) old in
    (got, e1_faults-nil o got clean new)

judge_e1_sound : (o : E1Obs) → (judge_e1 o).result ≡ pass → E1Holds o
unfolding judge_e1
judge_e1_sound o h = here (Bool-cases o.ledger_absent) (Option-cases block)
  where
    block : Option (Outcome Reason)
    block = e_aligned (e_tally o.server).acks (wire_exchanges o.wire)

    here :
        (o.ledger_absent ≡ true) ⊎ (o.ledger_absent ≡ false)
        → (block ≡ none) ⊎ ((b : Outcome Reason) × (block ≡ some b))
        → E1Holds o
    here (inl e) _ = absurd (ground arith)
    here (inr e) (inr (b, k)) = absurd (ground (arith, e_aligned-blocked _ _ b k))
    here (inr e) (inl k) =
        let (got, agrees) = judge_story-pass o (read_ledger o.ledger) refl (simp (e, k) at h) in
        record { present = e; witnessed = (e_aligned_iff _ _).0 k; got = got; agrees = agrees }

story_faults-none :
    (got want : Story) (b r : ℕ)
    → count_kind got kind_bound ≡ b
    → count_kind got kind_renew ≡ r
    → pair_seq got ≡ pair_seq want
    → story_faults got want b r ≡ []
unfolding story_faults
story_faults-none got want b r p q e = ground (arith, text_eq_iff (pair_seq got) (pair_seq want))

count_faults-none :
    (t : Tally) (sent : ℤ)
    → t.declines ≡ 0
    → t.releases ≡ 1
    → sent ≡ pos 1
    → count_faults t sent ≡ []
unfolding count_faults
count_faults-none t sent d r s = ground arith

excess-none : (ms : List _) (n : ℕ) → wire_releases ms ≤ n → e_wire_release_excess ms (pos n) ≡ []
unfolding e_wire_release_excess
excess-none ms n h = ground arith

Agrees-e1_faults :
    (o : E1Obs) (got : Story)
    → Agrees o got
    → e1_faults o (e_tally o.server) (wire_exchanges o.wire) got ≡ []
unfolding e1_faults
Agrees-e1_faults o got a =
    rw
      (
        (e_unclassified_iff (wire_exchanges o.wire)).1 a.classified,
        story_faults-none got _ _ _ a.bounds a.renewals a.in_order,
        count_faults-none (e_tally o.server) o.releases_sent a.undeclined a.released a.counted,
        a.counted,
      )
      (excess-none o.wire 1 a.sent_once)

judge_story-Agrees :
    (o : E1Obs) (got : Story)
    → Agrees o got
    → (judge_story o (e_tally o.server) (wire_exchanges o.wire) (read got [])).result ≡ pass
unfolding judge_story
judge_story-Agrees o got a = rw (Agrees-e1_faults o got a) refl

judge_e1_complete : (o : E1Obs) → E1Holds o → (judge_e1 o).result ≡ pass
unfolding judge_e1
judge_e1_complete o h =
    simp (h.present, (e_aligned_iff _ _).1 h.witnessed, h.agrees.readable)
      (judge_story-Agrees o h.got h.agrees)

-- `judgeE1` passes exactly when the ledger is present, the source's log and the capture bear each
-- other out, the ledger can be read with no release in it, its bound and renew entries are as many
-- as the DISCOVER-started and the renewal exchanges and are listed as the wire's, every exchange is
-- classified, and there is no decline, one logged release, one counted, and at most one on the wire.
pub judge_e1-pass_iff : (o : E1Obs) → ((judge_e1 o).result ≡ pass) ↔ E1Holds o
judge_e1-pass_iff o = (judge_e1_sound o, judge_e1_complete o)
