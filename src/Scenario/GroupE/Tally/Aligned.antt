-- ===== src/Scenario/GroupE/Tally/Aligned.antt =====
-- internal/scenario/groupe_judge.go: `eAligned` lets a judge go on only where the two witnesses
-- agree, and otherwise stops it as BLOCKED.
use docker_net_dhcp_lab.Prelude.{
  ◌<◌, ◌≡◌, refl, ap₂, ◌≢◌, ◌↔◌, true, Option, none, some, List, [], ◌∷◌, map, arith, and-eq-true,
  ◌==◌, text_eq_iff, Text, eq_text,
}
use docker_net_dhcp_lab.Scenario.Wire.{ServerEvent}
use docker_net_dhcp_lab.Scenario.Outcome.{Outcome, blocked}
use docker_net_dhcp_lab.Scenario.GroupE.Exchange.{renew, other, WireExchange}
use docker_net_dhcp_lab.Scenario.GroupE.Windows.{
  Group, server_groups, exchange_groups, align_groups,
}
use docker_net_dhcp_lab.Scenario.GroupE.Reasons.{Reason}
use docker_net_dhcp_lab.Scenario.GroupE.Tally.{
  e_count, e_unclassified, first_unseen, align_block, seen_block, e_aligned,
}

-- What both judges rely on before they read a number of the plugin's: there is an ACK on both
-- sides, every ACK's request was captured, the ACK groups are of the same addresses in the same
-- order, and a renewal was seen.
pub record Witnessed (acks : List ServerEvent) (ex : List WireExchange) : Type 0 where
  pub logged : acks ≢ []
  pub captured : ex ≢ []
  pub observed : first_unseen ex ≡ none
  pub same_order : map (λ g. g.ip) (server_groups acks) ≡ map (λ g. g.ip) (exchange_groups ex)
  pub renewed : 0 < e_count ex renew

align_groups_sound :
    (gs hs : List Group) → align_groups gs hs ≡ true → map (λ g. g.ip) gs ≡ map (λ g. g.ip) hs
unfolding align_groups
align_groups_sound [] [] h = refl
align_groups_sound [] (g ∷ gs) h = cc
align_groups_sound (g ∷ gs) [] h = cc
align_groups_sound (g ∷ gs) (x ∷ hs) h =
    let (p, q) = and-eq-true (g.ip == x.ip) (align_groups gs hs) h in
    ap₂ {C = List Text} ◌∷◌ ((text_eq_iff g.ip x.ip).0 p) (align_groups_sound gs hs q)

align_groups_complete :
    (gs hs : List Group) → map (λ g. g.ip) gs ≡ map (λ g. g.ip) hs → align_groups gs hs ≡ true
unfolding align_groups
align_groups_complete [] [] h = refl
align_groups_complete [] (g ∷ gs) h = cc
align_groups_complete (g ∷ gs) [] h = cc
align_groups_complete (g ∷ gs) (x ∷ hs) h =
    rw ((text_eq_iff g.ip x.ip).1 (cc), align_groups_complete gs hs (cc)) refl

align_block-none :
    (sg wg : List Group) (ex : List WireExchange)
    → align_block sg wg ex ≡ none
    → (align_groups sg wg ≡ true) × (0 < e_count ex renew)
unfolding align_block
align_block-none sg wg ex h = ground arith

seen_block-none :
    (o : Option Text) (acks : List ServerEvent) (ex : List WireExchange)
    → seen_block o acks ex ≡ none
    → (o ≡ none) × (align_block (server_groups acks) (exchange_groups ex) ex ≡ none)
unfolding seen_block
seen_block-none none acks ex h = (refl, h)
seen_block-none (some x) acks ex h = cc

e_aligned-Witnessed :
    (acks : List ServerEvent) (ex : List WireExchange)
    → e_aligned acks ex ≡ none
    → Witnessed acks ex
unfolding e_aligned
e_aligned-Witnessed [] ex h = cc
e_aligned-Witnessed (a ∷ acks) [] h = cc
e_aligned-Witnessed (a ∷ acks) (x ∷ ex) h =
    let (seen, rest) = seen_block-none (first_unseen (x ∷ ex)) (a ∷ acks) (x ∷ ex) h in
    let (same, more) = align_block-none _ _ (x ∷ ex) rest in
    record {
      logged = λ e. cc;
      captured = λ e. cc;
      observed = seen;
      same_order = align_groups_sound _ _ same;
      renewed = more;
    }

Witnessed-e_aligned :
    (acks : List ServerEvent) (ex : List WireExchange)
    → Witnessed acks ex
    → e_aligned acks ex ≡ none
unfolding e_aligned
Witnessed-e_aligned [] ex w = absurd (w.logged refl)
Witnessed-e_aligned (a ∷ acks) [] w = absurd (w.captured refl)
Witnessed-e_aligned (a ∷ acks) (x ∷ ex) w = rw w.observed (
    ground (
      arith,
      w.renewed,
      align_groups_complete (server_groups (a ∷ acks)) (exchange_groups (x ∷ ex)) w.same_order,
    ))

-- The witnesses' disagreement is never a PASS or a FAIL of the plugin.
pub e_aligned-blocked :
    (acks : List ServerEvent) (ex : List WireExchange) (b : Outcome Reason)
    → e_aligned acks ex ≡ some b
    → b.result ≡ blocked
unfolding e_aligned
e_aligned-blocked [] ex b h = ground arith
e_aligned-blocked (a ∷ acks) [] b h = ground arith
e_aligned-blocked (a ∷ acks) (x ∷ ex) b h = seen (first_unseen (x ∷ ex)) h
  where
    seen : (o : Option Text) → seen_block o (a ∷ acks) (x ∷ ex) ≡ some b → b.result ≡ blocked
    seen (some t) e = ground arith
    seen none e = ground arith

-- `eAligned` stops a judge exactly where the witnesses do not bear each other out.
pub e_aligned_iff :
    (acks : List ServerEvent) (ex : List WireExchange)
    → (e_aligned acks ex ≡ none) ↔ Witnessed acks ex
e_aligned_iff acks ex = (e_aligned-Witnessed acks ex, Witnessed-e_aligned acks ex)

unclassified-none : (ex : List WireExchange) → e_unclassified ex ≡ [] → e_count ex other ≡ 0
unfolding e_unclassified e_count
unclassified-none [] h = refl
unclassified-none (x ∷ ex) h = ground (arith, unclassified-none ex)

none-unclassified : (ex : List WireExchange) → e_count ex other ≡ 0 → e_unclassified ex ≡ []
unfolding e_unclassified e_count
none-unclassified [] h = refl
none-unclassified (x ∷ ex) h = ground (arith, none-unclassified ex)

pub e_unclassified_iff :
    (ex : List WireExchange) → (e_unclassified ex ≡ []) ↔ (e_count ex other ≡ 0)
e_unclassified_iff ex = (unclassified-none ex, none-unclassified ex)
