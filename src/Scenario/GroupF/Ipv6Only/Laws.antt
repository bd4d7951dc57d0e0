-- ===== src/Scenario/GroupF/Ipv6Only/Laws.antt =====
-- `judgeF2aWire`, `judgeF2bWire` and its control against RFC 8925.
use docker_net_dhcp_lab.Scenario.GroupF.Options.Laws.{none_of-any}
use docker_net_dhcp_lab.Scenario.Outcome.{pass}
use docker_net_dhcp_lab.Scenario.Judging.{
  keep, refuse_if-ok_iff, close-pass_iff, check_each-keep_iff_of, check_each-all_iff,
}
use docker_net_dhcp_lab.Scenario.GroupF.Options.{
  client_msgs, OptMsg, is_client, find_first, bytes_of, option_of,
}
use docker_net_dhcp_lab.Prelude.{
  List, Bool, All, ℕ, ◌≡◌, inl, inr, true, false, not, ◌&&◌, [], ◌∷◌, arith, nat_eq, Bool-cases,
  any, eq_text, ok, Result-cases, ◌+◌, refl, contains, Text, map, some, ◌↔◌, Option-cases,
  text_eq_iff, codes,
}
use docker_net_dhcp_lab.Scenario.GroupF.Ipv6Only.{
  count_prl, has, refuse_asking, asks_108_in, judge_f2b_wire, never_asks, in_scope, judge_f2a_wire,
  f2b_chain, f2a_chain, offers_108, f2b_after, requests_in, acks_in, is_ack, none_asked, ignored,
}

abbrev pub has_list : OptMsg → Bool
has_list m = is_client m && has m 55

-- no client message with a request list asks for option 108
abbrev pub NeverAsks : List OptMsg → Type 0
NeverAsks msgs = All (λ m. is_client m ≡ true → (has m 55 && asks_108_in m) ≡ false) msgs

count_prl-ok :
    (msgs : List OptMsg) (n : ℕ)
    → count_prl (client_msgs msgs) ≡ ok n
    → NeverAsks msgs × (nat_eq n 0 ≡ not (any has_list msgs))
unfolding count_prl refuse_asking client_msgs keep
count_prl-ok [] n h = (tt, ground (arith, h))
count_prl-ok (m ∷ msgs) n h = elim (Bool-cases (is_client m)) [
  | inr other ↦ ground (arith, h, other, count_prl-ok msgs n)
  | inl mine ↦ elim (Result-cases (count_prl (client_msgs msgs))) [
    | inl (e, stops) ↦ ground (arith, h, mine, stops)
    | inr (k, counts) ↦ ground (arith, h, mine, counts, count_prl-ok msgs k)
  ]
]

count_prl_ok_of :
    (msgs : List OptMsg) → NeverAsks msgs → (n : ℕ) × (count_prl (client_msgs msgs) ≡ ok n)
unfolding count_prl refuse_asking client_msgs keep
count_prl_ok_of [] _ = (0, refl)
count_prl_ok_of (m ∷ msgs) (g, gs) =
    let (k, e) = count_prl_ok_of msgs gs in
    elim (Bool-cases (is_client m)) [
      | inr other ↦ (k, ground (arith, e, other))
      | inl mine ↦ elim (Bool-cases (has m 55)) [
        | inl listed ↦ (k + 1, ground (arith, e, mine, listed, g))
        | inr bare ↦ (k, ground (arith, e, mine, bare))
      ]
    ]

-- `judgeF2aWire` passes exactly when some client message carries a request list, none of these asks
-- for option 108, and the capture has an ACK.
pub judge_f2a_wire-pass_iff :
    (msgs : List OptMsg)
    → ((judge_f2a_wire msgs).0.result ≡ pass)
      ↔ (NeverAsks msgs × (any has_list msgs ≡ true) × (any is_ack msgs ≡ true))
unfolding judge_f2a_wire f2a_chain
judge_f2a_wire-pass_iff msgs = (there, back)
  where
    there :
        (judge_f2a_wire msgs).0.result ≡ pass
        → NeverAsks msgs × (any has_list msgs ≡ true) × (any is_ack msgs ≡ true)
    there h =
        let (r, e) = (close-pass_iff (f2a_chain msgs)).0 h in
        elim (Result-cases (count_prl (client_msgs msgs))) [
          | inl (x, stops) ↦ absurd (ground (arith, e, stops))
          | inr (n, counts) ↦
              let (never, listed) = count_prl-ok msgs n counts in
              (
                never,
                ground (arith, e, counts, listed),
                ground (arith, e, counts, none_of-any msgs (codes "ACK")),
              )
        ]

    back :
        NeverAsks msgs × (any has_list msgs ≡ true) × (any is_ack msgs ≡ true)
        → (judge_f2a_wire msgs).0.result ≡ pass
    back (never, listed, acked) =
        let (n, counts) = count_prl_ok_of msgs never in
        (close-pass_iff (f2a_chain msgs)).1 (
          none_asked n,
          ground (
            arith,
            counts,
            (count_prl-ok msgs n counts).1,
            listed,
            acked,
            none_of-any msgs (codes "ACK"),
          ),
        )

never_asks-ok_iff : (m : OptMsg) → (never_asks m ≡ ok tt) ↔ ((has m 55 && asks_108_in m) ≡ false)
unfolding never_asks
never_asks-ok_iff m = refuse_if-ok_iff (has m 55 && asks_108_in m) _

-- option 108 went to the xids of the capture only
abbrev pub InScope : List OptMsg → List OptMsg → Type 0
InScope msgs all_msgs =
    All (λ m. has m 108 ≡ true → contains (map (λ o. o.xid) msgs) m.xid ≡ true) all_msgs

in_scope-ok_iff :
    (xids : List Text) (m : OptMsg)
    → (in_scope xids m ≡ ok tt) ↔ (has m 108 ≡ true → contains xids m.xid ≡ true)
unfolding in_scope
in_scope-ok_iff xids m = ground arith

-- the offer with the forced option 108, and the exchange that the client finished
pub record Ignores (msgs all_msgs : List OptMsg) (want : Text) : Type 0 where
  pub offered : OptMsg
  pub never : NeverAsks msgs
  pub scoped : InScope msgs all_msgs
  pub forced : find_first offers_108 msgs ≡ some offered
  pub value : bytes_of (option_of 108 offered) ≡ want
  pub requested : any (requests_in offered.xid) msgs ≡ true
  pub acked : any (acks_in offered.xid) msgs ≡ true

-- `judgeF2bWire` passes exactly when the client never asks for option 108, only its xids got the
-- option, the first OFFER with it has the value that the lab set, and the client finished that
-- offer's exchange with a REQUEST and an ACK.
pub judge_f2b_wire-pass_iff :
    (msgs all_msgs : List OptMsg) (want : Text)
    → ((judge_f2b_wire msgs all_msgs want).result ≡ pass) ↔ Ignores msgs all_msgs want
unfolding judge_f2b_wire f2b_chain f2b_after client_msgs
judge_f2b_wire-pass_iff msgs all_msgs want =
    let asks = check_each-keep_iff_of never_asks is_client msgs never_asks-ok_iff in
    let xids = map (λ o. o.xid) msgs in
    let scope = check_each-all_iff (in_scope xids) all_msgs (in_scope-ok_iff xids) in
    (
      (λ h.
          let (r, e) = (close-pass_iff (f2b_chain msgs all_msgs want)).0 h in
          elim (Option-cases (find_first offers_108 msgs)) [
            | inl unforced ↦ absurd (ground (arith, e, unforced))
            | inr (o, found) ↦ record {
              offered = o;
              never = asks.0 (ground (arith, e));
              scoped = scope.0 (ground (arith, e));
              forced = found;
              value = ground (arith, e, found, text_eq_iff (bytes_of (option_of 108 o)) want);
              requested = ground (arith, e, found);
              acked = ground (arith, e, found);
            }
          ]),
      λ g. (close-pass_iff (f2b_chain msgs all_msgs want)).1 (
        ignored g.offered.xid want,
        ground (
          arith,
          asks.1 g.never,
          scope.1 g.scoped,
          g.forced,
          g.value,
          text_eq_iff (bytes_of (option_of 108 g.offered)) want,
          g.requested,
          g.acked,
        ),
      ),
    )
