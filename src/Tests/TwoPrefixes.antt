-- ===== src/Tests/TwoPrefixes.antt =====
-- internal/scenario/groupd2_judge.go: two autonomous prefixes on one link, and a router that lists
-- them in another order.
use docker_net_dhcp_lab.Scenario.GroupD.Link.{find_addr6, leftover, first_outside, globals}
use docker_net_dhcp_lab.Scenario.Judging.{check_each, keep}
use docker_net_dhcp_lab.Scenario.GroupD.Exchange6.{asks_for_address6, is_client6}
use docker_net_dhcp_lab.Scenario.Outcome.{pass, blocked}
use docker_net_dhcp_lab.Scenario.GroupD.Slaac.{eui64_of, eui64, flip_local, interface_id}
use docker_net_dhcp_lab.Scenario.GroupD.Wire6.{RaMsg, Read}
use docker_net_dhcp_lab.Labyaml.Netip.{Addr, Prefix, ip6, prefix_beq, addr_beq, masked, span}
use docker_net_dhcp_lab.Scenario.GroupD.TwoPrefixes.{
  D4Obs, judge_d4, auto_prefixes, advertised_before, has_auto_pio, form_each, d4_inspect, d4_first,
  last_of, anchor_of, auto_of, auto_onto, d4_chain, first_auto, first_of_pios, refuse_asking,
  refuse_order,
}
use docker_net_dhcp_lab.Prelude.{
  Text, List, ℕ, Option, ◌∷◌, ◌≡◌, none, [], some, refl, map, false, ◌*◌, ◌↔◌, codes, All, true,
  ◌^◌, pos, ◌≤◌, length, contains, text_eq, eq_text,
}
use docker_net_dhcp_lab.Scenario.GroupD.TwoPrefixes.Laws.{Inspected, EachFormed, judge_d4-pass_iff}
use docker_net_dhcp_lab.Scenario.GroupD.Link.Laws.{OnlyAllowed}

abbrev pub own_mac : Text
own_mac = 2 ∷ 66 ∷ 172 ∷ 17 ∷ 0 ∷ 2 ∷ []

abbrev pub six_codes : Text → Option Text
six_codes t = some t

abbrev pub value_text : Addr → Text
value_text a = a.value ∷ []

abbrev pub net_64 : ℕ → Prefix
net_64 n = record { addr = record { family = ip6; value = n * 2 ^ 64 }; bits = 64 }

abbrev pub formed_in : ℕ → Addr
formed_in n = eui64_of (net_64 n) (record { b0 = 2; b1 = 66; b2 = 172; b3 = 17; b4 = 0; b5 = 2 })

abbrev pub lists : ℕ → List ℕ → RaMsg
lists at ns = record {
  at = at;
  src = record { family = ip6; value = 9 };
  managed = false;
  router_lifetime = 1800;
  pios = map (λ n. record { prefix = net_64 n; auto = true; valid = 3600; pref = 1800 }) ns;
}

abbrev pub read_at : ℕ → List ℕ → Read
read_at at ns = record {
  at = at;
  got = none;
  addrs =
      map
        (λ n. record {
          addr = formed_in n;
          bits = 64;
          scope = codes "global";
          valid = pos 3600;
          pref = pos 1800;
        })
        ns;
}

abbrev two_nets : List RaMsg → Option Prefix → ℕ → D4Obs
two_nets ras main shown = record {
  base = record {
    msgs = [];
    ras = ras;
    leases = [];
    mac = own_mac;
    start = read_at 10 (3 ∷ 4 ∷ []);
    settled = read_at 30 (4 ∷ 3 ∷ []);
    inspect = value_text (formed_in shown);
  };
  main = main;
}

abbrev steady : D4Obs
steady = two_nets (lists 5 (3 ∷ 4 ∷ []) ∷ lists 20 (4 ∷ 3 ∷ []) ∷ []) none 3

steady_passes : (judge_d4 value_text six_codes steady).result ≡ pass
unfolding judge_d4 check_each auto_prefixes advertised_before keep has_auto_pio contains prefix_beq
    addr_beq form_each eui64 find_addr6 masked leftover text_eq d4_inspect d4_first last_of span
    asks_for_address6 is_client6 first_outside globals eui64_of flip_local interface_id anchor_of
    auto_of auto_onto d4_chain first_auto first_of_pios refuse_asking refuse_order
steady_passes = refl

-- an advertisement before the start read lists the other prefix first
turned_round :
    (judge_d4 value_text six_codes
      (two_nets (lists 5 (3 ∷ 4 ∷ []) ∷ lists 8 (4 ∷ 3 ∷ []) ∷ []) none 3)).result
    ≡ blocked
unfolding judge_d4 check_each auto_prefixes advertised_before keep has_auto_pio contains prefix_beq
    addr_beq form_each eui64 find_addr6 masked leftover text_eq d4_inspect d4_first last_of span
    asks_for_address6 is_client6 first_outside globals eui64_of flip_local interface_id anchor_of
    auto_of auto_onto d4_chain first_auto first_of_pios refuse_asking refuse_order
turned_round = refl

main_named :
    (judge_d4 value_text six_codes
      (two_nets (lists 5 (3 ∷ 4 ∷ []) ∷ []) (some (net_64 4)) 4)).result
    ≡ pass
unfolding judge_d4 check_each auto_prefixes advertised_before keep has_auto_pio contains prefix_beq
    addr_beq form_each eui64 find_addr6 masked leftover text_eq d4_inspect
main_named = refl

one_prefix :
    (judge_d4 value_text six_codes (two_nets (lists 5 (3 ∷ []) ∷ []) none 3)).result ≡ blocked
unfolding judge_d4 check_each auto_prefixes advertised_before keep has_auto_pio contains
one_prefix = refl

judge_d4-pass_iff_example : ((judge_d4 value_text six_codes steady).result ≡ pass) ↔ (
    All (λ m. asks_for_address6 m.type ≡ false) steady.base.msgs
    × (2 ≤ length (auto_prefixes (advertised_before steady.base)))
    × ((want : List Addr) × EachFormed six_codes steady.base
          (auto_prefixes (advertised_before steady.base))
          want
        × OnlyAllowed want steady.base.settled.addrs)
    × Inspected value_text six_codes steady.base steady.main)
judge_d4-pass_iff_example = judge_d4-pass_iff value_text six_codes steady
