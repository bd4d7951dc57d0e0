-- ===== src/Tests/GroupD.antt =====
-- internal/scenario/groupd_judge.go: one client with a DHCPv6 lease, and one with an address from a
-- router advertisement.
use docker_net_dhcp_lab.Scenario.GroupD.Slaac.Laws.{IsMac, eui64-Distinct}
use docker_net_dhcp_lab.Scenario.GroupF.Options.{collapse, collapse_onto}
use docker_net_dhcp_lab.Scenario.Judging.{keep, check_each}
use docker_net_dhcp_lab.Scenario.GroupD.Link.Laws.{lft_within-bounds}
use docker_net_dhcp_lab.Scenario.GroupD.Slaac.Formed.{FormedBy, judge_d2-pass_iff}
use docker_net_dhcp_lab.Scenario.GroupD.Link.{
  second_ns, lft_slack, lft_within, counted_down, first_outside, globals, find_addr6, leftover,
  pio_lft,
}
use docker_net_dhcp_lab.Scenario.GroupD.Temporary.Laws.{Temporary, judge_f5-pass_iff}
use docker_net_dhcp_lab.Scenario.GroupD.Lease.Persistent.{Attached, judge_d1_persistent-pass_iff}
use docker_net_dhcp_lab.Scenario.GroupD.Lease.Laws.{Leased, judge_d1-pass_iff}
use docker_net_dhcp_lab.Scenario.GroupD.Exchange6.Laws.{OneClient}
use docker_net_dhcp_lab.Scenario.GroupD.Rapid6.Laws.{RapidExchange, judge_f4_wire-pass_iff}
use docker_net_dhcp_lab.Scenario.Outcome.{passed, fail, pass}
use docker_net_dhcp_lab.Scenario.GroupD.Rapid6.{two_messages, judge_f4_wire, split_confirm}
use docker_net_dhcp_lab.Scenario.GroupD.Temporary.{
  judge_f5, with_temporary, asks_lease, with_ta, before_slash, check_granted, check_ta, f5_chain,
  f5_end, f5_tests,
}
use docker_net_dhcp_lab.Labyaml.Netip.{Addr, Prefix, ip6, addr_beq, masked, prefix_beq, holds}
use docker_net_dhcp_lab.Scenario.GroupD.Slaac.{
  judge_d2, D2Obs, eui64_of, slaac_formed, last_auto_pio, eui64, ra_before, Mac, six_bytes,
}
use docker_net_dhcp_lab.Scenario.GroupD.Exchange6.{
  exchange6, Exchange, asks_for_address6, duids_onto, last_granting, msgs_of, by_time, granting,
  client, is_client6, types, exchange_of, names_client, place,
}
use docker_net_dhcp_lab.Scenario.GroupD.Lease.{
  judge_d1, judge_d1_persistent, D1Obs, check_gateway, check_link, check_route, d1_chain, d1_tests,
  refuse_extra, refuse_silent, routers_onto, in_table, lease_at,
}
use docker_net_dhcp_lab.Scenario.GroupD.Wire6.{
  RaMsg, Ia6, Dhcp6Msg, Addr6, lease_na, lease_ta, sampled, has_addr, first_addr,
}
use docker_net_dhcp_lab.Prelude.{
  List, ℕ, Text, ◌*◌, ◌≡◌, ◌∷◌, some, true, [], Option, ◌^◌, codes, ℤ, Bool, none, ok, pos, false,
  negsuc, refl, ◌<◌, ◌↔◌, All, ◌≤◌, ◌+◌, arith, text_eq, contains, Bool-cases, ◌==◌, inl, subst,
  inr, eq_text, if◌then◌else◌,
}

abbrev v6 : ℕ → Addr
v6 n = record { family = ip6; value = n }

-- a text that tells addresses apart
abbrev shown : Addr → Text
shown a = a.value ∷ []

abbrev s1 : ℕ
s1 = 10 ^ 9

abbrev na_of : ℕ → List Ia6
na_of n = record { addr = some (v6 n); prefix = none; pref = 1800; valid = 3600 } ∷ []

abbrev dhcp6 : ℕ → Text → Bool → List Ia6 → List Ia6 → Dhcp6Msg
dhcp6 at type rapid na ta = record {
  at = at;
  type = type;
  xid = codes "x1";
  client_duid = codes "d1";
  rapid = rapid;
  na = na;
  ta = ta;
  pd = [];
}

abbrev rapid_msgs : List Dhcp6Msg
rapid_msgs =
    dhcp6 (12 * s1) (codes "CONFIRM") false [] []
    ∷ dhcp6 (10 * s1) (codes "SOLICIT") true [] []
    ∷ dhcp6 (11 * s1) (codes "REPLY") true (na_of 500) []
    ∷ dhcp6 (13 * s1) (codes "REPLY") false [] []
    ∷ []

abbrev rapid_exchange : Exchange
rapid_exchange = record {
  duid = codes "d1";
  msgs =
      dhcp6 (10 * s1) (codes "SOLICIT") true [] []
      ∷ dhcp6 (11 * s1) (codes "REPLY") true (na_of 500) []
      ∷ dhcp6 (12 * s1) (codes "CONFIRM") false [] []
      ∷ dhcp6 (13 * s1) (codes "REPLY") false [] []
      ∷ [];
  reply = dhcp6 (11 * s1) (codes "REPLY") true (na_of 500) [];
}

one_client : exchange6 rapid_msgs ≡ ok rapid_exchange
unfolding exchange6 duids_onto text_eq contains last_granting msgs_of by_time keep granting
one_client = refl

with_confirm : judge_f4_wire true true rapid_exchange ≡ passed (two_messages true)
unfolding judge_f4_wire check_each client keep is_client6 text_eq split_confirm types collapse
with_confirm = refl

old_server : (judge_f4_wire true false rapid_exchange).result ≡ fail
unfolding judge_f4_wire check_each client keep is_client6 text_eq split_confirm types collapse
    sampled exchange_of names_client place check_gateway check_link check_route d1_chain d1_tests
    refuse_extra refuse_silent routers_onto counted_down first_outside globals has_addr
    collapse_onto
old_server = refl

judge_f4_wire-pass_iff_example :
    ((judge_f4_wire true true rapid_exchange).result ≡ pass)
    ↔ RapidExchange true true rapid_exchange
judge_f4_wire-pass_iff_example = judge_f4_wire-pass_iff true true rapid_exchange

abbrev on_link : ℕ → ℕ → ℤ → ℤ → Addr6
on_link n bits valid pref = record {
  addr = v6 n;
  bits = bits;
  scope = codes "global";
  valid = valid;
  pref = pref;
}

abbrev router : RaMsg
router = record { at = 5 * s1; src = v6 9; managed = true; router_lifetime = 1800; pios = [] }

abbrev lease_obs : D1Obs
lease_obs = record {
  msgs = rapid_msgs;
  ras = router ∷ [];
  leases = record { type = lease_na; address = v6 500; duid = codes "d1" } ∷ [];
  start = record { at = 12 * s1; got = none; addrs = on_link 500 128 (negsuc 0) (negsuc 0) ∷ [] };
  settled = record {
    at = 31 * s1;
    got = some (32 * s1);
    addrs = on_link 500 128 (pos 3580) (pos 1780) ∷ [];
  };
  inspect = shown (v6 500);
  route = some (v6 9);
  ping_error = none;
  extra_ta = none;
}

lease_passes : (judge_d1 shown lease_obs).result ≡ pass
unfolding judge_d1 exchange6 duids_onto text_eq contains last_granting msgs_of by_time keep granting
    first_addr in_table addr_beq find_addr6 leftover lft_within sampled exchange_of is_client6
    names_client place types check_gateway check_link check_route d1_chain d1_tests refuse_extra
    refuse_silent routers_onto counted_down first_outside globals has_addr collapse collapse_onto
lease_passes = refl

lease_unanswered : (judge_d1 shown (record lease_obs { ping_error = some [] })).result ≡ fail
unfolding judge_d1 exchange6 duids_onto text_eq contains last_granting msgs_of by_time keep granting
    first_addr in_table addr_beq find_addr6 leftover lft_within sampled exchange_of is_client6
    names_client place types check_gateway check_link check_route d1_chain d1_tests refuse_extra
    refuse_silent routers_onto counted_down first_outside globals has_addr collapse collapse_onto
lease_unanswered = refl

judge_d1-pass_iff_example :
    ((judge_d1 shown lease_obs).result ≡ pass) ↔ ((x : Exchange) × Leased shown lease_obs x)
judge_d1-pass_iff_example = judge_d1-pass_iff shown lease_obs

persistent_passes : (judge_d1_persistent shown lease_obs).result ≡ pass
unfolding judge_d1_persistent exchange6 duids_onto text_eq contains last_granting msgs_of by_time
    keep granting client lease_at sampled d1_chain first_addr in_table addr_beq find_addr6 leftover
    lft_within routers_onto
persistent_passes = refl

judge_d1_persistent-pass_iff_example :
    ((judge_d1_persistent shown lease_obs).result ≡ pass)
    ↔ ((x : Exchange) × Leased shown lease_obs x × Attached (sampled lease_obs.settled) x)
judge_d1_persistent-pass_iff_example = judge_d1_persistent-pass_iff shown lease_obs

abbrev ta_msgs : List Dhcp6Msg
ta_msgs =
    dhcp6 (10 * s1) (codes "SOLICIT") false [] (na_of 0)
    ∷ dhcp6 (11 * s1) (codes "REPLY") false (na_of 500) (na_of 600)
    ∷ []

abbrev ta_obs : D1Obs
ta_obs = record {
  msgs = ta_msgs;
  ras = router ∷ [];
  leases =
      record { type = lease_na; address = v6 500; duid = codes "d1" }
      ∷ record { type = lease_ta; address = v6 600; duid = codes "d1" }
      ∷ [];
  start = record { at = 12 * s1; got = none; addrs = on_link 500 128 (negsuc 0) (negsuc 0) ∷ [] };
  settled = record {
    at = 32 * s1;
    got = none;
    addrs = on_link 500 128 (pos 3580) (pos 1780) ∷ on_link 600 128 (pos 3580) (pos 1780) ∷ [];
  };
  inspect = shown (v6 500);
  route = some (v6 9);
  ping_error = none;
  extra_ta = none;
}

temporary_passes :
    judge_f5 shown ta_obs true true true (600 ∷ codes "/128") ≡ passed (with_temporary (v6 600))
unfolding judge_f5 exchange6 duids_onto text_eq contains last_granting msgs_of by_time keep granting
    check_each client asks_lease first_addr d1_chain with_ta in_table addr_beq exchange_of
    is_client6 names_client place types check_gateway check_link check_route d1_tests refuse_extra
    refuse_silent routers_onto counted_down find_addr6 first_outside globals leftover lft_within
    before_slash check_granted check_ta f5_chain f5_end f5_tests has_addr sampled collapse
    collapse_onto
temporary_passes = refl

temporary_hidden : (judge_f5 shown ta_obs true true false (600 ∷ codes "/128")).result ≡ fail
unfolding judge_f5 exchange6 duids_onto text_eq contains last_granting msgs_of by_time keep granting
    check_each client asks_lease first_addr d1_chain with_ta in_table addr_beq exchange_of
    is_client6 names_client place types check_gateway check_link check_route d1_tests refuse_extra
    refuse_silent routers_onto counted_down find_addr6 first_outside globals leftover lft_within
    before_slash check_granted check_ta f5_chain f5_end f5_tests has_addr sampled collapse
    collapse_onto
temporary_hidden = refl

judge_f5-pass_iff_example :
    ((judge_f5 shown ta_obs true true true (600 ∷ codes "/128")).result ≡ pass) ↔ (
      (x : Exchange) × OneClient ta_msgs x
      × Temporary shown ta_obs true true true (600 ∷ codes "/128") x)
judge_f5-pass_iff_example = judge_f5-pass_iff shown ta_obs true true true (600 ∷ codes "/128")

within_slack : lft_within (pos 3580) 3600 (11 * s1) (32 * s1) ≡ true
unfolding lft_within counted_down
within_slack = refl

-- 3600 stated at 11 s and 3580 read at 32 s
lft_within-bounds_example :
    (n : ℕ) × (◌≡◌ {A = ℤ} (pos 3580) (pos n))
    × (0 < n)
    × (n ≤ 3600)
    × (11 * s1 + 3600 * second_ns ≤ 32 * s1 + (n + lft_slack) * second_ns)
lft_within-bounds_example =
    lft_within-bounds (pos 3580) 3600 (11 * s1) (32 * s1) within_slack (omega arith)

abbrev parse_six : Text → Option Text
parse_six t = some t

abbrev hardware : Text
hardware = 2 ∷ 66 ∷ 172 ∷ 17 ∷ 0 ∷ 2 ∷ []

abbrev slash_64 : Prefix
slash_64 = record { addr = v6 (7 * 2 ^ 64); bits = 64 }

abbrev own_address : Addr
own_address = eui64_of slash_64 (record { b0 = 2; b1 = 66; b2 = 172; b3 = 17; b4 = 0; b5 = 2 })

abbrev slaac_obs : D2Obs
slaac_obs = record {
  msgs = [];
  ras =
      record {
        at = 5 * s1;
        src = v6 9;
        managed = false;
        router_lifetime = 1800;
        pios = record { prefix = slash_64; auto = true; valid = 3600; pref = 1800 } ∷ [];
      }
      ∷ [];
  leases = record { type = lease_na; address = v6 500; duid = codes "d1" } ∷ [];
  mac = hardware;
  start = record {
    at = 12 * s1;
    got = none;
    addrs =
        record {
          addr = own_address;
          bits = 64;
          scope = codes "global";
          valid = pos 3600;
          pref = pos 1800;
        }
        ∷ [];
  };
  settled = record {
    at = 32 * s1;
    got = none;
    addrs =
        record {
          addr = own_address;
          bits = 64;
          scope = codes "global";
          valid = pos 3575;
          pref = pos 1775;
        }
        ∷ [];
  };
  inspect = shown own_address;
}

slaac_passes : (judge_d2 shown parse_six slaac_obs).result ≡ pass
unfolding judge_d2 check_each slaac_formed last_auto_pio eui64 find_addr6 addr_beq masked ra_before
    prefix_beq leftover keep text_eq contains pio_lft sampled
slaac_passes = refl

slaac_solicits : (judge_d2 shown parse_six (record slaac_obs { msgs = ta_msgs })).result ≡ fail
unfolding judge_d2 check_each asks_for_address6 text_eq
slaac_solicits = refl

judge_d2-pass_iff_example : ((judge_d2 shown parse_six slaac_obs).result ≡ pass) ↔ (
    All {A = Dhcp6Msg} (λ m. asks_for_address6 m.type ≡ false) []
    × FormedBy shown parse_six slaac_obs)
judge_d2-pass_iff_example = judge_d2-pass_iff shown parse_six slaac_obs

abbrev hardware_name : Text
hardware_name = codes "02:42:ac:11:00:02"

-- a parser that knows one address
abbrev parse_known : Text → Option Text
parse_known t = if t == hardware_name then some hardware else none

abbrev known_mac : Mac
known_mac = record { b0 = 2; b1 = 66; b2 = 172; b3 = 17; b4 = 0; b5 = 2 }

known_IsMac : IsMac known_mac
known_IsMac = record {
  w0 = omega arith;
  w1 = omega arith;
  w2 = omega arith;
  w3 = omega arith;
  w4 = omega arith;
  w5 = omega arith;
}

parsed_IsMac : (t : Text) (m : Mac) → six_bytes (parse_known t) ≡ some m → IsMac m
parsed_IsMac t m h = elim (Bool-cases (t == hardware_name)) [
  | inl known ↦ let same : known_mac ≡ m = ground (arith, h, known) in subst IsMac same known_IsMac
  | inr other ↦ absurd (ground (arith, h, other))
]

formed_known : eui64 parse_known slash_64 hardware_name ≡ ok own_address
unfolding eui64 text_eq
formed_known = refl

eui64-Distinct_example :
    (holds slash_64 own_address ≡ true)
    × (eui64 parse_known slash_64 (codes "02:42:ac:11:00:03") ≡ ok own_address
        → six_bytes (parse_known (codes "02:42:ac:11:00:03"))
          ≡ six_bytes (parse_known hardware_name))
eui64-Distinct_example =
    eui64-Distinct parse_known slash_64 hardware_name (codes "02:42:ac:11:00:03") own_address
      parsed_IsMac formed_known
