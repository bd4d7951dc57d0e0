-- ===== src/Scenario/GroupD/TwoPrefixes.antt =====
-- internal/scenario/groupd2_judge.go: `judgeD4`, two autonomous prefixes on one link, with
-- `autoPrefixes`, `hasAutoPIO`, `firstAuto` and `d4First`. `net.ParseMAC` and the text of an address
-- are parameters.
pub mod Laws
use docker_net_dhcp_lab.Scenario.GroupD.Link.{leftover, find_addr6}
use docker_net_dhcp_lab.Scenario.GroupF.Options.{is_some}
use docker_net_dhcp_lab.Scenario.GroupD.Exchange6.{asks_for_address6}
use docker_net_dhcp_lab.Scenario.Outcome.{Outcome}
use docker_net_dhcp_lab.Scenario.Judging.{
  keep, Test, Judged, Halt, check_each, fails, close, blocks,
}
use docker_net_dhcp_lab.Scenario.GroupD.Wire6.{Dhcp6Msg, Pio, RaMsg}
use docker_net_dhcp_lab.Labyaml.Netip.{Addr, Prefix, eq_prefix}
use docker_net_dhcp_lab.Scenario.GroupD.Slaac.{Reason as FormReason, eui64, D2Obs}
use docker_net_dhcp_lab.Prelude.{
  Bool, true, false, Option, none, some, List, ℕ, Text, [], ◌∷◌, ok, err, ◌>>◌, ◌>>=◌, need,
  refuse_if, ◌==◌, not, codes, length, ◌++◌, if◌then◌else◌, Result, ltb, contains, any, ◌&&◌,
  eq_text,
}

pub data Reason : Type 0 where
  sent : Text → Reason
  too_few : List Prefix → Reason
  not_formed : FormReason → Reason
  no_address : Addr → Prefix → Reason
  also_carries : Addr → List Addr → Reason
  main_absent : Prefix → List Prefix → Reason
  main_differs : Text → Prefix → Reason
  order_unknown : Option Prefix → Option Prefix → ℕ → ℕ → Reason
  index_out_of_range : Reason
  first_differs : Text → Option Prefix → Reason
  main_shown : List Addr → List Prefix → Prefix → Reason
  first_shown : List Addr → List Prefix → Option Prefix → Reason

-- `d4Obs`; a `Main` that is not set is absent
pub record D4Obs : Type 0 where
  pub base : D2Obs
  pub main : Option Prefix

-- the inner loop of `autoPrefixes`, on what it has appended
unfoldable pub auto_of : List Prefix → List Pio → List Prefix
auto_of out [] = out
auto_of out (p ∷ ps) =
    auto_of (if p.auto && not (contains out p.prefix) then out ++ p.prefix ∷ [] else out) ps

unfoldable pub auto_onto : List Prefix → List RaMsg → List Prefix
unfolding auto_of
auto_onto out [] = out
auto_onto out (ra ∷ ras) = auto_onto (auto_of out ra.pios) ras

-- `autoPrefixes`
unfoldable pub auto_prefixes : List RaMsg → List Prefix
unfolding auto_onto
auto_prefixes ras = auto_onto [] ras

-- `hasAutoPIO`
unfoldable pub has_auto_pio : RaMsg → Bool
has_auto_pio ra = any (λ p. p.auto) ra.pios

unfoldable pub first_of_pios : List Pio → Option Prefix
first_of_pios [] = none
first_of_pios (p ∷ ps) = if p.auto then some p.prefix else first_of_pios ps

-- `firstAuto`
unfoldable pub first_auto : RaMsg → Option Prefix
unfolding first_of_pios
first_auto ra = first_of_pios ra.pios

-- `f != last`, negated; an absent prefix is Go's zero prefix
abbrev pub same_first : Option Prefix → Option Prefix → Bool
same_first none none = true
same_first (some p) (some q) = p == q
same_first _ _ = false

unfoldable pub last_of : List RaMsg → Option RaMsg
last_of [] = none
last_of (ra ∷ []) = some ra
last_of (ra ∷ next ∷ ras) = last_of (next ∷ ras)

abbrev pub or_all : List RaMsg → List RaMsg → List RaMsg
or_all before [] = before
or_all before (ra ∷ ras) = ra ∷ ras

-- `anchor`: the advertisements no later than the start read, or all where there are none
unfoldable pub anchor_of : List RaMsg → ℕ → List RaMsg
anchor_of before start = or_all before (keep (λ ra. not (ltb start ra.at)) before)

unfoldable pub refuse_order : RaMsg → RaMsg → Test Reason
refuse_order last ra =
    refuse_if (not (same_first (first_auto ra) (first_auto last)))
      (blocks (order_unknown (first_auto ra) (first_auto last) ra.at last.at))

-- `d4First`
unfoldable pub d4_first : List RaMsg → ℕ → Result (Halt Reason) (Option Prefix)
unfolding refuse_order
d4_first before start =
    let anchor = anchor_of before start in
    need (last_of anchor) (blocks index_out_of_range) >>= λ last.
    check_each (refuse_order last) anchor >> ok (first_auto last)

-- the text of an address, of Go's zero address where `eui64` fails
abbrev pub text_or_invalid : (Addr → Text) → Result FormReason Addr → Text
text_or_invalid show (err e) = codes "invalid IP"
text_or_invalid show (ok a) = show a

abbrev pub formed_text : (Addr → Text) → (Text → Option Text) → Text → Option Prefix → Text
formed_text show parse_mac mac none = codes "invalid IP"
formed_text show parse_mac mac (some p) = text_or_invalid show (eui64 parse_mac p mac)

-- an error of `eui64` blocks
abbrev pub or_not_formed : Result FormReason Addr → Result (Halt Reason) Addr
or_not_formed (err e) = err (blocks (not_formed e))
or_not_formed (ok a) = ok a

-- the loop over the prefixes, which yields `want`
unfoldable pub form_each :
    (Text → Option Text) → D2Obs → List Prefix → Result (Halt Reason) (List Addr)
form_each parse_mac o [] = ok []
form_each parse_mac o (p ∷ ps) = or_not_formed (eui64 parse_mac p o.mac) >>= λ a.
    refuse_if (not (is_some (find_addr6 o.settled.addrs a))) (fails (no_address a p))
    >> (form_each parse_mac o ps >>= λ want. ok (a ∷ want))

abbrev pub refuse_extra : List Addr → Option Addr → Test Reason
refuse_extra want none = ok tt
refuse_extra want (some extra) = err (fails (also_carries extra want))

-- `before`
unfoldable pub advertised_before : D2Obs → List RaMsg
advertised_before o = keep (λ ra. not (ltb o.settled.at ra.at) && has_auto_pio ra) o.ras

unfoldable pub d4_inspect :
    (Addr → Text) → (Text → Option Text) → D2Obs → List Addr → Option Prefix → Judged Reason
d4_inspect show parse_mac o want none = d4_first (advertised_before o) o.start.at >>= λ p.
    refuse_if (not (o.inspect == formed_text show parse_mac o.mac p))
      (fails (first_differs o.inspect p))
    >> ok (first_shown want (auto_prefixes (advertised_before o)) p)
d4_inspect show parse_mac o want (some main) =
    refuse_if (not (contains (auto_prefixes (advertised_before o)) main))
      (blocks (main_absent main (auto_prefixes (advertised_before o))))
    >> (refuse_if (not (o.inspect == formed_text show parse_mac o.mac (some main)))
          (fails (main_differs o.inspect main))
        >> ok (main_shown want (auto_prefixes (advertised_before o)) main))

unfoldable pub refuse_asking : Dhcp6Msg → Test Reason
refuse_asking m = refuse_if (asks_for_address6 m.type) (fails (sent m.type))

unfoldable pub d4_chain : (Addr → Text) → (Text → Option Text) → D4Obs → Judged Reason
unfolding refuse_asking
d4_chain show parse_mac o =
    let ps = auto_prefixes (advertised_before o.base) in
    check_each refuse_asking o.base.msgs
    >> (refuse_if (ltb (length ps) 2) (blocks (too_few ps))
        >> (form_each parse_mac o.base ps >>= λ want.
            refuse_extra want (leftover o.base.settled.addrs want)
            >> d4_inspect show parse_mac o.base want o.main))

-- `judgeD4`
unfoldable pub judge_d4 : (Addr → Text) → (Text → Option Text) → D4Obs → Outcome Reason
unfolding d4_chain
judge_d4 show parse_mac o = close (d4_chain show parse_mac o)
