-- ===== src/Scenario/GroupD/Slaac.antt =====
-- internal/scenario/groupd_host.go and groupd_judge.go: `eui64`, `lastAutoPIO`, `slaacFormed` and
-- `judgeD2`, an address formed from a router advertisement. `net.ParseMAC` is a parameter, as is the
-- text of an address.
pub mod Laws
pub mod Chosen
pub mod Formed
use docker_net_dhcp_lab.Scenario.GroupD.Link.{find_addr6, leftover, pio_lft}
use docker_net_dhcp_lab.Scenario.GroupF.Options.{is_some}
use docker_net_dhcp_lab.Scenario.GroupD.Exchange6.{asks_for_address6}
use docker_net_dhcp_lab.Scenario.Judging.{Test, Halt, Judged, check_each, close, blocks, fails}
use docker_net_dhcp_lab.Scenario.Outcome.{Outcome}
use docker_net_dhcp_lab.Prelude.{
  Bool, Result, List, ◌+◌, to_lower, Text, ℕ, Option, need, false, ℤ, ◌==◌, ◌*◌, none, any, ok, err,
  leb, ◌>>=◌, true, refuse_if, ◌^◌, ◌&&◌, not, ◌>>◌, length, some, nat_eq, ◌||◌, ◌∷◌, [], eq_text,
  ◌-◌, ◌/◌, ◌%◌, ltb, if◌then◌else◌,
}
use docker_net_dhcp_lab.Scenario.GroupD.Wire6.{Pio, Dhcp6Msg, RaMsg, Lease6, Read, sampled}
use docker_net_dhcp_lab.Labyaml.Netip.{ip4, Addr, Prefix, Family, ip6, eq_prefix, masked}

pub data Reason : Type 0 where
  sent : Text → Reason
  no_auto_prefix : ℕ → Reason
  not_a_mac : Text → Reason
  not_a_64 : Prefix → Reason
  absent_at_start : Addr → Prefix → Text → Reason
  before_any_ra : Addr → Prefix → Reason
  also_carries : Addr → Addr → Reason
  gone_once_settled : Addr → Reason
  not_counted_down : Addr → ℤ → ℤ → Reason
  inspect_differs : Text → Addr → Reason
  leased : Addr → Text → Reason
  formed : Addr → Prefix → Reason

-- `d2Obs`
pub record D2Obs : Type 0 where
  pub msgs : List Dhcp6Msg
  pub ras : List RaMsg
  pub leases : List Lease6
  pub mac : Text
  pub start : Read
  pub settled : Read
  pub inspect : Text

-- `b ^ 0x02` of a byte
unfoldable pub flip_local : ℕ → ℕ
flip_local b = if nat_eq (b / 2 % 2) 0 then b + 2 else b - 2

-- the six bytes of a hardware address
pub record Mac : Type 0 where
  pub b0 : ℕ
  pub b1 : ℕ
  pub b2 : ℕ
  pub b3 : ℕ
  pub b4 : ℕ
  pub b5 : ℕ

-- `len(hw) != 6`
abbrev pub six_bytes : Option Text → Option Mac
six_bytes (some (a ∷ b ∷ c ∷ d ∷ e ∷ f ∷ [])) =
    some (record { b0 = a; b1 = b; b2 = c; b3 = d; b4 = e; b5 = f })
six_bytes _ = none

-- the eight bytes that `eui64` copies into the address, as a number
unfoldable pub interface_id : Mac → ℕ
unfolding flip_local
interface_id m =
    flip_local m.b0 * 2 ^ 56
    + m.b1 * 2 ^ 48
    + m.b2 * 2 ^ 40
    + 255 * 2 ^ 32
    + 254 * 2 ^ 24
    + m.b3 * 2 ^ 16
    + m.b4 * 2 ^ 8
    + m.b5

abbrev pub is6 : Family → Bool
is6 ip4 = false
is6 ip6 = true

-- the last eight bytes of a masked /64 are zero, so the copy is a sum
unfoldable pub eui64_of : Prefix → Mac → Addr
unfolding interface_id
eui64_of p m = record { family = p.addr.family; value = (masked p).addr.value + interface_id m }

-- `eui64`
unfoldable pub eui64 : (Text → Option Text) → Prefix → Text → Result Reason Addr
unfolding eui64_of
eui64 parse_mac p mac = need (six_bytes (parse_mac mac)) (not_a_mac mac) >>= λ m.
    refuse_if (not (nat_eq p.bits 64) || not (is6 p.addr.family)) (not_a_64 p) >> ok (eui64_of p m)

-- the variables of `lastAutoPIO` once a prefix is found
pub record Auto : Type 0 where
  pub pio : Pio
  pub last : RaMsg
  pub max_valid : ℕ
  pub max_pref : ℕ

abbrev pub max : ℕ → ℕ → ℕ
max a b = if ltb a b then b else a

-- the inner loop's body
unfoldable pub take_pio : RaMsg → Pio → Option Auto → Option Auto
take_pio ra p none =
    if p.auto
    then some (record { pio = p; last = ra; max_valid = p.valid; max_pref = p.pref })
    else none
take_pio ra p (some s) =
    if not p.auto || not (p.prefix == s.pio.prefix)
    then some s
    else some (record {
      pio = p;
      last = ra;
      max_valid = max s.max_valid p.valid;
      max_pref = max s.max_pref p.pref;
    })

unfoldable pub take_pios : RaMsg → List Pio → Option Auto → Option Auto
unfolding take_pio
take_pios ra [] s = s
take_pios ra (p ∷ ps) s = take_pios ra ps (take_pio ra p s)

unfoldable pub take_ras : ℕ → List RaMsg → Option Auto → Option Auto
unfolding take_pios
take_ras cut [] s = s
take_ras cut (ra ∷ ras) s =
    if ltb cut ra.at then take_ras cut ras s else take_ras cut ras (take_pios ra ra.pios s)

-- `lastAutoPIO`
unfoldable pub last_auto_pio : D2Obs → Option Auto
unfolding take_ras
last_auto_pio o = take_ras o.settled.at o.ras none

-- `raBefore`
unfoldable pub ra_before : List RaMsg → Prefix → ℕ → Bool
ra_before ras p t = any (λ ra. leb ra.at t && any (λ x. x.auto && x.prefix == p) ra.pios) ras

-- `strings.HasSuffix`
unfoldable pub has_suffix : Text → Text → Bool
has_suffix [] p = [] == p
has_suffix (c ∷ s) p = (c ∷ s) == p || has_suffix s p

refuse_other : Addr → Option Addr → Test Reason
refuse_other want none = ok tt
refuse_other want (some extra) = err (fails (also_carries extra want))

unfoldable pub refuse_lease : Text → Addr → Lease6 → Test Reason
unfolding to_lower has_suffix
refuse_lease mac want l =
    refuse_if (has_suffix l.duid (to_lower mac)) (fails (leased l.address l.duid))

-- the tests on the address that the prefix forms
unfoldable pub check_formed : (Addr → Text) → D2Obs → Auto → Addr → Test Reason
unfolding refuse_other refuse_lease
check_formed show o s want =
    refuse_if (not (is_some (find_addr6 o.start.addrs want)))
      (fails (absent_at_start want s.pio.prefix o.mac))
    >> (refuse_if (not (ra_before o.ras s.pio.prefix o.start.at))
          (fails (before_any_ra want s.pio.prefix))
        >> (refuse_other want (leftover o.start.addrs (want ∷ []))
            >> (refuse_other want (leftover o.settled.addrs (want ∷ []))
                >> (need (find_addr6 o.settled.addrs want) (fails (gone_once_settled want)) >>= λ t.
                    refuse_if
                      (not (pio_lft t.valid s.pio.valid s.max_valid s.last.at (sampled o.settled))
                        || not (pio_lft t.pref s.pio.pref s.max_pref s.last.at (sampled o.settled)))
                      (fails (not_counted_down want t.valid t.pref))
                    >> (refuse_if (not (o.inspect == show want))
                          (fails (inspect_differs o.inspect want))
                        >> check_each (refuse_lease o.mac want) o.leases)))))

-- an error of `eui64` blocks
abbrev pub or_blocks : Result Reason Addr → Result (Halt Reason) Addr
or_blocks (err e) = err (blocks e)
or_blocks (ok a) = ok a

-- `slaacFormed`
unfoldable pub slaac_formed : (Addr → Text) → (Text → Option Text) → D2Obs → Judged Reason
unfolding check_formed
slaac_formed show parse_mac o =
    need (last_auto_pio o) (blocks (no_auto_prefix (length o.ras))) >>= λ s.
    or_blocks (eui64 parse_mac s.pio.prefix o.mac) >>= λ want.
    check_formed show o s want >> ok (formed want s.pio.prefix)

unfoldable pub refuse_asking : Dhcp6Msg → Test Reason
refuse_asking m = refuse_if (asks_for_address6 m.type) (fails (sent m.type))

unfoldable pub d2_chain : (Addr → Text) → (Text → Option Text) → D2Obs → Judged Reason
unfolding refuse_asking
d2_chain show parse_mac o = check_each refuse_asking o.msgs >> slaac_formed show parse_mac o

-- `judgeD2`
unfoldable pub judge_d2 : (Addr → Text) → (Text → Option Text) → D2Obs → Outcome Reason
unfolding d2_chain
judge_d2 show parse_mac o = close (d2_chain show parse_mac o)
