-- ===== src/Labyaml/Claims.antt =====
-- internal/labyaml/schema.go: what a cell claims for itself: a bridge, a subnet, an address on the
-- management network. The sets `seenBridge`, `seenSubnets`, `seenMgmt`, `seenUplink` and
-- `seen6` are one state.
pub mod Laws
pub mod Totals
pub mod Extends
pub mod Ranges
use docker_net_dhcp_lab.Prelude.{
  Result, err, need, ok, refuse_if, ◌>>=◌, ◌>>◌, ℕ, not, List, [], ◌∷◌, ◌++◌, ltb, length, any,
  ◌==◌, contains, Text, codes, has_prefix, eq_text,
}
use docker_net_dhcp_lab.Labyaml.Netip.{
  Family, ip4, Addr, eq_addr, Prefix, Parsers, family_eq, holds, overlaps,
}
use docker_net_dhcp_lab.Labyaml.Config.{
  Field, seg_bridge, seg_subnet, Fault, required, unparsed, outside_mgmt, reused, not_ipv4,
  outside_lab, too_long, foreign_bridge, overlaps_mgmt, overlaps_segment,
}

pub record Seen : Type 0 where
  pub bridges : List Text
  pub subnets : List Prefix
  pub mgmt : List Addr
  pub uplinks : List Text
  pub subnets6 : List Prefix

abbrev pub nothing_seen : Seen
nothing_seen = record { bridges = []; subnets = []; mgmt = []; uplinks = []; subnets6 = [] }

-- `maxIfnameLen`
abbrev pub max_ifname_len : ℕ
max_ifname_len = 15

-- the tests on `segment.bridge`
unfoldable pub claim_bridge : Field → Text → Seen → Result Fault Seen
claim_bridge f b s = do
  refuse_if (b == []) (required f)
  refuse_if (ltb max_ifname_len (length b)) (too_long f)
  refuse_if (not (has_prefix b (codes "lab-br-"))) (foreign_bridge f)
  refuse_if (contains s.bridges b) (reused f)
  ok (record s { bridges = s.bridges ++ b ∷ [] })

-- 10.200.0.0/16
abbrev pub lab_range : Prefix
lab_range = record { addr = record { family = ip4; value = 180879360 }; bits = 16 }

-- `mustBeLabRange`
unfoldable pub must_be_lab_range : Field → Prefix → Result Fault (Unit {0})
must_be_lab_range f p = do
  refuse_if (not (family_eq p.addr.family ip4)) (not_ipv4 f)
  refuse_if (not (holds lab_range p.addr)) (outside_lab f)
  ok tt

-- `checkSubnetFree`
unfoldable pub check_subnet_free : Field → Prefix → Prefix → List Prefix → Result Fault (Unit {0})
check_subnet_free f p mgmt seen = do
  refuse_if (overlaps p mgmt) (overlaps_mgmt f)
  refuse_if (any (λ q. overlaps p q) seen) (overlaps_segment f)
  ok tt

module _ (netip : Parsers) (mgmt : Prefix) where
  -- a segment's subnet: parsed, in the lab's range, free, and recorded
  unfoldable pub claim_subnet : Field → Text → Seen → Result Fault (Prefix × Seen)
  unfolding must_be_lab_range check_subnet_free
  claim_subnet f t s = do
    p ← need (netip.parse_prefix t) (unparsed f)
    must_be_lab_range f p
    check_subnet_free f p mgmt s.subnets
    ok (p, record s { subnets = s.subnets ++ p ∷ [] })

  -- a host's management address, with the same four steps for every host
  unfoldable pub claim_mgmt : Field → Text → Seen → Result Fault Seen
  claim_mgmt f t s = do
    p ← need (netip.parse_prefix t) (unparsed f)
    refuse_if (not (holds mgmt p.addr)) (outside_mgmt f)
    refuse_if (contains s.mgmt p.addr) (reused f)
    ok (record s { mgmt = s.mgmt ++ p.addr ∷ [] })
