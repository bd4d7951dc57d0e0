-- ===== src/Labyaml/Hosts.antt =====
-- internal/labyaml/schema.go: the addresses of a cell's hosts: `legAddress`, `ReservedGroupHost`,
-- `validateUplink`, `validateDevice`, `validatePartner` and `validateRelay`.
pub mod Laws
use docker_net_dhcp_lab.Labyaml.Netip.{
  Addr, Prefix, Parsers, holds, addr_le, addr_lt, masked, eq_addr, span,
}
use docker_net_dhcp_lab.Labyaml.Config.{
  device_address, relay_client, bad_uplink, unparsed, differs_from_seg, outside_segment,
  partner_field, in_pool, relay_image, reused, wrong_length, device_probe, partner_seg,
  partner_mgmt, reserved_host, lookup_base_image, is_edge, is_box, equals_primary, relay_server,
  unknown_image, device_user, not_below, unsupported, bad_password_env, relay_uplink, Peer, Device,
  Source, Relay, Cell, Field, seg_uplink, device_field, device_password, relay_field, relay_bridge,
  relay_subnet, relay_mgmt, required, needs_source, wrong_source, Fault,
}
use docker_net_dhcp_lab.Labyaml.Claims.{Seen, claim_bridge, claim_subnet, claim_mgmt}
use docker_net_dhcp_lab.Prelude.{
  Result, err, need, ok, refuse_if, ◌>>=◌, ◌>>◌, ℕ, suc, ◌+◌, ◌-◌, ◌*◌, ◌%◌, Bool, true, false, not,
  ◌&&◌, ◌||◌, Option, none, some, [], ◌∷◌, ◌++◌, leb, nat_eq, if◌then◌else◌, all, ◌==◌, contains,
  Text, codes, eq_text, zero,
}
use docker_net_dhcp_lab.Labyaml.Config.{
  Source, Cell, Field, Device, Peer, Relay, required, wrong_source, needs_source, seg_uplink,
  device_field, relay_field,
}

-- the last octet of an IPv4 address
abbrev pub last_octet : Addr → ℕ
last_octet a = a.value % 256

-- `ReservedGroupHost`
unfoldable pub reserved_group_host : ℕ → Bool
reserved_group_host host =
    (leb 201 host && leb host 235) || (leb 240 host && leb host 250) || nat_eq host 253

abbrev pub group_b_band_first_host : ℕ
group_b_band_first_host = 211

abbrev pub group_b_band_last_host : ℕ
group_b_band_last_host = 230

abbrev pub dns_option_host : ℕ
dns_option_host = 253

-- the band that `validatePartner` keeps a partner out of
unfoldable pub in_group_b_band : ℕ → Bool
in_group_b_band host =
    (leb group_b_band_first_host host && leb host group_b_band_last_host)
    || nat_eq host dns_option_host

-- `start.Compare(a) <= 0 && a.Compare(end) <= 0`
unfoldable pub in_pool_range : Addr → Addr → Addr → Bool
in_pool_range start end a = addr_le start a && addr_le a end

-- `[1-9][0-9]{0,3}` with a value of at most 4094: the digits, the value so far, how many may follow
unfoldable pub vlan_digits : Text → ℕ → ℕ → Bool
vlan_digits [] n room = leb n 4094
vlan_digits (c ∷ cs) n zero = false
vlan_digits (c ∷ cs) n (suc room) =
    leb b'0' c && leb c b'9' && vlan_digits cs (n * 10 + (c - b'0')) room

unfoldable pub vlan_number : Text → Bool
unfolding vlan_digits
vlan_number [] = false
vlan_number (c ∷ cs) = leb b'1' c && leb c b'9' && vlan_digits cs (c - b'0') 3

-- what follows a prefix
unfoldable pub after_prefix : Text → Text → Option Text
after_prefix s [] = some s
after_prefix [] (p ∷ ps) = none
after_prefix (c ∷ s) (p ∷ ps) = if nat_eq c p then after_prefix s ps else none

-- `validUplink`: `lab0`, `lab1` or `lab0.N`
unfoldable pub valid_uplink : Text → Bool
valid_uplink u =
    u == codes "lab0"
    || u == codes "lab1"
    || elim (after_prefix u (codes "lab0.")) [ none ↦ false | some n ↦ vlan_number n ]

abbrev pub is_fritzbox : Source → Bool
is_fritzbox s = s.type == codes "fritzbox"

abbrev pub has_box : Option Source → Bool
has_box none = false
has_box (some s) = is_fritzbox s

-- `validateUplink`
unfoldable pub validate_uplink : Cell → Seen → Result Fault Seen
validate_uplink cell s =
    let u = cell.segment.uplink in
    let box = has_box cell.source in
    if u == [] then if box then err (required seg_uplink) else ok s else do
      refuse_if (not box) (wrong_source seg_uplink)
      refuse_if (not (valid_uplink u)) (bad_uplink seg_uplink)
      refuse_if (contains s.uplinks u) (reused seg_uplink)
      ok (record s { uplinks = s.uplinks ++ u ∷ [] })

abbrev pub upper_or_under : ℕ → Bool
upper_or_under c = (leb b'A' c && leb c b'Z') || nat_eq c b'_'

-- `passwordEnvRE`: `^[A-Z_][A-Z0-9_]*$`
unfoldable pub is_env_name : Text → Bool
is_env_name [] = false
is_env_name (c ∷ cs) =
    upper_or_under c && all (λ d. upper_or_under d || (leb b'0' d && leb d b'9')) cs

-- the tests on a partner's segment address
unfoldable pub check_partner : Addr → Addr → Addr → Addr → Prefix → Result Fault (Unit {0})
check_partner a primary_seg start end seg_prefix = do
  refuse_if (not (holds seg_prefix a)) (outside_segment partner_seg)
  refuse_if (a == primary_seg) (equals_primary partner_seg)
  refuse_if (in_pool_range start end a) (in_pool partner_seg)
  refuse_if (in_group_b_band (last_octet a)) (reserved_host partner_seg)
  refuse_if (addr_lt end a) (not_below partner_seg)
  ok tt

-- `bcast` of `legAddress`: the host bits of the network address set
unfoldable pub broadcast : Prefix → Addr
unfolding masked span
broadcast seg = record {
  family = seg.addr.family;
  value = (masked seg).addr.value + (span seg - 1);
}

module _ (netip : Parsers) where
  -- `legAddress`, called with an IPv4 segment
  unfoldable pub leg_address : Field → Text → Prefix → Result Fault Addr
  leg_address f t seg = do
    p ← need (netip.parse_prefix t) (unparsed f)
    refuse_if (not (holds seg p.addr)) (outside_segment f)
    refuse_if (not (nat_eq p.bits seg.bits)) (wrong_length f)
    refuse_if (p.addr == (masked seg).addr || p.addr == broadcast seg) (is_edge f)
    ok p.addr

  -- the tests on the fritzbox block
  unfoldable pub check_device : Device → Prefix → Prefix → Addr → Addr → Result Fault (Unit {0})
  check_device d seg_prefix seg_addr start end = do
    box ← leg_address device_address d.address seg_prefix
    refuse_if (not (box == seg_addr.addr) || not (nat_eq seg_addr.bits seg_prefix.bits))
        (differs_from_seg device_address)
    probe ← leg_address device_probe d.probe_address seg_prefix
    refuse_if (probe == box) (is_box device_probe)
    refuse_if (in_pool_range start end box || in_pool_range start end probe) (in_pool device_field)
    refuse_if (d.tr064_user == []) (required device_user)
    refuse_if (not (is_env_name d.password_env)) (bad_password_env device_password)
    ok tt

  -- `validateDevice`
  unfoldable pub validate_device : Source → Prefix → Prefix → Addr → Addr → Result Fault (Unit {0})
  validate_device s seg_prefix seg_addr start end = with_device s.device (is_fritzbox s)
    where
      with_device : Option Device → Bool → Result Fault (Unit {0})
      with_device (some d) false = err (wrong_source device_field)
      with_device none false = ok tt
      with_device none true = err (required device_field)
      with_device (some d) true = check_device d seg_prefix seg_addr start end

  -- `validatePartner`
  unfoldable pub validate_partner :
      Peer → Text → Addr → Addr → Addr → Prefix → Prefix → Seen → Result Fault Seen
  validate_partner p type primary_seg start end mgmt seg_prefix s = do
    refuse_if (not (type == codes "kea" || type == codes "isc-dhcp")) (wrong_source partner_field)
    t ← claim_mgmt netip mgmt partner_mgmt p.mgmt_address s
    a ← need (netip.parse_prefix p.seg_address) (unparsed partner_seg)
    check_partner a.addr primary_seg start end seg_prefix
    ok t

  -- whether both ends of a pool parse and the address lies between them
  unfoldable pub in_source_pool : Source → Addr → Bool
  in_source_pool src a = between (netip.parse_addr src.pool_start) (netip.parse_addr src.pool_end)
    where
      between : Option Addr → Option Addr → Bool
      between (some start) (some end) = in_pool_range start end a
      between _ _ = false

  -- whether the source's own segment address parses to this one
  unfoldable pub is_source_seg : Source → Addr → Bool
  is_source_seg src a = elim (netip.parse_prefix src.seg_address) [
    | none ↦ false
    | some p ↦ p.addr == a
  ]

  -- the relay's two legs
  unfoldable pub check_legs : Relay → Source → Prefix → Prefix → Result Fault (Unit {0})
  check_legs r src seg_prefix srv_prefix = do
    client ← leg_address relay_client r.client_address seg_prefix
    refuse_if (in_source_pool src client) (in_pool relay_client)
    refuse_if (reserved_group_host (last_octet client)) (reserved_host relay_client)
    server ← leg_address relay_server r.server_address srv_prefix
    refuse_if (is_source_seg src server) (equals_primary relay_server)
    ok tt

  -- what a relay claims, and its legs
  unfoldable pub claim_relay :
      Relay → Source → Prefix → Prefix → Seen → Result Fault (Prefix × Seen)
  claim_relay r src mgmt seg_prefix s = do
    t ← claim_bridge relay_bridge r.server_segment.bridge s
    (srv_prefix, u) ← claim_subnet netip mgmt relay_subnet r.server_segment.subnet t
    v ← claim_mgmt netip mgmt relay_mgmt r.mgmt_address u
    check_legs r src seg_prefix srv_prefix
    ok (srv_prefix, v)

  -- `validateRelay` behind its first test, that there is a source
  unfoldable pub check_relay :
      Relay → Source → Prefix → Prefix → Seen → Result Fault (Prefix × Seen)
  check_relay r src mgmt seg_prefix s = do
    refuse_if (not (src.type == codes "kea")) (wrong_source relay_field)
    refuse_if (r.base_image == []) (required relay_image)
    image ← need (lookup_base_image r.base_image) (unknown_image relay_image)
    refuse_if (not (r.server_segment.uplink == [])) (unsupported relay_uplink)
    claim_relay r src mgmt seg_prefix s

  unfoldable pub validate_relay :
      Relay → Option Source → Prefix → Prefix → Seen → Result Fault (Prefix × Seen)
  validate_relay r none mgmt seg_prefix s = err (needs_source relay_field)
  validate_relay r (some src) mgmt seg_prefix s = check_relay r src mgmt seg_prefix s
