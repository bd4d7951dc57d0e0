-- ===== src/Labyaml/Cells.antt =====
-- internal/labyaml/schema.go: `Validate`, its loop over the cells, and `validateC9Targets`.
pub mod Laws
pub mod Renumber
pub mod Accepted
use docker_net_dhcp_lab.Labyaml.Netip.{Addr, Prefix, Parsers, ip4, family_eq, masked, eq_prefix}
use docker_net_dhcp_lab.Labyaml.Config.{
  DockerHost, Source, Cell, Config, lookup_base_image, is_no_stack, libvirt_network, mgmt_subnet,
  cells_field, cell_name, seg_bridge, seg_subnet, host_image, host_mgmt, host_plugin_tag, required,
  unparsed, unknown_image, no_net_stack, c9_target, Fault,
}
use docker_net_dhcp_lab.Labyaml.Claims.{
  Seen, claim_bridge, claim_subnet, claim_mgmt, must_be_lab_range, nothing_seen,
}
use docker_net_dhcp_lab.Labyaml.Hosts.{validate_uplink, validate_relay}
use docker_net_dhcp_lab.Labyaml.Six.{
  optional_ula, optional_subnet6, validate_source6, validate_partner6,
}
use docker_net_dhcp_lab.Labyaml.Pool.{validate_source}
use docker_net_dhcp_lab.Prelude.{
  Result, need, ok, refuse_if, ◌>>=◌, ◌>>◌, ℕ, ◌+◌, ◌*◌, ◌/◌, ◌%◌, Bool, false, not, ◌||◌, Option,
  none, some, List, [], ◌∷◌, ltb, nat_eq, if◌then◌else◌, length, any, ◌==◌, contains, eq_text,
}

-- the tests on the image and the plugin of the Docker host
unfoldable pub check_host : DockerHost → Result Fault (Unit {0})
check_host h = do
  refuse_if (h.base_image == []) (required host_image)
  stack ← need (lookup_base_image h.base_image) (unknown_image host_image)
  refuse_if (is_no_stack stack) (no_net_stack host_image)
  refuse_if (h.plugin_tag == []) (required host_plugin_tag)
  ok tt

-- `C9OctetShift`
abbrev pub c9_octet_shift : ℕ
c9_octet_shift = 100

abbrev pub third_octet : Addr → ℕ
third_octet a = a.value / 256 % 256

-- the segment that scenario Renumber would move to, when the shifted octet is at most 254
unfoldable pub c9_target_of : Prefix → Option Prefix
c9_target_of p =
    if not (family_eq p.addr.family ip4) || ltb 254 (third_octet p.addr + c9_octet_shift)
    then none
    else some (
        masked (record {
          addr = record { family = ip4; value = p.addr.value + c9_octet_shift * 256 };
          bits = p.bits;
        }))

module _ (netip : Parsers) where
  -- the keys of `owner`: the segments of the cells, masked
  unfoldable pub owned : List Cell → List Prefix
  owned [] = []
  owned (c ∷ cs) = elim (netip.parse_prefix c.segment.subnet) [
    | none ↦ owned cs
    | some p ↦ masked p ∷ owned cs
  ]

  -- whether the renumber target of a cell is an owned segment
  unfoldable pub hits_owned : List Prefix → Cell → Bool
  hits_owned owner c = elim (netip.parse_prefix c.segment.subnet) [
    | none ↦ false
    | some p ↦ elim (c9_target_of p) [ none ↦ false | some target ↦ contains owner target ]
  ]

  -- `validateC9Targets`
  unfoldable pub validate_c9_targets : List Cell → Result Fault (Unit {0})
  validate_c9_targets cells =
      refuse_if (any (hits_owned (owned cells)) cells) (c9_target seg_subnet)

  -- the end of a source's tests: both IPv6 checks
  unfoldable pub check_source_v6 : Source → Option Prefix → Result Fault (Unit {0})
  check_source_v6 src seg6 = do
    validate_source6 netip src seg6
    elim src.partner [ none ↦ ok tt | some p ↦ validate_partner6 netip p src seg6 ]

  module _ (mgmt : Prefix) where
    -- where the source's own address must lie: behind a relay on the server segment
    unfoldable pub source_prefix : Cell → Prefix → Seen → Result Fault (Prefix × Seen)
    source_prefix cell seg_prefix s = elim cell.relay [
      | none ↦ ok (seg_prefix, s)
      | some r ↦ validate_relay netip r cell.source mgmt seg_prefix s
    ]

    -- the source's tests, when there is one
    unfoldable pub optional_source :
        Option Source → Option Prefix → Prefix → Prefix → Seen → Result Fault Seen
    optional_source none seg6 seg_prefix addr_prefix s = ok s
    optional_source (some src) seg6 seg_prefix addr_prefix s = do
      t ← validate_source netip mgmt src seg_prefix addr_prefix s
      check_source_v6 src seg6
      ok t

    -- the tests that follow the segment's subnet
    unfoldable pub check_hosts : Option Prefix → Cell → Prefix → Seen → Result Fault Seen
    check_hosts ula cell seg_prefix s = do
      t ← validate_uplink cell s
      (seg6, u) ← optional_subnet6 netip cell.segment.subnet6 ula t
      check_host cell.docker_host
      v ← claim_mgmt netip mgmt host_mgmt cell.docker_host.mgmt_address u
      (addr_prefix, w) ← source_prefix cell seg_prefix v
      optional_source cell.source seg6 seg_prefix addr_prefix w

    -- one round of the loop of `Validate`
    unfoldable pub validate_cell : Option Prefix → Cell → Seen → Result Fault Seen
    validate_cell ula cell s = do
      refuse_if (cell.name == []) (required cell_name)
      t ← claim_bridge seg_bridge cell.segment.bridge s
      (seg_prefix, u) ← claim_subnet netip mgmt seg_subnet cell.segment.subnet t
      check_hosts ula cell seg_prefix u

    -- the loop
    unfoldable pub validate_cells : Option Prefix → List Cell → Seen → Result Fault Seen
    validate_cells ula [] s = ok s
    validate_cells ula (c ∷ cs) s = validate_cell ula c s >>= λ t. validate_cells ula cs t

  -- `Validate`
  unfoldable pub validate : Config → Result Fault (Unit {0})
  validate c = do
    refuse_if (c.management.libvirt_network == []) (required libvirt_network)
    mgmt ← need (netip.parse_prefix c.management.subnet) (unparsed mgmt_subnet)
    must_be_lab_range mgmt_subnet mgmt
    refuse_if (nat_eq (length c.cells) 0) (required cells_field)
    ula ← optional_ula netip c.ula_prefix
    seen ← validate_cells mgmt ula c.cells nothing_seen
    validate_c9_targets c.cells
