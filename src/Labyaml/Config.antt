-- ===== src/Labyaml/Config.antt =====
-- internal/labyaml/schema.go and baseimages.go: the fields of lab.yaml that validation reads, the
-- errors, and the set-up of a check. An absent optional text is empty, as in Go.
use docker_net_dhcp_lab.Prelude.{
  List, Bool, true, false, ◌||◌, Option, none, some, if◌then◌else◌, ◌==◌, Text, codes, eq_text,
}

-- `Management`, `Segment`, `DockerHost`, `Peer`, `Device`, `Source`, `Relay`, `Cell` and `Config`,
-- less the sizes and other fields that validation does not read
pub record Management : Type 0 where
  pub libvirt_network : Text
  pub subnet : Text

pub record Segment : Type 0 where
  pub bridge : Text
  pub subnet : Text
  pub subnet6 : Text
  pub uplink : Text

pub record DockerHost : Type 0 where
  pub base_image : Text
  pub mgmt_address : Text
  pub plugin_tag : Text

pub record Peer : Type 0 where
  pub mgmt_address : Text
  pub seg_address : Text
  pub seg_address6 : Text

pub record Device : Type 0 where
  pub address : Text
  pub probe_address : Text
  pub tr064_user : Text
  pub password_env : Text

pub record Source : Type 0 where
  pub type : Text
  pub base_image : Text
  pub mgmt_address : Text
  pub seg_address : Text
  pub pool_start : Text
  pub pool_end : Text
  pub seg_address6 : Text
  pub pool6_start : Text
  pub pool6_end : Text
  pub temp6_pool : Text
  pub partner : Option Peer
  pub device : Option Device

pub record Relay : Type 0 where
  pub base_image : Text
  pub mgmt_address : Text
  pub client_address : Text
  pub server_address : Text
  pub server_segment : Segment

pub record Cell : Type 0 where
  pub name : Text
  pub segment : Segment
  pub source : Option Source
  pub relay : Option Relay
  pub docker_host : DockerHost

pub record Config : Type 0 where
  pub management : Management
  pub ula_prefix : Text
  pub cells : List Cell

-- The field that an error names.
pub data Field : Type 0 where
  libvirt_network mgmt_subnet ula_field cells_field cell_name : Field
  seg_bridge seg_subnet seg_subnet6 seg_uplink host_image host_mgmt host_plugin_tag : Field
  source_type source_image source_mgmt source_seg source_start source_end source_pool : Field
  source_seg6 source_start6 source_end6 source_temp6 source_pool6 : Field
  partner_field partner_mgmt partner_seg partner_seg6 : Field
  device_field device_address device_probe device_user device_password : Field
  relay_field relay_image relay_uplink relay_bridge relay_subnet relay_mgmt : Field
  relay_client relay_server : Field

pub data Fault : Type 0 where
  required unparsed outside_mgmt outside_segment reused not_ipv4 outside_lab : Field → Fault
  too_long foreign_bridge unknown_image no_net_stack unknown_type : Field → Fault
  overlaps_mgmt overlaps_segment needs_empty wrong_length is_edge bad_order : Field → Fault
  covers_self in_pool equals_primary reserved_host not_below needs_source : Field → Fault
  wrong_source unsupported bad_uplink bad_password_env not_ipv6 host_bits : Field → Fault
  outside_ula needs_ula v4_only differs_from_seg is_box bad_temp6 c9_target : Field → Fault

-- `NetStack` of a registered base image
pub data NetStack : Type 0 where
  netplan ifupdown no_stack : NetStack

-- `LookupBaseImage` over the table of baseimages.go: the image's `NetStack`
unfoldable pub lookup_base_image : Text → Option NetStack
lookup_base_image name =
    if name == codes "debian-13-generic-amd64"
    then some netplan
    else if name == codes "debian-11-generic-amd64"
    then some ifupdown
    else if name == codes "ubuntu-24.04-server-cloudimg-amd64"
    then some netplan
    else if name == codes "chr-7.24.5"
        || name == codes "openwrt-25.12.5-x86-64"
        || name == codes "windows-2025-eval"
    then some no_stack
    else none

abbrev pub is_no_stack : NetStack → Bool
is_no_stack no_stack = true
is_no_stack _ = false
