-- ===== src/Scenario/GroupD/Wire6.antt =====
-- internal/scenario/capture6.go, groupd_host.go and internal/sourceadapter/leases6.go: DHCPv6
-- messages, router advertisements, the addresses of a link and the leases of a source. An address or
-- prefix that is not valid is absent; a time is a number of nanoseconds.
use docker_net_dhcp_lab.Scenario.GroupF.Options.{is_some}
use docker_net_dhcp_lab.Prelude.{Option, Bool, Text, List, ℕ, ℤ, none, some, any, ◌||◌, [], ◌∷◌}
use docker_net_dhcp_lab.Labyaml.Netip.{Addr, Prefix}

-- `IA6`
pub record Ia6 : Type 0 where
  pub addr : Option Addr
  pub prefix : Option Prefix
  pub pref : ℕ
  pub valid : ℕ

-- `DHCP6Msg`, less the server's DUID and the addresses, which no judge reads
pub record Dhcp6Msg : Type 0 where
  pub at : ℕ
  pub type : Text
  pub xid : Text
  pub client_duid : Text
  pub rapid : Bool
  pub na : List Ia6
  pub ta : List Ia6
  pub pd : List Ia6

-- `PIO`
pub record Pio : Type 0 where
  pub prefix : Prefix
  pub auto : Bool
  pub valid : ℕ
  pub pref : ℕ

-- `RAMsg`, less the other flag and PREF64
pub record RaMsg : Type 0 where
  pub at : ℕ
  pub src : Addr
  pub managed : Bool
  pub router_lifetime : ℕ
  pub pios : List Pio

-- `addr6`
pub record Addr6 : Type 0 where
  pub addr : Addr
  pub bits : ℕ
  pub scope : Text
  pub valid : ℤ
  pub pref : ℤ

-- `Lease6Type`
pub data LeaseType : Type 0 where
  lease_na lease_ta lease_pd : LeaseType

-- `Lease6`, what the judges read of it
pub record Lease6 : Type 0 where
  pub type : LeaseType
  pub address : Addr
  pub duid : Text

-- `d6Read`; a zero `Got` is absent
pub record Read : Type 0 where
  pub at : ℕ
  pub got : Option ℕ
  pub addrs : List Addr6

abbrev pub got_or : ℕ → Option ℕ → ℕ
got_or at none = at
got_or at (some t) = t

-- `sampled`
unfoldable pub sampled : Read → ℕ
sampled r = got_or r.at r.got

-- `HasAddr`
abbrev pub grants : Ia6 → Bool
grants ia = is_some ia.addr || is_some ia.prefix

unfoldable pub has_addr : List Ia6 → Bool
has_addr ias = any grants ias

-- `firstAddr`, with its address
unfoldable pub first_addr : List Ia6 → Option (Addr × Ia6)
first_addr [] = none
first_addr (ia ∷ ias) = elim ia.addr [ none ↦ first_addr ias | some a ↦ some (a, ia) ]
