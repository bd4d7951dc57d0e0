-- ===== src/Labyaml.antt =====
-- internal/labyaml: the addresses of lab.yaml and the rules that validation holds them to.
pub mod Netip
pub mod Config
pub mod Claims
pub mod Hosts
pub mod Six
pub mod Pool
pub mod Vlan
pub mod Cells
