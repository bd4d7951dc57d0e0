-- ===== src/Scenario/Addresses.antt =====
-- internal/scenario/groupb_addrs.go and groupc_addrs.go: the addresses of a cell's /24 that the
-- scenarios take for themselves, the fields of `Env` that they are chosen from, and the target of
-- the renumbering. A text that the code returns is given as its address; the parsers and the text of
-- an address are parameters.
pub mod Laws
pub mod Bands
pub mod Renumber
use docker_net_dhcp_lab.Labyaml.Cells.{c9_octet_shift}
use docker_net_dhcp_lab.Scenario.Judging.{check_each}
use docker_net_dhcp_lab.Prelude.{
  Text, Option, Bool, List, ℕ, Result, true, need, ◌+◌, none, codes, ◌>>=◌, refuse_if, ◌&&◌, ◌∷◌,
  false, ok, ◌*◌, ◌%◌, ◌>>◌, not, nat_eq, leb, [], ◌^◌, length, ltb, ◌||◌, ◌-◌, ◌==◌, eq_text, some,
  if◌then◌else◌, err, ◌/◌,
}
use docker_net_dhcp_lab.Labyaml.Netip.{
  Addr, Prefix, Family, ip4, ip6, Parsers, masked, addr_le, holds, eq_addr,
}

-- `Env`, the fields of the segment
pub record Env : Type 0 where
  pub seg_subnet : Text
  pub seg_gateway : Text
  pub source_addr : Text
  pub pool_start : Text
  pub pool_end : Text
  pub shape : Text

pub data Fault : Type 0 where
  unknown_shape : Text → Fault
  bad_subnet : Text → Fault
  not_a_24 : Prefix → Fault
  bad_octet : ℕ → Fault
  bad_pool_start : Text → Fault
  bad_pool_end : Text → Fault
  in_main_pool : Addr → Fault
  is_gateway : Addr → Fault
  reserves_none : Text → Fault
  bad_address : Text → Fault
  in_band : ℕ → Fault
  leaves_range : Prefix → Fault
  not_in_subnet : Text → Fault

-- `Shapes`
abbrev pub shapes : List Text
shapes =
    codes "bridge"
    ∷ codes "macvlan"
    ∷ codes "ipvlan"
    ∷ codes "bridge-ipam"
    ∷ codes "macvlan-ipam"
    ∷ []

-- the constants of the bands
abbrev pub reserve_base_host : ℕ
reserve_base_host = 211

abbrev pub class_pool_first_host : ℕ
class_pool_first_host = 221

abbrev pub class_pool_last_host : ℕ
class_pool_last_host = 230

abbrev pub dns_option_host : ℕ
dns_option_host = 253

abbrev pub user_class_first_host : ℕ
user_class_first_host = 203

abbrev pub user_class_last_host : ℕ
user_class_last_host = 210

-- the loop of `shapeIndex`, from an index
unfoldable pub index_from : ℕ → List Text → Text → Option ℕ
index_from i [] shape = none
index_from i (s ∷ rest) shape = if s == shape then some i else index_from (i + 1) rest shape

-- `shapeIndex`
unfoldable pub shape_index : Text → Result Fault ℕ
unfolding index_from
shape_index shape = need (index_from 0 shapes shape) (unknown_shape shape)

abbrev pub is4 : Family → Bool
is4 ip4 = true
is4 ip6 = false

-- `subnet.Addr().Is4() && subnet.Bits() == 24`
abbrev pub is_24 : Prefix → Bool
is_24 p = is4 p.addr.family && nat_eq p.bits 24

-- `b[3] = byte(host)` of the masked address, whose last byte is zero
unfoldable pub at_octet : Prefix → ℕ → Addr
at_octet p host = record { family = ip4; value = (masked p).addr.value + host % 2 ^ 8 }

-- `groupBAddr`
unfoldable pub group_b_addr : Parsers → (Addr → Text) → Env → ℕ → Result Fault Addr
unfolding at_octet
group_b_addr parse show e host =
    need (parse.parse_prefix e.seg_subnet) (bad_subnet e.seg_subnet) >>= λ subnet.
    refuse_if (not (is_24 subnet)) (not_a_24 subnet)
    >> (refuse_if (ltb host 1 || ltb 254 host) (bad_octet host)
        >> (need (parse.parse_addr e.pool_start) (bad_pool_start e.pool_start) >>= λ start.
            need (parse.parse_addr e.pool_end) (bad_pool_end e.pool_end) >>= λ end.
            let a = at_octet subnet host in
            refuse_if (addr_le start a && addr_le a end) (in_main_pool a)
            >> (refuse_if (show a == e.seg_gateway) (is_gateway a) >> ok a)))

abbrev pub name_b1 : Text
name_b1 = codes "B1-reservation-by-mac"

abbrev pub name_b2 : Text
name_b2 = codes "B2-reservation-by-client-id"

-- `reservationAddr`
unfoldable pub reservation_addr : Parsers → (Addr → Text) → Env → Text → Result Fault Addr
reservation_addr parse show e scenario = shape_index e.shape >>= λ i.
    if scenario == name_b1
    then group_b_addr parse show e (reserve_base_host + i)
    else if scenario == name_b2
    then group_b_addr parse show e (reserve_base_host + length shapes + i)
    else err (reserves_none scenario)

-- the first and last address of a pool between two octets
unfoldable pub pool_between : Parsers → (Addr → Text) → Env → ℕ → ℕ → Result Fault (Addr × Addr)
pool_between parse show e first last =
    group_b_addr parse show e first >>= λ f. group_b_addr parse show e last >>= λ l. ok (f, l)

-- `classPool`
unfoldable pub class_pool : Parsers → (Addr → Text) → Env → Result Fault (Addr × Addr)
unfolding pool_between
class_pool parse show e = pool_between parse show e class_pool_first_host class_pool_last_host

-- `userClassPool`
unfoldable pub user_class_pool : Parsers → (Addr → Text) → Env → Result Fault (Addr × Addr)
unfolding pool_between
user_class_pool parse show e = pool_between parse show e user_class_first_host user_class_last_host

-- the test that `inClassPool` and `inUserClassPool` share
unfoldable pub in_pool : Parsers → Result Fault (Addr × Addr) → Text → Result Fault Bool
in_pool parse pool addr = pool >>= λ (first, last).
    need (parse.parse_addr addr) (bad_address addr) >>= λ a. ok (addr_le first a && addr_le a last)

-- `inClassPool`
unfoldable pub in_class_pool : Parsers → (Addr → Text) → Env → Text → Result Fault Bool
unfolding in_pool
in_class_pool parse show e addr = in_pool parse (class_pool parse show e) addr

-- `inUserClassPool`
unfoldable pub in_user_class_pool : Parsers → (Addr → Text) → Env → Text → Result Fault Bool
unfolding in_pool
in_user_class_pool parse show e addr = in_pool parse (user_class_pool parse show e) addr

-- `bands` of `groupCAddr`
abbrev pub bands : List (ℕ × ℕ)
bands =
    (user_class_first_host, user_class_last_host)
    ∷ (reserve_base_host, reserve_base_host + 2 * length shapes - 1)
    ∷ (class_pool_first_host, class_pool_last_host)
    ∷ (dns_option_host, dns_option_host)
    ∷ []

unfoldable pub outside_band : ℕ → ℕ × ℕ → Result Fault (Unit {0})
outside_band host (first, last) = refuse_if (leb first host && leb host last) (in_band host)

-- `groupCAddr`
unfoldable pub group_c_addr : Parsers → (Addr → Text) → Env → ℕ → Result Fault Addr
unfolding outside_band
group_c_addr parse show e host =
    check_each (outside_band host) bands >> group_b_addr parse show e host

-- `c9OctetShift`
abbrev pub octet_shift : ℕ
octet_shift = c9_octet_shift

-- the closure `moved`: the last byte of an address of the old segment, in the new one
unfoldable pub moved : Parsers → Prefix → ℕ → Text → Result Fault Addr
moved parse s base text = need (parse.parse_addr text) (not_in_subnet text) >>= λ ip.
    refuse_if (not (holds s ip)) (not_in_subnet text)
    >> ok (record { family = ip4; value = base + ip.value % 2 ^ 8 })

-- the new segment and the three addresses on it
pub record Target : Type 0 where
  pub subnet : Prefix
  pub addr : Addr
  pub first : Addr
  pub last : Addr

-- the third byte of the masked address
unfoldable pub third_octet : Prefix → ℕ
third_octet s = (masked s).addr.value / 2 ^ 8 % 2 ^ 8

-- `c9Target`
unfoldable pub c9_target : Parsers → Env → Result Fault Target
unfolding moved third_octet
c9_target parse e = need (parse.parse_prefix e.seg_subnet) (bad_subnet e.seg_subnet) >>= λ s.
    refuse_if (not (is_24 s)) (not_a_24 s)
    >> (refuse_if (ltb 254 (third_octet s + octet_shift)) (leaves_range s)
        >> (let base = (masked s).addr.value + octet_shift * 2 ^ 8 in
            moved parse s base e.source_addr >>= λ addr.
            moved parse s base e.pool_start >>= λ first. moved parse s base e.pool_end >>= λ last.
            ok (record {
              subnet = record { addr = record { family = ip4; value = base }; bits = 24 };
              addr = addr;
              first = first;
              last = last;
            })))

abbrev pub between : Option Addr → Option Addr → Option Addr → Bool
between (some a) (some s) (some l) = addr_le s a && addr_le a l
between _ _ _ = false

-- `inMainPool`
unfoldable pub in_main_pool_of : Parsers → Env → Text → Bool
in_main_pool_of parse e addr =
    between (parse.parse_addr addr) (parse.parse_addr e.pool_start) (parse.parse_addr e.pool_end)
