-- ===== src/Scenario/GroupD/Routes.antt =====
-- internal/scenario/groupd2_judge.go: `routeDst` and `routeFor`, the lines of `ip -6 route show`. The
-- parsers of `net/netip` are parameters; the spaces of `strings.Fields` are those of ASCII.
use docker_net_dhcp_lab.Scenario.Verdict.Folding.{is_space, trim_right, trim_left}
use docker_net_dhcp_lab.Labyaml.Netip.{ip4, ip6, Parsers, Addr, Family, Prefix, eq_prefix}
use docker_net_dhcp_lab.Prelude.{
  Bool, false, Option, none, some, List, ℕ, Text, [], ◌∷◌, ◌==◌, codes, contains, nat_eq,
  if◌then◌else◌, eq_text,
}

abbrev pub flush : Text → List Text → List Text
flush [] ws = ws
flush (c ∷ w) ws = (c ∷ w) ∷ ws

-- the word that a text starts with, which may be empty, and the later ones
unfoldable pub words : Text → Text × List Text
words [] = ([], [])
words (c ∷ s) = let (w, ws) = words s in if is_space c then ([], flush w ws) else (c ∷ w, ws)

-- `strings.Fields`
unfoldable pub fields : Text → List Text
unfolding words
fields s = let (w, ws) = words s in flush w ws

-- `strings.Split(s, "\n")`, as its first line and the later ones
unfoldable pub lines_from : Text → Text × List Text
lines_from [] = ([], [])
lines_from (c ∷ s) = let (l, ls) = lines_from s in if nat_eq c 10 then ([], l ∷ ls) else (c ∷ l, ls)

unfoldable pub split_newlines : Text → List Text
unfolding lines_from
split_newlines s = let (l, ls) = lines_from s in l ∷ ls

-- `routeTypes`
abbrev pub route_types : List Text
route_types =
    codes "unicast"
    ∷ codes "unreachable"
    ∷ codes "blackhole"
    ∷ codes "prohibit"
    ∷ codes "local"
    ∷ codes "broadcast"
    ∷ codes "throw"
    ∷ codes "nat"
    ∷ codes "anycast"
    ∷ codes "multicast"
    ∷ []

-- `a.BitLen()`
abbrev pub bit_len : Family → ℕ
bit_len ip4 = 32
bit_len ip6 = 128

abbrev pub whole_address : Option Addr → Option Prefix
whole_address none = none
whole_address (some a) = some (record { addr = a; bits = bit_len a.family })

abbrev pub or_address : Option Prefix → Option Addr → Option Prefix
or_address none a = whole_address a
or_address (some p) a = some p

unfoldable pub dst_of : Parsers → Text → Option Prefix
dst_of k f = or_address (k.parse_prefix f) (k.parse_addr f)

-- the first field, or the second after a route type
unfoldable pub dst_of_fields : Parsers → List Text → Option Prefix
unfolding dst_of
dst_of_fields k [] = none
dst_of_fields k (f ∷ []) = dst_of k f
dst_of_fields k (f ∷ g ∷ fs) = if contains route_types f then dst_of k g else dst_of k f

-- `routeDst`
unfoldable pub route_dst : Parsers → Text → Option Prefix
unfolding dst_of_fields
route_dst k line = dst_of_fields k (fields line)

abbrev pub is_dst : Option Prefix → Prefix → Bool
is_dst none p = false
is_dst (some q) p = q == p

unfoldable pub route_among : Parsers → Prefix → List Text → Option Text
route_among k p [] = none
route_among k p (line ∷ ls) =
    let rest = route_among k p ls in
    if is_dst (route_dst k line) p then some (trim_right (trim_left line)) else rest

-- `routeFor`
unfoldable pub route_for : Parsers → Text → Prefix → Option Text
unfolding route_among
route_for k out p = route_among k p (split_newlines out)
