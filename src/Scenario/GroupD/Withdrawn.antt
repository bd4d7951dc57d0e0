-- ===== src/Scenario/GroupD/Withdrawn.antt =====
-- internal/scenario/groupd2_judge.go: `judgeD4bDrop`, `d4bCountsDown` and `judgeD4bExpired`, a prefix
-- that the router leaves out or advertises with a lifetime of zero.
pub mod Laws
use docker_net_dhcp_lab.Scenario.GroupD.Routes.{route_for}
use docker_net_dhcp_lab.Scenario.Outcome.{Outcome}
use docker_net_dhcp_lab.Scenario.Judging.{Judged, Test, close, blocks, fails, check_each}
use docker_net_dhcp_lab.Scenario.GroupD.Link.{second_ns, lft_slack, is_forever, find_addr6, above}
use docker_net_dhcp_lab.Scenario.GroupD.Wire6.{RaMsg, Read, Addr6, sampled}
use docker_net_dhcp_lab.Labyaml.Netip.{Prefix, Parsers, Addr, eq_prefix}
use docker_net_dhcp_lab.Scenario.GroupD.Slaac.{Reason as FormReason, eui64}
use docker_net_dhcp_lab.Prelude.{
  Bool, true, false, Option, none, some, List, ℕ, ℤ, pos, negsuc, Text, [], ◌∷◌, ok, err, ◌>>◌,
  ◌>>=◌, refuse_if, ◌==◌, not, length, if◌then◌else◌, Result, ltb, leb, any, ◌&&◌, ◌||◌, nat_eq,
  need, ◌+◌, ◌-◌, ◌/◌, ◌*◌, eq_text,
}

pub data Reason : Type 0 where
  no_advertisement : Reason
  no_read : Reason
  still_carried : RaMsg → Prefix → Reason
  first_left : Prefix → Reason
  gone_at_once : Prefix → Reason
  left_early : Prefix → ℤ → Reason
  endless : Prefix → ℤ → Reason
  came_back : Prefix → Reason
  short_span : ℕ → ℕ → Reason
  not_falling : Prefix → ℤ → ℤ → Reason
  route_gone : Prefix → Reason
  kept : Prefix → Bool → Reason
  not_advertised : Prefix → Reason
  not_cut : Prefix → ℤ → Reason
  route_left : Text → Prefix → Reason
  expired : Prefix → Reason

-- `findAddr6` of the address that `eui64` forms; a failed one is the zero address, which no read holds
abbrev pub find_or_none : List Addr6 → Result FormReason Addr → Option Addr6
find_or_none as_read (err e) = none
find_or_none as_read (ok a) = find_addr6 as_read a

abbrev pub find_formed : (Text → Option Text) → Text → Prefix → List Addr6 → Option Addr6
find_formed parse_mac mac p as_read = find_or_none as_read (eui64 parse_mac p mac)

unfoldable pub refuse_carrying : Prefix → RaMsg → Test Reason
refuse_carrying second ra =
    refuse_if (any (λ p. p.prefix == second) ra.pios) (blocks (still_carried ra second))

-- `z <= 0`
abbrev pub not_positive : ℤ → Bool
not_positive (pos n) = nat_eq n 0
not_positive (negsuc n) = true

-- `a <= b`
abbrev pub int_leb : ℤ → ℤ → Bool
int_leb (pos a) (pos b) = leb a b
int_leb (pos a) (negsuc b) = false
int_leb (negsuc a) (pos b) = true
int_leb (negsuc a) (negsuc b) = leb b a

-- `d4bMinSpan`
abbrev pub min_span : ℕ
min_span = 6 * second_ns

-- `d4bCountsDown`
unfoldable pub counts_down :
    (Text → Option Text) → Text → Prefix → Read → Read → Addr6 → Test Reason
counts_down parse_mac mac second r0 last x =
    refuse_if (not_positive x.valid) (fails (endless second x.valid))
    >> (need (find_formed parse_mac mac second r0.addrs) (fails (came_back second)) >>= λ y.
        refuse_if (ltb last.at (sampled r0 + min_span)) (blocks (short_span (sampled r0) last.at))
        >> refuse_if (int_leb y.valid x.valid) (fails (not_falling second x.valid y.valid)))

abbrev pub or_older : ℕ → Option Addr6 → Option (Addr6 × ℕ) → Option (Addr6 × ℕ)
or_older at none older = older
or_older at (some x) older = some (x, at)

-- `seen` and `seenAt`: the last read that holds the address
unfoldable pub last_seen :
    (Text → Option Text) → Text → Prefix → Option (Addr6 × ℕ) → List Read → Option (Addr6 × ℕ)
last_seen parse_mac mac p found [] = found
last_seen parse_mac mac p found (r ∷ rs) =
    last_seen parse_mac mac p (or_older r.at (find_formed parse_mac mac p r.addrs) found) rs

-- `z > int64(ran/time.Second)+lftSlack`, the time that ran between two times
abbrev pub outlasts : ℤ → ℕ → ℕ → Bool
outlasts (pos n) from to =
    if leb from to
    then ltb ((to - from) / second_ns + lft_slack) n
    else ltb lft_slack (n + (from - to) / second_ns)
outlasts (negsuc n) from to =
    if leb from to then false else ltb (lft_slack + n + 1) ((from - to) / second_ns)

-- the address was left by the last read
unfoldable pub check_left : Prefix → Read → Option (Addr6 × ℕ) → Test Reason
check_left second last none = err (fails (gone_at_once second))
check_left second last (some (x, at)) =
    refuse_if (is_forever x.valid || outlasts x.valid at (sampled last))
      (fails (left_early second x.valid))

unfoldable pub check_second :
    (Text → Option Text) → Text → Prefix → Read → Read → List Read → Option Addr6 → Test Reason
unfolding counts_down check_left
check_second parse_mac mac second r0 last reads (some x) =
    counts_down parse_mac mac second r0 last x
check_second parse_mac mac second r0 last reads none =
    check_left second last (last_seen parse_mac mac second none reads)

unfoldable pub last_read : Read → List Read → Read
last_read r [] = r
last_read r (s ∷ rs) = last_read s rs

abbrev pub refuse_lost : Prefix → Bool → Option Text → Test Reason
refuse_lost second false route = ok tt
refuse_lost second true none = err (fails (route_gone second))
refuse_lost second true (some line) = ok tt

unfoldable pub drop_chain :
    Parsers
    → (Text → Option Text)
    → List RaMsg
    → List Read
    → Text
    → Prefix
    → Prefix
    → Text
    → Bool
    → Judged Reason
unfolding refuse_carrying check_second
drop_chain k parse_mac [] reads routes p second mac route_kept = err (blocks no_advertisement)
drop_chain k parse_mac (ra ∷ ras) [] routes p second mac route_kept = err (blocks no_read)
drop_chain k parse_mac (ra ∷ ras) (r ∷ rs) routes p second mac route_kept =
    let last = last_read r rs in
    check_each (refuse_carrying second) (ra ∷ ras)
    >> (need (find_formed parse_mac mac p last.addrs) (fails (first_left p)) >>= λ a.
        check_second parse_mac mac second r last (r ∷ rs)
          (find_formed parse_mac mac second last.addrs)
        >> (refuse_lost second route_kept (route_for k routes second)
            >> ok (kept second route_kept)))

-- `judgeD4bDrop`
unfoldable pub judge_d4b_drop :
    Parsers
    → (Text → Option Text)
    → List RaMsg
    → List Read
    → Text
    → Prefix
    → Prefix
    → Text
    → Bool
    → Outcome Reason
unfolding drop_chain
judge_d4b_drop k parse_mac ras reads routes p second mac route_kept =
    close (drop_chain k parse_mac ras reads routes p second mac route_kept)

-- `d4bTwoHours`
abbrev pub two_hours : ℕ
two_hours = 7200

unfoldable pub zero_advertised : Prefix → List RaMsg → Bool
zero_advertised second ras =
    any (λ ra. any (λ p. p.prefix == second && nat_eq p.valid 0) ra.pios) ras

abbrev pub refuse_uncut : Prefix → Option Addr6 → Test Reason
refuse_uncut second none = ok tt
refuse_uncut second (some x) =
    refuse_if (is_forever x.valid || above x.valid two_hours) (fails (not_cut second x.valid))

abbrev pub refuse_route : Prefix → Option Text → Test Reason
refuse_route second none = ok tt
refuse_route second (some line) = err (fails (route_left line second))

unfoldable pub expired_chain :
    Parsers → (Text → Option Text) → List RaMsg → List Addr6 → Text → Prefix → Text → Judged Reason
unfolding zero_advertised
expired_chain k parse_mac ras as_read routes second mac =
    refuse_if (not (zero_advertised second ras)) (blocks (not_advertised second))
    >> (refuse_uncut second (find_formed parse_mac mac second as_read)
        >> (refuse_route second (route_for k routes second) >> ok (expired second)))

-- `judgeD4bExpired`
unfoldable pub judge_d4b_expired :
    Parsers → (Text → Option Text) → List RaMsg → List Addr6 → Text → Prefix → Text → Outcome Reason
unfolding expired_chain
judge_d4b_expired k parse_mac ras as_read routes second mac =
    close (expired_chain k parse_mac ras as_read routes second mac)
