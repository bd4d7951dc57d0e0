-- ===== src/Scenario/GroupF/ForceRenew.antt =====
-- internal/scenario/groupf_judge.go: `judgeF8`, what a client did about an unsigned, a wrongly
-- signed and a signed FORCERENEW. A time is a number of nanoseconds; an absent expiry is Go's zero
-- time, before every other.
pub mod Laws
use docker_net_dhcp_lab.Scenario.Outcome.{Outcome}
use docker_net_dhcp_lab.Scenario.GroupF.Options.{has, OptMsg, find_first}
use docker_net_dhcp_lab.Scenario.Wire.{is_request, is_ack, DhcpMsg, MsgType, other_type}
use docker_net_dhcp_lab.Scenario.Judging.{
  Judged, Test, check_each, Halt, keep, close, blocks, fails,
}
use docker_net_dhcp_lab.Prelude.{
  ℕ, Bool, List, Text, Result, to_lower, Option, ◌+◌, refuse_if, need, not, none, codes, false,
  some, ◌&&◌, ltb, err, ◌==◌, [], leb, ◌>>◌, ◌||◌, ◌>>=◌, nat_eq, eq_text, any, ok, contains, ◌-◌,
  ◌/◌, ◌∷◌, if◌then◌else◌, length,
}

-- `f8Send`, less the time that only a reason shows
pub record Send : Type 0 where
  pub mode : Text
  pub xid : Text

-- `RelayMsg`, what the judge reads of it
pub record RelayMsg : Type 0 where
  pub type : MsgType
  pub xid : Text
  pub eth_src : Text

-- `f8Obs`
pub record F8Obs : Type 0 where
  pub present : Bool
  pub lease : Text
  pub addr : Text
  pub server : Text
  pub own : List Text
  pub bind : ℕ
  pub unsigned : Send
  pub badkey : Send
  pub signed : Send
  pub msgs : List DhcpMsg
  pub opts : List OptMsg
  pub bound_expiry : Option ℕ
  pub unsigned_expiry : Option ℕ
  pub badkey_expiry : Option ℕ
  pub signed_expiry : Option ℕ
  pub addr_after : Text
  pub signed_wait : ℕ
  pub relay_mac : Text
  pub relay_msgs : List RelayMsg

pub data Reason : Type 0 where
  no_expiry : Text → Reason
  not_seen : Text → Reason
  not_to_lease : Text → Text → Text → Reason
  not_on_relay : Text → Reason
  not_routed : Text → Text → Reason
  not_as_mode : Text → Reason
  too_late : ℕ → ℕ → Reason
  acted_on : Text → Text → Reason
  expiry_moved : Option ℕ → Option ℕ → Reason
  recorded : ℕ → Reason
  no_request : Text → Reason
  not_renewing : Text → Text → Text → Reason
  no_ack : Text → Reason
  nonce_again : Text → Reason
  expiry_stays : Text → Reason
  moved_to : Text → Reason
  lost_address : List Text → Reason
  obeyed : Text → Reason

-- the text "FORCERENEW" of a captured type
abbrev pub is_forcerenew : MsgType → Bool
is_forcerenew (other_type t) = t == codes "FORCERENEW"
is_forcerenew _ = false

-- `f8Find` for a FORCERENEW
unfoldable pub f8_find : List DhcpMsg → Text → Option DhcpMsg
f8_find [] xid = none
f8_find (m ∷ msgs) xid = if is_forcerenew m.type && m.xid == xid then some m else f8_find msgs xid

-- `f8FindRelay`
unfoldable pub f8_find_relay : List RelayMsg → Text → Option RelayMsg
f8_find_relay [] xid = none
f8_find_relay (m ∷ msgs) xid =
    if is_forcerenew m.type && m.xid == xid then some m else f8_find_relay msgs xid

-- `f8Opt`
unfoldable pub f8_opt : List OptMsg → Text → Text → Option OptMsg
f8_opt opts type xid = find_first (λ m. m.type == type && m.xid == xid) opts

-- the window [from, to) of `f8Requests`
unfoldable pub requests_within : ℕ → ℕ → DhcpMsg → Bool
requests_within from to m = is_request m.type && leb from m.at && ltb m.at to

-- `f8Requests`
unfoldable pub f8_requests : List DhcpMsg → ℕ → ℕ → List DhcpMsg
f8_requests msgs from to = keep (requests_within from to) msgs

-- `sameMAC`
unfoldable pub same_mac : Text → Text → Bool
unfolding to_lower
same_mac a b = not (a == []) && to_lower a == to_lower b

-- the test on the relay's client leg, which a cell without a relay skips
unfoldable pub check_relay_leg : F8Obs → Send → Test Reason
unfolding same_mac
check_relay_leg o s =
    if o.relay_mac == []
    then ok tt
    else need (f8_find_relay o.relay_msgs s.xid) (blocks (not_on_relay s.xid)) >>= λ m.
        refuse_if (not (same_mac m.eth_src o.relay_mac)) (blocks (not_routed m.eth_src o.relay_mac))

-- `om.Has(90) != (s.Mode != "unsigned")`
unfoldable pub off_mode : Send → OptMsg → Bool
unfolding has
off_mode s m = if s.mode == codes "unsigned" then has m 90 else not (has m 90)

-- one round of the loop over the sends: when the observer saw it
unfoldable pub check_send : F8Obs → Send → Result (Halt Reason) ℕ
unfolding check_relay_leg off_mode f8_opt
check_send o s = need (f8_find o.msgs s.xid) (blocks (not_seen s.xid)) >>= λ m.
    refuse_if (not (m.dst == o.lease) || not (m.ciaddr == o.lease))
      (blocks (not_to_lease m.dst m.ciaddr o.lease))
    >> (check_relay_leg o s
        >> (need (f8_opt o.opts (codes "FORCERENEW") s.xid) (blocks (not_as_mode s.xid)) >>= λ om.
            refuse_if (off_mode s om) (blocks (not_as_mode s.xid)) >> ok m.at))

-- half the lease; Go's division of a negative duration rounds to zero
unfoldable pub half_lease : ℕ → ℕ → ℕ
half_lease bind expiry =
    if leb bind expiry then bind + (expiry - bind) / 2 else bind - (bind - expiry) / 2

-- `Equal` of an expiry and one that is not zero
abbrev pub same_expiry : Option ℕ → ℕ → Bool
same_expiry none e = false
same_expiry (some a) e = nat_eq a e

-- `After`
abbrev pub later_expiry : Option ℕ → ℕ → Bool
later_expiry none e = false
later_expiry (some a) e = ltb e a

-- a REQUEST within the window
unfoldable pub refuse_request : Send → DhcpMsg → Test Reason
refuse_request s r = err (fails (acted_on r.xid s.xid))

-- one round of the loop over the judged drops
unfoldable pub check_drop : F8Obs → Send → ℕ → ℕ → Option ℕ → ℕ → Test Reason
unfolding f8_requests refuse_request
check_drop o s from to after expiry =
    check_each (refuse_request s) (f8_requests o.msgs from to)
    >> refuse_if (not (same_expiry after expiry)) (fails (expiry_moved after (some expiry)))

-- an ACK of a request, not before it
unfoldable pub acks : DhcpMsg → DhcpMsg → Bool
acks r m = is_ack m.type && m.xid == r.xid && leb r.at m.at

-- the ACK of the renewal carries the nonce again
unfoldable pub nonce_repeated : F8Obs → DhcpMsg → Bool
unfolding has f8_opt
nonce_repeated o r = elim (f8_opt o.opts (codes "ACK") r.xid) [ none ↦ false | some m ↦ has m 90 ]

abbrev pub head : List DhcpMsg → Option DhcpMsg
head [] = none
head (r ∷ rs) = some r

-- the tests on the request that answered the signed FORCERENEW
unfoldable pub check_renewal : F8Obs → ℕ → DhcpMsg → Judged Reason
unfolding acks nonce_repeated
check_renewal o expiry r =
    refuse_if (not (r.ciaddr == o.lease) || not (r.dst == o.server))
      (fails (not_renewing r.dst r.ciaddr o.server))
    >> (refuse_if (not (any (acks r) o.msgs)) (fails (no_ack r.xid))
        >> (refuse_if (nonce_repeated o r) (blocks (nonce_again r.xid))
            >> (refuse_if (not (later_expiry o.signed_expiry expiry)) (fails (expiry_stays r.xid))
                >> (refuse_if (not (o.addr_after == o.addr)) (fails (moved_to o.addr_after))
                    >> (refuse_if (not (contains o.own o.addr)) (fails (lost_address o.own))
                        >> ok (obeyed r.xid))))))

unfoldable pub judge_signed : F8Obs → ℕ → ℕ → Judged Reason
unfolding check_renewal f8_requests
judge_signed o expiry at =
    let reqs = f8_requests o.msgs at (at + o.signed_wait) in
    if not o.present
    then ok (recorded (length reqs))
    else need (head reqs) (blocks (no_request o.signed.xid)) >>= check_renewal o expiry

unfoldable pub f8_judged : F8Obs → ℕ → ℕ → ℕ → ℕ → Judged Reason
unfolding half_lease check_drop judge_signed
f8_judged o expiry a b c =
    refuse_if (ltb (half_lease o.bind expiry) c) (blocks (too_late c (half_lease o.bind expiry)))
    >> (check_drop o o.unsigned a b o.unsigned_expiry expiry
        >> ((if o.present then check_drop o o.badkey b c o.badkey_expiry expiry else ok tt)
            >> judge_signed o expiry c))

unfoldable pub f8_chain : F8Obs → Judged Reason
unfolding check_send f8_judged
f8_chain o = need o.bound_expiry (blocks (no_expiry o.lease)) >>= λ expiry.
    check_send o o.unsigned >>= λ a.
    check_send o o.badkey >>= λ b. check_send o o.signed >>= λ c. f8_judged o expiry a b c

-- `judgeF8`
unfoldable pub judge_f8 : F8Obs → Outcome Reason
unfolding f8_chain
judge_f8 o = close (f8_chain o)
