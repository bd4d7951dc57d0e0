-- ===== src/Scenario/GroupE/Exchange.antt =====
-- internal/scenario/groupe_judge.go: the exchanges of a capture and what started each.
pub mod Laws
use docker_net_dhcp_lab.Prelude.{
  ℕ, Bool, true, false, not, ◌&&◌, ◌||◌, Option, none, some, List, [], ◌∷◌, ◌++◌, Text, codes, ◌==◌,
  eq_text, contains, lookup, if◌then◌else◌,
}
use docker_net_dhcp_lab.Scenario.Wire.{MsgType, discover, request, ack, inform, is_request, DhcpMsg}

-- The four values of `wireExchange.Class`.
pub data Class : Type 0 where
  bound renew resume other : Class

-- `wireExchange.Start`: what started the exchange, in the order of the code's texts.
pub data Start : Type 0 where
  unseen_request discover_start unicast_renewal : Start
  init_reboot : Text → Start
  rebind bare_request : Start
  other_start : MsgType → Start
  acked_as_other not_granted : Text → Text → Start

-- `wireExchange`
pub record WireExchange : Type 0 where
  pub xid : Text
  pub class : Class
  pub ip : Text
  pub start : Start
  pub at : ℕ
  pub unseen : Bool

abbrev no_ciaddr : DhcpMsg → Bool
no_ciaddr m = m.ciaddr == []

abbrev zero_ciaddr : DhcpMsg → Bool
zero_ciaddr m = m.ciaddr == codes "0.0.0.0"

-- `isInitReboot`
unfoldable pub is_init_reboot : DhcpMsg → Bool
is_init_reboot m =
    is_request m.type && (no_ciaddr m || zero_ciaddr m) && m.server == [] && not (m.requested == [])

-- the cases of `classifyStart` for a REQUEST
classify_request : DhcpMsg → Class × Start
unfolding is_init_reboot
classify_request m =
    if not (no_ciaddr m) && not (zero_ciaddr m) && not (m.dst == codes "255.255.255.255")
    then (renew, unicast_renewal)
    else if is_init_reboot m
    then (resume, init_reboot m.requested)
    else if not (no_ciaddr m)
    then (other, rebind)
    else (other, bare_request)

classify_type : MsgType → DhcpMsg → Class × Start
unfolding classify_request
classify_type discover m = (bound, discover_start)
classify_type request m = classify_request m
classify_type t m = (other, other_start t)

-- `classifyStart`; `none` is `!seen`
unfoldable pub classify_start : Option DhcpMsg → Class × Start
unfolding classify_type
classify_start none = (other, unseen_request)
classify_start (some m) = classify_type m.type m

-- The variables of the loop of `wireExchanges`. `acked` and `granted` are sets.
pub record Scan : Type 0 where
  pub starts : List (Text × DhcpMsg)
  pub acked : List Text
  pub granted : List Text
  pub out : List WireExchange

abbrev is_resume : Class → Bool
is_resume resume = true
is_resume _ = false

abbrev requested_of : Option DhcpMsg → Text
requested_of none = []
requested_of (some m) = m.requested

abbrev is_none : Option DhcpMsg → Bool
is_none none = true
is_none (some _) = false

-- the correction of a resume that answers another address, or one not granted before
unfoldable pub correct_resume : List Text → Text → Text → Class × Start → Class × Start
correct_resume granted asked given (class, why) =
    if is_resume class && not (asked == given)
    then (other, acked_as_other asked given)
    else if is_resume class && not (contains granted given)
    then (other, not_granted asked given)
    else (class, why)

exchange_of : Scan → DhcpMsg → WireExchange
unfolding correct_resume classify_start
exchange_of s m =
    let first = lookup m.xid s.starts in
    let verdict = correct_resume s.granted (requested_of first) m.yiaddr (classify_start first) in
    record {
      xid = m.xid;
      class = verdict.0;
      ip = m.yiaddr;
      start = verdict.1;
      at = m.at;
      unseen = is_none first;
    }

scan_ack : Scan → DhcpMsg → Scan
unfolding exchange_of
scan_ack s m = if contains s.acked m.xid then s else record s {
  acked = s.acked ++ m.xid ∷ [];
  granted = s.granted ++ m.yiaddr ∷ [];
  out = s.out ++ exchange_of s m ∷ [];
}

keep_first : Option DhcpMsg → Scan → DhcpMsg → Scan
keep_first none s m = record s { starts = (m.xid, m) ∷ s.starts }
keep_first (some _) s m = s

scan_start : Scan → DhcpMsg → Scan
unfolding keep_first
scan_start s m = keep_first (lookup m.xid s.starts) s m

scan_type : MsgType → Scan → DhcpMsg → Scan
unfolding scan_ack scan_start
scan_type discover s m = scan_start s m
scan_type request s m = scan_start s m
scan_type inform s m = scan_start s m
scan_type ack s m = scan_ack s m
scan_type _ s m = s

scan : Scan → List DhcpMsg → Scan
unfolding scan_type
scan s [] = s
scan s (m ∷ ms) = scan (scan_type m.type s m) ms

abbrev scan_init : Scan
scan_init = record { starts = []; acked = []; granted = []; out = [] }

-- `wireExchanges`
unfoldable pub wire_exchanges : List DhcpMsg → List WireExchange
unfolding scan
wire_exchanges ms = (scan scan_init ms).out
