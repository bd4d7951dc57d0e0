-- ===== src/Scenario/GroupE/Exchange/Laws.antt =====
-- internal/scenario/groupe_judge.go: what the list of exchanges says of the capture.
use docker_net_dhcp_lab.Prelude.{
  Bool, true, false, Option, none, some, List, [], ◌∷◌, ◌++◌, map, ◌≡◌, refl, subst, arith, Text,
  ◌==◌, eq_text, contains, lookup, EachAfter, EachAfter-concat, EachAfter-split, Bool-cases, any,
  ◌&&◌, ◌||◌, contains_single, contains-append, text_eq_iff, ◌⊎◌, inl, inr,
}
use mathlib.Core.List.{map-append}
use docker_net_dhcp_lab.Scenario.Wire.{MsgType, discover, request, ack, inform, is_ack, DhcpMsg}
use docker_net_dhcp_lab.Scenario.GroupE.Exchange.{
  Class, resume, WireExchange, classify_start, correct_resume, Scan, exchange_of, scan_ack,
  scan_start, scan_type, scan, scan_init, requested_of, keep_first, wire_exchanges,
}

abbrev pub xids : List WireExchange → List Text
xids = map (λ x. x.xid)

abbrev pub ips : List WireExchange → List Text
ips = map (λ x. x.ip)

-- What an exchange may be after the exchanges `seen`: of a new transaction, and a resume only
-- of an address that one of them granted.
pub record Follows (seen : List WireExchange) (x : WireExchange) : Type 0 where
  pub fresh : contains (xids seen) x.xid ≡ false
  pub regranted : x.class ≡ resume → contains (ips seen) x.ip ≡ true

record ScanInv (s : Scan) : Type 0 where
  acked_are : s.acked ≡ xids s.out
  granted_are : s.granted ≡ ips s.out
  ordered : EachAfter Follows [] s.out

correct_resume-granted :
    (granted : List Text) (asked given : Text) (v : Class × _)
    → (correct_resume granted asked given v).0 ≡ resume
    → contains granted given ≡ true
unfolding correct_resume
correct_resume-granted granted asked given (class, why) h = ground arith

exchange_of-Follows :
    (s : Scan) (m : DhcpMsg)
    → ScanInv s
    → contains s.acked m.xid ≡ false
    → Follows s.out (exchange_of s m)
unfolding exchange_of
exchange_of-Follows s m inv fresh = record {
  fresh = rw inv.acked_are at fresh;
  regranted = λ r. rw inv.granted_are at (
      correct_resume-granted s.granted (requested_of (lookup m.xid s.starts)) m.yiaddr
        (classify_start (lookup m.xid s.starts)) r);
}

scan_ack-ScanInv : (s : Scan) (m : DhcpMsg) → ScanInv s → ScanInv (scan_ack s m)
unfolding scan_ack
scan_ack-ScanInv s m inv = elim (Bool-cases (contains s.acked m.xid)) [
  | inl old ↦ rw old inv
  | inr new ↦ rw new (record {
    acked_are = rw map-append (rw inv.acked_are (unfold exchange_of in refl));
    granted_are = rw map-append (rw inv.granted_are (unfold exchange_of in refl));
    ordered =
        EachAfter-concat Follows [] s.out (exchange_of s m) inv.ordered
          (exchange_of-Follows s m inv new);
  })
]

scan_start-ScanInv : (s : Scan) (m : DhcpMsg) → ScanInv s → ScanInv (scan_start s m)
unfolding scan_start
scan_start-ScanInv s m inv = keep (lookup m.xid s.starts)
  where
    keep : (o : Option DhcpMsg) → ScanInv (keep_first o s m)
    keep none = record {
      acked_are = inv.acked_are;
      granted_are = inv.granted_are;
      ordered = inv.ordered;
    }
    keep (some _) = inv

scan_type-ScanInv : (t : MsgType) (s : Scan) (m : DhcpMsg) → ScanInv s → ScanInv (scan_type t s m)
unfolding scan_type
scan_type-ScanInv discover s m inv = scan_start-ScanInv s m inv
scan_type-ScanInv request s m inv = scan_start-ScanInv s m inv
scan_type-ScanInv inform s m inv = scan_start-ScanInv s m inv
scan_type-ScanInv ack s m inv = scan_ack-ScanInv s m inv
scan_type-ScanInv _ s m inv = inv

scan-ScanInv : (s : Scan) (ms : List DhcpMsg) → ScanInv s → ScanInv (scan s ms)
unfolding scan
scan-ScanInv s [] inv = inv
scan-ScanInv s (m ∷ ms) inv =
    scan-ScanInv (scan_type m.type s m) ms (scan_type-ScanInv m.type s m inv)

wire_exchanges-ScanInv : (ms : List DhcpMsg) → ScanInv (scan scan_init ms)
wire_exchanges-ScanInv ms =
    scan-ScanInv scan_init ms (record { acked_are = refl; granted_are = refl; ordered = tt })

-- Every exchange that the capture yields is of a transaction that no exchange before it has,
-- and one classified as a resume is for an address that an exchange before it was granted.
pub wire_exchanges-Follows :
    (ms : List DhcpMsg) (pre post : List WireExchange) (x : WireExchange)
    → wire_exchanges ms ≡ pre ++ x ∷ post
    → Follows pre x
unfolding wire_exchanges
wire_exchanges-Follows ms pre post x e =
    EachAfter-split Follows [] pre post x
      (subst (EachAfter Follows []) e (wire_exchanges-ScanInv ms).ordered)

-- an ACK of transaction `t`
abbrev pub acks_xid : Text → DhcpMsg → Bool
acks_xid t m = is_ack m.type && m.xid == t

scan_start-out : (s : Scan) (m : DhcpMsg) → (scan_start s m).out ≡ s.out
unfolding scan_start
scan_start-out s m = keep (lookup m.xid s.starts)
  where
    keep : (o : Option DhcpMsg) → (keep_first o s m).out ≡ s.out
    keep none = refl
    keep (some _) = refl

scan_ack-xids :
    (s : Scan) (m : DhcpMsg) (t : Text)
    → ScanInv s
    → contains (xids (scan_ack s m).out) t ≡ (contains (xids s.out) t || m.xid == t)
unfolding scan_ack
scan_ack-xids s m t inv = elim (Bool-cases (contains s.acked m.xid)) [
  | inl old ↦ rw old (known (Bool-cases (m.xid == t)) (rw inv.acked_are at old))
  | inr new ↦
      rw new (rw (map-append, contains-append, contains_single) (unfold exchange_of in refl))
]
  where
    known :
        ((m.xid == t) ≡ true) ⊎ ((m.xid == t) ≡ false)
        → contains (xids s.out) m.xid ≡ true
        → contains (xids s.out) t ≡ (contains (xids s.out) t || m.xid == t)
    known (inr e) h = ground arith
    known (inl e) h =
        ground (arith, subst (λ u. contains (xids s.out) u ≡ true) ((text_eq_iff m.xid t).0 e) h)

-- What the exchanges' transactions gain from one message.
scan_type-xids :
    (k : MsgType) (s : Scan) (m : DhcpMsg) (t : Text)
    → ScanInv s
    → contains (xids (scan_type k s m).out) t
      ≡ (contains (xids s.out) t || (is_ack k && m.xid == t))
unfolding scan_type
scan_type-xids ack s m t inv = scan_ack-xids s m t inv
scan_type-xids discover s m t inv = rw scan_start-out (ground arith)
scan_type-xids request s m t inv = rw scan_start-out (ground arith)
scan_type-xids inform s m t inv = rw scan_start-out (ground arith)
scan_type-xids _ s m t inv = ground arith

scan-xids :
    (s : Scan) (ms : List DhcpMsg) (t : Text)
    → ScanInv s
    → contains (xids (scan s ms).out) t ≡ (contains (xids s.out) t || any (acks_xid t) ms)
unfolding scan
scan-xids s [] t inv = ground arith
scan-xids s (m ∷ ms) t inv = ground (
  arith,
  scan-xids (scan_type m.type s m) ms t (scan_type-ScanInv m.type s m inv),
  scan_type-xids m.type s m t inv,
)

-- A transaction has an exchange exactly when the capture holds an ACK of it.
pub wire_exchanges-xids :
    (ms : List DhcpMsg) (t : Text) → contains (xids (wire_exchanges ms)) t ≡ any (acks_xid t) ms
unfolding wire_exchanges contains
wire_exchanges-xids ms t =
    scan-xids scan_init ms t (record { acked_are = refl; granted_are = refl; ordered = tt })
