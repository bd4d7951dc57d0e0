-- ===== src/Scenario/GroupF/ForceRenew/Laws.antt =====
-- `judgeF8` against RFC 6704: which captures show two discarded messages and one that is obeyed.
use docker_net_dhcp_lab.Scenario.Outcome.{pass}
use docker_net_dhcp_lab.Scenario.Judging.{check_each-keep_iff_of, close-pass_iff}
use docker_net_dhcp_lab.Scenario.GroupF.Options.{OptMsg}
use docker_net_dhcp_lab.Scenario.Wire.{DhcpMsg}
use docker_net_dhcp_lab.Prelude.{
  ◌==◌, ◌≡◌, ℕ, [], ok, arith, Option-cases, false, ◌↔◌, text_eq_iff, inl, some, inr, Bool-cases,
  codes, true, eq_text, Result-cases, any, Bool, Option, ◌≤◌, All, ◌+◌, contains, none, refl,
  length,
}
use docker_net_dhcp_lab.Scenario.GroupF.ForceRenew.{
  check_send, check_relay_leg, F8Obs, Send, f8_find_relay, RelayMsg, f8_find, same_mac, f8_opt,
  off_mode, check_renewal, check_drop, head, half_lease, f8_requests, acks, Reason, same_expiry,
  obeyed, refuse_request, nonce_repeated, requests_within, later_expiry, judge_f8, f8_chain,
  f8_judged, judge_signed, recorded,
}

-- the relay's client leg delivered the message, where the cell has a relay
abbrev pub Relayed : F8Obs → Send → Type 0
Relayed o s =
    (o.relay_mac == []) ≡ false
    → (m : RelayMsg) × (f8_find_relay o.relay_msgs s.xid ≡ some m)
      × (same_mac m.eth_src o.relay_mac ≡ true)

-- the observer saw the FORCERENEW at a time, addressed to the lease, with option 90 by its mode
pub record Sent (o : F8Obs) (s : Send) (t : ℕ) : Type 0 where
  pub message : DhcpMsg
  pub bytes : OptMsg
  pub seen : f8_find o.msgs s.xid ≡ some message
  pub at_time : message.at ≡ t
  pub to_lease : message.dst ≡ o.lease
  pub ciaddr_lease : message.ciaddr ≡ o.lease
  pub relayed : Relayed o s
  pub read : f8_opt o.opts (codes "FORCERENEW") s.xid ≡ some bytes
  pub as_mode : off_mode s bytes ≡ false

check_relay_leg-ok_iff : (o : F8Obs) (s : Send) → (check_relay_leg o s ≡ ok tt) ↔ Relayed o s
unfolding check_relay_leg
check_relay_leg-ok_iff o s = elim (Option-cases (f8_find_relay o.relay_msgs s.xid)) [
  | inl absent ↦ (
    λ h e. absurd (ground (arith, h, e, absent)),
    λ g. elim (Bool-cases (o.relay_mac == [])) [
      | inl direct ↦ ground (arith, direct)
      | inr relay ↦ let (m, found, _) = g relay in ground (arith, found, absent)
    ],
  )
  | inr (m, found) ↦ (
    λ h e. (m, found, ground (arith, h, e, found)),
    λ g. elim (Bool-cases (o.relay_mac == [])) [
      | inl direct ↦ ground (arith, direct)
      | inr relay ↦ let (n, other, same) = g relay in ground (arith, found, relay, other, same)
    ],
  )
]

check_send-Sent : (o : F8Obs) (s : Send) (t : ℕ) → check_send o s ≡ ok t → Sent o s t
unfolding check_send
check_send-Sent o s t h = elim (Option-cases (f8_find o.msgs s.xid)) [
  | inl unseen ↦ absurd (ground (arith, h, unseen))
  | inr (m, seen) ↦ elim (Option-cases (f8_opt o.opts (codes "FORCERENEW") s.xid)) [
    | inl unread ↦ absurd (ground (arith, h, seen, unread, Result-cases (check_relay_leg o s)))
    | inr (b, found) ↦ record {
      message = m;
      bytes = b;
      seen = seen;
      at_time = ground (arith, h, seen, found);
      to_lease = ground (arith, h, seen, text_eq_iff m.dst o.lease);
      ciaddr_lease = ground (arith, h, seen, text_eq_iff m.ciaddr o.lease);
      relayed = (check_relay_leg-ok_iff o s).0 (ground (arith, h, seen));
      read = found;
      as_mode = ground (arith, h, seen, found);
    }
  ]
]

Sent-check_send : (o : F8Obs) (s : Send) (t : ℕ) → Sent o s t → check_send o s ≡ ok t
unfolding check_send
Sent-check_send o s t g = ground (
  arith,
  g.seen,
  g.at_time,
  g.to_lease,
  g.ciaddr_lease,
  (check_relay_leg-ok_iff o s).1 g.relayed,
  g.read,
  g.as_mode,
  text_eq_iff g.message.dst o.lease,
  text_eq_iff g.message.ciaddr o.lease,
)

-- no REQUEST within the window, and the expiry where it was
abbrev pub Discarded : F8Obs → ℕ → ℕ → Option ℕ → ℕ → Type 0
Discarded o from to after expiry =
    All (λ m. requests_within from to m ≡ true → ⊥) o.msgs × (after ≡ some expiry)

same_expiry_iff : (after : Option ℕ) (e : ℕ) → (same_expiry after e ≡ true) ↔ (after ≡ some e)
same_expiry_iff none e = ground arith
same_expiry_iff (some a) e = ground arith

check_drop-ok_iff :
    (o : F8Obs) (s : Send) (from to : ℕ) (after : Option ℕ) (expiry : ℕ)
    → (check_drop o s from to after expiry ≡ ok tt) ↔ Discarded o from to after expiry
unfolding check_drop f8_requests refuse_request
check_drop-ok_iff o s from to after expiry =
    let quiet =
      check_each-keep_iff_of {P = λ r. ⊥} (refuse_request s) (requests_within from to) o.msgs
        (λ r. ground arith) in
    let same = same_expiry_iff after expiry in
    (
      (λ h. (quiet.0 (ground (arith, h)), same.0 (ground (arith, h)))),
      λ g. ground (arith, quiet.1 g.0, same.1 g.1),
    )

-- the client renewed: a unicast REQUEST from the lease to the server, an ACK without the nonce, a
-- later expiry and the same address
pub record Renewed (o : F8Obs) (expiry : ℕ) (r : DhcpMsg) : Type 0 where
  pub from_lease : r.ciaddr ≡ o.lease
  pub to_server : r.dst ≡ o.server
  pub acked : any (acks r) o.msgs ≡ true
  pub once : nonce_repeated o r ≡ false
  pub extended : later_expiry o.signed_expiry expiry ≡ true
  pub kept : o.addr_after ≡ o.addr
  pub carried : contains o.own o.addr ≡ true

check_renewal-ok_iff :
    (o : F8Obs) (expiry : ℕ) (r : DhcpMsg)
    → ((x : Reason) × (check_renewal o expiry r ≡ ok x)) ↔ Renewed o expiry r
unfolding check_renewal
check_renewal-ok_iff o expiry r = (
  (λ (x, h). record {
    from_lease = ground (arith, h, text_eq_iff r.ciaddr o.lease);
    to_server = ground (arith, h, text_eq_iff r.dst o.server);
    acked = ground (arith, h);
    once = ground (arith, h);
    extended = ground (arith, h);
    kept = ground (arith, h, text_eq_iff o.addr_after o.addr);
    carried = ground (arith, h);
  }),
  λ g. (
    obeyed r.xid,
    ground (
      arith,
      g.from_lease,
      g.to_server,
      g.acked,
      g.once,
      g.extended,
      g.kept,
      g.carried,
      text_eq_iff r.ciaddr o.lease,
      text_eq_iff r.dst o.server,
      text_eq_iff o.addr_after o.addr,
    ),
  ),
)

-- what a plugin that knows FORCERENEW owes beside discarding the unsigned message
abbrev pub Obeys : Bool → F8Obs → ℕ → ℕ → ℕ → Type 0
Obeys false o expiry b c = Unit
Obeys true o expiry b c =
    Discarded o b c o.badkey_expiry expiry
    × ((r : DhcpMsg) × (head (f8_requests o.msgs c (c + o.signed_wait)) ≡ some r)
        × Renewed o expiry r)

-- the whole run: when each message was seen, and what followed it
pub record Forced (o : F8Obs) : Type 0 where
  pub expiry : ℕ
  pub first : ℕ
  pub second : ℕ
  pub third : ℕ
  pub bound : o.bound_expiry ≡ some expiry
  pub unsigned_sent : Sent o o.unsigned first
  pub badkey_sent : Sent o o.badkey second
  pub signed_sent : Sent o o.signed third
  pub early : third ≤ half_lease o.bind expiry
  pub discarded : Discarded o first second o.unsigned_expiry expiry
  pub obeys : Obeys o.present o expiry second third

-- the tests past the three sends, for either version of the plugin
abbrev Answered : Bool → F8Obs → ℕ → ℕ → ℕ → ℕ → Type 0
Answered p o e a b c =
    (c ≤ half_lease o.bind e) × Discarded o a b o.unsigned_expiry e × Obeys p o e b c

f8_judged-Answered :
    (p : Bool) (o : F8Obs) (e a b c : ℕ) (x : Reason)
    → o.present ≡ p
    → f8_judged o e a b c ≡ ok x
    → Answered p o e a b c
unfolding f8_judged judge_signed
f8_judged-Answered false o e a b c x old h =
    let drop = check_drop-ok_iff o o.unsigned a b o.unsigned_expiry e in
    (ground (arith, h), drop.0 (ground (arith, h)), tt)
f8_judged-Answered true o e a b c x new h =
    let drop = check_drop-ok_iff o o.unsigned a b o.unsigned_expiry e in
    let next = check_drop-ok_iff o o.badkey b c o.badkey_expiry e in
    elim (Option-cases (head (f8_requests o.msgs c (c + o.signed_wait)))) [
      | inl silent ↦ absurd (ground (arith, h, new, silent))
      | inr (r, found) ↦ (
        ground (arith, h),
        drop.0 (ground (arith, h)),
        (
          next.0 (ground (arith, h, new)),
          (r, found, (check_renewal-ok_iff o e r).0 (x, ground (arith, h, new, found))),
        ),
      )
    ]

Answered-f8_judged :
    (p : Bool) (o : F8Obs) (e a b c : ℕ)
    → o.present ≡ p
    → Answered p o e a b c
    → (x : Reason) × (f8_judged o e a b c ≡ ok x)
unfolding f8_judged judge_signed
Answered-f8_judged false o e a b c old (early, drop, _) = (
  recorded (length (f8_requests o.msgs c (c + o.signed_wait))),
  ground (arith, early, old, (check_drop-ok_iff o o.unsigned a b o.unsigned_expiry e).1 drop),
)
Answered-f8_judged true o e a b c new (early, drop, (next, (r, found, renewed))) =
    let (x, h) = (check_renewal-ok_iff o e r).1 renewed in
    (
      x,
      ground (
        arith,
        early,
        new,
        found,
        h,
        (check_drop-ok_iff o o.unsigned a b o.unsigned_expiry e).1 drop,
        (check_drop-ok_iff o o.badkey b c o.badkey_expiry e).1 next,
      ),
    )

-- `judgeF8` passes exactly when the bound lease has an expiry, the observer saw all three messages
-- as the lab meant them, the last no later than half the lease, and the unsigned one was discarded:
-- no REQUEST until the next message, the expiry unmoved. A plugin with the feature discards the
-- wrongly signed one as well and answers the signed one: the first REQUEST in its window is a
-- renewal that is acknowledged, extends the lease and keeps the address.
pub judge_f8-pass_iff : (o : F8Obs) → ((judge_f8 o).result ≡ pass) ↔ Forced o
unfolding judge_f8 f8_chain
judge_f8-pass_iff o = (there, back)
  where
    forced :
        (e a b c : ℕ)
        → o.bound_expiry ≡ some e
        → check_send o o.unsigned ≡ ok a
        → check_send o o.badkey ≡ ok b
        → check_send o o.signed ≡ ok c
        → Answered o.present o e a b c
        → Forced o
    forced e a b c he ha hb hc (early, drop, obeys) = record {
      expiry = e;
      first = a;
      second = b;
      third = c;
      bound = he;
      unsigned_sent = check_send-Sent o o.unsigned a ha;
      badkey_sent = check_send-Sent o o.badkey b hb;
      signed_sent = check_send-Sent o o.signed c hc;
      early = early;
      discarded = drop;
      obeys = obeys;
    }

    there : (judge_f8 o).result ≡ pass → Forced o
    there h =
        let (x, chain) = (close-pass_iff (f8_chain o)).0 h in
        elim (Option-cases o.bound_expiry) [
          | inl absent ↦ absurd (ground (arith, chain, absent))
          | inr (e, he) ↦ elim (Result-cases (check_send o o.unsigned)) [
            | inl (_, ha) ↦ absurd (ground (arith, chain, he, ha))
            | inr (a, ha) ↦ elim (Result-cases (check_send o o.badkey)) [
              | inl (_, hb) ↦ absurd (ground (arith, chain, he, ha, hb))
              | inr (b, hb) ↦ elim (Result-cases (check_send o o.signed)) [
                | inl (_, hc) ↦ absurd (ground (arith, chain, he, ha, hb, hc))
                | inr (c, hc) ↦
                    let judged : f8_judged o e a b c ≡ ok x =
                      ground (arith, chain, he, ha, hb, hc) in
                    forced e a b c he ha hb hc
                      (f8_judged-Answered o.present o e a b c x refl judged)
              ]
            ]
          ]
        ]

    back : Forced o → (judge_f8 o).result ≡ pass
    back g =
        let (x, h) =
          Answered-f8_judged o.present o g.expiry g.first g.second g.third refl
            (g.early, g.discarded, g.obeys) in
        (close-pass_iff (f8_chain o)).1 (
          x,
          ground (
            arith,
            h,
            g.bound,
            Sent-check_send o o.unsigned g.first g.unsigned_sent,
            Sent-check_send o o.badkey g.second g.badkey_sent,
            Sent-check_send o o.signed g.third g.signed_sent,
          ),
        )
