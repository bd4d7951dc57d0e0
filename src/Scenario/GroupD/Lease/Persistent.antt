-- ===== src/Scenario/GroupD/Lease/Persistent.antt =====
-- `judgeD1Persistent`: a client that attached again with the lease that it had.
use docker_net_dhcp_lab.Scenario.GroupD.Exchange6.{client}
use docker_net_dhcp_lab.Scenario.GroupD.Exchange6.Laws.{exchange6-ok_iff}
use docker_net_dhcp_lab.Scenario.Outcome.{pass}
use docker_net_dhcp_lab.Labyaml.Netip.{Addr}
use docker_net_dhcp_lab.Scenario.GroupD.Exchange6.{
  Exchange, granting, last_granting, is_client6, exchange6,
}
use docker_net_dhcp_lab.Scenario.GroupD.Lease.Laws.{Leased, d1_chain-Leased, d1_chain_ok}
use docker_net_dhcp_lab.Scenario.GroupD.Wire6.{Dhcp6Msg, sampled}
use docker_net_dhcp_lab.Scenario.GroupD.Lease.{
  judge_d1_persistent, attaches, lease_at, persistent_chain, D1Obs, leased,
}
use docker_net_dhcp_lab.Scenario.Judging.{close-pass_iff, keep}
use docker_net_dhcp_lab.Prelude.{
  Text, List, Bool, [], ℕ, ◌∷◌, none, some, any, true, false, codes, ◌&&◌, ◌++◌, ◌≡◌, ◌↔◌, ◌⊎◌, ◌<◌,
  ◌≤◌, inl, inr, arith, refl, sym, ap, Bool-cases, All, eq_text, text_eq_iff, Result-cases, ◌∙◌,
  subst,
}

-- the types that a client with a lease sends
abbrev pub Reattaches : Text → Type 0
Reattaches t = (t ≡ codes "CONFIRM") ⊎ (t ≡ codes "RENEW") ⊎ (t ≡ codes "REBIND")

-- where a list has an element
abbrev pub Has : List Dhcp6Msg → Dhcp6Msg → Type 0
Has msgs m = (before after : List Dhcp6Msg) × (msgs ≡ before ++ m ∷ after)

-- the first Reply of an exchange that grants an address
pub record FirstGrant (msgs : List Dhcp6Msg) (g : Dhcp6Msg) : Type 0 where
  pub before : List Dhcp6Msg
  pub after : List Dhcp6Msg
  pub split : msgs ≡ before ++ g ∷ after
  pub is_grant : granting g ≡ true
  pub earlier_not : All (λ m. granting m ≡ false) before

-- a Confirm, a Renew or a Rebind between the first grant and the settled read
pub record Attached (settled : ℕ) (x : Exchange) : Type 0 where
  pub grant : Dhcp6Msg
  pub again : Dhcp6Msg
  pub is_first : FirstGrant x.msgs grant
  pub sent : Has x.msgs again
  pub type : Reattaches again.type
  pub later : grant.at < again.at
  pub in_time : again.at ≤ settled

lease_at-FirstGrant :
    (msgs : List Dhcp6Msg) (t : ℕ)
    → lease_at msgs ≡ some t
    → (g : Dhcp6Msg) × FirstGrant msgs g × (g.at ≡ t)
unfolding lease_at
lease_at-FirstGrant [] t h = absurd (ground (arith, h))
lease_at-FirstGrant (m ∷ msgs) t h = elim (Bool-cases (granting m)) [
  | inl grants_it ↦ (
    m,
    record { before = []; after = msgs; split = refl; is_grant = grants_it; earlier_not = tt },
    ground (arith, h, grants_it),
  )
  | inr not_yet ↦
      let (g, f, e) = lease_at-FirstGrant msgs t (ground (arith, h, not_yet)) in
      (
        g,
        record {
          before = m ∷ f.before;
          after = f.after;
          split = ap (◌∷◌ m) f.split;
          is_grant = f.is_grant;
          earlier_not = (not_yet, f.earlier_not);
        },
        e,
      )
]

lease_at-append :
    (before after : List Dhcp6Msg) (g : Dhcp6Msg)
    → All (λ m. granting m ≡ false) before
    → granting g ≡ true
    → lease_at (before ++ g ∷ after) ≡ some g.at
unfolding lease_at
lease_at-append [] after g _ grants_it = ground (arith, grants_it)
lease_at-append (m ∷ before) after g (not_yet, rest) grants_it =
    ground (arith, not_yet, lease_at-append before after g rest grants_it)

-- a list without a grant has not_yet last one either
lease_at-some :
    (msgs : List Dhcp6Msg) (r : Dhcp6Msg)
    → last_granting none msgs ≡ some r
    → (t : ℕ) × (lease_at msgs ≡ some t)
unfolding lease_at last_granting
lease_at-some [] r h = absurd (ground (arith, h))
lease_at-some (m ∷ msgs) r h = elim (Bool-cases (granting m)) [
  | inl grants_it ↦ (m.at, ground (arith, grants_it))
  | inr not_yet ↦
      let (t, e) = lease_at-some msgs r (ground (arith, h, not_yet)) in
      (t, ground (arith, not_yet, e))
]

attaches-type :
    (t : ℕ) (end : ℕ) (m : Dhcp6Msg)
    → attaches (some t) end m ≡ true
    → Reattaches m.type × (t < m.at) × (m.at ≤ end)
unfolding attaches
attaches-type t end m h = (
  ground (
    arith,
    h,
    text_eq_iff m.type (codes "CONFIRM"),
    text_eq_iff m.type (codes "RENEW"),
    text_eq_iff m.type (codes "REBIND"),
  ),
  ground (arith, h),
  ground (arith, h),
)

type-attaches :
    (t : ℕ) (end : ℕ) (m : Dhcp6Msg)
    → Reattaches m.type
    → t < m.at
    → m.at ≤ end
    → (attaches (some t) end m && is_client6 m.type) ≡ true
unfolding attaches is_client6
type-attaches t end m c later le = ground (
  arith,
  c,
  later,
  le,
  text_eq_iff m.type (codes "CONFIRM"),
  text_eq_iff m.type (codes "RENEW"),
  text_eq_iff m.type (codes "REBIND"),
)

-- an element that a test over the kept elements finds, and back
any_kept :
    (p q : Dhcp6Msg → Bool) (msgs : List Dhcp6Msg)
    → any p (keep q msgs) ≡ true
    → (m : Dhcp6Msg) × Has msgs m × (p m ≡ true)
unfolding keep
any_kept p q [] h = absurd (ground (arith, h))
any_kept p q (m ∷ msgs) h = elim (Bool-cases (q m && p m)) [
  | inl both ↦ (m, ([], msgs, refl), ground (arith, both))
  | inr other ↦
      let (n, (before, after, e), found) =
        any_kept p q msgs (ground (arith, h, other, Bool-cases (q m))) in
      (n, (m ∷ before, after, ap (◌∷◌ m) e), found)
]

kept_any :
    (p q : Dhcp6Msg → Bool) (before after : List Dhcp6Msg) (m : Dhcp6Msg)
    → (p m && q m) ≡ true
    → any p (keep q (before ++ m ∷ after)) ≡ true
unfolding keep
kept_any p q [] after m h = ground (arith, h)
kept_any p q (n ∷ before) after m h =
    ground (arith, kept_any p q before after m h, Bool-cases (q n))

attaches-Attached :
    (end : ℕ) (x : Exchange)
    → last_granting none x.msgs ≡ some x.reply
    → any (attaches (lease_at x.msgs) end) (client x) ≡ true
    → Attached end x
unfolding client
attaches-Attached end x granted h =
    let (t, e) = lease_at-some x.msgs x.reply granted in
    let (g, f, at) = lease_at-FirstGrant x.msgs t e in
    let (m, sent, found) =
      any_kept (attaches (some t) end) (λ m. is_client6 m.type) x.msgs
        (subst (λ o. any (attaches o end) (keep (λ m. is_client6 m.type) x.msgs) ≡ true) e h) in
    let (type, later, le) = attaches-type t end m found in
    record {
      grant = g;
      again = m;
      is_first = f;
      sent = sent;
      type = type;
      later = omega (arith, at, later);
      in_time = le;
    }

Attached-attaches :
    (end : ℕ) (x : Exchange)
    → Attached end x
    → any (attaches (lease_at x.msgs) end) (client x) ≡ true
unfolding client
Attached-attaches end x a =
    let (before, after, e) = a.sent in
    let f = a.is_first in
    let at : lease_at x.msgs ≡ some a.grant.at =
      ap lease_at f.split ∙ lease_at-append f.before f.after a.grant f.earlier_not f.is_grant in
    let found =
      kept_any (attaches (some a.grant.at) end) (λ m. is_client6 m.type) before after a.again
        (type-attaches a.grant.at end a.again a.type a.later a.in_time) in
    subst (λ o. any (attaches o end) (keep (λ m. is_client6 m.type) x.msgs) ≡ true) (sym at)
      (subst (λ ms. any (attaches (some a.grant.at) end) (keep (λ m. is_client6 m.type) ms) ≡ true)
        (sym e) found)

-- `judgeD1Persistent` passes exactly when `judgeD1` does and the exchange has a Confirm, a Renew or a
-- Rebind that is later than its first granting Reply and not_yet later than the settled read.
pub judge_d1_persistent-pass_iff :
    (show : Addr → Text) (o : D1Obs)
    → ((judge_d1_persistent show o).result ≡ pass)
      ↔ ((x : Exchange) × Leased show o x × Attached (sampled o.settled) x)
unfolding judge_d1_persistent persistent_chain
judge_d1_persistent-pass_iff show o = (there, back)
  where
    there :
        (judge_d1_persistent show o).result ≡ pass
        → (x : Exchange) × Leased show o x × Attached (sampled o.settled) x
    there h =
        let (r, e) = (close-pass_iff (persistent_chain show o)).0 h in
        elim (Result-cases (exchange6 o.msgs)) [
          | inl (f, stops) ↦ absurd (ground (arith, e, stops))
          | inr (x, one) ↦ (
            x,
            d1_chain-Leased show o x r one (ground (arith, e, one)),
            attaches-Attached (sampled o.settled) x ((exchange6-ok_iff o.msgs x).0 one).granted
                (ground (arith, e, one)),
          )
        ]

    back :
        (x : Exchange) × Leased show o x × Attached (sampled o.settled) x
        → (judge_d1_persistent show o).result ≡ pass
    back (x, g, attached) = (close-pass_iff (persistent_chain show o)).1 (
      leased g.a x.duid,
      ground (
        arith,
        (exchange6-ok_iff o.msgs x).1 g.client,
        Attached-attaches (sampled o.settled) x attached,
        d1_chain_ok show o x g,
      ),
    )
