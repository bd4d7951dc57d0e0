-- ===== src/Scenario/GroupD/NoRouter/Laws.antt =====
-- `judgeD1c` against the plugin's reference on networks where DHCPv6 offers no address.
use docker_net_dhcp_lab.Scenario.GroupD.NoRouter.{
  judge_d1c, first_on_link, d1c_end, d1c_chain, Reason, granted_by, solicits, without_address,
  still_answered,
}
use docker_net_dhcp_lab.Scenario.GroupD.Link.Laws.{OnlyAllowed, leftover-none_iff}
use docker_net_dhcp_lab.Scenario.GroupD.Link.{find_addr6, leftover}
use docker_net_dhcp_lab.Scenario.GroupD.Wire6.{Addr6, Dhcp6Msg}
use docker_net_dhcp_lab.Scenario.Judging.{close-pass_iff}
use docker_net_dhcp_lab.Scenario.Outcome.{pass}
use docker_net_dhcp_lab.Labyaml.Netip.{Addr}
use docker_net_dhcp_lab.Prelude.{
  Option, none, some, List, [], ◌∷◌, ◌++◌, All, ◌≡◌, refl, ap, ◌↔◌, Text, ok, inl, inr,
  Option-cases, text_eq_iff, arith, ℕ, subst,
}

-- the first of the granted addresses that the link holds
pub record FirstHeld (settled : List Addr6) (granted : List Addr) (a : Addr) : Type 0 where
  pub before : List Addr
  pub after : List Addr
  pub split : granted ≡ before ++ a ∷ after
  pub not_held : All (λ g. find_addr6 settled g ≡ none) before
  pub held : (s : Addr6) × (find_addr6 settled a ≡ some s)

first_on_link-FirstHeld :
    (settled : List Addr6) (granted : List Addr) (a : Addr)
    → first_on_link settled granted ≡ some a
    → FirstHeld settled granted a
unfolding first_on_link
first_on_link-FirstHeld settled [] a h = absurd (ground (arith, h))
first_on_link-FirstHeld settled (g ∷ gs) a h = elim (Option-cases (find_addr6 settled g)) [
  | inl gone ↦
      (let f = first_on_link-FirstHeld settled gs a (ground (arith, h, gone)) in
        record {
          before = g ∷ f.before;
          after = f.after;
          split = ap (◌∷◌ g) f.split;
          not_held = (gone, f.not_held);
          held = f.held;
        })
  | inr (s, still) ↦
      (let same : g ≡ a = ground (arith, h, still) in
        record {
          before = [];
          after = gs;
          split = ap (λ b. b ∷ gs) same;
          not_held = tt;
          held = (s, subst (λ b. find_addr6 settled b ≡ some s) same still);
        })
]

first_on_link-append :
    (settled : List Addr6) (before after : List Addr) (a : Addr) (s : Addr6)
    → All (λ g. find_addr6 settled g ≡ none) before
    → find_addr6 settled a ≡ some s
    → first_on_link settled (before ++ a ∷ after) ≡ some a
unfolding first_on_link
first_on_link-append settled [] after a s _ still = rw (still, first_on_link) refl
first_on_link-append settled (g ∷ before) after a s (gone, rest) still =
    rw (gone, first_on_link) (first_on_link-append settled before after a s rest still)

FirstHeld-first_on_link :
    (settled : List Addr6) (granted : List Addr) (a : Addr)
    → FirstHeld settled granted a
    → first_on_link settled granted ≡ some a
FirstHeld-first_on_link settled granted a f =
    rw f.split (first_on_link-append settled f.before f.after a f.held.0 f.not_held f.held.1)

-- docker inspect shows no address without a grant, else the first granted one that the link holds
abbrev pub Inspected : (Addr → Text) → List Addr6 → Text → List Addr → Type 0
Inspected show settled inspect [] = inspect ≡ []
Inspected show settled inspect (g ∷ gs) =
    (a : Addr) × FirstHeld settled (g ∷ gs) a × (inspect ≡ show a)

d1c_end-ok_iff :
    (show : Addr → Text) (n : ℕ) (settled : List Addr6) (inspect : Text) (granted : List Addr)
    → ((r : Reason) × (d1c_end show n settled inspect granted ≡ ok r))
      ↔ Inspected show settled inspect granted
unfolding d1c_end
d1c_end-ok_iff show n settled inspect [] = (
  (λ (r, h). ground (arith, h, text_eq_iff inspect [])),
  λ e. (without_address n, ground (arith, e, text_eq_iff inspect [])),
)
d1c_end-ok_iff show n settled inspect (g ∷ gs) = (
  (λ (r, h). elim (Option-cases (first_on_link settled (g ∷ gs))) [
    | inl gone ↦ absurd (ground (arith, h, gone))
    | inr (a, e) ↦ (
      a,
      first_on_link-FirstHeld settled (g ∷ gs) a e,
      ground (arith, h, e, text_eq_iff inspect (show a)),
    )
  ]),
  λ (a, f, e). (
    still_answered a n,
    ground (arith, FirstHeld-first_on_link settled (g ∷ gs) a f, e, text_eq_iff inspect (show a)),
  ),
)

-- `judgeD1c` passes exactly when the container started, every global address on its link was granted
-- by a Reply, and docker inspect shows the first granted address that the link holds, or none where
-- no Reply granted one.
pub judge_d1c-pass_iff :
    (show : Addr → Text) (start : Option Text) (msgs : List Dhcp6Msg) (settled : List Addr6)
    (inspect : Text)
    → ((judge_d1c show start msgs settled inspect).result ≡ pass) ↔ (
        (start ≡ none)
        × OnlyAllowed (granted_by msgs) settled
        × Inspected show settled inspect (granted_by msgs))
unfolding judge_d1c d1c_chain
judge_d1c-pass_iff show (some e) msgs settled inspect =
    (λ h. absurd (ground (arith, h)), λ (s, _, _). absurd (ground (arith, s)))
judge_d1c-pass_iff show none msgs settled inspect =
    let granted = granted_by msgs in
    let shown = d1c_end-ok_iff show (solicits msgs) settled inspect granted in
    let chain = d1c_chain show none msgs settled inspect in
    let only = leftover-none_iff settled granted in
    (
      (λ h.
          let (r, e) = (close-pass_iff chain).0 h in
          elim (Option-cases (leftover settled granted)) [
            | inl clean ↦ (refl, only.0 clean, shown.0 (r, ground (arith, e, clean)))
            | inr (extra, bad) ↦ absurd (ground (arith, e, bad))
          ]),
      λ (_, allowed, i).
          let (r, e) = shown.1 i in (close-pass_iff chain).1 (r, ground (arith, e, only.1 allowed)),
    )
