-- ===== src/Scenario/GroupD/Rapid6/Laws.antt =====
-- `judgeF4Wire` against the exchanges of RFC 8415.
use docker_net_dhcp_lab.Scenario.Judging.{check_each-keep_iff_of, close-pass_iff}
use docker_net_dhcp_lab.Scenario.Outcome.{pass}
use docker_net_dhcp_lab.Scenario.GroupD.Wire6.{Dhcp6Msg}
use docker_net_dhcp_lab.Scenario.GroupD.Exchange6.{Exchange, types, client, is_client6}
use docker_net_dhcp_lab.Prelude.{
  List, Bool, text_eq, Text, All, ◌≡◌, inl, inr, true, ◌⊎◌, ok, ◌↔◌, ◌&&◌, ◌++◌, subst, any, arith,
  refl, ap, false, [], ◌∷◌, Bool-cases, text_eq_iff,
}
use docker_net_dhcp_lab.Scenario.GroupD.Rapid6.{
  check_14, judge_f4_wire, texts_eq, split_confirm, f4_lease, f4_chain, two, Reason, four,
  is_solicit, confirmation, two_messages, four_messages,
}

pub texts_eq_iff : (ss ts : List Text) → (texts_eq ss ts ≡ true) ↔ (ss ≡ ts)
unfolding texts_eq
texts_eq_iff [] [] = ground arith
texts_eq_iff [] (t ∷ ts) = ground arith
texts_eq_iff (s ∷ ss) [] = ground arith
texts_eq_iff (s ∷ ss) (t ∷ ts) = ground (arith, text_eq_iff s t, texts_eq_iff ss ts)

-- a sequence, or one with the Confirm and its Reply at the end
abbrev pub EndsAs : List Text → List Text → Type 0
EndsAs seq lease = (seq ≡ lease) ⊎ (seq ≡ lease ++ confirmation)

split_confirm-EndsAs : (seq : List Text) → EndsAs seq (split_confirm seq).0
unfolding split_confirm
split_confirm-EndsAs [] = inl refl
split_confirm-EndsAs (t ∷ ts) = elim (Bool-cases (texts_eq (t ∷ ts) confirmation)) [
  | inl last ↦ rw last (inr ((texts_eq_iff (t ∷ ts) confirmation).0 last))
  | inr more ↦
      rw more
        (elim (split_confirm-EndsAs ts) [ inl e ↦ inl (ap (◌∷◌ t) e) | inr e ↦ inr (ap (◌∷◌ t) e) ])
]

split_two : (seq : List Text) → EndsAs seq two → (split_confirm seq).0 ≡ two
unfolding split_confirm texts_eq text_eq
split_two seq (inl e) = rw e refl
split_two seq (inr e) = rw e refl

split_four : (seq : List Text) → EndsAs seq four → (split_confirm seq).0 ≡ four
unfolding split_confirm texts_eq text_eq
split_four seq (inl e) = rw e refl
split_four seq (inr e) = rw e refl

-- the sequence that the versions of both sides call for
abbrev pub Steps : Bool → Exchange → Type 0
Steps true x = EndsAs (types x.msgs) two × (x.reply.rapid ≡ true)
Steps false x = EndsAs (types x.msgs) four

-- every Solicit carries option 14 as it must, there is one, and the sequence is right
pub record RapidExchange (present server_rapid : Bool) (x : Exchange) : Type 0 where
  pub option_14 :
      All (λ m. is_client6 m.type ≡ true → is_solicit m ≡ true → m.rapid ≡ present) x.msgs
  pub solicited : any is_solicit (client x) ≡ true
  pub steps : Steps (present && server_rapid) x

check_14-ok_iff :
    (present : Bool) (seq : List Text) (m : Dhcp6Msg)
    → (check_14 present seq m ≡ ok tt) ↔ (is_solicit m ≡ true → m.rapid ≡ present)
unfolding check_14
check_14-ok_iff true seq m = ground arith
check_14-ok_iff false seq m = ground arith

abbrev LeasePart : Bool → Exchange → List Text → Type 0
LeasePart true x lease = (lease ≡ two) × (x.reply.rapid ≡ true)
LeasePart false x lease = lease ≡ four

LeasePart-Steps_iff :
    (b : Bool) (x : Exchange) → LeasePart b x (split_confirm (types x.msgs)).0 ↔ Steps b x
LeasePart-Steps_iff true x =
    let ends = split_confirm-EndsAs (types x.msgs) in
    (
      (λ (e, rapid). (subst (EndsAs (types x.msgs)) e ends, rapid)),
      λ (s, rapid). (split_two (types x.msgs) s, rapid),
    )
LeasePart-Steps_iff false x =
    let ends = split_confirm-EndsAs (types x.msgs) in
    ((λ e. subst (EndsAs (types x.msgs)) e ends), split_four (types x.msgs))

f4_lease-ok_iff :
    (present server_rapid : Bool) (x : Exchange) (s : List Text × Bool)
    → ((r : Reason) × (f4_lease present server_rapid x (types x.msgs) s ≡ ok r))
      ↔ LeasePart (present && server_rapid) x s.0
unfolding f4_lease
f4_lease-ok_iff true true x (lease, confirm) = (
  (λ (r, h). (ground (arith, h, texts_eq_iff lease two), ground (arith, h))),
  λ g. (two_messages confirm, ground (arith, g, texts_eq_iff lease two)),
)
f4_lease-ok_iff true false x (lease, confirm) = (
  (λ (r, h). ground (arith, h, texts_eq_iff lease four)),
  λ g. (four_messages true confirm, ground (arith, g, texts_eq_iff lease four)),
)
f4_lease-ok_iff false server x (lease, confirm) = (
  (λ (r, h). ground (arith, h, texts_eq_iff lease four)),
  λ g. (four_messages false confirm, ground (arith, g, texts_eq_iff lease four)),
)

-- `judgeF4Wire` passes exactly when every Solicit of the client carries option 14 if and only if the
-- plugin has the feature, there is a Solicit, and the messages are the two of rapid commit, with
-- option 14 in the Reply, when the server knows it as well, and the usual four otherwise; one Confirm
-- and its Reply may follow.
pub judge_f4_wire-pass_iff :
    (present server_rapid : Bool) (x : Exchange)
    → ((judge_f4_wire present server_rapid x).result ≡ pass) ↔ RapidExchange present server_rapid x
unfolding judge_f4_wire f4_chain client
judge_f4_wire-pass_iff present server_rapid x =
    let seq = types x.msgs in
    let asks =
      check_each-keep_iff_of (check_14 present seq) (λ m. is_client6 m.type) x.msgs
        (check_14-ok_iff present seq) in
    let lease = f4_lease-ok_iff present server_rapid x (split_confirm seq) in
    let steps = LeasePart-Steps_iff (present && server_rapid) x in
    (
      (λ h.
          let (r, e) = (close-pass_iff (f4_chain present server_rapid x)).0 h in
          record {
            option_14 = asks.0 (ground (arith, e));
            solicited = ground (arith, e);
            steps = steps.0 (lease.0 (r, ground (arith, e)));
          }),
      λ g.
          let (r, e) = lease.1 (steps.1 g.steps) in
          (close-pass_iff (f4_chain present server_rapid x)).1
            (r, ground (arith, e, g.solicited, asks.1 g.option_14)),
    )
