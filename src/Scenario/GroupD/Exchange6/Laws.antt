-- ===== src/Scenario/GroupD/Exchange6/Laws.antt =====
-- `exchange6` takes the messages of one client, and only where the capture shows one.
use docker_net_dhcp_lab.Scenario.Judging.{keep, Halt}
use mathlib.Core.List.{Perm}
use mathlib.Core.List.Perm
use docker_net_dhcp_lab.Scenario.GroupD.Wire6.{Dhcp6Msg}
use docker_net_dhcp_lab.Scenario.GroupD.Exchange6.{
  duids_onto, names_client, place, by_time, Exchange, exchange6, msgs_of, exchange_of,
  last_granting, Reason,
}
use docker_net_dhcp_lab.Prelude.{
  Text, contains, List, any, ◌≡◌, All, [], Bool, ◌∷◌, ◌||◌, true, arith, ◌&&◌, All_map, text_eq_iff,
  ◌==◌, text_eq_self, Bool-cases, inr, refl, inl, eq_text, ◌++◌, contains-append, contains_single,
  ◌≤◌, sym, ◌↔◌, none, some, Option-cases, ok_inj, ltb, ok,
}

-- a client message that names a DUID
abbrev pub names : Text → Dhcp6Msg → Bool
names duid m = names_client m && m.client_duid == duid

-- every client message names this DUID, and some message does
abbrev pub Sole : Text → List Dhcp6Msg → Type 0
Sole duid msgs =
    All (λ m. names_client m ≡ true → m.client_duid ≡ duid) msgs × (any (names duid) msgs ≡ true)

contains-duids_onto :
    (seen : List Text) (msgs : List Dhcp6Msg) (d : Text)
    → contains (duids_onto seen msgs) d ≡ (contains seen d || any (names d) msgs)
unfolding duids_onto
contains-duids_onto seen [] d = ground arith
contains-duids_onto seen (m ∷ msgs) d = elim (Bool-cases (names_client m)) [
  | inr quiet ↦ ground (arith, quiet, contains-duids_onto seen msgs d)
  | inl named ↦ elim (Bool-cases (contains seen m.client_duid)) [
    | inl old ↦
        ground (arith, named, old, contains-duids_onto seen msgs d, text_eq_iff m.client_duid d)
    | inr new ↦ ground (
      arith,
      named,
      new,
      contains-duids_onto (seen ++ m.client_duid ∷ []) msgs d,
      contains-append seen (m.client_duid ∷ []) d,
      contains_single m.client_duid d,
    )
  ]
]

named_of_any :
    (msgs : List Dhcp6Msg) (duids : List Text)
    → ((d : Text) → any (names d) msgs ≡ true → contains duids d ≡ true)
    → All (λ m. names_client m ≡ true → contains duids m.client_duid ≡ true) msgs
named_of_any [] duids h = tt
named_of_any (m ∷ msgs) duids h = (
  λ named. h m.client_duid (ground (arith, named, text_eq_self m.client_duid)),
  named_of_any msgs duids (λ d e. h d (ground (arith, e))),
)

only_one : (msgs : List Dhcp6Msg) (d : Text) → duids_onto [] msgs ≡ d ∷ [] → Sole d msgs
unfolding contains
only_one msgs d h = (
  All_map (λ m e named. ground (arith, e named, text_eq_iff d m.client_duid)) msgs
      (named_of_any msgs (d ∷ []) (λ c e. ground (arith, e, h, contains-duids_onto [] msgs c))),
  ground (arith, h, contains-duids_onto [] msgs d, text_eq_self d),
)

stays_one :
    (msgs : List Dhcp6Msg) (d : Text)
    → All (λ m. names_client m ≡ true → m.client_duid ≡ d) msgs
    → duids_onto (d ∷ []) msgs ≡ d ∷ []
unfolding duids_onto contains
stays_one [] d h = refl
stays_one (m ∷ msgs) d (h, hs) =
    ground (arith, h, text_eq_iff d m.client_duid, text_eq_self d, stays_one msgs d hs)

one_of_Sole : (msgs : List Dhcp6Msg) (d : Text) → Sole d msgs → duids_onto [] msgs ≡ d ∷ []
unfolding duids_onto contains
one_of_Sole [] d (_, h) = ground (arith, h)
one_of_Sole (m ∷ msgs) d ((h, hs), e) = elim (Bool-cases (names_client m)) [
  | inl named ↦ ground (arith, named, h named, stays_one msgs d hs)
  | inr quiet ↦ ground (arith, quiet, e, one_of_Sole msgs d)
]

-- the messages of the only client, in the order of time, and the last Reply that grants an address
pub record OneClient (msgs : List Dhcp6Msg) (x : Exchange) : Type 0 where
  pub sole : Sole x.duid msgs
  pub ordered : x.msgs ≡ msgs_of x.duid msgs
  pub granted : last_granting none x.msgs ≡ some x.reply

exchange_of-ok :
    (msgs : List Dhcp6Msg) (duids : List Text) (x : Exchange)
    → exchange_of msgs duids ≡ ok x
    → (duids ≡ x.duid ∷ [])
      × (x.msgs ≡ msgs_of x.duid msgs)
      × (last_granting none x.msgs ≡ some x.reply)
unfolding exchange_of
exchange_of-ok msgs [] x h = absurd (ground (arith, h))
exchange_of-ok msgs (d ∷ []) x h = elim (Option-cases (last_granting none (msgs_of d msgs))) [
  | inl never ↦ absurd (ground (arith, h, never))
  | inr (r, last) ↦
      let same : record { duid = d; msgs = msgs_of d msgs; reply = r } ≡ x =
        ok_inj {E = Halt Reason} (ground (arith, h, last)) in
      rw (sym same) (refl, refl, last)
]
exchange_of-ok msgs (d ∷ e ∷ ds) x h = absurd (ground (arith, h))

exchange_of_ok :
    (msgs : List Dhcp6Msg) (x : Exchange) → OneClient msgs x → exchange_of msgs (x.duid ∷ []) ≡ ok x
unfolding exchange_of
exchange_of_ok msgs x g = rw (sym g.ordered, g.granted) refl

-- `exchange6` succeeds exactly with the exchange of the only client of the capture: every client
-- message that names a DUID names this one, its messages are those of the DUID in the order of time,
-- and the Reply is the last that grants an address.
pub exchange6-ok_iff :
    (msgs : List Dhcp6Msg) (x : Exchange) → (exchange6 msgs ≡ ok x) ↔ OneClient msgs x
unfolding exchange6
exchange6-ok_iff msgs x = (
  (λ h.
      let (one, ordered, granted) = exchange_of-ok msgs (duids_onto [] msgs) x h in
      record { sole = only_one msgs x.duid one; ordered = ordered; granted = granted }),
  λ g. rw (one_of_Sole msgs x.duid g.sole) (exchange_of_ok msgs x g),
)

-- the order of the times
abbrev pub IsSorted : List Dhcp6Msg → Type 0
IsSorted [] = Unit
IsSorted (m ∷ []) = Unit
IsSorted (m ∷ n ∷ msgs) = (m.at ≤ n.at) × IsSorted (n ∷ msgs)

place-IsSorted : (m : Dhcp6Msg) (msgs : List Dhcp6Msg) → IsSorted msgs → IsSorted (place m msgs)
unfolding place
place-IsSorted m [] h = tt
place-IsSorted m (n ∷ []) h = ground arith
place-IsSorted m (n ∷ o ∷ msgs) (le, h) = ground (arith, place-IsSorted m (o ∷ msgs) h)

place-Perm : (m : Dhcp6Msg) (msgs : List Dhcp6Msg) → Perm (m ∷ msgs) (place m msgs)
unfolding place
place-Perm m [] = Perm.refl _
place-Perm m (n ∷ msgs) = elim (Bool-cases (ltb n.at m.at)) [
  | inl later ↦ rw later (Perm.trans (Perm.swap n m msgs) (Perm.cons n (place-Perm m msgs)))
  | inr sooner ↦ rw sooner (Perm.refl (m ∷ n ∷ msgs))
]

by_time-IsSorted : (msgs : List Dhcp6Msg) → IsSorted (by_time msgs)
unfolding by_time
by_time-IsSorted [] = tt
by_time-IsSorted (m ∷ msgs) = place-IsSorted m (by_time msgs) (by_time-IsSorted msgs)

by_time-Perm : (msgs : List Dhcp6Msg) → Perm msgs (by_time msgs)
unfolding by_time
by_time-Perm [] = Perm.refl []
by_time-Perm (m ∷ msgs) = Perm.trans (Perm.cons m (by_time-Perm msgs)) (place-Perm m (by_time msgs))

-- The messages of an exchange are those of its DUID, rearranged into the order of time.
pub exchange6-ordered :
    (msgs : List Dhcp6Msg) (x : Exchange)
    → exchange6 msgs ≡ ok x
    → IsSorted x.msgs × Perm (keep (λ m. m.client_duid == x.duid) msgs) x.msgs
unfolding msgs_of
exchange6-ordered msgs x h =
    let g = (exchange6-ok_iff msgs x).0 h in rw g.ordered (by_time-IsSorted _, by_time-Perm _)
