-- ===== src/Scenario/GroupE/Tally/Laws.antt =====
-- internal/scenario/groupe_judge.go: a release that a relay's copy repeats is counted once.
use docker_net_dhcp_lab.Prelude.{
  ℕ, eq_pair, ◌+◌, ◌≡◌, refl, Bool, true, false, not, ◌&&◌, List, [], ◌∷◌, ◌++◌, arith, length,
  ◌==◌, contains, Text, eq_text, if◌then◌else◌, length-append,
}
use docker_net_dhcp_lab.Scenario.Wire.{MsgType, ack, release, ServerEvent}
use docker_net_dhcp_lab.Scenario.GroupE.Tally.{
  Tally, release_key, tally_type, tally_from, tally_init, e_tally,
}

abbrev is_release : MsgType → Bool
is_release release = true
is_release _ = false

-- a RELEASE line that names its transaction
abbrev pub keyed_release : ServerEvent → Bool
keyed_release ev = is_release ev.type && not (ev.tid == [])

-- a RELEASE line with no transaction, each of which is one release
abbrev pub bare_release : ServerEvent → Bool
bare_release ev = is_release ev.type && ev.tid == []

-- The distinct keys of the RELEASE lines that name their transaction, after `seen`.
unfoldable pub distinct_keys : List (Text × Text) → List ServerEvent → List (Text × Text)
distinct_keys seen [] = seen
distinct_keys seen (ev ∷ evs) =
    distinct_keys
      (if keyed_release ev && not (contains seen (release_key ev))
        then seen ++ release_key ev ∷ []
        else seen)
      evs

unfoldable pub count_if {ℓ} : {A : Type ℓ} → (A → Bool) → List A → ℕ
count_if p [] = 0
count_if p (x ∷ xs) = (if p x then 1 else 0) + count_if p xs

-- what one line adds
tally_type-seen :
    (k : MsgType) (t : Tally) (ev : ServerEvent)
    → (tally_type k t ev).seen ≡ (
        if (is_release k && not (ev.tid == [])) && not (contains t.seen (release_key ev))
        then t.seen ++ release_key ev ∷ []
        else t.seen)
unfolding tally_type
tally_type-seen ack t ev = refl
tally_type-seen _ t ev = ground arith

tally_type-releases :
    (k : MsgType) (t : Tally) (ev : ServerEvent)
    → (tally_type k t ev).releases + length t.seen
      ≡ t.releases
        + length (tally_type k t ev).seen
        + (if is_release k && ev.tid == [] then 1 else 0)
unfolding tally_type
tally_type-releases ack t ev = omega arith
tally_type-releases _ t ev = ground (arith, length-append t.seen (release_key ev ∷ []))

tally_from-releases :
    (t : Tally) (evs : List ServerEvent)
    → (tally_from t evs).releases + length t.seen
      ≡ t.releases + length (distinct_keys t.seen evs) + count_if bare_release evs
unfolding tally_from distinct_keys count_if
tally_from-releases t [] = omega arith
tally_from-releases t (ev ∷ evs) = rw (← tally_type-seen ev.type t ev) (
    omega
      (arith, tally_type-releases ev.type t ev, tally_from-releases (tally_type ev.type t ev) evs))

-- The releases counted are the distinct (transaction, hardware address) keys of the RELEASE lines
-- that name a transaction, and each RELEASE line that names none.
pub e_tally-releases :
    (evs : List ServerEvent)
    → (e_tally evs).releases ≡ length (distinct_keys [] evs) + count_if bare_release evs
unfolding e_tally
e_tally-releases evs = omega (arith, tally_from-releases tally_init evs)
