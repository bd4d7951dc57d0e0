-- ===== src/Tests/Coverage.antt =====
-- internal/coverage: IDs of the inventory and placements for them.
use docker_net_dhcp_lab.Coverage.Cutting.{strip, last_cut, split, cut}
use docker_net_dhcp_lab.Coverage.Ids.{
  env, single, alias, Term, VariantId, id_string, parse_id, name_ok, is_name, parse_term,
  parse_kind, parse_env, parse_terms, check_profile,
}
use docker_net_dhcp_lab.Coverage.Ids.Terms.{IsWritable}
use docker_net_dhcp_lab.Coverage.Ids.RoundTrip.{parse_id-id_string}
use docker_net_dhcp_lab.Coverage.Ids.Canonical.{IsMode, IsCanonical, single_id, alias_id}
use docker_net_dhcp_lab.Coverage.Ids.Matching.{matches, star}
use docker_net_dhcp_lab.Coverage.Ids.Matching.Laws.{IsLiteral}
use docker_net_dhcp_lab.Coverage.Placements.{
  Placement, Input, home_lab, covered, check_placement, ref_kind, lab_gated,
}
use docker_net_dhcp_lab.Coverage.Placements.Exact.{Exact}
use docker_net_dhcp_lab.Prelude.{
  ok, ◌≡◌, refl, true, [], ◌∷◌, arith, contains, Text, codes, text_eq, has_prefix, eq_text,
}

abbrev option_term : Term
option_term = record { opt = codes "ipam.lease_time"; val = codes "set" }

abbrev other_term : Term
other_term = record { opt = codes "ipam.hostname"; val = codes "on" }

option_term-IsWritable : IsWritable option_term
unfolding name_ok is_name
option_term-IsWritable = record { named = refl; valued = λ e. cc; plain = ground arith }

other_term-IsWritable : IsWritable other_term
unfolding name_ok is_name
other_term-IsWritable = record { named = refl; valued = λ e. cc; plain = ground arith }

abbrev macvlan : Text
macvlan = codes "macvlan"

macvlan-IsMode : IsMode macvlan
macvlan-IsMode = record { no_at = ground arith; no_bang = refl }

abbrev alias_of_two : VariantId
alias_of_two = record {
  kind = alias;
  a = option_term ∷ [];
  b = other_term ∷ [];
  mode = macvlan;
  profile = [];
}

alias_of_two-IsCanonical : IsCanonical alias_of_two
alias_of_two-IsCanonical =
    alias_id option_term other_term [] [] macvlan (option_term-IsWritable, tt)
      (other_term-IsWritable, tt) macvlan-IsMode

parse_id-id_string_example : parse_id (id_string alias_of_two) ≡ ok alias_of_two
parse_id-id_string_example = parse_id-id_string alias_of_two alias_of_two-IsCanonical

alias_of_two-IsLiteral : IsLiteral alias_of_two
alias_of_two-IsLiteral = record {
  first = ((λ e. cc, λ e. cc), tt);
  second = ((λ e. cc, λ e. cc), tt);
  mode_literal = λ e. cc;
  profile_literal = λ e. cc;
}

abbrev any_mode : VariantId
any_mode = record { kind = single; a = option_term ∷ []; b = []; mode = star; profile = [] }

abbrev one_mode : VariantId
one_mode = record any_mode { mode = macvlan }

any_mode-IsCanonical : IsCanonical any_mode
any_mode-IsCanonical =
    single_id option_term star option_term-IsWritable refl
      (record { no_at = ground arith; no_bang = refl })

one_mode-IsCanonical : IsCanonical one_mode
one_mode-IsCanonical = single_id option_term macvlan option_term-IsWritable refl macvlan-IsMode

covers_one_mode : matches any_mode one_mode ≡ true
unfolding matches text_eq
covers_one_mode = refl

abbrev lab_placement : Placement
lab_placement = record {
  match = codes "ipam.lease_time=set@*" ∷ [];
  home = home_lab;
  status = covered;
  ref = codes "B1";
  assert = codes "groupb.go:1";
  points = codes "start" ∷ codes "settled" ∷ [];
  start_na = [];
  reason = [];
  issue = [];
  also = [];
}

abbrev small_input : Input
small_input = record {
  variants = record { id = codes "ipam.lease_time=set@macvlan"; runtime = true } ∷ [];
  placements = lab_placement ∷ [];
  tests = [];
  lab = record { name = codes "B1"; needs = codes "vlan" ∷ [] } ∷ [];
  undeclared = [];
  mode_path = λ o. codes "shared";
}

placement_kept : check_placement small_input lab_placement ≡ []
unfolding check_placement text_eq contains has_prefix ref_kind lab_gated
placement_kept = refl

abbrev env_without_profile_text : VariantId
env_without_profile_text = record {
  kind = env;
  a = (record { opt = codes "a"; val = codes "1" }) ∷ [];
  b = [];
  mode = codes "bridge";
  profile = [];
}

-- the switch takes an env ID with nothing behind its `#`
empty_profile_parses : parse_id (codes "env:a=1@bridge#") ≡ ok env_without_profile_text
unfolding parse_id name_ok is_name text_eq parse_kind parse_env parse_terms parse_term check_profile
    strip last_cut split cut
empty_profile_parses = refl
