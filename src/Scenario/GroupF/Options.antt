-- ===== src/Scenario/GroupF/Options.antt =====
-- internal/scenario/groupf_wire.go and groupf_judge.go: `OptMsg` and what the group F judges ask of
-- a list of them. A message type is the text that the decoder prints.
pub mod Laws
use docker_net_dhcp_lab.Prelude.{
  eq_nat, ℕ, ◌%◌, ◌^◌, Bool, true, false, not, ◌&&◌, ◌||◌, Option, none, some, List, [], ◌∷◌, ◌++◌,
  Text, codes, ◌==◌, eq_text, lookup, if◌then◌else◌, length, nat_eq, any, ◌≡◌,
}
use docker_net_dhcp_lab.Scenario.Judging.{keep}

-- `OptMsg`; an absent option has no entry
pub record OptMsg : Type 0 where
  pub at : ℕ
  pub type : Text
  pub xid : Text
  pub opts : List (ℕ × Text)

abbrev pub is_some : {A : Type 0} → Option A → Bool
is_some none = false
is_some (some _) = true

-- `m.Opts[code]`
abbrev pub option_of : ℕ → OptMsg → Option Text
option_of code m = lookup code m.opts

-- `Has`
unfoldable pub has : OptMsg → ℕ → Bool
has m code = is_some (option_of code m)

-- the value that Go reads of a missing key
abbrev pub bytes_of : Option Text → Text
bytes_of none = []
bytes_of (some b) = b

abbrev pub is_discover : OptMsg → Bool
is_discover m = m.type == codes "DISCOVER"

abbrev pub is_offer : OptMsg → Bool
is_offer m = m.type == codes "OFFER"

abbrev pub is_request : OptMsg → Bool
is_request m = m.type == codes "REQUEST"

abbrev pub is_ack : OptMsg → Bool
is_ack m = m.type == codes "ACK"

abbrev pub is_client : OptMsg → Bool
is_client m = is_discover m || is_request m

-- `clientMsgs`
unfoldable pub client_msgs : List OptMsg → List OptMsg
client_msgs = keep is_client

-- `ofType`
unfoldable pub of_type : List OptMsg → Text → List OptMsg
of_type msgs type = keep (λ m. m.type == type) msgs

-- `len(ofType(msgs, type)) == 0`
unfoldable pub none_of : List OptMsg → Text → Bool
unfolding of_type
none_of msgs type = nat_eq (length (of_type msgs type)) 0

-- `userClassBytes`
unfoldable pub user_class_bytes : Text → Text
user_class_bytes class = length class % 2 ^ 8 ∷ class

-- `prlAsks`
unfoldable pub prl_asks : Text → ℕ → Bool
prl_asks [] code = false
prl_asks (b ∷ prl) code = nat_eq b code || prl_asks prl code

-- the first message that passes a test
unfoldable pub find_first : (OptMsg → Bool) → List OptMsg → Option OptMsg
find_first p [] = none
find_first p (m ∷ msgs) = if p m then some m else find_first p msgs

abbrev last_is : Text → List Text → Bool
last_is t [] = false
last_is t (u ∷ []) = u == t
last_is t (u ∷ v ∷ out) = last_is t (v ∷ out)

-- the loop of `collapse`, on what it has appended
unfoldable pub collapse_onto : List Text → List Text → List Text
collapse_onto out [] = out
collapse_onto out (t ∷ types) =
    if last_is t out then collapse_onto out types else collapse_onto (out ++ t ∷ []) types

-- `collapse`
unfoldable pub collapse : List Text → List Text
unfolding collapse_onto
collapse types = collapse_onto [] types

-- `strings.Join(words, " ")`
unfoldable pub join_words : List Text → Text
join_words [] = []
join_words (w ∷ []) = w
join_words (w ∷ v ∷ words) = w ++ b' ' ∷ join_words (v ∷ words)
