-- ===== src/Scenario/GroupD/Exchange6.antt =====
-- internal/scenario/groupd_judge.go: `exchange6`, the messages of the one client of a capture and
-- the Reply that granted it an address.
pub mod Laws
use docker_net_dhcp_lab.Scenario.GroupF.Options.{collapse}
use docker_net_dhcp_lab.Scenario.Judging.{keep, Halt, fails, blocks}
use docker_net_dhcp_lab.Scenario.GroupD.Wire6.{Dhcp6Msg, has_addr}
use docker_net_dhcp_lab.Prelude.{
  ℕ, Option, List, Text, Result, ◌∷◌, Bool, not, map, ◌==◌, ◌&&◌, [], codes, err, eq_text, ◌||◌,
  length, need, none, ◌>>=◌, ok, some, ◌++◌, ltb, if◌then◌else◌, contains,
}

pub data Reason : Type 0 where
  no_message : ℕ → Reason
  several_clients : List Text → Reason
  none_granted : Text → List Text → Reason

-- `d6Exchange` of an exchange with its Reply
pub record Exchange : Type 0 where
  pub duid : Text
  pub msgs : List Dhcp6Msg
  pub reply : Dhcp6Msg

-- `isClient6`
unfoldable pub is_client6 : Text → Bool
is_client6 t =
    t == codes "SOLICIT"
    || t == codes "REQUEST"
    || t == codes "CONFIRM"
    || t == codes "RENEW"
    || t == codes "REBIND"
    || t == codes "RELEASE"
    || t == codes "DECLINE"
    || t == codes "INFORMATION-REQUEST"

-- `asksForAddress6`
unfoldable pub asks_for_address6 : Text → Bool
unfolding is_client6
asks_for_address6 t = not (t == codes "INFORMATION-REQUEST") && is_client6 t

-- the client messages that name a DUID
unfoldable pub names_client : Dhcp6Msg → Bool
unfolding is_client6
names_client m = is_client6 m.type && not (m.client_duid == [])

-- `duids`, on what the loop has appended
unfoldable pub duids_onto : List Text → List Dhcp6Msg → List Text
unfolding names_client
duids_onto seen [] = seen
duids_onto seen (m ∷ msgs) =
    if names_client m && not (contains seen m.client_duid)
    then duids_onto (seen ++ m.client_duid ∷ []) msgs
    else duids_onto seen msgs

-- `sort.SliceStable` by time: `place` puts a message before the later ones and those of its time
unfoldable pub place : Dhcp6Msg → List Dhcp6Msg → List Dhcp6Msg
place m [] = m ∷ []
place m (n ∷ msgs) = if ltb n.at m.at then n ∷ place m msgs else m ∷ n ∷ msgs

unfoldable pub by_time : List Dhcp6Msg → List Dhcp6Msg
unfolding place
by_time [] = []
by_time (m ∷ msgs) = place m (by_time msgs)

-- a Reply that grants an address
unfoldable pub granting : Dhcp6Msg → Bool
unfolding has_addr
granting m = m.type == codes "REPLY" && has_addr m.na

-- `x.Reply` and `x.HasReply`: the last one
unfoldable pub last_granting : Option Dhcp6Msg → List Dhcp6Msg → Option Dhcp6Msg
last_granting found [] = found
last_granting found (m ∷ msgs) =
    if granting m then last_granting (some m) msgs else last_granting found msgs

-- `client`
unfoldable pub client : Exchange → List Dhcp6Msg
client x = keep (λ m. is_client6 m.type) x.msgs

-- `types` of an exchange's messages
unfoldable pub types : List Dhcp6Msg → List Text
types msgs = collapse (map (λ m. m.type) msgs)

-- the messages of one DUID, in the order of time
unfoldable pub msgs_of : Text → List Dhcp6Msg → List Dhcp6Msg
msgs_of duid msgs = by_time (keep (λ m. m.client_duid == duid) msgs)

unfoldable pub exchange_of : List Dhcp6Msg → List Text → Result (Halt Reason) Exchange
unfolding types
exchange_of msgs [] = err (fails (no_message (length msgs)))
exchange_of msgs (duid ∷ []) =
    need (last_granting none (msgs_of duid msgs))
      (fails (none_granted duid (types (msgs_of duid msgs))))
    >>= λ reply. ok (record { duid = duid; msgs = msgs_of duid msgs; reply = reply })
exchange_of msgs (duid ∷ other ∷ duids) = err (blocks (several_clients (duid ∷ other ∷ duids)))

-- `exchange6`
unfoldable pub exchange6 : List Dhcp6Msg → Result (Halt Reason) Exchange
unfolding exchange_of
exchange6 msgs = exchange_of msgs (duids_onto [] msgs)
