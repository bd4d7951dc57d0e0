-- ===== src/Scenario/GroupF/Options/Laws.antt =====
-- What the list operations of Options find, in terms of the whole capture.
use docker_net_dhcp_lab.Prelude.{
  true, not, List, [], ◌∷◌, Text, codes, ◌==◌, eq_text, any, ◌≡◌, refl, arith,
}
use docker_net_dhcp_lab.Scenario.Judging.{keep}
use docker_net_dhcp_lab.Scenario.GroupF.Options.{
  OptMsg, is_client, is_discover, is_request, client_msgs, of_type, none_of,
}

pub none_of-any :
    (msgs : List OptMsg) (t : Text) → none_of msgs t ≡ not (any (λ m. m.type == t) msgs)
unfolding none_of of_type keep
none_of-any [] t = refl
none_of-any (m ∷ msgs) t = ground (arith, none_of-any msgs t)

pub none_of-client_msgs :
    (t : Text) (client : (m : OptMsg) → (m.type == t) ≡ true → is_client m ≡ true)
    (msgs : List OptMsg)
    → none_of (client_msgs msgs) t ≡ not (any (λ m. m.type == t) msgs)
unfolding none_of of_type client_msgs keep
none_of-client_msgs t client [] = refl
none_of-client_msgs t client (m ∷ msgs) =
    ground (arith, client m, none_of-client_msgs t client msgs)

pub no_discover :
    (msgs : List OptMsg)
    → none_of (client_msgs msgs) (codes "DISCOVER") ≡ not (any is_discover msgs)
no_discover msgs = none_of-client_msgs (codes "DISCOVER") (λ m h. rw h refl) msgs

pub no_request :
    (msgs : List OptMsg) → none_of (client_msgs msgs) (codes "REQUEST") ≡ not (any is_request msgs)
no_request msgs = none_of-client_msgs (codes "REQUEST") (λ m h. ground (arith, h)) msgs
