-- ===== src/Scenario/Wire.antt =====
-- internal/scenario/capture.go and ledger.go, internal/sourceadapter/serverevents.go: one captured
-- message, one line of a server's log and one line of the plugin's ledger. A time is a number of
-- nanoseconds. The fields that no judge reads are left out.
use docker_net_dhcp_lab.Prelude.{ℕ, Bool, true, false, Text}

-- The message types that the capture and the servers print.
pub data MsgType : Type 0 where
  discover offer request ack nak decline release inform : MsgType
  other_type : Text → MsgType

-- `m.Type == "REQUEST"` and the like
abbrev pub is_request : MsgType → Bool
is_request request = true
is_request _ = false

abbrev pub is_ack : MsgType → Bool
is_ack ack = true
is_ack _ = false

-- `DHCPMsg`
pub record DhcpMsg : Type 0 where
  pub at : ℕ
  pub type : MsgType
  pub xid : Text
  pub server : Text
  pub requested : Text
  pub ciaddr : Text
  pub yiaddr : Text
  pub dst : Text

-- `ServerEvent`
pub record ServerEvent : Type 0 where
  pub at : ℕ
  pub type : MsgType
  pub mac : Text
  pub ip : Text
  pub tid : Text

-- `LedgerEntry`
pub record LedgerEntry : Type 0 where
  pub kind : Text
  pub ip : Text
