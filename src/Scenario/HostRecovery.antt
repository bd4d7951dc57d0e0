-- ===== src/Scenario/HostRecovery.antt =====
-- internal/scenario/hostrecover.go: `HostRecovery`, which power-cycles a docker host that does not
-- answer a gate, within a budget. The calls of virsh, of the runner and of the file system are
-- answers that a `Try` is given; the texts of the log and of the note are values.
pub mod Laws
use docker_net_dhcp_lab.Sourceadapter.Retry.{is_connect_error}
use docker_net_dhcp_lab.Prelude.{
  ℕ, ◌+◌, ◌≡◌, Bool, true, false, not, ◌&&◌, ◌||◌, Option, none, some, List, [], ◌∷◌, ◌++◌, leb,
  if◌then◌else◌, Text,
}

-- the last virsh command
pub data Action : Type 0 where
  reset start : Action

-- a note: the number of the reset, which is in the evidence path, and what was done
pub record Note : Type 0 where
  pub number : ℕ
  pub action : Action

-- `HostRecovery`
pub record Recovery : Type 0 where
  pub max : ℕ
  pub used : ℕ
  pub note : Option Note

-- What one `Try` meets: whether `virsh reset` and `virsh start` succeed, the polls of `waitBack`
-- until its deadline (did the boot id come, did docker answer), whether the evidence is written.
pub record Answers : Type 0 where
  pub reset_works : Bool
  pub start_works : Bool
  pub polls : List (Bool × Bool)
  pub written : Bool

-- what `TakeNote` leaves of a receiver that is not nil
unfoldable pub without_note : Recovery → Recovery
without_note h = record h { note = none }

-- `TakeNote`; a nil receiver is `none`
unfoldable pub take_note : Option Recovery → Option Note × Option Recovery
unfolding without_note
take_note none = (none, none)
take_note (some h) = (h.note, some (without_note h))

-- the loop of `waitBack`
unfoldable pub wait_back : List (Bool × Bool) → Bool
wait_back [] = false
wait_back ((ssh, docker) ∷ polls) = (ssh && docker) || wait_back polls

-- what the virsh commands did, `domstate` apart: which was the last, whether it worked, and all of
-- them in order
pub record Powered : Type 0 where
  pub action : Action
  pub works : Bool
  pub commands : List Action

unfoldable pub power_on : Answers → Powered
power_on w =
    if w.reset_works
    then record { action = reset; works = true; commands = reset ∷ [] }
    else record { action = start; works = w.start_works; commands = reset ∷ start ∷ [] }

-- `Try`: not tried, back with a note, or a reset that did not help
pub data Tried : Type 0 where
  not_tried : Tried
  back : Note → Tried
  lost : Action → Tried

-- a `Try`: its outcome, the virsh commands that it ran, and the state
pub record Trial : Type 0 where
  pub tried : Tried
  pub commands : List Action
  pub after : Recovery

-- the end of `Try`, on the number of this reset
unfoldable pub settle : Answers → Powered → Recovery → Trial
unfolding wait_back
settle w x h =
    if x.works && wait_back w.polls && w.written
    then record {
      tried = back (record { number = h.used; action = x.action });
      commands = x.commands;
      after = record h { note = some (record { number = h.used; action = x.action }) };
    }
    else record { tried = lost x.action; commands = x.commands; after = h }

abbrev pub is_connect : Option Text → Bool
is_connect none = false
is_connect (some e) = is_connect_error e

unfoldable pub try : Answers → Option Text → Recovery → Trial
unfolding settle power_on
try w gate_error h =
    if not (is_connect gate_error) || leb h.max h.used
    then record { tried = not_tried; commands = []; after = h }
    else settle w (power_on w) (record h { used = h.used + 1 })

-- the error of `Gate`: the gate's own, or joined with that of a reset
pub data GateError : Type 0 where
  plain : Text → GateError
  joined : Option Text → Action → GateError

-- what `Gate` returns, how often the gate ran, the virsh commands, and the state
pub record Gated : Type 0 where
  pub error : Option GateError
  pub runs : ℕ
  pub commands : List Action
  pub after : Recovery

abbrev plain_of : Option Text → Option GateError
plain_of none = none
plain_of (some e) = some (plain e)

finish : Option Text → Option Text → Tried → List Action → Recovery → Gated
finish first second not_tried cs h = record {
  error = plain_of first;
  runs = 1;
  commands = cs;
  after = h;
}
finish first second (back n) cs h = record {
  error = plain_of second;
  runs = 2;
  commands = cs;
  after = h;
}
finish first second (lost a) cs h = record {
  error = some (joined first a);
  runs = 1;
  commands = cs;
  after = h;
}

-- `Gate`, for the errors of the gate's first and second run
unfoldable pub gate : Answers → Option Text → Option Text → Recovery → Gated
unfolding finish try
gate w first second h = let t = try w first h in finish first second t.tried t.commands t.after

-- `Gate` of a nil receiver
unfoldable pub gate_nil : Option Text → Option GateError
gate_nil first = plain_of first

abbrev pub listed : Option Note → List Note
listed none = []
listed (some n) = n ∷ []

-- One step of a run, with the notes that it hands to a verdict and the virsh commands that it runs:
-- a gate, or a `TakeNote`.
pub data Step : Recovery → Recovery → List Note → List Action → Type 0 where
  gated :
      (w : Answers) (first second : Option Text) (h : Recovery)
      → Step h (gate w first second h).after [] (gate w first second h).commands
  taken : (h : Recovery) → Step h (without_note h) (listed (take_note (some h)).0) []

-- A run from one state to another, with the notes that its verdicts took and the virsh commands that
-- its gates ran, the latest first.
pub data Run (h : Recovery) : Recovery → List Note → List Action → Type 0 where
  begin : Run h h [] []
  then :
      (i j : Recovery) (ns ms : List Note) (cs ds : List Action)
      → Run h i ns cs
      → Step i j ms ds
      → Run h j (ms ++ ns) (ds ++ cs)
