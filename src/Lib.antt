-- ===== src/Lib.antt =====
-- docker-net-dhcp-lab: the decisions that the lab makes without touching a machine. Four Go packages
-- are modelled, in part, from their sources.
--
-- internal/scenario: the judges of the scenarios. A judge is a pure function from what was observed
--   (the captured messages, the DHCP server's log, the plugin's ledger and counters) to a reading and
--   a reason. Scenario/Outcome.antt is the readings (verdict.go, groupf_judge.go) and
--   Scenario/Judging.antt a judge as a chain of tests, each of which may return early.
--   Scenario/Wire.antt is the observed records of groups E and F (capture.go, ledger.go,
--   internal/sourceadapter/serverevents.go).
--   Group E (groupe_judge.go): Scenario/GroupE/Exchange.antt is `wireExchanges`, Windows.antt
--   `windowGroups` and `alignGroups`, Tally.antt `eTally` and `eAligned`, Reasons.antt the texts of
--   the reasons as values, JudgeE1.antt `judgeE1`, JudgeE2.antt `judgeE2` and `viewsDisagree`. `judgeE1`
--   tests that there is a ledger, and `judgeE2` the plugin instance and the seven counters, before they run
--   `eAligned`, which finds whether the two witnesses agree on what a count is compared with.
--   Group F (groupf_judge.go, groupf_wire.go): Scenario/GroupF/Options.antt is the messages with
--   their options, UserClass.antt `judgeF1Wire`, Ipv6Only.antt `judgeF2aWire`, `judgeF2bWire` and its
--   control, RapidCommit.antt `judgeF3Wire`, Nonce.antt `judgeF8Ack` and its control, ForceRenew.antt
--   `judgeF8`.
--   Group D (groupd_judge.go, groupd2_judge.go): Scenario/GroupD/Wire6.antt is the DHCPv6 messages and leases
--   (capture6.go, internal/sourceadapter/leases6.go), Link.antt the addresses of the container's link
--   (groupd_host.go), Exchange6.antt `exchange6`, Lease.antt `judgeD1` and `judgeD1Persistent`,
--   Rapid6.antt `judgeF4Wire`, Temporary.antt `judgeF5`, Slaac.antt `judgeD2` and `eui64`,
--   NoRouter.antt `judgeNoRA`, `judgeD1c`, `judgeEndpointFails` and `judgeRefused`, Silent.antt
--   `judgeRAFlags`, `judgeD3cAuto` and `judgeD3cFails`, TwoPrefixes.antt `judgeD4` and `d4First`,
--   Routes.antt `routeFor`, Withdrawn.antt `judgeD4bDrop` and `judgeD4bExpired`.
--   Scenario/Addresses.antt is the fixed addresses that the scenarios hand out, the
--   pools and the target of a renumbering (groupb_addrs.go, groupc_addrs.go).
--   Scenario/Verdict.antt and the files under it are the verdict file: what `Write` writes, what
--   `ReadVerdict` reads, and the checks on evidence (verdict.go).
--   Scenario/HostRecovery.antt models hostrecover.go: a gate that cannot connect may reset its host,
--   within a budget for the whole run, and the next verdict names the reset.
-- internal/sourceadapter: Sourceadapter/Retry.antt models the runner that retries a command whose
--   connection failed (retry.go); its `IsConnectError` also decides when a gate resets a host.
-- internal/coverage: the IDs of option variants and the placements that say which test covers each.
--   Coverage/Ids.antt is `ParseID` and `ID.String`, Coverage/Ids/Matching.antt `Matches` and `Options`
--   (ids.go); Coverage/Placements.antt is `checkPlacement`, Coverage/Placements/Check.antt
--   `CheckVariants` (placements.go). Coverage/Cutting.antt is what they use of Go's `strings`.
-- internal/labyaml: the validation of lab.yaml. Labyaml/Config.antt is the records of schema.go, the
--   errors and `LookupBaseImage` (baseimages.go); Labyaml/Claims.antt is what a cell claims (a bridge,
--   a subnet, an address of the management network), Hosts.antt the relay, the device, the partner
--   and the uplink, Six.antt the IPv6 half, Pool.antt `validateSource`, and Cells.antt `Validate` with
--   its loop and `validateC9Targets`. Labyaml/Netip.antt is what they use of Go's `net/netip`.
--   Labyaml/Vlan.antt is `VLANSubnet` (vlan.go).
--
-- A Go string is a list of bytes. A map used as a set is the list of its keys, any other map an
-- association list or a function. A counter is a natural number, since it is read from decimal
-- digits; a number of releases that a caller subtracts is an integer. A time is a number of
-- nanoseconds. An error or a reason is a value that carries what the text shows, so no text is
-- formatted, and where the source sorts its texts the model keeps their order of discovery. All
-- loops are recursion on the list that the source ranges over, so no fuel is needed. The retry and
-- polling loops run on the list of what their calls answer, until the deadline or without an end.
--
-- Parameters: the parsers of `net/netip` (`Parsers` in Labyaml/Netip.antt), with no hypothesis but,
-- where a theorem says so, that a parsed prefix length fits its family. An address with a zone is
-- taken as one that does not parse, where the source refuses it a test later.
-- The network and broadcast addresses in `leg_address` are those of an IPv4 segment, which is the
-- only kind that reaches it. `strings.ToLower` and `strings.TrimSpace` are modelled on ASCII.
-- `net.ParseMAC` is a parameter of the judges that compare a hardware address. Where the source
-- returns the text of an address, the model returns the address. The clock's text, `os.Stat` and
-- `filepath.Rel` are parameters of the verdict file, whose errors carry no line number;
-- its time is the nanoseconds since the start of the year 1, and the parser of a time is taken to read
-- what the printer writes, which is whole seconds, for years below 10000.
--
-- Not modelled: the runners, captures, SSH, Docker and libvirt calls and the adapters of the DHCP
-- servers, which act on machines; the readers of YAML, JSON and metrics text. Nor are: of
-- group D `judgeF6` and `judgeF7` (groupd2_judge.go), the judges of groupe3_judge.go
-- and groupe5_judge.go, the variant generator, the results matrix and the command line.
--
-- Prelude/ holds the shared tests, lists, texts and sets. Tests/ runs the models on concrete inputs.
pub mod Prelude
pub mod Scenario
pub mod Coverage
pub mod Labyaml
pub mod Sourceadapter
pub mod Tests
