-- ===== src/Tests/Verdict.antt =====
-- internal/scenario/verdict.go: a verdict with a broken reason and two evidence files.
use mathlib.Core.List.{Perm}
use docker_net_dhcp_lab.Scenario.Judging.{check_each}
use docker_net_dhcp_lab.Scenario.Verdict.RoundTrip.{folded, read_verdict-write, Named}
use docker_net_dhcp_lab.Scenario.Verdict.Evidence.Laws.{KeyLabel, Relative, read_onto}
use docker_net_dhcp_lab.Prelude.{
  List, Text, text_eq, Option, ◌≡◌, codes, [], some, err, ◌++◌, All, ok, true, ◌∷◌, refl, eq_pair,
  if◌then◌else◌, eq_text, has_prefix, ◌*◌, ◌<◌, ℕ, ◌/◌, ◌-◌, Bool-cases, nat_eq, inl, ◌+◌, arith,
  inr, ap,
}
use docker_net_dhcp_lab.Scenario.Verdict.{
  Verdict, write, Times, read_verdict, time_second, year_10000,
}
use docker_net_dhcp_lab.Scenario.Verdict.Lines.{
  read_lines, is_key_char, is_letter, print, is_key, cut_last_colon, extend_last,
}
use docker_net_dhcp_lab.Scenario.Verdict.Folding.{
  one_line, clean, fold_from, trim_left, trim_right, is_break, is_space,
}
use docker_net_dhcp_lab.Scenario.Verdict.Evidence.{
  Files, evidence_fields, by_label, pass_without_evidence, check_file,
}

-- the seconds of 2026-11-26T12:00:00Z, which are shown as in RFC 3339; any other time is shown by the
-- number of its seconds
abbrev noon : ℕ
noon = 63931291200

abbrev stamp : ℕ → Text
stamp s = if nat_eq s noon then codes "2026-11-26T12:00:00Z" else b'T' ∷ (s + 14) ∷ []

abbrev read_seconds : Text → Option ℕ
read_seconds (a ∷ b ∷ []) = some ((b - 14) * time_second)
read_seconds _ = some (noon * time_second)

read_seconds-stamp : (s : ℕ) → read_seconds (stamp s) ≡ some (s * time_second)
read_seconds-stamp s = elim (Bool-cases (nat_eq s noon)) [
  | inl e ↦ rw e (ground (arith, e))
  | inr e ↦ rw e (ap (λ n. some (n * time_second)) (omega arith))
]

clean-stamp : (s : ℕ) → clean (stamp s) ≡ true
unfolding clean
clean-stamp s = elim (Bool-cases (nat_eq s noon)) [
  | inl e ↦ rw e refl
  | inr e ↦ rw e (ground arith)
]

abbrev seconds : Times
seconds = record {
  format = λ t. stamp (t / time_second);
  parse = read_seconds;
  parse-format = λ t le. read_seconds-stamp (t / time_second);
  one_text_line = λ t. clean-stamp (t / time_second);
}

-- every file holds a byte; a path is relative to a run directory of two bytes and a slash
abbrev files : Files
files = record { size = λ p. some 1; rel = λ dir p. some p }

abbrev failed_run : Verdict
failed_run = record {
  scenario = codes "A1-lease";
  cell = codes "kea";
  shape = codes "bridge-ipam";
  result = codes "FAIL";
  reason = codes "ssh failed" ++ 13 ∷ 10 ∷ codes "exit: 255 ";
  git_sha = codes "abc";
  isolation = [];
  distro = codes "Debian";
  kernel = [];
  docker_version = codes "27";
  timestamp = noon * time_second + 5;
  evidence = (codes "pcap", codes "b.pcap") ∷ (codes "log", codes "a.log") ∷ [];
}

abbrev text : Text
text =
    codes "scenario: A1-lease"
    ++ 10 ∷ codes "cell: kea"
    ++ 10 ∷ codes "shape: bridge-ipam"
    ++ 10 ∷ codes "result: FAIL"
    ++ 10 ∷ codes "reason: ssh failed exit: 255"
    ++ 10 ∷ codes "git_sha: abc"
    ++ 10 ∷ codes "host.distro: Debian"
    ++ 10 ∷ codes "host.docker_version: 27"
    ++ 10 ∷ codes "timestamp: 2026-11-26T12:00:00Z"
    ++ 10 ∷ codes "evidence.log: a.log"
    ++ 10 ∷ codes "evidence.pcap: b.pcap"
    ++ 10 ∷ []

writes_file :
    write seconds files (codes "run") failed_run
    ≡ ok (codes "run/kea-bridge-ipam-A1-lease.verdict", text)
unfolding write text_eq check_each check_file evidence_fields by_label clean has_prefix print
    one_line is_space
writes_file = refl

refuses_bare_pass :
    write seconds files (codes "run") (record failed_run { result = codes "PASS"; evidence = [] })
    ≡ err pass_without_evidence
unfolding write text_eq
refuses_bare_pass = refl

-- a line that is no pair joins the value before it
joins_line :
    read_lines [] (codes "reason: a" ∷ codes "b c" ∷ []) ≡ ok ((codes "reason", codes "a b c") ∷ [])
unfolding read_lines text_eq is_key cut_last_colon extend_last
joins_line = refl

has_names : Named seconds failed_run
unfolding one_line fold_from trim_left trim_right is_break is_space text_eq
has_names = (refl, refl, refl, refl)

labels_fit : All KeyLabel failed_run.evidence
unfolding is_key_char is_letter
labels_fit = (refl, (refl, tt))

in_range : failed_run.timestamp < year_10000
in_range = omega arith

read_verdict-write_example :
    (files_of rels : List (Text × Text)) × Perm failed_run.evidence files_of
    × Relative files (codes "run") files_of rels
    × (read_verdict seconds text ≡ ok (folded seconds failed_run (read_onto [] rels)))
read_verdict-write_example =
    read_verdict-write seconds files (codes "run") (codes "run/kea-bridge-ipam-A1-lease.verdict")
      text failed_run has_names in_range labels_fit writes_file
