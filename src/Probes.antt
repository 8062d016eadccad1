-- ===== src/Probes.antt =====
-- harness/policyprobe.py: the prefixes whose verdicts are known, and the lines that announce and
-- withdraw them. A line is kept as the parts that its text is made of, and a missing or empty address
-- is `none`.
pub mod Table
pub mod Pairs
use vyos_ixp_bgp_stress.Prelude.{
  ℕ, String, Bool, true, false, Option, none, some, List, [], ◌∷◌, ◌++◌, ◌==◌, if◌then◌else◌,
}
use vyos_ixp_bgp_stress.Telemetry.Violation.{Afi, ipv4, ipv6}
use vyos_ixp_bgp_stress.Prefixes.Batches.{Scope, neighbor, neighbor_from}

-- The clauses of an attribute text.
pub data Clause : Type 0 where
  as_path : List ℕ → Clause
  community : String → Clause
  attribute : String → Clause

pub data Expect : Type 0 where
  accept reject : Expect

pub record Probe : Type 0 where
  pub pid : String
  pub afi : Afi
  pub prefix : String
  pub expect : Expect
  pub attrs : List Clause
  pub template_defect : Bool
  pub tags : List String

abbrev pub probe : String → Afi → String → Expect → List Clause → Bool → List String → Probe
probe pid afi prefix expect attrs template_defect tags = record {
  pid = pid;
  afi = afi;
  prefix = prefix;
  expect = expect;
  attrs = attrs;
  template_defect = template_defect;
  tags = tags;
}

-- `_as_path`: every number passes its filter.
unfoldable pub clauses_of : ℕ → List ℕ → List Clause
clauses_of peer_asn rest = as_path (if peer_asn == 0 then rest else peer_asn ∷ rest) ∷ []

-- `neighbor_selector`
unfoldable pub neighbor_selector : ℕ → Option ℕ → Scope
neighbor_selector dut_addr none = neighbor dut_addr
neighbor_selector dut_addr (some local) = neighbor_from dut_addr local

pub data Command : Type 0 where
  comment : Command
  announce_route : Scope → String → Option ℕ → List Clause → Command
  withdraw_route : Scope → String → Command

-- `a if p.afi == "ipv4" else b`
abbrev pub by_afi : {A : Type 0} → Afi → A → A → A
by_afi ipv4 a b = a
by_afi ipv6 a b = b

-- `"as-path" not in attrs`; neither of the other clauses contains the word.
unfoldable pub has_as_path : List Clause → Bool
has_as_path [] = false
has_as_path (as_path asns ∷ attrs) = true
has_as_path (c ∷ attrs) = has_as_path attrs

-- `attrs` of the loop.
unfoldable pub with_as_path : List Clause → List Clause → List Clause
with_as_path default [] = default
with_as_path default (c ∷ attrs) =
    if has_as_path (c ∷ attrs) then c ∷ attrs else (c ∷ attrs) ++ default

-- The addresses of the speaker and of the DUT, for each family.
pub record Ends : Type 0 where
  pub peer_v4 : Option ℕ
  pub peer_v6 : Option ℕ
  pub dut_v4 : ℕ
  pub dut_v6 : ℕ

abbrev pub selector : Ends → Afi → Scope
selector ends afi =
    neighbor_selector (by_afi afi ends.dut_v4 ends.dut_v6) (by_afi afi ends.peer_v4 ends.peer_v6)

unfoldable pub announce_all : Ends → List Clause → List Probe → List Command
announce_all ends default [] = []
announce_all ends default (p ∷ probes) =
    announce_route (selector ends p.afi) p.prefix (by_afi p.afi ends.peer_v4 ends.peer_v6)
      (with_as_path default p.attrs)
    ∷ announce_all ends default probes

unfoldable pub probe_announce_commands : Ends → List Probe → ℕ → List Command
probe_announce_commands ends probes peer_asn =
    comment ∷ announce_all ends (clauses_of peer_asn (3356 ∷ 15169 ∷ [])) probes

unfoldable pub probe_withdraw_commands : Ends → List Probe → List Command
probe_withdraw_commands ends [] = []
probe_withdraw_commands ends (p ∷ probes) =
    withdraw_route (selector ends p.afi) p.prefix ∷ probe_withdraw_commands ends probes

-- `[l for l in ... if not l.startswith("#")]`
unfoldable pub without_comments : List Command → List Command
without_comments [] = []
without_comments (comment ∷ lines) = without_comments lines
without_comments (announce_route s p nh attrs ∷ lines) =
    announce_route s p nh attrs ∷ without_comments lines
without_comments (withdraw_route s p ∷ lines) = withdraw_route s p ∷ without_comments lines

-- `Malformed`, as far as the events read it; `expect_route` and `expect_session` by their texts.
pub data Route : Type 0 where
  absent present either : Route

pub record Malformed : Type 0 where
  pub mid : String
  pub afi : Afi
  pub prefix : String
  pub attrs : List Clause
  pub expect_route : Route
  pub tags : List String

unfoldable pub malformed_announce_all : Ends → List Malformed → List Command
malformed_announce_all ends [] = []
malformed_announce_all ends (m ∷ cases) =
    announce_route (selector ends m.afi) m.prefix none m.attrs ∷ malformed_announce_all ends cases

unfoldable pub malformed_announce_commands : Ends → List Malformed → List Command
malformed_announce_commands ends cases = comment ∷ malformed_announce_all ends cases

unfoldable pub malformed_withdraw_commands : Ends → List Malformed → List Command
malformed_withdraw_commands ends [] = []
malformed_withdraw_commands ends (m ∷ cases) =
    withdraw_route (selector ends m.afi) m.prefix ∷ malformed_withdraw_commands ends cases
