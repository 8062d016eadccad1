-- ===== src/Telemetry/Predicates/Count.antt =====
-- How many violations of one kind a sample yields, section by section of `check`.
use vyos_ixp_bgp_stress.Prelude.{
  ℕ, ◌+◌, ◌≡◌, Bool, true, false, not, ◌&&◌, Option, List, [], ◌∷◌, ◌++◌, arith, if◌then◌else◌,
  String, str_eq,
}
use vyos_ixp_bgp_stress.Telemetry.Sample.{
  Process, Dplane, Logs, Rec, Summary, is_sample, read_failed,
}
use vyos_ixp_bgp_stress.Telemetry.Violation.{Afi, ipv4, ipv6, failed_peers, restarted, Violation}
use vyos_ixp_bgp_stress.Telemetry.Predicates.{
  Predicates, judge, peer_faults, memory_faults, daemon_restarts, daemon_gone, log_faults,
  dplane_faults,
}

abbrev pub is_restart_of : String → Violation → Bool
is_restart_of name v = elim v.code [ restarted n ↦ str_eq n name | _ ↦ false ]

abbrev pub same_afi : Afi → Afi → Bool
same_afi ipv4 ipv4 = true
same_afi ipv6 ipv6 = true
same_afi _ _ = false

abbrev pub is_peer_fault_of : Afi → Violation → Bool
is_peer_fault_of afi v = elim v.code [ failed_peers a ↦ same_afi a afi | _ ↦ false ]

abbrev pub one_if : Bool → ℕ
one_if b = if b then 1 else 0

unfoldable pub count : (Violation → Bool) → List Violation → ℕ
count p [] = 0
count p (v ∷ vs) = one_if (p v) + count p vs

pub count-append :
    (p : Violation → Bool) (xs ys : List Violation) → count p (xs ++ ys) ≡ count p xs + count p ys
unfolding count
count-append p [] ys = omega arith
count-append p (x ∷ xs) ys = omega (arith, count-append p xs ys)

-- The record was read from a running DUT, so that `check` judges it.
abbrev pub judged : Rec → Bool
judged r = is_sample r.kind && (not (read_failed r) && not r.dut_down)

module _ (p : Violation → Bool) where
  pub count-judge :
      (s : Predicates) (now : ℕ) (r : Rec)
      → count p (judge s now r).0
        ≡ count p (peer_faults s now ipv4 r.bgp.ipv4)
          + count p (peer_faults s now ipv6 r.bgp.ipv6)
          + count p (memory_faults s r.proc)
          + count p (daemon_restarts s r r.proc).0
          + count p (daemon_gone (daemon_restarts s r r.proc).1 r.proc "bgpd")
          + count p (daemon_gone (daemon_restarts s r r.proc).1 r.proc "zebra")
          + count p (log_faults (daemon_restarts s r r.proc).1 r.logs)
          + count p (dplane_faults (daemon_restarts s r r.proc).1 r.dplane).0
  unfolding judge
  count-judge s now r = omega (arith, count-append p)

module _ (name : String) where
  restarts-peer_faults :
      (s : Predicates) (now : ℕ) (afi : Afi) (b : Option Summary)
      → count (is_restart_of name) (peer_faults s now afi b) ≡ 0
  unfolding count peer_faults
  restarts-peer_faults s now afi b = ground arith

  restarts-memory_faults :
      (s : Predicates) (proc : List (String × Process))
      → count (is_restart_of name) (memory_faults s proc) ≡ 0
  unfolding count memory_faults
  restarts-memory_faults s proc = ground arith

  restarts-daemon_gone :
      (s : Predicates) (proc : List (String × Process)) (n : String)
      → count (is_restart_of name) (daemon_gone s proc n) ≡ 0
  unfolding count daemon_gone
  restarts-daemon_gone s proc n = ground arith

  restarts-log_faults :
      (s : Predicates) (logs : Logs) → count (is_restart_of name) (log_faults s logs) ≡ 0
  unfolding count log_faults
  restarts-log_faults s logs = ground arith

  restarts-dplane_faults :
      (s : Predicates) (dp : Dplane) → count (is_restart_of name) (dplane_faults s dp).0 ≡ 0
  unfolding count dplane_faults
  restarts-dplane_faults s dp = ground arith

  pub restarts-judge :
      (s : Predicates) (now : ℕ) (r : Rec)
      → count (is_restart_of name) (judge s now r).0
        ≡ count (is_restart_of name) (daemon_restarts s r r.proc).0
  restarts-judge s now r = omega (
    arith,
    count-judge (is_restart_of name) s now r,
    restarts-peer_faults s now ipv4 r.bgp.ipv4,
    restarts-peer_faults s now ipv6 r.bgp.ipv6,
    restarts-memory_faults s r.proc,
    restarts-daemon_gone (daemon_restarts s r r.proc).1 r.proc "bgpd",
    restarts-daemon_gone (daemon_restarts s r r.proc).1 r.proc "zebra",
    restarts-log_faults (daemon_restarts s r r.proc).1 r.logs,
    restarts-dplane_faults (daemon_restarts s r r.proc).1 r.dplane,
  )
