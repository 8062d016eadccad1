-- ===== src/Telemetry/Predicates/Peers.antt =====
-- When `check` faults the DUT for peers that are not established.
use vyos_ixp_bgp_stress.Prelude.{
  ℕ, ◌+◌, ◌≡◌, refl, Bool, not, ◌&&◌, Option, List, [], ◌∷◌, arith, ltb, if◌then◌else◌, String,
}
use vyos_ixp_bgp_stress.Telemetry.Sample.{Process, Dplane, Logs, Bgp, Rec, Summary}
use vyos_ixp_bgp_stress.Telemetry.Violation.{Afi, ipv4, ipv6}
use vyos_ixp_bgp_stress.Telemetry.Predicates.{
  Predicates, check, judge, note_watchdog, peer_faults, memory_faults, daemon_restarts, daemon_gone,
  daemon_pid, restart_seen, log_faults, dplane_faults, family_failed, peer_faults_suppressed,
}
use vyos_ixp_bgp_stress.Telemetry.Predicates.Count.{
  is_peer_fault_of, same_afi, one_if, count, count-append, count-judge, judged,
}

abbrev pub family : Afi → Bgp → Option Summary
family ipv4 b = b.ipv4
family ipv6 b = b.ipv6

module _ (afi : Afi) where
  peers-peer_faults :
      (s : Predicates) (now : ℕ) (a : Afi) (b : Option Summary)
      → count (is_peer_fault_of afi) (peer_faults s now a b)
        ≡ one_if (
            same_afi a afi
            && (ltb s.budgets.max_failed_peers (family_failed b)
                && not (peer_faults_suppressed s now)))
  unfolding count peer_faults
  peers-peer_faults s now a b = ground arith

  peers-memory_faults :
      (s : Predicates) (proc : List (String × Process))
      → count (is_peer_fault_of afi) (memory_faults s proc) ≡ 0
  unfolding count memory_faults
  peers-memory_faults s proc = ground arith

  peers-daemon_pid :
      (s : Predicates) (r : Rec) (n : String) (pid : Option ℕ)
      → count (is_peer_fault_of afi) (daemon_pid s r n pid).0 ≡ 0
  unfolding count restart_seen
  peers-daemon_pid s r n pid = ground arith

  peers-daemon_restarts :
      (s : Predicates) (r : Rec) (proc : List (String × Process))
      → count (is_peer_fault_of afi) (daemon_restarts s r proc).0 ≡ 0
  unfolding daemon_restarts
  peers-daemon_restarts s r [] = unfold count in refl
  peers-daemon_restarts s r ((n, p) ∷ rest) = omega (
    arith,
    count-append (is_peer_fault_of afi) (daemon_pid s r n p.pid).0
        (daemon_restarts (daemon_pid s r n p.pid).1 r rest).0,
    peers-daemon_pid s r n p.pid,
    peers-daemon_restarts (daemon_pid s r n p.pid).1 r rest,
  )

  peers-daemon_gone :
      (s : Predicates) (proc : List (String × Process)) (n : String)
      → count (is_peer_fault_of afi) (daemon_gone s proc n) ≡ 0
  unfolding count daemon_gone
  peers-daemon_gone s proc n = ground arith

  peers-log_faults :
      (s : Predicates) (logs : Logs) → count (is_peer_fault_of afi) (log_faults s logs) ≡ 0
  unfolding count log_faults
  peers-log_faults s logs = ground arith

  peers-dplane_faults :
      (s : Predicates) (dp : Dplane) → count (is_peer_fault_of afi) (dplane_faults s dp).0 ≡ 0
  unfolding count dplane_faults
  peers-dplane_faults s dp = ground arith

  -- The condition under which the family is faulted.
  abbrev faulted : Predicates → ℕ → Rec → Bool
  faulted s now r =
      ltb s.budgets.max_failed_peers (family_failed (family afi r.bgp))
      && not (peer_faults_suppressed s now)

  one_family :
      (s : Predicates) (now : ℕ) (r : Rec)
      → count (is_peer_fault_of afi) (peer_faults s now ipv4 r.bgp.ipv4)
          + count (is_peer_fault_of afi) (peer_faults s now ipv6 r.bgp.ipv6)
        ≡ one_if (faulted s now r)
  one_family s now r =
      ground
        (arith, peers-peer_faults s now ipv4 r.bgp.ipv4, peers-peer_faults s now ipv6 r.bgp.ipv6)

  peers-judge :
      (s : Predicates) (now : ℕ) (r : Rec)
      → count (is_peer_fault_of afi) (judge s now r).0 ≡ one_if (faulted s now r)
  peers-judge s now r =
      let s1 = (daemon_restarts s r r.proc).1 in
      omega (
        arith,
        count-judge (is_peer_fault_of afi) s now r,
        one_family s now r,
        peers-memory_faults s r.proc,
        peers-daemon_restarts s r r.proc,
        peers-daemon_gone s1 r.proc "bgpd",
        peers-daemon_gone s1 r.proc "zebra",
        peers-log_faults s1 r.logs,
        peers-dplane_faults s1 r.dplane,
      )

-- `check` reports peers of an address family that are not established once per sample exactly when
-- the sample was read from a running DUT, more peers failed than the budget allows, no deliberate
-- impairment is on, and the clock has passed the recovery grace of the last one; else not at all.
pub peer_fault_exactly_when :
    (s : Predicates) (now : ℕ) (r : Rec) (afi : Afi)
    → count (is_peer_fault_of afi) (check s now r).0 ≡ (
        if judged r
          && (ltb s.budgets.max_failed_peers (family_failed (family afi r.bgp))
              && (not s.impaired && not (ltb now s.impair_until)))
        then 1
        else 0)
unfolding check note_watchdog peer_faults_suppressed count
peer_fault_exactly_when s now r afi =
    ground
      (arith, peers-judge afi s now r, peers-judge afi (record s { unresponsive_at = r.t }) now r)
