-- ===== src/Telemetry/Sampler/Examples.antt =====
-- An answer of vtysh with two peers, readings of a process, and the theorems at this input.
use vyos_ixp_bgp_stress.Prelude.{ℕ, ◌+◌, ◌*◌, ◌/◌, ◌≡◌, refl, false, none, some, [], arith, or_zero}
use vyos_ixp_bgp_stress.Telemetry.Sampler.{
  number, text, object, Fields, done, entry, find, size, node_in, bgp_peer_node, bgp_peer_state,
  Texts, count_peer, count_peers, summarise_node, summarise_bgp,
}
use vyos_ixp_bgp_stress.Telemetry.Sampler.Counts.{
  IsConsistent, NoFailed, summarise_bgp-IsConsistent,
}
use vyos_ixp_bgp_stress.Telemetry.Sampler.Cpu.{Reading, Cpu, cpu_pct, restart_resets_baseline}

abbrev texts : Texts
texts = record { lower = λ s. s; str = λ v. "other" }

abbrev up : Fields
up = entry "state" (text "established") (entry "pfxRcd" (number 40) done)

abbrev down : Fields
down = entry "state" (text "active") done

abbrev node : Fields
node = entry "tableVersion" (number 50) (
    entry "peers" (object (entry "10.0.0.1" (object up) (entry "10.0.0.2" (object down) done)))
      done)

abbrev answer : Fields
answer = entry "default" (object node) done

node_found : bgp_peer_node (some (object answer)) ≡ some node
unfolding bgp_peer_node node_in find
node_found = refl

one_down : (summarise_bgp texts false (some (object answer))).failed ≡ some 1
unfolding summarise_bgp summarise_node bgp_peer_node node_in find count_peers count_peer size
one_down = refl

state_found : bgp_peer_state (λ v. "other") (some (object answer)) "10.0.0.2" ≡ some "active"
unfolding bgp_peer_state bgp_peer_node node_in find
state_found = refl

summarise_bgp-IsConsistent_example :
    IsConsistent false (summarise_bgp texts false (some (object answer)))
    × ((summarise_bgp texts false none).read_ok ≡ false)
    × ((n : Fields)
        → bgp_peer_node (some (object answer)) ≡ some n
        → NoFailed n
        → (summarise_bgp texts false (some (object answer))).established
            + or_zero (summarise_bgp texts false (some (object answer))).failed
          ≡ (summarise_bgp texts false (some (object answer))).peers)
summarise_bgp-IsConsistent_example = summarise_bgp-IsConsistent texts false answer

abbrev percent : ℕ → ℕ → ℕ
percent ticks time = ticks * 100000 / time

abbrev reading : ℕ → ℕ → ℕ → Reading
reading ticks now pid = record { ticks = ticks; now = now; pid = some pid }

abbrev fresh_cpu : Cpu
fresh_cpu = record { prev_proc = []; cpu_pct_impossible = 0 }

restart_resets_baseline_example :
    ((cpu_pct percent
        (cpu_pct percent fresh_cpu "bgpd" (reading 900 1000 7) none).1
        "bgpd"
        (reading 5 3000 8)
        none).0
      ≡ none)
    × ((cpu_pct percent
          (cpu_pct percent
            (cpu_pct percent fresh_cpu "bgpd" (reading 900 1000 7) none).1
            "bgpd"
            (reading 5 3000 8)
            none).1
          "bgpd"
          (reading 105 5000 8)
          none).0
        ≡ some 5000)
restart_resets_baseline_example =
    restart_resets_baseline percent fresh_cpu "bgpd" (reading 900 1000 7) (reading 5 3000 8)
      (reading 105 5000 8) none 7 8 refl refl refl (λ e. absurd (omega arith)) (omega arith)
      (omega arith)
