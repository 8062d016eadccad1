-- ===== src/Probes/Table.antt =====
-- `build_probes` of harness/policyprobe.py: the probes, derived from the template's policy. The
-- explanations are left out; of `template_defect` is kept whether there is one. The first two octets
-- of a network's text are a parameter.
use Prim.Native.String.{◌++◌}
use vyos_ixp_bgp_stress.Prelude.{ℕ, String, true, false, List, [], ◌∷◌}
use vyos_ixp_bgp_stress.Telemetry.Violation.{ipv4, ipv6}
use vyos_ixp_bgp_stress.Probes.{Probe, probe, Clause, community, accept, reject, clauses_of}

module _ (first_two : String → String) where
  unfoldable pub build_probes : String → ℕ → List Probe
  build_probes own_supernet4 peer_asn =
      probe "bogon-rfc1918" ipv4 "10.13.37.0/24" reject [] false ("bogon" ∷ [])
      ∷ probe "bogon-testnet" ipv4 "192.0.2.128/25" reject [] false ("bogon" ∷ [])
      ∷ probe "bogon-v6-ula" ipv6 "fc00:dead::/48" reject [] false ("bogon" ∷ [])
      ∷ probe "bogon-v6-doc-old" ipv6 "2001:db8:ffff::/48" reject [] false ("bogon" ∷ [])
      ∷ probe "bogon-v6-doc-rfc9637" ipv6 "3fff:dead:beef::/48" reject [] true
          ("bogon" ∷ "rfc9637" ∷ [])
      ∷ probe "toolong-v4-25" ipv4 "44.44.44.0/25" reject [] true ("prefixlen" ∷ [])
      ∷ probe "toolong-v4-32" ipv4 "44.44.45.1/32" reject [] true ("prefixlen" ∷ [])
      ∷ probe "toolong-v6-64" ipv6 "3fff:200:1::/64" reject [] true ("prefixlen" ∷ [])
      ∷ probe "acceptable-v4-24" ipv4 "44.44.46.0/24" accept [] false ("baseline" ∷ [])
      ∷ probe "acceptable-v6-48" ipv6 "3fff:300:2::/48" accept [] true ("baseline" ∷ [])
      ∷ probe "own-more-specific-v4" ipv4 (first_two own_supernet4 ++ ".200.128/25") reject [] false
          ("own" ∷ [])
      ∷ probe "own-supernet-exact-v4" ipv4 own_supernet4 reject [] true ("own" ∷ "hijack" ∷ [])
      ∷ probe "bogon-asn-private" ipv4 "45.45.45.0/24" reject (path (65001 ∷ 3356 ∷ 15169 ∷ []))
          false ("asn" ∷ [])
      ∷ probe "bogon-asn-zero" ipv4 "45.45.46.0/24" reject (path (0 ∷ 3356 ∷ [])) false ("asn" ∷ [])
      ∷ probe "bogon-asn-trans" ipv4 "45.45.47.0/24" reject (path (23456 ∷ 3356 ∷ [])) false
          ("asn" ∷ [])
      ∷ probe "bogon-asn-doc" ipv4 "45.45.48.0/24" reject (path (64500 ∷ 3356 ∷ [])) false
          ("asn" ∷ [])
      ∷ probe "blackhole-scrub" ipv4 "46.46.46.0/24" accept (community "65535:666" ∷ []) false
          ("community" ∷ "blackhole" ∷ [])
      ∷ probe "ixp-tag-v6" ipv6 "3fff:300:3::/48" accept [] true ("tagging" ∷ "v6-asymmetry" ∷ [])
      ∷ []
    where
      path : List ℕ → List Clause
      path rest = clauses_of peer_asn rest
