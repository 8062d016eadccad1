-- ===== src/Probes/Pairs.antt =====
-- What is announced is withdrawn again, and no probe fails for its first AS number.
use vyos_ixp_bgp_stress.Prelude.{
  ℕ, ◌≡◌, ◌≢◌, refl, ap, String, List, [], ◌∷◌, ◌==◌, All, ==_iff, Bool-cases, inl, inr,
}
use vyos_ixp_bgp_stress.Prefixes.Batches.{Scope}
use vyos_ixp_bgp_stress.Probes.{
  Probe, Clause, as_path, community, attribute, Command, comment, announce_route, withdraw_route,
  Ends, has_as_path, with_as_path, announce_all, probe_announce_commands, probe_withdraw_commands,
  without_comments, clauses_of, selector,
}
use vyos_ixp_bgp_stress.Probes.Table.{build_probes}

-- The neighbours and the prefix that a line is about.
unfoldable pub targets : List Command → List (Scope × String)
targets [] = []
targets (comment ∷ lines) = targets lines
targets (announce_route s p nh attrs ∷ lines) = (s, p) ∷ targets lines
targets (withdraw_route s p ∷ lines) = (s, p) ∷ targets lines

announce_all-targets :
    (ends : Ends) (default : List Clause) (probes : List Probe)
    → targets (without_comments (announce_all ends default probes))
      ≡ targets (probe_withdraw_commands ends probes)
unfolding targets announce_all probe_withdraw_commands without_comments
announce_all-targets ends default [] = refl
announce_all-targets ends default (p ∷ probes) =
    ap (◌∷◌ (selector ends p.afi, p.prefix)) (announce_all-targets ends default probes)

-- The lines without the comment announce the same prefixes to the same neighbours, in the same
-- order, as the lines that withdraw the probes.
pub announced_are_withdrawn :
    (ends : Ends) (probes : List Probe) (peer_asn : ℕ)
    → targets (without_comments (probe_announce_commands ends probes peer_asn))
      ≡ targets (probe_withdraw_commands ends probes)
unfolding probe_announce_commands without_comments
announced_are_withdrawn ends probes peer_asn = announce_all-targets ends _ probes

-- The first AS path of the clauses starts with the number.
abbrev pub StartsWith : ℕ → List Clause → Type 0
StartsWith asn [] = ⊥
StartsWith asn (as_path [] ∷ attrs) = ⊥
StartsWith asn (as_path (a ∷ asns) ∷ attrs) = a ≡ asn
StartsWith asn (community c ∷ attrs) = StartsWith asn attrs
StartsWith asn (attribute c ∷ attrs) = StartsWith asn attrs

abbrev pub IsFirst : ℕ → Command → Type 0
IsFirst asn comment = Unit
IsFirst asn (announce_route s p nh attrs) = StartsWith asn attrs
IsFirst asn (withdraw_route s p) = ⊥

StartsWith-clauses_of : (asn : ℕ) (rest : List ℕ) → asn ≢ 0 → StartsWith asn (clauses_of asn rest)
unfolding clauses_of
StartsWith-clauses_of asn rest h = elim (Bool-cases (asn == 0)) [
  | inl zero_asn ↦ absurd (h ((==_iff asn 0).0 zero_asn))
  | inr other ↦ rw other refl
]

IsFirst-announce_all :
    (ends : Ends) (asn : ℕ) (default : List Clause) (probes : List Probe)
    → All (λ p. StartsWith asn (with_as_path default p.attrs)) probes
    → All (IsFirst asn) (announce_all ends default probes)
unfolding announce_all
IsFirst-announce_all ends asn default [] h = tt
IsFirst-announce_all ends asn default (p ∷ probes) h =
    (h.0, IsFirst-announce_all ends asn default probes h.1)

own :
    (asn : ℕ) (rest : List ℕ)
    → asn ≢ 0
    → StartsWith asn (with_as_path (clauses_of asn (3356 ∷ 15169 ∷ [])) (clauses_of asn rest))
unfolding with_as_path has_as_path clauses_of
own asn rest h = StartsWith-clauses_of asn rest h

StartsWith-build_probes :
    (first_two : String → String) (supernet : String) (asn : ℕ)
    → asn ≢ 0
    → All
        (λ p. StartsWith asn (with_as_path (clauses_of asn (3356 ∷ 15169 ∷ [])) p.attrs))
        (build_probes first_two supernet asn)
unfolding build_probes with_as_path has_as_path
StartsWith-build_probes first_two supernet asn h =
    let d = StartsWith-clauses_of asn (3356 ∷ 15169 ∷ []) h in
    (
      d,
      (
        d,
        (
          d,
          (
            d,
            (
              d,
              (
                d,
                (
                  d,
                  (
                    d,
                    (
                      d,
                      (
                        d,
                        (
                          d,
                          (
                            d,
                            (
                              own asn (65001 ∷ 3356 ∷ 15169 ∷ []) h,
                              (
                                own asn (0 ∷ 3356 ∷ []) h,
                                (
                                  own asn (23456 ∷ 3356 ∷ []) h,
                                  (own asn (64500 ∷ 3356 ∷ []) h, (d, (d, tt))),
                                ),
                              ),
                            ),
                          ),
                        ),
                      ),
                    ),
                  ),
                ),
              ),
            ),
          ),
        ),
      ),
    )

-- Every line that announces a probe of the table has an AS path that starts with the speaker's own
-- number, if that is not 0.
pub probes_start_with_peer :
    (ends : Ends) (first_two : String → String) (supernet : String) (asn : ℕ)
    → asn ≢ 0
    → All (IsFirst asn) (probe_announce_commands ends (build_probes first_two supernet asn) asn)
unfolding probe_announce_commands
probes_start_with_peer ends first_two supernet asn h =
    (tt, IsFirst-announce_all ends asn _ _ (StartsWith-build_probes first_two supernet asn h))
