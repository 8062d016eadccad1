-- ===== src/Telemetry/Sampler/Counts.antt =====
-- The counters of `_summarise_bgp` are consistent with each other.
use vyos_ixp_bgp_stress.Prelude.{
  ℕ, suc, ◌+◌, ◌-◌, ◌≤◌, ◌≡◌, refl, ◌∙◌, Bool, true, false, not, ◌&&◌, ◌||◌, Option, none, some,
  String, List, [], ◌∷◌, ◌++◌, length, length-append, arith, ltb, leb, or_zero, str_eq,
  if◌then◌else◌, Bool-cases, inl, inr,
}
use vyos_ixp_bgp_stress.Telemetry.Sampler.{
  null, number, text, object, Fields, done, entry, size, find, bgp_peer_node, scalar, BgpSummary,
  Texts, state_of, count_peer, count_peers, peers_of, or_missing, summarise_node, summarise_bgp,
  per_peer_sample_limit,
}

-- What holds of the counters with `left` peers to come.
record Counting (full : Bool) (left : ℕ) (out : BgpSummary) : Type 0 where
  fits : out.established + left ≤ out.peers
  largest : out.max_pfx_rcd ≤ out.pfx_rcd_total
  capped : full ≡ false → length out.not_established ≤ 25
  read : out.read_ok ≡ true

Counting-less :
    (full : Bool) (left : ℕ) (out : BgpSummary)
    → Counting full (suc left) out
    → Counting full left out
Counting-less full left out c = record {
  fits = omega (arith, c.fits);
  largest = c.largest;
  capped = c.capped;
  read = c.read;
}

Counting-count_peer :
    (py : Texts) (full kept : Bool) (addr : String) (p : Fields) (left : ℕ) (out : BgpSummary)
    → Counting full (suc left) out
    → Counting full left (count_peer py full kept addr p out)
unfolding count_peer
Counting-count_peer py full kept addr p left out c =
    let up = str_eq (py.lower (state_of py.str p)) "established" in
    record {
      fits = elim (Bool-cases up) [
        | inl e ↦ rw e (omega (arith, c.fits))
        | inr e ↦ rw e (omega (arith, c.fits))
      ];
      largest = ground (arith, c.largest);
      capped = λ e. listed up full addr _ out.not_established e (c.capped e);
      read = c.read;
    }
  where
    listed :
        (b f : Bool) (a s : String) (xs : List (String × String))
        → f ≡ false
        → length xs ≤ 25
        → length (if not b && (f || ltb (length xs) 25) then xs ++ (a, s) ∷ [] else xs) ≤ 25
    listed b f a s xs e h = ground (arith, length-append xs ((a, s) ∷ []))

Counting-count_peers :
    (py : Texts) (full kept : Bool) (peers : Fields) (out : BgpSummary)
    → Counting full (size peers) out
    → Counting full 0 (count_peers py full kept peers out)
      × ((count_peers py full kept peers out).failed ≡ out.failed)
unfolding count_peers size
Counting-count_peers py full kept done out c = (c, refl)
Counting-count_peers py full kept (entry a (object p) rest) out c =
    Counting-count_peers py full kept rest (count_peer py full kept a p out)
      (Counting-count_peer py full kept a p (size rest) out c)
Counting-count_peers py full kept (entry a null rest) out c =
    Counting-count_peers py full kept rest out (Counting-less full (size rest) out c)
Counting-count_peers py full kept (entry a (number n) rest) out c =
    Counting-count_peers py full kept rest out (Counting-less full (size rest) out c)
Counting-count_peers py full kept (entry a (text s) rest) out c =
    Counting-count_peers py full kept rest out (Counting-less full (size rest) out c)

-- A summary whose counters agree.
pub record IsConsistent (full : Bool) (out : BgpSummary) : Type 0 where
  pub read : out.read_ok ≡ true
  pub within : out.established ≤ out.peers
  pub largest : out.max_pfx_rcd ≤ out.pfx_rcd_total
  pub capped : full ≡ false → length out.not_established ≤ 25

-- The answer has no number of failed peers of its own.
abbrev pub NoFailed : Fields → Type 0
NoFailed node = scalar (find "failedPeers" node) ≡ none

filled :
    (est peers : ℕ) (failed : Option ℕ)
    → est + 0 ≤ peers
    → failed ≡ none
    → est + or_zero (or_missing failed (peers - est)) ≡ peers
filled est peers none room e = omega arith
filled est peers (some n) room e = cc

summarise_node-IsConsistent :
    (py : Texts) (full : Bool) (node : Fields)
    → IsConsistent full (summarise_node py full node)
      × (NoFailed node
          → (summarise_node py full node).established + or_zero (summarise_node py full node).failed
            ≡ (summarise_node py full node).peers)
unfolding summarise_node
summarise_node-IsConsistent py full node =
    let peers = peers_of (find "peers" node) in
    let kept = full || leb (size peers) per_peer_sample_limit in
    let (c, kept_failed) = Counting-count_peers py full kept peers _ (record {
      fits = omega arith;
      largest = omega arith;
      capped = λ e. omega arith;
      read = refl;
    }) in
    (
      record {
        read = c.read;
        within = omega (arith, c.fits);
        largest = c.largest;
        capped = c.capped;
      },
      λ e. filled _ _ _ c.fits (kept_failed ∙ e),
    )

-- Of an answer that is a dictionary: the summary is a successful read, no more peers are established
-- than there are, no peer has more prefixes than all together, and without `full_detail` at most 25
-- peers are listed. If the node has no number of failed peers, the established and the failed ones
-- are all of them. No answer, or one that is no dictionary, is a failed read.
pub summarise_bgp-IsConsistent :
    (py : Texts) (full : Bool) (fs : Fields)
    → IsConsistent full (summarise_bgp py full (some (object fs)))
      × ((summarise_bgp py full none).read_ok ≡ false)
      × ((node : Fields)
          → bgp_peer_node (some (object fs)) ≡ some node
          → NoFailed node
          → (summarise_bgp py full (some (object fs))).established
              + or_zero (summarise_bgp py full (some (object fs))).failed
            ≡ (summarise_bgp py full (some (object fs))).peers)
unfolding summarise_bgp
summarise_bgp-IsConsistent py full fs = (
  (summarise_node-IsConsistent py full _).0,
  refl,
  λ node e missing. rw e ((summarise_node-IsConsistent py full node).1 missing),
)
