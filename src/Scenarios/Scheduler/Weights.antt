-- ===== src/Scenarios/Scheduler/Weights.antt =====
-- The scheduler draws every event by its weight.
use vyos_ixp_bgp_stress.Prelude.{
  ℕ, ◌+◌, ◌≤◌, ◌<◌, ◌≡◌, refl, ap, [], ◌∷◌, ◌++◌, arith, ltb, Bool-cases, inl, inr,
}
use vyos_ixp_bgp_stress.Scenarios.Scheduler.{Spec, Weighted, total, draw_loop, drawn}

-- The number stands in the share of an entry, and the entry's event is drawn.
pub record IsDrawn (r acc : ℕ) (specs : Weighted) (found : Spec) : Type 0 where
  pub before : Weighted
  pub weight : ℕ
  pub after : Weighted
  pub splits : specs ≡ before ++ (weight, found) ∷ after
  pub low : acc + total before ≤ r
  pub high : r < acc + total before + weight

IsDrawn-later :
    (r acc w : ℕ) (e found : Spec) (specs : Weighted)
    → IsDrawn r (acc + w) specs found
    → IsDrawn r acc ((w, e) ∷ specs) found
unfolding total
IsDrawn-later r acc w e found specs d = record {
  before = (w, e) ∷ d.before;
  weight = d.weight;
  after = d.after;
  splits = ap (◌∷◌ (w, e)) d.splits;
  low = omega (arith, d.low);
  high = omega (arith, d.high);
}

draw_loop-IsDrawn :
    (r acc : ℕ) (last : Spec) (specs : Weighted)
    → acc ≤ r
    → r < acc + total specs
    → IsDrawn r acc specs (draw_loop r acc last specs)
unfolding draw_loop total
draw_loop-IsDrawn r acc last [] low high = absurd (omega arith)
draw_loop-IsDrawn r acc last ((w, e) ∷ specs) low high = elim (Bool-cases (ltb r (acc + w))) [
  | inl here ↦ rw here (record {
    before = [];
    weight = w;
    after = specs;
    splits = refl;
    low = omega arith;
    high = ground arith;
  })
  | inr later ↦ rw later (
      IsDrawn-later r acc w e _ specs
        (draw_loop-IsDrawn r (acc + w) last specs (ground (arith, later)) (omega arith)))
]

-- Of the numbers below the total weight, `draw` maps each to the entry whose share of them, as long
-- as its weight and after those of the earlier entries, it stands in.
pub drawn-IsDrawn :
    (r : ℕ) (s : ℕ × Spec) (specs : Weighted)
    → r < total (s ∷ specs)
    → IsDrawn r 0 (s ∷ specs) (drawn r s specs)
unfolding drawn
drawn-IsDrawn r s specs h = draw_loop-IsDrawn r 0 _ (s ∷ specs) (omega arith) (omega (arith, h))
