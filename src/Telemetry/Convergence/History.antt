-- ===== src/Telemetry/Convergence/History.antt =====
-- What the tracker's streak says of the records that it was fed.
use vyos_ixp_bgp_stress.Prelude.{
  ℕ, ◌+◌, ◌≡◌, refl, ◌≢◌, ◌⊎◌, inl, inr, true, false, not, Option, none, some, List, [], ◌∷◌, arith,
  ◌∙◌, subst, ◌&&◌, Bool-cases, Option-cases, opt_eq_iff, ltb,
}
use vyos_ixp_bgp_stress.Telemetry.Sample.{Rec, is_sample, read_failed}
use vyos_ixp_bgp_stress.Telemetry.Convergence.{
  Config, Key, Tracker, Reason, reset, key, same_key, same_as_last, sessions_ok, bgpd_cpu,
  cpu_reason, queue_reason, busy, conclude, count, settle, judge, feed,
}

-- The record tells the tracker nothing: an event, or a sample with a failed read.
abbrev pub Ignored : Rec → Type 0
Ignored r = (is_sample r.kind ≡ false) ⊎ ((r.dut_down ≡ false) × (read_failed r ≡ true))

-- A sample on which everything that the tracker asks of one sample holds, with table counters `k`.
pub record IsSteady (c : Config) (k : Key) (r : Rec) : Type 0 where
  pub sampled : is_sample r.kind ≡ true
  pub running : r.dut_down ≡ false
  pub read : read_failed r ≡ false
  pub counters : key r ≡ some k
  pub counted : k.version_v4 ≢ none
  pub established : sessions_ok c r ≡ true
  pub cpu_quiet : c.require_quiet ≡ true → cpu_reason c (bgpd_cpu r) ≡ none
  pub queue_quiet : c.require_quiet ≡ true → queue_reason r.dplane.queue_depth ≡ none

-- Of a history, newest first: the newest `n` records that are not ignored are steady with the same
-- counters.
pub data IsRun (c : Config) (k : Key) : ℕ → List Rec → Type 0 where
  none_yet : (h : List Rec) → IsRun c k 0 h
  skip : {n : ℕ} {h : List Rec} {r : Rec} → Ignored r → IsRun c k n h → IsRun c k n (r ∷ h)
  grow :
      {n m : ℕ} {h : List Rec} {r : Rec}
      → m ≡ n + 1
      → IsSteady c k r
      → IsRun c k n h
      → IsRun c k m (r ∷ h)

-- The tracker after a history, newest first.
unfoldable pub after : Config → List Rec → Tracker
after c [] = reset
after c (r ∷ h) = (feed c (after c h) r).1

abbrev pub Tracks : Config → Tracker → List Rec → Type 0
Tracks c st h = (st.streak ≡ 0) ⊎ ((k : Key) × (st.last_key ≡ some k) × IsRun c k st.streak h)

same_key-eq : (a b : Key) → same_key a b ≡ true → a ≡ b
same_key-eq a b h = ground (
  arith,
  opt_eq_iff a.version_v4 b.version_v4,
  opt_eq_iff a.received_v4 b.received_v4,
  opt_eq_iff a.version_v6 b.version_v6,
  opt_eq_iff a.received_v6 b.received_v6,
)

pub same_as_last-eq : (k : Key) (last : Option Key) → same_as_last k last ≡ true → last ≡ some k
same_as_last-eq k none h = cc
same_as_last-eq k (some l) h = cc (same_key-eq k l h)

busy_quiet :
    (c : Config) (st st' : Tracker) (r : Rec)
    → busy c st r ≡ (none, st')
    → (cpu_reason c (bgpd_cpu r) ≡ none)
      × (queue_reason r.dplane.queue_depth ≡ none)
      × (st'.streak ≡ st.streak)
      × (st'.last_key ≡ st.last_key)
unfolding busy
busy_quiet c st st' r h = ground arith

grow_at :
    (c : Config) (k l : Key) (n : ℕ) (h : List Rec) (r : Rec)
    → l ≡ k
    → IsSteady c k r
    → IsRun c l n h
    → IsRun c k (n + 1) (r ∷ h)
grow_at c k l n h r e steady run = grow refl steady (subst (λ z. IsRun c z n h) e run)

Tracks-conclude :
    (c : Config) (st : Tracker) (h : List Rec) → Tracks c st h → Tracks c (conclude c st).1 h
Tracks-conclude c st h t = elim (Bool-cases (ltb st.streak c.stable_samples)) [
  | inl short ↦ rw short t
  | inr long ↦ elim (Bool-cases (c.require_quiet && not st.fib_seen)) [
    | inl unseen ↦ rw (long, unseen) t
    | inr seen ↦ rw (long, seen) t
  ]
]

Tracks-count :
    (c : Config) (st : Tracker) (k : Key) (h : List Rec) (r : Rec)
    → IsSteady c k r
    → Tracks c st h
    → Tracks c (count c st k).1 (r ∷ h)
unfolding count
Tracks-count c st k h r steady t = elim (Bool-cases (same_as_last k st.last_key)) [
  | inr other ↦
      rw other (
        Tracks-conclude c _ (r ∷ h) (inr (k, refl, grow {n = 0} (omega arith) steady (none_yet h))))
  | inl same ↦
      rw same (Tracks-conclude c _ (r ∷ h) (inr (k, refl, longer t (same_as_last-eq k _ same))))
]
  where
    longer : Tracks c st h → st.last_key ≡ some k → IsRun c k (st.streak + 1) (r ∷ h)
    longer (inl zero_streak) e = rw zero_streak (grow {n = 0} (omega arith) steady (none_yet h))
    longer (inr (l, last, run)) e = grow_at c k l st.streak h r (cc) steady run

-- What is known of a sample when `settle` is reached.
record Reached (c : Config) (r : Rec) : Type 0 where
  sampled : is_sample r.kind ≡ true
  running : r.dut_down ≡ false
  read : read_failed r ≡ false
  cpu_quiet : c.require_quiet ≡ true → cpu_reason c (bgpd_cpu r) ≡ none
  queue_quiet : c.require_quiet ≡ true → queue_reason r.dplane.queue_depth ≡ none

IsSteady-of :
    (c : Config) (r : Rec) (k : Key)
    → Reached c r
    → key r ≡ some k
    → k.version_v4 ≢ none
    → sessions_ok c r ≡ true
    → IsSteady c k r
IsSteady-of c r k x counters counted established = record {
  sampled = x.sampled;
  running = x.running;
  read = x.read;
  counters = counters;
  counted = counted;
  established = established;
  cpu_quiet = x.cpu_quiet;
  queue_quiet = x.queue_quiet;
}

Tracks-settle-some :
    (c : Config) (st : Tracker) (h : List Rec) (r : Rec) (k : Key)
    → Reached c r
    → key r ≡ some k
    → Tracks c st h
    → Tracks c (settle c st r (some k)).1 (r ∷ h)
unfolding settle
Tracks-settle-some c st h r k x counters t = elim (Option-cases k.version_v4) [
  | inl missing ↦ simp missing (inl refl)
  | inr (v, found) ↦ elim (Bool-cases (sessions_ok c r)) [
    | inl good ↦
        simp (found, good) (Tracks-count c st k h r (IsSteady-of c r k x counters (λ e. cc) good) t)
    | inr bad ↦ simp (found, bad) (inl refl)
  ]
]

Tracks-settle :
    (c : Config) (st : Tracker) (h : List Rec) (r : Rec)
    → Reached c r
    → Tracks c st h
    → Tracks c (settle c st r (key r)).1 (r ∷ h)
Tracks-settle c st h r x t = elim (Option-cases (key r)) [
  | inl missing ↦ rw missing (unfold settle in inl refl)
  | inr (k, found) ↦ rw found (Tracks-settle-some c st h r k x found t)
]

Tracks-judge :
    (c : Config) (st : Tracker) (h : List Rec) (r : Rec) (b : Option Reason × Tracker)
    → is_sample r.kind ≡ true
    → r.dut_down ≡ false
    → read_failed r ≡ false
    → busy c st r ≡ b
    → Tracks c st h
    → Tracks c (judge c r b).1 (r ∷ h)
Tracks-judge c st h r (some why, st') sampled running read e t = inl refl
Tracks-judge c st h r (none, st') sampled running read e t =
    let (cpu, queue, streak, last) = busy_quiet c st st' r e in
    Tracks-settle c st' h r
      (record {
        sampled = sampled;
        running = running;
        read = read;
        cpu_quiet = λ _. cpu;
        queue_quiet = λ _. queue;
      })
      (moved t streak last)
  where
    moved : Tracks c st h → st'.streak ≡ st.streak → st'.last_key ≡ st.last_key → Tracks c st' h
    moved (inl z) streak last = inl (streak ∙ z)
    moved (inr (k, l, run)) streak last = inr (k, last ∙ l, rw streak run)

-- One record keeps the streak in step with the history.
pub Tracks-feed :
    (c : Config) (st : Tracker) (h : List Rec) (r : Rec)
    → Tracks c st h
    → Tracks c (feed c st r).1 (r ∷ h)
unfolding feed
Tracks-feed c st h r t = elim (Bool-cases (is_sample r.kind)) [
  | inr event ↦ simp event (skipped t (inl event))
  | inl sampled ↦ elim (Bool-cases r.dut_down) [
    | inl down ↦ simp (sampled, down) (inl refl)
    | inr running ↦ elim (Bool-cases (read_failed r)) [
      | inl failed ↦ simp (sampled, running, failed) (skipped t (inr (running, failed)))
      | inr read ↦ elim (Bool-cases c.require_quiet) [
        | inl quiet ↦
            simp (sampled, running, read, quiet)
              (Tracks-judge c _ h r _ sampled running read refl t)
        | inr loose ↦
            simp (sampled, running, read, loose)
              (Tracks-settle c _ h r
                (record {
                  sampled = sampled;
                  running = running;
                  read = read;
                  cpu_quiet = λ e. cc;
                  queue_quiet = λ e. cc;
                })
                t)
      ]
    ]
  ]
]
  where
    skipped : Tracks c st h → Ignored r → Tracks c st (r ∷ h)
    skipped (inl z) i = inl z
    skipped (inr (k, l, run)) i = inr (k, l, skip i run)

pub Tracks-after : (c : Config) (h : List Rec) → Tracks c (after c h) h
unfolding after
Tracks-after c [] = inl refl
Tracks-after c (r ∷ h) = Tracks-feed c (after c h) h r (Tracks-after c h)
