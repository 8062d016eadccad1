-- ===== src/Telemetry/Convergence/Wait.antt =====
-- `wait_for_convergence` of harness/telemetry.py: the loop that polls the sampler's latest record. A
-- record has a number that stands for its identity, which `is not` compares. The callback on each
-- sample is left out, and times are milliseconds.
use vyos_ixp_bgp_stress.Prelude.{
  ℕ, ◌+◌, ◌-◌, ◌*◌, ◌≤◌, ◌<◌, ◌≡◌, refl, sym, ap, Bool, true, false, Option, none, some, List, [],
  ◌∷◌, ◌++◌, ltb, ◌==◌, if◌then◌else◌, arith, ltb→lt, Bool-cases, Option-cases, inl, inr,
}
use vyos_ixp_bgp_stress.Telemetry.Sample.{Rec}
use vyos_ixp_bgp_stress.Telemetry.Convergence.{Config, Key, Tracker, reset, feed}
use vyos_ixp_bgp_stress.Telemetry.Convergence.History.{IsRun, after}
use vyos_ixp_bgp_stress.Telemetry.Convergence.Confirm.{confirmed-IsRun}

abbrev pub Numbered : Type 0
Numbered = ℕ × Rec

-- One round of the loop: the time since its start at the test of the loop, what the sampler has, and
-- the time at the next look at the clock.
pub record Poll : Type 0 where
  pub at : ℕ
  pub latest : Option Numbered
  pub looked : ℕ

pub record Outcome : Type 0 where
  pub converged : Bool
  pub elapsed : ℕ
  pub last : Option Numbered

-- `rec and rec is not last`
abbrev pub unseen : Option Numbered → Option Numbered → Option Numbered
unseen last none = none
unseen none (some x) = some x
unseen (some (i, s)) (some (j, r)) = if i == j then none else some (j, r)

-- Dated back to the first sample of the streak: `elapsed - (stable_samples - 1) * interval`, from 0.
abbrev pub dated_back : Config → ℕ → ℕ → ℕ
dated_back c interval elapsed = elapsed + interval - c.stable_samples * interval

-- `none` if the polls end before the loop does.
unfoldable pub wait : Config → ℕ → ℕ → Option Numbered → Tracker → List Poll → Option Outcome
wait c timeout interval last st [] = none
wait c timeout interval last st (p ∷ rest) =
    if ltb p.at timeout
    then elim (unseen last p.latest) [
      | none ↦ wait c timeout interval last st rest
      | some x ↦
          let (ok, st') = feed c st x.1 in
          let later = wait c timeout interval (some x) st' rest in
          if ok
          then some
              (record { converged = true; elapsed = dated_back c interval p.looked; last = some x })
          else later
    ]
    else some (record { converged = false; elapsed = p.looked; last = last })

unfoldable pub wait_for_convergence : Config → ℕ → ℕ → List Poll → Option Outcome
wait_for_convergence c timeout interval polls = wait c timeout interval none reset polls

-- A record that is not the newest one so far is put in front, which its number tells.
abbrev pub take_in : List Numbered → Option Numbered → List Numbered
take_in h none = h
take_in [] (some x) = x ∷ []
take_in (y ∷ h) (some x) = if x.0 == y.0 then y ∷ h else x ∷ y ∷ h

-- What the polls have shown, newest first, a record that stays for several polls once.
unfoldable pub taken : List Numbered → List Poll → List Numbered
taken h [] = h
taken h (p ∷ polls) = taken (take_in h p.latest) polls

abbrev pub records : List Numbered → List Rec
records [] = []
records (x ∷ h) = x.1 ∷ records h

-- The loop has stopped at a poll in time whose record ends a run of what the polls up to it have
-- shown.
pub record IsConfirmed (c : Config) (timeout interval : ℕ) (polls : List Poll) (o : Outcome)
    : Type 0 where
  pub before : List Poll
  pub poll : Poll
  pub later : List Poll
  pub polls_eq : polls ≡ before ++ poll ∷ later
  pub in_time : poll.at < timeout
  pub history : List Numbered
  pub last : Numbered
  pub shown : taken [] (before ++ poll ∷ []) ≡ last ∷ history
  pub last_eq : o.last ≡ some last
  pub elapsed_eq : o.elapsed ≡ dated_back c interval poll.looked
  pub counters : Key
  pub count : ℕ
  pub enough : c.stable_samples ≤ count
  pub positive : 0 < count
  pub run : IsRun c counters count (last.1 ∷ records history)

-- Where the loop stops, after a history that it was given.
record Stops (c : Config) (timeout interval : ℕ) (h : List Numbered) (polls : List Poll)
    (o : Outcome) : Type 0 where
  before : List Poll
  poll : Poll
  later : List Poll
  polls_eq : polls ≡ before ++ poll ∷ later
  in_time : poll.at < timeout
  history : List Numbered
  last : Numbered
  shown : taken h (before ++ poll ∷ []) ≡ last ∷ history
  outcome :
      o ≡ record { converged = true; elapsed = dated_back c interval poll.looked; last = some last }
  confirms : (feed c (after c (records history)) last.1).0 ≡ true

abbrev newest : List Numbered → Option Numbered
newest [] = none
newest (x ∷ h) = some x

take_in-same :
    (h : List Numbered) (latest : Option Numbered)
    → unseen (newest h) latest ≡ none
    → take_in h latest ≡ h
take_in-same h none e = refl
take_in-same [] (some x) e = cc
take_in-same ((i, s) ∷ h) (some (j, r)) e = ground arith

take_in-new :
    (h : List Numbered) (latest : Option Numbered) (x : Numbered)
    → unseen (newest h) latest ≡ some x
    → take_in h latest ≡ x ∷ h
take_in-new h none x e = cc
take_in-new [] (some y) x e = cc
take_in-new ((i, s) ∷ h) (some (j, r)) x e = ground arith

some-inj : (a b : Outcome) → some a ≡ some b → a ≡ b
some-inj a b e = cc

Stops-later :
    (c : Config) (timeout interval : ℕ) (h h' : List Numbered) (p : Poll) (polls : List Poll)
    (o : Outcome)
    → take_in h p.latest ≡ h'
    → Stops c timeout interval h' polls o
    → Stops c timeout interval h (p ∷ polls) o
unfolding taken
Stops-later c timeout interval h h' p polls o e s = record {
  before = p ∷ s.before;
  poll = s.poll;
  later = s.later;
  polls_eq = ap (◌∷◌ p) s.polls_eq;
  in_time = s.in_time;
  history = s.history;
  last = s.last;
  shown = rw (taken, e) s.shown;
  outcome = s.outcome;
  confirms = s.confirms;
}

wait-Stops :
    (c : Config) (timeout interval : ℕ) (h : List Numbered) (polls : List Poll) (o : Outcome)
    → wait c timeout interval (newest h) (after c (records h)) polls ≡ some o
    → o.converged ≡ true
    → Stops c timeout interval h polls o
unfolding wait after taken
wait-Stops c timeout interval h [] o e yes' = cc
wait-Stops c timeout interval h (p ∷ rest) o e yes' = elim (Bool-cases (ltb p.at timeout)) [
  | inr over ↦ cc (rw over at e)
  | inl early ↦ elim (Option-cases (unseen (newest h) p.latest)) [
    | inl same ↦
        Stops-later c timeout interval h h p rest o (take_in-same h p.latest same)
          (wait-Stops c timeout interval h rest o (rw (early, same) at e) yes')
    | inr (x, new) ↦ elim (Bool-cases (feed c (after c (records h)) x.1).0) [
      | inl ok ↦ record {
        before = [];
        poll = p;
        later = rest;
        polls_eq = refl;
        in_time = ltb→lt p.at timeout early;
        history = h;
        last = x;
        shown = take_in-new h p.latest x new;
        outcome = sym (some-inj _ o (rw (early, new, ok) at e));
        confirms = ok;
      }
      | inr go_on ↦
          Stops-later c timeout interval h (x ∷ h) p rest o (take_in-new h p.latest x new)
            (wait-Stops c timeout interval (x ∷ h) rest o (rw (early, new, go_on) at e) yes')
    ]
  ]
]

-- If the loop reports convergence, then it does so at a poll before the timeout. The records that the
-- polls up to this one have shown, one that stays for several polls taken once, end in the record
-- that is returned, and this one ends a run of the same table counters that is at least
-- `stable_samples` and at least one long. The time is dated back from this poll.
pub wait_for_convergence-IsConfirmed :
    (c : Config) (timeout interval : ℕ) (polls : List Poll) (o : Outcome)
    → wait_for_convergence c timeout interval polls ≡ some o
    → o.converged ≡ true
    → IsConfirmed c timeout interval polls o
unfolding wait_for_convergence after
wait_for_convergence-IsConfirmed c timeout interval polls o e yes' =
    let s : Stops c timeout interval [] polls o = wait-Stops c timeout interval [] polls o e yes' in
    let (k, n, enough, positive, run) = confirmed-IsRun c (records s.history) s.last.1 s.confirms in
    record {
      before = s.before;
      poll = s.poll;
      later = s.later;
      polls_eq = s.polls_eq;
      in_time = s.in_time;
      history = s.history;
      last = s.last;
      shown = s.shown;
      last_eq = ap (λ z. z.last) s.outcome;
      elapsed_eq = ap (λ z. z.elapsed) s.outcome;
      counters = k;
      count = n;
      enough = enough;
      positive = positive;
      run = run;
    }

wait-returns :
    (c : Config) (timeout interval : ℕ) (last : Option Numbered) (st : Tracker) (front : List Poll)
    (p : Poll) (rest : List Poll)
    → timeout ≤ p.at
    → (o : Outcome) × (wait c timeout interval last st (front ++ p ∷ rest) ≡ some o)
unfolding wait
wait-returns c timeout interval last st [] p rest late =
    let over : ltb p.at timeout ≡ false = ground arith in
    (record { converged = false; elapsed = p.looked; last = last }, rw over refl)
wait-returns c timeout interval last st (q ∷ front) p rest late =
    elim (Bool-cases (ltb q.at timeout)) [
      | inr over ↦ (record { converged = false; elapsed = q.looked; last = last }, rw over refl)
      | inl within ↦ elim (Option-cases (unseen last q.latest)) [
        | inl same ↦
            let (o, e) = wait-returns c timeout interval last st front p rest late in
            (o, rw (within, same) e)
        | inr (x, new) ↦ elim (Bool-cases (feed c st x.1).0) [
          | inl ok ↦ (
            record { converged = true; elapsed = dated_back c interval q.looked; last = some x },
            rw (within, new, ok) refl,
          )
          | inr go_on ↦
              let (o, e) =
                wait-returns c timeout interval (some x) (feed c st x.1).1 front p rest late in
              (o, rw (within, new, go_on) e)
        ]
      ]
    ]

-- The loop returns as soon as its clock has reached the timeout: with a poll at or behind it among
-- the polls there is an outcome.
pub wait_for_convergence-returns :
    (c : Config) (timeout interval : ℕ) (front : List Poll) (p : Poll) (rest : List Poll)
    → timeout ≤ p.at
    → (o : Outcome) × (wait_for_convergence c timeout interval (front ++ p ∷ rest) ≡ some o)
unfolding wait_for_convergence
wait_for_convergence-returns c timeout interval front p rest late =
    wait-returns c timeout interval none reset front p rest late
