-- ===== src/Telemetry/Sampler/Cpu.antt =====
-- `Sampler._cpu_pct` of harness/telemetry.py. The clock is in milliseconds and percentages are
-- hundredths. `percent` is the rounded percentage that a number of clock ticks is of a time.
use vyos_ixp_bgp_stress.Prelude.{
  ℕ, ◌+◌, ◌-◌, ◌*◌, ◌<◌, ◌≤◌, ◌≡◌, ◌≢◌, String, Bool, true, false, not, ◌&&◌, Option, none, some,
  List, ltb, leb, ◌==◌, if◌then◌else◌, arith, eq_iff,
}
use vyos_ixp_bgp_stress.Prelude.Dict.{lookup, insert, lookup-insert}

-- An entry of `_prev_proc`.
pub record Reading : Type 0 where
  pub ticks : ℕ
  pub now : ℕ
  pub pid : Option ℕ

pub record Cpu : Type 0 where
  pub prev_proc : List (String × Reading)
  pub cpu_pct_impossible : ℕ

abbrev pub other_pid : Option ℕ → Option ℕ → Bool
other_pid before none = false
other_pid none (some p) = true
other_pid (some q) (some p) = not (q == p)

abbrev pub too_much : Option ℕ → ℕ → Bool
too_much none pct = false
too_much (some threads) pct = ltb 0 threads && ltb (threads * 10200) pct

abbrev pub impossible : Cpu → Cpu
impossible s = record s { cpu_pct_impossible = s.cpu_pct_impossible + 1 }

-- Behind the reset of the baseline. A negative percentage may round to zero.
abbrev pub between : (ℕ → ℕ → ℕ) → Reading → Reading → Option ℕ → Cpu → Option ℕ × Cpu
between percent prev cur threads s =
    if other_pid prev.pid cur.pid
    then (none, s)
    else if leb cur.now prev.now
    then (none, s)
    else if ltb cur.ticks prev.ticks
        && ltb 0 (percent (prev.ticks - cur.ticks) (cur.now - prev.now))
    then (none, impossible s)
    else let pct =
        (if ltb cur.ticks prev.ticks
          then 0
          else percent (cur.ticks - prev.ticks) (cur.now - prev.now)) in
      (some pct, if too_much threads pct then impossible s else s)

abbrev pub since_last : (ℕ → ℕ → ℕ) → Option Reading → Reading → Option ℕ → Cpu → Option ℕ × Cpu
since_last percent none cur threads s = (none, s)
since_last percent (some prev) cur threads s = between percent prev cur threads s

unfoldable pub cpu_pct : (ℕ → ℕ → ℕ) → Cpu → String → Reading → Option ℕ → Option ℕ × Cpu
cpu_pct percent s name cur threads =
    since_last percent (lookup name s.prev_proc) cur threads
      (record s { prev_proc = insert name cur s.prev_proc })

prev-cpu_pct :
    (percent : ℕ → ℕ → ℕ) (s : Cpu) (name : String) (cur : Reading) (threads : Option ℕ)
    → (cpu_pct percent s name cur threads).1.prev_proc ≡ insert name cur s.prev_proc
unfolding cpu_pct
prev-cpu_pct percent s name cur threads = ground arith

baseline :
    (percent : ℕ → ℕ → ℕ) (s : Cpu) (name : String) (cur : Reading) (threads : Option ℕ)
    → lookup name (cpu_pct percent s name cur threads).1.prev_proc ≡ some cur
baseline percent s name cur threads =
    rw (prev-cpu_pct percent s name cur threads, lookup-insert name name cur s.prev_proc)
      (ground (arith, eq_iff name name))

reset :
    (percent : ℕ → ℕ → ℕ) (t : Cpu) (name : String) (x y : Reading) (threads : Option ℕ) (p q : ℕ)
    → lookup name t.prev_proc ≡ some x
    → x.pid ≡ some p
    → y.pid ≡ some q
    → q ≢ p
    → (cpu_pct percent t name y threads).0 ≡ none
unfolding cpu_pct
reset percent t name x y threads p q known px py different =
    rw (known, px, py) (ground (arith, different))

goes_on :
    (percent : ℕ → ℕ → ℕ) (t : Cpu) (name : String) (x y : Reading) (threads : Option ℕ) (q : ℕ)
    → lookup name t.prev_proc ≡ some x
    → x.pid ≡ some q
    → y.pid ≡ some q
    → x.now < y.now
    → x.ticks ≤ y.ticks
    → (cpu_pct percent t name y threads).0 ≡ some (percent (y.ticks - x.ticks) (y.now - x.now))
unfolding cpu_pct
goes_on percent t name x y threads q known px py later grown = rw (known, px, py) (ground arith)

-- Across a change of a daemon's PID no percentage is reported, whatever was read before; the next
-- reading of the new process, later and with no fewer ticks, is measured from the first one of it.
pub restart_resets_baseline :
    (percent : ℕ → ℕ → ℕ) (s : Cpu) (name : String) (a b c : Reading) (threads : Option ℕ) (p q : ℕ)
    → a.pid ≡ some p
    → b.pid ≡ some q
    → c.pid ≡ some q
    → q ≢ p
    → b.now < c.now
    → b.ticks ≤ c.ticks
    → ((cpu_pct percent (cpu_pct percent s name a threads).1 name b threads).0 ≡ none)
      × ((cpu_pct percent
            (cpu_pct percent (cpu_pct percent s name a threads).1 name b threads).1
            name
            c
            threads).0
          ≡ some (percent (c.ticks - b.ticks) (c.now - b.now)))
restart_resets_baseline percent s name a b c threads p q pa pb pc different later grown =
    let s1 = (cpu_pct percent s name a threads).1 in
    (
      reset percent s1 name a b threads p q (baseline percent s name a threads) pa pb different,
      goes_on percent (cpu_pct percent s1 name b threads).1 name b c threads q
          (baseline percent s1 name b threads) pb pc later grown,
    )
