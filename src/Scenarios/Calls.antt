-- ===== src/Scenarios/Calls.antt =====
-- What the events of harness/scenarios.py call, and programs over such calls. An event runs against
-- an environment that answers every call, or raises, as it likes: the lab (`Dut`, `PeerFleet`,
-- `Sampler`), the random numbers and the clock. Times are milliseconds. A call's arguments that the
-- session determines (the DUT's addresses on its fabric) are left out.
use vyos_ixp_bgp_stress.Prelude.{
  ℕ, String, Bool, Option, List, [], ◌∷◌, ◌&&◌, ◌==◌, str_eq, if◌then◌else◌,
}
use vyos_ixp_bgp_stress.Telemetry.Violation.{Afi}
use vyos_ixp_bgp_stress.Telemetry.Sampler.{Json}
use vyos_ixp_bgp_stress.Inventory.Profile.{Session}
use vyos_ixp_bgp_stress.Mrt.Writer.{Prefix}
use vyos_ixp_bgp_stress.Prefixes.Batches.{Line}
use vyos_ixp_bgp_stress.Probes.{Command}

-- The values of an event's record.
mutual
  pub data Datum : Type 0 where
    nothing : Datum
    flag : Bool → Datum
    number : ℕ → Datum
    text : String → Datum
    named : String × ℕ → Datum
    many : Items → Datum
    dict : Entries → Datum

  pub data Items : Type 0 where
    end : Items
    item : Datum → Items → Items

  pub data Entries : Type 0 where
    done : Entries
    entry : String → Datum → Entries → Entries

abbrev pub Payload : Type 0
Payload = List (String × Datum)

-- A container, and a session, by the name and the index that their texts are made of.
abbrev pub Name : Type 0
Name = String × ℕ

abbrev pub same_name : Name → Name → Bool
same_name a b = str_eq a.0 b.0 && a.1 == b.1

pub data Exception : Type 0 where
  commit_timeout value_error unexpected : Exception

-- The files `<fragment>.apply.conf` and `<fragment>.revert.conf`.
pub data Way : Type 0 where
  apply revert : Way

-- `RunResult` of harness/dut.py, and what `PeerFleet.blackhole` and `PeerFleet.netem_active` return.
pub record RunResult : Type 0 where
  pub rc : ℕ
  pub out : String
  pub err : String
  pub seconds : ℕ

pub record Blackhole : Type 0 where
  pub iptables_present : Bool
  pub rules_installed : ℕ
  pub effective : Bool
  pub output : String

pub record Qdisc : Type 0 where
  pub active : Bool
  pub qdisc : String

-- A path of a `show bgp` answer, as far as the probes read it.
pub record BgpPath : Type 0 where
  pub loc_prf : Option ℕ
  pub local_pref : Option ℕ
  pub large_community : Option String

-- A line for `gobgp global rib`: the prefix, and for an addition the next hop, the MED, the AS path
-- and the large community, which is the AS number, 0 and a number.
pub data RibCommand : Type 0 where
  rib_del : Afi → Prefix → RibCommand
  rib_add : Afi → Prefix → Option ℕ → Option ℕ → List ℕ → Option (ℕ × ℕ) → RibCommand

pub data Call : Type 0 where
  impair_begin : Call
  impair_end : Option ℕ → Call
  expect_daemon_restart : String → Call
  event : String → Payload → Call
  sample : List Session → ℕ → Call
  uniform randrange : ℕ → ℕ → Call
  choice : List String → Call
  monotonic : Call
  sleep : ℕ → Call
  flap unflap : Session → String → Call
  addrs_missing addrs_misplaced : Name → Call
  blackhole : Session → Bool → Call
  rib_batch : Session → List RibCommand → Call
  inject_mrt : Session → Call
  exabgp_send_many : Session → List Line → Call
  netem : Name → ℕ → ℕ → ℕ → Call
  netem_clear netem_active : Name → Call
  bgp_summary : Afi → Call
  graceful_restart : Session → Call
  path_exists configure_file : String → Way → Call
  reset_bgp : String → Option String → Option Afi → Call
  restart_bgpd : Call
  exabgp_commands : Session → List Command → Call
  lookup_prefix : String → Afi → Call
  log_counts log_since : ℕ → Call
  set_walk_offset : Name → ℕ → Call

abbrev pub Answer : Call → Type 0
Answer (sample pool n) = List Session
Answer (uniform low high) = ℕ
Answer (randrange low high) = ℕ
Answer (choice pool) = String
Answer monotonic = ℕ
Answer (addrs_missing c) = List String
Answer (addrs_misplaced c) = List String
Answer (blackhole s on) = Blackhole
Answer (netem_active c) = Qdisc
Answer (bgp_summary afi) = Option Json
Answer (graceful_restart s) = Option Json
Answer (path_exists name way) = Bool
Answer (configure_file name way) = RunResult
Answer (reset_bgp target soft afi) = RunResult
Answer restart_bgpd = RunResult
Answer (lookup_prefix prefix afi) = Option (List BgpPath)
Answer (log_counts window) = List (String × ℕ)
Answer (log_since window) = List String
Answer _ = Unit {0}

pub data Outcome (A : Type 0) : Type 0 where
  ok : A → Outcome A
  raised : Exception → Outcome A

-- The newest call stands first.
abbrev pub Trace : Type 0
Trace = List Call

abbrev pub Environment : Type 0
Environment = (c : Call) → Trace → Outcome (Answer c)

abbrev pub Io : Type 0 → Type 0
Io A = Environment → Trace → Outcome A × Trace

unfoldable pub call : (c : Call) → Io (Answer c)
call c env t = (env c t, c ∷ t)

-- A call that only sets a field of the predicates, which raises nothing.
unfoldable pub note : Call → Io (Unit {0})
note c env t = (ok tt, c ∷ t)

unfoldable pub pure : {A : Type 0} → A → Io A
pure a env t = (ok a, t)

unfoldable pub raise : {A : Type 0} → Exception → Io A
raise e env t = (raised e, t)

abbrev pub continue :
    {A B : Type 0} → (A → Io B) → Environment → Outcome A × Trace → Outcome B × Trace
continue k env (ok a, t) = k a env t
continue k env (raised e, t) = (raised e, t)

infixl 5 ◌>>=◌ ◌>>◌
unfoldable pub ◌>>=◌ : {A B : Type 0} → Io A → (A → Io B) → Io B
(m >>= k) env t = continue k env (m env t)

abbrev pub ◌>>◌ : {A B : Type 0} → Io A → Io B → Io B
m >> k = m >>= λ _. k

-- `try: ... finally: ...`, with the results of both parts; what the second part raises replaces what
-- the first one did.
abbrev pub both : {A B : Type 0} → Outcome A → B → Outcome (A × B)
both (ok a) b = ok (a, b)
both (raised e) b = raised e

abbrev pub then_again : {A B : Type 0} → Outcome A → Outcome B × Trace → Outcome (A × B) × Trace
then_again first (ok b, t) = (both first b, t)
then_again first (raised e, t) = (raised e, t)

unfoldable pub try_finally : {A B : Type 0} → Io A → Io B → Io (A × B)
try_finally body last env t = then_again (body env t).0 (last env (body env t).1)

-- `try: ... except CommitTimeout: ...`
abbrev pub on_timeout : {A : Type 0} → Io A → Environment → Outcome A × Trace → Outcome A × Trace
on_timeout handler env (ok a, t) = (ok a, t)
on_timeout handler env (raised commit_timeout, t) = handler env t
on_timeout handler env (raised value_error, t) = (raised value_error, t)
on_timeout handler env (raised unexpected, t) = (raised unexpected, t)

unfoldable pub except_timeout : {A : Type 0} → Io A → Io A → Io A
except_timeout body handler env t = on_timeout handler env (body env t)

-- `try: ... except Exception: ...`
abbrev pub on_exception :
    {A : Type 0} → (Exception → Io A) → Environment → Outcome A × Trace → Outcome A × Trace
on_exception handler env (ok a, t) = (ok a, t)
on_exception handler env (raised e, t) = handler e env t

unfoldable pub except_any : {A : Type 0} → Io A → (Exception → Io A) → Io A
except_any body handler env t = on_exception handler env (body env t)

-- `for x in xs: ...`, and `[... for x in xs]`.
unfoldable pub each : {A : Type 0} → List A → (A → Io (Unit {0})) → Io (Unit {0})
each [] f = pure tt
each (x ∷ xs) f = f x >> each xs f

unfoldable pub collect : {A B : Type 0} → List A → (A → Io B) → Io (List B)
collect [] f = pure []
collect (x ∷ xs) f = f x >>= λ y. collect xs f >>= λ ys. pure (y ∷ ys)

-- `ctx.walk_offset`: what the newest assignment for the session says.
unfoldable pub newest_offset : Name → Trace → ℕ
newest_offset sid [] = 0
newest_offset sid (set_walk_offset other offset ∷ t) =
    let rest = newest_offset sid t in if same_name sid other then offset else rest
newest_offset sid (c ∷ t) = newest_offset sid t

-- `ctx.walk_offset.get(s.sid, 0)`
unfoldable pub walk_offset : Name → Io ℕ
walk_offset sid env t = (ok (newest_offset sid t), t)
