-- ===== src/Lib.antt =====
-- The verification development of the harness: models of its logic, translated by hand from the
-- Python source, and theorems about them.
--
-- The harness loads a profile, expands it into an inventory of BGP sessions (harness/model.py),
-- plans which prefixes each session announces and writes MRT tables of them (harness/routegen.py),
-- which tests/mrtcheck.py validates. Peers inject the tables into a router. A sampler reads the
-- router's state; a tracker decides from the samples when its tables have settled, a set of
-- predicates judges every sample against budgets (harness/telemetry.py), and the runner asks zebra
-- (harness/dut.py) whether the settled routes are installed (harness/runner.py).
--
-- Inventory/Asn.antt models the bogon ranges and next_safe_asn, Inventory/Profile.antt the records
-- of harness/model.py, Inventory/Build.antt build_inventory with what it calls;
-- Inventory/Usable.antt has the proofs about it.
--
-- Prefixes.antt models PrefixPlan of harness/routegen.py; Prefixes/Session.antt,
-- Prefixes/Slots.antt and Prefixes/Equal.antt have the proofs for one session, for sessions of
-- different sizes, and for sessions of equal size.
--
-- Mrt/Bytes.antt, Mrt/Attrs.antt and Mrt/Writer.antt model the path attributes, struct.pack and
-- MrtWriter of harness/routegen.py; Mrt/Walk.antt and Mrt/Check.antt model _walk_attributes and
-- check_file of tests/mrtcheck.py. Mrt/Fuel.antt and Mrt/Fuel/File.antt prove that the checker has
-- fuel enough. The files below Mrt/Accept prove, from attributes to whole files, that the checker
-- accepts what the writer writes.
--
-- Telemetry/Sample.antt is the record of a sample. Telemetry/Sampler.antt models _summarise_bgp
-- with the functions that find a peer in an answer, and Telemetry/Sampler/Cpu.antt models _cpu_pct.
-- Telemetry/Convergence.antt models ConvergenceTracker and Telemetry/Convergence/Wait.antt
-- wait_for_convergence, Telemetry/Violation.antt and Telemetry/Predicates.antt model Violation,
-- Budgets and PredicateSet, all of harness/telemetry.py. Telemetry/Fib.antt models feed_fib there,
-- route_summary of harness/dut.py, _fib_agrees and a round of the loop of _converge of
-- harness/runner.py. The files below these have the proofs.
--
-- Scenarios/Calls.antt has the calls that the events of harness/scenarios.py make, the programs
-- over them and the environment that answers them; Scenarios/Context.antt models Ctx,
-- Scenarios/Flap.antt, Scenarios/Blackhole.antt, Scenarios/Churn.antt, Scenarios/Policy.antt and
-- Scenarios/Netem.antt the events, with Scenarios/Probing.antt and Scenarios/Malformed.antt, which
-- announce the routes of Probes.antt and Probes/Table.antt (harness/policyprobe.py), and
-- Scenarios/Scheduler.antt Scheduler, whose run_one calls them. Scenarios/Brackets.antt has the
-- laws of calls that open and close something, and the files below Scenarios/Impairment the proofs
-- for each event. Prefixes/Batches.antt models exabgp_announce_batches of harness/routegen.py,
-- which the churn calls.
--
-- Analysis/Timeline.antt models flatten of analysis/analyze.py, and Analysis/Settle.antt,
-- Analysis/Metrics.antt, Analysis/Signatures.antt, Analysis/Flaps.antt and Analysis/Commits.antt
-- model _settle_after, pct and summarise, log_totals, flap_recovery and commit_latencies, which
-- read the timeline that the sampler and the events write.
--
-- Each Examples.antt holds tests and the theorems at concrete input. Prelude.antt passes on the
-- names of the libraries and has lists, dictionaries and Boolean tests over native numbers.
--
-- State is passed explicitly. An exception is `none` where the code raises one kind, and an error
-- value where it raises several. Times are milliseconds, percentages and ratios hundredths, and
-- memory tenths of a megabyte, as integers. Texts of messages are left out, and so is the parsing
-- of addresses.
--
-- The loops over bytes in Mrt/Walk.antt and Mrt/Check.antt take the length of the input as fuel:
-- every round consumes at least two bytes. The loop of next_safe_asn takes ten rounds, one for each
-- range. Runner.antt models expected_session_counts and sample_interval of harness/runner.py and
-- Runner/Ramp.antt cmd_ramp, whose steps are measured by a lab that may answer anything; the loop
-- runs over the steps that are left, so that it needs no fuel. Runner/Ramp/Limit.antt and
-- Runner/Ramp/Waves.antt have the proofs.
--
-- Not modelled: the command line and the phases of cmd_run, what runs in containers, the rendering
-- of configuration, the table of the malformed cases, maxprefix_trip and malformed_isolate, the
-- rendering of the report, and the self-tests.
pub mod Prelude
pub mod Telemetry
pub mod Analysis
pub mod Scenarios
pub mod Mrt
pub mod Inventory
pub mod Prefixes
pub mod Probes
pub mod Runner
