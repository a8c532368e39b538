-- ===== src/Lib.antt =====
-- PCAG, the proof-carrying action gateway (pcag/): an agent asks for a sequence of physical
-- actions, with a proof package; the gateway checks it against the active policy and the plant,
-- has it judged by the Safety Cluster, and executes it in two phases through the OT Interface,
-- leaving evidence of each stage in a hash-chained ledger.
--
-- Base.antt has the names that all modules share.
--
-- Core.antt: the functions of pcag/core. Int and Json are Python's integers and JSON values, Text
--   its texts of numbers and strings, Canonicalize and Hash are core/utils/canonicalize.py and
--   hash_utils.py, Integrity is core/services/integrity_service.py (check_integrity), Consensus is
--   core/services/consensus_engine.py (evaluate_consensus), AlternativeAction is
--   core/services/alternative_action.py, Rules is core/services/rules_validator.py
--   (validate_rules), Cbf is core/services/cbf_validator.py (StaticCBFValidator), Auth is
--   core/middleware/auth.py. Integrity/Window, Consensus/Modes, Consensus/Monotone, Rules/Verdicts,
--   Rules/Decides, Cbf/InBounds and Cbf/Margins have their theorems; Samples has
--   concrete parameters for the tests.
--
-- Ledger.antt: pcag/apps/evidence_ledger. Repository has the table evidence_events, append_event
--   and verify_chain; Chain what verify_chain decides; Store what appending and reading give.
--
-- Ot.antt: pcag/apps/ot_interface. Repository is repository.py over the table `transactions`,
--   Service the methods of PersistentTxStateMachine (service.py), Routes the handlers of routes.py.
--   Count, Keys and Exclusion lead to mutual exclusion, Steps is the database as a step relation,
--   Race splits PREPARE into its queries and its write, Status, Commit, Permanent and Estop say
--   what the answers mean, Serve runs requests one after another, with the sessions of others
--   inside a COMMIT, and Serve/Once counts what they acknowledge. Ot/Manager is
--   executor_manager.py (ExecutorManager) and its theorem.
--
-- Memory.antt: pcag/core/services/tx_state_machine.py, the two-phase state machine in memory.
--
-- Policy.antt: pcag/apps/policy_store/repository.py over the table `policies`, with sessions that
--   commit or are rolled back; Policy/Admin has the handlers of policy_store/routes.py and
--   policy_admin/routes.py. Refines is the abstract store, Implements and Runs say that the
--   handlers keep to it, Table has the lemmas on rows, Versions the search of a free version name.
--
-- Safety.antt: pcag/apps/safety_cluster/service.py, which runs Rules, Cbf and a simulation
--   backend on a request and combines them by Consensus; Safety/Accepts says what a SAFE answer
--   rests on.
--
-- Agv.antt: pcag/plugins/simulation/discrete_event.py, the simulation of AGVs on a grid:
--   positions and paths; Agv/Cycles the AGVs that wait for each other, Agv/Detect the checks of a
--   step and validate_trajectory, Agv/Clear and Agv/Paths the theorems.
--
-- Reactor.antt: pcag/plugins/simulation/ode_solver.py, the simulation of a thermal reactor: the
--   constraints and the derivative; Reactor/Simulation has the solver, its segments and what they
--   record, Reactor/Validate validate_trajectory, Reactor/Bounds and Reactor/Sound the theorems.
--
-- Plc.antt: pcag/apps/plc_adapter. The module itself has the values in Modbus registers, Recovery
--   the connection with its one retry, Virtual the registers of an asset without hardware, Actions
--   the actions and their translation, Service the state of PlcAdapterService with its
--   configuration, Operations its methods, Routes the handlers of routes.py. Words, Snapshot,
--   WellFormed, Kept, Preserves, Isolation, Answers and Replies have theorems, Rules the rules for
--   what a method leaves behind.
--
-- Modbus.antt: pcag/plugins/executor/modbus_executor.py, the connection and single writes; Execute has
--   the translation of actions, execute and safe_state, Reports the theorems.
--
-- Sensors.antt: pcag/apps/sensor_gateway/routes.py (CompositeSensorSource, get_latest_snapshot);
--   Sensors/Snapshot has its theorem.
--
-- Gateway.antt: pcag/apps/gateway/routes.py. Types has the messages of pcag/core/contracts, Monad
--   the coroutine over the world outside, with a trace of its calls, Helpers the helper functions,
--   Pipeline, Execution and Commit the stages of submit_control_request (the code after each await
--   is a function of its answer), Runs the rules for postconditions, Linked and Evidence the chain
--   of the events, Gate and Guarded the order of the checks before COMMIT, Success a run that every
--   service agrees to.
--
-- Parameters: the executors of plants (Executor), the other services as the gateway calls them
-- (Services), SHA-256 and the format of floats (Hashing), the arithmetic of numbers with floats
-- (Arith, Floats; FloatLaws and NumberLaws name the laws of numbers that a theorem uses), the
-- infinities and `int` of a text (Limits), uuids and `str` of an integer (Naming), the arithmetic
-- of AGVs (Moves), `float`, `round` and the struct module (Packing, Numerics), `int` and
-- the iteration over a value (Python), the Modbus client and the device (Modbus, Client), the configuration
-- files and the clock of the PLC adapter (Environment), scipy's solve_ivp (Integrator) with the
-- viewer and the time limit of the reactor, the executors' plugins (Plugins), the sensor sources with
-- their configuration (Plant), the simulation backends and the parsing of
-- rules (Backends), and json.loads. A database session either raises, which leaves the table as
-- it was, or runs as a whole, though nothing in the code keeps two sessions apart (Ot/Race has the
-- sessions of two PREPAREs that overlap); time is a natural number of milliseconds. The model of append_event
-- raises for a duplicate only. On fuel are decimal of Core/Text, with as much fuel as the value
-- of its number, which is more than its number of digits, free_version of Policy.antt, which a
-- theorem shows to need no more than one draw more than there are rows, the loops of a path of
-- Agv.antt, which need as many rounds as the integer coordinates differ by, and traverse of
-- Agv/Cycles, which needs one round for each wait.
--
-- Not modelled: the texts for people, logging and timing of the gateway; the routes and the
-- Isaac worker of safety_cluster and the dashboard under pcag/apps; the lock of a connection of
-- plc_adapter and the texts of its exceptions; the margin ratio and rounding of the CBF
-- validator's details; the Isaac simulator, the sensors and the PLC adapter's executor of
-- pcag/plugins; the viewer of the reactor; configuration, scripts and tests.
pub mod Agv
pub mod Base
pub mod Core
pub mod Gateway
pub mod Ledger
pub mod Memory
pub mod Modbus
pub mod Ot
pub mod Plc
pub mod Policy
pub mod Reactor
pub mod Safety
pub mod Sensors
