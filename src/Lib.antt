-- ===== src/Lib.antt =====
-- BenchExec, a framework for reliable benchmarking: a model of its own logic, in Python under
-- benchexec/, with the theorems that make it correct.
--
-- Text is Python's str as a list of code points (Prelude/Strings.antt); int is the native number
-- where the code only uses natural numbers, and the ℤ of Prelude/Int.antt where a value may be
-- negative. What a call returns or raises is an Outcome (Prelude/Outcome.antt).
--
-- * Result.antt models benchexec/result.py: how the answer of a tool is classified, compared with
--   the expected verdict of the task and scored. CATEGORY_* and RESULT_CLASS_* are enumerations,
--   since the program only compares them; an answer is a Text. The regular expression of
--   ExpectedResult.from_str is written out as a matcher. Property.create takes the lines of the
--   property file and its base name as arguments: reading files is not modelled.
--
-- * Util.antt models the parsers of benchexec/util.py: lists of integers, and values with a unit. int()
--   and str.isdigit are modelled on ASCII digits; other Unicode digits are not.
-- * Resources.antt and the files below it model benchexec/resources.py: Machine.antt holds the data,
--   HyperThreading.antt the part that leaves out siblings, Plan.antt the checks and the values computed
--   from them, Assignment.antt the loops that assign cores to runs (_get_cpu_cores_per_run0),
--   Kernel.antt how the machine is read (get_cpu_cores_per_run) and Memory.antt the memory banks;
--   OneEach.antt is about the cores that HyperThreading.antt keeps. Numbers of units may be negative;
--   they are moved up to natural numbers, which keeps their order. An
--   exit or an exception is a Failure; each assert of the code is one. What the kernel and the cgroups
--   say is an argument. Log messages are not modelled. The loops are recursions on the lists, the units
--   and the runs that they go over, so no fuel is needed.
-- * Util/ExitCode.antt models ProcessExitCode of benchexec/util.py; the bit operations of from_raw are
--   written as quotient and remainder.
-- * Model.antt and the files below it model benchexec/model.py: Status.antt is Run._analyze_result with
--   Run._is_timeout, and what Run.set_result stores of them. The tool-info module is an argument that
--   says a text for an exit code and a termination reason; measured times and limits are natural
--   numbers in one unit. Violations.antt, Crashes.antt and Answered.antt hold the theorems. They speak
--   of the termination reasons of the table in model.py, which are all that benchexec/runexecutor.py
--   gives.
--   TaskDefinition.antt is load_task_definition_file after the parsing, the files that a task
--   definition names, the choice of the expected verdict in RunSet.create_run_from_task_definition and
--   the check of get_propertytag; Verdicts.antt and Filters.antt hold the theorems. The YAML document
--   is a record, and what the file system says of patterns and equal files is an argument.
--   Limits.antt reads the resource limits of Benchmark.__init__, from the attributes of the root tag
--   and the options of the command line, with the adjustment of the soft and the hard time limit;
--   Limited.antt holds the theorems. Requirements.antt is Requirements.__init__. Numbers that the code
--   has checked to be positive are natural numbers.
-- * TableGenerator.antt and the files below it model the statistics of a column, of
--   benchexec/tablegenerator/statistics.py. A pair of a category and a class, which keys a dict, is a
--   number. Statistics.antt is about a status column, NumberColumn.antt about a number column and
--   StatValue.antt is StatValue.from_list. A finite Decimal is an integer in a small enough unit, an
--   average, a median and the square of a deviation are fractions: what Decimal rounds is not modelled.
--   Counts.antt, StatOrder.antt, StatError.antt, StatSummary.antt and NumberStats.antt hold the theorems.
-- * Execution.antt and the files below it model how benchexec/runexecutor.py executes a run, with
--   benchexec/oomhandler.py and benchexec/filehierarchylimit.py. Arguments.antt holds the checks of
--   RunExecutor.execute_run; Timer.antt is _TimelimitThread, in nanoseconds; Limiters.antt holds the
--   threads for files and memory; a pass of a thread is a function from what it reads to its effects.
--   Events.antt composes them: the environment is a list of events in any order, and run_events applies
--   the effects, with _set_termination_reason. FirstReason.antt is the specification, and Noticed.antt
--   and Refined.antt show that run_events implements it; Recorded.antt is what _Worker.execute of
--   benchexec/localexecution.py records, and Judged.antt goes on to the category of the run in
--   Model.antt. Measurements.antt is _get_cgroup_measurements; the loop that reads until two values
--   agree takes fuel, and Measured.antt shows how much is enough.
-- * Container.antt and the files below it model the file-system view of a container, in
--   benchexec/containerexecutor.py and benchexec/container.py: Options.antt is
--   handle_basic_container_args and what ContainerExecutor.__init__ makes of the modes, Modes.antt is
--   determine_directory_mode, with path_is_below of benchexec/util.py, and MountTable.antt is
--   get_mount_points. Below.antt, Last.antt, Deepest.antt, Steps.antt, Accepted.antt and Decoded.antt hold the
--   theorems. os.path.abspath and os.path.isdir are arguments; a path is the list of its bytes.
-- * Cgroups.antt and the files below it model the state of Cgroup in benchexec/cgroups.py, and
--   RunExecutor._init_cgroups of benchexec/runexecutor.py. What the system says when a child is created
--   is an argument, the same for each check of a subsystem. Children.antt is create_fresh_child_cgroup.
--   Required.antt and Shared.antt hold the theorems.
-- * LocalExecution.antt models the queue and the worker threads of benchexec/localexecution.py: the
--   state is a Pool, a step is one move of one worker or the interrupt, and the steps come in any order.
--   Conserved.antt holds the invariant, Finished.antt and Ending.antt the theorems. A run is a number.
--   Requested.antt is what execute_benchmark and _Worker.execute ask of the executor, and Granted.antt
--   joins it to Model/Limits.antt and to Execution/Arguments.antt.
-- * TableGenerator/Merge.antt models merge_tasks, find_common_tasks and get_rows of
--   benchexec/tablegenerator/__init__.py, for tasks of any type with an equality test; the loops over
--   mutated lists are recursions that pass on what they change. Merged.antt is about the list of tasks,
--   Rows.antt about the results and the rows.
--   Differences.antt models filter_rows_with_differences of the same file; Agreement.antt and
--   Selected.antt hold the theorem.
-- * OutputHandler.antt models Statistics of benchexec/outputhandler.py, with the numbers that it prints;
--   Totals.antt is about the counts and Scored.antt about the scores.
--
-- Not modelled: starting processes, namespaces, mounts and the files of cgroups, which are calls of the operating system;
-- the rest of the output (benchexec/outputhandler.py) and of the table generator
-- (benchexec/tablegenerator/).
pub mod Prelude
pub mod Result
pub mod Util
pub mod Resources
pub mod Model
pub mod Container
pub mod Cgroups
pub mod Execution
pub mod LocalExecution
pub mod OutputHandler
pub mod TableGenerator
