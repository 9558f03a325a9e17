-- ===== src/Lib.antt =====
-- peepbooth lets a producer process leave heartbeats and breadcrumbs in a shared memory record, and a
-- watcher process read them, sample the producer's resources from /proc and judge its health. This
-- library models its C++ code and proves what makes the parts correct.
--
-- The parts, and the code that each file is about:
--   SharedState            core/include/monitor/shared_state.hpp: the record both sides map
--   Platform.Kernel        the system calls, a parameter: each answer depends on all calls so far
--   Platform.SharedMemory  core/src/monitor/platform/shared_memory.cpp: the mapping and its makers
--   Platform.Resources     what a process holds of the kernel, by the calls that it has made
--   ProcFile               core/src/monitor/platform/process_watch.cpp: the readers of /proc files;
--                          Fields on the cutting of a line, Words on its fields, Stat on a whole stat
--                          file, Status and Memory on a status file
--   Platform.ProcessWatch  the same file: identity, sample and handle of a process; Identity on a
--                          process number that is used again
--   Client                 core/src/monitor/client.cpp: start, stop, heartbeat, set_channel_active
--                          and breadcrumb; Lease on its check of the watcher's lease, Throttle on
--                          its compare-exchange loop under interference, Ownership on what start
--                          and stop take and give back, Calls on sequences of calls, Active on the
--                          flags of the channels; Process is the inline functions of
--                          core/include/monitor/client.hpp on the client of the process; Lifetime on
--                          calls while other threads start and stop the client
--   GuiHeartbeat           core/src/monitor/qt/gui_heartbeat.cpp: the timer that beats for a GUI;
--                          Life on it from the constructor to the destructor
--   Session                core/src/monitor/watchdog.cpp, watchdog_session: attach, snapshot,
--                          renew_lease and release; History on the breadcrumbs of a snapshot,
--                          Records on a snapshot of a given record, Beats on what a snapshot shows
--                          of single calls, Exit on stop, Ownership on what attach takes, Handshake
--                          on a new record
--   Contract               client.cpp and watchdog.cpp together: what the record promises, as an
--                          abstract board of lease, pulses and log; Shown and Steps on one call, Refines on
--                          sequences, Start on the board of a new producer, Working on the verdict;
--                          Polls on looks of the observed process in between
--   Seqlock                client.cpp's breadcrumb against watchdog.cpp's read_breadcrumb, one shared
--                          access at a time; Invariant, Stores, Writing and Reading lead to Safety;
--                          Newest and Quiet on the ring between calls; Lapping is the run outside
--                          Safety's condition. Weak has the stores in an order that their memory
--                          orders allow; Early, Follows and InOrder lead to Shadow, on such a run and
--                          one in order; Reordered is the run in which that order matters
--   Heartbeat              client.cpp's heartbeat against watchdog.cpp's read_heartbeat, one shared
--                          access at a time, by any number of threads; Threads counts those between
--                          their stores, Fresh is on what is read, Loads on the loop, Late on a thread
--                          that stores late
--   Health                 watchdog.cpp, classify_health and the names; Verdict, Stale on heartbeats that
--                          are all old, Responsive on one that is not
--   Trend                  watchdog.cpp, memory_trend; Trim on its loop, Window on add, Growth on
--                          summary
--   Observed               core/src/monitor/observed_process.cpp; Samples on accept_sample, Polls on
--                          poll, Gap on polls that are far apart, Ownership on what it takes,
--                          Verdict on where its verdict comes from
--   CommandLine            core/src/monitor/console_watch.cpp, parse_command_line; Bounds, RoundTrip
--   Console                console_watch.cpp, run_console_watch; Ends on its loops, Codes on its exit
--                          code, Causes on its reports, Ownership on what it takes and gives back; Print is the bytes of
--                          each report, Lines their division into lines
--   Main                   core/src/main.cpp: the program on its arguments, with its signal handler;
--                          Exits on how it ends
--   Float                  `double` and its printing, a parameter; Console.Lines alone asks something of it
--   Base                   tests, lists, functions updated at a point, text, lines and decimal numbers
--   Tests                  concrete runs, and each theorem applied at concrete values
--
-- How they interact: the client makes a mapping with Platform.SharedMemory and keeps its address; the
-- session opens one by the same name, checks it and holds a lease in it, without which the client's
-- calls do nothing. The observed process owns a session and a process handle, and feeds the trend
-- and the verdict. The records stand in a memory by address; two mappings of one segment are two
-- uses of one address. An operation is a function from its state to its new state, with the reading
-- of the clock as an argument or as a call of the kernel. Operations of one process under
-- interference are step relations, in Seqlock, Heartbeat, Client.Throttle and Client.Lifetime.
--
-- Bounds and fuel. Words are numbers with their wrap-around written out. The loop over tickets has
-- fuel for 129 rounds and looks at 128 tickets at most. Printing `n` has fuel for `n + 1` digits.
-- Cutting a text into fields has as much fuel as the text has bytes, and each round takes one. The
-- failing exchanges of a throttle are a list that the caller of `claim` gives, of any length. The
-- console's second loop runs on fuel, which is enough once the signal to stop is sure to come
-- (Console.Ends, Main.Exits). The board of Contract counts without wrap-around, and what is seen of it
-- wraps in 64 bits.
--
-- Assumptions. But for Seqlock.Weak, shared accesses are sequentially consistent. The order that the
-- source asks of the payload's accesses is weaker; Weak has what that allows for the stores of a
-- call, and early loads are outside the model. In Client, locks and exceptions of start and stop are
-- left out: their bodies run one at a time, and allocation succeeds. Client.Lifetime has the lock,
-- and leaves open what is read in the record. Timeouts are not negative.
--
-- Not modelled: how a `double` is printed, the timer of Qt and its event loop, which are parameters; a
-- signal that comes before the handler of core/src/main.cpp is in place, which ends the process; and
-- the branches for platforms other than Linux.
pub mod Base
pub mod SharedState
pub mod ProcFile
pub mod Platform
pub mod Client
pub mod Session
pub mod Seqlock
pub mod Heartbeat
pub mod Float
pub mod GuiHeartbeat
pub mod Health
pub mod Trend
pub mod Observed
pub mod CommandLine
pub mod Contract
pub mod Console
pub mod Main
mod Tests
