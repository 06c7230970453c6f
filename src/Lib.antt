-- ===== src/Lib.antt =====
-- VLAN tagger: a daemon that takes frames from one network interface, puts an 802.1Q header into
-- those whose IPv4 destination a configured rule names, and sends them out of another interface.
--
-- Parts and how they interact. main.c loads the rules with config_parser/config_parser.c and builds
-- a pipeline (pipeline/pipeline.c, pipeline/node.c) by pipeline_patterns/patterns.c. Each node is a
-- thread with a process function under nodes/src. A node pops frames from its input queue
-- (queue/queue.c) and pushes what it makes of them into the input queues of the nodes behind it.
--
-- Files:
--   Prelude     the names the other files share; Prelude/Tests has the Boolean tests and the integers
--               that C functions return, Prelude/Lists buffers and lists of native length.
--   Queue       queue/queue.h and queue/queue.c. `Queue` is `Queue_t`; `push`, `pop`, `front`, `back`,
--               `remove_front`, `init`, `queue_destroy` and `send_signal_queue` are the functions of
--               those names, each as one critical section. Queue/Fifo is the abstract list of packets,
--               Queue/Holds and Queue/Takes say which list a ring holds, Queue/Refine compares the two,
--               Queue/Waits is about a call of `pop` at its wait. Queue/Steps has the interleavings of
--               the threads as steps, and Queue/Sound and Queue/Monitor what they keep.
--   Config      config_parser/config_parser.h and config_parser/config_parser.c. Config has the rules
--               and `validate_rules`, Config/Text the functions on one line, Config/Load
--               `tag_rules_load`; Config/Valid says what valid rules are, Config/Load/Format what a
--               well-written file is, and Config/Load/Pieces, Bounds, Reads and Faults have the proofs.
--   Net         ntohl and ntohs of arpa/inet.h, on a host that stores the low byte first.
--   Frame       common.h, and copies within buffers.
--   Tagger      nodes/src/tagger_node.c: `get_tag`, `get_ip_offset`, `get_ip` and `edit_packet` are the
--               functions tagger_node_get_tag and so on; `tag_packet` is what a round of the loop of
--               `tagger_node_process` does with a frame. Tagger/Loop has the theorem on that loop.
--   Node        pipeline/node.h and pipeline/node.c, and the loop that the process functions share
--               (`process_loop`); Node/Rounds says which rounds reach its body.
--   Counter     nodes/src/packet_counter_node.c and nodes/src/collector_node.c; Counter/Loop compares the
--               packet counter's loop with the one of the other nodes.
--   Dispatcher  nodes/src/dispatcher_node.c.
--   IpModifier  nodes/src/ip_modifier_node.c. IpModifier/Carries is about the loop that folds the
--               checksum, Sums, Rewrites, Verifies and Redirects about `modify_destination_ip`, Loop
--               about the process function.
--   LoggerNode  nodes/src/logger_node.c. A `Dump` is `full_dump` while it is filled; Adds, Lines and
--               Dumps say what `log_packet_hex` puts into it, Loop is about the process function.
--   Sockets     nodes/src/socket_utils.c and the constructors of nodes/src/sniffer_node.c and
--               nodes/src/sender_node.c; Sockets/Process has the two process functions, Opens, Hears
--               and Sends the proofs. Strikes has the error counter of both loops.
--   Logger      logger/logger.h and logger/logger.c: `print_log` is printL, and `write_time` to
--               `write_newline` are its writes, each with its own way out. Logger/Parts says what they
--               leave, Logger/Writes what a call does.
--   Lifecycle   the threads and the memory of a pipeline: node_start, node_destroy, pipeline_build,
--               pipeline_start, pipeline_destroy, and the joins of pipeline_stop and main, of which one
--               may wait without end.
--   Route       the way of a frame from a tagger over the packet counter to the sender.
--   Main        main.c, from `main` to its exits.
--   Pipeline    pipeline/pipeline.h and pipeline/pipeline.c. A `Heap` has all nodes and queues; pointers
--               are places in it. Pipeline/Wired, Edges, Connect and Shared keep it well wired, and
--               Pipeline/Stops is about `pipeline_stop`.
--   Pattern     pipeline_patterns/patterns.c: `vlan_tagger_pattern` and `detailed_logging_pattern`.
-- The modules called Tests evaluate the cases of the repository's unit tests and apply the theorems at
-- concrete inputs.
--
-- Bounds and recursion. Every loop is structural recursion: over the bytes of a line or a file, the
-- rules, the outputs of a node, or the list of what the loop meets (the wake-ups of one `pop`, the
-- rounds of one process function). Counters are the 37 of `line_editor` and the 16 columns of a dump,
-- which are the code's own, and the words of an IPv4 header. `fold_carries` has fuel for two rounds,
-- which is enough for every 32-bit sum, and `dump_lines` for a round for each 16 bytes that a packet
-- begins, which is as often as the loop runs.
-- Sizes of 16 bits, sums of 32 bits, the unsigned int of the dispatcher and the unsigned longs of the
-- statistics keep their wrap-around; queue indices need none, since `next` stays below 1000. A read or
-- a write outside a buffer, a division by zero, a wrong `free`, a wrong `pthread_join` and a write to
-- a file that is not open are results of their own (`fault`, `overrun`, `none`, `bad_free`, `no_thread`).
-- The slots of a queue have 1522 bytes, which `push` tests before it writes.
--
-- Parameters: `inet_aton`, the numbers of `rand`, what `malloc` finds in memory, the answers of the
-- socket functions, the clock and the file functions, and whether calls of malloc, calloc and pthread
-- succeed.
--
-- Not modelled: the checks compiled only under DEBUG; the texts of the messages that the nodes and main
-- log, but for the dumps; failures of snprintf; the memory of the nodes' contexts, which nothing frees;
-- the signal handler of main.c.
pub mod Config
pub mod Counter
pub mod Dispatcher
pub mod Frame
pub mod IpModifier
pub mod Lifecycle
pub mod Logger
pub mod LoggerNode
pub mod Main
pub mod Net
pub mod Node
pub mod Pattern
pub mod Pipeline
pub mod Prelude
pub mod Queue
pub mod Route
pub mod Sockets
pub mod Strikes
pub mod Tagger
