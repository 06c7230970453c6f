-- ===== src/Main.antt =====
-- main.c: the daemon from its start to its exit. The lines that it logs, the descriptors that it closes
-- and its signal handler are not part of this.
pub mod Exits
mod Tests
use vlan_tagger.Prelude.{
  ℕ, zero, suc, ◌+◌, Bool, true, false, not, List, [], ◌∷◌, ◌++◌, Option, none, some, ◌==◌,
  if◌then◌else◌, ℤ, pos, negsuc, Bytes, length,
}
use vlan_tagger.Config.{TagRule}
use vlan_tagger.Config.Load.{ok, err, fault, ConfigFile, tag_rules_load}
use vlan_tagger.Queue.{Queue}
use vlan_tagger.Node.{Node}
use vlan_tagger.Pipeline.{Pipeline, Heap, next_fate, pipeline_init}
use vlan_tagger.Pattern.{vlan_tagger_pattern}
use vlan_tagger.Logger.{Log, start_log, stop_log}
use vlan_tagger.Lifecycle.{
  Block, nodes_array, queues_array, queue_block, node_block, outputs_block, pipeline_build,
  pipeline_start, joined, no_thread, never, join_all, pipeline_destroy,
}

-- What the daemon meets: the answers of the system, the configuration file, what the constructors of
-- the five nodes return for the rules, the memory for queues, and which threads ever end.
pub record World : Type 0 where
  pub fork : ℤ
  pub setsid : Bool
  pub log_contents : Option Bytes
  pub mutex_made : Bool
  pub setrlimit : Bool
  pub signals : Bool × Bool × Bool
  pub inet_aton : Bytes → Option ℕ
  pub config : ConfigFile
  pub five_nodes :
      List TagRule → Option Node × Option Node × Option Node × Option Node × Option Node
  pub memory : Queue
  pub fates : List Bool
  pub threads_made : List Bool
  pub returns : ℕ → Bool
  pub closed : Bool
  pub mutex_destroyed : Bool

-- How the process ends: it exits; it frees what `malloc` did not give; it closes a log that is not open;
-- it joins what is no thread; it waits for a thread without end; or it leaves the buffer of a line
-- of the configuration file.
pub data Exit : Type 0 where
  exit_success : Exit
  exit_failure : Exit
  bad_free : Exit
  bad_close : Exit
  bad_join : Exit
  waits : Exit
  bad_line : Exit

-- `cleanup`, and then `exit`.
unfoldable pub cleanup : World → Log → Exit → Bool → Bool → List ℕ → List ℕ → List Block → Exit
cleanup world log status nodes_set queues_set queues nodes live =
    elim (pipeline_destroy nodes_set queues_set queues nodes live) [
      | none ↦ bad_free
      | some left ↦ elim (stop_log world.closed world.mutex_destroyed log) [
        | none ↦ bad_close
        | some r ↦ status
      ]
    ]

-- The global pipeline before anything was put into it.
abbrev pub empty_heap : List Bool → Heap
empty_heap fates = record {
  nodes = [];
  queues = [];
  pipeline = record { nodes = []; queues = []; should_exit = false };
  fates = fates;
}

-- The blocks of the nodes and queues that there are, from the place `i` on.
abbrev pub queues_from : ℕ → List Queue → List Block
queues_from i [] = []
queues_from i (q ∷ qs) = queue_block i ∷ queues_from (i + 1) qs

abbrev pub nodes_from : ℕ → List Node → List Block
nodes_from i [] = []
nodes_from i (n ∷ ns) = outputs_block i ∷ node_block i ∷ nodes_from (i + 1) ns

abbrev pub live_blocks : Heap → List Block
live_blocks h = queues_from 0 h.queues ++ (nodes_from 0 h.nodes ++ nodes_array ∷ queues_array ∷ [])

-- The loop that joins the threads, and the end of `main`.
unfoldable pub finish : World → Log → Heap → List ℕ → Exit
finish world log h threads = elim (join_all world.returns h.pipeline.nodes threads) [
  | no_thread ↦ bad_join
  | never ↦ waits
  | joined left ↦
      cleanup world log exit_success true true h.pipeline.queues h.pipeline.nodes (live_blocks h)
]

-- From `pipeline_start` on.
unfoldable pub run_pipeline : World → Log → Heap → Exit
run_pipeline world log h =
    let (r, threads) = pipeline_start h.pipeline.nodes world.threads_made [] in
    elim r [
      | pos zero ↦ finish world log h threads
      | _ ↦
          cleanup world log exit_failure true true h.pipeline.queues h.pipeline.nodes
            (live_blocks h)
    ]

-- From `pipeline_build` on.
unfoldable pub build_pipeline : World → Log → List TagRule → Heap → Exit
build_pipeline world log rules h =
    let (sniffer, tagger1, tagger2, counter, sender) = world.five_nodes rules in
    let (r, h') =
      pipeline_build
        (some (vlan_tagger_pattern world.memory sniffer tagger1 tagger2 counter sender)) h in
    elim r [
      | pos zero ↦ run_pipeline world log h'
      | _ ↦
          cleanup world log exit_failure true true h'.pipeline.queues h'.pipeline.nodes
            (live_blocks h')
    ]

-- From `pipeline_init` on. Where it fails it has freed the arrays, and their pointers stay.
unfoldable pub init_pipeline : World → Log → List TagRule → Exit
init_pipeline world log rules =
    let (nodes_made, h1) = next_fate (empty_heap world.fates) in
    let (queues_made, h2) = next_fate h1 in
    let (r, h') = pipeline_init (empty_heap world.fates) in
    elim r [
      | pos zero ↦ build_pipeline world log rules h'
      | _ ↦ cleanup world log exit_failure nodes_made queues_made [] [] []
    ]

-- The child, from `start_log` on; the result of `start_log` is not looked at.
unfoldable pub daemon : World → Log → Exit
daemon world log0 =
    let log = (start_log world.log_contents world.mutex_made log0).1 in
    let give_up = cleanup world log exit_failure false false [] [] [] in
    if not world.setrlimit
    then give_up
    else if not world.signals.0
    then give_up
    else if not world.signals.1
    then give_up
    else if not world.signals.2
    then give_up
    else elim (tag_rules_load world.inet_aton world.config) [
      | ok rules ↦ init_pipeline world log rules
      | err e ↦ give_up
      | fault ↦ bad_line
    ]

-- `main`, given the number of arguments.
unfoldable pub main : ℕ → World → Log → Exit
main argc world log = if not (argc == 3) then exit_failure else elim world.fork [
  | negsuc n ↦ exit_failure
  | pos (suc pid) ↦ exit_success
  | pos zero ↦ if not world.setsid then exit_failure else daemon world log
]
