-- ===== src/Main/Tests.antt =====
-- The theorem on `main` at a concrete input.
use vlan_tagger.Prelude.{◌≡◌, refl, true, false, [], none, some, pos}
use vlan_tagger.Config.Load.{opened}
use vlan_tagger.Queue.{Queue}
use vlan_tagger.Logger.{Log}
use vlan_tagger.Main.{World, exit_success, exit_failure, main}

abbrev memory : Queue
memory = record {
  slots = [];
  sizes = [];
  front = 0;
  rear = 0;
  condition = record { blocked = 0; released = 0 };
}

-- A child for which everything succeeds but the sockets.
abbrev world : World
world = record {
  fork = pos 0;
  setsid = true;
  log_contents = some [];
  mutex_made = true;
  setrlimit = true;
  signals = (true, true, true);
  inet_aton = λ s. none;
  config = opened [] false false;
  five_nodes = λ rules. (none, none, none, none, none);
  memory = memory;
  fates = [];
  threads_made = [];
  returns = λ n. true;
  closed = true;
  mutex_destroyed = true;
}

log : Log
log = record { file = none; locked = false; fates = [] }

parent : main 3 (record world { fork = pos 812 }) log ≡ exit_success
unfolding main log
parent = refl

misused : main 2 world log ≡ exit_failure
unfolding main log
misused = refl
