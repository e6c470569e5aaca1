-- ===== src/Raft/Tickers/Tests.antt =====
-- Rounds of the loops of raft.cpp at a node with three entries, of which two are committed.
use rpc_storage_cpp.Common.{ok, ◌+◌, ◌*◌, ◌≤◌, ◌<◌, ◌≡◌, refl, ◌≢◌, ◌⊎◌, some, [], ◌∷◌, arith}
use rpc_storage_cpp.Raft.Vote.Elects.{Elects}
use rpc_storage_cpp.Raft.Tickers.Timing.{Slept, election_round-late}
use rpc_storage_cpp.Raft.Log.{get_slices_index_from_log_index, get_last_log_index, entry_at}
use rpc_storage_cpp.Hook.{usleep_ms}
use rpc_storage_cpp.Raft.Apply.{apply_from}
use rpc_storage_cpp.Raft.Tickers.{
  election_sleep, millisecond, election_round, sleep_us, applier_round,
}
use rpc_storage_cpp.Raft.State.{leader, Raft, ApplyMsg, command_msg}
use rpc_storage_cpp.Raft.Tests.{node, node-IsValid, entry}
use rpc_storage_cpp.LockQueue.{LockQueue, pop}
use rpc_storage_cpp.Raft.Tickers.Feed.{
  Numbered, Feed, feed, Fed, FeedSteps, follows, done, applies, takes, steps-Fed,
}

abbrev none_waiting : LockQueue ApplyMsg
none_waiting = record { queue = [] }

abbrev second_command : ApplyMsg
second_command = command_msg (entry 1 2).command 2

abbrev one_waiting : LockQueue ApplyMsg
one_waiting = record { queue = second_command ∷ [] }

abbrev applied_node : Raft
applied_node = record node { last_applied = 2 }

abbrev beginning : Feed
beginning = feed node none_waiting []

abbrev afterwards : Feed
afterwards = feed applied_node none_waiting (second_command ∷ [])

applied_round : applier_round node none_waiting ≡ ok (applied_node, one_waiting)
unfolding applier_round apply_from entry_at get_last_log_index get_slices_index_from_log_index
applied_round = refl

taken_front : pop one_waiting ≡ (some second_command, none_waiting)
unfolding pop
taken_front = refl

node_steps : FeedSteps beginning afterwards
node_steps =
    follows beginning (feed applied_node one_waiting []) afterwards
      (applies node applied_node none_waiting one_waiting [] applied_round)
      (follows (feed applied_node one_waiting []) afterwards afterwards
        (takes applied_node one_waiting none_waiting [] second_command taken_front)
        (done afterwards))

beginning-Fed : Fed 1 beginning
unfolding Numbered
beginning-Fed = record { valid = node-IsValid; numbered = refl }

steps-Fed_example : Fed 1 afterwards
steps-Fed_example = steps-Fed 1 beginning afterwards node_steps beginning-Fed

node-Slept : Slept (election_sleep node 300 5) 0 300000000
unfolding sleep_us usleep_ms
node-Slept = omega arith

election_round-late_example :
    (((5 < node.last_reset_election_time) ⊎ (node.status ≡ leader))
      × (election_round node 5 400000000 ≡ (node, [])))
    ⊎ ((node.last_reset_election_time ≤ 5)
        × (node.status ≢ leader)
        × Elects node 400000000 (election_round node 5 400000000)
        × (node.last_reset_election_time + 300 * millisecond ≤ 400000000 + 2 * millisecond))
election_round-late_example =
    election_round-late node node 300 5 0 300000000 400000000 node-Slept (omega arith) (omega arith)
