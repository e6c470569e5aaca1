-- ===== src/Raft/Tests/Replication.antt =====
-- Replication at the node of the tests: raftCore/raft.cpp.
use rpc_storage_cpp.Common.{
  if◌then◌else◌, bytes_eq, length, drop, Returns, assert_failed, err, ok, ℕ, ◌+◌, ◌≤◌, ◌≡◌, refl,
  true, false, Option, some, [], ◌∷◌, arith,
}
use rpc_storage_cpp.Raft.Replicate.Acknowledge.{send_append_entries-IsLeading, IsLeading}
use rpc_storage_cpp.Raft.Append.Invariant.{append_entries-IsValid}
use rpc_storage_cpp.Raft.Append.Mismatched.{append_entries_mismatched}
use rpc_storage_cpp.Raft.Append.BackUp.{Search}
use rpc_storage_cpp.Raft.Append.Matched.{append_entries_matched, success_reply, matched_node}
use rpc_storage_cpp.Raft.Apply.Order.{get_apply_logs-Commands, Commands}
use rpc_storage_cpp.Raft.Vote.{other_peers}
use rpc_storage_cpp.Raft.Replicate.Agreement.{append_entries-agreement}
use rpc_storage_cpp.Raft.Tests.{node-IsValid, last-node, entry, node}
use rpc_storage_cpp.Raft.Apply.{get_apply_logs}
use rpc_storage_cpp.Raft.Replicate.{send_append_entries, send_entries, do_heart_beat}
use rpc_storage_cpp.Raft.Append.Outcome.{Matches}
use rpc_storage_cpp.Raft.Append.{or_else, accept_term, append_entries}
use rpc_storage_cpp.Raft.Append.Splice.{agrees}
use rpc_storage_cpp.Raft.Replicate.Sending.{InRange, do_heart_beat-AllSent, AllSent, Sends}
use rpc_storage_cpp.Raft.Valid.{IsValid}
use rpc_storage_cpp.Raft.Log.{
  persist, get_slices_index_from_log_index, entry_at, get_log_term_from_log_index,
  get_last_log_index,
}
use rpc_storage_cpp.Raft.State.{AppendEntriesReply, app_normal, leader, AppendEntriesArgs, Raft}

abbrev sender : Raft
sender = record node { me = 0; current_term = 3; status = leader; next_index = 4 ∷ 3 ∷ 1 ∷ [] }

last-sender : get_last_log_index sender ≡ 3
unfolding get_last_log_index
last-sender = refl

sender-IsValid : IsValid sender
sender-IsValid = record {
  indexed = (refl, (refl, (refl, tt)));
  committed = omega (arith, last-sender);
  applied = omega arith;
  next_size = refl;
  match_size = refl;
}

-- What goes to the second node, whose next index is 3.
abbrev args : AppendEntriesArgs
args = record {
  term = 3;
  leader_id = 0;
  prev_log_index = 2;
  prev_log_term = 1;
  entries = entry 2 3 ∷ [];
  leader_commit = 2;
}

term-sender : get_log_term_from_log_index sender 2 ≡ ok 1
unfolding get_log_term_from_log_index get_last_log_index entry_at get_slices_index_from_log_index
term-sender = refl

term-node : get_log_term_from_log_index node 2 ≡ ok 1
unfolding get_log_term_from_log_index get_last_log_index entry_at get_slices_index_from_log_index
term-node = refl

sent : Sends sender 1 3 (send_entries 1 args)
sent = (refl, omega arith, refl, term-sender, refl, refl, refl)

agrees-args : agrees (drop 2 node.logs) args.entries ≡ true
agrees-args = unfold bytes_eq in refl

append_entries-agreement_example : Returns (append_entries node 7 args) λ p.
    (p.1.success ≡ true)
    × IsValid p.0
    × ((i : ℕ) → 3 ≤ i → i ≤ get_last_log_index sender → entry_at p.0 i ≡ entry_at sender i)
append_entries-agreement_example =
    append_entries-agreement sender node 1 3 7 args sender-IsValid node-IsValid sent
      (omega (arith, last-sender)) (omega arith) (omega arith) (omega (arith, last-node)) term-node
      agrees-args

matches : Matches node args
matches = record {
  not_stale = omega arith;
  above = omega arith;
  below = omega (arith, last-node);
  same_term = term-node;
  follow = (refl, tt);
}

append_entries_matched_example : append_entries node 7 args ≡ (
    if agrees (drop 2 node.logs) args.entries
    then ok (
      persist (matched_node node 7 args node-IsValid matches),
      success_reply node 7 args node-IsValid matches,
    )
    else err assert_failed)
append_entries_matched_example = append_entries_matched node 7 args node-IsValid matches

append_entries_mismatched_example :
    (found : Option ℕ) × (append_entries node 7 (record args { prev_log_term = 2 })
      ≡ ok (
        persist (accept_term node 7 3),
        record {
          term = 3;
          success = false;
          update_next_index = some (or_else found 2);
          app_state = app_normal;
        },
      ))
    × Search node 1 2 (ok found)
append_entries_mismatched_example =
    append_entries_mismatched node 7 1 (record args { prev_log_term = 2 }) node-IsValid
      (omega arith) (omega arith) (omega (arith, last-node)) term-node (omega arith)

sender-InRange : InRange (get_last_log_index sender) sender.next_index
sender-InRange = (
  omega arith,
  omega (arith, last-sender),
  (omega arith, omega (arith, last-sender), (omega arith, omega (arith, last-sender), tt)),
)

do_heart_beat-AllSent_example : Returns (do_heart_beat sender 8) λ p.
    (p.0 ≡ record sender { last_reset_hear_beat_time = 8 })
    × AllSent sender (other_peers sender) p.1
do_heart_beat-AllSent_example = do_heart_beat-AllSent sender 8 sender-IsValid sender-InRange refl

get_apply_logs-Commands_example :
    Returns
      (get_apply_logs node)
      λ p. (p.0 ≡ record node { last_applied = 2 }) × Commands node 2 p.1 × (1 + length p.1 ≡ 2)
get_apply_logs-Commands_example = get_apply_logs-Commands node node-IsValid

append_entries-IsValid_example : Returns (append_entries node 7 args) λ p. IsValid p.0
append_entries-IsValid_example =
    append_entries-IsValid node 7 args node-IsValid (refl, tt) (omega arith) agrees-args

-- The reply to the request above.
abbrev success : AppendEntriesReply
success = record { term = 3; success = true; update_next_index = some 0; app_state = app_normal }

sender-IsLeading : IsLeading sender
sender-IsLeading = (sender-IsValid, (omega arith, (omega arith, (omega arith, tt))))

send_append_entries-IsLeading_example :
    Returns (send_append_entries sender 1 args (some success) 1) λ p. IsLeading p.0
send_append_entries-IsLeading_example =
    send_append_entries-IsLeading sender 1 args (some success) 1 sender-IsLeading (omega arith)
      (omega (arith, last-sender))
