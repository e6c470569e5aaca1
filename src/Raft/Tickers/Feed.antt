-- ===== src/Raft/Tickers/Feed.antt =====
-- From the log of a node to its server: applierTicker of raft.cpp, the queue between the two, and
-- ReadRaftApplyCommandLoop of kvServer.cpp, which takes the messages one by one.
use mathlib.Core.List.{append-nil, append_assoc}
use rpc_storage_cpp.Common.{
  Bytes, length, Returns-ok, ok, ℕ, ◌+◌, ◌≤◌, max, ◌≡◌, refl, sym, ap, ◌∙◌, subst, Option, some,
  List, [], ◌∷◌, ◌++◌, arith,
}
use rpc_storage_cpp.Raft.Log.Indexing.{IsIndexed}
use rpc_storage_cpp.Raft.Apply.{get_apply_logs}
use rpc_storage_cpp.Raft.Log.{get_last_log_index}
use rpc_storage_cpp.Raft.Apply.Order.{get_apply_logs-Commands, Commands}
use rpc_storage_cpp.Raft.Tickers.{push_all, applier_round}
use rpc_storage_cpp.Raft.State.{Raft, ApplyMsg, command_msg}
use rpc_storage_cpp.Raft.Valid.{IsValid}
use rpc_storage_cpp.LockQueue.{take_front, LockQueue, push, pop}

-- The node, the queue, and the messages that the server has taken so far.
pub record Feed : Type 0 where
  pub node : Raft
  pub apply_chan : LockQueue ApplyMsg
  pub taken : List ApplyMsg

abbrev pub feed : Raft → LockQueue ApplyMsg → List ApplyMsg → Feed
feed s q d = record { node = s; apply_chan = q; taken = d }

-- A round of the ticker, a message that the server takes, or anything else that the node does and that
-- leaves its last applied index, as everything does but the installation of a snapshot.
pub data FeedStep : Feed → Feed → Type 0 where
  applies :
      (s t : Raft) (q r : LockQueue ApplyMsg) (d : List ApplyMsg)
      → applier_round s q ≡ ok (t, r)
      → FeedStep (feed s q d) (feed t r d)
  takes :
      (s : Raft) (q r : LockQueue ApplyMsg) (d : List ApplyMsg) (message : ApplyMsg)
      → pop q ≡ (some message, r)
      → FeedStep (feed s q d) (feed s r (d ++ message ∷ []))
  changes :
      (s t : Raft) (q : LockQueue ApplyMsg) (d : List ApplyMsg)
      → IsValid t
      → t.last_applied ≡ s.last_applied
      → FeedStep (feed s q d) (feed t q d)

pub data FeedSteps : Feed → Feed → Type 0 where
  done : (f : Feed) → FeedSteps f f
  follows : (f g h : Feed) → FeedStep f g → FeedSteps g h → FeedSteps f h

-- The messages carry the commands of one index after another, from the one behind `i` to `j`.
unfoldable pub Numbered : (i : ℕ) → List ApplyMsg → (j : ℕ) → Type 0
Numbered i [] j = i ≡ j
Numbered i (m ∷ ms) j = ((c : Bytes) × (m ≡ command_msg c (i + 1))) × Numbered (i + 1) ms j

-- What was taken and what waits in the queue, since the node had applied the entries up to `start`.
pub record Fed (start : ℕ) (f : Feed) : Type 0 where
  pub valid : IsValid f.node
  pub numbered : Numbered start (f.taken ++ f.apply_chan.queue) f.node.last_applied

Numbered-append :
    (i j k : ℕ) (ms ns : List ApplyMsg)
    → Numbered i ms j
    → Numbered j ns k
    → Numbered i (ms ++ ns) k
unfolding Numbered
Numbered-append i j k [] ns h l = subst (λ x. Numbered x ns k) (sym h) l
Numbered-append i j k (m ∷ ms) ns (e, h) l = (e, Numbered-append (i + 1) j k ms ns h l)

Commands-Numbered :
    (s : Raft) (i j : ℕ) (ms : List ApplyMsg)
    → Commands s (i + 1) ms
    → i + length ms ≡ j
    → Numbered i ms j
unfolding Numbered
Commands-Numbered s i j [] h e = omega (arith, e)
Commands-Numbered s i j (m ∷ ms) ((c, p, q), h) e =
    ((c.command, q), Commands-Numbered s (i + 1) j ms h (omega (arith, e)))

push_all-queue :
    (q : LockQueue ApplyMsg) (ms : List ApplyMsg) → (push_all q ms).queue ≡ q.queue ++ ms
unfolding push_all push
push_all-queue q [] = sym (append-nil q.queue)
push_all-queue q (m ∷ ms) = push_all-queue (push q m) ms ∙ append_assoc q.queue (m ∷ []) ms

take_front-some :
    (messages : List ApplyMsg) (m : ApplyMsg) (r : LockQueue ApplyMsg)
    → take_front messages ≡ (some m, r)
    → messages ≡ m ∷ r.queue
take_front-some [] m r e = absurd (cc e)
take_front-some (a ∷ rest) m r e =
    let here : a ≡ m = cc e in
    let left : rest ≡ r.queue = ap (λ (p : Option ApplyMsg × LockQueue ApplyMsg). p.1.queue) e in
    λ i. here i ∷ left i

applied-IsValid :
    (s : Raft) (n : ℕ) → IsValid s → s.last_applied ≤ n → IsValid (record s { last_applied = n })
unfolding get_last_log_index IsIndexed
applied-IsValid s n v l = record {
  indexed = v.indexed;
  committed = v.committed;
  applied = omega (arith, v.applied, l);
  next_size = v.next_size;
  match_size = v.match_size;
}

applies-Fed :
    (start : ℕ) (s t : Raft) (q r : LockQueue ApplyMsg) (d : List ApplyMsg)
    → applier_round s q ≡ ok (t, r)
    → Fed start (feed s q d)
    → Fed start (feed t r d)
unfolding applier_round
applies-Fed start s t q r d e h =
    let (p, g, (node, commands, count)) =
      Returns-ok (get_apply_logs s) (get_apply_logs-Commands s h.valid) in
    let run : applier_round s q ≡ ok (p.0, push_all q p.1) = rw (applier_round, g) refl in
    let same : (p.0, push_all q p.1) ≡ (t, r) = cc (run, e) in
    let t_eq : t ≡ record s { last_applied = max s.last_applied s.commit_index } =
      sym (ap (λ (x : Raft × LockQueue ApplyMsg). x.0) same) ∙ node in
    let r_eq : r.queue ≡ q.queue ++ p.1 =
      sym (ap (λ (x : Raft × LockQueue ApplyMsg). x.1.queue) same) ∙ push_all-queue q p.1 in
    let new : Numbered s.last_applied p.1 t.last_applied =
      Commands-Numbered s s.last_applied t.last_applied p.1 commands
        (count ∙ ap (λ (x : Raft). x.last_applied) (sym t_eq)) in
    record {
      valid = subst IsValid (sym t_eq) (applied-IsValid s _ h.valid (omega arith));
      numbered =
          subst (λ ms. Numbered start ms t.last_applied)
            (append_assoc d q.queue p.1 ∙ ap (λ ms. d ++ ms) (sym r_eq))
            (Numbered-append start s.last_applied t.last_applied (d ++ q.queue) p.1 h.numbered new);
    }

step-Fed : (start : ℕ) (f g : Feed) → FeedStep f g → Fed start f → Fed start g
unfolding pop
step-Fed start f g (applies s t q r d e) h = applies-Fed start s t q r d e h
step-Fed start f g (takes s q r d m e) h = record {
  valid = h.valid;
  numbered =
      let front = take_front-some q.queue m r e in
      subst (λ ms. Numbered start ms s.last_applied)
        (ap (λ ms. d ++ ms) front ∙ sym (append_assoc d (m ∷ []) r.queue)) h.numbered;
}
step-Fed start f g (changes s t q d v e) h = record {
  valid = v;
  numbered = subst (λ k. Numbered start (d ++ q.queue) k) (sym e) h.numbered;
}

-- Suppose that the node is valid, and that the messages that the server has taken and then those in the
-- queue are commands of the indices behind `start`, one after another without a gap or a repetition, up to
-- the node's last applied index. Then this holds again after any number of rounds of the ticker, messages
-- that the server takes, and other changes of the node that leave it valid and its last applied index as
-- it is, in any order.
pub steps-Fed : (start : ℕ) (f g : Feed) → FeedSteps f g → Fed start f → Fed start g
steps-Fed start f g (done k) h = h
steps-Fed start f g (follows k l m s r) h = steps-Fed start l m r (step-Fed start k l s h)
