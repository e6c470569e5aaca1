-- ===== src/Raft/Node/KeepsVote.antt =====
-- What it means that a node keeps its vote, and the parts of `AppendEntries1` that do not touch it:
-- raftCore/raft.cpp.
use rpc_storage_cpp.Common.{
  Result, ◌>>=◌, err, ok, ◌≤◌, ◌<◌, ◌≡◌, refl, ◌∙◌, ◌⊎◌, inr, none, List, [], ◌∷◌, arith,
}
use rpc_storage_cpp.Raft.Append.{
  append_accepted, append_mismatched, append_matched, accept_entries, accept_entry,
}
use rpc_storage_cpp.Raft.State.{AppendEntriesArgs, LogEntry, Raft}

-- The term does not fall, and as long as it stays the same a vote stays.
pub record KeepsVote (s t : Raft) : Type 0 where
  pub term_le : s.current_term ≤ t.current_term
  pub vote : s.current_term ≡ t.current_term → (s.voted_for ≡ none) ⊎ (t.voted_for ≡ s.voted_for)

pub KeepsVote-same :
    {s t : Raft} → t.current_term ≡ s.current_term → t.voted_for ≡ s.voted_for → KeepsVote s t
KeepsVote-same p q = record { term_le = omega arith; vote = λ _. inr q }

pub KeepsVote-newer : {s t : Raft} → s.current_term < t.current_term → KeepsVote s t
KeepsVote-newer p = record { term_le = omega arith; vote = λ e. absurd (omega arith) }

pub KeepsVote-trans : {s t u : Raft} → KeepsVote s t → KeepsVote t u → KeepsVote s u
KeepsVote-trans {s} {t} {u} a b = record {
  term_le = omega (arith, a.term_le, b.term_le);
  vote = λ e. ground (
    arith,
    a.vote (omega (arith, a.term_le, b.term_le)),
    b.vote (omega (arith, a.term_le, b.term_le)),
  );
}

abbrev pub SameVote : Raft → Raft → Type 0
SameVote s t = (t.current_term ≡ s.current_term) × (t.voted_for ≡ s.voted_for)

-- Whatever the code returns satisfies `P`; it may also end the process.
abbrev pub Only : {A : Type 0} → Result A → (A → Type 0) → Type 0
Only (ok a) P = P a
Only (err e) P = Unit {0}

pub Only-bind :
    {A B : Type 0} (P : A → Type 0) (Q : B → Type 0) (m : Result A) (f : A → Result B)
    → Only m P
    → ((a : A) → P a → Only (f a) Q)
    → Only (m >>= f) Q
Only-bind P Q (ok a) f h k = k a h
Only-bind P Q (err e) f h k = tt

pub Only-map :
    {A : Type 0} (P Q : A → Type 0) (m : Result A) → Only m P → ((a : A) → P a → Q a) → Only m Q
Only-map P Q (ok a) h k = k a h
Only-map P Q (err e) h k = tt

pub accept_entry-SameVote : (s : Raft) (e : LogEntry) → Only (accept_entry s e) (SameVote s)
unfolding accept_entry
accept_entry-SameVote s e = ground arith

pub accept_entries-SameVote :
    (s : Raft) (es : List LogEntry) → Only (accept_entries s es) (SameVote s)
unfolding accept_entries
accept_entries-SameVote s [] = (refl, refl)
accept_entries-SameVote s (e ∷ es) =
    Only-bind (SameVote s) (SameVote s) (accept_entry s e) (λ t. accept_entries t es)
      (accept_entry-SameVote s e)
      (λ t p.
        Only-map (SameVote t) (SameVote s) (accept_entries t es) (accept_entries-SameVote t es)
          (λ u q. (q.0 ∙ p.0, q.1 ∙ p.1)))

pub append_matched-SameVote :
    (s : Raft) (args : AppendEntriesArgs) → Only (append_matched s args) (λ p. SameVote s p.0)
unfolding append_matched
append_matched-SameVote s args =
    Only-bind (SameVote s) (λ p. SameVote s p.0) (accept_entries s args.entries) _
      (accept_entries-SameVote s args.entries) (λ t p. ground arith)

pub append_mismatched-SameVote :
    (s : Raft) (args : AppendEntriesArgs) → Only (append_mismatched s args) (λ p. SameVote s p.0)
unfolding append_mismatched
append_mismatched-SameVote s args = ground arith

pub append_accepted-SameVote :
    (s : Raft) (args : AppendEntriesArgs) → Only (append_accepted s args) (λ p. SameVote s p.0)
unfolding append_accepted
append_accepted-SameVote s args =
    ground (arith, append_matched-SameVote s args, append_mismatched-SameVote s args)
