-- ===== src/Clerk.antt =====
-- The client: raftClerk/clerk.cpp and include/clerk.h. The servers are an argument: what each of them
-- answers to a request, or `none` if the call fails, at each attempt.
pub mod Retry
mod Tests
use rpc_storage_cpp.KvServer.State.{
  err_wrong_leader, err_no_key, all_ok, other_err, append_word, put_word, Err, GetReply,
}
use rpc_storage_cpp.Common.{
  if◌then◌else◌, Bytes, ℕ, zero, suc, ◌+◌, ◌%◌, Bool, true, false, Option, none, some, [],
}

-- The fields of class `Clerk`; `servers` is `m_servers.size()`.
pub record Clerk : Type 0 where
  pub servers : ℕ
  pub client_id : Bytes
  pub request_id : ℕ
  pub recent_leader_id : ℕ

pub record GetArgs : Type 0 where
  pub key : Bytes
  pub client_id : Bytes
  pub request_id : ℕ

pub record PutAppendArgs : Type 0 where
  pub key : Bytes
  pub value : Bytes
  pub op : Bytes
  pub client_id : Bytes
  pub request_id : ℕ

-- What the servers do: the reply of a server at the given attempt, and `none` for a failed call.
abbrev pub Servers : Type 0 → Type 0 → Type 0
Servers Args Reply = (attempt server : ℕ) → Args → Option Reply

-- `(server + 1) % m_servers.size()`.
-- With no servers the code divides by zero.
abbrev pub next_server : Clerk → ℕ → ℕ
next_server c server = (server + 1) % c.servers

-- What a round of a loop does with the answer: try the next server, the same server, or return.
pub data Verdict : Type 0 where
  retry_next retry_same : Verdict
  answered : Bytes → Bool → Verdict

-- `Get` with a reply: the value, and whether the server is remembered as the leader.
abbrev pub judge_value : Err → Bytes → Verdict
judge_value err_wrong_leader v = retry_next
judge_value err_no_key v = answered [] false
judge_value all_ok v = answered v true
judge_value other_err v = retry_same

abbrev pub judge_get : Option GetReply → Verdict
judge_get none = retry_next
judge_get (some r) = judge_value r.err_word r.value

abbrev pub judge_put : Option Err → Verdict
judge_put none = retry_next
judge_put (some err_wrong_leader) = retry_next
judge_put (some err_no_key) = retry_same
judge_put (some all_ok) = answered [] true
judge_put (some other_err) = retry_same

-- The loop of `Get` and of `PutAppend` over what the answers are judged to be, from a server on, with
-- fuel for that many attempts: the value and the server that is then taken for the leader.
unfoldable pub ask :
    Clerk
    → (verdict : (attempt server : ℕ) → Verdict) → (attempt server fuel : ℕ) → Option (Bytes × ℕ)
ask c verdict attempt server zero = none
ask c verdict attempt server (suc fuel) = elim (verdict attempt server) [
  | retry_next ↦ ask c verdict (attempt + 1) (next_server c server) fuel
  | retry_same ↦ ask c verdict (attempt + 1) server fuel
  | answered v known ↦ some (v, if known then server else c.recent_leader_id)
]

unfoldable pub get :
    Clerk → Servers GetArgs GetReply → (key : Bytes) → (fuel : ℕ) → Option (Clerk × Bytes)
get c servers key fuel =
    let n = c.request_id + 1 in
    let args : GetArgs = record { key = key; client_id = c.client_id; request_id = n } in
    elim (ask c (λ attempt server. judge_get (servers attempt server args)) 0 c.recent_leader_id
      fuel) [
        | none ↦ none
        | some (v, leader_id) ↦ some (record c { request_id = n; recent_leader_id = leader_id }, v)
      ]

unfoldable pub put_append :
    Clerk → Servers PutAppendArgs Err → (key value op : Bytes) → (fuel : ℕ) → Option Clerk
put_append c servers key value op fuel =
    let n = c.request_id + 1 in
    let args : PutAppendArgs = record {
      key = key;
      value = value;
      op = op;
      client_id = c.client_id;
      request_id = n;
    } in
    elim (ask c (λ attempt server. judge_put (servers attempt server args)) 0 c.recent_leader_id
      fuel) [
        | none ↦ none
        | some (v, leader_id) ↦ some (record c { request_id = n; recent_leader_id = leader_id })
      ]

unfoldable pub put :
    Clerk → Servers PutAppendArgs Err → (key value : Bytes) → (fuel : ℕ) → Option Clerk
unfolding put_append
put c servers key value = put_append c servers key value put_word

unfoldable pub append :
    Clerk → Servers PutAppendArgs Err → (key value : Bytes) → (fuel : ℕ) → Option Clerk
unfolding put_append
append c servers key value = put_append c servers key value append_word
