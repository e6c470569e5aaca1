-- ===== src/Clerk/Retry.antt =====
-- How long a client goes on asking: raftClerk/clerk.cpp.
use native.Mathlib.Decide.{dec_le}
use native.Mathlib.Nat.{add-mod_right, mod-add-mod, mod-lt, mod-eq_of_lt}
use rpc_storage_cpp.Common.{
  if◌then◌else◌, Bytes, ℕ, zero, suc, ◌+◌, ◌-◌, ◌%◌, ◌<◌, ◌≡◌, sym, ap, ◌∙◌, subst, Bool, true,
  some, [], arith,
}
use rpc_storage_cpp.KvServer.State.{Err, put_word, all_ok, GetReply}
use rpc_storage_cpp.Clerk.{
  put_append, judge_put, put, PutAppendArgs, judge_get, get, Servers, GetArgs, answered, retry_next,
  Verdict, next_server, ask, Clerk,
}

-- The server that is asked at an attempt if every one before it says to try the next.
abbrev pub server_at : Clerk → (server attempt : ℕ) → ℕ
server_at c server zero = server
server_at c server (suc n) = server_at c (next_server c server) n

-- The first `n` attempts go from one server to the next.
abbrev pub AllRetry : Clerk → ((attempt server : ℕ) → Verdict) → (attempt server n : ℕ) → Type 0
AllRetry c verdict attempt server zero = Unit {0}
AllRetry c verdict attempt server (suc n) =
    (verdict attempt server ≡ retry_next)
    × AllRetry c verdict (attempt + 1) (next_server c server) n

-- If the first `n` attempts say to try the next server and the one after them is answered, the loop
-- ends there with that answer, whatever fuel above `n` it has.
pub ask-answered :
    (c : Clerk) (verdict : (attempt server : ℕ) → Verdict) (attempt server n fuel : ℕ) (v : Bytes)
    (known : Bool)
    → n < fuel
    → AllRetry c verdict attempt server n
    → verdict (attempt + n) (server_at c server n) ≡ answered v known
    → ask c verdict attempt server fuel
      ≡ some (v, if known then server_at c server n else c.recent_leader_id)
unfolding ask
ask-answered c verdict attempt server n zero v known h all e = absurd (omega arith)
ask-answered c verdict attempt server zero (suc fuel) v known h all e =
    let now : verdict attempt server ≡ answered v known =
      subst (λ k. verdict k server ≡ answered v known) (omega arith) e in
    rw (now, ask)
ask-answered c verdict attempt server (suc n) (suc fuel) v known h all e =
    let later : verdict (attempt + 1 + n) (server_at c (next_server c server) n)
        ≡ answered v known =
      subst (λ k. verdict k (server_at c (next_server c server) n) ≡ answered v known) (omega arith)
        e in
    rw (all.0, ask)
      (ask-answered c verdict (attempt + 1) (next_server c server) n fuel v known (omega arith)
        all.1 later)

-- The request of `Get`, and what each answer to it is judged to be.
abbrev pub get_args : Clerk → Bytes → GetArgs
get_args c key = record { key = key; client_id = c.client_id; request_id = c.request_id + 1 }

abbrev pub get_verdict : Clerk → Servers GetArgs GetReply → Bytes → (attempt server : ℕ) → Verdict
get_verdict c servers key attempt server = judge_get (servers attempt server (get_args c key))

-- If the first `n` servers from the remembered leader on fail or are not the leader, and the next one
-- answers `OK` with a value, `Get` returns that value after n + 1 attempts, with one request number
-- more, and remembers that server.
pub get-ok :
    (c : Clerk) (servers : Servers GetArgs GetReply) (key v : Bytes) (n fuel : ℕ)
    → n < fuel
    → AllRetry c (get_verdict c servers key) 0 c.recent_leader_id n
    → servers n (server_at c c.recent_leader_id n) (get_args c key)
      ≡ some (record { err_word = all_ok; value = v })
    → get c servers key fuel
      ≡ some (
        record c {
          request_id = c.request_id + 1;
          recent_leader_id = server_at c c.recent_leader_id n;
        },
        v,
      )
unfolding get
get-ok c servers key v n fuel h all e =
    let reply : get_verdict c servers key (0 + n) (server_at c c.recent_leader_id n)
        ≡ answered v true =
      subst (λ k. get_verdict c servers key k (server_at c c.recent_leader_id n) ≡ answered v true)
        (omega arith) (ap judge_get e) in
    rw (
      ask-answered c (get_verdict c servers key) 0 c.recent_leader_id n fuel v true h all reply,
      get,
    )

server_at-mod :
    (c : Clerk) (server n : ℕ)
    → server < c.servers
    → server_at c server n ≡ (server + n) % c.servers
server_at-mod c server zero h =
    let same : server + 0 ≡ server = omega arith in rw same (sym (mod-eq_of_lt h))
server_at-mod c server (suc n) h =
    let step : server + suc n ≡ server + 1 + n = omega arith in
    rw (step) (
      server_at-mod c (next_server c server) n (mod-lt (server + 1) (omega arith))
      ∙ mod-add-mod (server + 1) c.servers n)

-- From any server on, within as many attempts as there are servers, every server has its turn if all
-- before it say to try the next.
pub server_at-covers :
    (c : Clerk) (server target : ℕ)
    → server < c.servers
    → target < c.servers
    → (n : ℕ) × (n < c.servers) × (server_at c server n ≡ target)
server_at-covers c server target hs ht = elim (dec_le server target) [
  | yes up ↦
      let sum : server + (target - server) ≡ target = omega arith in
      (
        target - server,
        omega arith,
        server_at-mod c server (target - server) hs ∙ rw sum (mod-eq_of_lt ht),
      )
  | no down ↦
      let sum : server + (target + c.servers - server) ≡ target + c.servers = omega arith in
      (
        target + c.servers - server,
        omega arith,
        server_at-mod c server (target + c.servers - server) hs
            ∙ rw sum (add-mod_right target c.servers ∙ mod-eq_of_lt ht),
      )
]

-- The request of `Put`, and what each answer to it is judged to be.
abbrev pub put_args : Clerk → (key value : Bytes) → PutAppendArgs
put_args c key value = record {
  key = key;
  value = value;
  op = put_word;
  client_id = c.client_id;
  request_id = c.request_id + 1;
}

abbrev pub put_verdict :
    Clerk → Servers PutAppendArgs Err → (key value : Bytes) → (attempt server : ℕ) → Verdict
put_verdict c servers key value attempt server =
    judge_put (servers attempt server (put_args c key value))

-- If the first `n` servers from the remembered leader on fail or are not the leader, and the next one
-- answers `OK`, `Put` returns after n + 1 attempts, with one request number more, and remembers that
-- server.
pub put-ok :
    (c : Clerk) (servers : Servers PutAppendArgs Err) (key value : Bytes) (n fuel : ℕ)
    → n < fuel
    → AllRetry c (put_verdict c servers key value) 0 c.recent_leader_id n
    → servers n (server_at c c.recent_leader_id n) (put_args c key value) ≡ some all_ok
    → put c servers key value fuel
      ≡ some (record c {
        request_id = c.request_id + 1;
        recent_leader_id = server_at c c.recent_leader_id n;
      })
unfolding put put_append
put-ok c servers key value n fuel h all e =
    let reply : put_verdict c servers key value (0 + n) (server_at c c.recent_leader_id n)
        ≡ answered [] true =
      subst
        (λ k.
          put_verdict c servers key value k (server_at c c.recent_leader_id n) ≡ answered [] true)
        (omega arith) (ap judge_put e) in
    rw (
      ask-answered c (put_verdict c servers key value) 0 c.recent_leader_id n fuel [] true h all
          reply,
      put_append,
    )
