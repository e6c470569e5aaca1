-- ===== src/Clerk/Tests.antt =====
-- A client among three servers: raftClerk/clerk.cpp.
use rpc_storage_cpp.Common.{zero, suc, ◌≡◌, refl, none, some, [], ◌∷◌, arith}
use rpc_storage_cpp.KvServer.State.{Err, err_wrong_leader, all_ok, GetReply}
use rpc_storage_cpp.Clerk.Retry.{get-ok}
use rpc_storage_cpp.Clerk.{PutAppendArgs, GetArgs, get, Servers, Clerk}

abbrev client : Clerk
client = record { servers = 3; client_id = 7 ∷ []; request_id = 4; recent_leader_id = 1 }

-- Server 1 cannot be reached, server 2 is not the leader, and server 0 is.
abbrev three : Servers GetArgs GetReply
three attempt zero args = some (record { err_word = all_ok; value = 9 ∷ [] })
three attempt (suc zero) args = none
three attempt (suc (suc n)) args = some (record { err_word = err_wrong_leader; value = [] })

get-ok_example :
    get client three (1 ∷ []) 5
    ≡ some (record client { request_id = 5; recent_leader_id = 0 }, 9 ∷ [])
get-ok_example = get-ok client three (1 ∷ []) (9 ∷ []) 2 5 (omega arith) (refl, (refl, tt)) refl

abbrev put_servers : Servers PutAppendArgs Err
put_servers attempt zero args = some all_ok
put_servers attempt (suc zero) args = none
put_servers attempt (suc (suc n)) args = some err_wrong_leader
