-- ===== src/FdManager/Tests.antt =====
-- The contexts of a new manager: fiber/fd_manager.cpp.
use rpc_storage_cpp.Common.{◌>>=◌, Returns, ok, ◌≡◌, refl, true, false, none, some, [], ◌∷◌, arith}
use rpc_storage_cpp.FdManager.Contexts.{get_ctx-Got, Got}
use rpc_storage_cpp.FdManager.{stat_failed, socket, del_ctx, get_ctx, FdManager}

abbrev two_places : FdManager
two_places = record { datas = none ∷ none ∷ []; set_nonblock = [] }

get_ctx-Got_example :
    Returns (get_ctx two_places (some 7) true (socket false)) (Got two_places 7 (socket false))
get_ctx-Got_example = get_ctx-Got two_places 7 (socket false) (omega arith)

-- A descriptor that is deleted has no context.
deleted :
    (get_ctx two_places (some 7) true (socket false) >>= λ r.
    get_ctx (del_ctx r.0 7) (some 7) false stat_failed >>= λ q. ok q.1)
    ≡ ok none
unfolding get_ctx del_ctx
deleted = refl
