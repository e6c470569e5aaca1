-- ===== src/FdManager.antt =====
-- Classes `FdCtx` and `FdManager`, fiber/fd_manager.cpp and include/fd_manager.hpp: the contexts of the
-- file descriptors. What `fstat` and `fcntl` report is an argument, `Stat`; a 64-bit time is below 2 ^ 64.
pub mod Contexts
mod Tests
use rpc_storage_cpp.Common.{
  ◌>>=◌, ◌>>◌, leb, if◌then◌else◌, length, get_elem?, set, take, replicate, Result, at_index, ok, ℕ,
  ◌+◌, ◌-◌, ◌*◌, ◌/◌, ◌^◌, Bool, true, false, Option, none, some, List, [], ◌∷◌, ◌++◌,
}

pub record FdCtx : Type 0 where
  pub is_init : Bool
  pub is_socket : Bool
  pub sys_nonblock : Bool
  pub user_nonblock : Bool
  pub is_closed : Bool
  pub fd : ℕ
  pub recv_timeout : ℕ
  pub send_timeout : ℕ

-- A null pointer is `none`. With it, the descriptors that were set to O_NONBLOCK so far.
pub record FdManager : Type 0 where
  pub datas : List (Option FdCtx)
  pub set_nonblock : List ℕ

-- `fstat` fails, it reports no socket, or a socket that has O_NONBLOCK or not.
pub data Stat : Type 0 where
  stat_failed : Stat
  not_socket : Stat
  socket : (nonblock : Bool) → Stat

-- -1 as a `uint64_t`.
abbrev pub no_timeout : ℕ
no_timeout = 2 ^ 64 - 1

abbrev made : (fd : ℕ) → (is_init is_socket : Bool) → FdCtx
made fd is_init is_socket = record {
  is_init = is_init;
  is_socket = is_socket;
  sys_nonblock = is_socket;
  user_nonblock = false;
  is_closed = false;
  fd = fd;
  recv_timeout = no_timeout;
  send_timeout = no_timeout;
}

-- The constructor with `init`.
unfoldable pub new_fd_ctx : (fd : ℕ) → Stat → FdCtx
new_fd_ctx fd stat_failed = made fd false false
new_fd_ctx fd not_socket = made fd true false
new_fd_ctx fd (socket nonblock) = made fd true true

-- The call of `fcntl` in `init`.
abbrev pub init_nonblock : List ℕ → (fd : ℕ) → Stat → List ℕ
init_nonblock fds fd stat_failed = fds
init_nonblock fds fd not_socket = fds
init_nonblock fds fd (socket nonblock) = if nonblock then fds else fds ++ fd ∷ []

-- `type == SO_RCVTIMEO`.
unfoldable pub set_timeout : FdCtx → (receiving : Bool) → (v : ℕ) → FdCtx
set_timeout c receiving v =
    if receiving then record c { recv_timeout = v } else record c { send_timeout = v }

unfoldable pub get_timeout : FdCtx → (receiving : Bool) → ℕ
get_timeout c receiving = if receiving then c.recv_timeout else c.send_timeout

unfoldable pub new_fd_manager : FdManager
new_fd_manager = record { datas = replicate 64 none; set_nonblock = [] }

-- `std::vector::resize`.
unfoldable pub resize_datas : List (Option FdCtx) → (size : ℕ) → List (Option FdCtx)
resize_datas ds size = take size ds ++ replicate (size - length ds) none

-- `m_datas[fd]` where it is there.
abbrev pub known : Option (Option FdCtx) → Option FdCtx
known none = none
known (some p) = p

-- The part of `get` that makes a context.
unfoldable pub create_ctx : FdManager → (fd : ℕ) → Stat → Result (FdManager × Option FdCtx)
unfolding new_fd_ctx resize_datas
create_ctx s fd stat = do
  let c = new_fd_ctx fd stat
  let ds = if leb (length s.datas) fd then resize_datas s.datas (fd * 3 / 2) else s.datas
  old ← at_index (get_elem? ds fd)
  ok (
    record { datas = set ds fd (some c); set_nonblock = init_nonblock s.set_nonblock fd stat },
    some c,
  )

-- `get`; the descriptor -1 is `none`.
unfoldable pub get_ctx :
    FdManager → (fd : Option ℕ) → (auto_create : Bool) → Stat → Result (FdManager × Option FdCtx)
unfolding create_ctx
get_ctx s none auto_create stat = ok (s, none)
get_ctx s (some fd) auto_create stat = elim (known (get_elem? s.datas fd)) [
  | some c ↦ ok (s, some c)
  | none ↦ if auto_create then create_ctx s fd stat else ok (s, none)
]

unfoldable pub del_ctx : FdManager → (fd : ℕ) → FdManager
del_ctx s fd = if leb (length s.datas) fd then s else record s { datas = set s.datas fd none }
