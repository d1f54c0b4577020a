-- ===== src/Net/Sockets.antt =====
-- arale/net/SocketsOps.cc, Socket.cc and InetAddress.cc: what is made of the results of system
-- calls, which are arguments here.
use arale.Prelude.{
  ℕ, Bool, true, false, ◌&&◌, [], ◌∷◌, ◌++◌, Option, none, some, ◌==◌, if◌then◌else◌, take,
}
use arale.Net.Http.Text.{Bytes, same_bytes, decimal}

-- The values of `errno` that `accept` names.
pub data Errno : Type 0 where
  eagain econnaborted eintr eproto eperm emfile : Errno
  ebadf efault einval enfile enobufs enomem enotsock eopnotsupp : Errno
  other : ℕ → Errno

pub data Family : Type 0 where
  unspec inet inet6 : Family

-- `struct sockaddr_in6`, of which the first two fields are also those of `sockaddr_in`.
pub record Address : Type 0 where
  pub family : Family
  pub port : ℕ
  pub addr4 : ℕ
  pub addr6 : Bytes

-- `bzero`.
abbrev pub no_address : Address
no_address = record { family = unspec; port = 0; addr4 = 0; addr6 = [] }

abbrev pub is_inet : Family → Bool
is_inet unspec = false
is_inet inet = true
is_inet inet6 = false

abbrev pub same_family : Family → Family → Bool
same_family unspec unspec = true
same_family inet inet = true
same_family inet6 inet6 = true
same_family _ _ = false

-- A call that ends the process with `LOG_SYSFATAL` is aborted.
pub data Call {ℓ} (A : Type ℓ) : Type ℓ where
  returned : A → Call A
  aborted : Call A

-- A system call that gives a descriptor.
pub data Opened : Type 0 where
  opened : ℕ → Opened
  failed : Errno → Opened

-- `socket`, and `bind` or `listen`, which succeed or not.
abbrev pub create_nonblocking_or_die : Opened → Call ℕ
create_nonblocking_or_die (opened fd) = returned fd
create_nonblocking_or_die (failed e) = aborted

abbrev pub done_or_die : Bool → Call (Unit {0})
done_or_die true = returned tt
done_or_die false = aborted

-- `LOG_SYSFATAL` stands before the `switch`, which is not reached.
unfoldable pub accept : Opened → Call ℕ
accept (opened fd) = returned fd
accept (failed e) = aborted

-- `Socket::accept`: the descriptor, and the peer if the descriptor is not 0.
unfoldable pub socket_accept : Opened → Address → Call (ℕ × Option Address)
unfolding accept
socket_accept r peer = elim (accept r) [
  | returned fd ↦ returned (fd, if fd == 0 then none else some peer)
  | aborted ↦ aborted
]

-- `getsockopt` gives the pending error, or fails with `errno`.
abbrev pub get_socket_error : Option ℕ → ℕ → ℕ
get_socket_error none errno = errno
get_socket_error (some optval) errno = optval

-- `getsockname` and `getpeername` fill an address that was cleared.
abbrev pub get_addr : Option Address → Address
get_addr none = no_address
get_addr (some a) = a

-- Both tests are of `AF_INET`.
unfoldable pub is_self_connect : Option Address → Option Address → Bool
unfolding same_bytes
is_self_connect local_name peer_name =
    let l = get_addr local_name in
    let p = get_addr peer_name in
    if is_inet l.family
    then (l.port == p.port) && (l.addr4 == p.addr4)
    else if is_inet l.family
    then same_family l.family p.family && same_bytes l.addr6 p.addr6
    else false

-- `toIpPort` into `buf` of 64 bytes, where `ip` is what `inet_ntop` writes.
abbrev pub to_ip_port : Bytes → Address → Bytes
to_ip_port ip a = take 63 (ip ++ b':' ∷ decimal a.port)
