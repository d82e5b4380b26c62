-- ===== src/Sockets/Calls.antt =====
-- The socket calls that src/tcp_transport.cpp and src/sync_server.cpp make beside `send` and `recv`,
-- and the wrappers of src/platform_compat.cpp around them.
use stmanager.Prelude.{
  ℕ, Text, Bool, codes, is_empty, Option, none, some, List, ◌++◌, if◌then◌else◌,
}
use stmanager.Prelude.Int.{ℤ}
use stmanager.Status.{Status, Result, ok, err, status, io_error}
use stmanager.Wire.Socket.{Socket}

-- `getaddrinfo`: the addresses, or the text of its error.
pub data Resolved (A : Type 0) : Type 0 where
  addresses : List A → Resolved A
  unresolved : Text → Resolved A

-- `socket`: a descriptor, or `errno`.
pub data Descriptor : Type 0 where
  descriptor : ℕ → Descriptor
  no_descriptor : ℕ → Descriptor

pub data Connecting (C : Type 0) : Type 0 where
  connected : C → Connecting C
  not_connected : ℕ → Connecting C

pub data Accepted (C : Type 0) : Type 0 where
  accepted : ℕ → C → Accepted C
  not_accepted : ℕ → Accepted C

-- `select` on one descriptor.
pub data Selected : Type 0 where
  readable timed_out : Selected
  select_failed : ℕ → Selected

pub data Family : Type 0 where
  inet inet6 other_family : Family

-- What `getsockname` fills in: the family, the port in the order of the host, and the numeric text
-- that `getnameinfo` gives of it.
pub record LocalName : Type 0 where
  pub family : Family
  pub port : ℕ
  pub numeric_host : Option Text

abbrev pub port_of : LocalName → ℕ
port_of n = elim n.family [ inet ↦ n.port | inet6 ↦ n.port | other_family ↦ 0 ]

pub data NameAnswer : Type 0 where
  named : LocalName → NameAnswer
  unnamed : ℕ → NameAnswer

-- An entry of `getifaddrs`: the family of its address, if it has one, and the text of an IPv4
-- address.
pub record Interface : Type 0 where
  pub address_family : Option Family
  pub is_up : Bool
  pub is_loopback : Bool
  pub ipv4_text : Option Text

-- The state of a connection is apart from that of the other sockets.
pub record SocketCalls (k : Socket) : Type 1 where
  pub State : Type 0
  pub Address : Type 0
  pub getaddrinfo : Text → Text → State → Resolved Address × State
  pub socket : Address → State → Descriptor × State
  pub set_reuse_address : ℕ → State → State
  -- `none` if the call succeeded, else `errno`
  pub bind : ℕ → Address → State → Option ℕ × State
  pub listen : ℕ → ℕ → State → Option ℕ × State
  pub connect : ℕ → Address → State → Connecting k.Conn × State
  pub getsockname : State → ℕ → NameAnswer
  pub select_readable : ℕ → ℕ → State → Selected × State
  pub accept : ℕ → State → Accepted k.Conn × State
  pub close : ℕ → State → State
  -- a datagram socket, and `connect` to 8.8.8.8, port 53
  pub datagram_socket : State → Descriptor × State
  pub connect_probe : ℕ → State → Bool × State
  pub interfaces : State → Option (List Interface)
  pub strerror : ℕ → Text
  pub int_to_string : ℤ → Text

-- Nothing is set up but on Windows.
abbrev pub ensure_socket_runtime : Result (Unit {0})
ensure_socket_runtime = ok tt

-- `getnameinfo` of a name that is there; an empty text is none.
abbrev pub non_empty : Option Text → Option Text
non_empty none = none
non_empty (some text) = if is_empty text then none else some text

module _ {k : Socket} (calls : SocketCalls k) where
  -- `make_io_error`, with `socket_last_error_message`.
  unfoldable pub socket_error : Text → ℕ → Status
  socket_error prefix errno = status io_error (prefix ++ (codes ": " ++ calls.strerror errno))

  abbrev pub make_socket_error {ℓ} : {A : Type ℓ} → Text → ℕ → Result A
  make_socket_error prefix errno = err (socket_error prefix errno)
