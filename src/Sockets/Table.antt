-- ===== src/Sockets/Table.antt =====
-- Which descriptors are open: what the documents of the socket calls say of the table of a process.
use stmanager.Prelude.{ℕ, Text, List, [], ◌∷◌, ◌==◌, ◌≡◌, arith, if◌then◌else◌}
use stmanager.Wire.Socket.{Socket}
use stmanager.Sockets.Calls.{
  Descriptor, descriptor, no_descriptor, Accepted, accepted, not_accepted, SocketCalls,
}

-- Without the first `fd` of the list.
unfoldable pub without : ℕ → List ℕ → List ℕ
without fd [] = []
without fd (x ∷ rest) = if x == fd then rest else x ∷ without fd rest

abbrev pub with_new : Descriptor → List ℕ → List ℕ
with_new (descriptor fd) l = fd ∷ l
with_new (no_descriptor errno) l = l

abbrev pub with_accepted : {C : Type 0} → Accepted C → List ℕ → List ℕ
with_accepted (accepted fd c) l = fd ∷ l
with_accepted (not_accepted errno) l = l

-- `socket` and `accept` open the descriptor that they return, `close` closes one, and the other
-- calls leave the table as it is.
pub record DescriptorTable {k : Socket} (calls : SocketCalls k) : Type 0 where
  pub open_fds : calls.State → List ℕ
  pub resolving : (h p : Text) (s : calls.State) → open_fds (calls.getaddrinfo h p s).1 ≡ open_fds s
  pub opening :
      (a : calls.Address) (s : calls.State)
      → open_fds (calls.socket a s).1 ≡ with_new (calls.socket a s).0 (open_fds s)
  pub reusing : (fd : ℕ) (s : calls.State) → open_fds (calls.set_reuse_address fd s) ≡ open_fds s
  pub binding :
      (fd : ℕ) (a : calls.Address) (s : calls.State) → open_fds (calls.bind fd a s).1 ≡ open_fds s
  pub listening : (fd n : ℕ) (s : calls.State) → open_fds (calls.listen fd n s).1 ≡ open_fds s
  pub connecting :
      (fd : ℕ) (a : calls.Address) (s : calls.State)
      → open_fds (calls.connect fd a s).1 ≡ open_fds s
  pub selecting :
      (fd ms : ℕ) (s : calls.State) → open_fds (calls.select_readable fd ms s).1 ≡ open_fds s
  pub accepting :
      (fd : ℕ) (s : calls.State)
      → open_fds (calls.accept fd s).1 ≡ with_accepted (calls.accept fd s).0 (open_fds s)
  pub closing : (fd : ℕ) (s : calls.State) → open_fds (calls.close fd s) ≡ without fd (open_fds s)
  pub probing :
      (s : calls.State)
      → open_fds (calls.datagram_socket s).1 ≡ with_new (calls.datagram_socket s).0 (open_fds s)
  pub probed : (fd : ℕ) (s : calls.State) → open_fds (calls.connect_probe fd s).1 ≡ open_fds s

pub without_first : (fd : ℕ) (l : List ℕ) → without fd (fd ∷ l) ≡ l
unfolding without
without_first fd l = ground arith

module _ {k : Socket} {calls : SocketCalls k} (table : DescriptorTable calls) where
  -- Closing the descriptor that was opened last.
  pub close-first :
      (fd : ℕ) (l : List ℕ) (s : calls.State)
      → table.open_fds s ≡ fd ∷ l
      → table.open_fds (calls.close fd s) ≡ l
  close-first fd l s e = rw (table.closing fd s, e) (without_first fd l)
