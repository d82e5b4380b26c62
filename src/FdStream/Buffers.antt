-- ===== src/FdStream/Buffers.antt =====
-- src/fd_stream.cpp: `FdOutputStreamBuf` and `FdInputStreamBuf`, over `read` and `write` of one
-- descriptor. The fuel bounds the calls that one loop makes.
use stmanager.Prelude.{
  ℕ, zero, suc, ◌+◌, ◌%◌, ◌^◌, Text, Bool, true, false, take, drop, Option, none, some, [], ◌∷◌,
  ◌==◌, not, if◌then◌else◌,
}
use stmanager.Status.{ok, looping, Exec, pure, ◌>>=◌}
use stmanager.Files.Calls.{Reading, bytes_read, read_failed, Writing, bytes_written, write_failed}

abbrev pub eintr : ℕ
eintr = 4

abbrev pub eio : ℕ
eio = 5

abbrev pub ebadf : ℕ
ebadf = 9

abbrev pub max_write_chunk_size : ℕ
max_write_chunk_size = 65536

abbrev pub max_read_chunk_size : ℕ
max_read_chunk_size = 65536

pub record FdCalls : Type 1 where
  pub State : Type 0
  pub read_chunk : ℕ → ℕ → State → Reading × State
  pub write_chunk : ℕ → Text → State → Writing × State

-- `none` stands for a negative descriptor.
pub record FdOutputStreamBuf : Type 0 where
  pub file_descriptor : Option ℕ
  pub written : ℕ
  pub has_error : Bool
  pub last_error_number : ℕ

abbrev pub new_output : Option ℕ → FdOutputStreamBuf
new_output file_descriptor = record {
  file_descriptor = file_descriptor;
  written = 0;
  has_error = false;
  last_error_number = 0;
}

abbrev pub failed_output : ℕ → FdOutputStreamBuf → FdOutputStreamBuf
failed_output errno b = record b { has_error = true; last_error_number = errno }

abbrev pub counted : ℕ → FdOutputStreamBuf → FdOutputStreamBuf
counted n b = record b { written = (b.written + n) % 2 ^ 64 }

-- 0 is true, -1 is false.
abbrev pub sync : FdOutputStreamBuf → Bool
sync b = not b.has_error

-- `buffer` are the bytes from `gptr` to `egptr`.
pub record FdInputStreamBuf : Type 0 where
  pub file_descriptor : Option ℕ
  pub has_error : Bool
  pub last_error_number : ℕ
  pub buffer : Text

abbrev failed_input : ℕ → FdInputStreamBuf → FdInputStreamBuf
failed_input errno b = record b { has_error = true; last_error_number = errno }

module _ (c : FdCalls) where
  -- The loop of `xsputn`, with `written_total_size` and the data that are left.
  unfoldable pub put_loop : ℕ → ℕ → ℕ → Text → Exec (FdOutputStreamBuf × c.State) ℕ
  put_loop fuel fd total [] x = (ok total, x)
  put_loop zero fd total (a ∷ rest) x = (looping, x)
  put_loop (suc fuel) fd total (a ∷ rest) (b, s) =
      let (w, s') = c.write_chunk fd (take max_write_chunk_size (a ∷ rest)) s in
      elim w [
        | write_failed errno ↦ elim (errno == eintr) [
          | true ↦ put_loop fuel fd total (a ∷ rest) (b, s')
          | false ↦ (ok total, (failed_output errno b, s'))
        ]
        | bytes_written zero ↦ (ok total, (failed_output eio b, s'))
        | bytes_written (suc n) ↦
            put_loop fuel fd (total + suc n) (drop n rest) (counted (suc n) b, s')
      ]

  abbrev pub put_open : ℕ → Option ℕ → Text → Exec (FdOutputStreamBuf × c.State) ℕ
  put_open fuel none input (b, s) = (ok 0, (failed_output ebadf b, s))
  put_open fuel (some fd) input x = put_loop fuel fd 0 input x

  unfoldable pub xsputn : ℕ → Text → Exec (FdOutputStreamBuf × c.State) ℕ
  unfolding put_loop
  xsputn fuel [] x = (ok 0, x)
  xsputn fuel (a ∷ rest) x = put_open fuel (x.0).file_descriptor (a ∷ rest) x

  -- `none` is the end of the file; `not_eof` of it is some other value, here 0.
  unfoldable pub overflow : ℕ → Option ℕ → Exec (FdOutputStreamBuf × c.State) (Option ℕ)
  unfolding xsputn
  overflow fuel none = pure (some 0)
  overflow fuel (some value) = xsputn fuel (value % 256 ∷ []) >>= λ write_size.
      pure (if write_size == 1 then some value else none)

  -- The loop of `underflow`; `none` is the end of the file.
  unfoldable pub fill_loop : ℕ → ℕ → Exec (FdInputStreamBuf × c.State) (Option ℕ)
  fill_loop zero fd x = (looping, x)
  fill_loop (suc fuel) fd (b, s) =
      let (r, s') = c.read_chunk fd max_read_chunk_size s in
      elim r [
        | read_failed errno ↦ elim (errno == eintr) [
          | true ↦ fill_loop fuel fd (b, s')
          | false ↦ (ok none, (failed_input errno b, s'))
        ]
        | bytes_read [] ↦ (ok none, (b, s'))
        | bytes_read (a ∷ rest) ↦ (ok (some a), (record b { buffer = a ∷ rest }, s'))
      ]

  abbrev fill_from : ℕ → Option ℕ → Exec (FdInputStreamBuf × c.State) (Option ℕ)
  fill_from fuel none (b, s) = (ok none, (failed_input ebadf b, s))
  fill_from fuel (some fd) x = fill_loop fuel fd x

  abbrev underflow_of : ℕ → Text → Exec (FdInputStreamBuf × c.State) (Option ℕ)
  underflow_of fuel [] x = fill_from fuel (x.0).file_descriptor x
  underflow_of fuel (a ∷ rest) x = (ok (some a), x)

  unfoldable pub underflow : ℕ → Exec (FdInputStreamBuf × c.State) (Option ℕ)
  unfolding fill_loop
  underflow fuel x = underflow_of fuel (x.0).buffer x
