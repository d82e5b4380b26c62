-- ===== src/Manager/Counting.antt =====
-- src/sync.cpp: `CountingOutputStreamBuf`, over the stream buffer that it passes the bytes to.
use stmanager.Prelude.{
  ℕ, ◌+◌, ◌%◌, ◌^◌, Text, Bool, true, false, length, Option, none, some, [], ◌∷◌, ◌==◌, not,
  if◌then◌else◌, ltb,
}
use stmanager.Status.{ok, Exec}

-- A stream buffer: how many bytes `sputn` took; what `sputc` put, `none` for the end of the file;
-- whether `pubsync` returned 0.
pub record StreamBuf : Type 1 where
  pub State : Type 0
  pub sputn : Text → State → ℕ × State
  pub sputc : ℕ → State → Option ℕ × State
  pub pubsync : State → Bool × State

-- `connected` is whether `destination_buffer_` is not NULL.
pub record CountingOutputStreamBuf : Type 0 where
  pub connected : Bool
  pub bytes_written : ℕ
  pub has_error : Bool

abbrev pub new_counting : Bool → CountingOutputStreamBuf
new_counting connected = record { connected = connected; bytes_written = 0; has_error = false }

module _ (destination : StreamBuf) where
  abbrev pub Counting : Type 0
  Counting = CountingOutputStreamBuf × destination.State

  abbrev pub failed_counting : CountingOutputStreamBuf → CountingOutputStreamBuf
  failed_counting b = record b { has_error = true }

  -- `bytes_written_` is a `uint64_t`.
  abbrev pub raised : ℕ → CountingOutputStreamBuf → CountingOutputStreamBuf
  raised n b = record b { bytes_written = (b.bytes_written + n) % 2 ^ 64 }

  abbrev pub put_all : Text → ℕ → CountingOutputStreamBuf → CountingOutputStreamBuf
  put_all input n b =
      let b' = if ltb 0 n then raised n b else b in
      if not (n == length input) then failed_counting b' else b'

  unfoldable pub xsputn : Text → Exec Counting ℕ
  xsputn [] x = (ok 0, x)
  xsputn (a ∷ rest) (b, s) =
      if not b.connected
      then (ok 0, (failed_counting b, s))
      else (let (n, s') = destination.sputn (a ∷ rest) s in (ok n, (put_all (a ∷ rest) n b, s')))

  abbrev pub put_one : Option ℕ → CountingOutputStreamBuf → CountingOutputStreamBuf
  put_one none b = failed_counting b
  put_one (some v) b = raised 1 b

  -- `none` is the end of the file; `not_eof` of it is some other value, here 0.
  unfoldable pub overflow : Option ℕ → Exec Counting (Option ℕ)
  overflow none x = (ok (some 0), x)
  overflow (some value) (b, s) =
      if not b.connected
      then (ok none, (failed_counting b, s))
      else (let (o, s') = destination.sputc (value % 256) s in (ok o, (put_one o b, s')))

  -- 0 is true.
  unfoldable pub sync : Exec Counting Bool
  sync (b, s) =
      if not b.connected
      then (ok false, (failed_counting b, s))
      else (let (done, s') = destination.pubsync s in
          (ok done, (if not done then failed_counting b else b, s')))
