-- ===== src/Archive/Rounds.antt =====
-- How many rounds the loops over the data of an archive entry take.
use stmanager.Prelude.{
  ℕ, zero, suc, ◌+◌, ◌≤◌, ◌<◌, Text, true, codes, is_empty, length, drop, ◌++◌, if◌then◌else◌, [],
  ◌∷◌, ◌≡◌, refl, arith, length-drop,
}
use stmanager.Status.{Result, ok, err, looping, threw, fail, Exec, continue, ◌>>◌, archive_error}
use stmanager.PathSafety.Disk.{Disk}
use stmanager.Client.Branches.{returns_status}
use stmanager.Files.Calls.{Writing, bytes_written, write_failed, FileCalls, make_io_error}
use stmanager.Files.Copy.{write_loop, buffer_size}
use stmanager.Archive.Entries.{
  on_disk, Header, entry, end_of_archive, no_header, Chunk, chunk, no_chunk, ArchiveReader,
  entry_data_loop,
}

-- `write` of some bytes takes at least one of them, or fails.
abbrev pub Progresses : Text → Writing → Type 0
Progresses bytes (bytes_written n) = 0 < length bytes → 0 < n
Progresses bytes (write_failed errno) = Unit {0}

-- What an archive still has: headers, and bytes of its entries.
pub record FiniteArchive (ar : ArchiveReader) : Type 0 where
  pub headers : ar.Reader → ℕ
  pub bytes : ar.Reader → ℕ

abbrev pub IsHeaderRead :
    {ar : ArchiveReader} → FiniteArchive ar → ar.Reader → Header → ar.Reader → Type 0
IsHeaderRead size r (entry path file_type mode) r' =
    (suc (size.headers r') ≤ size.headers r) × (size.bytes r' ≤ size.bytes r)
IsHeaderRead size r end_of_archive r' = Unit {0}
IsHeaderRead size r no_header r' = Unit {0}

abbrev pub IsDataRead :
    {ar : ArchiveReader} → FiniteArchive ar → ar.Reader → Chunk → ar.Reader → Type 0
IsDataRead size r (chunk c) r' =
    (length c + size.bytes r' ≤ size.bytes r) × (size.headers r' ≤ size.headers r)
IsDataRead size r no_chunk r' = (size.bytes r' ≤ size.bytes r) × (size.headers r' ≤ size.headers r)

module _ {ar : ArchiveReader} {S : Type 0} (size : FiniteArchive ar) where
  -- A status, with no more headers left than before.
  abbrev pub Ended : ℕ → ℕ → Result (Unit {0}) × (ar.Reader × S) → Type 0
  Ended n m x = (returns_status x.0 ≡ true) × (size.headers x.1.0 ≤ n) × (size.bytes x.1.0 ≤ m)

  pub continue-Ended :
      {A : Type 0} (n m : ℕ) (w : Result A) (f : A → Exec (ar.Reader × S) (Unit {0}))
      (x : ar.Reader × S)
      → returns_status w ≡ true
      → size.headers x.0 ≤ n
      → size.bytes x.0 ≤ m
      → ((a : A) → Ended n m (f a x))
      → Ended n m (continue w f x)
  continue-Ended n m (ok a) f x h p q k = k a
  continue-Ended n m (err e) f x h p q k = (refl, p, q)
  continue-Ended n m looping f x h p q k = (h, p, q)
  continue-Ended n m (threw what) f x h p q k = (h, p, q)

  pub Ended-mono :
      (n m n' m' : ℕ) (x : Result (Unit {0}) × (ar.Reader × S))
      → n ≤ n'
      → m ≤ m'
      → Ended n m x
      → Ended n' m' x
  Ended-mono n m n' m' x p q e = (e.0, omega arith, omega arith)

module _ {os : Disk} (fs : FileCalls os)
    (progress : (fd : ℕ) (b : Text) (s : os.State) → Progresses b (fs.write_fd fd b s).0) where
  -- Every byte takes a round at most, and the end takes one.
  write_loop-returns :
      (rounds fd : ℕ) (path b : Text) (s : os.State)
      → length b < rounds
      → returns_status (write_loop fs rounds fd path b s).0 ≡ true
  unfolding write_loop make_io_error
  write_loop-returns zero fd path b s h = absurd (omega arith)
  write_loop-returns (suc rounds) fd path [] s h = refl
  write_loop-returns (suc rounds) fd path (c ∷ b) s h =
      after (write_loop-returns rounds fd path) (fs.write_fd fd (c ∷ b) s).0 (progress fd (c ∷ b) s)
    where
      after :
          ((b : Text) (s : os.State)
            → length b < rounds
            → returns_status (write_loop fs rounds fd path b s).0 ≡ true)
          → (w : Writing) → Progresses (c ∷ b) w
          → returns_status
              (elim w as (λ _. Result (Unit {0}) × os.State) [
                | write_failed errno ↦
                    (make_io_error os (codes "write") path errno, (fs.write_fd fd (c ∷ b) s).1)
                | bytes_written n ↦
                    write_loop fs rounds fd path (drop n (c ∷ b)) (fs.write_fd fd (c ∷ b) s).1
              ]).0
            ≡ true
      after again (write_failed errno) g = refl
      after again (bytes_written n) g =
          again (drop n (c ∷ b)) (fs.write_fd fd (c ∷ b) s).1
            (omega (arith, length-drop n (c ∷ b), g (omega arith)))

  module _ (ar : ArchiveReader) (size : FiniteArchive ar)
      (header : (r : ar.Reader) → IsHeaderRead size r (ar.next_header r).0 (ar.next_header r).1)
      (read : (r : ar.Reader) (n : ℕ)
        → IsDataRead size r (ar.read_data r n).0 (ar.read_data r n).1) where
    pub entry_data_loop-Ended :
        (rounds fd : ℕ) (path : Text) (r : ar.Reader) (s : os.State)
        → size.bytes r + 1 < rounds
        → Ended size (size.headers r) (size.bytes r) (entry_data_loop fs ar rounds fd path (r, s))
    unfolding entry_data_loop
    entry_data_loop-Ended zero fd path r s h = absurd (omega arith)
    entry_data_loop-Ended (suc rounds) fd path r s h =
        after (entry_data_loop-Ended rounds fd path) (ar.read_data r (buffer_size fs)).0
          (ar.read_data r (buffer_size fs)).1 (read r (buffer_size fs))
      where
        after :
            ((r : ar.Reader) (s : os.State)
              → size.bytes r + 1 < rounds
              → Ended size
                  (size.headers r)
                  (size.bytes r)
                  (entry_data_loop fs ar rounds fd path (r, s)))
            → (c : Chunk) (r' : ar.Reader) → IsDataRead size r c r'
            → Ended size
                (size.headers r)
                (size.bytes r)
                (elim c as (λ _. Result (Unit {0}) × (ar.Reader × os.State)) [
                  | no_chunk ↦ (
                    fail archive_error
                        (codes "Failed to read archive file entry: " ++ ar.error_string r'),
                    (r', s),
                  )
                  | chunk b ↦
                      if is_empty b
                      then (ok tt, (r', s))
                      else (on_disk fs ar (write_loop fs rounds fd path b)
                            >> entry_data_loop fs ar rounds fd path)
                          (r', s)
                ])
        after again no_chunk r' g = (refl, g.1, g.0)
        after again (chunk []) r' g = (refl, g.1, omega arith)
        after again (chunk (b ∷ bs)) r' g =
            let w = write_loop fs rounds fd path (b ∷ bs) s in
            continue-Ended size (size.headers r) (size.bytes r) w.0 _ (r', w.1)
              (write_loop-returns rounds fd path (b ∷ bs) s (omega arith)) g.1 (omega arith)
              (λ u.
                Ended-mono size (size.headers r') (size.bytes r') (size.headers r) (size.bytes r)
                  (entry_data_loop fs ar rounds fd path (r', w.1)) g.1 (omega arith)
                  (again r' w.1 (omega arith)))
