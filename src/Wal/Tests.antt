-- ===== src/Wal/Tests.antt =====
-- The theorems on the log at a concrete session.
use bloom_filter_jyy_0098_go.Base.{◌≡◌, [], ◌∷◌, arith, take}
use bloom_filter_jyy_0098_go.Base.{refl}
use bloom_filter_jyy_0098_go.Wal.Cut.{surviving, read_all-cut}
use bloom_filter_jyy_0098_go.Wal.{
  current_seq, flushed_seq, pending, Wal, WalEntry, encode_all, read_all, open_wal, append, close,
}
use bloom_filter_jyy_0098_go.Wal.Entries.{IsWalEntry}
use bloom_filter_jyy_0098_go.Wal.Session.{
  IsLogged, next_entry, open_wal-IsLogged, append-IsLogged, close-reopen,
}

abbrev first : WalEntry
first = record { seq = 1; typ = 1; payload = 5 ∷ 6 ∷ [] }

first-IsWalEntry : IsWalEntry first
first-IsWalEntry = record {
  seq_fits = omega arith;
  typ_byte = omega arith;
  fits = omega arith;
  bytes = omega arith;
}

abbrev second : WalEntry
second = record { seq = 2; typ = 2; payload = 7 ∷ [] }

second-IsWalEntry : IsWalEntry second
second-IsWalEntry = record {
  seq_fits = omega arith;
  typ_byte = omega arith;
  fits = omega arith;
  bytes = omega arith;
}

abbrev session : Wal
session = open_wal (encode_all (first ∷ [])) 4

session-IsLogged : IsLogged session (first ∷ [])
session-IsLogged = open_wal-IsLogged (first ∷ []) 4 (first-IsWalEntry, tt)

session_seq : session.seq ≡ 1
session_seq = session-IsLogged.top

next-IsWalEntry : IsWalEntry (next_entry session 2 (7 ∷ []))
next-IsWalEntry = record {
  seq_fits = omega (arith, session_seq);
  typ_byte = omega arith;
  fits = omega arith;
  bytes = omega arith;
}

append-IsLogged_example :
    IsLogged (append session 2 (7 ∷ [])) (first ∷ next_entry session 2 (7 ∷ []) ∷ [])
append-IsLogged_example =
    append-IsLogged session-IsLogged 2 (7 ∷ []) (omega (arith, session_seq)) next-IsWalEntry

close-reopen_example :
    (read_all (close session).file ≡ first ∷ [])
    × IsLogged (open_wal (close session).file 8) (first ∷ [])
    × ((open_wal (close session).file 8).seq ≡ session.seq)
close-reopen_example = close-reopen session-IsLogged 8

read_all-cut_example :
    read_all (take 25 (encode_all (first ∷ second ∷ []))) ≡ surviving 25 (first ∷ second ∷ [])
read_all-cut_example =
    read_all-cut 25 (first ∷ second ∷ []) (first-IsWalEntry, (second-IsWalEntry, tt))

-- What is on disk counts as not flushed after `OpenWAL`.
flushed_runs : (current_seq session ≡ 1) × (flushed_seq session ≡ 0) × (pending session ≡ 0)
unfolding current_seq flushed_seq pending open_wal
flushed_runs = (session_seq, refl, refl)
