-- ===== src/Wal/Session.antt =====
-- A log of wal.go from `OpenWAL` through `Append` and `Flush` to `Close`.
use bloom_filter_jyy_0098_go.Base.{
  ℕ, zero, suc, ◌+◌, ◌<◌, ◌≤◌, ◌≡◌, refl, ap, sym, ◌∙◌, List, [], ◌∷◌, ◌++◌, length, drop, arith,
  none, All, append_assoc, append-nil, max, if◌then◌else◌, ltb, ◌^◌, All-append, Bool-cases, leb,
  subst, All-append_left, ◌%◌, inl, length-append, inr,
}
use bloom_filter_jyy_0098_go.Wal.{
  Wal, WalEntry, decode_entry, encode_entry, encode_all, seq_loop, replay_seq, open_wal, flush,
  close, read_all, append,
}
use bloom_filter_jyy_0098_go.Wal.Entries.{
  IsWalEntry, length-encode_all, at_head, behind_head, read_all-encode_all,
}

-- The highest sequence number of some entries and `top`.
abbrev pub top_seq : ℕ → List WalEntry → ℕ
top_seq top [] = top
top_seq top (e ∷ es) = top_seq (max top e.seq) es

top_seq-append :
    (top : ℕ) (es : List WalEntry) (e : WalEntry)
    → top_seq top (es ++ e ∷ []) ≡ max (top_seq top es) e.seq
top_seq-append top [] e = refl
top_seq-append top (x ∷ es) e = top_seq-append (max top x.seq) es e

encode_all-append : (xs ys : List WalEntry) → encode_all (xs ++ ys) ≡ encode_all xs ++ encode_all ys
encode_all-append [] ys = refl
encode_all-append (x ∷ xs) ys =
    ap (λ t. encode_entry x ++ t) (encode_all-append xs ys)
    ∙ sym (append_assoc (encode_entry x) (encode_all xs) (encode_all ys))

module _ (bytes tail : List ℕ) (torn : decode_entry tail ≡ none) where
  seq_loop-eq-top_seq :
      (fuel : ℕ) (es : List WalEntry) (p top : ℕ)
      → All IsWalEntry es
      → length es ≤ fuel
      → drop p bytes ≡ encode_all es ++ tail
      → seq_loop fuel bytes p top ≡ top_seq top es
  unfolding seq_loop
  seq_loop-eq-top_seq zero [] p top h fits at = refl
  seq_loop-eq-top_seq zero (e ∷ es) p top h fits at = absurd (omega arith)
  seq_loop-eq-top_seq (suc fuel) [] p top h fits at = ground (arith, torn, at)
  seq_loop-eq-top_seq (suc fuel) (e ∷ es) p top h fits at =
      let higher : (if ltb top e.seq then e.seq else top) ≡ max top e.seq = ground arith in
      ground (
        arith,
        at_head bytes tail e es p h.0 at,
        higher,
        seq_loop-eq-top_seq fuel es (p + (13 + length e.payload + 4)) (max top e.seq) h.1
            (omega arith) (behind_head bytes tail e es p at),
      )

-- The log of `w` holds the entries `log`: some are on disk, the others wait in the buffer, which
-- is not full.
pub record IsLogged (w : Wal) (log : List WalEntry) : Type 0 where
  pub on_disk : List WalEntry
  pub disk : w.file ≡ encode_all on_disk
  pub split : on_disk ++ w.buf ≡ log
  pub valid : All IsWalEntry log
  pub top : w.seq ≡ top_seq 0 log
  pub room : length w.buf < w.capacity

-- `OpenWAL` on a file of entries that the format can hold gives a log of them.
pub open_wal-IsLogged :
    (es : List WalEntry) (buffer_size : ℕ)
    → All IsWalEntry es
    → IsLogged (open_wal (encode_all es) buffer_size) es
unfolding open_wal replay_seq
open_wal-IsLogged es buffer_size h = record {
  on_disk = es;
  disk = refl;
  split = append-nil es;
  valid = h;
  top =
      seq_loop-eq-top_seq (encode_all es) [] (unfold decode_entry in refl) (length (encode_all es))
        es 0 0 h (length-encode_all es) (sym (append-nil (encode_all es)));
  room = ground arith;
}

-- The entry that `Append` makes.
abbrev pub next_entry : Wal → ℕ → List ℕ → WalEntry
next_entry w typ payload = record { seq = w.seq + 1; typ = typ; payload = payload }

-- `Flush`, on a buffer that may just have become full.
flush_full :
    (w : Wal) (log on_disk : List WalEntry)
    → w.file ≡ encode_all on_disk
    → on_disk ++ w.buf ≡ log
    → All IsWalEntry log
    → w.seq ≡ top_seq 0 log
    → 0 < w.capacity
    → IsLogged (flush w) log × ((flush w).file ≡ encode_all log)
unfolding flush
flush_full w log on_disk disk split valid top room =
    let whole : w.file ++ encode_all w.buf ≡ encode_all log =
      ap (λ t. t ++ encode_all w.buf) disk
      ∙ sym (encode_all-append on_disk w.buf)
      ∙ ap encode_all split in
    (
      record {
        on_disk = log;
        disk = whole;
        split = append-nil log;
        valid = valid;
        top = top;
        room = room;
      },
      whole,
    )

-- `w` with an entry behind its buffer.
abbrev pushed : Wal → WalEntry → Wal
pushed w e = record w { seq = e.seq; buf = w.buf ++ e ∷ [] }

append-eq-pushed :
    (w : Wal) (typ : ℕ) (payload : List ℕ)
    → w.seq + 1 < 2 ^ 64
    → append w typ payload ≡ (
        if leb w.capacity (length w.buf + 1)
        then flush (pushed w (next_entry w typ payload))
        else pushed w (next_entry w typ payload))
unfolding append
append-eq-pushed w typ payload h =
    let e : (w.seq + 1) % 2 ^ 64 ≡ w.seq + 1 = omega arith in
    let n : length (w.buf ++ next_entry w typ payload ∷ []) ≡ length w.buf + 1 =
      length-append w.buf (next_entry w typ payload ∷ []) in
    rw (e, n)

module _ {w : Wal} {log : List WalEntry} (d : IsLogged w log) where
  module _ (typ : ℕ) (payload : List ℕ) (more : w.seq + 1 < 2 ^ 64)
      (valid_e : IsWalEntry (next_entry w typ payload)) where
    e : WalEntry
    e = next_entry w typ payload

    longer_split : d.on_disk ++ (w.buf ++ e ∷ []) ≡ log ++ e ∷ []
    longer_split = sym (append_assoc d.on_disk w.buf (e ∷ [])) ∙ ap (λ t. t ++ e ∷ []) d.split

    longer_valid : All IsWalEntry (log ++ e ∷ [])
    unfolding e
    longer_valid = All-append IsWalEntry log (e ∷ []) d.valid (valid_e, tt)

    longer_top : w.seq + 1 ≡ top_seq 0 (log ++ e ∷ [])
    unfolding e
    longer_top = omega (arith, top_seq-append 0 log e, d.top)

    -- To a log whose file is whole entries, with no torn bytes behind them, whose entries, in the
    -- file and then in the buffer, which is not full, all fit the format, and whose sequence
    -- number is the highest of theirs: `Append` of an entry that the format can hold, before the
    -- sequence numbers run out, puts it behind the others under the next sequence number, whether
    -- or not the buffer is flushed, and leaves such a log.
    pub append-IsLogged : IsLogged (append w typ payload) (log ++ next_entry w typ payload ∷ [])
    unfolding e
    append-IsLogged = elim (Bool-cases (leb w.capacity (length w.buf + 1))) [
      | inl full ↦
          subst (λ v. IsLogged v (log ++ e ∷ []))
            (sym (
              append-eq-pushed w typ payload more
              ∙ ap (λ b. if b then flush (pushed w e) else pushed w e) full))
            (flush_full (pushed w e) (log ++ e ∷ []) d.on_disk d.disk longer_split longer_valid
              longer_top (omega (arith, d.room))).0
      | inr fits ↦
          subst (λ v. IsLogged v (log ++ e ∷ []))
            (sym (
              append-eq-pushed w typ payload more
              ∙ ap (λ b. if b then flush (pushed w e) else pushed w e) fits))
            (record {
              on_disk = d.on_disk;
              disk = d.disk;
              split = longer_split;
              valid = longer_valid;
              top = longer_top;
              room = ground (arith, length-append w.buf (e ∷ []));
            })
    ]

  -- What is on disk and what waits in the buffer are together the log, in order.
  pub read_all-buf : read_all w.file ++ w.buf ≡ log
  read_all-buf =
      let all : read_all w.file ≡ d.on_disk =
        ap read_all (d.disk ∙ sym (append-nil (encode_all d.on_disk)))
        ∙ read_all-encode_all d.on_disk []
            (All-append_left IsWalEntry d.on_disk w.buf
              (subst (All IsWalEntry) (sym d.split) d.valid))
            (unfold decode_entry in refl) in
      ap (λ t. t ++ w.buf) all ∙ d.split

  -- Of a log whose file is whole entries, with no torn bytes behind them, whose entries, in the
  -- file and then in the buffer, which is not full, all fit the format, and whose sequence number
  -- is the highest of theirs: after `Close`, the file holds all of them in order, and `OpenWAL`
  -- goes on from that sequence number.
  pub close-reopen :
      (buffer_size : ℕ)
      → (read_all (close w).file ≡ log)
        × IsLogged (open_wal (close w).file buffer_size) log
        × ((open_wal (close w).file buffer_size).seq ≡ w.seq)
  unfolding close
  close-reopen buffer_size =
      let flushed =
        (flush_full w log d.on_disk d.disk d.split d.valid d.top (omega (arith, d.room))).1 in
      let opened = open_wal-IsLogged log buffer_size d.valid in
      (
        ap read_all (flushed ∙ sym (append-nil (encode_all log)))
            ∙ read_all-encode_all log [] d.valid (unfold decode_entry in refl),
        subst (λ file. IsLogged (open_wal file buffer_size) log) (sym flushed) opened,
        ap (λ file. (open_wal file buffer_size).seq) flushed ∙ opened.top ∙ sym d.top,
      )
