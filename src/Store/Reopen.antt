-- ===== src/Store/Reopen.antt =====
-- `Open` on any bytes at all: it is safe, and opening again gives the same store.
use bloom_filter_jyy_0098_go.Base.{
  ℕ, ◌<◌, ◌≤◌, ◌≡◌, refl, ap, sym, ◌∙◌, subst, ◌⊎◌, inl, inr, Option, some, none, List, length,
  take, slice, arith, ok, err, panic, Result, ltb, ◌==◌, length-take, length-append, slice-take,
  take-take_le, Option-cases, Bool-cases,
}
use bloom_filter_jyy_0098_go.Std.BigEndian.{uint32}
use bloom_filter_jyy_0098_go.Store.{
  Store, StoreError, Parsed, Replay, open_file, opened, start, replay, last_checkpoint, file_magic,
  corrupt_header, not_store,
}
use bloom_filter_jyy_0098_go.Store.Chain.{
  Chain, chain_end, last_in, replay_all, records_from, last_checkpoint-eq-last_in,
  replay-eq-replay_all, Split, resume, chain_end-append, Chain-append_right, chain_end-le,
  Chain-take, pos-replay_all,
}

-- A file with a whole header and the magic.
pub record HasHeader (b : List ℕ) : Type 0 where
  pub long : 8 ≤ length b
  pub magic : uint32 (slice b 0 4) ≡ file_magic

abbrev pub start_at : ℕ → Replay
start_at p = record { bf = none; k = 0; pos = p }

abbrev pub finish : List ℕ → ℕ → Option Replay → Result StoreError Store
finish b m s = elim s [ some s' ↦ ok (opened b m s') | none ↦ panic ]

-- `Open` is the replay of the records from the last checkpoint on.
open_file-eq-finish :
    (b : List ℕ) (rs : List Parsed) (split : Split rs 8 (start (last_in rs 8 none)))
    → HasHeader b
    → Chain b 8 rs
    → length rs ≤ length b
    → open_file b
      ≡ finish b
          (uint32 (slice b 4 8))
          (replay_all (uint32 (slice b 4 8)) split.after (start_at (chain_end 8 split.before)))
unfolding open_file
open_file-eq-finish b rs split hd c h =
    let m = uint32 (slice b 4 8) in
    let second : replay (length b) b m (start_at (start (last_checkpoint (length b) b 8 none)))
        ≡ replay_all m split.after (start_at (chain_end 8 split.before)) =
      ap (λ l. replay (length b) b m (start_at (start l)))
        (last_checkpoint-eq-last_in b (length b) rs 8 none c h)
      ∙ ap (λ p. replay (length b) b m (start_at p)) split.at
      ∙ replay-eq-replay_all b (length b) m split.after (start_at (chain_end 8 split.before))
          (Chain-append_right b 8 split.before split.after (subst (Chain b 8) split.whole c))
          (omega (arith, length-append split.before split.after, ap length split.whole)) in
    ground (arith, hd.long, hd.magic, second)

-- What `Open` returns on any file: one of its two errors, or else.
pub opens_or_fails :
    (b : List ℕ)
    → ((length b < 8) × (open_file b ≡ err corrupt_header))
      ⊎ (open_file b ≡ err not_store)
      ⊎ HasHeader b
unfolding open_file
opens_or_fails b = elim (Bool-cases (ltb (length b) 8)) [
  | inl short ↦ inl (ground arith, ground arith)
  | inr long ↦ elim (Bool-cases (uint32 (slice b 0 4) == file_magic)) [
    | inl same ↦ inr (inr (record { long = ground arith; magic = ground arith }))
    | inr other ↦ inr (inl (ground arith))
  ]
]

pub file-opened : (b : List ℕ) (m : ℕ) (s : Replay) → (opened b m s).file ≡ take s.pos b
unfolding opened
file-opened b m s = elim (Option-cases s.bf) [ inl e ↦ rw e refl | inr q ↦ rw q.1 refl ]

opened-take : (b : List ℕ) (m : ℕ) (s : Replay) → opened (take s.pos b) m s ≡ opened b m s
unfolding opened
opened-take b m s = elim (Option-cases s.bf) [
  | inl e ↦ ground (arith, e, take-take_le s.pos s.pos b)
  | inr q ↦ ground (arith, q.1, take-take_le s.pos s.pos b)
]

module _ (b : List ℕ) (hd : HasHeader b) where
  pub found : (rs : List Parsed) × (length rs ≤ length b) × Chain b 8 rs
  found = records_from b (length b) 8 (omega arith)

  abbrev pub split : Split found.0 8 (start (last_in found.0 8 none))
  split = resume found.0

  abbrev pub m : ℕ
  m = uint32 (slice b 4 8)

  abbrev pub replayed : Option Replay
  replayed = replay_all m split.after (start_at (chain_end 8 split.before))

  pub opens : open_file b ≡ finish b m replayed
  opens = open_file-eq-finish b found.0 split hd found.2 found.1

  -- A replay ends where the records of the file end.
  pub pos-replayed : {s : Replay} → replayed ≡ some s → s.pos ≡ chain_end 8 found.0
  pos-replayed {s} e =
      pos-replay_all m split.after (start_at (chain_end 8 split.before)) e
      ∙ sym (chain_end-append 8 split.before split.after)
      ∙ ap (chain_end 8) (sym split.whole)

  -- The file that `Open` leaves is opened by the same replay.
  reopens : {s : Replay} → replayed ≡ some s → open_file (take s.pos b) ≡ ok (opened b m s)
  reopens {s} e =
      let rs = found.0 in
      let ends = pos-replayed e in
      let bounds = chain_end-le b 8 rs found.2 hd.long in
      let hd' : HasHeader (take s.pos b) = record {
        long = omega (arith, length-take s.pos b, hd.long);
        magic = ap uint32 (slice-take s.pos 0 4 b (omega arith) (omega arith)) ∙ hd.magic;
      } in
      let chain : Chain (take s.pos b) 8 rs =
        subst (λ p. Chain (take p b) 8 rs) (sym ends) (Chain-take b 8 rs found.2 hd.long) in
      open_file-eq-finish (take s.pos b) rs split hd' chain (omega (arith, length-take s.pos b))
      ∙ ap
          (λ n.
            finish (take s.pos b) n
              (replay_all n split.after (start_at (chain_end 8 split.before))))
          (ap uint32 (slice-take s.pos 4 8 b (omega arith) (omega arith)))
      ∙ ap (finish (take s.pos b) m) e
      ∙ ap ok (opened-take b m s)

-- Whatever bytes `Open` accepted, with records cut off, corrupt or forged among them: the file that
-- it leaves, opened again, gives the same store, byte for byte.
pub open_file-open_file : (b : List ℕ) {s : Store} → open_file b ≡ ok s → open_file s.file ≡ ok s
open_file-open_file b {s} e = elim (opens_or_fails b) [
  | inl q ↦ absurd (ground (arith, q.1, e))
  | inr (inl q) ↦ absurd (ground (arith, q, e))
  | inr (inr hd) ↦ elim (Option-cases (replayed b hd)) [
    | inl q ↦ absurd (ground (arith, q, opens b hd, e))
    | inr q ↦
        let is : s ≡ opened b (m b hd) q.0 = ground (arith, q.1, opens b hd, e) in
        ap (λ (t : Store). open_file t.file) is
        ∙ ap open_file (file-opened b (m b hd) q.0)
        ∙ reopens b hd q.1
        ∙ ap ok (sym is)
  ]
]
