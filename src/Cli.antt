-- ===== src/Cli.antt =====
-- main.go: the commands, from what package flag has parsed on, and the order in which arguments go
-- to it. A string is the list of its bytes. A call of `fatal` is an error; what is printed is the
-- value of a command. Reading a file yields its bytes, or that it does not exist, or another error.
pub mod Fields
pub mod Filters
pub mod Stores
pub mod Sessions
pub mod Dispatch
mod Tests
use bloom_filter_jyy_0098_go.Base.{
  ℕ, zero, suc, Bool, true, false, not, ◌&&◌, ◌||◌, Option, none, some, List, [], ◌∷◌, ◌++◌, length,
  ◌==◌, if◌then◌else◌, Result, ok, err, panic, map_err, ◌>>=◌,
}
use bloom_filter_jyy_0098_go.Float.{Floats}
use bloom_filter_jyy_0098_go.Filter
use bloom_filter_jyy_0098_go.Filter.{BloomFilter, FilterError, add_all}
use bloom_filter_jyy_0098_go.Filter.Sizing.{max_insertions}
use bloom_filter_jyy_0098_go.Codec.{CodecError, unmarshal, marshal, version}
use bloom_filter_jyy_0098_go.Store
use bloom_filter_jyy_0098_go.Store.{Store, StoreError}

pub data CliError : Type 0 where
  file_required items_required item_required read_failed write_failed : CliError
  from_codec : CodecError → CliError
  from_filter : FilterError → CliError
  from_store : StoreError → CliError

pub data Read : Type 0 where
  contents : List ℕ → Read
  missing unreadable : Read

-- `strings.HasPrefix(a, "-")`
unfoldable pub is_flag : List ℕ → Bool
is_flag [] = false
is_flag (c ∷ cs) = c == b'-'

-- `strings.Contains(a, "=")`
unfoldable pub has_equals : List ℕ → Bool
has_equals [] = false
has_equals (c ∷ cs) = (c == b'=') || has_equals cs

-- The loop of `reorderFlags`: the flags with their values, and the other arguments.
unfoldable pub split_flags : List (List ℕ) → List (List ℕ) × List (List ℕ)
unfolding is_flag has_equals
split_flags [] = ([], [])
split_flags (a ∷ []) = if is_flag a then (a ∷ [], []) else ([], a ∷ [])
split_flags (a ∷ b ∷ args) =
    let after_two = split_flags args in
    let after_one = split_flags (b ∷ args) in
    if is_flag a
    then if not (is_flag b) && not (has_equals a)
      then (a ∷ b ∷ after_two.0, after_two.1)
      else (a ∷ after_one.0, after_one.1)
    else (after_one.0, a ∷ after_one.1)

unfoldable pub reorder_flags : List (List ℕ) → List (List ℕ)
unfolding split_flags
reorder_flags args = let r = split_flags args in r.0 ++ r.1

unfoldable pub is_separator : ℕ → Bool
is_separator c = (c == b',') || (c == b' ') || (c == 9)

-- A field of `strings.FieldsFunc` ends: it counts unless it is empty.
unfoldable pub end_field : List ℕ → List (List ℕ) → List (List ℕ)
end_field [] fields = fields
end_field (c ∷ cs) fields = (c ∷ cs) ∷ fields

-- `strings.FieldsFunc(v, f)`, after the bytes `field` of the present field.
unfoldable pub fields_func : List ℕ → List ℕ → List (List ℕ)
unfolding is_separator end_field
fields_func field [] = end_field field []
fields_func field (c ∷ cs) =
    let ended = fields_func [] cs in
    let longer = fields_func (field ++ c ∷ []) cs in
    if is_separator c then end_field field ended else longer

-- `Set`: no field is empty, so that all are appended.
unfoldable pub set_items : List (List ℕ) → List ℕ → List (List ℕ)
unfolding fields_func
set_items items v = items ++ fields_func [] v

-- `String`: the items, joined by commas.
unfoldable pub join_items : List (List ℕ) → List ℕ
join_items [] = []
join_items (x ∷ []) = x
join_items (x ∷ y ∷ xs) = x ++ b',' ∷ join_items (y ∷ xs)

-- The items of a command: each value of `-items`, then the positional arguments.
unfoldable pub all_items : List (List ℕ) → List (List ℕ) → List (List ℕ) → List (List ℕ)
unfolding set_items
all_items items [] args = items ++ args
all_items items (v ∷ values) args = all_items (set_items items v) values args

abbrev pub default_m : ℕ
default_m = 65536

abbrev pub default_k : ℕ
default_k = 7

-- The filter that `runAdd` starts from.
unfoldable pub load_or_new : Read → Result CliError BloomFilter
load_or_new (contents bytes) = map_err from_codec (unmarshal bytes)
load_or_new missing = map_err from_filter (Filter.new default_m default_k)
load_or_new unreadable = err read_failed

-- `os.WriteFile`, and the number of items that is printed.
unfoldable pub save : Bool → List ℕ → ℕ → Result CliError (List ℕ × ℕ)
save can_write bytes n = if can_write then ok (bytes, n) else err write_failed

-- The bytes written to the file, and the number of items.
unfoldable pub run_add :
    List ℕ → List (List ℕ) → List (List ℕ) → Read → Bool → Result CliError (List ℕ × ℕ)
unfolding all_items load_or_new save
run_add file values args read can_write =
    if length file == 0
    then err file_required
    else let items = all_items [] values args in
      if length items == 0
      then err items_required
      else do f ← load_or_new read; save can_write (marshal (some (add_all f items))) (length items)

-- `data, err := os.ReadFile(*file)`, where a missing file is an error, too.
unfoldable pub read_file : Read → Result CliError (List ℕ)
read_file (contents bytes) = ok bytes
read_file missing = err read_failed
read_file unreadable = err read_failed

-- Whether the item is present.
unfoldable pub run_check : List ℕ → List ℕ → Read → Result CliError Bool
unfolding read_file
run_check file item read =
    if length file == 0
    then err file_required
    else if length item == 0
    then err item_required
    else do
      bytes ← read_file read
      f ← map_err from_codec (unmarshal bytes)
      ok (Filter.test f item)

-- The numbers that `info` prints.
pub record Info : Type 0 where
  pub version : ℕ
  pub m : ℕ
  pub k : ℕ
  pub bytes : ℕ
  pub max_insertions : ℕ

unfoldable pub run_info : Floats → List ℕ → Read → Result CliError Info
unfolding read_file
run_info fl file read = if length file == 0 then err file_required else do
  bytes ← read_file read
  ver ← map_err from_codec (version bytes)
  f ← map_err from_codec (unmarshal bytes)
  ok (record {
    version = ver;
    m = f.m;
    k = f.k;
    bytes = length bytes;
    max_insertions = max_insertions fl f (fl.decimal 1 2);
  })

-- `store.Create` for a file that does not exist, and else `store.Open`.
unfoldable pub open_or_create : ℕ → ℕ → Read → Result CliError Store
open_or_create m k missing = map_err from_store (Store.create m k)
open_or_create m k (contents bytes) = map_err from_store (Store.open_file bytes)
open_or_create m k unreadable = err read_failed

-- The loop of `runStoreAdd`; an error ends the program.
unfoldable pub add_each : List (List ℕ) → Store → Result CliError Store
add_each [] s = ok s
add_each (item ∷ items) s = elim (Store.add s item) [
  | none ↦ panic
  | some (s', none) ↦ add_each items s'
  | some (s', some e) ↦ err (from_store e)
]

-- The bytes that the file then holds, and the number of items.
unfoldable pub run_store_add :
    List ℕ → ℕ → ℕ → List (List ℕ) → List (List ℕ) → Read → Result CliError (List ℕ × ℕ)
unfolding all_items open_or_create add_each
run_store_add file m k values args read =
    if length file == 0
    then err file_required
    else let items = all_items [] values args in
      if length items == 0
      then err items_required
      else do s ← open_or_create m k read; s' ← add_each items s; ok (s'.file, length items)

unfoldable pub open_store : Read → Result CliError Store
unfolding read_file
open_store read = do bytes ← read_file read; map_err from_store (Store.open_file bytes)

unfoldable pub run_store_check : List ℕ → List ℕ → Read → Result CliError Bool
unfolding open_store
run_store_check file item read =
    if length file == 0
    then err file_required
    else if length item == 0
    then err item_required
    else do s ← open_store read; elim (Store.test s item) [ none ↦ panic | some b ↦ ok b ]

-- The bytes that the file then holds.
unfoldable pub run_checkpoint : List ℕ → Read → Result CliError (List ℕ)
unfolding open_store
run_checkpoint file read = if length file == 0 then err file_required else do
  s ← open_store read
  let r = Store.checkpoint s in elim r.1 [ none ↦ ok r.0.file | some e ↦ err (from_store e) ]
