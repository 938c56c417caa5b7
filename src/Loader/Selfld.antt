-- ===== src/Loader/Selfld.antt =====
-- loader/selfld.c: the eager binder. Every object of the closure is mapped, its exports go to one
-- table, and then every relocation is resolved against that table.
pub mod Exports
pub mod Relocate
pub mod Loaded
pub mod Bound
pub mod Run
pub mod Whole
use Prim.Native.Nat.{bit_and}
use selfdb.Base.{
  ℕ, zero, suc, ◌+◌, ◌-◌, ◌^◌, ◌==◌, if◌then◌else◌, bit_or, Bool, true, false, not, ◌&&◌, ◌||◌,
  List, [], ◌∷◌, Option, none, some, Bytes, length, equal, Outcome, ok, fail, ◌>>=◌, ◌>>◌, require,
  defined,
}
use selfdb.Base.Word.{word, le_bytes}
use selfdb.Base.Memory.{store}
use selfdb.Loader.Db.{Db, Segment, get_int, column_int}
use selfdb.Loader.Space.{
  Space, Kernel, align_down, align_up, map_pages, protect, copy_in, reserve_span, prot_read,
  prot_write, prot_exec,
}
use selfdb.Loader.Native.{copy_column, bounds, query_load}

-- A relocation with the name of its symbol; NULL where the join finds none.
pub record Reloc : Type 0 where
  pub offset : ℕ
  pub rtype : ℕ
  pub addend : ℕ
  pub name : Option Bytes

-- The answers of an object's database: the exported dynamic symbols that have a value, the
-- relocations and the names of the needed libraries.
pub record ObjectDb : Type 0 where
  pub db : Db
  pub exported : List (Option Bytes × ℕ)
  pub relocations : List Reloc
  pub needed : List Bytes

-- `g_syms`, the last addition first.
abbrev pub Exports : Type 0
Exports = List (Bytes × ℕ)

-- `sizeof(struct sym)`
abbrev pub sym_size : ℕ
sym_size = 24

unfoldable pub export_add : Bytes → ℕ → Exports → Exports
export_add name addr syms = (name, addr) ∷ syms

-- malloc and strdup are used unchecked: without the block the store behind is undefined, and a name
-- that is NULL is one that a later lookup reads.
unfoldable pub export_blocks : Kernel → Bytes → Bool
export_blocks k name = k.malloc sym_size && k.malloc (length name + 1)

unfoldable pub export_find : Bytes → Exports → ℕ
export_find name [] = 0
export_find name ((n, addr) ∷ syms) = if equal n name then addr else export_find name syms

-- `name && *name`
unfoldable pub publish_one : ℕ → Option Bytes → ℕ → Exports → Exports
publish_one bias none value syms = syms
publish_one bias (some []) value syms = syms
publish_one bias (some (c ∷ cs)) value syms = export_add (c ∷ cs) (word (bias + value)) syms

unfoldable pub publish : ℕ → List (Option Bytes × ℕ) → Exports → Exports
publish bias [] syms = syms
publish bias ((name, value) ∷ rest) syms = publish bias rest (publish_one bias name value syms)

-- All the blocks that publishing takes.
unfoldable pub publish_blocks : Kernel → List (Option Bytes × ℕ) → Bool
publish_blocks k [] = true
publish_blocks k ((none, value) ∷ rest) = publish_blocks k rest
publish_blocks k ((some [], value) ∷ rest) = publish_blocks k rest
publish_blocks k ((some (c ∷ cs), value) ∷ rest) = export_blocks k (c ∷ cs) && publish_blocks k rest

pub record Object : Type 0 where
  pub source : ObjectDb
  pub load_bias : ℕ
  pub entry : ℕ

-- The process: its address space and the export table.
pub record Process : Type 0 where
  pub space : Space
  pub syms : Exports

-- `if (buf) memcpy(...)`
unfoldable pub copy_blob : ℕ → ℕ → ℕ → Option Bytes → Space → Outcome Space
copy_blob end dest filesz none s = ok s
copy_blob end dest filesz (some bs) s = copy_in end dest filesz bs s

-- Left writable: `(r ? PROT_READ : 0) | PROT_WRITE | (x ? PROT_EXEC : 0)`
unfoldable pub prot_of : Segment → ℕ
prot_of g =
    bit_or (bit_or (if column_int g.r == 0 then 0 else prot_read) prot_write)
      (if column_int g.x == 0 then 0 else prot_exec)

-- The result of mprotect is not looked at.
unfoldable pub map_load : Kernel → ℕ → Segment → Space → Outcome Space
map_load k bias g s = do
  src ← copy_column k g.content
  let start = align_down (word (bias + g.vaddr))
  let end = align_up (word (bias + g.vaddr + g.memsz))
  let n = word (end + 2 ^ 64 - start)
  require (k.fixed start n)
  s' ←
      copy_blob end (word (bias + g.vaddr)) g.filesz src
        (map_pages start n (bit_or prot_read prot_write) s)
  ok (if k.mprotect start n (prot_of g) then protect start n (prot_of g) s' else s')

unfoldable pub map_loads : Kernel → ℕ → List Segment → Space → Outcome Space
map_loads k bias [] s = ok s
map_loads k bias (g ∷ rest) s = do s' ← map_load k bias g s; map_loads k bias rest s'

-- `f ? bias + entry : 0`
unfoldable pub entry_of : Db → ℕ → ℕ
entry_of db bias = let (entry, f) = get_int db "entry" in if f then word (bias + entry) else 0

-- The option is the database that the path names, `none` where it cannot be opened.
unfoldable pub map_object : Kernel → Option ObjectDb → Process → Outcome (Object × Process)
map_object k none p = fail
map_object k (some o) p = do
  let b = bounds (query_load o.db)
  (bias, s) ← reserve_span k b.min_v b.max_v true p.space
  s' ← map_loads k bias (query_load o.db) s
  defined (publish_blocks k o.exported)
  ok (
    record { source = o; load_bias = bias; entry = entry_of o.db bias },
    record { space = s'; syms = publish bias o.exported p.syms },
  )

abbrev pub r_64 : ℕ
r_64 = 1

abbrev pub r_glob_dat : ℕ
r_glob_dat = 6

abbrev pub r_jump_slot : ℕ
r_jump_slot = 7

abbrev pub r_relative : ℕ
r_relative = 8

-- An address that a store may write to.
unfoldable pub writable : Option ℕ → Bool
writable none = false
writable (some v) = bit_and v prot_write == prot_write

unfoldable pub all_writable : (ℕ → Option ℕ) → ℕ → ℕ → Bool
all_writable prot zero a = true
all_writable prot (suc n) a = writable (prot a) && all_writable prot n (a + 1)

-- `*slot = value`, for a slot of 64 bits.
unfoldable pub write_slot : ℕ → ℕ → Space → Outcome Space
write_slot slot value s = do
  defined (all_writable s.prot 8 slot)
  ok (record { byte = store slot (le_bytes 8 value) s.byte; prot = s.prot })

-- `name ? export_find(name) : 0`
unfoldable pub symbol_address : Option Bytes → Exports → ℕ
symbol_address none syms = 0
symbol_address (some name) syms = export_find name syms

unfoldable pub apply_symbol : ℕ → Reloc → ℕ → Space → Outcome Space
apply_symbol bias r addr s = do
  require (not (addr == 0))
  write_slot (word (bias + r.offset))
      (word (addr + (if column_int r.rtype == r_jump_slot then 0 else r.addend))) s

unfoldable pub apply_reloc : ℕ → Exports → Reloc → Space → Outcome Space
apply_reloc bias syms r s =
    let rtype = column_int r.rtype in
    if rtype == r_relative
    then write_slot (word (bias + r.offset)) (word (bias + r.addend)) s
    else if rtype == r_glob_dat || rtype == r_jump_slot || rtype == r_64
    then apply_symbol bias r (symbol_address r.name syms) s
    else fail

unfoldable pub relocate : ℕ → Exports → List Reloc → Space → Outcome Space
relocate bias syms [] s = ok s
relocate bias syms (r ∷ rest) s = do s' ← apply_reloc bias syms r s; relocate bias syms rest s'
