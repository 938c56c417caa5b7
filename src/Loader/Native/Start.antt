-- ===== src/Loader/Native/Start.antt =====
-- loader/native.c, `build_stack` and `run_native`: the stack for the program or its interpreter,
-- and where control goes.
pub mod Push
pub mod Ready
pub mod Whole
use selfdb.Base.{
  ℕ, zero, suc, ◌+◌, ◌*◌, ◌%◌, ◌^◌, ◌==◌, if◌then◌else◌, Bool, List, [], ◌∷◌, ◌++◌, Option, none,
  some, Bytes, codes, length, take, Outcome, ok, fail, ◌>>=◌, ◌>>◌, require, bit_or,
}
use selfdb.Base.Memory.{Memory}
use selfdb.Loader.Db.{Db, meta_int, get_text}
use selfdb.Loader.Space.{page, Space, Kernel, map_pages, prot_read, prot_write}
use selfdb.Loader.Stack.{Stack, push_bytes, push_str, push_all, Aux, vector, lay_vector}
use selfdb.Loader.Native.{Object, map_program, map_interp}

-- What the process knows of itself: the auxiliary vector that it was given, and its identity. The
-- random bytes are `none` where getauxval gives no address.
pub record Host : Type 0 where
  pub random : Option Bytes
  pub uid : ℕ
  pub euid : ℕ
  pub gid : ℕ
  pub egid : ℕ
  pub clktck : ℕ
  pub hwcap : ℕ
  pub hwcap2 : ℕ
  pub sysinfo : ℕ

-- `rnd[i] = (uint8_t)(i * 7 + 1)`, for `n` values of `i`.
unfoldable pub fallback_random : ℕ → ℕ → Bytes
fallback_random zero i = []
fallback_random (suc n) i = ((i * 7 + 1) % 256) ∷ fallback_random n (i + 1)

unfoldable pub random_bytes : Option Bytes → Bytes
random_bytes none = fallback_random 16 0
random_bytes (some bs) = take 16 bs

-- The types of the entries, as <elf.h> numbers them.
abbrev pub at_phdr : ℕ
at_phdr = 3

abbrev pub at_base : ℕ
at_base = 7

abbrev pub at_entry : ℕ
at_entry = 9

abbrev pub at_random_type : ℕ
at_random_type = 25

abbrev pub at_sysinfo_ehdr : ℕ
at_sysinfo_ehdr = 33

-- `interp->load_bias`, 0 without an interpreter.
unfoldable pub interp_base : Option Object → ℕ
interp_base none = 0
interp_base (some o) = o.load_bias

unfoldable pub build_aux : Host → Object → Option Object → ℕ → ℕ → ℕ → List Aux
build_aux host exe interp at_random at_platform at_execfn =
    (at_phdr, exe.phdr)
    ∷ (4, exe.phent)
    ∷ (5, exe.phnum)
    ∷ (6, page)
    ∷ (at_base, interp_base interp)
    ∷ (8, 0)
    ∷ (at_entry, exe.entry)
    ∷ (11, host.uid)
    ∷ (12, host.euid)
    ∷ (13, host.gid)
    ∷ (14, host.egid)
    ∷ (23, 0)
    ∷ (17, host.clktck)
    ∷ (16, host.hwcap)
    ∷ (26, host.hwcap2)
    ∷ (at_random_type, at_random)
    ∷ (15, at_platform)
    ∷ (31, at_execfn)
    ∷ (if host.sysinfo == 0 then (0, 0) ∷ [] else (at_sysinfo_ehdr, host.sysinfo) ∷ (0, 0) ∷ [])

abbrev pub platform : Bytes
platform = codes "x86_64"

-- The addresses that the vectors hold.
pub record Pointers : Type 0 where
  pub argp : List ℕ
  pub envpp : List ℕ
  pub at_random : ℕ
  pub at_platform : ℕ
  pub at_execfn : ℕ

-- "place strings + aux data at the top"; the arrays `argp` and `envpp` are taken to be allocated.
unfoldable pub push_strings :
    Host → Stack → List Bytes → List Bytes → Bytes → Outcome (Pointers × Stack)
push_strings host s argv envp exec_path = do
  (argp, s1) ← push_all argv s
  (envpp, s2) ← push_all envp s1
  (at_random, s3) ← push_bytes (random_bytes host.random) s2
  (at_platform, s4) ← push_str platform s3
  (at_execfn, s5) ← push_str exec_path s4
  ok (
    record {
      argp = argp;
      envpp = envpp;
      at_random = at_random;
      at_platform = at_platform;
      at_execfn = at_execfn;
    },
    s5,
  )

-- The words of the stack; `argc` is the length of `argv`.
abbrev pub stack_words : Host → List Bytes → Object → Option Object → Pointers → List ℕ
stack_words host argv exe interp q =
    vector (length argv) q.argp q.envpp
      (build_aux host exe interp q.at_random q.at_platform q.at_execfn)

unfoldable pub build_stack :
    Host → Stack → List Bytes → List Bytes → Object → Option Object → Bytes → Outcome (ℕ × Memory)
build_stack host s argv envp exe interp exec_path = do
  (q, s') ← push_strings host s argv envp exec_path
  lay_vector (stack_words host argv exe interp q) s'

-- Where control goes: %rsp, the address, and the memory that is found there.
pub record Entered : Type 0 where
  pub sp : ℕ
  pub entry : ℕ
  pub space : Space

abbrev pub em_x86_64 : ℕ
em_x86_64 = 62

abbrev pub stack_size : ℕ
stack_size = 8 * 2 ^ 20

-- The files are those that `open` finds by their paths.
unfoldable pub map_interp_of :
    Kernel → (Bytes → Option Bytes) → Option Bytes → Space → Outcome (Option Object × Space)
map_interp_of k files none s = ok (none, s)
map_interp_of k files (some path) s = do (o, s') ← map_interp k (files path) s; ok (some o, s')

unfoldable pub map_stack : Kernel → ℕ → Space → Outcome (ℕ × Space)
map_stack k size s = elim (k.reserve s size) [
  | none ↦ fail
  | some base ↦ ok (base, map_pages base size (bit_or prot_read prot_write) s)
]

-- `have_interp ? interp.entry : exe.entry`
unfoldable pub first_entry : Object → Option Object → ℕ
first_entry exe none = exe.entry
first_entry exe (some interp) = interp.entry

unfoldable pub run_native :
    Kernel
    → Host
    → (Bytes → Option Bytes)
    → Db
    → Bytes
    → List Bytes
    → List Bytes
    → Space
    → Outcome Entered
run_native k host files db path argv envp s = do
  em ← meta_int db "em"
  require (em == em_x86_64)
  (exe, s1) ← map_program k db s
  (interp, s2) ← map_interp_of k files (get_text db "interp") s1
  (base, s3) ← map_stack k stack_size s2
  (sp, m) ←
      build_stack host (record { base = base; p = base + stack_size; mem = s3.byte }) argv envp exe
        interp path
  ok (record {
    sp = sp;
    entry = first_entry exe interp;
    space = record { byte = m; prot = s3.prot };
  })
