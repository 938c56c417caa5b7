-- ===== src/Loader/Native/Start/Ready.antt =====
-- The initial stack that `build_stack` of loader/native.c makes is the one that a program expects.
use mathlib.Core.Path.{subst}
use selfdb.Base.{
  ℕ, ◌==◌, ◌≢◌, Bool, true, false, ◌||◌, if◌then◌else◌, suc, ◌+◌, ◌*◌, ◌%◌, ◌^◌, ◌≤◌, ◌<◌, ◌≡◌,
  refl, ◌∙◌, ap, ◌⊎◌, inl, inr, List, [], ◌∷◌, ◌++◌, Option, Bytes, length, length-append,
  length-take, arith, ok, none, some, >>=-step,
}
use selfdb.Base.Memory.{Memory}
use selfdb.Loader.Stack.{Stack, vector, aux_words, Aux}
use selfdb.Loader.Stack.Strings.{total, AllPoint}
use selfdb.Loader.Stack.Vector.{Words, lay_vector_lem}
use selfdb.Loader.Native.{Object}
use selfdb.Loader.Native.Start.Push.{Reaches, push_strings_lem, Reaches-keep}
use selfdb.Loader.Native.Start.{
  interp_base, Host, random_bytes, fallback_random, build_aux, Pointers, stack_words, build_stack,
}

pub AllPoint-length :
    (m : Memory) (lo hi : ℕ) (qs : List ℕ) (strs : List Bytes)
    → AllPoint m lo hi qs strs
    → length qs ≡ length strs
AllPoint-length m lo hi [] [] h = refl
AllPoint-length m lo hi [] (s ∷ strs) h = absurd h
AllPoint-length m lo hi (q ∷ qs) [] h = absurd h
AllPoint-length m lo hi (q ∷ qs) (s ∷ strs) h = ap suc (AllPoint-length m lo hi qs strs h.1)

pub length-vector :
    (argc : ℕ) (argp envpp : List ℕ) (aux : List Aux)
    → length (vector argc argp envpp aux) ≡ 3 + length argp + length envpp + length (aux_words aux)
length-vector argc argp envpp aux = omega (
  arith,
  length-append {0} argp (0 ∷ (envpp ++ (0 ∷ aux_words aux))),
  length-append {0} envpp (0 ∷ aux_words aux),
)

length-build_aux :
    (host : Host) (exe : Object) (interp : Option Object) (r p e : ℕ)
    → length (aux_words (build_aux host exe interp r p e)) ≤ 40
unfolding build_aux
length-build_aux host exe interp r p e = ground arith

length-random_bytes : (r : Option Bytes) → length (random_bytes r) ≤ 16
unfolding random_bytes fallback_random
length-random_bytes none = omega arith
length-random_bytes (some bs) = omega (arith, length-take {0} 16 bs)

-- More room than the strings, the vector and the padding can take.
abbrev pub room : List Bytes → List Bytes → Bytes → ℕ
room argv envp path =
    total argv + total envp + 16 + 7 + (length path + 1) + 8 * (43 + length argv + length envp) + 15

-- The auxiliary vector as a program reads it: the value of the first entry of type `t` in front of
-- AT_NULL.
abbrev pub aux_value : ℕ → List Aux → Option ℕ
aux_value t [] = none
aux_value t ((k, v) ∷ rest) =
    let later = aux_value t rest in if k == 0 then none else if k == t then some v else later

abbrev pub has_null : List Aux → Bool
has_null [] = false
has_null ((k, v) ∷ rest) = k == 0 || has_null rest

-- `interp->load_bias`, or 0.
abbrev pub loader_base : Option Object → ℕ
loader_base none = 0
loader_base (some o) = o.load_bias

-- Every type, by its number in <elf.h>, has the value that a program looks for under it.
pub record IsAuxv (host : Host) (exe : Object) (interp : Option Object) (q : Pointers)
    (aux : List Aux) : Type 0 where
  pub null : has_null aux ≡ true
  pub phdr : aux_value 3 aux ≡ some exe.phdr
  pub phent : aux_value 4 aux ≡ some exe.phent
  pub phnum : aux_value 5 aux ≡ some exe.phnum
  pub pagesz : aux_value 6 aux ≡ some 4096
  pub base : aux_value 7 aux ≡ some (loader_base interp)
  pub flags : aux_value 8 aux ≡ some 0
  pub entry : aux_value 9 aux ≡ some exe.entry
  pub uid : aux_value 11 aux ≡ some host.uid
  pub euid : aux_value 12 aux ≡ some host.euid
  pub gid : aux_value 13 aux ≡ some host.gid
  pub egid : aux_value 14 aux ≡ some host.egid
  pub platform_name : aux_value 15 aux ≡ some q.at_platform
  pub hwcap : aux_value 16 aux ≡ some host.hwcap
  pub clktck : aux_value 17 aux ≡ some host.clktck
  pub secure : aux_value 23 aux ≡ some 0
  pub random : aux_value 25 aux ≡ some q.at_random
  pub hwcap2 : aux_value 26 aux ≡ some host.hwcap2
  pub execfn : aux_value 31 aux ≡ some q.at_execfn
  pub no_vdso : host.sysinfo ≡ 0 → aux_value 33 aux ≡ none
  pub vdso : host.sysinfo ≢ 0 → aux_value 33 aux ≡ some host.sysinfo

interp_base-loader_base : (interp : Option Object) → interp_base interp ≡ loader_base interp
unfolding interp_base
interp_base-loader_base none = refl
interp_base-loader_base (some o) = refl

build_aux-IsAuxv :
    (host : Host) (exe : Object) (interp : Option Object) (q : Pointers)
    → IsAuxv host exe interp q (build_aux host exe interp q.at_random q.at_platform q.at_execfn)
unfolding build_aux
build_aux-IsAuxv host exe interp q = record {
  null = ground arith;
  phdr = refl;
  phent = refl;
  phnum = refl;
  pagesz = refl;
  base = ap some (interp_base-loader_base interp);
  flags = refl;
  entry = refl;
  uid = refl;
  euid = refl;
  gid = refl;
  egid = refl;
  platform_name = refl;
  hwcap = refl;
  clktck = refl;
  secure = refl;
  random = refl;
  hwcap2 = refl;
  execfn = refl;
  no_vdso = λ e. ground arith;
  vdso = λ n. ground arith;
}

abbrev pub flat : List Aux → List ℕ
flat [] = []
flat ((t, v) ∷ rest) = t ∷ v ∷ flat rest

-- argc, the addresses of the arguments, 0, those of the environment, 0, the auxiliary vector.
abbrev pub expected : List Bytes → Pointers → List Aux → List ℕ
expected argv q aux = (length argv ∷ q.argp) ++ (0 ∷ (q.envpp ++ (0 ∷ flat aux)))

aux_words-flat : (aux : List Aux) → aux_words aux ≡ flat aux
aux_words-flat [] = refl
aux_words-flat ((t, v) ∷ rest) = ap (λ ws. t ∷ v ∷ ws) (aux_words-flat rest)

-- The stack pointer is 16-byte aligned and inside the block; from it stand argc, the addresses of
-- the arguments, 0, those of the environment, 0, and the auxiliary vector; every address is that
-- of its bytes, above the vector.
pub record IsReady (host : Host) (exe : Object) (interp : Option Object) (path : Bytes)
    (argv envp : List Bytes) (base hi sp : ℕ) (m : Memory) : Type 0 where
  pub q : Pointers
  pub aux : List Aux
  pub auxv : IsAuxv host exe interp q aux
  pub aligned : sp % 16 ≡ 0
  pub inside : base ≤ sp
  pub words : Words m sp (expected argv q aux)
  pub reaches : Reaches host argv envp path m (sp + 8 * length (expected argv q aux)) hi q

stack_words-expected :
    (host : Host) (argv : List Bytes) (exe : Object) (interp : Option Object) (q : Pointers)
    → stack_words host argv exe interp q
      ≡ expected argv q (build_aux host exe interp q.at_random q.at_platform q.at_execfn)
stack_words-expected host argv exe interp q =
    ap (λ ws. (length argv ∷ q.argp) ++ (0 ∷ (q.envpp ++ (0 ∷ ws))))
      (aux_words-flat (build_aux host exe interp q.at_random q.at_platform q.at_execfn))

length-stack_words :
    (host : Host) (argv envp : List Bytes) (exe : Object) (interp : Option Object) (path : Bytes)
    (m : Memory) (lo hi : ℕ) (q : Pointers)
    → Reaches host argv envp path m lo hi q
    → length (stack_words host argv exe interp q) ≤ 43 + length argv + length envp
length-stack_words host argv envp exe interp path m lo hi q r =
    let aux = build_aux host exe interp q.at_random q.at_platform q.at_execfn in
    omega (
      arith,
      length-vector (length argv) q.argp q.envpp aux,
      length-build_aux host exe interp q.at_random q.at_platform q.at_execfn,
      AllPoint-length m lo hi q.argp argv r.args,
      AllPoint-length m lo hi q.envpp envp r.env,
    )

-- With room for all that goes there, `build_stack` succeeds, and the stack is ready: argc, argv,
-- envp and the auxiliary vector read back from a 16-byte aligned stack pointer, and every address
-- in them (AT_RANDOM, AT_PLATFORM and AT_EXECFN too) leads to its bytes; outside the block no byte
-- has changed. Conditions: the block has `room` for argv, envp and the path, and ends below 2 ^ 64.
pub build_stack-IsReady :
    (host : Host) (s : Stack) (argv envp : List Bytes) (exe : Object) (interp : Option Object)
    (path : Bytes)
    → s.base + room argv envp path ≤ s.p
    → s.p < 2 ^ 64
    → (sp : ℕ) × (m : Memory) × (build_stack host s argv envp exe interp path ≡ ok (sp, m))
      × IsReady host exe interp path argv envp s.base s.p sp m
      × ((a : ℕ) → (a < s.base) ⊎ (s.p ≤ a) → m a ≡ s.mem a)
unfolding build_stack
build_stack-IsReady host s argv envp exe interp path h t =
    let rnd_le = length-random_bytes host.random in
    let (q, s', e, p, r) = push_strings_lem host s argv envp path (omega (arith, rnd_le)) in
    let ws = stack_words host argv exe interp q in
    let count = length-stack_words host argv envp exe interp path s'.mem s'.p s.p q r in
    let same = stack_words-expected host argv exe interp q in
    let (sp, m, e', aligned, inside, below, words, keeps, under) =
      lay_vector_lem ws s' (omega (arith, rnd_le, p.base_same, p.cursor, count))
        (omega (arith, p.cursor)) in
    (
      sp,
      m,
      >>=-step _ e e',
      record {
        q = q;
        aux = build_aux host exe interp q.at_random q.at_platform q.at_execfn;
        auxv = build_aux-IsAuxv host exe interp q;
        aligned = aligned;
        inside = omega (arith, p.base_same);
        words = subst (Words m sp) same words;
        reaches =
            subst (λ ws. Reaches host argv envp path m (sp + 8 * length ws) s.p q) same
              (Reaches-keep host argv envp path s'.mem m s'.p (sp + 8 * length ws) s.p q keeps below
                r);
      },
      λ a o. elim o [
        | inl l ↦ under a (omega (arith, p.base_same)) ∙ p.under a l
        | inr u ↦ keeps a (omega (arith, p.cursor)) ∙ p.keeps a u
      ],
    )
