-- ===== src/Loader/Selfld/Run.antt =====
-- loader/selfld.c, `run_selfld` and its `build_stack`: the closure is mapped, then the preloads,
-- and only then is anything relocated.
use selfdb.Base.{
  ℕ, ◌+◌, ◌^◌, ◌==◌, ◌≡◌, ◌≢◌, refl, ap, ◌∙◌, ltb, List, [], ◌∷◌, ◌++◌, Option, none, some, Bytes,
  codes, take, length, Outcome, ok, fail, ◌>>=◌, ◌>>◌, >>=-eq-ok, require, defined, arith,
}
use selfdb.Base.Word.{word}
use selfdb.Base.Memory.{Memory}
use selfdb.Loader.Db.{Db, meta_int}
use selfdb.Loader.Image.{phdr_size}
use selfdb.Loader.Space.{page, Space, Kernel}
use selfdb.Loader.Stack.{Stack, push_bytes, push_all, Aux, vector, lay_vector}
use selfdb.Loader.Native.Start.{Host, Entered, map_stack, em_x86_64}
use selfdb.Loader.Selfld.{
  ObjectDb, Object, Process, Exports, export_find, publish, map_object, relocate,
}
use selfdb.Loader.Selfld.Exports.{last_export, export_find-publish}

-- The resolver database: the path of a soname, and the `preload` table, `none` where there is none.
pub record Resolver : Type 0 where
  pub find : Bytes → Option Bytes
  pub preload : Option (List Bytes)

abbrev pub max_libs : ℕ
max_libs = 32

-- Without a resolver nothing is found.
unfoldable pub resolve : Option Resolver → Bytes → Option Bytes
resolve none soname = none
resolve (some rdb) soname = rdb.find soname

module _ (k : Kernel) (files : Bytes → Option ObjectDb) where
  -- `map_object(path, &libs[nlibs++])` for each path, with `n` objects in `libs` already.
  unfoldable pub map_paths : ℕ → List Bytes → Process → Outcome (List Object × Process)
  map_paths n [] p = ok ([], p)
  map_paths n (path ∷ rest) p = do
    defined (ltb n max_libs)
    (o, p1) ← map_object k (files path) p
    (os, p2) ← map_paths (n + 1) rest p1
    ok (o ∷ os, p2)

  -- Each soname is resolved when its turn comes.
  unfoldable pub map_needed :
      Option Resolver → ℕ → List Bytes → Process → Outcome (List Object × Process)
  map_needed rdb n [] p = ok ([], p)
  map_needed rdb n (soname ∷ rest) p = elim (resolve rdb soname) [
    | none ↦ fail
    | some path ↦ do
      defined (ltb n max_libs)
      (o, p1) ← map_object k (files path) p
      (os, p2) ← map_needed rdb (n + 1) rest p1
      ok (o ∷ os, p2)
  ]

  -- No resolver, or no such table: no interposition.
  unfoldable pub preload_paths : Option Resolver → List Bytes
  preload_paths none = []
  preload_paths (some rdb) = elim rdb.preload [ none ↦ [] | some paths ↦ paths ]

unfoldable pub relocate_all : Exports → List Object → Space → Outcome Space
relocate_all syms [] s = ok s
relocate_all syms (o ∷ rest) s = do
  s' ← relocate o.load_bias syms o.source.relocations s
  relocate_all syms rest s'

unfoldable pub random_bytes : Option Bytes → Bytes
random_bytes none = codes "selfldselfld1234"
random_bytes (some bs) = take 16 bs

unfoldable pub build_aux : Host → ℕ → ℕ → ℕ → ℕ → List Aux
build_aux host entry phdr phnum at_random =
    (3, phdr)
    ∷ (5, phnum)
    ∷ (4, phdr_size)
    ∷ (6, page)
    ∷ (9, entry)
    ∷ (7, 0)
    ∷ (25, at_random)
    ∷ (33, host.sysinfo)
    ∷ (0, 0)
    ∷ []

-- The first `argc` strings of `argv` are pushed.
unfoldable pub build_stack :
    Host → Stack → ℕ → List Bytes → List Bytes → ℕ → ℕ → ℕ → Outcome (ℕ × Memory)
build_stack host s argc argv envp entry phdr phnum = do
  (ap', s1) ← push_all (take argc argv) s
  (ep, s2) ← push_all envp s1
  (at_random, s3) ← push_bytes (random_bytes host.random) s2
  lay_vector (vector argc ap' ep (build_aux host entry phdr phnum at_random)) s3

abbrev pub stack_size : ℕ
stack_size = 2 ^ 20

unfoldable pub enter_main :
    Kernel → Host → Object → List Bytes → List Bytes → Space → Outcome Entered
enter_main k host main_obj argv envp s = do
  (base, s1) ← map_stack k stack_size s
  (sp, m) ←
      build_stack host (record { base = base; p = base + stack_size; mem = s1.byte }) 1 argv envp
        main_obj.entry 0 0
  ok (record { sp = sp; entry = main_obj.entry; space = record { byte = m; prot = s1.prot } })

-- The main program is opened again by its path.
unfoldable pub run_selfld :
    Kernel
    → Host
    → (Bytes → Option ObjectDb)
    → Option Resolver
    → Db
    → Bytes
    → List Bytes
    → List Bytes
    → Space
    → Outcome Entered
run_selfld k host files rdb maindb path argv envp s = do
  em ← meta_int maindb "em"
  require (em == em_x86_64)
  (main_obj, p1) ← map_object k (files path) (record { space = s; syms = [] })
  (libs, p2) ← map_needed k files rdb 0 main_obj.source.needed p1
  (preloads, p3) ← map_paths k files (length libs) (preload_paths k files rdb) p2
  s1 ← relocate_all p3.syms (libs ++ preloads) p3.space
  s2 ← relocate_all p3.syms (main_obj ∷ []) s1
  enter_main k host main_obj argv envp s2

-- A mapped object publishes its exports, and nothing else changes the table.
pub map_object-syms :
    (k : Kernel) (o : ObjectDb) (p p' : Process) (obj : Object)
    → map_object k (some o) p ≡ ok (obj, p')
    → (p'.syms ≡ publish obj.load_bias o.exported p.syms) × (obj.source ≡ o)
unfolding map_object
map_object-syms k o p p' obj h = ground arith

module _ (k : Kernel) (files : Bytes → Option ObjectDb) where
  map_paths-cons :
      (n : ℕ) (path : Bytes) (rest : List Bytes) (p p' : Process) (os : List Object)
      → map_paths k files n (path ∷ rest) p ≡ ok (os, p')
      → (o : Object) × (p1 : Process) × (os' : List Object) × (map_object k (files path) p
          ≡ ok (o, p1))
        × (map_paths k files (n + 1) rest p1 ≡ ok (os', p'))
        × (os ≡ o ∷ os')
  unfolding map_paths
  map_paths-cons n path rest p p' os h =
      let (u, d, h1) = >>=-eq-ok (defined (ltb n max_libs)) _ h in
      let (r, e, h2) = >>=-eq-ok (map_object k (files path) p) _ h1 in
      let (r', e', h3) = >>=-eq-ok (map_paths k files (n + 1) rest r.1) _ h2 in
      (r.0, r.1, r'.0, e, e' ∙ ground arith, ground arith)

  -- The object that is mapped last, at the end of the list, interposes: a name that it exports
  -- resolves to its own definition, moved by its own load bias, whatever the objects before it export. Conditions: the mapping succeeds, and the
  -- name is not empty.
  pub map_paths-interposes :
      (paths : List Bytes) (n : ℕ) (path : Bytes) (o : ObjectDb) (p p' : Process) (os : List Object)
      (name : Bytes) (v : ℕ)
      → files path ≡ some o
      → name ≢ []
      → last_export name o.exported ≡ some v
      → map_paths k files n (paths ++ path ∷ []) p ≡ ok (os, p')
      → (front : List Object) × (obj : Object) × (os ≡ front ++ obj ∷ [])
        × (obj.source ≡ o)
        × (export_find name p'.syms ≡ word (obj.load_bias + v))
  map_paths-interposes [] n path o p p' os name v f ne x h =
      let (obj, p1, os', e, e', all) = map_paths-cons n path [] p p' os h in
      let (syms, src) = map_object-syms k o p p1 obj (rw (← f) e) in
      (
        [],
        obj,
        all ∙ unfold map_paths in ap (λ l. obj ∷ l) (ground arith),
        src,
        unfold map_paths in
            ground (arith, syms, export_find-publish obj.load_bias o.exported name p.syms ne),
      )
  map_paths-interposes (q ∷ paths) n path o p p' os name v f ne x h =
      let (first, p1, os', e, e', all) = map_paths-cons n q (paths ++ path ∷ []) p p' os h in
      let (front, obj, last, src, found) =
        map_paths-interposes paths (n + 1) path o p1 p' os' name v f ne x e' in
      (first ∷ front, obj, all ∙ ap (λ l. first ∷ l) last, src, found)

build_stack_argv :
    (host : Host) (s : Stack) (a : Bytes) (rest rest' envp : List Bytes) (entry phdr phnum : ℕ)
    → build_stack host s 1 (a ∷ rest) envp entry phdr phnum
      ≡ build_stack host s 1 (a ∷ rest') envp entry phdr phnum
unfolding build_stack
build_stack_argv host s a rest rest' envp entry phdr phnum = refl

-- In selfld mode the arguments after the program's own path do not reach the program: runs that
-- differ in nothing else end the same.
pub run_selfld-drops_arguments :
    (k : Kernel) (host : Host) (files : Bytes → Option ObjectDb) (rdb : Option Resolver)
    (maindb : Db) (path a : Bytes) (rest rest' envp : List Bytes) (s : Space)
    → run_selfld k host files rdb maindb path (a ∷ rest) envp s
      ≡ run_selfld k host files rdb maindb path (a ∷ rest') envp s
unfolding run_selfld enter_main build_stack
run_selfld-drops_arguments k host files rdb maindb path a rest rest' envp s = refl
