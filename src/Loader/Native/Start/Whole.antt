-- ===== src/Loader/Native/Start/Whole.antt =====
-- `run_native` of loader/native.c as a whole: the program and its interpreter are in memory, the
-- stack is ready, and control goes to the one that starts first.
use mathlib.Core.Path.{subst}
use selfdb.Base.{
  ℕ, ◌+◌, ◌-◌, ◌^◌, ◌≤◌, ◌<◌, ◌==◌, ◌≡◌, refl, sym, ◌∙◌, ◌⊎◌, inl, inr, List, [], ◌∷◌, Option, none,
  some, Bytes, All, ok, >>=-step, bit_or, arith,
}
use selfdb.Loader.Db.{Db, Segment, get_text}
use selfdb.Loader.Space.{page, Space, Kernel, map_pages, prot_read, prot_write, reserve_span}
use selfdb.Loader.Space.Place.{Grants}
use selfdb.Loader.Stack.{Stack}
use selfdb.Loader.Native.{Object, map_program, map_interp, query_load, bounds, et_dyn}
use selfdb.Loader.Native.Span.{NoWrap}
use selfdb.Loader.Native.Loaded.{FitsRow, PagesApart, Same, IsLoaded}
use selfdb.Loader.Native.Program.{
  HasKeys, hole, IsHole, bias_of, meta_int-ok, ok_space, map_pages-Same, map_program-Mapped,
}
use selfdb.Loader.Native.Interp.{AllLoaded, rows-AllLoaded, IsElf, interp_rows, map_interp-rows}
use selfdb.Loader.Native.Start.{
  Host, Entered, em_x86_64, stack_size, map_interp_of, map_stack, first_entry, run_native,
}
use selfdb.Loader.Native.Start.Ready.{room, IsReady, build_stack-IsReady}

-- The state in which control leaves the loader: `before` is the space without the stack.
pub record Enters (host : Host) (exe : Object) (interp : Option Object) (path : Bytes)
    (argv envp : List Bytes) (base : ℕ) (before : Space) (e : Entered) : Type 0 where
  pub entry_first : e.entry ≡ first_entry exe interp
  pub ready : IsReady host exe interp path argv envp base (base + stack_size) e.sp e.space.byte
  pub writable :
      (a : ℕ)
      → base ≤ a
      → a < base + stack_size
      → e.space.prot a ≡ some (bit_or prot_read prot_write)
  pub elsewhere : (a : ℕ) → (a < base) ⊎ (base + stack_size ≤ a) → Same before e.space a

map_stack-ok :
    (k : Kernel) (size base : ℕ) (s : Space)
    → k.reserve s size ≡ some base
    → map_stack k size s ≡ ok (base, map_pages base size (bit_or prot_read prot_write) s)
unfolding map_stack
map_stack-ok k size base s r = rw (map_stack, r) refl

map_pages-prot :
    (base n v : ℕ) (s : Space) (a : ℕ)
    → base ≤ a
    → a < base + n
    → (map_pages base n v s).prot a ≡ some v
unfolding map_pages
map_pages-prot base n v s a h l = ground arith

-- Once the program and its interpreter are mapped and the kernel gives a block for the stack,
-- `run_native` goes to the entry point of the interpreter, or of the program if there is none, with
-- the stack that a program expects, in a block that is readable and writable; outside the block
-- memory is as the mapping left it. Conditions: the machine is x86-64, the block ends below 2 ^ 64,
-- and argv, envp and the path fit in its 8 MiB.
pub run_native-Enters :
    (k : Kernel) (host : Host) (files : Bytes → Option Bytes) (db : Db) (path : Bytes)
    (argv envp : List Bytes) (s s1 s2 : Space) (exe : Object) (interp : Option Object) (base : ℕ)
    → db.meta_int "em" ≡ some em_x86_64
    → map_program k db s ≡ ok (exe, s1)
    → map_interp_of k files (get_text db "interp") s1 ≡ ok (interp, s2)
    → k.reserve s2 stack_size ≡ some base
    → base + stack_size < 2 ^ 64
    → room argv envp path ≤ stack_size
    → (e : Entered) × (run_native k host files db path argv envp s ≡ ok e)
      × Enters host exe interp path argv envp base s2 e
unfolding run_native
run_native-Enters k host files db path argv envp s s1 s2 exe interp base em mapped found r top fit =
    let s3 = map_pages base stack_size (bit_or prot_read prot_write) s2 in
    let st : Stack = record { base = base; p = base + stack_size; mem = s3.byte } in
    let (sp, m, built, ready, out) =
      build_stack-IsReady host st argv envp exe interp path (omega arith) top in
    (
      record {
        sp = sp;
        entry = first_entry exe interp;
        space = record { byte = m; prot = s3.prot };
      },
      >>=-step _ (meta_int-ok db "em" em_x86_64 em) (
          >>=-step _ mapped (
            >>=-step _ found
              (>>=-step _ (map_stack-ok k stack_size base s2 r) (>>=-step _ built refl)))),
      record {
        entry_first = refl;
        ready = ready;
        writable = map_pages-prot base stack_size (bit_or prot_read prot_write) s2;
        elsewhere = λ a o.
            let before = map_pages-Same base stack_size (bit_or prot_read prot_write) s2 a o in
            (out a o ∙ before.0, before.1);
      },
    )

-- A hole that the kernel gives, where nothing was mapped before.
pub record NewHole (k : Kernel) (s : Space) (n base : ℕ) : Type 0 where
  pub given : k.reserve s n ≡ some base
  pub inside : IsHole base n
  pub unmapped : (a : ℕ) → base ≤ a → a < base + n → s.prot a ≡ none

-- What is loaded stays, whatever happens in a new hole.
module _ (bias base n : ℕ) (s s' : Space)
    (unmapped : (a : ℕ) → base ≤ a → a < base + n → s.prot a ≡ none)
    (same : (a : ℕ) → (a < base) ⊎ (base + n ≤ a) → Same s s' a) where
  mapped-Same : (a v : ℕ) → s.prot a ≡ some v → Same s s' a
  mapped-Same a v p = elim (outside_or_in a) [
    | inl o ↦ same a o
    | inr h ↦ absurd (some_none (sym p ∙ unmapped a h.0 h.1))
  ]
    where
      outside_or_in : (a : ℕ) → ((a < base) ⊎ (base + n ≤ a)) ⊎ (base ≤ a) × (a < base + n)
      outside_or_in a = ground arith

      some_none : some v ≡ none → ⊥
      some_none e = ground arith

  IsLoaded-kept : (g : Segment) → g.filesz ≤ g.memsz → IsLoaded bias s g → IsLoaded bias s' g
  IsLoaded-kept g t l = record {
    bytes = λ i h. (mapped-Same _ _ (l.protected i (omega arith))).0 ∙ l.bytes i h;
    zeros = λ i h m. (mapped-Same _ _ (l.protected i m)).0 ∙ l.zeros i h m;
    protected = λ i m. (mapped-Same _ _ (l.protected i m)).1 ∙ l.protected i m;
  }

  All-IsLoaded-kept :
      (rows : List Segment)
      → All (FitsRow bias) rows
      → All (IsLoaded bias s) rows
      → All (IsLoaded bias s') rows
  All-IsLoaded-kept [] f l = tt
  All-IsLoaded-kept (g ∷ rest) f l = (IsLoaded-kept g f.0.tail l.0, All-IsLoaded-kept rest f.1 l.1)

interp_found :
    (k : Kernel) (files : Bytes → Option Bytes) (path file : Bytes) (s s' : Space) (o : Object)
    (text : Option Bytes)
    → text ≡ some path
    → files path ≡ some file
    → map_interp k (some file) s ≡ ok (o, s')
    → map_interp_of k files text s ≡ ok (some o, s')
unfolding map_interp_of
interp_found k files path file s s' o text e opened found = rw (e, opened) (>>=-step _ found refl)

-- A program and its interpreter, from an empty process to the first instruction: in
-- the state in which `run_native` jumps to the interpreter's entry point, every load segment of the
-- program and of the interpreter has its bytes, its zeros and its protection, and the stack is the
-- one that they expect. Conditions: the machine is x86-64; the interpreter is an ELF file; the
-- segments of each do not wrap, fit and have no page in common; the kernel refuses no mapping at a
-- fixed address and puts the interpreter and the stack where nothing was mapped; and argv, envp and
-- the path fit in the stack's 8 MiB.
pub run_native-Loaded :
    (k : Kernel) (host : Host) (files : Bytes → Option Bytes) (db : Db) (path : Bytes)
    (argv envp : List Bytes) (s s0 s1 s2 : Space) (exe interp : Object) (interp_path file : Bytes)
    (et entry phoff phnum phent bias interp_base base : ℕ)
    → Grants k
    → db.meta_int "em" ≡ some em_x86_64
    → HasKeys db et entry phoff phnum phent
    → reserve_span k (bounds (query_load db)).min_v (bounds (query_load db)).max_v (et == et_dyn) s
      ≡ ok (bias, s0)
    → All (FitsRow bias) (query_load db)
    → PagesApart bias (query_load db)
    → map_program k db s ≡ ok (exe, s1)
    → get_text db "interp" ≡ some interp_path
    → files interp_path ≡ some file
    → IsElf file
    → NewHole k s1 (hole (bounds (interp_rows file))) interp_base
    → (bounds (interp_rows file)).max_v + (page - 1) < 2 ^ 64
    → All NoWrap (interp_rows file)
    → All (FitsRow (bias_of interp_base (bounds (interp_rows file)))) (interp_rows file)
    → PagesApart (bias_of interp_base (bounds (interp_rows file))) (interp_rows file)
    → map_interp k (some file) s1 ≡ ok (interp, s2)
    → NewHole k s2 stack_size base
    → room argv envp path ≤ stack_size
    → (e : Entered) × (run_native k host files db path argv envp s ≡ ok e)
      × (e.entry ≡ interp.entry)
      × IsReady host exe (some interp) path argv envp base (base + stack_size) e.sp e.space.byte
      × All (IsLoaded bias e.space) (query_load db)
      × AllLoaded file (bias_of interp_base (bounds (interp_rows file))) e.space
unfolding first_entry
run_native-Loaded k host files db path argv envp s s0 s1 s2 exe interp interp_path file et entry
      phoff phnum phent bias interp_base base g em keys r f p mapped text opened elf new top nw fi
      pi found new_stack fit =
    let rows = query_load db in
    let irows = interp_rows file in
    let ibias = bias_of interp_base (bounds irows) in
    let (phdr, s1', run, m, at) =
      map_program-Mapped k db s s0 et entry phoff phnum phent bias g keys r f p in
    let loaded1 : All (IsLoaded bias s1) rows =
      subst (λ x. All (IsLoaded bias x) rows) (ok_space (sym run ∙ mapped)) m.loaded in
    let (s2', irun, iloaded, out) =
      map_interp-rows k file s1 interp_base g elf new.given new.inside top nw fi pi in
    let same2 : s2' ≡ s2 = ok_space (sym irun ∙ found) in
    let loaded2 : All (IsLoaded ibias s2) irows =
      subst (λ x. All (IsLoaded ibias x) irows) same2 iloaded in
    let kept2 =
      subst
        (λ x. (a : ℕ) → (a < interp_base) ⊎ (interp_base + hole (bounds irows) ≤ a) → Same s1 x a)
        same2 out in
    let (e, ran, ends) =
      run_native-Enters k host files db path argv envp s s1 s2 exe (some interp) base em mapped
        (interp_found k files interp_path file s1 s2 interp (get_text db "interp") text opened
          found)
        new_stack.given (omega (arith, new_stack.inside.below)) fit in
    let twice =
      All-IsLoaded-kept bias interp_base (hole (bounds irows)) s1 s2 new.unmapped kept2 rows f
        loaded1 in
    (
      e,
      ran,
      ends.entry_first,
      ends.ready,
      All-IsLoaded-kept bias base stack_size s2 e.space new_stack.unmapped ends.elsewhere rows f
          twice,
      rows-AllLoaded file ibias e.space (
          All-IsLoaded-kept ibias base stack_size s2 e.space new_stack.unmapped ends.elsewhere irows
            fi loaded2),
    )
