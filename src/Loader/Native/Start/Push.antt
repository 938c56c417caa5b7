-- ===== src/Loader/Native/Start/Push.antt =====
-- What `build_stack` of loader/native.c pushes before the vector: every string and block lies below
-- the last one and is still there at the end.
use native.Mathlib.Nat.{le_refl}
use mathlib.Core.Path.{subst}
use selfdb.Base.{
  ℕ, ◌+◌, ◌≤◌, ◌≡◌, refl, List, [], ◌∷◌, ◌++◌, Bytes, length, length-append, arith, ok, >>=-step,
}
use selfdb.Base.Memory.{Memory}
use selfdb.Loader.Stack.{Stack, push_all, push_str, push_bytes}
use selfdb.Loader.Stack.Strings.{
  total, PointsTo, AllPoint, KeepsFrom, PointsTo-keep, AllPoint-keep, Pushed, Pushed-trans,
  push_bytes_lem, push_all_lem,
}
use selfdb.Loader.Native.Start.{Host, random_bytes, platform, Pointers, push_strings}

-- Every address is that of its bytes, between `lo` and `hi`.
pub record Reaches (host : Host) (argv envp : List Bytes) (path : Bytes) (m : Memory) (lo hi : ℕ)
    (q : Pointers) : Type 0 where
  pub args : AllPoint m lo hi q.argp argv
  pub env : AllPoint m lo hi q.envpp envp
  pub random : PointsTo m lo hi q.at_random (random_bytes host.random)
  pub platform_name : PointsTo m lo hi q.at_platform (platform ++ 0 ∷ [])
  pub execfn : PointsTo m lo hi q.at_execfn (path ++ 0 ∷ [])

push_str_lem :
    (str : Bytes) (s : Stack)
    → s.base + (length str + 1) ≤ s.p
    → (q : ℕ) × (s' : Stack) × (push_str str s ≡ ok (q, s'))
      × Pushed (length str + 1) s s'
      × PointsTo s'.mem s'.p s.p q (str ++ 0 ∷ [])
unfolding push_str
push_str_lem str s h =
    let len : length (str ++ 0 ∷ []) ≡ length str + 1 = length-append str (0 ∷ []) in
    let (q, s', e, p, at) = push_bytes_lem (str ++ 0 ∷ []) s (omega (arith, len)) in
    (q, s', e, subst (λ n. Pushed n s s') len p, at)

push_vectors_lem :
    (argv envp : List Bytes) (s : Stack)
    → s.base + (total argv + total envp) ≤ s.p
    → (argp : List ℕ) × (envpp : List ℕ) × (s1 : Stack) × (s2 : Stack) × (push_all argv s
        ≡ ok (argp, s1))
      × (push_all envp s1 ≡ ok (envpp, s2))
      × Pushed (total argv + total envp) s s2
      × AllPoint s2.mem s2.p s.p argp argv
      × AllPoint s2.mem s2.p s.p envpp envp
push_vectors_lem argv envp s h =
    let (argp, s1, e1, p1, args) = push_all_lem argv s (omega arith) in
    let (envpp, s2, e2, p2, env) = push_all_lem envp s1 (omega (arith, p1.base_same, p1.cursor)) in
    (
      argp,
      envpp,
      s1,
      s2,
      e1,
      e2,
      Pushed-trans (total argv) (total envp) s s1 s2 p1 p2,
      AllPoint-keep s1.mem s2.mem s1.p s2.p s.p s.p argp argv p2.keeps (omega (arith, p2.cursor))
          (omega arith) args,
      AllPoint-keep s2.mem s2.mem s2.p s2.p s1.p s.p envpp envp (λ a l. refl) (omega arith)
          (omega (arith, p1.cursor)) env,
    )

push_rest_lem :
    (rnd path : Bytes) (s : Stack)
    → s.base + (length rnd + (7 + (length path + 1))) ≤ s.p
    → (r : ℕ) × (pl : ℕ) × (ex : ℕ) × (s1 : Stack) × (s2 : Stack) × (s3 : Stack) × (push_bytes rnd s
        ≡ ok (r, s1))
      × (push_str platform s1 ≡ ok (pl, s2))
      × (push_str path s2 ≡ ok (ex, s3))
      × Pushed (length rnd + (7 + (length path + 1))) s s3
      × PointsTo s3.mem s3.p s.p r rnd
      × PointsTo s3.mem s3.p s.p pl (platform ++ 0 ∷ [])
      × PointsTo s3.mem s3.p s.p ex (path ++ 0 ∷ [])
push_rest_lem rnd path s h =
    let (r, s1, e1, p1, random) = push_bytes_lem rnd s (omega arith) in
    let (pl, s2, e2, p2, plat) =
      push_str_lem platform s1 (omega (arith, p1.base_same, p1.cursor)) in
    let (ex, s3, e3, p3, execfn) =
      push_str_lem path s2 (omega (arith, p1.base_same, p1.cursor, p2.base_same, p2.cursor)) in
    let p23 = Pushed-trans 7 (length path + 1) s1 s2 s3 p2 p3 in
    (
      r,
      pl,
      ex,
      s1,
      s2,
      s3,
      e1,
      e2,
      e3,
      Pushed-trans (length rnd) (7 + (length path + 1)) s s1 s3 p1 p23,
      PointsTo-keep s1.mem s3.mem s1.p s3.p s.p s.p r rnd p23.keeps (omega (arith, p23.cursor))
          (omega arith) random,
      PointsTo-keep s2.mem s3.mem s2.p s3.p s1.p s.p pl (platform ++ 0 ∷ []) p3.keeps
          (omega (arith, p3.cursor)) (omega (arith, p1.cursor)) plat,
      PointsTo-keep s3.mem s3.mem s3.p s3.p s2.p s.p ex (path ++ 0 ∷ []) (λ a l. refl) (omega arith)
          (omega (arith, p1.cursor, p2.cursor)) execfn,
    )

abbrev pub string_room : Host → List Bytes → List Bytes → Bytes → ℕ
string_room host argv envp path =
    total argv + total envp + (length (random_bytes host.random) + (7 + (length path + 1)))

pub push_strings_lem :
    (host : Host) (s : Stack) (argv envp : List Bytes) (path : Bytes)
    → s.base + string_room host argv envp path ≤ s.p
    → (q : Pointers) × (s' : Stack) × (push_strings host s argv envp path ≡ ok (q, s'))
      × Pushed (string_room host argv envp path) s s'
      × Reaches host argv envp path s'.mem s'.p s.p q
unfolding push_strings
push_strings_lem host s argv envp path h =
    let n = total argv + total envp in
    let rnd = random_bytes host.random in
    let (argp, envpp, s1, s2, e1, e2, p, args, env) = push_vectors_lem argv envp s (omega arith) in
    let (r, pl, ex, s3, s4, s5, e3, e4, e5, p', random, plat, execfn) =
      push_rest_lem rnd path s2 (omega (arith, p.base_same, p.cursor)) in
    let low : s5.p ≤ s2.p = omega (arith, p'.cursor) in
    let high : s2.p ≤ s.p = omega (arith, p.cursor) in
    (
      record { argp = argp; envpp = envpp; at_random = r; at_platform = pl; at_execfn = ex },
      s5,
      >>=-step _ e1 (>>=-step _ e2 (>>=-step _ e3 (>>=-step _ e4 (>>=-step _ e5 refl)))),
      Pushed-trans n (length rnd + (7 + (length path + 1))) s s2 s5 p p',
      record {
        args =
            AllPoint-keep s2.mem s5.mem s2.p s5.p s.p s.p argp argv p'.keeps low (le_refl s.p) args;
        env =
            AllPoint-keep s2.mem s5.mem s2.p s5.p s.p s.p envpp envp p'.keeps low (le_refl s.p) env;
        random =
            PointsTo-keep s5.mem s5.mem s5.p s5.p s2.p s.p r rnd (λ a l. refl) (le_refl s5.p) high
              random;
        platform_name =
            PointsTo-keep s5.mem s5.mem s5.p s5.p s2.p s.p pl (platform ++ 0 ∷ []) (λ a l. refl)
              (le_refl s5.p) high plat;
        execfn =
            PointsTo-keep s5.mem s5.mem s5.p s5.p s2.p s.p ex (path ++ 0 ∷ []) (λ a l. refl)
              (le_refl s5.p) high execfn;
      },
    )

pub Reaches-keep :
    (host : Host) (argv envp : List Bytes) (path : Bytes) (m m' : Memory) (lo lo' hi : ℕ)
    (q : Pointers)
    → KeepsFrom lo m m'
    → lo' ≤ lo
    → Reaches host argv envp path m lo hi q
    → Reaches host argv envp path m' lo' hi q
Reaches-keep host argv envp path m m' lo lo' hi q k l r = record {
  args = AllPoint-keep m m' lo lo' hi hi q.argp argv k l (le_refl hi) r.args;
  env = AllPoint-keep m m' lo lo' hi hi q.envpp envp k l (le_refl hi) r.env;
  random =
      PointsTo-keep m m' lo lo' hi hi q.at_random (random_bytes host.random) k l (le_refl hi)
        r.random;
  platform_name =
      PointsTo-keep m m' lo lo' hi hi q.at_platform (platform ++ 0 ∷ []) k l (le_refl hi)
        r.platform_name;
  execfn = PointsTo-keep m m' lo lo' hi hi q.at_execfn (path ++ 0 ∷ []) k l (le_refl hi) r.execfn;
}
