-- ===== src/Tests/Stack.antt =====
-- loader/native.c at the small program: its first stack.
use selfdb.Base.{ℕ, ◌≡◌, ◌≤◌, ◌<◌, ◌⊎◌, List, [], ◌∷◌, none, Bytes, codes, ok, arith}
use selfdb.Base.Memory.{Memory}
use selfdb.Loader.Stack.{Stack}
use selfdb.Loader.Native.{Object}
use selfdb.Loader.Native.Start.{Host, build_stack}
use selfdb.Loader.Native.Start.Ready.{IsReady, build_stack-IsReady}

abbrev pub demo_host : Host
demo_host = record {
  random = none;
  uid = 1000;
  euid = 1000;
  gid = 100;
  egid = 100;
  clktck = 100;
  hwcap = 0;
  hwcap2 = 0;
  sysinfo = 0;
}

abbrev demo_object : Object
demo_object = record { load_bias = 0xf000; entry = 0x10078; phdr = 0; phnum = 1; phent = 56 }

abbrev demo_stack : Stack
demo_stack = record { base = 0x20000; p = 0x21000; mem = λ a. 0 }

abbrev pub demo_argv : List Bytes
demo_argv = codes "./hello.self" ∷ codes "-v" ∷ []

abbrev pub demo_envp : List Bytes
demo_envp = codes "HOME=/" ∷ []

build_stack-IsReady_example :
    (sp : ℕ) × (m : Memory) × (build_stack demo_host demo_stack demo_argv demo_envp demo_object none
        (codes "./hello.self")
      ≡ ok (sp, m))
    × IsReady demo_host demo_object none
        (codes "./hello.self")
        demo_argv
        demo_envp
        0x20000
        0x21000
        sp
        m
    × ((a : ℕ) → (a < 0x20000) ⊎ (0x21000 ≤ a) → m a ≡ 0)
build_stack-IsReady_example =
    build_stack-IsReady demo_host demo_stack demo_argv demo_envp demo_object none
      (codes "./hello.self") (omega arith) (omega arith)
