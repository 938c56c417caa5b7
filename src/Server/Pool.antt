-- ===== src/Server/Pool.antt =====
-- examples/server/server.c, the parent of the workers: the fork loop, the `wait` loop and the shutdown
-- of `main`, with the signal handler, as steps that workers and signals may come between.
pub mod Slots
pub mod Track
pub mod Shutdown
use selfdb.Base.{
  ℕ, ◌<◌, ◌==◌, ◌≡◌, ◌≢◌, if◌then◌else◌, Bool, true, false, ◌||◌, List, [], ◌∷◌, ◌++◌, Option, none,
  some, length,
}

abbrev pub worker_count : ℕ
worker_count = 4

-- A child by its pid: there is none, or it has been reaped; it runs; it has exited and waits to be
-- reaped.
pub data Child : Type 0 where
  free running zombie : Child

-- Where the parent is: in the fork loop; at the test of `g_stopping`; behind it and before `wait`; in
-- `wait`; between a worker that is gone and its replacement; behind the loop; in the last loop; at
-- the end.
pub data Phase : Type 0 where
  starting checking entering waiting : Phase
  respawning : ℕ → Phase
  stopping draining stopped : Phase

-- `workers` as far as it is filled, a failed fork as `none`, and the children that were sent SIGTERM.
pub record Pool : Type 0 where
  pub workers : List (Option ℕ)
  pub children : ℕ → Child
  pub phase : Phase
  pub g_stopping : Bool
  pub told : ℕ → Bool

abbrev pub set : (ℕ → Child) → ℕ → Child → ℕ → Child
set f p c q = if q == p then c else f q

-- `workers[i] != gone`, and the assignment in the first slot where it does not hold.
unfoldable pub replace : ℕ → Option ℕ → List (Option ℕ) → List (Option ℕ)
replace gone r [] = []
replace gone r (none ∷ rest) = none ∷ replace gone r rest
replace gone r (some p ∷ rest) =
    let others = replace gone r rest in if p == gone then r ∷ rest else some p ∷ others

unfoldable pub holds : ℕ → List (Option ℕ) → Bool
holds p [] = false
holds p (none ∷ rest) = holds p rest
holds p (some q ∷ rest) = q == p || holds p rest

-- A new child that runs, or none.
abbrev pub forked : Option ℕ → (ℕ → Child) → ℕ → Child
forked none f = f
forked (some p) f = set f p running

-- The kernel gives a new child a pid that no child has, the zombies included.
abbrev pub Forks : Pool → Option ℕ → Type 0
Forks s none = Unit {0}
Forks s (some p) = s.children p ≡ free

abbrev pub start : Pool
start = record {
  workers = [];
  children = λ p. free;
  phase = starting;
  g_stopping = false;
  told = λ p. false;
}

-- A signal ends a `wait`, since its handler is installed without SA_RESTART; anywhere else it only
-- sets the flag.
pub data Step : Pool → Pool → Type 0 where
  fork :
      (s : Pool) (r : Option ℕ)
      → s.phase ≡ starting
      → length s.workers < worker_count
      → Forks s r
      → Step s (record s { workers = s.workers ++ r ∷ []; children = forked r s.children })
  ready :
      (s : Pool)
      → s.phase ≡ starting
      → length s.workers ≡ worker_count
      → Step s (record s { phase = checking })
  passes :
      (s : Pool)
      → s.phase ≡ checking
      → s.g_stopping ≡ false
      → Step s (record s { phase = entering })
  leaves :
      (s : Pool) → s.phase ≡ checking → s.g_stopping ≡ true → Step s (record s { phase = stopping })
  waits : (s : Pool) → s.phase ≡ entering → Step s (record s { phase = waiting })
  reaps :
      (s : Pool) (p : ℕ)
      → s.phase ≡ waiting
      → s.children p ≡ zombie
      → Step s (record s { phase = respawning p; children = set s.children p free })
  no_child :
      (s : Pool)
      → s.phase ≡ waiting
      → ((p : ℕ) → s.children p ≡ free)
      → Step s (record s { phase = stopping })
  respawns :
      (s : Pool) (p : ℕ) (r : Option ℕ)
      → s.phase ≡ respawning p
      → Forks s r
      → Step s (record s {
        workers = replace p r s.workers;
        children = forked r s.children;
        phase = checking;
      })
  kills :
      (s : Pool)
      → s.phase ≡ stopping
      → Step s (record s { told = λ p. holds p s.workers; phase = draining })
  drains :
      (s : Pool) (p : ℕ)
      → s.phase ≡ draining
      → s.children p ≡ zombie
      → Step s (record s { children = set s.children p free })
  ends :
      (s : Pool)
      → s.phase ≡ draining
      → ((p : ℕ) → s.children p ≡ free)
      → Step s (record s { phase = stopped })
  exits :
      (s : Pool) (p : ℕ)
      → s.children p ≡ running
      → Step s (record s { children = set s.children p zombie })
  signal : (s : Pool) → s.phase ≢ waiting → Step s (record s { g_stopping = true })
  interrupts :
      (s : Pool) → s.phase ≡ waiting → Step s (record s { g_stopping = true; phase = checking })

pub data Reach (s : Pool) : Pool → Type 0 where
  here : Reach s s
  next : {t u : Pool} → Reach s t → Step t u → Reach s u
