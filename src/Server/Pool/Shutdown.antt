-- ===== src/Server/Pool/Shutdown.antt =====
-- What the pool promises: whom it signals, and that a slot whose fork has failed stays empty.
use selfdb.Base.{
  ℕ, zero, suc, ◌==◌, ◌≡◌, ◌↔◌, refl, sym, true, Bool-cases, inl, inr, List, [], ◌∷◌, ◌++◌, Option,
  none, some, arith,
}
use selfdb.Server.Pool.{
  stopping, Pool, holds, replace, start, Step, fork, ready, passes, leaves, waits, reaps, no_child,
  respawns, kills, drains, ends, exits, signal, interrupts, Reach, here, next,
}
use selfdb.Server.Pool.Slots.{count, holds-count, count-holds}
use selfdb.Server.Pool.Track.{occupied, IsTracked, Step-IsTracked, at_phase, occupied-le}

Reach-IsTracked : {s : Pool} → Reach start s → IsTracked s
unfolding count
Reach-IsTracked here = λ p. refl
Reach-IsTracked (next r st) = Step-IsTracked st (Reach-IsTracked r)

-- When the parent comes to send SIGTERM, the pids in `workers` are those of its children, no more and
-- no less: no signal goes to a process that is not its own, and no worker is passed over.
pub Reach-kills_own :
    {s : Pool}
    → Reach start s
    → s.phase ≡ stopping
    → (p : ℕ) → (holds p s.workers ≡ true) ↔ (occupied (s.children p) ≡ 1)
Reach-kills_own {s} r e p =
    let h = at_phase s stopping e (Reach-IsTracked r) p in
    (
      λ held. omega (arith, h, count-holds p s.workers held, occupied-le (s.children p)),
      λ there. holds-count p s.workers (omega (arith, h, there)),
    )

-- Slot `i` of `workers`, `none` behind the end.
abbrev pub slot_at : ℕ → List (Option ℕ) → Option (Option ℕ)
slot_at i [] = none
slot_at zero (w ∷ ws) = some w
slot_at (suc i) (w ∷ ws) = slot_at i ws

slot_at-append :
    (i : ℕ) (ws : List (Option ℕ)) (r w : Option ℕ)
    → slot_at i ws ≡ some w
    → slot_at i (ws ++ r ∷ []) ≡ some w
slot_at-append i [] r w h = absurd (some_not_none (sym h))
  where
    some_not_none : ◌≡◌ {A = Option (Option ℕ)} (some w) none → ⊥
    some_not_none e = ground arith
slot_at-append zero (x ∷ ws) r w h = h
slot_at-append (suc i) (x ∷ ws) r w h = slot_at-append i ws r w h

slot_at-replace :
    (i gone : ℕ) (r : Option ℕ) (ws : List (Option ℕ))
    → slot_at i ws ≡ some none
    → slot_at i (replace gone r ws) ≡ some none
unfolding replace
slot_at-replace i gone r [] h = h
slot_at-replace zero gone r (none ∷ ws) h = h
slot_at-replace (suc i) gone r (none ∷ ws) h = slot_at-replace i gone r ws h
slot_at-replace zero gone r (some p ∷ ws) h = absurd (not_failed h)
  where
    not_failed : ◌≡◌ {A = Option (Option ℕ)} (some (some p)) (some none) → ⊥
    not_failed e = ground arith
slot_at-replace (suc i) gone r (some p ∷ ws) h = elim (Bool-cases (p == gone)) [
  | inl e ↦ rw e h
  | inr e ↦ rw e (slot_at-replace i gone r ws h)
]

Step-failed :
    {s t : Pool} (i : ℕ)
    → Step s t
    → slot_at i s.workers ≡ some none
    → slot_at i t.workers ≡ some none
Step-failed i (fork s r e l k) h = slot_at-append i s.workers r none h
Step-failed i (ready s e l) h = h
Step-failed i (passes s e b) h = h
Step-failed i (leaves s e b) h = h
Step-failed i (waits s e) h = h
Step-failed i (reaps s p e z) h = h
Step-failed i (no_child s e z) h = h
Step-failed i (respawns s g r e k) h = slot_at-replace i g r s.workers h
Step-failed i (kills s e) h = h
Step-failed i (drains s p e z) h = h
Step-failed i (ends s e z) h = h
Step-failed i (exits s p z) h = h
Step-failed i (signal s w) h = h
Step-failed i (interrupts s e) h = h

-- A slot whose fork has failed stays as it is for good, whatever happens: no later fork is for it,
-- so the pool never gets that worker back.
pub Reach-failures :
    {s t : Pool} (i : ℕ)
    → Reach s t
    → slot_at i s.workers ≡ some none
    → slot_at i t.workers ≡ some none
Reach-failures i here h = h
Reach-failures i (next r st) h = Step-failed i st (Reach-failures i r h)
