-- ===== src/Server/Pool/Track.antt =====
-- Which pids stand in `workers`, in every state that the server can come to.
use mathlib.Core.Path.{subst}
use selfdb.Base.{
  ℕ, ◌+◌, ◌≤◌, ◌<◌, ◌==◌, ◌≡◌, refl, sym, ap, ◌∙◌, if◌then◌else◌, Bool, true, false, List, [], ◌∷◌,
  ◌++◌, Option, none, some, arith, Bool-cases, inl, inr,
}
use selfdb.Server.Pool.{
  Child, free, running, zombie, Phase, starting, checking, entering, waiting, respawning, stopping,
  draining, stopped, Pool, set, replace, holds, forked, Forks, Step, fork, ready, passes, leaves,
  waits, reaps, no_child, respawns, kills, drains, ends, exits, signal, interrupts,
}
use selfdb.Server.Pool.Slots.{is, count, count-append, count-replace, not_held-count}

abbrev pub occupied : Child → ℕ
occupied free = 0
occupied running = 1
occupied zombie = 1

abbrev pub bit : Bool → ℕ
bit true = 1
bit false = 0

-- Until the shutdown, each child stands in `workers` once, and nothing else does, but for the worker
-- that is gone while it is being replaced. Then each child that is left has been sent SIGTERM; at the
-- end none is left.
abbrev pub Tracked : Phase → List (Option ℕ) → (ℕ → Child) → (ℕ → Bool) → Type 0
Tracked starting ws f told = (p : ℕ) → count p ws ≡ occupied (f p)
Tracked checking ws f told = (p : ℕ) → count p ws ≡ occupied (f p)
Tracked entering ws f told = (p : ℕ) → count p ws ≡ occupied (f p)
Tracked waiting ws f told = (p : ℕ) → count p ws ≡ occupied (f p)
Tracked (respawning g) ws f told =
    ((p : ℕ) → count p ws ≡ occupied (f p) + is p (some g)) × (occupied (f g) ≡ 0)
Tracked stopping ws f told = (p : ℕ) → count p ws ≡ occupied (f p)
Tracked draining ws f told = (p : ℕ) → occupied (f p) ≤ bit (told p)
Tracked stopped ws f told = (p : ℕ) → occupied (f p) ≡ 0

abbrev pub IsTracked : Pool → Type 0
IsTracked s = Tracked s.phase s.workers s.children s.told

==_flip : (q p : ℕ) (b : Bool) → (q == p) ≡ b → (p == q) ≡ b
==_flip q p true e = ground arith
==_flip q p false e = ground arith

occupied-set :
    (f : ℕ → Child) (p : ℕ) (c : Child) (q : ℕ)
    → occupied (set f p c q) ≡ (if q == p then occupied c else occupied (f q))
occupied-set f p c q = elim (Bool-cases (q == p)) [ inl e ↦ rw e refl | inr e ↦ rw e refl ]

same_pid : (f : ℕ → Child) (p q : ℕ) → (q == p) ≡ true → occupied (f q) ≡ occupied (f p)
same_pid f p q e = let d : q ≡ p = ground arith in rw d refl

occupied-forked :
    (r : Option ℕ) (s : Pool) (q : ℕ)
    → Forks s r
    → occupied (forked r s.children q) ≡ occupied (s.children q) + is q r
occupied-forked none s q h = omega arith
occupied-forked (some p) s q h = elim (Bool-cases (q == p)) [
  | inl e ↦ rw (e, ==_flip q p true e) (omega (arith, same_pid s.children p q e, ap occupied h))
  | inr e ↦ rw (e, ==_flip q p false e) (omega arith)
]

exits_occupied :
    (s : Pool) (p : ℕ)
    → s.children p ≡ running
    → (q : ℕ) → occupied (set s.children p zombie q) ≡ occupied (s.children q)
exits_occupied s p z q = elim (Bool-cases (q == p)) [
  | inl e ↦ rw e (omega (arith, same_pid s.children p q e, ap occupied z))
  | inr e ↦ rw e refl
]

==_self : (p : ℕ) → (p == p) ≡ true
==_self p = ground arith

is_self : (p : ℕ) → is p (some p) ≡ 1
is_self p = rw (==_self p) refl

pub occupied-le : (c : Child) → occupied c ≤ 1
occupied-le free = omega arith
occupied-le running = omega arith
occupied-le zombie = omega arith

-- A change of the children that no count sees.
Tracked-keep :
    (ph : Phase) (ws : List (Option ℕ)) (f g : ℕ → Child) (told : ℕ → Bool)
    → ((p : ℕ) → occupied (g p) ≡ occupied (f p))
    → Tracked ph ws f told
    → Tracked ph ws g told
Tracked-keep starting ws f g told e h = λ p. h p ∙ sym (e p)
Tracked-keep checking ws f g told e h = λ p. h p ∙ sym (e p)
Tracked-keep entering ws f g told e h = λ p. h p ∙ sym (e p)
Tracked-keep waiting ws f g told e h = λ p. h p ∙ sym (e p)
Tracked-keep (respawning q) ws f g told e h = (λ p. omega (arith, h.0 p, e p), e q ∙ h.1)
Tracked-keep stopping ws f g told e h = λ p. h p ∙ sym (e p)
Tracked-keep draining ws f g told e h = λ p. omega (arith, h p, e p)
Tracked-keep stopped ws f g told e h = λ p. e p ∙ h p

-- The invariant at a phase that is known.
pub at_phase :
    (s : Pool) (ph : Phase) → s.phase ≡ ph → IsTracked s → Tracked ph s.workers s.children s.told
at_phase s ph e h = subst (λ z. Tracked z s.workers s.children s.told) e h

into_phase :
    (ph ph' : Phase) (ws : List (Option ℕ)) (f : ℕ → Child) (told : ℕ → Bool)
    → ph' ≡ ph
    → Tracked ph ws f told
    → Tracked ph' ws f told
into_phase ph ph' ws f told e h = subst (λ z. Tracked z ws f told) (sym e) h

fork-IsTracked :
    (s : Pool) (r : Option ℕ)
    → ((p : ℕ) → count p s.workers ≡ occupied (s.children p))
    → Forks s r
    → (p : ℕ) → count p (s.workers ++ r ∷ []) ≡ occupied (forked r s.children p)
fork-IsTracked s r h k p = count-append p s.workers r ∙ omega (arith, h p, occupied-forked r s p k)

reaps-IsTracked :
    (s : Pool) (p : ℕ)
    → ((q : ℕ) → count q s.workers ≡ occupied (s.children q))
    → s.children p ≡ zombie
    → Tracked (respawning p) s.workers (set s.children p free) s.told
reaps-IsTracked s p h z = (
  λ q. elim (Bool-cases (q == p)) [
    | inl e ↦
        rw (e, ==_flip q p true e) (omega (arith, h q, same_pid s.children p q e, ap occupied z))
    | inr e ↦ rw (e, ==_flip q p false e) (omega (arith, h q))
  ],
  rw (==_self p) refl,
)

respawns-IsTracked :
    (s : Pool) (g : ℕ) (r : Option ℕ)
    → Tracked (respawning g) s.workers s.children s.told
    → Forks s r
    → (q : ℕ) → count q (replace g r s.workers) ≡ occupied (forked r s.children q)
respawns-IsTracked s g r (h, z) k q =
    let there : 0 < count g s.workers = omega (arith, h g, is_self g) in
    omega (arith, count-replace q g r s.workers there, h q, occupied-forked r s q k)

drains-IsTracked :
    (s : Pool) (p : ℕ)
    → ((q : ℕ) → occupied (s.children q) ≤ bit (s.told q))
    → (q : ℕ) → occupied (set s.children p free q) ≤ bit (s.told q)
drains-IsTracked s p h q = elim (Bool-cases (q == p)) [
  | inl e ↦ rw e (omega arith)
  | inr e ↦ rw e (h q)
]

kills-IsTracked :
    (s : Pool)
    → ((p : ℕ) → count p s.workers ≡ occupied (s.children p))
    → (p : ℕ) → occupied (s.children p) ≤ bit (holds p s.workers)
kills-IsTracked s h p = elim (Bool-cases (holds p s.workers)) [
  | inl e ↦ rw e (omega (arith, occupied-le (s.children p)))
  | inr e ↦ rw e (omega (arith, h p, not_held-count p s.workers e))
]

-- Every step keeps the invariant.
pub Step-IsTracked : {s t : Pool} → Step s t → IsTracked s → IsTracked t
Step-IsTracked (fork s r e l k) v =
    into_phase starting s.phase _ _ s.told e (fork-IsTracked s r (at_phase s starting e v) k)
Step-IsTracked (ready s e l) v = at_phase s starting e v
Step-IsTracked (passes s e b) v = at_phase s checking e v
Step-IsTracked (leaves s e b) v = at_phase s checking e v
Step-IsTracked (waits s e) v = at_phase s entering e v
Step-IsTracked (reaps s p e z) v = reaps-IsTracked s p (at_phase s waiting e v) z
Step-IsTracked (no_child s e z) v = at_phase s waiting e v
Step-IsTracked (respawns s g r e k) v = respawns-IsTracked s g r (at_phase s (respawning g) e v) k
Step-IsTracked (kills s e) v = kills-IsTracked s (at_phase s stopping e v)
Step-IsTracked (drains s p e z) v =
    into_phase draining s.phase s.workers _ s.told e
      (drains-IsTracked s p (at_phase s draining e v))
Step-IsTracked (ends s e z) v = λ p. ap occupied (z p)
Step-IsTracked (exits s p z) v =
    Tracked-keep s.phase s.workers s.children _ s.told (exits_occupied s p z) v
Step-IsTracked (signal s w) v = v
Step-IsTracked (interrupts s e) v = at_phase s waiting e v
