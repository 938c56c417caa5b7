-- ===== src/Tests/Pool.antt =====
-- examples/server/server.c, the pool: four workers start, one is lost, and the server comes to its shutdown.
use selfdb.Base.{◌≡◌, ◌↔◌, refl, true, false, none, some, arith}
use selfdb.Server.Pool.{
  Pool, replace, holds, start, Step, fork, ready, passes, leaves, waits, reaps, respawns, exits,
  interrupts, Reach, here, next,
}
use selfdb.Server.Pool.Track.{occupied}
use selfdb.Server.Pool.Shutdown.{Reach-kills_own, slot_at, Reach-failures}

-- Where a path of steps comes to.
record Run (s : Pool) : Type 1 where
  last : Pool
  reach : Reach s last

abbrev begin : (s : Pool) → Run s
begin s = record { last = s; reach = here }

abbrev then_step : {s : Pool} (r : Run s) {t : Pool} → Step r.last t → Run s
then_step r {t} st = record { last = t; reach = next r.reach st }

-- Three workers, and one fork that fails.
abbrev four : Run start
four =
    then_step
      (then_step
        (then_step (then_step (begin start) (fork _ (some 11) refl (omega arith) refl))
          (fork _ (some 12) refl (omega arith) refl))
        (fork _ none refl (omega arith) tt))
      (fork _ (some 13) refl (omega arith) refl)

abbrev in_loop : Run start
in_loop = then_step (then_step four (ready _ refl refl)) (passes _ refl refl)

-- Worker 12 exits and comes back as 14; then a signal ends the wait.
abbrev replaced : Run start
replaced =
    then_step
      (then_step (then_step (then_step in_loop (waits _ refl)) (exits _ 12 refl))
        (reaps _ 12 refl refl))
      (respawns _ 12 (some 14) refl refl)

-- A signal in `wait`, then the shutdown.
abbrev told_to_stop : Run start
told_to_stop =
    then_step (then_step (then_step replaced (passes _ refl refl)) (waits _ refl))
      (interrupts _ refl)

abbrev at_kills : Run start
at_kills = then_step told_to_stop (leaves _ refl refl)

Reach-kills_own_example :
    (holds 12 at_kills.last.workers ≡ true) ↔ (occupied (at_kills.last.children 12) ≡ 1)
Reach-kills_own_example = Reach-kills_own at_kills.reach refl 12

kills_run : (holds 14 at_kills.last.workers ≡ true) × (holds 12 at_kills.last.workers ≡ false)
unfolding holds replace
kills_run = (refl, refl)

-- The third slot, through the loss of a worker and the shutdown.
abbrev from_four : Run four.last
from_four =
    then_step
      (then_step
        (then_step
          (then_step
            (then_step
              (then_step
                (then_step
                  (then_step
                    (then_step (then_step (begin four.last) (ready _ refl refl))
                      (passes _ refl refl))
                    (waits _ refl))
                  (exits _ 12 refl))
                (reaps _ 12 refl refl))
              (respawns _ 12 (some 14) refl refl))
            (passes _ refl refl))
          (waits _ refl))
        (interrupts _ refl))
      (leaves _ refl refl)

Reach-failures_example : slot_at 2 from_four.last.workers ≡ some none
Reach-failures_example = Reach-failures 2 from_four.reach refl
