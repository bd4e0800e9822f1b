-- ===== src/Lottery/Tests.antt =====
-- The lottery of p2/xv6/kernel/proc.c at a table of three processes.
use bacon_eggs.Prelude.{ℕ, ◌≡◌, refl, some, List, [], ◌∷◌, arith, ◌^◌, ◌-◌}
use bacon_eggs.Proc.Table.{ProcState, sleeping, runnable, running}
use bacon_eggs.Lottery.{Level, unset, high, low, Player, lottery}
use bacon_eggs.Lottery.Draw.{Won, lottery_lem}
use bacon_eggs.Lottery.Random.{Generator, get_rand, Drawn, get_rand_lem}

abbrev player : ProcState → ℕ → ℕ → Level → Player
player st pid n l = record { state = st; pid = pid; tickets = n; level = l }

abbrev players : List Player
players =
    player sleeping 1 5 high
    ∷ player runnable 2 3 high
    ∷ player runnable 3 0 unset
    ∷ player runnable 4 10 low
    ∷ []

-- No other processor changes the table.
abbrev undisturbed : List Player → List Player
undisturbed ps = ps

-- The word 2^32 - 3 is -3 as an `int`: ticket 3 of 4 in the high queue is that of slot 2.
draw_run :
    lottery undisturbed (2 ^ 32 - 3) players
    ≡ some (
      player sleeping 1 5 high
          ∷ player runnable 2 3 high
          ∷ player running 3 1 low
          ∷ player runnable 4 10 low
          ∷ [],
      some 2,
    )
unfolding lottery
draw_run = refl

lottery_lem_example : Won undisturbed (2 ^ 32 - 3) players
lottery_lem_example =
    lottery_lem undisturbed (2 ^ 32 - 3) 1 players (player runnable 2 3 high) refl
      ((λ e. cc, refl), ((λ e. cc, refl), ((λ e. cc, refl), ((λ e. cc, refl), tt)))) refl refl
      (omega arith) (omega arith) (omega arith)

abbrev fresh : Generator
fresh = record { x = []; b = 0; i = 4095 }

get_rand_lem_example : Drawn (get_rand 100 fresh)
get_rand_lem_example = get_rand_lem 100 fresh
