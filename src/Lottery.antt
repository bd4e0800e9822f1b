-- ===== src/Lottery.antt =====
-- The lottery of the scheduler in p2/xv6/kernel/proc.c, up to the switch to the winner, and
-- `sys_settickets` of p2/xv6/kernel/sysproc.c.
pub mod Draw
pub mod Random
pub mod Twice
mod Tests
use bacon_eggs.Prelude.{
  ℕ, zero, suc, ◌+◌, ◌-◌, ◌%◌, ◌^◌, Bool, true, false, ◌&&◌, ◌||◌, Option, none, some, List, [],
  ◌∷◌, ltb, ◌==◌, if◌then◌else◌, modify, map,
}
use bacon_eggs.Prelude.Int.{ℤ, pos, negsuc, minus_one}
use bacon_eggs.Proc.Table.{ProcState, unused, embryo, sleeping, runnable, running, zombie}

-- The `level` of a process: 0, 1, -1 and 2.
pub data Level : Type 0 where
  unset high low twice : Level

-- What `struct proc` has beside its fields in the other copy of the kernel, with those that the
-- scheduler reads.
pub record Player : Type 0 where
  pub state : ProcState
  pub pid : ℕ
  pub tickets : ℕ
  pub level : Level

-- The loop that prepares a process for the lottery.
abbrev pub entry_level : Level → Level
entry_level unset = high
entry_level l = l

abbrev pub enter : Player → Player
enter p = record p {
  tickets = if p.tickets == 0 then 1 else p.tickets;
  level = entry_level p.level;
}

abbrev pub prepare_as : ProcState → Player → Player
prepare_as unused p = record p { tickets = 0; level = unset }
prepare_as runnable p = enter p
prepare_as running p = enter p
prepare_as _ p = p

abbrev pub prepare : Player → Player
prepare p = prepare_as p.state p

-- `hi_tix`, `lo_tix` and `run_twice`.
pub record Count : Type 0 where
  pub hi : ℕ
  pub lo : ℕ
  pub run_twice : Bool

abbrev pub count_level : Level → ℕ → Count → Count
count_level high n c = record c { hi = c.hi + n }
count_level twice n c = record c { lo = c.lo + n; run_twice = true }
count_level _ n c = record c { lo = c.lo + n }

abbrev pub count_as : ProcState → Player → Count → Count
count_as runnable p c = count_level p.level p.tickets c
count_as running p c = count_level p.level p.tickets c
count_as _ p c = c

unfoldable pub count_tickets : List Player → Count → Count
count_tickets [] c = c
count_tickets (p ∷ ps) c = count_tickets ps (count_as p.state (prepare p) c)

-- The absolute value of a word read as an `int`; for the least `int` there is none.
abbrev pub magnitude : ℕ → Option ℕ
magnitude r = if ltb r (2 ^ 31) then some r else (if r == 2 ^ 31 then none else some (2 ^ 32 - r))

-- `lotto` and the level that `qlevel` stands for.
abbrev pub draw : ℕ → Count → ℕ × Level
draw rnd c =
    if ltb 0 c.hi then (rnd % c.hi, high) else (if ltb 0 c.lo then (rnd % c.lo, low) else (0, high))

abbrev pub same_level : Level → Level → Bool
same_level unset unset = true
same_level high high = true
same_level low low = true
same_level twice twice = true
same_level _ _ = false

abbrev pub can_run : ProcState → Bool
can_run runnable = true
can_run _ = false

-- The loop over the `n` tickets of one process: whether it wins.
unfoldable pub holds_ticket : (n seen lotto : ℕ) → Bool
holds_ticket zero seen lotto = false
holds_ticket (suc n) seen lotto = seen == lotto || holds_ticket n (suc seen) lotto

-- The loop over the table up to the first process that runs, which is in slot `i` or behind it.
unfoldable pub find_winner : (level : Level) → (lotto seen : ℕ) → List Player → ℕ → Option ℕ
unfolding holds_ticket
find_winner level lotto seen [] i = none
find_winner level lotto seen (p ∷ ps) i =
    let skipped = find_winner level lotto seen ps (suc i) in
    let passed = find_winner level lotto (seen + p.tickets) ps (suc i) in
    if can_run p.state && same_level p.level level
    then (if holds_ticket p.tickets seen lotto then some i else passed)
    else skipped

unfoldable pub find_twice : List Player → ℕ → Option ℕ
find_twice [] i = none
find_twice (p ∷ ps) i =
    let rest = find_twice ps (suc i) in
    if can_run p.state && same_level p.level twice then some i else rest

abbrev pub int_max : ℕ
int_max = 2 ^ 31 - 1

abbrev pub start : Count
start = record { hi = 0; lo = 0; run_twice = false }

unfoldable pub choose : ℕ → Count → List Player → Option ℕ
unfolding find_winner find_twice
choose rnd c ps =
    let (lotto, level) = draw rnd c in
    if c.run_twice then find_twice ps 0 else find_winner level lotto 0 ps 0

-- What the winner becomes before it runs.
abbrev pub next_level : Bool → Level → Level
next_level true l = low
next_level false high = low
next_level false l = twice

abbrev pub win : Bool → Player → Player
win run_twice p = record p { level = next_level run_twice p.level; state = running }

abbrev pub run_winner : Bool → Option ℕ → List Player → List Player
run_winner run_twice none ps = ps
run_winner run_twice (some i) ps = modify ps i (win run_twice)

-- One round, with the word `r` from `get_rand`, up to the switch to the process that runs first: the
-- table and this process, if any. `ptable.lock` is held while the tickets are counted and again from
-- the search for the winner on; `between` is what other processors change in the table while it is
-- free. There is no result where a sum of tickets is beyond the range of `int`, or where the draw has
-- no absolute value.
unfoldable pub lottery :
    (between : List Player → List Player) → ℕ → List Player → Option (List Player × Option ℕ)
unfolding count_tickets choose
lottery between r ps =
    let c = count_tickets ps start in
    let ps' = between (map prepare ps) in
    if ltb int_max c.hi || ltb int_max c.lo then none else elim (magnitude r) [
      | none ↦ none
      | some rnd ↦ let winner = choose rnd c ps' in some (run_winner c.run_twice winner ps', winner)
    ]

-- `sys_settickets` with the argument `n`, on the calling process.
unfoldable pub settickets : ℤ → Player → ℤ × Player
settickets (negsuc n) p = (minus_one, p)
settickets (pos n) p = if ltb n 1 then (minus_one, p) else (pos 0, record p { tickets = n })
