-- ===== src/Lottery/Draw.antt =====
-- The draw of the scheduler in p2/xv6/kernel/proc.c: who wins.
use bacon_eggs.Prelude.{
  ℕ, zero, suc, ◌+◌, ◌-◌, ◌%◌, ◌^◌, ◌≤◌, ◌<◌, ◌≡◌, refl, ap, ◌∙◌, ◌≢◌, ◌⊎◌, inl, inr, true, false,
  ◌&&◌, some, List, [], ◌∷◌, map, arith, ltb, ◌==◌, if◌then◌else◌, get_elem?, modify,
  get_elem?-modify, Bool-cases,
}
use bacon_eggs.Proc.Table.{runnable, running}
use bacon_eggs.Lottery.{
  Level, high, low, twice, Player, prepare, Count, count_tickets, count_as, magnitude, draw,
  same_level, can_run, holds_ticket, find_winner, choose, win, start, int_max, lottery,
}

-- The tickets with which a process takes part in the draw of a level.
abbrev pub stake : Level → Player → ℕ
stake l p = if can_run p.state && same_level p.level l then p.tickets else 0

abbrev pub stakes : Level → List Player → ℕ
stakes l [] = 0
stakes l (p ∷ ps) = stake l p + stakes l ps

-- The tickets in the slots before `i`.
abbrev pub stakes_before : Level → List Player → ℕ → ℕ
stakes_before l [] i = 0
stakes_before l (p ∷ ps) zero = 0
stakes_before l (p ∷ ps) (suc i) = stake l p + stakes_before l ps i

-- The process `p` in slot `i` holds the ticket `lotto`.
pub record Holds (l : Level) (lotto : ℕ) (ps : List Player) (i : ℕ) (p : Player) : Type 0 where
  pub here : get_elem? ps i ≡ some p
  pub ready : can_run p.state ≡ true
  pub queue : same_level p.level l ≡ true
  pub above : stakes_before l ps i ≤ lotto
  pub below : lotto < stakes_before l ps i + p.tickets

holds_ticket_lem :
    (n seen lotto : ℕ)
    → seen ≤ lotto
    → ((holds_ticket n seen lotto ≡ true) × (lotto < seen + n))
      ⊎ ((holds_ticket n seen lotto ≡ false) × (seen + n ≤ lotto))
unfolding holds_ticket
holds_ticket_lem zero seen lotto le = inr (refl, omega (arith, le))
holds_ticket_lem (suc n) seen lotto le = elim (Bool-cases (seen == lotto)) [
  | inl y ↦ inl (rw y refl, ground (arith, le))
  | inr no_hit ↦ elim (holds_ticket_lem n (suc seen) lotto (ground (arith, le))) [
    | inl (hit, lt) ↦ inl (rw (no_hit, hit) refl, omega (arith, lt))
    | inr (miss, ge) ↦ inr (rw (no_hit, miss) refl, omega (arith, ge))
  ]
]

-- The holder of a ticket behind those of `seen` other tickets.
abbrev Found : Level → (lotto seen b : ℕ) → List Player → Type 0
Found l lotto seen b ps =
    (i : ℕ) × (p : Player) × (find_winner l lotto seen ps b ≡ some (b + i))
    × (get_elem? ps i ≡ some p)
    × (can_run p.state ≡ true)
    × (same_level p.level l ≡ true)
    × (seen + stakes_before l ps i ≤ lotto)
    × (lotto < seen + stakes_before l ps i + p.tickets)

find_winner-Found :
    (l : Level) (ps : List Player) (lotto seen b : ℕ)
    → seen ≤ lotto
    → lotto < seen + stakes l ps
    → Found l lotto seen b ps
unfolding find_winner
find_winner-Found l [] lotto seen b le lt = absurd (omega (arith, le, lt))
find_winner-Found l (p ∷ ps) lotto seen b le lt =
    elim (Bool-cases (can_run p.state && same_level p.level l)) [
      | inr out ↦
          let (i, q, found, here, ready, same, above, below) =
            find_winner-Found l ps lotto seen (suc b) le (ground arith) in
          (suc i, q, ground arith, here, ready, same, ground arith, ground arith)
      | inl plays ↦ elim (holds_ticket_lem p.tickets seen lotto le) [
        | inl (hit, below) ↦ (
          0,
          p,
          ground arith,
          refl,
          ground arith,
          ground arith,
          omega (arith, le),
          omega (arith, below),
        )
        | inr (miss, past) ↦
            let (i, q, found, here, ready, same, above, below) =
              find_winner-Found l ps lotto (seen + p.tickets) (suc b) past (ground arith) in
            (suc i, q, ground arith, here, ready, same, ground arith, ground arith)
      ]
    ]

-- No other processor runs a process, and none waits to run for the second time.
abbrev pub Calm : Player → Type 0
Calm p = (p.state ≢ running) × (same_level p.level twice ≡ false)

abbrev pub AllCalm : List Player → Type 0
AllCalm [] = Unit {0}
AllCalm (p ∷ ps) = Calm p × AllCalm ps

-- The count of one process, for both queues.
abbrev Counted : Count → List Player → Count → Type 0
Counted c ps d =
    (d.hi ≡ c.hi + stakes high (map prepare ps))
    × (d.lo ≡ c.lo + stakes low (map prepare ps))
    × (d.run_twice ≡ c.run_twice)

count_as-Counted :
    (p : Player) (c : Count) → Calm p → Counted c (p ∷ []) (count_as p.state (prepare p) c)
count_as-Counted p c (idle, once) = (ground arith, ground arith, ground arith)

count_tickets-Counted :
    (ps : List Player) (c : Count) → AllCalm ps → Counted c ps (count_tickets ps c)
unfolding count_tickets
count_tickets-Counted [] c calm = (omega arith, omega arith, refl)
count_tickets-Counted (p ∷ ps) c (calm, all) =
    let (hi, lo, again) = count_as-Counted p c calm in
    let (his, los, agains) = count_tickets-Counted ps (count_as p.state (prepare p) c) all in
    (omega (arith, hi, his), omega (arith, lo, los), agains ∙ again)

runnable-stake :
    (p : Player)
    → p.state ≡ runnable
    → same_level p.level twice ≡ false
    → 0 < stake high (prepare p) + stake low (prepare p)
runnable-stake p ready once = ground arith

-- A process that can run has a stake in one of the queues.
runnable-stakes :
    (ps : List Player) (j : ℕ) (p : Player)
    → AllCalm ps
    → get_elem? ps j ≡ some p
    → p.state ≡ runnable
    → 0 < stakes high (map prepare ps) + stakes low (map prepare ps)
runnable-stakes [] j p calm at ready = absurd cc
runnable-stakes (q ∷ ps) zero p ((idle, once), all) at ready =
    omega (arith, runnable-stake q (cc) once)
runnable-stakes (q ∷ ps) (suc j) p (calm, all) at ready =
    omega (arith, runnable-stakes ps j p all at ready)

win-falls :
    (p : Player) (l : Level) → same_level p.level l ≡ true → l ≡ high → (win false p).level ≡ low
win-falls p l same is_high = ground arith

win-again :
    (p : Player) (l : Level) → same_level p.level l ≡ true → l ≡ low → (win false p).level ≡ twice
win-again p l same is_low = ground arith

-- What a round does that has a winner: `player` is the winner after the preparation, `runs` what it
-- is when it runs, and `after` the table.
pub record Won (between : List Player → List Player) (r : ℕ) (ps : List Player) : Type 0 where
  pub level : Level
  pub lotto : ℕ
  pub slot : ℕ
  pub player : Player
  pub rnd : ℕ
  pub drawn : magnitude r ≡ some rnd
  pub ticket : lotto ≡ rnd % stakes level (map prepare ps)
  pub holds : Holds level lotto (map prepare ps) slot player
  pub first : 0 < stakes high (map prepare ps) → level ≡ high
  pub after : List Player
  pub run : lottery between r ps ≡ some (after, some slot)
  pub runs : Player
  pub placed : get_elem? after slot ≡ some runs
  pub started : runs ≡ record player { state = running; level = runs.level }
  pub falls : level ≡ high → runs.level ≡ low
  pub again : level ≡ low → runs.level ≡ twice
  pub others : (i : ℕ) → i ≢ slot → get_elem? after i ≡ get_elem? (map prepare ps) i

-- The drawn ticket is one of the queue that is drawn from.
draw-stakes :
    (ps : List Player) (rnd : ℕ) (c : Count)
    → c.hi ≡ stakes high ps
    → c.lo ≡ stakes low ps
    → 0 < c.hi + c.lo
    → ((draw rnd c).0 < stakes (draw rnd c).1 ps)
      × (0 < c.hi → (draw rnd c).1 ≡ high)
      × ((draw rnd c).0 ≡ rnd % stakes (draw rnd c).1 ps)
draw-stakes ps rnd c hi lo some_stake = elim (Bool-cases (ltb 0 c.hi)) [
  | inl y ↦ rw y (ground arith, λ positive. refl, ap (λ n. rnd % n) hi)
  | inr none_high ↦
      let some_low : ltb 0 c.lo ≡ true = ground arith in
      rw (none_high, some_low)
        (ground arith, λ positive. absurd (ground arith), ap (λ n. rnd % n) lo)
]

choose-find_winner :
    (rnd : ℕ) (c : Count) (ps : List Player)
    → c.run_twice ≡ false
    → choose rnd c ps ≡ find_winner (draw rnd c).1 (draw rnd c).0 0 ps 0
unfolding choose
choose-find_winner rnd c ps once = rw once refl

draw-Holds :
    (ps : List Player) (rnd : ℕ) (c : Count)
    → c.hi ≡ stakes high ps
    → c.lo ≡ stakes low ps
    → c.run_twice ≡ false
    → 0 < c.hi + c.lo
    → (i : ℕ) × (p : Player) × Holds (draw rnd c).1 (draw rnd c).0 ps i p
      × (choose rnd c ps ≡ some i)
      × (0 < c.hi → (draw rnd c).1 ≡ high)
      × ((draw rnd c).0 ≡ rnd % stakes (draw rnd c).1 ps)
draw-Holds ps rnd c hi lo once some_stake =
    let (below, first, ticket) = draw-stakes ps rnd c hi lo some_stake in
    let (i, p, found, here, ready, queue, above, under) =
      find_winner-Found (draw rnd c).1 ps (draw rnd c).0 0 0 (omega arith) (omega (arith, below)) in
    (
      i,
      p,
      (record {
        here = here;
        ready = ready;
        queue = queue;
        above = omega (arith, above);
        below = omega (arith, under);
      }),
      choose-find_winner rnd c ps once ∙ found ∙ ap some (omega arith),
      first,
      ticket,
    )

pub magnitude-some : (r : ℕ) → r ≢ 2 ^ 31 → (rnd : ℕ) × (magnitude r ≡ some rnd)
magnitude-some r small = elim (Bool-cases (ltb r (2 ^ 31))) [
  | inl y ↦ (r, rw y refl)
  | inr n ↦ elim (Bool-cases (r == 2 ^ 31)) [
    | inl same ↦ absurd (small (ground arith))
    | inr other ↦ (2 ^ 32 - r, rw (n, other) refl)
  ]
]

-- A round of the lottery on a table in which no process runs and none waits for its second run, one
-- process can run, the sums of tickets are in the range of `int`, the word from `get_rand` is not
-- 2^31, and no other processor changes the table while the lock is free between the count and the
-- search: the process that holds the drawn ticket becomes running, a high one falls to the low queue
-- and a low one is set up to run twice, and no other slot changes after the preparation. The ticket is
-- the absolute value of the word modulo the tickets of the queue, the high queue if a process that can
-- run has a ticket there.
pub lottery_lem :
    (between : List Player → List Player) (r j : ℕ) (ps : List Player) (p : Player)
    → between (map prepare ps) ≡ map prepare ps
    → AllCalm ps
    → get_elem? ps j ≡ some p
    → p.state ≡ runnable
    → stakes high (map prepare ps) ≤ int_max
    → stakes low (map prepare ps) ≤ int_max
    → r ≢ 2 ^ 31
    → Won between r ps
unfolding lottery
lottery_lem between r j ps p alone calm at ready hi lo small =
    let (his, los, again) = count_tickets-Counted ps start calm in
    let (rnd, drawn) = magnitude-some r small in
    let (i, q, holds, chosen, first, ticket) =
      draw-Holds (map prepare ps) rnd (count_tickets ps start) (omega (arith, his))
        (omega (arith, los)) again
        (omega (arith, his, los, runnable-stakes ps j p calm at ready)) in
    let high_fits : ltb int_max (count_tickets ps start).hi ≡ false = ground (arith, his, hi) in
    let low_fits : ltb int_max (count_tickets ps start).lo ≡ false = ground (arith, los, lo) in
    record {
      level = (draw rnd (count_tickets ps start)).1;
      lotto = (draw rnd (count_tickets ps start)).0;
      slot = i;
      player = q;
      rnd = rnd;
      drawn = drawn;
      ticket = ticket;
      holds = holds;
      first = λ positive. first (omega (arith, his, positive));
      after = modify (map prepare ps) i (win false);
      run = rw (high_fits, low_fits, drawn, alone, chosen, again) refl;
      runs = win false q;
      placed = ground (arith, get_elem?-modify (map prepare ps) i (win false) i, holds.here);
      started = refl;
      falls = λ l. win-falls q (draw rnd (count_tickets ps start)).1 holds.queue l;
      again = λ l. win-again q (draw rnd (count_tickets ps start)).1 holds.queue l;
      others = λ l ne. ground (arith, get_elem?-modify (map prepare ps) i (win false) l);
    }
