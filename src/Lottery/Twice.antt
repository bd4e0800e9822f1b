-- ===== src/Lottery/Twice.antt =====
-- The round of the scheduler in p2/xv6/kernel/proc.c in which low processes run for the second time.
use bacon_eggs.Prelude.{
  ℕ, zero, suc, ◌+◌, ◌^◌, ◌≤◌, ◌≡◌, refl, ap, ◌∙◌, ◌≢◌, inl, inr, Bool, true, false, ◌&&◌, some,
  List, [], ◌∷◌, map, arith, ltb, get_elem?, modify, Bool-cases,
}
use bacon_eggs.Lottery.{
  twice, Player, prepare, Count, count_as, count_tickets, same_level, can_run, find_twice, choose,
  start, int_max, win, lottery,
}
use bacon_eggs.Lottery.Draw.{magnitude-some}

abbrev pub waits_twice : Player → Bool
waits_twice p = can_run p.state && same_level p.level twice

-- `i` is the first slot whose process can run for the second time.
abbrev pub FirstTwice : List Player → ℕ → Type 0
FirstTwice [] i = ⊥
FirstTwice (p ∷ ps) zero = waits_twice p ≡ true
FirstTwice (p ∷ ps) (suc i) = (waits_twice p ≡ false) × FirstTwice ps i

find_twice-First :
    (ps : List Player) (b j : ℕ) (p : Player)
    → get_elem? ps j ≡ some p
    → waits_twice p ≡ true
    → (i : ℕ) × (find_twice (map prepare ps) b ≡ some (b + i)) × FirstTwice (map prepare ps) i
unfolding find_twice
find_twice-First [] b j p at waits = absurd cc
find_twice-First (q ∷ ps) b zero p at waits =
    let ready : waits_twice (prepare q) ≡ true = ground arith in (0, ground arith, ready)
find_twice-First (q ∷ ps) b (suc j) p at waits =
    let (i, found, first) = find_twice-First ps (suc b) j p at waits in
    elim (Bool-cases (waits_twice (prepare q))) [
      | inl ready ↦ (0, ground arith, ready)
      | inr later ↦ (suc i, ground arith, (later, first))
    ]

count_tickets-kept :
    (ps : List Player) (c : Count) → c.run_twice ≡ true → (count_tickets ps c).run_twice ≡ true
unfolding count_tickets
count_tickets-kept [] c again = again
count_tickets-kept (p ∷ ps) c again =
    count_tickets-kept ps (count_as p.state (prepare p) c) (ground arith)

count_tickets-twice :
    (ps : List Player) (c : Count) (j : ℕ) (p : Player)
    → get_elem? ps j ≡ some p
    → waits_twice p ≡ true
    → (count_tickets ps c).run_twice ≡ true
unfolding count_tickets
count_tickets-twice [] c j p at waits = absurd cc
count_tickets-twice (q ∷ ps) c zero p at waits =
    count_tickets-kept ps (count_as q.state (prepare q) c) (ground arith)
count_tickets-twice (q ∷ ps) c (suc j) p at waits =
    count_tickets-twice ps (count_as q.state (prepare q) c) j p at waits

-- A round in which a process that can run waits for its second run, with sums of tickets in the range
-- of `int`, a word from `get_rand` other than 2^31, and no change by other processors between the count
-- and the search: there is no draw, and the first such process becomes running and falls to the low
-- queue.
lottery_twice_lem :
    (between : List Player → List Player) (r j : ℕ) (ps : List Player) (p : Player)
    → between (map prepare ps) ≡ map prepare ps
    → get_elem? ps j ≡ some p
    → waits_twice p ≡ true
    → (count_tickets ps start).hi ≤ int_max
    → (count_tickets ps start).lo ≤ int_max
    → r ≢ 2 ^ 31
    → (i : ℕ) × FirstTwice (map prepare ps) i
      × (lottery between r ps ≡ some (modify (map prepare ps) i (win true), some i))
unfolding lottery choose
lottery_twice_lem between r j ps p alone at waits hi lo small =
    let again = count_tickets-twice ps start j p at waits in
    let (rnd, drawn) = magnitude-some r small in
    let (i, found, first) = find_twice-First ps 0 j p at waits in
    let high_fits : ltb int_max (count_tickets ps start).hi ≡ false = ground (arith, hi) in
    let low_fits : ltb int_max (count_tickets ps start).lo ≡ false = ground (arith, lo) in
    let here : find_twice (map prepare ps) 0 ≡ some i = found ∙ ap some (omega arith) in
    (i, first, rw (high_fits, low_fits, drawn, again, alone, here) refl)
