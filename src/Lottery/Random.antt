-- ===== src/Lottery/Random.antt =====
-- The random number generator in p2/xv6/kernel/proc.c. Its words have 32 bits; what `uptime` returns
-- is an argument.
use Prim.Native.Nat.{bit_xor}
use bacon_eggs.Prelude.{
  ℕ, zero, suc, ◌+◌, ◌-◌, ◌*◌, ◌/◌, ◌%◌, ◌^◌, ◌<◌, ◌≡◌, refl, ap, ◌∙◌, Option, none, some, List, [],
  ◌∷◌, arith, length, get_elem?, set, length-set, get_elem?-set_self,
}

abbrev pub random_offset : ℕ
random_offset = 0x3e42_5212

-- `x`, `b`, and the static `i` of `rand`.
pub record Generator : Type 0 where
  pub x : List ℕ
  pub b : ℕ
  pub i : ℕ

-- The loop of `init` for `k` words from index `i` on; `x0`, `x1` and `x2` are the three before.
unfoldable pub seed_from : (k i x0 x1 x2 : ℕ) → List ℕ
seed_from zero i x0 x1 x2 = []
seed_from (suc k) i x0 x1 x2 =
    let word = bit_xor (bit_xor (bit_xor x0 x1) random_offset) i in
    word ∷ seed_from k (suc i) x1 x2 word

unfoldable pub init : ℕ → List ℕ
unfolding seed_from
init y =
    let y1 = (y + random_offset) % 2 ^ 32 in
    let y2 = (y + random_offset + random_offset) % 2 ^ 32 in y ∷ y1 ∷ y2 ∷ seed_from 4093 3 y y1 y2

unfoldable pub rand : ℕ → Generator → Option (ℕ × Generator)
rand uptime g =
    let i = (g.i + 1) % 4096 in
    elim (get_elem? g.x i) [
      | none ↦ none
      | some word ↦
          let t = (uptime * word + g.b) % 2 ^ 32 in
          let r = (0xffff_fffe + 2 ^ 32 - t) % 2 ^ 32 in
          some (r, record { x = set g.x i r; b = t / 2 ^ 16; i = i })
    ]

unfoldable pub get_rand : ℕ → Generator → Option (ℕ × Generator)
unfolding init rand
get_rand uptime g = rand uptime (record g { x = init 33256246 })

get_elem?-lt : (xs : List ℕ) (i : ℕ) → i < length xs → (x : ℕ) × (get_elem? xs i ≡ some x)
get_elem?-lt [] i lt = absurd (omega (arith, lt))
get_elem?-lt (x ∷ xs) zero lt = (x, refl)
get_elem?-lt (x ∷ xs) (suc i) lt = get_elem?-lt xs i (omega (arith, lt))

length-seed_from : (k i x0 x1 x2 : ℕ) → length (seed_from k i x0 x1 x2) ≡ k
unfolding seed_from
length-seed_from zero i x0 x1 x2 = refl
length-seed_from (suc k) i x0 x1 x2 = ap suc (length-seed_from k (suc i) x1 x2 _)

length-init : (y : ℕ) → length (init y) ≡ 4096
unfolding init
length-init y =
    ap (λ n. suc (suc (suc n)))
      (length-seed_from 4093 3 y ((y + random_offset) % 2 ^ 32)
        ((y + random_offset + random_offset) % 2 ^ 32))

-- What `rand` leaves: a word, and a generator in its bounds.
pub record Drawn (o : Option (ℕ × Generator)) : Type 0 where
  pub word : ℕ
  pub after : Generator
  pub run : o ≡ some (word, after)
  pub word_bound : word < 2 ^ 32
  pub carry_bound : after.b < 2 ^ 16
  pub index_bound : after.i < 4096
  pub size : length after.x ≡ 4096
  pub stored : get_elem? after.x after.i ≡ some word

rand-Drawn_at :
    (uptime : ℕ) (g : Generator) (x : ℕ)
    → length g.x ≡ 4096
    → get_elem? g.x ((g.i + 1) % 4096) ≡ some x
    → Drawn (rand uptime g)
unfolding rand
rand-Drawn_at uptime g x size at =
    let i : ℕ = (g.i + 1) % 4096 in
    let t : ℕ = (uptime * x + g.b) % 2 ^ 32 in
    let r : ℕ = (0xffff_fffe + 2 ^ 32 - t) % 2 ^ 32 in
    record {
      word = r;
      after = record { x = set g.x i r; b = t / 2 ^ 16; i = i };
      run = rw (at, rand) refl;
      word_bound = omega arith;
      carry_bound = omega arith;
      index_bound = omega arith;
      size = length-set g.x i r ∙ size;
      stored = get_elem?-set_self g.x i r (omega (arith, size));
    }

rand-Drawn : (uptime : ℕ) (g : Generator) → length g.x ≡ 4096 → Drawn (rand uptime g)
rand-Drawn uptime g size =
    let (x, at) = get_elem?-lt g.x ((g.i + 1) % 4096) (omega (arith, size)) in
    rand-Drawn_at uptime g x size at

-- A call of `get_rand` never reads behind its array, whatever its state was: it returns a word of 32
-- bits, which it also stores, and leaves an array of 4096 words, an index into it and a carry below 2^16.
pub get_rand_lem : (uptime : ℕ) (g : Generator) → Drawn (get_rand uptime g)
unfolding get_rand
get_rand_lem uptime g = rand-Drawn uptime (record g { x = init 33256246 }) (length-init 33256246)
