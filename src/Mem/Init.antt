-- ===== src/Mem/Init.antt =====
-- `Mem_Init` of p3/mem/mem.c.
use bacon_eggs.Prelude.{
  ℕ, zero, suc, ◌+◌, ◌*◌, ◌/◌, ◌%◌, ◌≤◌, ◌<◌, ◌≡◌, refl, ◌≢◌, inl, inr, true, false, Option, some,
  [], arith, ◌==◌, Bool-cases,
}
use native.Mathlib.Nat.{div-add-mod', mod-lt}
use mathlib.Core.Path.{ap}
use bacon_eggs.Prelude.Int.{ℤ, pos, negsuc, minus_one}
use bacon_eggs.Mem.{round_up, mem_init}
use bacon_eggs.Mem.Store.{Ptr, null, key_value, int_max, e_bad_args, Mem, ok}
use bacon_eggs.Mem.Chain.{IsValid, nil}
use bacon_eggs.Mem.Alloc.{Returns}

-- The multiple of the page size that the request is rounded to is the next one.
round_up-page : (k n : ℕ) → 0 < k → (j : ℕ) × (round_up k n ≡ j * k) × (n ≤ j * k) × (j * k < n + k)
unfolding round_up
round_up-page k n p = elim (Bool-cases (n % k == 0)) [
  | inl even ↦ (
    n / k,
    ground (arith, div-add-mod' n k, mod-lt n p),
    ground (arith, div-add-mod' n k, mod-lt n p),
    ground (arith, div-add-mod' n k, mod-lt n p),
  )
  | inr odd ↦ (
    n / k + 1,
    ground (arith, div-add-mod' n k, mod-lt n p),
    ground (arith, div-add-mod' n k, mod-lt n p),
    ground (arith, div-add-mod' n k, mod-lt n p),
  )
]

multiple-aligned : (j k : ℕ) → k % 8 ≡ 0 → (j * k) % 8 ≡ 0
multiple-aligned j k e =
    let parts : k ≡ k / 8 * 8 = omega arith in omega (arith, ap (λ t. j * t) parts)

multiple-pos : (j k : ℕ) → 0 < j * k → k ≤ j * k
multiple-pos zero k p = omega arith
multiple-pos (suc j) k p = omega arith

-- The first call of `Mem_Init`, with a positive size that rounds to an `int`, a page size that is a
-- multiple of 8 and of at least 16 bytes, and a region of zeros on an 8-byte boundary: it returns 0
-- and a valid state without blocks, whose region has the size rounded up to whole pages.
pub mem_init_lem :
    (pagesize n : ℕ) (p : Ptr) (m : Mem)
    → m.called ≡ false
    → ((a : Ptr) → (m.heap a).key ≢ key_value)
    → pagesize % 8 ≡ 0
    → 16 ≤ pagesize
    → 0 < n
    → round_up pagesize n ≤ int_max
    → p ≢ null
    → p % 8 ≡ 0
    → Returns (mem_init pagesize (some p) (pos n) m) λ r m'.
      (r ≡ pos 0)
      × IsValid m' []
      × (m'.start ≡ p)
      × (n ≤ m'.total)
      × (m'.total < n + pagesize)
      × ((j : ℕ) × (m'.total ≡ j * pagesize))
unfolding mem_init
mem_init_lem pagesize n p m first zeros even big pos_n fits some_p al =
    let (j, e, lo, hi) = round_up-page pagesize n (omega arith) in
    (
      pos 0,
      record m {
        called = true;
        numblocks = 0;
        head = null;
        start = p;
        total = round_up pagesize n;
        final = p + round_up pagesize n;
      },
      ground arith,
      (
        refl,
        record {
          chain = nil;
          layout = tt;
          count = refl;
          live = λ a k. absurd (zeros a k);
          region = refl;
          start_pos = some_p;
          start_aligned = al;
          total_aligned = omega (arith, multiple-aligned j pagesize even);
          total_pos = omega (arith, multiple-pos j pagesize);
        },
        refl,
        omega arith,
        omega arith,
        (j, e),
      ),
    )

-- After a call that returned, `Mem_Init` with any arguments returns -1 with E_BAD_ARGS and changes
-- nothing else.
pub mem_init_once :
    (pagesize pagesize' : ℕ) (mapped mapped' : Option Ptr) (size size' : ℤ) (m m' : Mem) {r : ℤ}
    → mem_init pagesize mapped size m ≡ ok r m'
    → mem_init pagesize' mapped' size' m' ≡ ok minus_one (record m' { m_error = e_bad_args })
unfolding mem_init
mem_init_once pagesize pagesize' mapped mapped' (pos n) size' m m' h = ground arith
mem_init_once pagesize pagesize' mapped mapped' (negsuc n) size' m m' h = ground arith
