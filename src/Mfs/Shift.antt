-- ===== src/Mfs/Shift.antt =====
-- The loop of MFS_Unlink_h of p5/MFS/server.c that moves the entries down.
use bacon_eggs.Prelude.{
  ℕ, zero, suc, ◌+◌, ◌-◌, ◌*◌, ◌≤◌, ◌<◌, ◌≡◌, refl, ap, ◌∙◌, inl, inr, arith, ltb, Bool-cases,
}
use bacon_eggs.Mfs.Disk.{Bytes, store_in, store_out}
use bacon_eggs.Mfs.Unlink.{shift_one, shift_down}

-- The entries from `j` on move down by one.
pub shift_down-before : (n j : ℕ) (f : Bytes) (a : ℕ) → a < 64 * j → shift_down n j f a ≡ f a
unfolding shift_down
shift_down-before zero j f a low = refl
shift_down-before (suc n) j f a low =
    shift_down-before n (suc j) (shift_one j f) a (omega arith)
    ∙ store_out f (64 * j) 64 (λ b. f (64 * (j + 1) + b)) a (inl low)

pub shift_down-behind : (n j : ℕ) (f : Bytes) (a : ℕ) → 64 * (j + n) ≤ a → shift_down n j f a ≡ f a
unfolding shift_down
shift_down-behind zero j f a high = refl
shift_down-behind (suc n) j f a high =
    shift_down-behind n (suc j) (shift_one j f) a (omega arith)
    ∙ store_out f (64 * j) 64 (λ b. f (64 * (j + 1) + b)) a (inr (omega arith))

pub shift_down-moved :
    (n j : ℕ) (f : Bytes) (a : ℕ) → 64 * j ≤ a → a < 64 * (j + n) → shift_down n j f a ≡ f (a + 64)
unfolding shift_down
shift_down-moved zero j f a high low = absurd (omega arith)
shift_down-moved (suc n) j f a high low = elim (Bool-cases (ltb a (64 * (j + 1)))) [
  | inl first ↦
      let next : 64 * (j + 1) + (a - 64 * j) ≡ a + 64 = ground arith in
      shift_down-before n (suc j) (shift_one j f) a (ground arith)
      ∙ store_in f (64 * j) 64 (λ b. f (64 * (j + 1) + b)) a (a - 64 * j) (omega arith)
          (ground arith)
      ∙ ap f next
  | inr later ↦
      shift_down-moved n (suc j) (shift_one j f) a (ground arith) (omega arith)
      ∙ store_out f (64 * j) 64 (λ b. f (64 * (j + 1) + b)) (a + 64) (inr (ground arith))
]
