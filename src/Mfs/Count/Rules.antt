-- ===== src/Mfs/Count/Rules.antt =====
-- When a call of p5/MFS/server.c leaves `messagecount` alone.
use mathlib.Core.Path.{subst}
use bacon_eggs.Prelude.{
  ◌^◌, ltb, ℕ, ◌≡◌, refl, Bool, true, false, Option, none, some, ◌==◌, if◌then◌else◌,
}
use bacon_eggs.Prelude.Int.{ℤ}
use bacon_eggs.Mfs.Disk.{word_at, read_int}
use bacon_eggs.Mfs.State.{Server, Call, ◌>>=◌}
use bacon_eggs.Mfs.Utils.{geteol, getinode, getinode_in, getinode_at, imap_position, slot_position}

-- A result with this message count, if there is one.
abbrev pub Stays : {A : Type 0} → Option (A × Server) → ℕ → Type 0
Stays none n = Unit {0}
Stays (some (a, s)) n = s.messagecount ≡ n

abbrev pub Keeps : {A : Type 0} → Call A → Type 0
Keeps m = (s : Server) → Stays (m s) s.messagecount

pub Keeps-bind :
    {A B : Type 0} (m : Call A) (f : A → Call B)
    → Keeps m
    → ((a : A) → Keeps (f a))
    → Keeps (m >>= f)
Keeps-bind {A} {B} m f km kf s = go (m s) (km s)
  where
    go :
        (o : Option (A × Server))
        → Stays o s.messagecount
        → Stays
            (elim o as (λ _. Option (B × Server)) [ none ↦ none | some (a, s') ↦ f a s' ])
            s.messagecount
    go none e = tt
    go (some (a, s')) e = subst (Stays (f a s')) e (kf a s')

-- The cases of a branch.
pub Stays-if :
    {A : Type 0} (b : Bool) (x y : Option (A × Server)) (n : ℕ)
    → Stays x n
    → Stays y n
    → Stays (if b then x else y) n
Stays-if true x y n l r = l
Stays-if false x y n l r = r

pub Keeps-if :
    {A : Type 0} (b : Bool) (m k : Call A) → Keeps m → Keeps k → Keeps (if b then m else k)
Keeps-if true m k l r = l
Keeps-if false m k l r = r

pub Stays-option :
    {A B : Type 0} (o : Option B) (x : Option (A × Server)) (f : B → Option (A × Server)) (n : ℕ)
    → Stays x n
    → ((b : B) → Stays (f b) n)
    → Stays (elim o as (λ _. Option (A × Server)) [ none ↦ x | some b ↦ f b ]) n
Stays-option none x f n l r = l
Stays-option (some b) x f n l r = r b

pub Keeps-option :
    {A B : Type 0} (o : Option B) (m : Call A) (f : B → Call A)
    → Keeps m
    → ((b : B) → Keeps (f b))
    → Keeps (elim o as (λ _. Call A) [ none ↦ m | some b ↦ f b ])
Keeps-option none m f l r = l
Keeps-option (some b) m f l r = r b

pub Keeps-bool :
    {A : Type 0} (b : Bool) (m k : Call A)
    → Keeps m
    → Keeps k
    → Keeps (elim b as (λ _. Call A) [ true ↦ m | false ↦ k ])
Keeps-bool true m k l r = l
Keeps-bool false m k l r = r

pub geteol-Keeps : Keeps geteol
geteol-Keeps s =
    let eol = read_int s.disk 0 (word_at s.junk 0) in
    Stays-if {A = ℕ} (ltb eol (2 ^ 31)) (some (eol, s)) none s.messagecount refl tt

pub getinode_at-Keeps : (temp : ℕ) → Keeps (getinode_at temp)
unfolding getinode_at
getinode_at-Keeps temp s = Stays-if (temp == 0) _ _ s.messagecount refl refl

pub getinode_in-Keeps : (inum : ℤ) (temp : ℕ) → Keeps (getinode_in inum temp)
unfolding getinode_in
getinode_in-Keeps inum temp s = Stays-if (temp == 0) _ _ s.messagecount refl (
    Stays-option (slot_position inum temp) none _ s.messagecount tt
      λ p. getinode_at-Keeps (read_int s.disk p temp) s)

pub getinode-Keeps : (inum : ℤ) → Keeps (getinode inum)
unfolding getinode
getinode-Keeps inum s =
    Stays-option (imap_position inum) none _ s.messagecount tt
      λ p. getinode_in-Keeps inum (read_int s.disk p (word_at s.junk 0)) s
