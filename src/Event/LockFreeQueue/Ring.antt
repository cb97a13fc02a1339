-- ===== src/Event/LockFreeQueue/Ring.antt =====
-- The part of a ring buffer between two positions.
use native.Mathlib.Nat.{mod_self, mod-eq_of_lt}
use mxrc.Common.{
  ℕ, zero, suc, ◌+◌, ◌-◌, ◌%◌, ◌<◌, ◌≡◌, ◌∙◌, ap, refl, List, [], ◌∷◌, ◌++◌, arith, ltb,
  if◌then◌else◌, Bool-cases, inl, inr,
}
use mxrc.Event.LockFreeQueue.{set}

-- A position after the last one starts again at 0.
abbrev pub wrap : ℕ → ℕ → ℕ
wrap c k = if ltb k c then k else k - c

pub mod_wrap : (c n : ℕ) → n < c → (n + 1) % c ≡ wrap c (n + 1)
mod_wrap c n h = elim (Bool-cases (ltb (n + 1) c)) [
  | inl e ↦ rw e (mod-eq_of_lt (ground arith))
  | inr e ↦
      let full : n + 1 ≡ c = ground arith in rw e (ap (λ k. k % c) full ∙ mod_self c ∙ omega arith)
]

module _ {A : Type 0} (c : ℕ) where
  -- `n` items from position `r` on.
  abbrev pub segment : (ℕ → A) → ℕ → ℕ → List A
  segment b r zero = []
  segment b r (suc n) = b r ∷ segment b (wrap c (r + 1)) n

  -- The item after a segment makes it longer.
  pub segment-append :
      (b : ℕ → A) (r n : ℕ)
      → r < c
      → n < c
      → segment b r (suc n) ≡ segment b r n ++ b (wrap c (r + n)) ∷ []
  segment-append b r zero hr hn = ap (λ i. b i ∷ []) (ground arith)
  segment-append b r (suc n) hr hn =
      ap (λ l. b r ∷ l)
        (segment-append b (wrap c (r + 1)) n (ground arith) (ground arith)
          ∙ ap (λ i. segment b (wrap c (r + 1)) n ++ b i ∷ []) (ground arith))

  -- A write behind a segment leaves it alone.
  pub segment-set :
      (b : ℕ → A) (x : A) (r n d : ℕ)
      → r < c
      → n + d < c
      → segment (set (wrap c (r + (n + d))) x b) r n ≡ segment b r n
  segment-set b x r zero d hr hn = refl
  segment-set b x r (suc n) d hr hn =
      let i = wrap c (r + (suc n + d)) in
      let s = wrap c (r + 1) in
      let head : set i x b r ≡ b r = ground arith in
      let same : i ≡ wrap c (s + (n + d)) = ground arith in
      ap (λ y. y ∷ segment (set i x b) s n) head
      ∙ ap (λ l. b r ∷ l)
          (ap (λ j. segment (set j x b) s n) same
            ∙ segment-set b x s n d (ground arith) (omega (arith, hn)))
