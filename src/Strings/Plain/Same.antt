-- ===== src/Strings/Plain/Same.antt =====
-- The two variants of `memset` and `memmove` do the same.
use os.Base.{
  ℕ, zero, suc, ◌+◌, ◌-◌, ◌%◌, ◌^◌, ◌≤◌, ◌<◌, ◌≡◌, ◌⊎◌, inl, inr, true, ◌&&◌, ltb, arith, ap, sym,
  ◌∙◌, Bool-cases, update,
}
use os.Strings.{Memory, memset, memmove}
use os.Strings.Block.{moved, filled, memset-filled, memmove-moved}
use os.Strings.Plain.{set_loop, memset_plain, copy_down, copy_up, memmove_plain}

set_loop-filled : (k p c : ℕ) (m : Memory) (j : ℕ) → set_loop k p c m j ≡ filled p (c % 256) k m j
unfolding set_loop
set_loop-filled zero p c m j = ground arith
set_loop-filled (suc k) p c m j =
    set_loop-filled k (p + 1) c (update m p (c % 256)) j ∙ ground arith

copy_up-moved :
    (k d s : ℕ) (m : Memory) (j : ℕ) → (d ≤ s) ⊎ (s + k ≤ d) → copy_up k d s m j ≡ moved d s k m j
unfolding copy_up
copy_up-moved zero d s m j apart = ground arith
copy_up-moved (suc k) d s m j apart =
    copy_up-moved k (d + 1) (s + 1) (update m d (m s)) j (omega arith) ∙ ground arith

copy_down-moved :
    (k a b : ℕ) (m : Memory) (j : ℕ) → b < a → copy_down k (a + k) (b + k) m j ≡ moved a b k m j
unfolding copy_down
copy_down-moved zero a b m j lt = ground arith
copy_down-moved (suc k) a b m j lt =
    let next : Memory = update m (a + k) (m (b + k)) in
    ap (λ d. copy_down k d (b + suc k - 1) (update m d (m (b + suc k - 1))) j) {x = a + suc k - 1}
      {y = a + k} (omega arith)
    ∙ ap (λ s. copy_down k (a + k) s (update m (a + k) (m s)) j) {x = b + suc k - 1} {y = b + k}
        (omega arith)
    ∙ copy_down-moved k a b next j lt
    ∙ last_moved k a b m j lt
  where
    last_moved :
        (k a b : ℕ) (m : Memory) (j : ℕ)
        → b < a
        → moved a b k (update m (a + k) (m (b + k))) j ≡ moved a b (suc k) m j
    last_moved k a b m j lt = ground arith

memset-memset_plain :
    (v c n : ℕ) (m : Memory) (j : ℕ) → n < 2 ^ 31 → memset v c n m j ≡ memset_plain v c n m j
unfolding memset_plain
memset-memset_plain v c n m j h =
    let small : ltb n (2 ^ 31) ≡ true = ground arith in
    rw small (memset-filled v c n m j ∙ sym (set_loop-filled n v c m j))

memmove-memmove_plain :
    (dst src n : ℕ) (m : Memory) (j : ℕ) → memmove dst src n m j ≡ memmove_plain dst src n m j
unfolding memmove_plain
memmove-memmove_plain dst src n m j = elim (Bool-cases (ltb src dst && ltb dst (src + n))) [
  | inl down ↦
      rw down (memmove-moved dst src n m j ∙ sym (copy_down-moved n dst src m j (ground arith)))
  | inr up ↦ rw up (memmove-moved dst src n m j ∙ sym (copy_up-moved n dst src m j (ground arith)))
]

-- `memmove` brings the `n` bytes that were at `src` to `dst`, however the two regions overlap, and
-- changes no other byte; it does so by string instructions in whatever units and by loops over
-- bytes. The variants of `memset` agree too, for a size below 2^31.
pub memmove-memset_plain :
    (v c dst src n : ℕ) (m : Memory) (j : ℕ)
    → n < 2 ^ 31
    → (memmove dst src n m j ≡ moved dst src n m j)
      × (memmove_plain dst src n m j ≡ moved dst src n m j)
      × (memset v c n m j ≡ memset_plain v c n m j)
memmove-memset_plain v c dst src n m j h = (
  memmove-moved dst src n m j,
  sym (memmove-memmove_plain dst src n m j) ∙ memmove-moved dst src n m j,
  memset-memset_plain v c n m j h,
)
