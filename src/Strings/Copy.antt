-- ===== src/Strings/Copy.antt =====
-- The functions that copy a string.
use os.Base.{
  ℕ, zero, suc, ◌+◌, ◌-◌, ◌^◌, ◌≤◌, ◌<◌, ◌≡◌, refl, ◌⊎◌, ◌&&◌, some, min, ltb, leb, if◌then◌else◌,
  arith, ap, ◌∙◌, subst, fun_ext, ne→==, eq→==, update,
}
use os.Strings.{
  Memory, addresses, strcpy_loop, strcpy, strcat, strncpy, strlcpy_loop, strlcpy, terminate,
}
use os.Strings.Scan.{IsString, IsString-update, strlen_lem}
use os.Strings.Block.{moved}

-- One byte copied, then `n` more.
moved_step :
    (d s n : ℕ) (m : Memory) (j : ℕ)
    → (d ≤ s) ⊎ (s + n < d)
    → moved (d + 1) (s + 1) n (update m d (m s)) j ≡ moved d s (suc n) m j
moved_step d s n m j apart = ground arith

strcpy_loop_lem :
    (fuel n d s : ℕ) (m : Memory)
    → IsString m s n
    → (d ≤ s) ⊎ (s + n < d)
    → n < fuel
    → strcpy_loop fuel d s m ≡ some (moved d s (suc n) m)
unfolding strcpy_loop
strcpy_loop_lem zero n d s m v apart h = absurd (omega arith)
strcpy_loop_lem (suc fuel) zero d s m v apart h =
    rw (strcpy_loop, eq→== (m s) 0 v) (ap some (fun_ext λ j. ground arith))
strcpy_loop_lem (suc fuel) (suc n) d s m v apart h =
    let next : Memory = update m d (m s) in
    rw (strcpy_loop, ne→== (m s) 0 v.0)
      (strcpy_loop_lem fuel n (d + 1) (s + 1) next
          (IsString-update m (s + 1) n d (m s) (omega arith) v.1) (omega arith) (omega arith)
        ∙ ap some (fun_ext λ j. moved_step d s (suc n) m j (omega arith)))

-- `strcpy` copies a string of `n` bytes with its terminator, and nothing else, unless `dst` lies in
-- the string behind its first byte.
strcpy-moved :
    (m : Memory) (dst src n : ℕ)
    → IsString m src n
    → (dst ≤ src) ⊎ (src + n < dst)
    → n < 2 ^ 32
    → strcpy dst src m ≡ some (moved dst src (suc n) m)
unfolding strcpy
strcpy-moved m dst src n v apart h = strcpy_loop_lem addresses n dst src m v apart h

IsString-same :
    (m m' : Memory) (s s' n : ℕ)
    → ((i : ℕ) → i ≤ n → m' (s' + i) ≡ m (s + i))
    → IsString m s n
    → IsString m' s' n
IsString-same m m' s s' zero same v = ground (arith, same 0 (omega arith))
IsString-same m m' s s' (suc n) same v = (
  ground (arith, same 0 (omega arith), v.0),
  IsString-same m m' (s + 1) (s' + 1) n (λ i h. ground (arith, same (suc i) (omega arith))) v.1,
)

IsString-append :
    (m m' : Memory) (s a b : ℕ)
    → ((i : ℕ) → i < a → m' (s + i) ≡ m (s + i))
    → IsString m s a
    → IsString m' (s + a) b
    → IsString m' s (a + b)
IsString-append m m' s zero b same v w =
    subst (IsString m' s) {x = b} {y = 0 + b} (omega arith)
      (subst (λ k. IsString m' k b) {x = s + 0} {y = s} (omega arith) w)
IsString-append m m' s (suc a) b same v w =
    subst (IsString m' s) {x = suc (a + b)} {y = suc a + b} (omega arith) (
      ground (arith, same 0 (omega arith), v.0),
      IsString-append m m' (s + 1) a b (λ i h. ground (arith, same (suc i) (omega arith))) v.1
          (subst (λ k. IsString m' k b) {x = s + suc a} {y = s + 1 + a} (omega arith) w),
    )

-- `strcat` writes the string at `src` over the terminator of the one at `dst`, and so makes one
-- string of both, where neither the written bytes nor the string at `dst` reach into `src`.
pub strcat-append :
    (m : Memory) (dst src a b : ℕ)
    → IsString m dst a
    → IsString m src b
    → (dst + a + b < src) ⊎ (src + b < dst)
    → a < 2 ^ 32
    → b < 2 ^ 32
    → (strcat dst src m ≡ some (moved (dst + a) src (suc b) m))
      × IsString (moved (dst + a) src (suc b) m) dst (a + b)
unfolding strcat
strcat-append m dst src a b v w apart ha hb = (
  rw (strcat, (strlen_lem m dst a 0 v ha).0) (strcpy-moved m (dst + a) src b w (omega arith) hb),
  IsString-append m (moved (dst + a) src (suc b) m) dst a b (λ i h. ground arith) v
      (IsString-same m (moved (dst + a) src (suc b) m) src (dst + a) b (λ i h. ground arith) w),
)

-- `size` bytes at `dst`: those of the string of `n` bytes at `src`, then zeros.
abbrev pub padded : ℕ → ℕ → ℕ → ℕ → Memory → Memory
padded dst src n size m j =
    if leb dst j && ltb j (dst + size)
    then if ltb (j - dst) n then m (src + (j - dst)) else 0
    else m j

strncpy-step_end :
    (d s size : ℕ) (m : Memory) (j : ℕ)
    → padded (d + 1) s 0 size (update m d 0) j ≡ padded d s 0 (suc size) m j
strncpy-step_end d s size m j = ground arith

strncpy-step :
    (d s n size : ℕ) (m : Memory) (j : ℕ)
    → (d + suc size ≤ s) ⊎ (s + suc n < d)
    → padded (d + 1) (s + 1) n size (update m d (m s)) j ≡ padded d s (suc n) (suc size) m j
strncpy-step d s n size m j apart = ground arith

-- `strncpy` writes exactly `size` bytes: the string cut off there, or filled up with zeros.
strncpy-padded :
    (size n dst src : ℕ) (m : Memory) (j : ℕ)
    → IsString m src n
    → (dst + size ≤ src) ⊎ (src + n < dst)
    → strncpy dst src size m j ≡ padded dst src n size m j
unfolding strncpy
strncpy-padded zero n dst src m j v apart = ground arith
strncpy-padded (suc size) zero dst src m j v apart =
    rw (strncpy, eq→== (m src) 0 v, v)
      (strncpy-padded size 0 (dst + 1) src (update m dst 0) j
          (IsString-update m src 0 dst 0 (omega arith) v) (omega arith)
        ∙ strncpy-step_end dst src size m j)
strncpy-padded (suc size) (suc n) dst src m j v apart =
    rw (strncpy, ne→== (m src) 0 v.0)
      (strncpy-padded size n (dst + 1) (src + 1) (update m dst (m src)) j
          (IsString-update m (src + 1) n dst (m src) (omega arith) v.1) (omega arith)
        ∙ strncpy-step dst src n size m j apart)

pair-eq :
    {a b : ℕ} {f g : Memory} → a ≡ b → ((j : ℕ) → f j ≡ g j) → ◌≡◌ {A = ℕ × Memory} (a, f) (b, g)
pair-eq p q = λ k. (p k, fun_ext q k)

strlcpy_loop_lem :
    (left n d s : ℕ) (m : Memory)
    → IsString m s n
    → (d ≤ s) ⊎ (s + n < d)
    → strlcpy_loop left d s m ≡ (d + min n left, moved d s (min n left) m)
unfolding strlcpy_loop
strlcpy_loop_lem zero n d s m v apart = pair-eq (omega arith) (λ j. ground arith)
strlcpy_loop_lem (suc left) zero d s m v apart =
    rw (strlcpy_loop, eq→== (m s) 0 v) (pair-eq (omega arith) (λ j. ground arith))
strlcpy_loop_lem (suc left) (suc n) d s m v apart =
    rw (strlcpy_loop, ne→== (m s) 0 v.0)
      (strlcpy_loop_lem left n (d + 1) (s + 1) (update m d (m s))
          (IsString-update m (s + 1) n d (m s) (omega arith) v.1) (omega arith)
        ∙ pair-eq (omega arith) (λ j. ground (arith, moved_step d s (min n left) m j)))

-- `strlcpy` copies the string cut off so that it and its terminator fit in `size` bytes, returns
-- the number of bytes copied, and writes nothing else.
pub strlcpy-moved :
    (m : Memory) (dst src n left : ℕ)
    → IsString m src n
    → (dst ≤ src) ⊎ (src + n < dst)
    → strlcpy dst src (suc left) m
      ≡ (min n left, update (moved dst src (min n left) m) (dst + min n left) 0)
unfolding strlcpy
strlcpy-moved m dst src n left v apart =
    ap (terminate dst) (strlcpy_loop_lem left n dst src m v apart)
    ∙ pair-eq (omega arith) (λ j. refl)
