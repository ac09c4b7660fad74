-- ===== src/Pmap/Tables/Region.antt =====
-- `boot_map_region`: one round, and the loop.
use os.Base.{
  ℕ, zero, suc, ◌+◌, ◌-◌, ◌*◌, ◌/◌, ◌%◌, ◌^◌, ◌<◌, ◌≤◌, ◌≡◌, ◌≢◌, ◌⊎◌, refl, inl, inr, true, false,
  some, List, length, ltb, ◌==◌, if◌then◌else◌, arith, ap, ◌∙◌, sym, Bool-cases, add32, ltb→lt,
  lt→ltb, le→ltb, bit_or,
}
use os.Mmu.{pgsize, pte_p, uvpt}
use os.Pmap.State.{Kernel, ok}
use os.Pmap.Pages.Chain.{FreeList}
use os.Pmap.Tables.{map_loop, boot_map_region}
use os.Pmap.Tables.Translate.{dir_of, pde_at, translate, entry_lem}
use os.Pmap.Tables.Space.{OutsideUvpt, IsSpace}
use os.Pmap.Tables.Insert.{entry}
use os.Pmap.Tables.Grow.{
  AllSpare, Walked, walk-Walked, stored, store_entry-ok, stored-IsSpace, stored-AllSpare,
  stored-here, stored-others, stored-wanted, wanted, SameVars, SameVars-join, IsMade, IsMade-join,
  IsMade-wider, stored-dirs,
}

-- The page tables that the loop wants from round `i` on
abbrev pub needed : ℕ → (ℕ → ℕ) → ℕ → ℕ → ℕ → ℕ
needed pgdir mem va size i =
    if ltb i size then wanted pgdir mem (va + i * 4096) (va + size * 4096) else 0

-- What the loop has made of `s` from round `i` on, where `xs` is the free list.
pub record IsMapped (s : Kernel) (xs : List ℕ) (pgdir va size pa perm i : ℕ) (t : Kernel)
    : Type 0 where
  pub npages : t.npages ≡ s.npages
  pub space : IsSpace t.npages pgdir t.mem
  pub vars : SameVars s t
  pub rest : List ℕ
  pub list : FreeList t rest
  pub spare : AllSpare t.npages pgdir t.mem rest
  pub dirs :
      (d : ℕ)
      → d < 1024
      → IsMade pgdir s.mem t.mem (va / 4194304) ((va + size * 4096 - 1) / 4194304) d
  pub spent : length xs ≤ length rest + needed pgdir s.mem va size i
  pub entries :
      (k : ℕ)
      → i ≤ k
      → k < size
      → translate pgdir t.mem (va + k * 4096) ≡ some (entry (pa / 4096 + k) perm)
  pub others :
      (va' : ℕ)
      → OutsideUvpt va'
      → (va' / 4096 < va / 4096 + i) ⊎ (va / 4096 + size ≤ va' / 4096)
      → translate pgdir t.mem va' ≡ translate pgdir s.mem va'

-- Whole pages, below 4 GB, that leave out the entry at `UVPT`.
pub record IsRegion (va size pa perm : ℕ) : Type 0 where
  pub aligned : va % 4096 ≡ 0
  pub pa_aligned : pa % 4096 ≡ 0
  pub fits : va + size * 4096 ≤ 2 ^ 32
  pub pa_fits : pa + size * 4096 ≤ 2 ^ 32
  pub flags : perm < 4096
  pub apart : (va + size * 4096 ≤ uvpt) ⊎ (uvpt + 4194304 ≤ va)

module _ {va size pa perm : ℕ} (g : IsRegion va size pa perm) (i : ℕ) (more : i < size) where
  outside : OutsideUvpt (va + i * 4096)
  outside = elim g.apart [
    | inl low ↦ omega (arith, low, g.fits, more)
    | inr high ↦ omega (arith, high, g.fits, more)
  ]

  test : ltb (add32 va i) (add32 va size) ≡ true
  test = lt→ltb (add32 va i) (add32 va size) (omega (arith, g.fits, more))

  place : add32 va (i * pgsize) ≡ va + i * 4096
  place = omega (arith, g.fits, more)

  word : bit_or (bit_or (add32 pa (i * pgsize)) perm) pte_p ≡ entry (pa / 4096 + i) perm
  word =
      ap (λ a. bit_or (bit_or a perm) pte_p) {x = add32 pa (i * pgsize)}
        {y = (pa / 4096 + i) * 4096} (omega (arith, g.pa_fits, g.pa_aligned, more))
      ∙ entry_lem (pa / 4096 + i) perm g.flags

needed_now :
    (pgdir va size i : ℕ) (mem : ℕ → ℕ)
    → ltb i size ≡ true
    → needed pgdir mem va size i ≡ wanted pgdir mem (va + i * 4096) (va + size * 4096)
needed_now pgdir va size i mem going = rw going refl

-- A round wants what the rounds behind it want, and a table if its own is missing.
needed_next :
    {va size pa perm : ℕ} (g : IsRegion va size pa perm) (i : ℕ)
    → ltb i size ≡ true
    → {s : Kernel} {pgdir : ℕ} {xs : List ℕ} (o : OutsideUvpt (va + i * 4096))
      (k : Walked s pgdir (va + i * 4096) xs) (e : ℕ)
    → needed pgdir (stored o k e).mem va size (i + 1)
        + (if pde_at pgdir s.mem (va + i * 4096) % 2 == 0 then 1 else 0)
      ≤ needed pgdir s.mem va size i
needed_next {va} {size} g i going {s} {pgdir} o k e = elim (Bool-cases (ltb (i + 1) size)) [
  | inl more ↦
      let next : va + (i + 1) * 4096 ≡ va + i * 4096 + 4096 = omega arith in
      rw (going, more, next)
        (stored-wanted o k e (va + size * 4096) g.fits (omega (arith, ltb→lt (i + 1) size more)))
  | inr last ↦ rw (going, last) (omega arith)
]

region_dirs :
    {va size pa perm : ℕ} (g : IsRegion va size pa perm) (i : ℕ)
    → i < size
    → {s : Kernel} {pgdir : ℕ} {xs : List ℕ} (o : OutsideUvpt (va + i * 4096))
      (k : Walked s pgdir (va + i * 4096) xs) (e : ℕ) (t : Kernel) (d : ℕ)
    → d < 1024
    → IsMade pgdir (stored o k e).mem t.mem (va / 4194304) ((va + size * 4096 - 1) / 4194304) d
    → IsMade pgdir s.mem t.mem (va / 4194304) ((va + size * 4096 - 1) / 4194304) d
region_dirs {va} {size} g i more {s} {pgdir} o k e t d small later =
    let low = va / 4194304 in
    let high = (va + size * 4096 - 1) / 4194304 in
    let w = va + i * 4096 in
    IsMade-join pgdir s.mem (stored o k e).mem t.mem low high d
      (IsMade-wider pgdir s.mem (stored o k e).mem (dir_of w) (dir_of w) low high d
        (omega (arith, g.fits, more)) (omega (arith, g.fits, more)) (stored-dirs o k e d small))
      later

wider :
    (va i size p : ℕ)
    → (p < va / 4096 + i) ⊎ (va / 4096 + size ≤ p)
    → (p < va / 4096 + (i + 1)) ⊎ (va / 4096 + size ≤ p)
wider va i size p (inl h) = inl (omega arith)
wider va i size p (inr h) = inr h

not_here :
    (va i size p : ℕ)
    → i < size
    → va % 4096 ≡ 0
    → (p < va / 4096 + i) ⊎ (va / 4096 + size ≤ p)
    → p ≢ (va + i * 4096) / 4096
not_here va i size p lt al (inl h) e = omega arith
not_here va i size p lt al (inr h) e = omega arith

module _ {va size pa perm : ℕ} (g : IsRegion va size pa perm) where
  map_loop-IsMapped :
      (fuel i : ℕ) (s : Kernel) (pgdir : ℕ) (xs : List ℕ)
      → IsSpace s.npages pgdir s.mem
      → FreeList s xs
      → AllSpare s.npages pgdir s.mem xs
      → needed pgdir s.mem va size i ≤ length xs
      → i ≤ size
      → size < i + fuel
      → (t : Kernel) × (map_loop fuel i pgdir va size pa perm s ≡ ok tt t)
        × IsMapped s xs pgdir va size pa perm i t
  unfolding map_loop
  map_loop-IsMapped zero i s pgdir xs v list spare enough le fuel_left =
      absurd (omega (arith, le, fuel_left))
  map_loop-IsMapped (suc fuel) i s pgdir xs v list spare enough le fuel_left =
      elim (Bool-cases (ltb i size)) [
        | inr finished ↦
            let at_end : i ≡ size = ground (arith, finished, le) in
            let stop : ltb (add32 va i) (add32 va size) ≡ false =
              ap (λ j. ltb (add32 va j) (add32 va size)) at_end ∙ le→ltb _ _ (omega arith) in
            (
              s,
              rw (map_loop, stop) refl,
              record {
                npages = refl;
                space = v;
                vars = (refl, refl, refl, refl);
                dirs = λ d lt. inl refl;
                rest = xs;
                list = list;
                spare = spare;
                spent = omega arith;
                entries = λ k from upto. absurd (omega (arith, at_end, from, upto));
                others = λ va' o' out. refl;
              },
            )
        | inl going ↦
            let lt = ltb→lt i size going in
            let o = outside g i lt in
            let w = va + i * 4096 in
            let e = entry (pa / 4096 + i) perm in
            let k =
              walk-Walked s pgdir w xs v o list spare
                (omega (arith, needed_now pgdir va size i s.mem going, enough)) in
            let u = stored o k e in
            let step : needed pgdir u.mem va size (i + 1)
                  + (if pde_at pgdir s.mem w % 2 == 0 then 1 else 0)
                ≤ needed pgdir s.mem va size i =
              needed_next g i going o k e in
            let (t, run, m) =
              map_loop-IsMapped fuel (i + 1) u pgdir k.ys (stored-IsSpace o k e) k.list
                (stored-AllSpare o k e) (omega (arith, step, k.used, enough)) (omega (arith, lt))
                (omega (arith, fuel_left)) in
            (
              t,
              rw (map_loop, test g i lt, place g i lt, k.run, word g i lt, store_entry-ok o k e)
                  run,
              record {
                npages = m.npages ∙ k.npages;
                space = m.space;
                vars = SameVars-join s k.t t k.vars m.vars;
                dirs = λ d small. region_dirs g i lt o k e t d small (m.dirs d small);
                rest = m.rest;
                list = m.list;
                spare = m.spare;
                spent = omega (arith, m.spent, step, k.used);
                entries = λ j from upto. elim (Bool-cases (ltb i j)) [
                  | inl later ↦ m.entries j (omega (arith, ltb→lt i j later)) upto
                  | inr here ↦
                      let same : j ≡ i = ground (arith, here, from) in
                      ap (λ h. translate pgdir t.mem (va + h * 4096)) same
                      ∙ m.others w o (inl (omega (arith, g.aligned)))
                      ∙ stored-here o k e (ground arith)
                      ∙ ap (λ h. some (entry (pa / 4096 + h) perm)) (sym same)
                ];
                others = λ va' o' out.
                    m.others va' o' (wider va i size (va' / 4096) out)
                    ∙ stored-others o k e va' o' (not_here va i size (va' / 4096) lt g.aligned out);
              },
            )
      ]

  -- For a region of whole pages below 4 GB that leaves out the entry at UVPT, in an address space
  -- whose tables do not overlap, and with the page tables that are wanted on a free list whose
  -- pages are neither the directory nor tables, `boot_map_region` succeeds. Page `k` of the region
  -- is mapped to page `pa / 4096 + k` with the permissions, present; every other address outside
  -- the entry at UVPT keeps its translation. What is left of the free list is well formed, and no
  -- more pages were taken than were wanted.
  pub boot_map_region-IsMapped :
      (s : Kernel) (pgdir : ℕ) (xs : List ℕ)
      → IsSpace s.npages pgdir s.mem
      → FreeList s xs
      → AllSpare s.npages pgdir s.mem xs
      → needed pgdir s.mem va size 0 ≤ length xs
      → (t : Kernel) × (boot_map_region pgdir va size pa perm s ≡ ok tt t)
        × IsMapped s xs pgdir va size pa perm 0 t
  unfolding boot_map_region
  boot_map_region-IsMapped s pgdir xs v list spare enough =
      map_loop-IsMapped (size + 1) 0 s pgdir xs v list spare enough (omega arith) (omega arith)
