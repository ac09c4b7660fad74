-- ===== src/Pmap/Setup/Directory.antt =====
-- The directory that `mem_init` makes.
use os.Base.{
  ℕ, ◌+◌, ◌-◌, ◌*◌, ◌/◌, ◌%◌, ◌^◌, ◌<◌, ◌≤◌, ◌≡◌, ◌&&◌, ltb, leb, ◌==◌, if◌then◌else◌, arith, ap,
  ◌∙◌, bit_or, sub32, update, ne→==,
}
use os.Mmu.{kernbase, pgsize, pte_p, pte_u, pdx}
use os.Pmap.State.{Kernel, ok, ◌>>=◌, word_index, store}
use os.Pmap.State.Rules.{paddr-ok, memset_words-ok, store-ok}
use os.Pmap.Boot.{boot_alloc}
use os.Pmap.Boot.Claim.{boot_limit, next_addr, IsBootReady, boot_alloc-fits}
use os.Pmap.Tables.Translate.{IsDir, dir_index, entry_lem}
use os.Pmap.Setup.{make_pgdir}
use os.Pmap.Setup.Passes.{IsBare}

abbrev pub cleared_words : ℕ → (ℕ → ℕ) → ℕ → ℕ
cleared_words pgdir mem j =
    if leb (word_index pgdir) j && ltb j (word_index pgdir + pgsize / 4)
    then 0 * 0x0101_0101
    else mem j

-- The state with the directory at `pgdir`.
abbrev pub started : Kernel → ℕ → ℕ → Kernel
started s m pgdir = record s {
  nextfree = m;
  kern_pgdir = pgdir;
  mem = update (cleared_words pgdir s.mem) (dir_index pgdir 957) (sub32 pgdir kernbase + 5);
}

runs :
    (s : Kernel) (m pgdir : ℕ)
    → boot_alloc pgsize s ≡ ok pgdir (record s { nextfree = m })
    → kernbase ≤ pgdir
    → pgdir < 2 ^ 32
    → pgdir % 4096 ≡ 0
    → (pgdir - kernbase) / 4096 < s.npages
    → make_pgdir s ≡ ok tt (started s m pgdir)
unfolding make_pgdir pdx
runs s m pgdir run low high aligned inside =
    let s1 : Kernel = record s { nextfree = m; kern_pgdir = pgdir } in
    let s2 : Kernel = record s1 { mem = cleared_words pgdir s.mem } in
    let word : bit_or (bit_or (sub32 pgdir kernbase) pte_u) pte_p ≡ sub32 pgdir kernbase + 5 =
      ap (λ a. bit_or (bit_or a pte_u) pte_p) {x = sub32 pgdir kernbase}
        {y = sub32 pgdir kernbase / 4096 * 4096} (omega (arith, low, high, aligned))
      ∙ entry_lem (sub32 pgdir kernbase / 4096) pte_u (omega arith)
      ∙ omega (arith, low, high, aligned) in
    let place : word_index (pgdir + 4 * 957) ≡ dir_index pgdir 957 = omega (arith, low, aligned) in
    let stored : store (pgdir + 4 * 957) (sub32 pgdir kernbase + 5) s2 ≡ ok tt (started s m pgdir) =
      store-ok s2 (pgdir + 4 * 957) (omega (arith, low)) (omega (arith, low, aligned, inside))
        (sub32 pgdir kernbase + 5)
      ∙ ap (λ i. ok tt (record s2 { mem = update s2.mem i (sub32 pgdir kernbase + 5) })) place in
    rw
      (
        make_pgdir,
        run,
        ◌>>=◌,
        memset_words-ok s1 pgdir low inside 0 pgsize,
        paddr-ok pgdir s2 low,
        ◌>>=◌,
        word,
      )
      stored

started_self :
    (s : Kernel) (m pgdir : ℕ)
    → (started s m pgdir).mem (dir_index pgdir 957) ≡ sub32 pgdir kernbase + 5
started_self s m pgdir = ground arith

started-IsBare :
    (s : Kernel) (m pgdir : ℕ)
    → kernbase ≤ pgdir
    → pgdir < 2 ^ 32
    → pgdir % 4096 ≡ 0
    → IsBare (started s m pgdir)
started-IsBare s m pgdir low high aligned = record {
  empty = λ d lt ne. ground (arith, lt, ne);
  self =
      ap (λ e. e % 2 == 0) (started_self s m pgdir)
      ∙ ne→== ((sub32 pgdir kernbase + 5) % 2) 0 (omega (arith, low, high, aligned));
}

-- With a page left below the limit of `boot_alloc`, which is a page of the machine, `mem_init`
-- makes the directory in it: a page of the machine that is empty but for the entry at UVPT, which
-- names the directory itself, present and for the user to read.
pub make_pgdir-IsBare :
    (s : Kernel)
    → IsBootReady s
    → next_addr s + pgsize ≤ boot_limit
    → (next_addr s - kernbase) / 4096 < s.npages
    → s.npages ≤ 2 ^ 16
    → (t : Kernel) × (make_pgdir s ≡ ok tt t)
      × IsBare t
      × IsDir t.npages t.kern_pgdir
      × (t.mem (dir_index t.kern_pgdir 957) ≡ sub32 t.kern_pgdir kernbase + 5)
make_pgdir-IsBare s v fits inside small =
    let (m, run, from, upto, ready) = boot_alloc-fits s pgsize (omega arith) v fits in
    let t = started s m (next_addr s) in
    (
      t,
      runs s m (next_addr s) run v.above (omega (arith, v.below)) v.aligned inside,
      started-IsBare s m (next_addr s) v.above (omega (arith, v.below)) v.aligned,
      record { low = v.above; aligned = v.aligned; inside = inside; small = small },
      started_self s m (next_addr s),
    )
