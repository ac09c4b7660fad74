-- ===== src/Pmap/Tables/Grow.antt =====
-- Walks that make page tables, one after the other, and the entries that `boot_map_region` stores.
use os.Base.{
  ℕ, ◌+◌, ◌-◌, ◌*◌, ◌/◌, ◌%◌, ◌^◌, ◌<◌, ◌≤◌, ◌≡◌, ◌≢◌, ◌⊎◌, refl, inl, inr, Bool, true, false, some,
  List, [], ◌∷◌, length, ◌==◌, if◌then◌else◌, arith, ap, ◌∙◌, Bool-cases, ==_iff, eq→==,
}
use os.Mmu.{kernbase}
use os.Pmap.State.{Kernel, ok}
use os.Pmap.Pages.Chain.{has, FreeList}
use os.Pmap.Tables.{pte_slot, pgdir_walk, store_entry}
use os.Pmap.Tables.Translate.{dir_of, dir_index, pde_at, translate, table_kva, store-pte}
use os.Pmap.Tables.Walk.{grown, fresh_entry, walk-present, walk-fresh}
use os.Pmap.Tables.Space.{
  OutsideUvpt, Present, IsSpace, IsSpare, written, extended, kinds, pde_at-written,
  translate-written, translate-written_ne, written-IsSpace, pde_at-extended, translate-extended,
  extended-IsSpace,
}

-- The pages of the list are neither the directory nor tables.
abbrev pub AllSpare : ℕ → ℕ → (ℕ → ℕ) → List ℕ → Type 0
AllSpare n pgdir mem [] = Unit {0}
AllSpare n pgdir mem (x ∷ xs) = IsSpare n pgdir mem x × AllSpare n pgdir mem xs

module _ {n pgdir : ℕ} {mem : ℕ → ℕ} (v : IsSpace n pgdir mem) where
  AllSpare-written :
      (va w : ℕ) (o : OutsideUvpt va) (p : Present pgdir mem va) (xs : List ℕ)
      → AllSpare n pgdir mem xs
      → AllSpare n pgdir (written pgdir mem va w) xs
  AllSpare-written va w o p [] a = tt
  AllSpare-written va w o p (x ∷ xs) a =
      let same = pde_at-written v va w o p in
      (
        record {
          inside = a.0.inside;
          not_dir = a.0.not_dir;
          not_table = λ va' o' p'. rw (same va') (a.0.not_table va' o' (rw (same va') at p'));
        },
        AllSpare-written va w o p xs a.1,
      )

  AllSpare-extended :
      (va k : ℕ) (o : OutsideUvpt va) (absent : (pde_at pgdir mem va % 2 == 0) ≡ true)
      (f : IsSpare n pgdir mem k) (xs : List ℕ)
      → has k xs ≡ false
      → AllSpare n pgdir mem xs
      → AllSpare n pgdir (extended pgdir mem va k) xs
  AllSpare-extended va k o absent f [] out a = tt
  AllSpare-extended va k o absent f (x ∷ xs) out a =
      let ne : k ≢ x = ground (arith, out) in
      (
        record {
          inside = a.0.inside;
          not_dir = a.0.not_dir;
          not_table = λ va' o' p'. elim (kinds v va k o absent f va' p') [
            | inl (e, _) ↦ rw e (λ same. ne (omega (arith, same)))
            | inr (e, old) ↦ rw e (a.0.not_table va' o' old)
          ];
        },
        AllSpare-extended va k o absent f xs (ground (arith, out)) a.1,
      )

-- The variables that a walk leaves alone.
abbrev pub SameVars : Kernel → Kernel → Type 0
SameVars s t =
    (t.npages ≡ s.npages)
    × (t.bootstack ≡ s.bootstack)
    × (t.kern_pgdir ≡ s.kern_pgdir)
    × (t.pages_kva ≡ s.pages_kva)

pub SameVars-join : (s t u : Kernel) → SameVars s t → SameVars t u → SameVars s u
SameVars-join s t u p q = (q.0 ∙ p.0, q.1 ∙ p.1, q.2 ∙ p.2, q.3 ∙ p.3)

-- The directory entry `d` is as it was, or is new and between `low` and `high`.
abbrev pub IsMade : ℕ → (ℕ → ℕ) → (ℕ → ℕ) → ℕ → ℕ → ℕ → Type 0
IsMade pgdir old new low high d =
    (new (dir_index pgdir d) ≡ old (dir_index pgdir d))
    ⊎ ((low ≤ d) × (d ≤ high) × (j : ℕ) × (new (dir_index pgdir d) ≡ fresh_entry j))

pub IsMade-join :
    (pgdir : ℕ) (old mid new : ℕ → ℕ) (low high d : ℕ)
    → IsMade pgdir old mid low high d
    → IsMade pgdir mid new low high d
    → IsMade pgdir old new low high d
IsMade-join pgdir old mid new low high d p (inr made) = inr made
IsMade-join pgdir old mid new low high d (inl e) (inl f) = inl (f ∙ e)
IsMade-join pgdir old mid new low high d (inr (from, upto, j, e)) (inl f) =
    inr (from, upto, j, f ∙ e)

pub IsMade-wider :
    (pgdir : ℕ) (old new : ℕ → ℕ) (low high low' high' d : ℕ)
    → low' ≤ low
    → high ≤ high'
    → IsMade pgdir old new low high d
    → IsMade pgdir old new low' high' d
IsMade-wider pgdir old new low high low' high' d l h (inl e) = inl e
IsMade-wider pgdir old new low high low' high' d l h (inr (from, upto, j, e)) =
    inr (omega arith, omega arith, j, e)

-- An address in the reach of entry `d`
dir_of_lem : (d : ℕ) → d < 1024 → dir_of (d * 4194304) ≡ d
dir_of_lem d h = omega arith

extended-IsMade :
    {n pgdir : ℕ} {mem : ℕ → ℕ} (v : IsSpace n pgdir mem) (va k : ℕ) (o : OutsideUvpt va)
    (absent : (pde_at pgdir mem va % 2 == 0) ≡ true) (f : IsSpare n pgdir mem k) (d : ℕ)
    → d < 1024
    → IsMade pgdir mem (extended pgdir mem va k) (dir_of va) (dir_of va) d
extended-IsMade {n} {pgdir} {mem} v va k o absent f d lt =
    let e : (extended pgdir mem va k) (dir_index pgdir d)
        ≡ (if dir_of va == d then fresh_entry k else mem (dir_index pgdir d)) =
      rw (dir_of_lem d lt) at (pde_at-extended v va k o absent f (d * 4194304)) in
    elim (Bool-cases (dir_of va == d)) [
      | inl same ↦ inr (ground (arith, same), ground (arith, same), k, e ∙ rw same refl)
      | inr other ↦ inl (e ∙ rw other refl)
    ]

-- A walk with `create` to `va` has led to an entry in the state `t`, where `ys` is the free list.
pub record Walked (s : Kernel) (pgdir va : ℕ) (xs : List ℕ) : Type 0 where
  pub t : Kernel
  pub ys : List ℕ
  pub run : pgdir_walk pgdir va 1 s ≡ ok (some (pte_slot (table_kva (pde_at pgdir t.mem va)) va)) t
  pub npages : t.npages ≡ s.npages
  pub vars : SameVars s t
  pub space : IsSpace t.npages pgdir t.mem
  pub present : Present pgdir t.mem va
  pub list : FreeList t ys
  pub spare : AllSpare t.npages pgdir t.mem ys
  pub used : length xs ≡ length ys + (if pde_at pgdir s.mem va % 2 == 0 then 1 else 0)
  pub others : (va' : ℕ) → OutsideUvpt va' → translate pgdir t.mem va' ≡ translate pgdir s.mem va'
  pub dirs : (d : ℕ) → d < 1024 → IsMade pgdir s.mem t.mem (dir_of va) (dir_of va) d

pub walk-Walked :
    (s : Kernel) (pgdir va : ℕ) (xs : List ℕ)
    → IsSpace s.npages pgdir s.mem
    → OutsideUvpt va
    → FreeList s xs
    → AllSpare s.npages pgdir s.mem xs
    → (if pde_at pgdir s.mem va % 2 == 0 then 1 else 0) ≤ length xs
    → Walked s pgdir va xs
walk-Walked s pgdir va xs v o list spare enough =
    elim (Bool-cases (pde_at pgdir s.mem va % 2 == 0)) [
      | inr present ↦ record {
        t = s;
        ys = xs;
        run = walk-present s pgdir va v.dir 1 present (v.tables va o present);
        npages = refl;
        vars = (refl, refl, refl, refl);
        space = v;
        present = present;
        list = list;
        spare = spare;
        used = rw present (omega arith);
        others = λ va' o'. refl;
        dirs = λ d lt. inl refl;
      }
      | inl absent ↦ fresh xs list spare (rw absent at enough) absent
    ]
  where
    fresh :
        (zs : List ℕ)
        → FreeList s zs
        → AllSpare s.npages pgdir s.mem zs
        → 1 ≤ length zs
        → (pde_at pgdir s.mem va % 2 == 0) ≡ true
        → Walked s pgdir va zs
    fresh [] list spare enough absent = absurd (omega (arith, enough))
    fresh (k ∷ rest) list spare enough absent =
        let (run, chain) = walk-fresh s pgdir va v.dir 0 k rest absent list in
        let pde : pde_at pgdir (grown s pgdir va k).mem va ≡ fresh_entry k =
          pde_at-extended v va k o absent spare.0 va ∙ ground arith in
        record {
          t = grown s pgdir va k;
          ys = rest;
          run =
              run
              ∙ ap (λ a. ok (some (pte_slot a va)) (grown s pgdir va k)) {x = k * 4096 + kernbase}
                  {y = table_kva (pde_at pgdir (grown s pgdir va k).mem va)} (rw pde (omega arith));
          npages = refl;
          vars = (refl, refl, refl, refl);
          space = extended-IsSpace v va k o absent spare.0;
          present = rw pde (ground arith);
          list = chain;
          spare = AllSpare-extended v va k o absent spare.0 rest list.3 spare.1;
          used = rw absent (omega arith);
          others = λ va' o'. translate-extended v va k o absent spare.0 va' o';
          dirs = λ d lt. extended-IsMade v va k o absent spare.0 d lt;
        }

-- The page tables that the region still wants at `w`: those of the directory entries behind, and
-- its own if that is missing.
abbrev pub wanted : ℕ → (ℕ → ℕ) → ℕ → ℕ → ℕ
wanted pgdir mem w top =
    (top - 1) / 4194304 - w / 4194304 + (if pde_at pgdir mem w % 2 == 0 then 1 else 0)

-- One round.
module _ {s : Kernel} {pgdir w : ℕ} {xs : List ℕ} (o : OutsideUvpt w) (k : Walked s pgdir w xs)
    (e : ℕ) where
  abbrev pub stored : Kernel
  stored = record k.t { mem = written pgdir k.t.mem w e }

  pub store_entry-ok :
      store_entry (some (pte_slot (table_kva (pde_at pgdir k.t.mem w)) w)) e k.t ≡ ok tt stored
  store_entry-ok = store-pte k.t w e (k.space.tables w o k.present)

  pub stored-IsSpace : IsSpace k.t.npages pgdir stored.mem
  stored-IsSpace = written-IsSpace k.space w e o k.present

  pub stored-AllSpare : AllSpare k.t.npages pgdir stored.mem k.ys
  stored-AllSpare = AllSpare-written k.space w e o k.present k.ys k.spare

  pub stored-here : (e % 2 == 0) ≡ false → translate pgdir stored.mem w ≡ some e
  stored-here odd = translate-written k.space w e o k.present ∙ rw odd refl

  pub stored-others :
      (va' : ℕ)
      → OutsideUvpt va'
      → va' / 4096 ≢ w / 4096
      → translate pgdir stored.mem va' ≡ translate pgdir s.mem va'
  stored-others va' o' ne = translate-written_ne k.space w e o k.present va' o' ne ∙ k.others va' o'

  pub stored-dirs : (d : ℕ) → d < 1024 → IsMade pgdir s.mem stored.mem (dir_of w) (dir_of w) d
  stored-dirs d lt =
      let e : stored.mem (dir_index pgdir d) ≡ k.t.mem (dir_index pgdir d) =
        rw (dir_of_lem d lt) at (pde_at-written k.space w e o k.present (d * 4194304)) in
      IsMade-join pgdir s.mem k.t.mem stored.mem (dir_of w) (dir_of w) d (k.dirs d lt) (inl e)

  -- What is wanted for the next page, and a table that was new, were wanted.
  pub stored-wanted :
      (top : ℕ)
      → top ≤ 2 ^ 32
      → w + 4096 < top
      → wanted pgdir stored.mem (w + 4096) top + (if pde_at pgdir s.mem w % 2 == 0 then 1 else 0)
        ≤ wanted pgdir s.mem w top
  stored-wanted top fits more = elim (Bool-cases (dir_of (w + 4096) == dir_of w)) [
    | inl same ↦
        let d : dir_of (w + 4096) ≡ dir_of w = (==_iff (dir_of (w + 4096)) (dir_of w)).0 same in
        let pde : pde_at pgdir stored.mem (w + 4096) ≡ pde_at pgdir k.t.mem w =
          pde_at-written k.space w e o k.present (w + 4096)
          ∙ ap (λ i. k.t.mem (dir_index pgdir i)) d in
        let there : (pde_at pgdir stored.mem (w + 4096) % 2 == 0) ≡ false = rw pde k.present in
        rw there (omega (arith, d, fits, more))
    | inr other ↦
        let d : dir_of (w + 4096) ≢ dir_of w =
          λ same. cc (eq→== (dir_of (w + 4096)) (dir_of w) same, other) in
        one_more top (pde_at pgdir stored.mem (w + 4096) % 2 == 0)
          (if pde_at pgdir s.mem w % 2 == 0 then 1 else 0) fits more d
  ]
    where
      one_more :
          (top : ℕ) (b : Bool) (new : ℕ)
          → top ≤ 2 ^ 32
          → w + 4096 < top
          → dir_of (w + 4096) ≢ dir_of w
          → (top - 1) / 4194304 - (w + 4096) / 4194304 + (if b then 1 else 0) + new
            ≤ (top - 1) / 4194304 - w / 4194304 + new
      one_more top true new fits more d = omega (arith, fits, more, d)
      one_more top false new fits more d = omega (arith, fits, more, d)
