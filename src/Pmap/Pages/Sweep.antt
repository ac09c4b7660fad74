-- ===== src/Pmap/Pages/Sweep.antt =====
-- The second loop of `page_init`, round by round.
use os.Base.{
  ℕ, suc, ◌-◌, ◌*◌, ◌^◌, ◌<◌, ◌≤◌, ◌≡◌, refl, ◌≢◌, inl, inr, Bool, true, false, ◌||◌, ◌&&◌, Option,
  none, some, ltb, leb, ◌==◌, arith, fun_ext, ap, ◌∙◌, Bool-cases,
}
use os.Mmu.{kernbase, iophysmem}
use os.Pmap.State.{PageInfo, Kernel, ok, update, page2pa}
use os.Pmap.State.Rules.{page_at-ok, set_link-ok, set_ref-ok, page2pa_lem, paddr-ok}
use os.Pmap.Boot.{boot_alloc}
use os.Pmap.Boot.Claim.{next_addr, boot_alloc-zero}
use os.Pmap.Pages.{Slot, head, link_of, read_slot, write_slot, in_hole, unlink, sweep}

abbrev pub slot_value : Slot → Kernel → Option ℕ
slot_value head s = s.page_free_list
slot_value (link_of j) s = (s.pages j).pp_link

abbrev pub put_head : Slot → Option ℕ → Option ℕ → Option ℕ
put_head head l first = l
put_head (link_of j) l first = first

abbrev pub put_link : Slot → Option ℕ → (ℕ → PageInfo) → ℕ → PageInfo
put_link head l pages = pages
put_link (link_of j) l pages = update pages j (record { pp_link = l; pp_ref = (pages j).pp_ref })

abbrev pub put : Slot → Option ℕ → Kernel → Kernel
put slot l s = record s {
  page_free_list = put_head slot l s.page_free_list;
  pages = put_link slot l s.pages;
}

-- The slot is a variable of the kernel that holds no page below `i`.
abbrev pub IsAbove : ℕ → ℕ → Slot → Type 0
IsAbove n i head = Unit {0}
IsAbove n i (link_of j) = (i ≤ j) × (j < n)

-- The pages that `page_init` takes off the list, where `next` is the first address that
-- `boot_alloc` has not handed out.
abbrev pub hole : ℕ → ℕ → Bool
hole next i = leb iophysmem (i * 4096) && ltb (i * 4096) (next - kernbase)

abbrev pub reserved : ℕ → ℕ → Bool
reserved next i = hole next i || i == 0

abbrev pub dropped : Slot → ℕ → Kernel → Kernel
dropped slot i s =
    put slot (s.pages i).pp_link
      (record s { pages = update s.pages i (record { pp_link = none; pp_ref = 1 }) })

-- Memory is small enough for `page2pa`, and `boot_alloc` has run.
pub record IsBooted (s : Kernel) : Type 0 where
  pub small : s.npages ≤ 2 ^ 20
  pub started : s.nextfree ≢ 0
  pub above : kernbase ≤ s.nextfree
  pub below : s.nextfree < 2 ^ 32

next_addr-booted : (s : Kernel) → s.nextfree ≢ 0 → next_addr s ≡ s.nextfree
unfolding next_addr
next_addr-booted s h = ground arith

boot_alloc-peek : (s : Kernel) → s.nextfree ≢ 0 → boot_alloc 0 s ≡ ok s.nextfree s
boot_alloc-peek s h =
    boot_alloc-zero s ∙ ap (λ n. ok n (record s { nextfree = n })) (next_addr-booted s h)

in_hole-ok :
    (s : Kernel) (i : ℕ) → IsBooted s → i < s.npages → in_hole i s ≡ ok (hole s.nextfree i) s
unfolding in_hole
in_hole-ok s i v inside = elim (Bool-cases (leb iophysmem (i * 4096))) [
  | inl high ↦
      rw
        (
          page2pa_lem i (omega (arith, v.small)),
          high,
          boot_alloc-peek s v.started,
          paddr-ok s.nextfree s v.above,
        )
        (ground arith)
  | inr low ↦ rw (page2pa_lem i (omega (arith, v.small)), low)
]

read_slot-ok :
    (s : Kernel) (i : ℕ) (slot : Slot)
    → IsAbove s.npages i slot
    → read_slot slot s ≡ ok (slot_value slot s) s
unfolding read_slot
read_slot-ok s i head a = refl
read_slot-ok s i (link_of j) a = rw (page_at-ok s j a.1)

write_slot-ok :
    (s : Kernel) (i : ℕ) (slot : Slot) (l : Option ℕ)
    → IsAbove s.npages i slot
    → write_slot slot l s ≡ ok tt (put slot l s)
unfolding write_slot
write_slot-ok s i head l a = refl
write_slot-ok s i (link_of j) l a = set_link-ok s j a.1 l

abbrev claimed : ℕ → ℕ → Kernel → Kernel
claimed i r s = record s {
  pages = update s.pages i (record { pp_link = (s.pages i).pp_link; pp_ref = r });
}

twice_claimed :
    (slot : Slot) (s : Kernel) (i : ℕ) (l : Option ℕ)
    → put slot l (record (claimed i 1 s) {
      pages =
          update
            (claimed i 1 s).pages
            i
            (record { pp_link = none; pp_ref = ((claimed i 1 s).pages i).pp_ref });
    })
      ≡ put slot l (record s { pages = update s.pages i (record { pp_link = none; pp_ref = 1 }) })
twice_claimed slot s i l = ap (λ p. put slot l (record s { pages = p })) (fun_ext λ j. ground arith)

-- Page `i` after both writes.
abbrev blanked : ℕ → Kernel → Kernel
blanked i s = record (claimed i 1 s) {
  pages =
      update (claimed i 1 s).pages i
        (record { pp_link = none; pp_ref = ((claimed i 1 s).pages i).pp_ref });
}

unlink-ok :
    (s : Kernel) (i : ℕ) (slot : Slot)
    → i < s.npages
    → IsAbove s.npages (suc i) slot
    → unlink slot i s ≡ ok tt (dropped slot i s)
unfolding unlink
unlink-ok s i slot inside a =
    let link : ((claimed i 1 s).pages i).pp_link ≡ (s.pages i).pp_link = ground arith in
    rw
      (
        set_ref-ok s i inside 1,
        page_at-ok (claimed i 1 s) i inside,
        set_link-ok (claimed i 1 s) i inside none,
        write_slot-ok (blanked i s) (suc i) slot ((claimed i 1 s).pages i).pp_link a,
      )
      (ap (ok tt)
        (ap (λ l. put slot l (blanked i s)) link ∙ twice_claimed slot s i (s.pages i).pp_link))

zero_page : (i : ℕ) → i < 2 ^ 20 → (page2pa i == 0) ≡ (i == 0)
zero_page i h = ground (arith, page2pa_lem i h)

pub sweep-end :
    (s : Kernel) (fuel i : ℕ) (slot : Slot)
    → IsAbove s.npages i slot
    → slot_value slot s ≡ none
    → sweep (suc fuel) slot s ≡ ok tt s
unfolding sweep
sweep-end s fuel i slot a e = rw (read_slot-ok s i slot a) (rw e)

module _ (s : Kernel) (fuel i : ℕ) (slot : Slot) (v : IsBooted s)
    (a : IsAbove s.npages (suc i) slot) where
  module _ (here : slot_value slot s ≡ some i) (inside : i < s.npages) where
    pub sweep-drop :
        reserved s.nextfree i ≡ true → sweep (suc fuel) slot s ≡ sweep fuel slot (dropped slot i s)
    unfolding sweep
    sweep-drop r = elim (Bool-cases (hole s.nextfree i)) [
      | inl hit ↦ rw (
        read_slot-ok s (suc i) slot a,
        here,
        in_hole-ok s i v inside,
        hit,
        unlink-ok s i slot inside a,
      )
      | inr miss ↦
          let e : (page2pa i == 0) ≡ true = ground (arith, zero_page i (omega (arith, v.small))) in
          rw (
            read_slot-ok s (suc i) slot a,
            here,
            in_hole-ok s i v inside,
            miss,
            e,
            unlink-ok s i slot inside a,
          )
    ]

    pub sweep-keep :
        reserved s.nextfree i ≡ false → sweep (suc fuel) slot s ≡ sweep fuel (link_of i) s
    unfolding sweep
    sweep-keep r =
        let miss : hole s.nextfree i ≡ false = ground arith in
        let e : (page2pa i == 0) ≡ false = ground (arith, zero_page i (omega (arith, v.small))) in
        rw (read_slot-ok s (suc i) slot a, here, in_hole-ok s i v inside, miss, e)
