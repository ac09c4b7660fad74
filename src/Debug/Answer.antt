-- ===== src/Debug/Answer.antt =====
-- What `debuginfo_eip` answers.
use os.Base.{
  ℕ, suc, ◌+◌, ◌-◌, ◌≤◌, ◌<◌, ◌^◌, ◌≡◌, refl, true, false, not, ◌||◌, leb, ◌==◌, sub32, arith, ap,
  ◌∙◌, lt→ltb,
}
use os.Base.Int.{pos, ◌+ℤ◌, ◌-ℤ◌, prev, prev-sub, leb-prev, leb_ℤ}
use os.Mmu.{ulim}
use os.Strings.Scan.{IsString, find, or_end, strchr-strfind}
use os.Debug.{done, ◌>>=◌, stab_binsearch, n_fun, n_sline, n_so}
use os.Debug.Scan.{stab_at_lem}
use os.Debug.Bracket.{IsSorted}
use os.Debug.Found.{region, Holds, stab_binsearch-Holds}
use os.Debug.Eip.{
  Info, found, Symbols, unknown_info, name_or, name_length, file_loop, arg_loop, finish_info,
  find_line, debuginfo_eip,
}
use os.Debug.Loops.{last_file, parameters, file_loop_lem, args_lem, strings_good}

-- The function `g` of file `f` has the address, and the line `i` of `g` has the offset.
pub record IsAt (y : Symbols) (addr f kf g kg i ki : ℕ) : Type 0 where
  pub kernel : ulim ≤ addr
  pub strings : (y.stabstr < y.stabstr_end) × (y.memory (y.stabstr_end - 1) ≡ 0)
  pub files : IsSorted y.table n_so 0 y.table.count addr
  pub file : Holds y.table n_so 0 y.table.count addr f kf
  pub not_first : 0 < f
  pub functions : IsSorted y.table n_fun f kf addr
  pub function : Holds y.table n_fun f kf addr g kg
  pub lines : IsSorted y.table n_sline g kg (sub32 addr (y.table.stabs g).n_value)
  pub line : Holds y.table n_sline g kg (sub32 addr (y.table.stabs g).n_value) i ki

abbrev pub fn_name : Symbols → ℕ → ℕ
fn_name y g = name_or y (y.table.stabs g).n_strx y.unknown

abbrev pub fn_info : Symbols → ℕ → ℕ → ℕ → ℕ → ℕ → Info
fn_info y f g kg i n = record {
  eip_file = last_file y f (i + 1);
  eip_line = (y.table.stabs i).n_desc;
  eip_fn_name = fn_name y g;
  eip_fn_namelen =
      sub32 (or_end (find y.memory (fn_name y g) 58 n) (fn_name y g + n)) (fn_name y g);
  eip_fn_addr = (y.table.stabs g).n_value;
  eip_fn_narg = parameters y.table (g + 1) (kg - g - 2);
}

module _ (y : Symbols) (addr f kf g kg i ki : ℕ) (v : IsAt y addr f kf g kg i ki) (n : ℕ)
    (name : IsString y.memory (fn_name y g) n) (short : n < 2 ^ 32) where
  finish_info_lem :
      (info : Info)
      → finish_info y
          (region (pos f) (prev kf))
          (region (pos g) (prev kg))
          (region (pos i) (prev ki))
          info
        ≡ done (
            found (record info {
              eip_line = (y.table.stabs i).n_desc;
              eip_file = last_file y f (i + 1);
              eip_fn_narg = parameters y.table (g + 1) (kg - g - 2);
            }))
  unfolding finish_info
  finish_info_lem info =
      let inside : i < y.table.count =
        omega (arith, v.line.before, v.line.upto, v.function.upto, v.file.upto) in
      let test : leb_ℤ (pos i) (prev ki) ≡ true = leb-prev i ki ∙ lt→ltb i ki v.line.before in
      let (at, looped, named) =
        file_loop_lem y (y.table.count + 2) f (i + 1) (omega (arith, inside))
          (omega (arith, inside)) in
      let loop : file_loop y.table (y.table.count + 2) (pos f) (pos i) ≡ done at =
        ap (file_loop y.table (y.table.count + 2) (pos f)) {x = pos i} {y = prev (i + 1)}
          (ground arith)
        ∙ looped in
      let args : arg_loop y.table (y.table.count + 2) (pos g +ℤ pos 1) (prev kg) 0
          ≡ done (parameters y.table (g + 1) (kg - g - 2)) =
        ap (λ h. arg_loop y.table h (pos g +ℤ pos 1) (prev kg) 0) {x = y.table.count + 2}
          {y = suc (y.table.count + 1)} (omega arith)
        ∙ args_lem y.table g kg (y.table.count + 1) v.function.before
            (omega (arith, v.function.upto, v.file.upto))
            (omega (arith, v.function.upto, v.file.upto)) in
      rw
        (
          finish_info,
          test,
          stab_at_lem y.table i inside,
          ◌>>=◌,
          loop,
          ◌>>=◌,
          named,
          ◌>>=◌,
          args,
          ◌>>=◌,
        )
        refl

  name_length_lem :
      name_length y (fn_name y g)
      ≡ done (sub32 (or_end (find y.memory (fn_name y g) 58 n) (fn_name y g + n)) (fn_name y g))
  unfolding name_length
  name_length_lem = rw (name_length, (strchr-strfind y.memory (fn_name y g) n 58 name short).1) refl

  find_line_lem :
      find_line y (region (pos f) (prev kf)) (region (pos g) (prev kg)) addr (unknown_info y addr)
      ≡ done (found (fn_info y f g kg i n))
  unfolding find_line
  find_line_lem =
      let inside : g < y.table.count =
        omega (arith, v.function.before, v.function.upto, v.file.upto) in
      let test : leb_ℤ (pos g) (prev kg) ≡ true = leb-prev g kg ∙ lt→ltb g kg v.function.before in
      rw
        (
          find_line,
          test,
          stab_at_lem y.table g inside,
          ◌>>=◌,
          name_length_lem,
          ◌>>=◌,
          stab_binsearch-Holds v.lines i ki v.line,
          ◌>>=◌,
        )
        (finish_info_lem _)

  -- For an address above ULIM, where the search finds a file `f` that is not the first stab, in it
  -- a function `g` with a name that ends in a zero byte, and in that a line `i`, `debuginfo_eip`
  -- answers with the line of `i`, the address and the name of `g`, the length of the name up to a
  -- colon, the number of parameters behind `g`, and the last file named from `f` up to `i`.
  pub debuginfo_eip_lem : debuginfo_eip y addr ≡ done (found (fn_info y f g kg i n))
  unfolding debuginfo_eip
  debuginfo_eip_lem =
      let in_kernel : leb ulim addr ≡ true = ground (arith, v.kernel) in
      let good : (leb y.stabstr_end y.stabstr || not (y.memory (y.stabstr_end - 1) == 0)) ≡ false =
        strings_good (y.stabstr) (y.stabstr_end) (y.memory (y.stabstr_end - 1)) (v.strings.0)
          (v.strings.1) in
      let files : stab_binsearch y.table
            (record { left = pos 0; right = pos y.table.count -ℤ pos 1 }) n_so addr
          ≡ done (region (pos f) (prev kf)) =
        ap (λ r. stab_binsearch y.table (region (pos 0) r) n_so addr) (prev-sub y.table.count)
        ∙ stab_binsearch-Holds v.files f kf v.file in
      let inner : (f == 0) ≡ false = ground (arith, v.not_first) in
      rw
        (
          debuginfo_eip,
          in_kernel,
          good,
          files,
          ◌>>=◌,
          inner,
          stab_binsearch-Holds v.functions g kg v.function,
          ◌>>=◌,
        )
        find_line_lem
