-- ===== src/Debug/Tests.antt =====
-- A table of eight stabs, with one file, two functions and two lines.
use os.Base.{
  ℕ, zero, suc, ◌+◌, ◌<◌, ◌≡◌, ◌⊎◌, refl, inl, inr, List, [], ◌∷◌, ◌==◌, if◌then◌else◌, arith,
}
use os.Base.Int.{pos, prev, ◌+ℤ◌, ◌-ℤ◌, half}
use os.Strings.{Memory}
use os.Strings.Scan.{IsString}
use os.Debug.{
  Stab, Table, done, Region, stab_at, scan_back, narrow, search_round, search_loop, settle,
  stab_binsearch, n_fun, n_sline, n_so, n_psym,
}
use os.Debug.Scan.{IsOf}
use os.Debug.Bracket.{IsSorted}
use os.Debug.Found.{region, Holds, IsFound, stab_binsearch-IsFound}
use os.Debug.Eip.{Symbols, found, debuginfo_eip}
use os.Debug.Answer.{IsAt, fn_info, debuginfo_eip_lem}

abbrev stab : ℕ → ℕ → ℕ → ℕ → Stab
stab strx type desc value = record {
  n_strx = strx;
  n_type = type;
  n_other = 0;
  n_desc = desc;
  n_value = value;
}

abbrev get_or : List Stab → ℕ → Stab
get_or [] i = stab 0 0 0 0
get_or (s ∷ r) zero = s
get_or (s ∷ r) (suc i) = get_or r i

abbrev table : Table
table = record {
  count = 8;
  stabs = get_or (
      stab 0 0 0 0
      ∷ stab 1 n_so 0 0xf010_0000
      ∷ stab 3 n_fun 0 0xf010_0040
      ∷ stab 0 n_psym 0 8
      ∷ stab 0 n_sline 10 0
      ∷ stab 0 n_sline 11 8
      ∷ stab 3 n_fun 0 0xf010_0080
      ∷ stab 0 n_sline 20 0
      ∷ []);
}

file_at : (i : ℕ) → IsOf table n_so i → ((i ≡ 1) × ((table.stabs i).n_value ≡ 0xf010_0000))
file_at zero e = absurd (omega arith)
file_at (suc zero) e = (refl, refl)
file_at (suc (suc zero)) e = absurd (omega arith)
file_at (suc (suc (suc zero))) e = absurd (omega arith)
file_at (suc (suc (suc (suc zero)))) e = absurd (omega arith)
file_at (suc (suc (suc (suc (suc zero))))) e = absurd (omega arith)
file_at (suc (suc (suc (suc (suc (suc zero)))))) e = absurd (omega arith)
file_at (suc (suc (suc (suc (suc (suc (suc zero))))))) e = absurd (omega arith)
file_at (suc (suc (suc (suc (suc (suc (suc (suc j)))))))) e = absurd (omega arith)

function_at :
    (i : ℕ)
    → IsOf table n_fun i
    → ((i ≡ 2) × ((table.stabs i).n_value ≡ 0xf010_0040))
      ⊎ ((i ≡ 6) × ((table.stabs i).n_value ≡ 0xf010_0080))
function_at zero e = absurd (omega arith)
function_at (suc zero) e = absurd (omega arith)
function_at (suc (suc zero)) e = inl (refl, refl)
function_at (suc (suc (suc zero))) e = absurd (omega arith)
function_at (suc (suc (suc (suc zero)))) e = absurd (omega arith)
function_at (suc (suc (suc (suc (suc zero))))) e = absurd (omega arith)
function_at (suc (suc (suc (suc (suc (suc zero)))))) e = inr (refl, refl)
function_at (suc (suc (suc (suc (suc (suc (suc zero))))))) e = absurd (omega arith)
function_at (suc (suc (suc (suc (suc (suc (suc (suc j)))))))) e = absurd (omega arith)

line_at :
    (i : ℕ)
    → IsOf table n_sline i
    → i < 6
    → ((i ≡ 4) × ((table.stabs i).n_value ≡ 0)) ⊎ ((i ≡ 5) × ((table.stabs i).n_value ≡ 8))
line_at zero e lt = absurd (omega arith)
line_at (suc zero) e lt = absurd (omega arith)
line_at (suc (suc zero)) e lt = absurd (omega arith)
line_at (suc (suc (suc zero))) e lt = absurd (omega arith)
line_at (suc (suc (suc (suc zero)))) e lt = inl (refl, refl)
line_at (suc (suc (suc (suc (suc zero))))) e lt = inr (refl, refl)
line_at (suc (suc (suc (suc (suc (suc zero)))))) e lt = absurd (omega arith)
line_at (suc (suc (suc (suc (suc (suc (suc zero))))))) e lt = absurd (omega arith)
line_at (suc (suc (suc (suc (suc (suc (suc (suc j)))))))) e lt = absurd (omega arith)

files : IsSorted table n_so 0 8 0xf010_0048
files = record {
  order = omega arith;
  inside = omega arith;
  sorted = λ i j from le upto a b. ground (arith, file_at i a, file_at j b, le);
  apart = λ i j from upto from' upto' a b same later.
      ground (arith, file_at i a, file_at j b, same, later);
  small = omega arith;
}

functions : IsSorted table n_fun 1 8 0xf010_0048
functions = record {
  order = omega arith;
  inside = omega arith;
  sorted = λ i j from le upto a b. ground (arith, function_at i a, function_at j b, le);
  apart = λ i j from upto from' upto' a b same later.
      ground (arith, function_at i a, function_at j b, same, later);
  small = omega arith;
}

lines : IsSorted table n_sline 2 6 8
lines = record {
  order = omega arith;
  inside = omega arith;
  sorted = λ i j from le upto a b.
      ground (arith, line_at i a (omega (arith, le, upto)), line_at j b (omega (arith, upto)), le);
  apart = λ i j from upto from' upto' a b same later.
      ground
        (arith, line_at i a (omega (arith, upto)), line_at j b (omega (arith, upto')), same, later);
  small = omega arith;
}

file_holds : Holds table n_so 0 8 0xf010_0048 1 8
file_holds = record {
  from = omega arith;
  before = omega arith;
  upto = omega arith;
  of_type = refl;
  low = omega arith;
  between = λ j after before e. ground (arith, file_at j e, after, before);
  next = inl refl;
}

function_holds : Holds table n_fun 1 8 0xf010_0048 2 6
function_holds = record {
  from = omega arith;
  before = omega arith;
  upto = omega arith;
  of_type = refl;
  low = omega arith;
  between = λ j after before e. ground (arith, function_at j e, after, before);
  next = inr (omega arith, refl, omega arith);
}

line_holds : Holds table n_sline 2 6 8 5 6
line_holds = record {
  from = omega arith;
  before = omega arith;
  upto = omega arith;
  of_type = refl;
  low = omega arith;
  between = λ j after before e. ground (arith, line_at j e (omega (arith, before)), after, before);
  next = inl refl;
}

-- The string table "\0f\0g:F\0" at 100, and "<unknown>" elsewhere.
abbrev memory : Memory
memory j =
    if j == 101
    then 102
    else if j == 103
    then 103
    else if j == 104
    then 58
    else if j == 105
    then 70
    else 0

abbrev pub symbols : Symbols
symbols = record { table = table; stabstr = 100; stabstr_end = 107; unknown = 200; memory = memory }

pub located : IsAt symbols 0xf010_0048 1 8 2 6 5 6
located = record {
  kernel = omega arith;
  strings = (omega arith, refl);
  files = files;
  file = file_holds;
  not_first = omega arith;
  functions = functions;
  function = function_holds;
  lines = lines;
  line = line_holds;
}

pub name-IsString : IsString memory 103 3
name-IsString = ground arith

debuginfo_eip_lem_example :
    debuginfo_eip symbols 0xf010_0048 ≡ done (found (fn_info symbols 1 2 6 5 3))
debuginfo_eip_lem_example =
    debuginfo_eip_lem symbols 0xf010_0048 1 8 2 6 5 6 located 3 name-IsString (omega arith)

-- Line 11 of file "f", function "g", with one parameter
answered : fn_info symbols 1 2 6 5 3 ≡ record {
  eip_file = 101;
  eip_line = 11;
  eip_fn_name = 103;
  eip_fn_namelen = 1;
  eip_fn_addr = 0xf010_0040;
  eip_fn_narg = 1;
}
answered = refl

stab_binsearch-IsFound_example :
    (r : Region) × (stab_binsearch table (region (pos 2) (prev 6)) n_sline 8 ≡ done r)
    × IsFound table n_sline 2 6 8 r
stab_binsearch-IsFound_example = stab_binsearch-IsFound lines

-- A table whose first stab is a file
abbrev short_table : Table
short_table = record { count = 1; stabs = λ i. stab 1 n_so 0 0xf010_0000 }

abbrev short_symbols : Symbols
short_symbols = record {
  table = short_table;
  stabstr = 100;
  stabstr_end = 107;
  unknown = 200;
  memory = memory;
}

short-IsSorted : IsSorted short_table n_so 0 1 0xf00f_0000
short-IsSorted = record {
  order = omega arith;
  inside = omega arith;
  sorted = λ i j from le upto a b. omega arith;
  apart = λ i j from upto from' upto' a b same later. absurd (omega (arith, same));
  small = omega arith;
}

-- A search for the address 7, at which a line starts, finds the line at 8 instead.
abbrev close_lines : Table
close_lines = record { count = 2; stabs = λ i. stab 0 n_sline i (7 + i) }

overshot :
    stab_binsearch close_lines (region (pos 0) (pos 1)) n_sline 7 ≡ done (region (pos 1) (pos 1))
unfolding stab_binsearch search_loop search_round scan_back narrow settle stab_at half ◌+ℤ◌ ◌-ℤ◌
overshot = refl
