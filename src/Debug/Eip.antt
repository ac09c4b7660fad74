-- ===== src/Debug/Eip.antt =====
-- `debuginfo_eip` of kern/kdebug.c. The string table is in the memory of lib/string.c.
use os.Base.{
  ℕ, zero, suc, ◌+◌, ◌-◌, Bool, true, false, not, ◌&&◌, ◌||◌, none, some, ltb, leb, ◌==◌,
  if◌then◌else◌, add32, sub32,
}
use os.Base.Int.{ℤ, pos, negsuc, ◌+ℤ◌, ◌-ℤ◌, ltb_ℤ, leb_ℤ}
use os.Mmu.{ulim}
use os.Strings.{Memory, strfind}
use os.Debug.{
  Table, Run, done, out_of_fuel, panicked, ◌>>=◌, stab_at, Region, stab_binsearch, n_fun, n_sline,
  n_so, n_sol, n_psym,
}

-- `struct Eipdebuginfo`
pub record Info : Type 0 where
  pub eip_file : ℕ
  pub eip_line : ℕ
  pub eip_fn_name : ℕ
  pub eip_fn_namelen : ℕ
  pub eip_fn_addr : ℕ
  pub eip_fn_narg : ℕ

-- The return values 0 and -1, with what is stored in `*info`.
pub data Answer : Type 0 where
  found missing : Info → Answer

-- What the linker sets: the table, the string table, and the literal "<unknown>".
pub record Symbols : Type 0 where
  pub table : Table
  pub stabstr : ℕ
  pub stabstr_end : ℕ
  pub unknown : ℕ
  pub memory : Memory

abbrev pub unknown_info : Symbols → ℕ → Info
unknown_info y addr = record {
  eip_file = y.unknown;
  eip_line = 0;
  eip_fn_name = y.unknown;
  eip_fn_namelen = 9;
  eip_fn_addr = addr;
  eip_fn_narg = 0;
}

-- `stabstr + strx` where that is in the string table
abbrev pub name_or : Symbols → ℕ → ℕ → ℕ
name_or y strx other =
    if ltb strx (sub32 y.stabstr_end y.stabstr) then add32 y.stabstr strx else other

-- The name up to the colon.
unfoldable pub name_length : Symbols → ℕ → Run ℕ
name_length y name = elim (strfind y.memory name 58) [
  | none ↦ out_of_fuel
  | some end ↦ done (sub32 end name)
]

-- The loop that goes back to the stab of the file.
unfoldable pub file_loop : Table → ℕ → ℤ → ℤ → Run ℤ
file_loop t zero lfile lline = out_of_fuel
file_loop t (suc fuel) lfile lline = elim (leb_ℤ lfile lline) [
  | false ↦ done lline
  | true ↦ stab_at t lline >>= λ s.
      elim (not (s.n_type == n_sol) && (not (s.n_type == n_so) || s.n_value == 0)) [
        | true ↦ file_loop t fuel lfile (lline -ℤ pos 1)
        | false ↦ done lline
      ]
]

unfoldable pub file_name : Symbols → ℤ → ℤ → Run ℕ
file_name y lfile lline = elim (leb_ℤ lfile lline) [
  | false ↦ done y.unknown
  | true ↦ stab_at y.table lline >>= λ s. done (name_or y s.n_strx y.unknown)
]

-- The loop that counts the parameters.
unfoldable pub arg_loop : Table → ℕ → ℤ → ℤ → ℕ → Run ℕ
arg_loop t zero lline rfun narg = out_of_fuel
arg_loop t (suc fuel) lline rfun narg = elim (ltb_ℤ lline rfun) [
  | false ↦ done narg
  | true ↦ stab_at t lline >>= λ s. elim (s.n_type == n_psym) [
    | true ↦ arg_loop t fuel (lline +ℤ pos 1) rfun (narg + 1)
    | false ↦ done narg
  ]
]

-- From the line on: the file and the parameters.
unfoldable pub finish_info : Symbols → Region → Region → Region → Info → Run Answer
finish_info y file fun line info = elim (leb_ℤ line.left line.right) [
  | false ↦ done (missing info)
  | true ↦ stab_at y.table line.left >>= λ s.
      file_loop y.table (y.table.count + 2) file.left line.left >>= λ at.
      file_name y file.left at >>= λ name.
      arg_loop y.table (y.table.count + 2) (fun.left +ℤ pos 1) fun.right 0 >>= λ narg.
      done (found (record info { eip_line = s.n_desc; eip_file = name; eip_fn_narg = narg }))
]

-- From the function on, for the address `addr`.
unfoldable pub find_line : Symbols → Region → Region → ℕ → Info → Run Answer
find_line y file fun addr info = elim (leb_ℤ fun.left fun.right) [
  | true ↦ stab_at y.table fun.left >>= λ s.
      let name = name_or y s.n_strx info.eip_fn_name in
      name_length y name >>= λ len.
      stab_binsearch y.table fun n_sline (sub32 addr s.n_value) >>= λ line.
      finish_info y file fun line
        (record info { eip_fn_name = name; eip_fn_addr = s.n_value; eip_fn_namelen = len })
  | false ↦ name_length y info.eip_fn_name >>= λ len.
      stab_binsearch y.table file n_sline addr >>= λ line.
      finish_info y file fun line (record info { eip_fn_addr = addr; eip_fn_namelen = len })
]

abbrev pub is_zero : ℤ → Bool
is_zero (pos n) = n == 0
is_zero (negsuc n) = false

unfoldable pub debuginfo_eip : Symbols → ℕ → Run Answer
debuginfo_eip y addr = elim (leb ulim addr) [
  | false ↦ panicked
  | true ↦ elim (leb y.stabstr_end y.stabstr || not (y.memory (y.stabstr_end - 1) == 0)) [
    | true ↦ done (missing (unknown_info y addr))
    | false ↦
        stab_binsearch y.table (record { left = pos 0; right = pos y.table.count -ℤ pos 1 }) n_so
          addr
        >>= λ file. elim (is_zero file.left) [
          | true ↦ done (missing (unknown_info y addr))
          | false ↦ stab_binsearch y.table file n_fun addr >>= λ fun.
              find_line y file fun addr (unknown_info y addr)
        ]
  ]
]
