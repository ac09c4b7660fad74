-- ===== src/Printf/Cprintf.antt =====
-- kern/printf.c: `cprintf` over the console.
use os.Base.{ℕ, Option, none, some, List, [], ◌∷◌}
use os.Console.Screen.{Output, cputchar}
use os.Printf.Format.{Arg, vprintfmt}

-- `*cnt++` moves the pointer, and the count stays 0.
unfoldable pub putch : ℕ → ℕ → Output → ℕ × Output
putch ch cnt o = (cnt, cputchar ch o)

unfoldable pub put_all : List ℕ → ℕ → Output → ℕ × Output
put_all [] cnt o = (cnt, o)
put_all (c ∷ cs) cnt o = (let (cnt', o') = putch c cnt o in put_all cs cnt' o')

unfoldable pub vcprintf : List ℕ → List Arg → Output → Option (ℕ × Output)
vcprintf fmt args o = elim (vprintfmt fmt args) [ none ↦ none | some out ↦ some (put_all out 0 o) ]

unfoldable pub cprintf : List ℕ → List Arg → Output → Option (ℕ × Output)
cprintf fmt args o = vcprintf fmt args o
