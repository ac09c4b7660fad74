-- ===== src/Readline/Tests.antt =====
-- Uses of the theorems on lib/readline.c.
use os.Base.{◌<◌, ◌≡◌, refl, [], ◌∷◌}
use os.Readline.{buflen, Line, char, returned, readline}
use os.Readline.Edit.{Shows, readline-edit}

-- "ab", a backspace, "c" and a newline give "ac".
readline-edit_example :
    (l : Line) × (readline (char 97 ∷ char 98 ∷ char 8 ∷ char 99 ∷ char 10 ∷ []) (λ _. 7)
      ≡ returned l)
    × Shows l.buf l.i (99 ∷ 97 ∷ [])
    × (l.buf l.i ≡ 0)
    × (l.i < buflen)
readline-edit_example =
    readline-edit (97 ∷ 98 ∷ 8 ∷ 99 ∷ []) 10 (λ _. 7) (refl, (refl, (refl, (refl, tt)))) refl
