-- ===== src/Text/Tests.antt =====
-- kernel/string.c at concrete strings.
use riscv_os.Prelude.{ℕ, ◌≡◌, Option, some, List, [], ◌∷◌, ◌++◌, arith}
use riscv_os.Text.{strcmp, strstr}
use riscv_os.Text.Compare.{IsText, Decides, strcmp-Decides}
use riscv_os.Text.Search.{Finds, strstr-Finds}

abbrev ls_text : List ℕ
ls_text = b'l' ∷ b's' ∷ []

abbrev lsx_text : List ℕ
lsx_text = b'l' ∷ b's' ∷ b'x' ∷ []

ls_text-IsText : IsText ls_text
ls_text-IsText = (omega arith, (omega arith, tt))

lsx_text-IsText : IsText lsx_text
lsx_text-IsText = (omega arith, (omega arith, (omega arith, tt)))

strcmp-Decides_example :
    Decides (strcmp (ls_text ++ 0 ∷ []) (lsx_text ++ 0 ∷ 7 ∷ [])) ls_text lsx_text
strcmp-Decides_example = strcmp-Decides ls_text lsx_text [] (7 ∷ []) ls_text-IsText lsx_text-IsText

strstr-Finds_example :
    (o : Option ℕ) × (strstr (lsx_text ++ 0 ∷ []) ((b's' ∷ []) ++ 0 ∷ []) ≡ some o)
    × Finds lsx_text (b's' ∷ []) o
strstr-Finds_example = strstr-Finds lsx_text b's' [] [] [] lsx_text-IsText (omega arith, tt)
