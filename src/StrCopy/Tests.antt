-- ===== src/StrCopy/Tests.antt =====
-- Runs on short strings.
use libhy_utils_bak.Base.{◌≡◌, refl, some, [], ◌∷◌, arith}
use libhy_utils_bak.StrCopy.{hy_str_copy_right}
use libhy_utils_bak.StrCopy.Behind.{hy_str_copy_right-copied}

-- of "a/bc" what stands behind the '/', in an array of five bytes of which four are given
hy_str_copy_right-copied_example :
    hy_str_copy_right (some (97 ∷ 47 ∷ 98 ∷ 99 ∷ 0 ∷ [])) (some (1 ∷ 1 ∷ 1 ∷ 1 ∷ 1 ∷ [])) 4 47
    ≡ some (some (98 ∷ 99 ∷ 0 ∷ 0 ∷ 1 ∷ []))
hy_str_copy_right-copied_example =
    hy_str_copy_right-copied (97 ∷ []) (98 ∷ 99 ∷ []) [] (1 ∷ 1 ∷ 1 ∷ 1 ∷ 1 ∷ []) 4 47 refl refl
      refl (omega arith) (omega arith) (omega arith)
