-- ===== src/Str/Examples.antt =====
-- str.cpp: the theorems at concrete strings.
use nanosrv.Common.{◌≡◌, ◌∷◌, refl, inl, inr, codes}
use nanosrv.Str.{str_to_num}
use nanosrv.Str.Number.{number, str_to_num-number}

str_to_num-number_example :
    (str_to_num (codes "fe") 16 1 ≡ number 16 1 (codes "fe"))
    × (str_to_num (b'0' ∷ b'x' ∷ codes "fe") 0 1 ≡ number 16 1 (codes "fe"))
    × (str_to_num (b'0' ∷ b'b' ∷ codes "fe") 0 1 ≡ number 2 1 (codes "fe"))
str_to_num-number_example = str_to_num-number 16 1 (codes "fe") (inr (inr refl)) (inl refl)
