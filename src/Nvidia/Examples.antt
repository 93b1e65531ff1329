-- ===== src/Nvidia/Examples.antt =====
-- Examples of the values and ids.
use fancon.Common.{◌≡◌, refl, Bool, true, Option, inl, inr, none, some, []}
use fancon.Nvidia.{take_bits, fan_control_set, new_coolbits}
use fancon.Util.Text.{codes}
use fancon.Nvidia.Names.{search_after, get_gpu_product_name}
use fancon.Nvidia.Names.Titles.{search_after-none, get_gpu_product_name-Occurs}
use fancon.Nvidia.Library.{Attributes}

coolbits_of_28 : new_coolbits 28 ≡ 28
unfolding new_coolbits take_bits fan_control_set
coolbits_of_28 = refl

coolbits_of_9 : new_coolbits 9 ≡ 13
unfolding new_coolbits take_bits fan_control_set
coolbits_of_9 = refl

-- `get_gpu_product_name` reads past the end of this name, which has no "GRID".
no_grid : search_after (codes "GRID") (codes "GeForce GTX 1080") ≡ none
unfolding search_after
no_grid = refl

skips_titles :
    (get_gpu_product_name (some (codes "Quadro GRID GTX GeForce 9")) ≡ none)
    × (get_gpu_product_name (some (codes "GeForce GTX GRID Quadro P 6")) ≡ some (codes "P_6"))
    × (get_gpu_product_name none ≡ some [])
unfolding get_gpu_product_name
skips_titles = (refl, refl, refl)

get_gpu_product_name-Occurs_example : get_gpu_product_name (some (codes "GeForce GTX 1080")) ≡ none
get_gpu_product_name-Occurs_example =
    get_gpu_product_name-Occurs (codes "GRID") (codes "GeForce GTX 1080") (inr (inr (inl refl)))
      (search_after-none (codes "GRID") (codes "GeForce GTX 1080") no_grid)

-- A device whose mode can always be written.
abbrev card : Attributes (Option Bool)
card = record {
  read_rpm = λ w. some 900;
  read_percent = λ w. some 40;
  write_percent = λ p w. (true, w);
  write_mode = λ on w. (true, some on);
}
