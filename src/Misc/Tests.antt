-- ===== src/Misc/Tests.antt =====
-- The theorems on src/lib/misc.c and src/lib/mdns.c at concrete inputs.
use vedruino.Base.{ℕ, suc, ◌/◌, ◌≡◌, ◌⊎◌, true, false, some, [], ◌∷◌, ltb, get_elem?, Ends}
use vedruino.Misc.{Float, sufs, pk_hum_size}
use vedruino.Misc.Size.{divided, IsScaled, pk_hum_size-IsScaled}
use vedruino.Misc.Mdns.{Platform, pk_mdns_init, IsNamed, IsUnread, pk_mdns_init-IsNamed}

-- Whole numbers in place of floating-point ones.
abbrev whole : Float
whole = record {
  Value = ℕ;
  above_1024 = λ n. ltb 1024 n;
  is_infinite = λ n. false;
  div_1024 = λ n. n / 1024;
}

pk_hum_size-IsScaled_example :
    ((false ≡ true) × (pk_hum_size whole 3000000 ≡ some (3000000, 0 ∷ b'i' ∷ 0 ∷ [])))
    ⊎ ((i : ℕ) × (c : ℕ) × IsScaled whole 3000000 i
        × (get_elem? sufs i ≡ some c)
        × (pk_hum_size whole 3000000 ≡ some (divided whole i 3000000, c ∷ b'i' ∷ 0 ∷ [])))
pk_hum_size-IsScaled_example = pk_hum_size-IsScaled whole 3000000

-- A board whose NVS holds the name "a".
abbrev named : Platform
named = record {
  World = ℕ;
  nvs_flash_init = λ w. (true, suc w);
  nvs_open = λ w. (some 1, suc w);
  nvs_size = λ handle w. (some 2, suc w);
  nvs_string = λ handle size w. (some (b'a' ∷ []), suc w);
  mdns_init = λ w. (true, suc w);
  mdns_hostname_set = λ name w. (true, suc w);
}

pk_mdns_init-IsNamed_example : Ends (IsNamed named) (IsUnread named) (pk_mdns_init named 0)
pk_mdns_init-IsNamed_example = pk_mdns_init-IsNamed named 0
