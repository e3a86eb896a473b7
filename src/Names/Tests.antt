-- ===== src/Names/Tests.antt =====
-- A name at a concrete input.
use fujinet_intv_basketball.Base.{ℕ, ◌≡◌, refl, List, [], ◌∷◌}
use fujinet_intv_basketball.Wire.{pad_name}
use fujinet_intv_basketball.Names.{read_name, is_name}
use fujinet_intv_basketball.Names.RoundTrip.{read_name-pad_name}

abbrev ghost1 : List ℕ
ghost1 = b'G' ∷ b'H' ∷ b'O' ∷ b'S' ∷ b'T' ∷ b'1' ∷ []

read_name-pad_name_example : read_name (pad_name ghost1) ≡ ghost1
unfolding is_name
read_name-pad_name_example = read_name-pad_name ghost1 refl
