-- ===== src/Examples/Archives.antt =====
-- ustar.c on the names "../a" and "/a".
use cs162hwproj.Prelude.{ℕ, List, ◌++◌, ◌⊎◌, ◌≢◌, ◌≡◌, ◌>>=◌, refl, true, [], ◌∷◌, some, arith}
use cs162hwproj.Ustar.{strip_antisocial_prefixes, strip_loop}
use cs162hwproj.Ustar.{entry, ustar_make_header, ustar_parse_header}
use cs162hwproj.Ustar.RoundTrip.{file_kind, ustar_parse_header-ustar_make_header}
use cs162hwproj.Ustar.Names.{strip_antisocial_prefixes-social}

-- "../a".
abbrev parent_a : List ℕ
parent_a = 46 ∷ 46 ∷ 47 ∷ 97 ∷ []

strip_antisocial_prefixes-social_example :
    (((t : List ℕ) × (parent_a ≡ t ++ strip_antisocial_prefixes parent_a))
      ⊎ (strip_antisocial_prefixes parent_a ≡ b'.' ∷ []))
    × ((t : List ℕ) → strip_antisocial_prefixes parent_a ≢ b'/' ∷ t)
    × ((t : List ℕ) → strip_antisocial_prefixes parent_a ≢ b'.' ∷ b'/' ∷ t)
    × ((t : List ℕ) → strip_antisocial_prefixes parent_a ≢ b'.' ∷ b'.' ∷ b'/' ∷ t)
    × (strip_antisocial_prefixes parent_a ≢ [])
    × (strip_antisocial_prefixes parent_a ≢ b'.' ∷ b'.' ∷ [])
strip_antisocial_prefixes-social_example = strip_antisocial_prefixes-social parent_a

strips : strip_antisocial_prefixes (46 ∷ 46 ∷ 47 ∷ 97 ∷ []) ≡ 97 ∷ []
unfolding strip_antisocial_prefixes strip_loop
strips = refl

ustar_parse_header-ustar_make_header_example :
    (ustar_make_header (47 ∷ 97 ∷ []) (file_kind true) 1000 >>= λ h. some (ustar_parse_header h))
    ≡ some (entry (strip_antisocial_prefixes (47 ∷ 97 ∷ [])) (file_kind true) 1000)
unfolding strip_antisocial_prefixes strip_loop
ustar_parse_header-ustar_make_header_example =
    ustar_parse_header-ustar_make_header (47 ∷ 97 ∷ []) true 1000 refl (omega arith) (omega arith)
