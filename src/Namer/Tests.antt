-- ===== src/Namer/Tests.antt =====
-- The name of the function "f_1" of type sync with the id 42.
use shiyanhui_libcsp.Base.{◌≡◌, refl, arith, some, [], ◌∷◌}
use shiyanhui_libcsp.Namer.{sync, Entity, print, format, parse}
use shiyanhui_libcsp.Namer.RoundTrip.{parse-format}

abbrev entity : Entity
entity = record { id = 42; name = 102 ∷ 95 ∷ 49 ∷ []; type = sync }

-- "csp___sync_42_f_1"
written :
    format entity
    ≡ 99 ∷ 115 ∷ 112 ∷ 95 ∷ 95 ∷ 95 ∷ 115 ∷ 121 ∷ 110 ∷ 99 ∷ 95 ∷ 52 ∷ 50 ∷ 95 ∷ 102 ∷ 95 ∷ 49 ∷ []
unfolding format print
written = refl

parse-format_example : parse (format entity) ≡ some entity
parse-format_example = parse-format entity (omega arith)
