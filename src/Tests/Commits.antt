-- ===== src/Tests/Commits.antt =====
-- The directories on the way to "ab/c", and the tokens of a commit.
use svn.Base.{◌≡◌, refl, [], ◌∷◌, true, false, arith, text}
use svn.Commit.Util.Token.{dir, file, fresh}
use svn.Commit.Util.Token.Distinct.{draw, AreDistinct, draw-AreDistinct}
use svn.Rasvn.Wire.{encode_decimal_u64}
use svn.Path.{join}
use svn.Commit.Util.{dir_prefixes}
use svn.Commit.Util.Prefixes.{AreNested, last_from, dir_prefixes-AreNested}

dir_prefixes_of :
    dir_prefixes (97 ∷ 98 ∷ 47 ∷ 99 ∷ []) ≡ (97 ∷ 98 ∷ []) ∷ (97 ∷ 98 ∷ 47 ∷ 99 ∷ []) ∷ []
unfolding dir_prefixes
dir_prefixes_of = refl

dir_prefixes-AreNested_example :
    AreNested [] (dir_prefixes (join ((97 ∷ 98 ∷ []) ∷ (99 ∷ []) ∷ [])))
    × (last_from [] (dir_prefixes (join ((97 ∷ 98 ∷ []) ∷ (99 ∷ []) ∷ [])))
        ≡ join ((97 ∷ 98 ∷ []) ∷ (99 ∷ []) ∷ []))
dir_prefixes-AreNested_example =
    dir_prefixes-AreNested ((97 ∷ 98 ∷ []) ∷ (99 ∷ []) ∷ []) ((refl, (refl, tt)), ((refl, tt), tt))

tokens_of : draw (true ∷ false ∷ true ∷ []) fresh ≡ text "d1" ∷ text "f1" ∷ text "d2" ∷ []
unfolding dir file encode_decimal_u64 text svn.Rasvn.Wire.decimal_loop
tokens_of = refl

draw-AreDistinct_example : AreDistinct (draw (true ∷ false ∷ true ∷ []) fresh)
draw-AreDistinct_example = draw-AreDistinct (true ∷ false ∷ true ∷ []) (omega arith)
