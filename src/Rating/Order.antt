-- ===== src/Rating/Order.antt =====
-- src/application/services/rating_service.py: `_placements` ranks all players.
use monopoly_be.Prelude.{◌≡◌, Bool, true, not, ◌&&◌, ◌||◌, List, [], ◌∷◌, All, leb_ℤ}
use mathlib.Core.Option
use mathlib.Core.List.{Perm}
use mathlib.Core.List.Perm
use monopoly_be.Schema.{PlayerState}
use monopoly_be.Rating.{eliminated_key}

-- One player may be placed before another: who is not eliminated comes first, and then who was
-- eliminated later.
abbrev pub is_ahead : PlayerState → PlayerState → Bool
is_ahead p q = not p.is_bankrupt || (q.is_bankrupt && leb_ℤ (eliminated_key q) (eliminated_key p))

abbrev pub IsRanked : List PlayerState → Type 0
IsRanked [] = Unit
IsRanked (p ∷ players) = All (λ q. is_ahead p q ≡ true) players × IsRanked players

-- The latest first, as a relation.
abbrev IsLatest : List PlayerState → Type 0
IsLatest [] = Unit
IsLatest (p ∷ players) =
    All (λ q. leb_ℤ (eliminated_key q) (eliminated_key p) ≡ true) players × IsLatest players
