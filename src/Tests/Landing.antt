-- ===== src/Tests/Landing.antt =====
-- A landing on a street of another player.
use monopoly_be.Prelude.{ℕ, [], pos, Result, ok, err, false}
use monopoly_be.Schema.{DiceRoll, PropertyColor, PlayerState}
use monopoly_be.Board.{BoardSpace, street, rent_table, house_cost_brown_cyan}
use monopoly_be.Landing.{Landed, resolve_landing}
use monopoly_be.Tests.Fixture.{start, player_with}
use monopoly_be.Tests.Engine.{counting}

abbrev seven : DiceRoll
seven = record { die1 = 3; die2 = 4; is_doubles = false }

abbrev landed_of : Result (Landed ℕ) → Landed ℕ
landed_of (ok r) = r
landed_of (err e) = record { state = start; events = []; sent_to_jail = false; rng = 0 }

abbrev guest : PlayerState
guest = record (player_with 20 (pos 300) [] false) { position = 2 }

abbrev rent_landing : Landed ℕ
rent_landing = landed_of (resolve_landing counting (pos 200) 1 start guest seven 0 1 0)

abbrev avenue : BoardSpace
avenue =
    street 2 "Mediterranean Ave" 60 PropertyColor.brown (rent_table 2 10 30 90 160 250)
      house_cost_brown_cyan
