-- ===== src/Board/Duel.antt =====
-- src/domain/game/board_data.py: the board of the duel mode.
use monopoly_be.Prelude.{List, [], ◌∷◌}
use monopoly_be.Schema.{SpaceType, CornerVariant, PropertyColor}
use monopoly_be.Board.Space.{
  BoardSpace, rent_table, card_space, corner, tax, street, railroad, utility,
}
use monopoly_be.Board.Constants.{
  house_cost_brown_cyan, house_cost_pink_orange, house_cost_red_yellow,
}

unfoldable pub duel_board : List BoardSpace
duel_board =
    corner 1 "Duel Start" CornerVariant.go
    ∷ street 2 "Sparks Row" 60 PropertyColor.brown (rent_table 4 20 60 180 320 450)
        house_cost_brown_cyan
    ∷ card_space 3 SpaceType.chance "Duel Chance"
    ∷ street 4 "Copper Lane" 80 PropertyColor.brown (rent_table 6 30 90 270 400 550)
        house_cost_brown_cyan
    ∷ tax 5 "Duel Tax" 100
    ∷ railroad 6 "North Shuttle"
    ∷ corner 7 "Duel Jail" CornerVariant.jail
    ∷ street 8 "Glass Street" 120 PropertyColor.cyan (rent_table 8 40 100 300 450 600)
        house_cost_brown_cyan
    ∷ card_space 9 SpaceType.chance "Duel Chance"
    ∷ utility 10 "Power Grid"
    ∷ street 11 "Foundry Way" 140 PropertyColor.pink (rent_table 10 50 150 450 625 750)
        house_cost_pink_orange
    ∷ card_space 12 SpaceType.chance "Duel Chance"
    ∷ corner 13 "Duel Parking" CornerVariant.parking
    ∷ street 14 "Harbor Road" 160 PropertyColor.pink (rent_table 12 60 180 500 700 900)
        house_cost_pink_orange
    ∷ railroad 15 "South Shuttle"
    ∷ street 16 "Market Street" 180 PropertyColor.orange (rent_table 14 70 200 550 750 950)
        house_cost_pink_orange
    ∷ card_space 17 SpaceType.chance "Duel Chance"
    ∷ street 18 "Crown Avenue" 200 PropertyColor.orange (rent_table 16 80 220 600 800 1000)
        house_cost_pink_orange
    ∷ corner 19 "Go to Duel Jail" CornerVariant.goto_jail
    ∷ street 20 "Redstone Plaza" 220 PropertyColor.red (rent_table 18 90 250 700 875 1050)
        house_cost_red_yellow
    ∷ tax 21 "Luxury Toll" 75
    ∷ utility 22 "Water Grid"
    ∷ street 23 "Victory Boulevard" 260 PropertyColor.red (rent_table 22 110 330 800 975 1150)
        house_cost_red_yellow
    ∷ street 24 "Summit Drive" 280 PropertyColor.yellow (rent_table 24 120 360 850 1025 1200)
        house_cost_red_yellow
    ∷ []
