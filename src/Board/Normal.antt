-- ===== src/Board/Normal.antt =====
-- src/domain/game/board_data.py: the board of the normal mode.
use monopoly_be.Prelude.{ℕ, ◌+◌, List, [], ◌∷◌, map}
use monopoly_be.Schema.{SpaceType, CornerVariant, PropertyColor}
use monopoly_be.Board.Space.{
  BoardSpace, rent_table, card_space, corner, tax, street, railroad, utility,
}
use monopoly_be.Board.Constants.{
  income_tax_amount, luxury_tax_amount, house_cost_brown_cyan, house_cost_pink_orange,
  house_cost_red_yellow, house_cost_green_blue,
}

normal_board_zero_based : List BoardSpace
normal_board_zero_based =
    corner 0 "TYCOON" CornerVariant.go
    ∷ street 1 "Mediterranean Ave" 60 PropertyColor.brown (rent_table 2 10 30 90 160 250)
        house_cost_brown_cyan
    ∷ card_space 2 SpaceType.chest "Community Chest"
    ∷ street 3 "Baltic Ave" 60 PropertyColor.brown (rent_table 4 20 60 180 320 450)
        house_cost_brown_cyan
    ∷ tax 4 "Income Tax" income_tax_amount
    ∷ railroad 5 "Reading Railroad"
    ∷ street 6 "Oriental Ave" 100 PropertyColor.cyan (rent_table 6 30 90 270 400 550)
        house_cost_brown_cyan
    ∷ card_space 7 SpaceType.chance "Chance"
    ∷ street 8 "Vermont Ave" 100 PropertyColor.cyan (rent_table 6 30 90 270 400 550)
        house_cost_brown_cyan
    ∷ street 9 "Connecticut Ave" 120 PropertyColor.cyan (rent_table 8 40 100 300 450 600)
        house_cost_brown_cyan
    ∷ corner 10 "Just Visiting" CornerVariant.jail
    ∷ street 11 "St. Charles Place" 140 PropertyColor.pink (rent_table 10 50 150 450 625 750)
        house_cost_pink_orange
    ∷ utility 12 "Electric Company"
    ∷ street 13 "States Ave" 140 PropertyColor.pink (rent_table 10 50 150 450 625 750)
        house_cost_pink_orange
    ∷ street 14 "Virginia Ave" 160 PropertyColor.pink (rent_table 12 60 180 500 700 900)
        house_cost_pink_orange
    ∷ railroad 15 "Pennsylvania Railroad"
    ∷ street 16 "St. James Place" 180 PropertyColor.orange (rent_table 14 70 200 550 750 950)
        house_cost_pink_orange
    ∷ card_space 17 SpaceType.chest "Community Chest"
    ∷ street 18 "Tennessee Ave" 180 PropertyColor.orange (rent_table 14 70 200 550 750 950)
        house_cost_pink_orange
    ∷ street 19 "New York Ave" 200 PropertyColor.orange (rent_table 16 80 220 600 800 1000)
        house_cost_pink_orange
    ∷ corner 20 "Free Parking" CornerVariant.parking
    ∷ street 21 "Kentucky Ave" 220 PropertyColor.red (rent_table 18 90 250 700 875 1050)
        house_cost_red_yellow
    ∷ card_space 22 SpaceType.chance "Chance"
    ∷ street 23 "Indiana Ave" 220 PropertyColor.red (rent_table 18 90 250 700 875 1050)
        house_cost_red_yellow
    ∷ street 24 "Illinois Ave" 240 PropertyColor.red (rent_table 20 100 300 750 925 1100)
        house_cost_red_yellow
    ∷ railroad 25 "B&O Railroad"
    ∷ street 26 "Atlantic Ave" 260 PropertyColor.yellow (rent_table 22 110 330 800 975 1150)
        house_cost_red_yellow
    ∷ street 27 "Ventnor Ave" 260 PropertyColor.yellow (rent_table 22 110 330 800 975 1150)
        house_cost_red_yellow
    ∷ utility 28 "Water Works"
    ∷ street 29 "Marvin Gardens" 280 PropertyColor.yellow (rent_table 24 120 360 850 1025 1200)
        house_cost_red_yellow
    ∷ corner 30 "Go to Jail" CornerVariant.goto_jail
    ∷ street 31 "Pacific Ave" 300 PropertyColor.green (rent_table 26 130 390 900 1100 1275)
        house_cost_green_blue
    ∷ street 32 "North Carolina Ave" 300 PropertyColor.green (rent_table 26 130 390 900 1100 1275)
        house_cost_green_blue
    ∷ card_space 33 SpaceType.chest "Community Chest"
    ∷ street 34 "Pennsylvania Ave" 320 PropertyColor.green (rent_table 28 150 450 1000 1200 1400)
        house_cost_green_blue
    ∷ railroad 35 "Short Line Railroad"
    ∷ card_space 36 SpaceType.chance "Chance"
    ∷ street 37 "Park Place" 350 PropertyColor.blue (rent_table 35 175 500 1100 1300 1500)
        house_cost_green_blue
    ∷ tax 38 "Luxury Tax" luxury_tax_amount
    ∷ street 39 "Boardwalk" 400 PropertyColor.blue (rent_table 50 200 600 1400 1700 2000)
        house_cost_green_blue
    ∷ []

-- `_shift_board_positions`
shift_board_positions : List BoardSpace → ℕ → List BoardSpace
shift_board_positions board offset =
    map (λ (space : BoardSpace). record space { position = space.position + offset }) board

unfoldable pub normal_board : List BoardSpace
unfolding normal_board_zero_based shift_board_positions
normal_board = shift_board_positions normal_board_zero_based 1
