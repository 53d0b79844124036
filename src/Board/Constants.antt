-- ===== src/Board/Constants.antt =====
-- src/domain/game/constants.py, less the floats (Interest.antt) and the values that nothing reads.
use monopoly_be.Prelude.{ℕ, List, [], ◌∷◌, ℤ, pos}
use monopoly_be.Schema.{TokenColor}

abbrev pub auction_duration_ms : ℤ
auction_duration_ms = pos 30000

abbrev pub trade_duration_ms : ℤ
trade_duration_ms = pos 60000

abbrev pub max_trade_offers_per_turn : ℕ
max_trade_offers_per_turn = 3

abbrev pub card_landing_recursion_limit : ℕ
card_landing_recursion_limit = 3

abbrev pub turn_timeout_ms : ℤ
turn_timeout_ms = pos 90000

abbrev pub max_afk_strikes : ℕ
max_afk_strikes = 3

abbrev pub jail_fine : ℤ
jail_fine = pos 50

abbrev pub bank_houses : ℤ
bank_houses = pos 32

abbrev pub bank_hotels : ℤ
bank_hotels = pos 12

abbrev pub railroad_price : ℕ
railroad_price = 200

abbrev pub railroad_mortgage_value : ℕ
railroad_mortgage_value = 100

abbrev pub utility_price : ℕ
utility_price = 150

abbrev pub utility_mortgage_value : ℕ
utility_mortgage_value = 75

abbrev pub income_tax_amount : ℕ
income_tax_amount = 200

abbrev pub luxury_tax_amount : ℕ
luxury_tax_amount = 100

abbrev pub railroad_rents : List ℕ
railroad_rents = 25 ∷ 50 ∷ 100 ∷ 200 ∷ []

abbrev pub max_railroads_owned : ℕ
max_railroads_owned = 4

abbrev pub utility_rent_multiplier_one : ℕ
utility_rent_multiplier_one = 4

abbrev pub utility_rent_multiplier_two : ℕ
utility_rent_multiplier_two = 10

abbrev pub doubles_jail_threshold : ℕ
doubles_jail_threshold = 3

abbrev pub jail_turns_initial : ℕ
jail_turns_initial = 3

abbrev pub dice_min : ℕ
dice_min = 1

abbrev pub dice_max : ℕ
dice_max = 6

abbrev pub monopoly_rent_multiplier : ℕ
monopoly_rent_multiplier = 2

abbrev pub hotel_house_count : ℕ
hotel_house_count = 5

abbrev pub house_cost_brown_cyan : ℕ
house_cost_brown_cyan = 50

abbrev pub house_cost_pink_orange : ℕ
house_cost_pink_orange = 100

abbrev pub house_cost_red_yellow : ℕ
house_cost_red_yellow = 150

abbrev pub house_cost_green_blue : ℕ
house_cost_green_blue = 200

abbrev pub token_colors : List TokenColor
token_colors =
    TokenColor.blue ∷ TokenColor.red ∷ TokenColor.green ∷ TokenColor.yellow ∷ TokenColor.orange
    ∷ TokenColor.pink ∷ TokenColor.cyan ∷ TokenColor.brown ∷ TokenColor.gold ∷ TokenColor.ink ∷ []
