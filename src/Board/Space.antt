-- ===== src/Board/Space.antt =====
-- src/domain/game/schemas/board.py, and the constructors of spaces at the head of board_data.py.
use monopoly_be.Prelude.{ℕ, ◌/◌, Bool, String, Option, none, some, ◌==◌, if◌then◌else◌}
use monopoly_be.Schema.{SpaceType, CornerVariant, PropertyColor}
use monopoly_be.Board.Constants.{
  railroad_price, railroad_mortgage_value, utility_price, utility_mortgage_value,
}

pub record RentTable : Type 0 where
  pub base : ℕ
  pub one_house : ℕ
  pub two_houses : ℕ
  pub three_houses : ℕ
  pub four_houses : ℕ
  pub hotel : ℕ

-- `RentTable.amount_for`
unfoldable pub amount_for : RentTable → ℕ → Bool → ℕ
amount_for r houses has_hotel =
    if has_hotel
    then r.hotel
    else if houses == 4
    then r.four_houses
    else if houses == 3
    then r.three_houses
    else if houses == 2
    then r.two_houses
    else if houses == 1
    then r.one_house
    else r.base

pub record BoardSpace : Type 0 where
  pub position : ℕ
  pub type : SpaceType
  pub name : String
  pub color_group : Option PropertyColor
  pub price : Option ℕ
  pub rent : Option RentTable
  pub house_cost : Option ℕ
  pub mortgage_value : Option ℕ
  pub corner : Option CornerVariant
  pub tax_amount : Option ℕ

-- `_rent`
abbrev pub rent_table : ℕ → ℕ → ℕ → ℕ → ℕ → ℕ → RentTable
rent_table base one two three four hotel = record {
  base = base;
  one_house = one;
  two_houses = two;
  three_houses = three;
  four_houses = four;
  hotel = hotel;
}

-- `BoardSpace(position=…, type=…, name=…)`, the class's defaults for the rest.
abbrev pub card_space : ℕ → SpaceType → String → BoardSpace
card_space position type name = record {
  position = position;
  type = type;
  name = name;
  color_group = none;
  price = none;
  rent = none;
  house_cost = none;
  mortgage_value = none;
  corner = none;
  tax_amount = none;
}

abbrev pub corner : ℕ → String → CornerVariant → BoardSpace
corner position name c = record (card_space position SpaceType.corner name) { corner = some c }

abbrev pub tax : ℕ → String → ℕ → BoardSpace
tax position name amount = record (card_space position SpaceType.tax name) {
  tax_amount = some amount;
}

-- `_street`
abbrev pub street : ℕ → String → ℕ → PropertyColor → RentTable → ℕ → BoardSpace
street position name price color rent house_cost =
    record (card_space position SpaceType.property name) {
      color_group = some color;
      price = some price;
      rent = some rent;
      house_cost = some house_cost;
      mortgage_value = some (price / 2);
    }

-- `_railroad`
abbrev pub railroad : ℕ → String → BoardSpace
railroad position name = record (card_space position SpaceType.railroad name) {
  price = some railroad_price;
  mortgage_value = some railroad_mortgage_value;
}

-- `_utility`
abbrev pub utility : ℕ → String → BoardSpace
utility position name = record (card_space position SpaceType.utility name) {
  price = some utility_price;
  mortgage_value = some utility_mortgage_value;
}
