-- ===== src/Cards/Data.antt =====
-- src/domain/game/cards_data.py: the cards of each deck, and the default decks.
use monopoly_be.Prelude.{
  true, false, String, Option, none, some, List, [], ◌∷◌, ◌++◌, map, pos, str_eq, if◌then◌else◌,
}
use monopoly_be.Schema.{
  CardKind, NearestType, CardEffect, advance_to, advance_to_nearest, go_to_jail, go_back, collect,
  pay, collect_from_each_player, pay_each_player, get_out_of_jail_free, repairs, CardDef,
}

-- `CardDef(id=…, kind=…, effect=…)`
abbrev card : String → CardKind → CardEffect → CardDef
card id kind effect = record { id = id; kind = kind; effect = effect }

unfoldable pub chance_cards : List CardDef
chance_cards =
    card "chance_01" CardKind.chance (advance_to 1 true)
    ∷ card "chance_02" CardKind.chance (advance_to 25 true)
    ∷ card "chance_03" CardKind.chance (advance_to 12 true)
    ∷ card "chance_04" CardKind.chance (advance_to_nearest NearestType.utility false)
    ∷ card "chance_05" CardKind.chance (advance_to_nearest NearestType.railroad true)
    ∷ card "chance_06" CardKind.chance (advance_to_nearest NearestType.railroad true)
    ∷ card "chance_07" CardKind.chance (collect (pos 50))
    ∷ card "chance_08" CardKind.chance get_out_of_jail_free
    ∷ card "chance_09" CardKind.chance (go_back 3)
    ∷ card "chance_10" CardKind.chance go_to_jail
    ∷ card "chance_11" CardKind.chance (repairs (pos 25) (pos 100))
    ∷ card "chance_12" CardKind.chance (pay (pos 15))
    ∷ card "chance_13" CardKind.chance (advance_to 6 true)
    ∷ card "chance_14" CardKind.chance (advance_to 40 false)
    ∷ card "chance_15" CardKind.chance (pay_each_player (pos 50))
    ∷ card "chance_16" CardKind.chance (collect (pos 150))
    ∷ []

unfoldable pub community_chest_cards : List CardDef
community_chest_cards =
    card "chest_01" CardKind.community_chest (advance_to 1 true)
    ∷ card "chest_02" CardKind.community_chest (collect (pos 200))
    ∷ card "chest_03" CardKind.community_chest (pay (pos 50))
    ∷ card "chest_04" CardKind.community_chest (collect (pos 50))
    ∷ card "chest_05" CardKind.community_chest get_out_of_jail_free
    ∷ card "chest_06" CardKind.community_chest go_to_jail
    ∷ card "chest_07" CardKind.community_chest (collect (pos 100))
    ∷ card "chest_08" CardKind.community_chest (collect (pos 20))
    ∷ card "chest_09" CardKind.community_chest (collect_from_each_player (pos 10))
    ∷ card "chest_10" CardKind.community_chest (collect (pos 100))
    ∷ card "chest_11" CardKind.community_chest (pay (pos 100))
    ∷ card "chest_12" CardKind.community_chest (pay (pos 150))
    ∷ card "chest_13" CardKind.community_chest (collect (pos 25))
    ∷ card "chest_14" CardKind.community_chest (repairs (pos 40) (pos 115))
    ∷ card "chest_15" CardKind.community_chest (collect (pos 10))
    ∷ card "chest_16" CardKind.community_chest (collect (pos 100))
    ∷ []

unfoldable pub duel_chance_cards : List CardDef
duel_chance_cards =
    card "duel_chance_01" CardKind.chance (advance_to 1 true)
    ∷ card "duel_chance_02" CardKind.chance (advance_to 23 false)
    ∷ card "duel_chance_03" CardKind.chance (advance_to_nearest NearestType.railroad true)
    ∷ card "duel_chance_04" CardKind.chance (advance_to_nearest NearestType.utility false)
    ∷ card "duel_chance_05" CardKind.chance (collect (pos 75))
    ∷ card "duel_chance_06" CardKind.chance (pay (pos 50))
    ∷ card "duel_chance_07" CardKind.chance (go_back 2)
    ∷ card "duel_chance_08" CardKind.chance go_to_jail
    ∷ []

-- `ALL_CARDS`, the dictionary from ids to cards.
unfoldable pub all_cards : List CardDef
unfolding chance_cards community_chest_cards duel_chance_cards
all_cards = chance_cards ++ community_chest_cards ++ duel_chance_cards

unfoldable pub find_card : String → List CardDef → Option CardDef
find_card card_id [] = none
find_card card_id (c ∷ cards) = if str_eq c.id card_id then some c else find_card card_id cards

card_ids : List CardDef → List String
card_ids = map (λ (c : CardDef). c.id)

unfoldable pub default_chance_deck : List String
unfolding chance_cards card_ids
default_chance_deck = card_ids chance_cards

unfoldable pub default_chest_deck : List String
unfolding community_chest_cards card_ids
default_chest_deck = card_ids community_chest_cards
