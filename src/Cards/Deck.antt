-- ===== src/Cards/Deck.antt =====
-- src/domain/game/rules/cards.py: the decks, the nearest position of a kind, and the write of a player.
use monopoly_be.Prelude.{
  ℕ, zero, suc, ◌+◌, ◌-◌, ◌%◌, String, Option, none, some, List, [], ◌∷◌, ◌++◌, leb, if◌then◌else◌,
  length, contains, Result, ok, err, key_error, index_error, runtime_error, or_raise, ◌>>=◌,
}
use monopoly_be.Schema.{
  GameMode, CardKind, CardEffect, get_out_of_jail_free, CardDef, PlayerState, GameState,
}
use monopoly_be.Board.{get_game_config, board_positions}
use monopoly_be.Helpers.{put_player, refresh_all_net_worth, update_player_net_worth}
use monopoly_be.Movement.{index_of, position_at}
use monopoly_be.Random.{Random}
use monopoly_be.Cards.Data.{find_card, all_cards, default_chance_deck, default_chest_deck}

-- `config_deck if config_deck is not None else default`
abbrev deck_or : Option (List String) → List String → List String
deck_or none default = default
deck_or (some deck) default = deck

-- The deck with which a game starts, and to which an empty deck is reset.
unfoldable pub full_deck : CardKind → GameMode → List String
full_deck CardKind.chance game_mode =
    deck_or (get_game_config game_mode).chance_deck default_chance_deck
full_deck CardKind.community_chest game_mode =
    deck_or (get_game_config game_mode).chest_deck default_chest_deck

unfoldable pub deck_of : CardKind → GameState → List String
deck_of CardKind.chance state = state.chance_deck
deck_of CardKind.community_chest state = state.chest_deck

unfoldable pub with_deck : CardKind → GameState → List String → GameState
with_deck CardKind.chance state deck = record state { chance_deck = deck }
with_deck CardKind.community_chest state deck = record state { chest_deck = deck }

unfoldable pub return_jail_card_to_deck : GameState → CardKind → String → GameState
unfolding deck_of with_deck
return_jail_card_to_deck state kind card_id =
    with_deck kind state (deck_of kind state ++ card_id ∷ [])

-- The deck after the card: a get-out-of-jail card stays with the player, any other goes to the end.
unfoldable pub deck_after : List String → CardEffect → String → List String
deck_after deck get_out_of_jail_free card_id = deck
deck_after deck _ card_id = deck ++ card_id ∷ []

unfoldable pub nearest_from : (rounds : ℕ) → List ℕ → (current_index steps : ℕ) → List ℕ → Result ℕ
nearest_from zero positions current_index steps targets =
    err (runtime_error "no nearest position found")
nearest_from (suc rounds) positions current_index steps targets =
    let rest = nearest_from rounds positions current_index (steps + 1) targets in
    do
      p ← position_at positions ((current_index + steps) % length positions)
      if contains targets p then ok p else rest

unfoldable pub nearest_position : ℕ → List ℕ → GameMode → Result ℕ
unfolding nearest_from
nearest_position from_pos targets game_mode = do
  let positions = board_positions game_mode
  current_index ← index_of positions from_pos
  nearest_from (length positions) positions current_index 1 targets

-- `_steps_to`
unfoldable pub steps_to : ℕ → ℕ → GameMode → Result ℕ
steps_to from_pos to_pos game_mode = do
  let positions = board_positions game_mode
  from_index ← index_of positions from_pos
  to_index ← index_of positions to_pos
  ok (
      if leb from_index to_index
      then to_index - from_index
      else length positions - from_index + to_index)

-- `_set_player`
unfoldable pub set_player : GameState → PlayerState → Result GameState
set_player state player = do
  updated ← update_player_net_worth player state.spaces state.game_mode
  players ← put_player state.players player.id updated
  refreshed ← refresh_all_net_worth players state.spaces state.game_mode
  ok (record state { players = refreshed })

module _ (R : Random) where
  open R use {State, shuffle}

  -- `initial_chance_deck` and `initial_chest_deck`
  unfoldable pub initial_deck : CardKind → GameMode → State → List String × State
  initial_deck kind game_mode rng = shuffle (full_deck kind game_mode) rng

  -- An empty deck is filled anew; where the mode has no such cards the draw raises.
  unfoldable pub refill : List String → List String → State → Result (List String × State)
  refill (c ∷ deck) full rng = ok (c ∷ deck, rng)
  refill [] [] rng = err (runtime_error "deck is not available")
  refill [] (c ∷ full) rng = ok (shuffle (c ∷ full) rng)

  -- `deck.pop(0)` and what follows.
  unfoldable pub take_card :
      GameState → CardKind → List String → State → Result (GameState × CardDef × State)
  take_card state kind [] rng = err index_error
  take_card state kind (card_id ∷ deck) rng = do
    card ← or_raise (find_card card_id all_cards) key_error
    ok (with_deck kind state (deck_after deck card.effect card_id), card, rng)

  unfoldable pub draw_card : GameState → CardKind → State → Result (GameState × CardDef × State)
  unfolding refill take_card
  draw_card state kind rng = do
    filled ← refill (deck_of kind state) (full_deck kind state.game_mode) rng
    take_card state kind (filled.0) (filled.1)
