-- ===== src/Bankruptcy.antt =====
-- src/domain/game/rules/bankruptcy.py: the assets of a bankrupt player go to the creditor or the bank.
pub mod Leak
use monopoly_be.Prelude.{
  ℕ, Bool, true, false, Option, none, some, List, [], ◌∷◌, ◌++◌, ◌==◌, if◌then◌else◌, String,
  replicate, sorted, dedup, ℤ, pos, pos_part, ◌+ℤ◌, ◌-ℤ◌, min_ℤ, Result, ok, err, ◌>>=◌, ◌>>◌,
}
use monopoly_be.Schema.{
  GameMode, is_finished, PlayerState, SpaceOwnership, BankruptcyState, GameState,
}
use monopoly_be.Board.{get_board_space, get_game_config}
use monopoly_be.Helpers.{
  get_player_by_id, get_player_by_id_from_state, next_player, replace_player, refresh_all_net_worth,
  replace_space, space_at, or_zero,
}
use monopoly_be.Interest.{mortgage_interest}
use monopoly_be.Turns.{advance_turn_off_player, check_win_condition}

-- `for _ in range(cards): deck = deck + (card_id,)`
unfoldable pub return_cards : List String → ℤ → String → List String
return_cards deck cards card_id = deck ++ replicate (pos_part cards) card_id

-- The interest that the creditor owes for one position, if it is mortgaged.
charge : Bool → List PlayerState → (creditor_id position : ℕ) → GameMode → Result (List PlayerState)
charge false players creditor_id position game_mode = ok players
charge true players creditor_id position game_mode = do
  space ← get_board_space position game_mode
  let cost = mortgage_interest (or_zero space.mortgage_value)
  c ← get_player_by_id players creditor_id
  replace_player players creditor_id (record c { balance = c.balance -ℤ pos cost })

-- The loop over the debtor's positions, when they go to the creditor.
take_over :
    List ℕ
    → List PlayerState
    → List SpaceOwnership
    → GameMode
    → ℕ
    → Result (List PlayerState × List SpaceOwnership)
unfolding charge
take_over [] players spaces game_mode creditor_id = ok (players, spaces)
take_over (p ∷ positions) players spaces game_mode creditor_id = do
  ownership ← space_at spaces p
  written ← replace_space spaces p (record ownership { owner_id = some creditor_id })
  charged ← charge ownership.is_mortgaged players creditor_id p game_mode
  take_over positions charged written game_mode creditor_id

-- The loop over the debtor's positions, when they go to the bank. The building counts of the bank are
-- not touched.
release : List ℕ → List SpaceOwnership → Result (List SpaceOwnership)
release [] spaces = ok spaces
release (p ∷ positions) spaces = do
  ownership ← space_at spaces p
  written ←
      replace_space spaces p
        (record ownership { owner_id = none; is_mortgaged = false; houses = 0; has_hotel = false })
  release positions written

-- What the two paths change: the players, the spaces and the two decks.
pub record Assets : Type 0 where
  pub players : List PlayerState
  pub spaces : List SpaceOwnership
  pub chance_deck : List String
  pub chest_deck : List String

pass_on : GameState → BankruptcyState → PlayerState → Option ℕ → Result Assets
unfolding take_over release return_cards
pass_on state debt debtor none = do
  spaces ← release debtor.owned_positions state.spaces
  ok (record {
    players = state.players;
    spaces = spaces;
    chance_deck = return_cards state.chance_deck debtor.get_out_of_jail_cards "chance_08";
    chest_deck = return_cards state.chest_deck debtor.get_out_of_jail_cards "chest_05";
  })
pass_on state debt debtor (some creditor_id) = do
  creditor ← get_player_by_id_from_state state creditor_id
  paid ←
      replace_player state.players creditor_id
        (record creditor { balance = creditor.balance +ℤ min_ℤ debtor.balance debt.amount_owed })
  taken ← take_over debtor.owned_positions paid state.spaces state.game_mode creditor_id
  latest ← next_player taken.0 creditor_id
  players ← replace_player taken.0 creditor_id (record latest {
    owned_positions = sorted (dedup (creditor.owned_positions ++ debtor.owned_positions));
    get_out_of_jail_cards = creditor.get_out_of_jail_cards +ℤ debtor.get_out_of_jail_cards;
  })
  ok (record {
    players = players;
    spaces = taken.1;
    chance_deck = state.chance_deck;
    chest_deck = state.chest_deck;
  })

unfoldable pub eliminate_debtor : GameState → PlayerState → PlayerState
eliminate_debtor state debtor = record debtor {
  balance = pos 0;
  owned_positions = [];
  get_out_of_jail_cards = pos 0;
  jail_status = none;
  is_bankrupt = true;
  position = (get_game_config state.game_mode).start_position;
  eliminated_at = some state.turn.turn_number;
}

-- The state before the win check.
liquidate : GameState → BankruptcyState → ℕ → Result GameState
unfolding pass_on eliminate_debtor
liquidate state debt debtor_id = do
  debtor ← get_player_by_id_from_state state debtor_id
  assets ← pass_on state debt debtor debt.creditor_id
  players ← replace_player assets.players debtor_id (eliminate_debtor state debtor)
  refreshed ← refresh_all_net_worth players assets.spaces state.game_mode
  ok (record state {
    players = refreshed;
    spaces = assets.spaces;
    bankruptcy = none;
    chance_deck = assets.chance_deck;
    chest_deck = assets.chest_deck;
  })

resolve_debt : GameState → Option BankruptcyState → ℕ → Result GameState
unfolding liquidate
resolve_debt state none debtor_id = ok state
resolve_debt state (some debt) debtor_id =
    if debt.debtor_id == debtor_id
    then (do
      liquidated ← liquidate state debt debtor_id
      let resolved = check_win_condition liquidated
      if is_finished resolved.status
          then ok resolved
          else advance_turn_off_player resolved debtor_id)
    else ok state

unfoldable pub resolve_bankruptcy : GameState → ℕ → Result GameState
unfolding resolve_debt
resolve_bankruptcy state debtor_id = resolve_debt state state.bankruptcy debtor_id
