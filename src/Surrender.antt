-- ===== src/Surrender.antt =====
-- src/domain/game/rules/surrender.py: the properties of a player who quits go back to the bank, and the
-- cash is split among the players who are left.
pub mod Money
pub mod Supply
use monopoly_be.Prelude.{
  ℕ, zero, suc, ◌+◌, ◌/◌, ◌%◌, Bool, true, false, not, ◌&&◌, Option, none, some, List, [], ◌∷◌,
  ◌==◌, ltb, if◌then◌else◌, length, get_elem?, set, ℤ, pos, negsuc, pos_part, ◌+ℤ◌, Result, ok, err,
  index_error, or_raise, ◌>>=◌, ◌>>◌,
}
use monopoly_be.Schema.{GameMode, is_finished, PlayerState, SpaceOwnership, GameState}
use monopoly_be.Helpers.{
  get_player_by_id_from_state, replace_player, refresh_all_net_worth, replace_space, space_at,
}
use monopoly_be.Bankruptcy.{return_cards}
use monopoly_be.Turns.{advance_turn_off_player, check_win_condition}

-- What the loop over the positions changes: the spaces and the bank's counts.
pub record Returned : Type 0 where
  pub spaces : List SpaceOwnership
  pub bank_houses : ℤ
  pub bank_hotels : ℤ

unfoldable pub cleared : SpaceOwnership → SpaceOwnership
cleared o = record o { owner_id = none; houses = 0; has_hotel = false; is_mortgaged = false }

unfoldable pub return_positions : List ℕ → Returned → Result Returned
unfolding cleared
return_positions [] r = ok r
return_positions (p ∷ positions) r = do
  ownership ← space_at r.spaces p
  spaces ← replace_space r.spaces p (cleared ownership)
  return_positions positions (record {
    spaces = spaces;
    bank_houses =
        if ownership.has_hotel then r.bank_houses else r.bank_houses +ℤ pos ownership.houses;
    bank_hotels = if ownership.has_hotel then r.bank_hotels +ℤ pos 1 else r.bank_hotels;
  })

-- `[i for i, p in enumerate(players) if p.id != player_id and not p.is_bankrupt]`, from index `i`.
unfoldable pub recipients : List PlayerState → ℕ → ℕ → List ℕ
recipients [] player_id i = []
recipients (p ∷ players) player_id i =
    if not (p.id == player_id) && not p.is_bankrupt
    then i ∷ recipients players player_id (i + 1)
    else recipients players player_id (i + 1)

-- The loop over the recipients, the n-th of which takes one of the remainder while any is left.
unfoldable pub distribute :
    List PlayerState → List ℕ → (n share remainder : ℕ) → Result (List PlayerState)
distribute players [] n share remainder = ok players
distribute players (ri ∷ indices) n share remainder = do
  recipient ← or_raise (get_elem? players ri) index_error
  distribute
      (set players ri (record recipient {
        balance = recipient.balance +ℤ pos share +ℤ pos (if ltb n remainder then 1 else 0);
      }))
      indices (n + 1) share remainder

-- `if recipients and cash > 0: share, remainder = divmod(cash, len(recipients)) …`
unfoldable pub split_cash : List PlayerState → List ℕ → ℤ → Result (List PlayerState)
unfolding distribute
split_cash players [] cash = ok players
split_cash players (i ∷ indices) (negsuc n) = ok players
split_cash players (i ∷ indices) (pos zero) = ok players
split_cash players (i ∷ indices) (pos (suc n)) =
    let count = length (i ∷ indices) in
    distribute players (i ∷ indices) 0 (suc n / count) (suc n % count)

unfoldable pub eliminate : GameState → PlayerState → PlayerState
eliminate state player = record player {
  balance = pos 0;
  owned_positions = [];
  get_out_of_jail_cards = pos 0;
  jail_status = none;
  is_bankrupt = true;
  eliminated_at = some state.turn.turn_number;
}

-- The state before the win check.
unfoldable pub quit : GameState → PlayerState → ℕ → Result GameState
unfolding return_positions recipients split_cash eliminate
quit state player player_id = do
  returned ← return_positions player.owned_positions (record {
    spaces = state.spaces;
    bank_houses = state.bank_houses;
    bank_hotels = state.bank_hotels;
  })
  shared ← split_cash state.players (recipients state.players player_id 0) player.balance
  players ← replace_player shared player_id (eliminate state player)
  refreshed ← refresh_all_net_worth players returned.spaces state.game_mode
  ok (record state {
    players = refreshed;
    spaces = returned.spaces;
    bank_houses = returned.bank_houses;
    bank_hotels = returned.bank_hotels;
    chance_deck = return_cards state.chance_deck player.get_out_of_jail_cards "chance_08";
    chest_deck = return_cards state.chest_deck player.get_out_of_jail_cards "chest_05";
  })

-- The end of `resolve_surrender`, from the win check on.
unfoldable pub pass_turn : GameState → ℕ → Result GameState
pass_turn gone player_id =
    let resolved = check_win_condition gone in
    if is_finished resolved.status
    then ok resolved
    else if resolved.turn.current_player_id == player_id
    then advance_turn_off_player resolved player_id
    else ok resolved

unfoldable pub resolve_surrender : GameState → ℕ → Result GameState
unfolding quit pass_turn
resolve_surrender state player_id = do
  player ← get_player_by_id_from_state state player_id
  if player.is_bankrupt
      then ok state
      else do gone ← quit state player player_id; pass_turn gone player_id
