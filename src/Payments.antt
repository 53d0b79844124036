-- ===== src/Payments.antt =====
-- src/domain/game/rules/payments.py: payments to the bank or to a player, and the debt that opens when
-- the payer cannot pay.
pub mod Money
use monopoly_be.Prelude.{
  ℕ, Bool, not, Option, none, some, List, [], if◌then◌else◌, ltb_ℤ, leb_ℤ, is_some, ℤ, pos, ◌+ℤ◌,
  ◌-ℤ◌, Result, ok, err, ◌>>=◌, ◌>>◌,
}
use monopoly_be.Schema.{
  GameMode, TurnPhase, PlayerState, SpaceOwnership, BankruptcyState, GameState, GameEvent,
}
use monopoly_be.Helpers.{
  next_player, replace_player, get_player_by_id_from_state, update_player_net_worth,
}

-- One half of `_transfer_funds`: the balance of the player moves, and the net worth is computed anew.
unfoldable pub set_balance :
    List PlayerState → ℕ → (ℤ → ℤ) → List SpaceOwnership → GameMode → Result (List PlayerState)
set_balance players player_id change spaces game_mode = do
  player ← next_player players player_id
  updated ←
      update_player_net_worth (record player { balance = change player.balance }) spaces game_mode
  replace_player players player_id updated

-- `if creditor_id is not None: …`
unfoldable pub credit :
    List PlayerState → Option ℕ → ℤ → List SpaceOwnership → GameMode → Result (List PlayerState)
unfolding set_balance
credit players none amount spaces game_mode = ok players
credit players (some creditor_id) amount spaces game_mode =
    set_balance players creditor_id (λ b. b +ℤ amount) spaces game_mode

-- `_transfer_funds`
unfoldable pub transfer_funds : GameState → ℕ → Option ℕ → ℤ → Result GameState
unfolding set_balance credit
transfer_funds state payer_id creditor_id amount = do
  paid ← set_balance state.players payer_id (λ b. b -ℤ amount) state.spaces state.game_mode
  players ← credit paid creditor_id amount state.spaces state.game_mode
  ok (record state { players = players })

unfoldable pub enter_bankruptcy : GameState → ℕ → Option ℕ → ℤ → GameState
enter_bankruptcy state payer_id creditor_id amount = record state {
  bankruptcy =
      some (record { debtor_id = payer_id; creditor_id = creditor_id; amount_owed = amount });
  turn = record (state.turn) { phase = TurnPhase.bankrupt_resolution };
}

-- The events that `attempt_payment` returns are always `[]`, and left out.
unfoldable pub attempt_payment : GameState → ℕ → ℤ → Option ℕ → Result GameState
unfolding enter_bankruptcy transfer_funds
attempt_payment state payer_id amount creditor_id = if leb_ℤ amount (pos 0) then ok state else do
  payer ← get_player_by_id_from_state state payer_id
  if leb_ℤ amount payer.balance
      then transfer_funds state payer_id creditor_id amount
      else if is_some state.bankruptcy
      then ok state
      else ok (enter_bankruptcy state payer_id creditor_id amount)

unfoldable pub settle : GameState → Option BankruptcyState → Result GameState
unfolding transfer_funds
settle state none = ok state
settle state (some debt) = do
  debtor ← get_player_by_id_from_state state debt.debtor_id
  if leb_ℤ debt.amount_owed debtor.balance
      then (do
        paid ← transfer_funds state debtor.id debt.creditor_id debt.amount_owed
        ok (record paid {
          bankruptcy = none;
          turn = record (paid.turn) { phase = TurnPhase.post_roll };
        }))
      else ok state

unfoldable pub try_settle_debt : GameState → Result GameState
unfolding settle
try_settle_debt state = settle state state.bankruptcy
