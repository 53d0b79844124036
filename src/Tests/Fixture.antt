-- ===== src/Tests/Fixture.antt =====
-- Small games that the examples run on.
use monopoly_be.Prelude.{
  ℕ, Bool, true, false, Option, none, some, List, [], ◌∷◌, ℤ, pos, Result, ok, err,
}
use monopoly_be.Schema.{
  GameMode, GameStatus, TurnPhase, TokenColor, PlayerState, SpaceOwnership, TurnState, GameState,
  no_actions,
}

abbrev pub player_with : (id : ℕ) → ℤ → List ℕ → Bool → PlayerState
player_with id balance owned out = record {
  id = id;
  user_id = "user";
  display_name = "player";
  token = TokenColor.blue;
  avatar_url = none;
  turn_order = id;
  position = 1;
  balance = balance;
  owned_positions = owned;
  get_out_of_jail_cards = pos 1;
  jail_status = none;
  is_bankrupt = out;
  is_connected = true;
  net_worth = balance;
  rating = pos 1000;
  afk_strikes = 0;
  eliminated_at = none;
}

abbrev pub owned_space : ℕ → Option ℕ → ℕ → SpaceOwnership
owned_space position owner houses = record {
  position = position;
  owner_id = owner;
  houses = houses;
  has_hotel = false;
  is_mortgaged = false;
}

abbrev pub opening_turn : TurnPhase → ℕ → Option ℕ → TurnState
opening_turn phase current pending = record {
  phase = phase;
  current_player_id = current;
  turn_number = 1;
  round_number = 1;
  dice_roll = none;
  doubles_streak = 0;
  trade_offers_made = 0;
  actions_available = no_actions;
  pending_buy_position = pending;
  turn_deadline_ms = none;
}

abbrev pub game : List PlayerState → List SpaceOwnership → TurnState → GameState
game players spaces turn = record {
  game_id = "game";
  session_code = "code";
  game_mode = GameMode.normal;
  status = GameStatus.in_progress;
  created_at = pos 0;
  started_at = none;
  finished_at = none;
  winner_id = none;
  players = players;
  turn = turn;
  spaces = spaces;
  auction = none;
  trade = none;
  active_card = none;
  bankruptcy = none;
  bank_houses = pos 30;
  bank_hotels = pos 12;
  chance_deck = "chance_08" ∷ "chance_01" ∷ [];
  chest_deck = [];
  sudden_death_deadline_ms = none;
  log = [];
}

-- Player 10 owns both brown streets with a house on each and a railroad, and 7 and 9 are free.
abbrev pub board : List SpaceOwnership
board =
    owned_space 2 (some 10) 1
    ∷ owned_space 4 (some 10) 1
    ∷ owned_space 6 (some 10) 0
    ∷ owned_space 7 none 0
    ∷ owned_space 9 none 0
    ∷ []

abbrev pub three : List PlayerState
three =
    player_with 10 (pos 1501) (2 ∷ 4 ∷ 6 ∷ []) false
    ∷ player_with 20 (pos 300) [] false
    ∷ player_with 30 (pos 40) [] false
    ∷ []

abbrev pub start : GameState
start = game three board (opening_turn TurnPhase.post_roll 10 (some 7))

-- The state that an operation returns, where it does.
abbrev pub after : Result GameState → GameState
after (ok s) = s
after (err e) = start
