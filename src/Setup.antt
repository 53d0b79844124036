-- ===== src/Setup.antt =====
-- src/domain/game/setup.py: the state in which a game starts.
pub mod Opening
use monopoly_be.Prelude.{
  index_error, String, ℕ, zero, suc, ◌+◌, ◌-◌, ◌*◌, ◌/◌, ◌%◌, ◌≤◌, ◌<◌, ◌≡◌, ◌≢◌, refl, ap, ◌∙◌,
  sym, subst, inl, inr, ◌⊎◌, Bool, true, false, not, ◌&&◌, ◌||◌, Option, none, some, List, [], ◌∷◌,
  ◌++◌, map, All, ◌==◌, ltb, leb, if◌then◌else◌, Bool-cases, arith, length, get_elem?, filterb,
  is_some, ℤ, pos, negsuc, ◌+ℤ◌, ◌-ℤ◌, ◌≤ℤ◌, ◌<ℤ◌, leb_ℤ, ltb_ℤ, int_laws, same_parts, Result, ok,
  err, illegal_move, raise_if, or_raise, ◌>>=◌, ◌>>◌, >>=-eq-ok, or_raise-eq-ok, ok-injective,
}
use monopoly_be.Schema.{
  TokenColor, GameMode, GameStatus, TurnPhase, CardKind, PlayerState, SpaceOwnership, TurnState,
  GameState, no_actions,
}
use monopoly_be.Board.{
  BoardSpace, GameConfig, get_game_config, token_colors, turn_timeout_ms, bank_houses, bank_hotels,
}
use monopoly_be.Timer.{or_default}
use monopoly_be.Cards.{initial_deck}
use monopoly_be.Random.{Random}

pub record GameMember : Type 0 where
  pub user_id : String
  pub display_name : String
  pub rating : ℤ

-- The arguments of `new_game` beside the generator. The clock is read once; `player_id` is what
-- `uuid4` hands out for the seat of a turn order.
pub record NewGame : Type 0 where
  pub game_id : String
  pub session_code : String
  pub members : List GameMember
  pub now : ℤ
  pub starting_balance : ℤ
  pub game_mode : GameMode
  pub player_id : ℕ → ℕ

-- The player of a member.
unfoldable pub seat : GameConfig → ℤ → (ℕ → ℕ) → GameMember → ℕ → TokenColor → PlayerState
seat config balance player_id member turn_order token = record {
  id = player_id turn_order;
  user_id = member.user_id;
  display_name = member.display_name;
  token = token;
  avatar_url = none;
  turn_order = turn_order;
  position = config.start_position;
  balance = balance;
  owned_positions = [];
  get_out_of_jail_cards = pos 0;
  jail_status = none;
  is_bankrupt = false;
  is_connected = true;
  net_worth = balance;
  rating = member.rating;
  afk_strikes = 0;
  eliminated_at = none;
}

-- The loop over the members, from a turn order on.
unfoldable pub seat_members :
    GameConfig → ℤ → (ℕ → ℕ) → List GameMember → ℕ → Result (List PlayerState)
unfolding seat
seat_members config balance player_id [] turn_order = ok []
seat_members config balance player_id (member ∷ members) turn_order = do
  token ← or_raise (get_elem? token_colors (turn_order % length token_colors)) index_error
  players ← seat_members config balance player_id members (turn_order + 1)
  ok (seat config balance player_id member turn_order token ∷ players)

unfoldable pub unowned : BoardSpace → SpaceOwnership
unowned space = record {
  position = space.position;
  owner_id = none;
  houses = 0;
  has_hotel = false;
  is_mortgaged = false;
}

unfoldable pub free_spaces : List BoardSpace → List SpaceOwnership
unfolding unowned
free_spaces [] = []
free_spaces (space ∷ board) = unowned space ∷ free_spaces board

-- `now + duration`, where the mode has one.
deadline_after : ℤ → Option ℤ → Option ℤ
deadline_after now none = none
deadline_after now (some duration) = some (now +ℤ duration)

first_turn : NewGame → PlayerState → TurnState
first_turn setup current_player = record {
  phase = TurnPhase.pre_roll;
  current_player_id = current_player.id;
  turn_number = 1;
  round_number = 1;
  dice_roll = none;
  doubles_streak = 0;
  trade_offers_made = 0;
  actions_available = no_actions;
  pending_buy_position = none;
  turn_deadline_ms =
      some
        (setup.now +ℤ or_default (get_game_config setup.game_mode).turn_timeout_ms turn_timeout_ms);
}

-- The state that `new_game` builds.
opening_state :
    NewGame → List PlayerState → PlayerState → (chance_deck chest_deck : List String) → GameState
unfolding free_spaces deadline_after first_turn
opening_state setup players current_player chance_deck chest_deck =
    let config = get_game_config setup.game_mode in
    record {
      game_id = setup.game_id;
      session_code = setup.session_code;
      game_mode = setup.game_mode;
      status = GameStatus.in_progress;
      created_at = setup.now;
      started_at = some setup.now;
      finished_at = none;
      winner_id = none;
      players = players;
      turn = first_turn setup current_player;
      spaces = free_spaces config.board;
      auction = none;
      trade = none;
      active_card = none;
      bankruptcy = none;
      bank_houses = bank_houses;
      bank_hotels = bank_hotels;
      chance_deck = chance_deck;
      chest_deck = chest_deck;
      sudden_death_deadline_ms = deadline_after setup.now config.sudden_death_duration_ms;
      log = [];
    }

module _ (R : Random) where
  open R use {State, shuffle}

  unfoldable pub new_game : NewGame → State → Result (GameState × State)
  unfolding seat_members opening_state
  new_game setup rng = do
    let config = get_game_config setup.game_mode
    let ordered = shuffle setup.members rng
    players ←
        seat_members config (or_default config.starting_balance setup.starting_balance)
          setup.player_id (ordered.0) 0
    let chance = initial_deck R CardKind.chance setup.game_mode (ordered.1)
    let chest = initial_deck R CardKind.community_chest setup.game_mode (chance.1)
    current_player ← or_raise (get_elem? players 0) index_error
    ok (opening_state setup players current_player (chance.0) (chest.0), chest.1)
