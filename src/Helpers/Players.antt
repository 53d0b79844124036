-- ===== src/Helpers/Players.antt =====
-- src/domain/game/rules/helpers.py: players by id, and the write `players[idx] = player` at the index
-- that `next(i for i, p in enumerate(players) if p.id == …)` finds.
use monopoly_be.Prelude.{
  ℕ, suc, String, Option, none, some, List, [], ◌∷◌, ◌==◌, if◌then◌else◌, set, Result, ok,
  key_error, stop_iteration, or_raise, ◌>>=◌,
}
use monopoly_be.Schema.{PlayerState, GameState}

unfoldable pub find_player : List PlayerState → ℕ → Option PlayerState
find_player [] player_id = none
find_player (p ∷ players) player_id =
    if p.id == player_id then some p else find_player players player_id

unfoldable pub get_player_by_id : List PlayerState → ℕ → Result PlayerState
get_player_by_id players player_id = or_raise (find_player players player_id) key_error

unfoldable pub get_player_by_id_from_state : GameState → ℕ → Result PlayerState
unfolding get_player_by_id
get_player_by_id_from_state state player_id = get_player_by_id state.players player_id

unfoldable pub get_player_name : GameState → ℕ → Result String
unfolding get_player_by_id_from_state
get_player_name state player_id = do
  p ← get_player_by_id_from_state state player_id
  ok p.display_name

-- The index of the first player with the id.
unfoldable pub find_index : List PlayerState → ℕ → Option ℕ
find_index [] player_id = none
find_index (p ∷ players) player_id =
    if p.id == player_id
    then some 0
    else elim (find_index players player_id) [ none ↦ none | some i ↦ some (suc i) ]

-- `next(i for i, p in enumerate(players) if p.id == player_id)`
unfoldable pub next_index : List PlayerState → ℕ → Result ℕ
next_index players player_id = or_raise (find_index players player_id) stop_iteration

-- `players[next(…)]`
unfoldable pub next_player : List PlayerState → ℕ → Result PlayerState
next_player players player_id = or_raise (find_player players player_id) stop_iteration

-- `idx = next(…); players[idx] = player`
unfoldable pub replace_player : List PlayerState → ℕ → PlayerState → Result (List PlayerState)
unfolding next_index
replace_player players player_id player = do
  idx ← next_index players player_id
  ok (set players idx player)

-- `_player_index` of movement.py and cards.py, which raises a `KeyError` itself.
unfoldable pub player_index : List PlayerState → ℕ → Result ℕ
player_index players player_id = or_raise (find_index players player_id) key_error

-- `idx = _player_index(…); players[idx] = player`
unfoldable pub put_player : List PlayerState → ℕ → PlayerState → Result (List PlayerState)
unfolding player_index
put_player players player_id player = do
  idx ← player_index players player_id
  ok (set players idx player)
