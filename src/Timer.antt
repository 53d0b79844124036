-- ===== src/Timer.antt =====
-- src/domain/game/rules/turn_timer.py: the deadline of the player whose turn it is.
use monopoly_be.Prelude.{
  Bool, false, ◌&&◌, Option, none, some, List, [], ◌∷◌, if◌then◌else◌, ℤ, pos, ◌+ℤ◌, ◌-ℤ◌, leb_ℤ,
  max_ℤ,
}
use monopoly_be.Schema.{TurnPhase, phase_in, GameState}
use monopoly_be.Board.{turn_timeout_ms, get_game_config}

abbrev active_turn_phases : List TurnPhase
active_turn_phases =
    TurnPhase.pre_roll ∷ TurnPhase.jail_decision ∷ TurnPhase.post_roll ∷ TurnPhase.must_pay_rent
    ∷ []

-- `config.turn_timeout_ms or TURN_TIMEOUT_MS`: a zero is falsy.
abbrev pub or_default : Option ℤ → ℤ → ℤ
or_default none d = d
or_default (some n) d = if leb_ℤ n (pos 0) && leb_ℤ (pos 0) n then d else n

unfoldable pub with_turn_deadline : GameState → ℤ → GameState
with_turn_deadline state now_ms = record state {
  turn = record (state.turn) {
    turn_deadline_ms =
        some
          (now_ms +ℤ or_default (get_game_config state.game_mode).turn_timeout_ms turn_timeout_ms);
  };
}

left : Option ℤ → ℤ → Option ℤ
left none now_ms = none
left (some deadline) now_ms = some (max_ℤ (pos 0) (deadline -ℤ now_ms))

unfoldable pub turn_time_remaining_ms : GameState → ℤ → Option ℤ
unfolding left
turn_time_remaining_ms state now_ms = left state.turn.turn_deadline_ms now_ms

passed : Option ℤ → ℤ → Bool
passed none now_ms = false
passed (some deadline) now_ms = leb_ℤ deadline now_ms

unfoldable pub is_turn_expired : GameState → ℤ → Bool
unfolding passed
is_turn_expired state now_ms =
    passed state.turn.turn_deadline_ms now_ms && phase_in active_turn_phases state.turn.phase
