-- ===== src/Tests/Setup.antt =====
-- A new game of two members.
use monopoly_be.Prelude.{ℕ, ◌≡◌, [], ◌∷◌, pos, ok}
use monopoly_be.Schema.{GameState, GameMode}
use monopoly_be.Setup.{NewGame, new_game}
use monopoly_be.Setup.Opening.{IsOpening, new_game-IsOpening}
use monopoly_be.Tests.Engine.{counting, counting-IsRandom}

abbrev two_members : NewGame
two_members = record {
  game_id = "game";
  session_code = "code";
  members =
      record { user_id = "ana"; display_name = "Ana"; rating = pos 800 }
      ∷ record { user_id = "bob"; display_name = "Bob"; rating = pos 900 }
      ∷ [];
  now = pos 1000;
  starting_balance = pos 1500;
  game_mode = GameMode.normal;
  player_id = λ n. n;
}

new_game-IsOpening_example :
    (s : GameState) × (rng' : ℕ) × (new_game counting two_members 0 ≡ ok (s, rng'))
    × IsOpening two_members s
new_game-IsOpening_example =
    new_game-IsOpening counting counting-IsRandom two_members 0 (λ e. absurd cc)
