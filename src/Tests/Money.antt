-- ===== src/Tests/Money.antt =====
-- Payments, trades, auctions and purchases on the small games.
use monopoly_be.Board.{get_board_space}
use monopoly_be.Prelude.{
  ℕ, ◌≡◌, refl, ◌⊎◌, Option, none, some, ◌==◌, if◌then◌else◌, arith, pos, ◌+ℤ◌, ◌-ℤ◌, ◌<ℤ◌, ok,
}
use monopoly_be.Schema.{GameState}
use monopoly_be.Helpers.{
  space_at, find_player, cash, balance_of, get_player_by_id_from_state, next_player,
  update_player_net_worth, compute_net_worth, worth_of_positions, find_ownership, replace_player,
  find_index,
}
use monopoly_be.Payments.{attempt_payment}
use monopoly_be.Payments.Money.{attempt_payment-cash, attempt_payment-pays}
use monopoly_be.Tests.Fixture.{start, after, three}

-- Player 30 cannot pay 50.
abbrev in_debt : GameState
in_debt = after (attempt_payment start 30 (pos 50) none)

attempt_payment-cash_example :
    (cash (after (attempt_payment start 10 (pos 200) none)).players ≡ cash three)
    ⊎ ((Path (Option ℕ) none none)
        × (pos 0 <ℤ pos 200)
        × (cash (after (attempt_payment start 10 (pos 200) none)).players +ℤ pos 200 ≡ cash three))
unfolding attempt_payment get_player_by_id_from_state find_player next_player
    update_player_net_worth compute_net_worth worth_of_positions get_board_space space_at
    find_ownership replace_player find_index
attempt_payment-cash_example = attempt_payment-cash start 10 (pos 200) none refl

attempt_payment-pays_example :
    (s' : GameState) × (attempt_payment start 10 (pos 200) (some 20) ≡ ok s')
    × (s'.bankruptcy ≡ none)
    × ((j : ℕ)
        → balance_of s'.players j ≡ (
            if 10 == j
            then some (pos 1301)
            else if 20 == j
            then some (pos 500)
            else balance_of three j))
unfolding find_player get_board_space space_at find_ownership ◌-ℤ◌ ◌+ℤ◌
attempt_payment-pays_example =
    attempt_payment-pays start 10 20 (omega arith) refl refl
      (((_, _, refl, refl), ((_, _, refl, refl), ((_, _, refl, refl), tt))), (tt, (tt, tt)))
      (pos 200) (omega arith) (omega arith)
