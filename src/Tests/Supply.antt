-- ===== src/Tests/Supply.antt =====
-- Houses, surrender and bankruptcy on the small games.
use monopoly_be.Turns.{check_win_condition, advance_turn_off_player}
use monopoly_be.Board.{get_board_space, get_game_config}
use monopoly_be.Prelude.{
  ℕ, ◌≡◌, ◌≢◌, refl, inl, none, some, List, [], ◌∷◌, arith, pos, ◌+ℤ◌, ◌<ℤ◌, ok, ◌+◌, ◌≤◌, ap, ◌∙◌,
  sym, ok-injective,
}
use monopoly_be.Engine.{handle_end_turn}
use monopoly_be.Engine.Stuck.{resolve_surrender-keeps_debt}
use monopoly_be.Building.Worth.{IsRefreshed, building-IsRefreshed}
use monopoly_be.Building.Even.{IsEven, build_house-IsEven}
use monopoly_be.Schema.{
  PropertyColor, GameMode, SpaceOwnership, GameEvent, GameState, BankruptcyState,
}
use monopoly_be.Helpers.{
  space_at, positions_in_color_group, cash, get_player_by_id_from_state, find_player, space_at,
  find_ownership, positions_in_color_group, owns_unmortgaged, replace_space,
  update_player_net_worth, compute_net_worth, worth_of_positions, write_space, replace_player,
  find_index, refresh_all_net_worth,
}
use monopoly_be.Building.{building_level, build_house}
use monopoly_be.Building.Supply.{IsSupplied, houses_on, hotels_on, building-IsSupplied}
use monopoly_be.Surrender.{resolve_surrender}
use monopoly_be.Surrender.Money.{resolve_surrender-cash}
use monopoly_be.Surrender.Supply.{resolve_surrender-IsSupplied}
use monopoly_be.Bankruptcy.{resolve_bankruptcy}
use monopoly_be.Bankruptcy.Leak.{resolve_bankruptcy-loses_houses}
use monopoly_be.Tests.Fixture.{owned_space, start, after, three, board}

start-IsSupplied : IsSupplied (pos 32) (pos 12) start
unfolding houses_on hotels_on ◌+ℤ◌
start-IsSupplied = record {
  regular = (
    (omega arith, λ h. absurd cc),
    (
      (omega arith, λ h. absurd cc),
      (
        (omega arith, λ h. absurd cc),
        ((omega arith, λ h. absurd cc), ((omega arith, λ h. absurd cc), tt)),
      ),
    ),
  );
  all_houses = refl;
  all_hotels = refl;
}

building-IsSupplied_example : IsSupplied (pos 32) (pos 12) (after (build_house start 10 4))
unfolding build_house get_player_by_id_from_state find_player space_at find_ownership
    get_board_space positions_in_color_group get_game_config owns_unmortgaged replace_space
    update_player_net_worth compute_net_worth worth_of_positions write_space replace_player
    find_index refresh_all_net_worth
building-IsSupplied_example =
    building-IsSupplied start 10 4 (pos 32) (pos 12) start-IsSupplied (inl refl)

resolve_surrender-IsSupplied_example :
    IsSupplied (pos 32) (pos 12) (after (resolve_surrender start 10))
unfolding resolve_surrender get_player_by_id_from_state find_player space_at find_ownership
    replace_space write_space replace_player find_index refresh_all_net_worth
    update_player_net_worth compute_net_worth worth_of_positions check_win_condition
    advance_turn_off_player
resolve_surrender-IsSupplied_example =
    resolve_surrender-IsSupplied start 10 (pos 32) (pos 12) start-IsSupplied refl

-- 1501 is shared by two.
resolve_surrender-cash_example : cash (after (resolve_surrender start 10)).players ≡ cash three
unfolding resolve_surrender find_player get_player_by_id_from_state space_at find_ownership
    replace_space write_space replace_player find_index refresh_all_net_worth
    update_player_net_worth compute_net_worth worth_of_positions check_win_condition
    advance_turn_off_player
resolve_surrender-cash_example =
    resolve_surrender-cash start 10 refl (omega arith) (λ e. absurd cc) refl

abbrev bank_debt : BankruptcyState
bank_debt = record { debtor_id = 10; creditor_id = none; amount_owed = pos 2000 }

abbrev broke : GameState
broke = record start { bankruptcy = some bank_debt }

resolve_bankruptcy-loses_houses_example :
    (after (resolve_bankruptcy broke 10)).bank_houses
      +ℤ pos (houses_on (after (resolve_bankruptcy broke 10)).spaces)
    <ℤ pos 30 +ℤ pos (houses_on board)
unfolding resolve_bankruptcy find_player space_at find_ownership get_player_by_id_from_state
    replace_space write_space replace_player find_index refresh_all_net_worth
    update_player_net_worth compute_net_worth worth_of_positions check_win_condition
    advance_turn_off_player
resolve_bankruptcy-loses_houses_example =
    resolve_bankruptcy-loses_houses broke bank_debt 2 (4 ∷ 6 ∷ []) refl refl refl refl refl
      (omega arith) refl

resolve_surrender-keeps_debt_example :
    ((after (resolve_surrender broke 10)).bankruptcy ≡ some bank_debt)
    × ((pid : ℕ) (r : GameState × List GameEvent)
        → handle_end_turn (after (resolve_surrender broke 10)) pid ≢ ok r)
unfolding resolve_surrender get_player_by_id_from_state find_player space_at find_ownership
    replace_space write_space replace_player find_index refresh_all_net_worth
    update_player_net_worth compute_net_worth worth_of_positions check_win_condition
    advance_turn_off_player
resolve_surrender-keeps_debt_example = resolve_surrender-keeps_debt broke 10 bank_debt refl refl

one_house_level :
    (n : ℕ) (r : SpaceOwnership)
    → space_at board n ≡ ok r
    → building_level r ≡ 1
    → (q : SpaceOwnership) → space_at board n ≡ ok q
    → (1 ≤ building_level q) × (building_level q ≤ 1 + 1)
one_house_level n r at level q at' =
    let same : r ≡ q = ok-injective (sym at ∙ at') in
    let level' : building_level q ≡ 1 = ap building_level (sym same) ∙ level in
    (omega (arith, level'), omega (arith, level'))

build_house-IsEven_example :
    ((q : SpaceOwnership) × (space_at (after (build_house start 10 4)).spaces 4 ≡ ok q)
      × (building_level q ≡ 2))
    × IsEven
        (after (build_house start 10 4)).spaces
        (positions_in_color_group PropertyColor.brown GameMode.normal)
        1
unfolding build_house get_board_space space_at find_ownership positions_in_color_group
    get_game_config get_player_by_id_from_state find_player owns_unmortgaged replace_space
    update_player_net_worth compute_net_worth worth_of_positions write_space replace_player
    find_index refresh_all_net_worth
build_house-IsEven_example =
    build_house-IsEven start 10 4 1 refl refl refl (omega arith)
      (
        one_house_level 2 (owned_space 2 (some 10) 1) refl refl,
        (one_house_level 4 (owned_space 4 (some 10) 1) refl refl, tt),
      )
      refl

building-IsRefreshed_example : IsRefreshed (after (build_house start 10 4))
unfolding build_house get_player_by_id_from_state find_player space_at find_ownership
    get_board_space positions_in_color_group get_game_config owns_unmortgaged replace_space
    update_player_net_worth compute_net_worth worth_of_positions write_space replace_player
    find_index refresh_all_net_worth
building-IsRefreshed_example = building-IsRefreshed start 10 4 (inl refl)
