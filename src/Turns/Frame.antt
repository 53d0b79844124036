-- ===== src/Turns/Frame.antt =====
-- Handing the turn over and declaring a winner (bankruptcy.py) touch neither the players nor the spaces
-- nor the bank.
use monopoly_be.Prelude.{◌∙◌, subst, length, >>=-eq-ok, ℕ, ◌≡◌, Bool, Option, none, some, arith, ok}
use monopoly_be.Schema.{PlayerState, GameState}
use monopoly_be.Turns.{
  next_index, scan_players, hand_over, advance_turn_off_player, survivors, sole, declare_winner,
  check_win_condition,
}

-- The fields that the end of a turn leaves alone.
pub record SameAssets (s s' : GameState) : Type 0 where
  pub players : s'.players ≡ s.players
  pub spaces : s'.spaces ≡ s.spaces
  pub bank_houses : s'.bank_houses ≡ s.bank_houses
  pub bank_hotels : s'.bank_hotels ≡ s.bank_hotels
  pub game_mode : s'.game_mode ≡ s.game_mode
  pub bankruptcy : s'.bankruptcy ≡ s.bankruptcy

hand_over-SameAssets :
    (s : GameState) (found : Option (PlayerState × Bool)) → SameAssets s (hand_over s found)
unfolding hand_over
hand_over-SameAssets s none = ground arith
hand_over-SameAssets s (some (p, b)) = ground arith

pub advance_turn_off_player-SameAssets :
    (s : GameState) (i : ℕ) {s' : GameState} → advance_turn_off_player s i ≡ ok s' → SameAssets s s'
unfolding advance_turn_off_player
advance_turn_off_player-SameAssets s i h =
    let (start, _, k) = >>=-eq-ok (next_index s.players i) _ h in
    let (found, _, k') = >>=-eq-ok (scan_players (length s.players) s.players start 1) _ k in
    subst (SameAssets s) (cc k') (hand_over-SameAssets s found)

declare_winner-SameAssets :
    (s : GameState) (w : Option PlayerState) → SameAssets s (declare_winner s w)
unfolding declare_winner
declare_winner-SameAssets s none = ground arith
declare_winner-SameAssets s (some w) = ground arith

pub check_win_condition-SameAssets : (s : GameState) → SameAssets s (check_win_condition s)
unfolding check_win_condition
check_win_condition-SameAssets s = declare_winner-SameAssets s (sole (survivors s.players))

pub SameAssets-trans : (s t u : GameState) → SameAssets s t → SameAssets t u → SameAssets s u
SameAssets-trans s t u h k = record {
  players = k.players ∙ h.players;
  spaces = k.spaces ∙ h.spaces;
  bank_houses = k.bank_houses ∙ h.bank_houses;
  bank_hotels = k.bank_hotels ∙ h.bank_hotels;
  game_mode = k.game_mode ∙ h.game_mode;
  bankruptcy = k.bankruptcy ∙ h.bankruptcy;
}
