-- ===== src/Cards/Draw.antt =====
-- cards.py (`draw_card`): no card of a deck is lost or doubled by a draw.
use mathlib.Core.List.{Perm}
use mathlib.Core.List.Perm
use monopoly_be.Prelude.{Bool, true, false, String, List, [], ◌∷◌}
use monopoly_be.Schema.{
  advance_to, advance_to_nearest, go_back, collect, pay, collect_from_each_player, pay_each_player,
  repairs, repairs, pay_each_player, collect_from_each_player, pay, collect, go_back,
  advance_to_nearest, advance_to, CardEffect, get_out_of_jail_free,
}
use monopoly_be.Random.{Random}

-- The cards that a draw chooses from: an empty deck is filled anew first.
abbrev pub cards_in_play : List String → List String → List String
cards_in_play [] full = full
cards_in_play (c ∷ deck) full = c ∷ deck

-- The deck after a draw, with the card back where the player keeps it.
abbrev pub with_kept_card : CardEffect → String → List String → List String
with_kept_card get_out_of_jail_free card_id deck = card_id ∷ deck
with_kept_card _ card_id deck = deck

-- The cards that a player keeps.
abbrev pub is_kept : CardEffect → Bool
is_kept get_out_of_jail_free = true
is_kept _ = false
