-- ===== src/Landing/Charges.antt =====
-- movement.py (`resolve_landing`): what a landing on a tax space or on another player's property costs.
use monopoly_be.Prelude.{
  ℕ, Bool, true, false, ◌+◌, ◌≡◌, ◌≢◌, ◌⊎◌, Option, none, some, [], ◌∷◌, pos, ok,
}
use monopoly_be.Schema.{
  SpaceType, DiceRoll, PlayerState, SpaceOwnership, GameState, GameEvent, tax_paid, rent_paid,
}
use monopoly_be.Board.{BoardSpace, get_board_space}
use monopoly_be.Helpers.{find_player, space_at}
use monopoly_be.Rent.{calculate_rent}
use monopoly_be.Random.{Random}
use monopoly_be.Landing.Effects.{Landed, Landing}
use monopoly_be.Landing.Spaces.{is_goto_jail}
use monopoly_be.Landing.Charged.{Charged}

-- The landing with a receipt, or without one where a debt opens.
abbrev pub IsSettledUp :
    {S : Type 0} → GameState → (i n : ℕ) → Option ℕ → GameEvent → Landed S → Type 0
IsSettledUp s i n c receipt r =
    (Charged s i n c r.state true × (r.events ≡ receipt ∷ []))
    ⊎ (Charged s i n c r.state false × (r.events ≡ []))

abbrev pub rent_receipt : PlayerState → PlayerState → BoardSpace → ℕ → GameEvent
rent_receipt payer owner space rent = rent_paid (record {
  payer_id = payer.id;
  payer_name = payer.display_name;
  owner_id = owner.id;
  owner_name = owner.display_name;
  position = payer.position;
  property_name = space.name;
  amount = pos rent;
})

-- The spaces that are bought.
abbrev pub is_for_sale : SpaceType → Bool
is_for_sale SpaceType.property = true
is_for_sale SpaceType.railroad = true
is_for_sale SpaceType.utility = true
is_for_sale _ = false

-- What a player who lands owes, to whom, and the receipt: the tax of the space to the bank, or the rent to
-- another player who owns it without a mortgage.
pub data Due (s : GameState) (p : PlayerState) (d : DiceRoll) (m : ℕ)
    : ℕ → Option ℕ → GameEvent → Type 0 where
  tax_due :
      {space : BoardSpace} {n : ℕ}
      → get_board_space p.position s.game_mode ≡ ok space
      → is_goto_jail space.corner ≡ false
      → space.type ≡ SpaceType.tax
      → space.tax_amount ≡ some n
      → Due s p d m n none (tax_paid p.id p.display_name p.position (pos n))
  rent_due :
      {space : BoardSpace} {held : SpaceOwnership} {owner n : ℕ} {o : PlayerState}
      → get_board_space p.position s.game_mode ≡ ok space
      → is_goto_jail space.corner ≡ false
      → is_for_sale space.type ≡ true
      → space_at s.spaces p.position ≡ ok held
      → held.owner_id ≡ some owner
      → owner ≢ p.id
      → held.is_mortgaged ≡ false
      → find_player s.players owner ≡ some o
      → calculate_rent s p.position (d.die1 + d.die2) m ≡ ok n
      → Due s p d m n (some o.id) (rent_receipt p o space n)
