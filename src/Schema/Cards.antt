-- ===== src/Schema/Cards.antt =====
-- src/domain/game/schemas/cards.py: the effects of the cards, and the cards. Card ids are texts.
use monopoly_be.Prelude.{ℕ, Bool, String, ℤ}
use monopoly_be.Schema.Enums.{CardKind}

-- The literals of `AdvanceToNearestEffect.space_type`.
pub data NearestType : Type 0 where
  railroad utility : NearestType

-- A constructor for each effect class, with its fields.
pub data CardEffect : Type 0 where
  advance_to : ℕ → Bool → CardEffect
  advance_to_nearest : NearestType → Bool → CardEffect
  go_to_jail : CardEffect
  go_back : ℕ → CardEffect
  collect pay collect_from_each_player pay_each_player : ℤ → CardEffect
  get_out_of_jail_free : CardEffect
  repairs : ℤ → ℤ → CardEffect

pub record CardDef : Type 0 where
  pub id : String
  pub kind : CardKind
  pub effect : CardEffect

pub record ActiveCard : Type 0 where
  pub id : String
  pub kind : CardKind
  pub effect : CardEffect
  pub drawer_id : ℕ
