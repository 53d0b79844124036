-- ===== src/Schema/Enums.antt =====
-- src/domain/game/enums.py: the enumerations, with the equality tests that the rules make.
use monopoly_be.Prelude.{ℕ, Bool, true, false, ◌==◌, List, any}

pub data GameMode : Type 0 where
  normal duel : GameMode

pub data SpaceType : Type 0 where
  corner property railroad utility chance chest tax : SpaceType

pub data CornerVariant : Type 0 where
  go jail parking goto_jail : CornerVariant

pub data PropertyColor : Type 0 where
  brown cyan pink orange red yellow green blue : PropertyColor

pub data GameStatus : Type 0 where
  lobby in_progress finished : GameStatus

pub data TurnPhase : Type 0 where
  pre_roll jail_decision post_roll must_pay_rent drawing_card auction : TurnPhase
  trade_negotiation bankrupt_resolution game_over : TurnPhase

pub data TokenColor : Type 0 where
  blue red green yellow orange pink cyan brown gold ink : TokenColor

pub data LogKind : Type 0 where
  event chat sticker : LogKind

pub data CardKind : Type 0 where
  chance community_chest : CardKind

pub data TradeStatus : Type 0 where
  pending countered accepted rejected cancelled : TradeStatus

pub data TradeResponse : Type 0 where
  accept reject counter : TradeResponse

abbrev phase_code : TurnPhase → ℕ
phase_code TurnPhase.pre_roll = 0
phase_code TurnPhase.jail_decision = 1
phase_code TurnPhase.post_roll = 2
phase_code TurnPhase.must_pay_rent = 3
phase_code TurnPhase.drawing_card = 4
phase_code TurnPhase.auction = 5
phase_code TurnPhase.trade_negotiation = 6
phase_code TurnPhase.bankrupt_resolution = 7
phase_code TurnPhase.game_over = 8

abbrev pub is_phase : TurnPhase → TurnPhase → Bool
is_phase p q = phase_code p == phase_code q

-- `phase in (…)`
abbrev pub phase_in : List TurnPhase → TurnPhase → Bool
phase_in ps q = any (is_phase q) ps

abbrev color_code : PropertyColor → ℕ
color_code PropertyColor.brown = 0
color_code PropertyColor.cyan = 1
color_code PropertyColor.pink = 2
color_code PropertyColor.orange = 3
color_code PropertyColor.red = 4
color_code PropertyColor.yellow = 5
color_code PropertyColor.green = 6
color_code PropertyColor.blue = 7

abbrev pub is_color : PropertyColor → PropertyColor → Bool
is_color a b = color_code a == color_code b

abbrev space_code : SpaceType → ℕ
space_code SpaceType.corner = 0
space_code SpaceType.property = 1
space_code SpaceType.railroad = 2
space_code SpaceType.utility = 3
space_code SpaceType.chance = 4
space_code SpaceType.chest = 5
space_code SpaceType.tax = 6

abbrev pub is_space_type : SpaceType → SpaceType → Bool
is_space_type a b = space_code a == space_code b

abbrev pub is_in_progress : GameStatus → Bool
is_in_progress GameStatus.in_progress = true
is_in_progress _ = false

abbrev pub is_finished : GameStatus → Bool
is_finished GameStatus.finished = true
is_finished _ = false
