-- ===== src/Engine/Settled.antt =====
-- engine.py (`apply`): whose commands are taken, and what holds after a command.
use monopoly_be.Prelude.{
  ℤ, ◌⊎◌, inl, inr, Bool-cases, ℕ, ◌≡◌, refl, ap, ◌∙◌, sym, subst, Bool, true, false, not, Option,
  none, some, List, ◌==◌, arith, ◌<ℤ◌, ok, err, illegal_move, >>=-eq-ok, ok-injective,
}
use monopoly_be.Schema.{
  TradeResponse, TradeOffer, respond_trade, place_bid, PlayerCommand, BankruptcyState, GameState,
  PlayerState, GameCommand, GameEvent, player, system,
}
use monopoly_be.Helpers.{get_player_by_id_from_state, get_player_by_id, find_player}
use monopoly_be.Turns.{check_win_condition}
use monopoly_be.Turns.Frame.{check_win_condition-SameAssets}
use monopoly_be.Engine.Roll.{Handled}
use monopoly_be.Engine.Handlers.{handle_system}
use monopoly_be.Timer.{with_turn_deadline}
use monopoly_be.Actions.{with_actions, compute_actions}
use monopoly_be.Payments.{settle, try_settle_debt}
use monopoly_be.Random.{Random}
use monopoly_be.Engine.Apply.{
  Call, finish, append_log, clear_active_card, apply, apply_own, assert_current_player, is_reply,
  with_rng, reset_actor_strikes, dispatch_player_command,
}

-- Fields that a settlement reads.
record SameDebt (s s' : GameState) : Type 0 where
  players : s'.players ≡ s.players
  bankruptcy : s'.bankruptcy ≡ s.bankruptcy

-- A debt, if one is open, that its debtor cannot pay.
abbrev pub IsSettled : GameState → Type 0
IsSettled s =
    (debt : BankruptcyState) (p : PlayerState)
    → s.bankruptcy ≡ some debt
    → find_player s.players debt.debtor_id ≡ some p
    → p.balance <ℤ debt.amount_owed

settle-IsSettled :
    (s : GameState) (d : Option BankruptcyState) {s' : GameState}
    → s.bankruptcy ≡ d
    → settle s d ≡ ok s'
    → IsSettled s'
unfolding settle get_player_by_id_from_state get_player_by_id
settle-IsSettled s none {s'} e h =
    λ debt p open_debt found. absurd (cc (e, ap (λ x. x.bankruptcy) (ok-injective h), open_debt))
settle-IsSettled s (some d) {s'} e h = λ debt p open_debt found. ground arith

try_settle_debt-IsSettled :
    (s : GameState) {s' : GameState} → try_settle_debt s ≡ ok s' → IsSettled s'
unfolding try_settle_debt
try_settle_debt-IsSettled s h = settle-IsSettled s s.bankruptcy refl h

SameDebt-IsSettled : (s s' : GameState) → SameDebt s s' → IsSettled s → IsSettled s'
SameDebt-IsSettled s s' same v = λ debt p open_debt found.
    v debt p (sym same.bankruptcy ∙ open_debt)
      (ap (λ x. find_player x debt.debtor_id) (sym same.players) ∙ found)

with_actions-SameDebt :
    (s : GameState) (i : Option ℕ) {s' : GameState} → with_actions s i ≡ ok s' → SameDebt s s'
unfolding with_actions
with_actions-SameDebt s i h =
    let (actions, _, k) = >>=-eq-ok (compute_actions s i) _ h in
    let shape = ok-injective k in
    record {
      players = ap (λ x. x.players) (sym shape);
      bankruptcy = ap (λ x. x.bankruptcy) (sym shape);
    }

finish-IsSettled :
    (s changed : GameState) (command : GameCommand) (events : List GameEvent) (call : Call)
    {s' : GameState} {events' : List GameEvent}
    → finish s changed command events call ≡ ok (s', events')
    → IsSettled s'
unfolding finish append_log with_turn_deadline
finish-IsSettled s changed command events call {s'} h =
    let (settled, e, k) = >>=-eq-ok (try_settle_debt (clear_active_card s changed command)) _ h in
    let (final, e', k') =
      >>=-eq-ok
        (with_actions
          (append_log (with_turn_deadline (check_win_condition settled) call.now) events call) none)
        _ k in
    let won = check_win_condition-SameAssets settled in
    let acted = with_actions-SameDebt _ none e' in
    let same : final ≡ s' = ap (λ x. x.0) (ok-injective k') in
    SameDebt-IsSettled settled s'
      (record {
        players = ap (λ x. x.players) (sym same) ∙ acted.players ∙ won.players;
        bankruptcy = ap (λ x. x.bankruptcy) (sym same) ∙ acted.bankruptcy ∙ won.bankruptcy;
      })
      (try_settle_debt-IsSettled (clear_active_card s changed command) e)

-- A command that is no answer to a trade and no bid.
abbrev pub is_direct : GameCommand → Bool
is_direct (player pid command) = not (is_reply command)
is_direct (system command) = true

-- The commands that a player may send out of turn.
pub data IsAnswer : PlayerCommand → Type 0 where
  answers_trade :
      (trade_id : ℕ) (response : TradeResponse) (counter_offer : Option TradeOffer)
      → IsAnswer (respond_trade trade_id response counter_offer)
  bids : (amount : ℤ) → IsAnswer (place_bid amount)

own_or_IsAnswer : (command : PlayerCommand) → (is_reply command ≡ false) ⊎ IsAnswer command
unfolding is_reply
own_or_IsAnswer (respond_trade trade_id response counter_offer) =
    inr (answers_trade trade_id response counter_offer)
own_or_IsAnswer (place_bid amount) = inr (bids amount)
own_or_IsAnswer command = inl refl

module _ (R : Random) where
  with_rng-finish :
      (rng : R.State) (s changed : GameState) (command : GameCommand) (events : List GameEvent)
      (call : Call) {h : Handled R.State}
      → with_rng R rng (finish s changed command events call) ≡ ok h
      → IsSettled h.state
  unfolding with_rng
  with_rng-finish rng s changed command events call {h} k =
      let (c, e, k') = >>=-eq-ok (finish s changed command events call) _ k in
      subst (λ x. IsSettled x.state) (ok-injective k')
        (finish-IsSettled s changed command events call e)

  -- After every command of a player or of the system that returns, but for an answer to a trade and a bid, no debt is
  -- open that the debtor could pay: a debt that became payable has been settled.
  pub apply-IsSettled :
      (s : GameState) (command : GameCommand) (call : Call) (rng : R.State) {h : Handled R.State}
      → is_direct command ≡ true
      → apply R s command call rng ≡ ok h
      → IsSettled h.state
  unfolding apply apply_own
  apply-IsSettled s (player pid command) call rng direct k =
      let own : is_reply command ≡ false = ground arith in
      let k1 : apply_own R s pid command call rng ≡ ok _ = rw own at k in
      let (_, _, k2) = >>=-eq-ok (assert_current_player s pid) _ k1 in
      let (h, _, k3) = >>=-eq-ok (dispatch_player_command R s pid command call rng) _ k2 in
      with_rng-finish h.rng s (reset_actor_strikes h.state pid) (player pid command) h.events call
        k3
  apply-IsSettled s (system command) call rng direct k =
      let (c, _, k1) = >>=-eq-ok (handle_system s command call.now) _ k in
      with_rng-finish rng s (c.0) (system command) (c.1) call k1

  refused_or_current :
      (s : GameState) (pid : ℕ) (command : PlayerCommand) (call : Call) (rng : R.State)
      → is_reply command ≡ false
      → (s.turn.current_player_id ≡ pid)
        ⊎ (apply R s (player pid command) call rng ≡ err (illegal_move "not your turn"))
  unfolding apply apply_own assert_current_player
  refused_or_current s pid command call rng own =
      elim (Bool-cases (s.turn.current_player_id == pid)) [
        | inl same ↦ inl (ground (arith, same))
        | inr other ↦ inr (rw (own, other) refl)
      ]

  -- A player whose turn it is not can do nothing but answer a trade and bid: every command of a player comes from
  -- the current player, is an answer to a trade or a bid, or is refused with "not your turn".
  pub apply-out_of_turn :
      (s : GameState) (pid : ℕ) (command : PlayerCommand) (call : Call) (rng : R.State)
      → (s.turn.current_player_id ≡ pid)
        ⊎ IsAnswer command
        ⊎ (apply R s (player pid command) call rng ≡ err (illegal_move "not your turn"))
  apply-out_of_turn s pid command call rng = elim (own_or_IsAnswer command) [
    | inr answer ↦ inr (inl answer)
    | inl own ↦ elim (refused_or_current s pid command call rng own) [
      | inl same ↦ inl same
      | inr refused ↦ inr (inr refused)
    ]
  ]
