-- ===== src/Gateway/Handlers.antt =====
-- src/gateway/handlers: the handler of each message, and their table. What the clock and `uuid4` hand
-- out comes with the call.
use monopoly_be.Prelude.{
  validation_error, ℕ, String, Error, Option, none, some, List, [], ◌∷◌, ◌++◌, if◌then◌else◌, ℤ,
  Result, ok, err,
}
use monopoly_be.Schema.{
  GameState, player, PlayerCommand, roll_dice, buy_property, pass_buy, end_turn, pay_jail_fine,
  use_jail_card, build_house, sell_house, mortgage, unmortgage, propose_trade, respond_trade,
  place_bid, declare_bankruptcy, surrender,
}
use monopoly_be.Random.{Random}
use monopoly_be.Animation.{AnimationInstruction}
use monopoly_be.Engine.{Call}
use monopoly_be.Store.{Collection}
use monopoly_be.Users.{UserDocument}
use monopoly_be.Sessions.{Session, SessionDocument, mark_finished}
use monopoly_be.Games.{GameDocument, apply_intent, authorize_continue}
use monopoly_be.Rating.{is_finished, apply_for_finished_game}
use monopoly_be.Gateway.Connections.{Connection}
use monopoly_be.Gateway.Messages.{
  WsErrorCode, Adapters, Effect, send_error, publish_game_state, publish_continue, publish_chat,
  publish_sticker, session_updated, pong, trade_response, error_reply,
}

module _ (R : Random) (G : Collection (GameDocument R.State)) (C : Collection SessionDocument)
    (U : Collection UserDocument) (gain : ℤ → ℕ → ℕ → ℤ → List ℤ → ℤ) where
  -- The stores of the games, the sessions and the users.
  pub record World : Type 0 where
    pub games : G.State
    pub sessions : C.State
    pub users : U.State

  -- What a handler returns: its effects, or an exception, and the stores after it.
  abbrev pub Handling : Type 0
  Handling = Result (List Effect) × World

  -- `_finish_session` of the gateway, after `mark_finished` has returned.
  unfoldable pub rate_and_announce :
      String → GameState → Option Session → World → List Effect × World
  rate_and_announce session_id state none world = ([], world)
  rate_and_announce session_id state (some session) world =
      let rated = apply_for_finished_game G U gain session_id state (world.games, world.users) in
      (
        session_updated session ∷ [],
        if session.ranked then record world { games = rated.0; users = rated.1 } else world,
      )

  unfoldable pub finish_session : String → GameState → ℤ → World → Handling
  finish_session session_id state now world =
      let marked = mark_finished C (λ user_id. none) (λ code. code) session_id now world.sessions in
      let after = record world { sessions = marked.1 } in
      elim marked.0 [
        | err e ↦ (err e, after)
        | ok session ↦
            let (effects, w) = rate_and_announce session_id state session after in (ok effects, w)
      ]

  -- What follows a command that was applied. The calls of `_finish_session` raise nothing of their own,
  -- so that no effect is lost with an exception.
  unfoldable pub announce : List Effect → Handling → Handling
  announce effects (err e, world) = (err e, world)
  announce effects (ok more, world) = (ok (effects ++ more), world)

  unfoldable pub answer_error : Error → Option Effect → World → Handling
  answer_error e none world = (err e, world)
  answer_error e (some effect) world = (ok (effect ∷ []), world)

  unfoldable pub publish_result :
      String → ℤ → Result (GameState × List AnimationInstruction) → World → Handling
  unfolding finish_session announce answer_error
  publish_result session_id now (err e) world = answer_error e (error_reply e) world
  publish_result session_id now (ok (state, timeline)) world =
      if is_finished state.status
      then announce (publish_game_state state timeline ∷ [])
          (finish_session session_id state now world)
      else (ok (publish_game_state state timeline ∷ []), world)

  -- `_apply_and_publish`
  unfoldable pub apply_and_publish : Connection → PlayerCommand → Call → World → Handling
  unfolding publish_result
  apply_and_publish conn command call world =
      let applied =
        apply_intent R G conn.session_id conn.user_id (player 0 command) call world.games in
      publish_result conn.session_id call.now applied.0 (record world { games = applied.1 })

  -- A payload that does not validate raises a `ValidationError`.
  abbrev validated : {A : Type 0} → Option A → World → (A → World → Handling) → Handling
  validated none world rest = (err validation_error, world)
  validated (some payload) world rest = rest payload world

  module _ {Raw : Type 0} (adapters : Adapters Raw) where
    abbrev pub Handler : Type 0
    Handler = Connection → Raw → Call → World → Handling

    -- The handlers whose payload is empty, or a position.
    bare : PlayerCommand → Handler
    bare command conn raw call world =
        validated (adapters.empty raw) world λ u w. apply_and_publish conn command call w

    at_position : (ℕ → PlayerCommand) → Handler
    at_position command conn raw call world =
        validated (adapters.position raw) world
          λ position w. apply_and_publish conn (command position) call w

    unfoldable pub handle_game_roll_dice : Handler
    unfolding bare
    handle_game_roll_dice = bare roll_dice

    unfoldable pub handle_game_buy_property : Handler
    unfolding at_position
    handle_game_buy_property = at_position buy_property

    unfoldable pub handle_game_pass_buy : Handler
    unfolding bare
    handle_game_pass_buy = bare pass_buy

    unfoldable pub handle_game_end_turn : Handler
    unfolding bare
    handle_game_end_turn = bare end_turn

    unfoldable pub handle_game_pay_jail_fine : Handler
    unfolding bare
    handle_game_pay_jail_fine = bare pay_jail_fine

    unfoldable pub handle_game_use_jail_card : Handler
    unfolding bare
    handle_game_use_jail_card = bare use_jail_card

    unfoldable pub handle_game_build_house : Handler
    unfolding at_position
    handle_game_build_house = at_position build_house

    unfoldable pub handle_game_sell_house : Handler
    unfolding at_position
    handle_game_sell_house = at_position sell_house

    unfoldable pub handle_game_mortgage : Handler
    unfolding at_position
    handle_game_mortgage = at_position mortgage

    unfoldable pub handle_game_unmortgage : Handler
    unfolding at_position
    handle_game_unmortgage = at_position unmortgage

    unfoldable pub handle_game_propose_trade : Handler
    handle_game_propose_trade conn raw call world =
        validated (adapters.propose_trade raw) world λ p w.
          apply_and_publish conn (propose_trade p.target_id p.proposer_offer p.target_request) call
            w

    unfoldable pub handle_game_respond_trade : Handler
    handle_game_respond_trade conn raw call world =
        validated (adapters.respond_trade raw) world λ p w. elim (trade_response p.response) [
          | err e ↦ (err e, w)
          | ok response ↦
              apply_and_publish conn (respond_trade p.trade_id response p.counter_offer) call w
        ]

    unfoldable pub handle_game_place_bid : Handler
    handle_game_place_bid conn raw call world =
        validated (adapters.amount raw) world
          λ amount w. apply_and_publish conn (place_bid amount) call w

    unfoldable pub handle_game_declare_bankruptcy : Handler
    unfolding bare
    handle_game_declare_bankruptcy = bare declare_bankruptcy

    unfoldable pub handle_game_surrender : Handler
    unfolding bare
    handle_game_surrender = bare surrender

    unfoldable pub handle_game_animation_continue : Handler
    handle_game_animation_continue conn raw call world =
        validated (adapters.interaction_id raw) world λ interaction_id w.
          if authorize_continue R G conn.session_id conn.user_id w.games
          then (ok (publish_continue interaction_id ∷ []), w)
          else (
            ok (
                send_error WsErrorCode.illegal_action "not allowed to continue this animation"
                ∷ []),
            w,
          )

    unfoldable pub handle_chat_send : Handler
    handle_chat_send conn raw call world =
        validated (adapters.chat_text raw) world
          λ content w. (ok (publish_chat conn.user_id conn.display_name content ∷ []), w)

    unfoldable pub handle_sticker_send : Handler
    handle_sticker_send conn raw call world =
        validated (adapters.sticker_url raw) world
          λ url w. (ok (publish_sticker conn.user_id conn.display_name url ∷ []), w)

    unfoldable pub handle_pong : Handler
    handle_pong conn raw call world = (ok (pong ∷ []), world)

    -- `HANDLERS`
    unfoldable pub handlers : List (String × Handler)
    handlers =
        ("chat.send", handle_chat_send)
        ∷ ("chat.sticker_send", handle_sticker_send)
        ∷ ("connection.pong", handle_pong)
        ∷ ("game.roll_dice", handle_game_roll_dice)
        ∷ ("game.buy_property", handle_game_buy_property)
        ∷ ("game.pass_buy", handle_game_pass_buy)
        ∷ ("game.end_turn", handle_game_end_turn)
        ∷ ("game.pay_jail_fine", handle_game_pay_jail_fine)
        ∷ ("game.use_jail_card", handle_game_use_jail_card)
        ∷ ("game.build_house", handle_game_build_house)
        ∷ ("game.sell_house", handle_game_sell_house)
        ∷ ("game.mortgage", handle_game_mortgage)
        ∷ ("game.unmortgage", handle_game_unmortgage)
        ∷ ("game.propose_trade", handle_game_propose_trade)
        ∷ ("game.respond_trade", handle_game_respond_trade)
        ∷ ("game.place_bid", handle_game_place_bid)
        ∷ ("game.declare_bankruptcy", handle_game_declare_bankruptcy)
        ∷ ("game.surrender", handle_game_surrender)
        ∷ ("game.animation_continue", handle_game_animation_continue)
        ∷ []
