-- ===== src/Engine/Purchase.antt =====
-- engine.py (`_handle_buy_property`): a purchase.
use monopoly_be.Board.{BoardSpace, get_board_space}
use monopoly_be.Prelude.{
  ℕ, ◌≡◌, refl, ap, ◌∙◌, sym, subst, true, false, Option, none, some, List, arith, is_some, pos,
  ◌+ℤ◌, ◌-ℤ◌, ◌≤ℤ◌, int_laws, same_parts, ok, >>=-eq-ok, ok-injective,
}
use monopoly_be.Schema.{SpaceOwnership, GameEvent, GameState, PlayerState}
use monopoly_be.Helpers.{
  space_at-position, space_at-write, write_space, replace_space-eq-ok, sum_by-write,
  replace_player-found, write_player, update-eq-ok, update-eq-ok, replace_player,
  update_player_net_worth, replace_space, space_at, get_player_by_id_from_state, get_player_by_id,
  find_player, cash, sum_by, find_player-id,
}
use monopoly_be.Engine.Handlers.{check_purchase, purchase, handle_buy_property, pending_is}

pending_is-some : (pending : Option ℕ) (n : ℕ) → pending_is pending n ≡ true → pending ≡ some n
unfolding pending_is
pending_is-some none n h = cc
pending_is-some (some m) n h = let same : m ≡ n = ground arith in ap some same

-- What the checks find out.
abbrev pub IsOffered :
    GameState → (i n : ℕ) → SpaceOwnership → PlayerState → BoardSpace → (price : ℕ) → Type 0
IsOffered s i n o p space price =
    (s.turn.pending_buy_position ≡ some n)
    × (space_at s.spaces n ≡ ok o)
    × (o.owner_id ≡ none)
    × (find_player s.players i ≡ some p)
    × (get_board_space n s.game_mode ≡ ok space)
    × (space.price ≡ some price)
    × (pos price ≤ℤ p.balance)

is_some-none : {A : Type 0} (o : Option A) → is_some o ≡ false → o ≡ none
is_some-none none h = refl
is_some-none (some a) h = cc

check_purchase-IsOffered :
    (s : GameState) (i n : ℕ) {o : SpaceOwnership} {p : PlayerState} {space : BoardSpace}
    {price : ℕ}
    → check_purchase s i n ≡ ok (o, p, space, price)
    → IsOffered s i n o p space price
unfolding check_purchase get_player_by_id_from_state get_player_by_id
check_purchase-IsOffered s i n {o} {p} {space} {price} h =
    ground (arith, pending_is-some s.turn.pending_buy_position n)

-- The writes: the owner changes and the price leaves the players' money.
purchase-cash :
    (s : GameState) (i n : ℕ) (o : SpaceOwnership) (p : PlayerState) (space : BoardSpace)
    (price : ℕ) {s' : GameState} {events : List GameEvent}
    → space_at s.spaces n ≡ ok o
    → find_player s.players i ≡ some p
    → purchase s n o p space price ≡ ok (s', events)
    → (space_at s'.spaces n ≡ ok (record o { owner_id = some i }))
      × (cash s'.players +ℤ pos price ≡ cash s.players)
      × (s'.turn.pending_buy_position ≡ none)
unfolding purchase cash
purchase-cash s i n o p space price {s'} at found h =
    let won = record o { owner_id = some p.id } in
    let same_id : p.id ≡ i = find_player-id s.players i found in
    let (written, r, k1) = >>=-eq-ok (replace_space s.spaces n won) _ h in
    let (q, e, k2) = >>=-eq-ok (update_player_net_worth _ written s.game_mode) _ k1 in
    let (paid, e', k3) = >>=-eq-ok (replace_player s.players p.id q) _ k2 in
    let (m, _, shape) = update-eq-ok _ written s.game_mode e in
    let balance : q.balance ≡ p.balance -ℤ pos price = ap (λ x. x.balance) shape in
    let paid_at : paid ≡ write_player s.players i q = ok-injective (
      sym (subst (λ j. replace_player s.players j q ≡ ok paid) same_id e')
      ∙ replace_player-found s.players i q found) in
    let out = sum_by-write (λ x. x.balance) s.players i q found in
    let after = ok-injective k3 in
    let there : space_at (write_space s.spaces n won) n ≡ ok won =
      space_at-write s.spaces n n won (space_at-position s.spaces n at) at ∙ ground arith in
    let owned : space_at written n ≡ ok (record o { owner_id = some i }) =
      ap (λ x. space_at x n) (replace_space-eq-ok s.spaces n won r)
      ∙ there
      ∙ ap (λ j. ok (record o { owner_id = some j })) same_id in
    (
      subst (λ x. space_at x n ≡ ok (record o { owner_id = some i })) (ap (λ x. x.0.spaces) after)
          owned,
      subst (λ x. sum_by (λ y. y.balance) x +ℤ pos price ≡ sum_by (λ y. y.balance) s.players)
          (sym paid_at ∙ ap (λ x. x.0.players) after)
          (omega (int_laws, same_parts out, same_parts balance)),
      ap (λ x. x.0.turn.pending_buy_position) (sym after),
    )

-- A purchase that returns is of the position that the turn offers. The position had no owner and has a
-- price, which the buyer held; the buyer owns it afterwards, the price leaves the players' money, and
-- nothing is on offer any more.
pub handle_buy_property_lem :
    (s : GameState) (i n : ℕ) {s' : GameState} {events : List GameEvent}
    → handle_buy_property s i n ≡ ok (s', events)
    → (o : SpaceOwnership) × (p : PlayerState) × (space : BoardSpace) × (price : ℕ) × IsOffered s i
        n o p space price
      × (space_at s'.spaces n ≡ ok (record o { owner_id = some i }))
      × (cash s'.players +ℤ pos price ≡ cash s.players)
      × (s'.turn.pending_buy_position ≡ none)
unfolding handle_buy_property
handle_buy_property_lem s i n h =
    let ((o, p, space, price), e, k) = >>=-eq-ok (check_purchase s i n) _ h in
    let offered = check_purchase-IsOffered s i n e in
    let (owned, paid, cleared) = purchase-cash s i n o p space price (offered.1) (offered.3) k in
    (o, p, space, price, offered, owned, paid, cleared)
