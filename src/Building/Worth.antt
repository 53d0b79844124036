-- ===== src/Building/Worth.antt =====
-- building.py, with helpers.py (`compute_net_worth`): the net worths that the state keeps.
use monopoly_be.Prelude.{
  Option, none, some, ◌+◌, ◌*◌, pos, ◌+ℤ◌, int_laws, ℕ, ◌≡◌, refl, ap, ◌∙◌, sym, subst, inl, inr,
  ◌⊎◌, true, false, List, [], ◌∷◌, All, ◌==◌, Bool-cases, ℤ, ok, >>=-eq-ok, ok-injective,
}
use monopoly_be.Schema.{GameState, PlayerState, SpaceOwnership, GameMode}
use monopoly_be.Board.{BoardSpace, get_board_space}
use monopoly_be.Helpers.{
  or_zero, position_worth, worth_of_positions, compute_net_worth, update_player_net_worth,
  refresh_all_net_worth, update-eq-ok, get_player_by_id_from_state, space_at, replace_space,
  replace_player,
}
use monopoly_be.Building.{
  pay_and_write, rewrite_space, build_house, sell_house, mortgage_property, unmortgage_property,
  built, sold, take_building, return_building, cost_of_house, sale_of_house, loan, repayment,
  can_build_on, can_sell_on, can_mortgage, can_unmortgage,
}
use monopoly_be.Building.Supply.{guarded-eq-ok}

-- What an unmortgaged property is worth: its price, and the cost of its houses, of which a hotel is five.
pub record IsFreeAt (space : BoardSpace) (o : SpaceOwnership) (worth : ℕ) : Type 0 where
  pub free : o.is_mortgaged ≡ false
  pub price : ℕ
  pub house_cost : ℕ
  pub houses : ℕ
  pub price_of : (space.price ≡ some price) ⊎ ((space.price ≡ none) × (price ≡ 0))
  pub cost_of :
      (space.house_cost ≡ some house_cost) ⊎ ((space.house_cost ≡ none) × (house_cost ≡ 0))
  pub houses_of :
      ((o.has_hotel ≡ true) × (houses ≡ 5)) ⊎ ((o.has_hotel ≡ false) × (houses ≡ o.houses))
  pub total : worth ≡ price + house_cost * houses

-- Properties and what they are worth together; a mortgaged one is worth nothing.
pub data Worth (spaces : List SpaceOwnership) (mode : GameMode) : List ℕ → ℕ → Type 0 where
  no_property : Worth spaces mode [] 0
  mortgaged :
      {n : ℕ} {owned : List ℕ} {rest : ℕ} {o : SpaceOwnership}
      → space_at spaces n ≡ ok o
      → o.is_mortgaged ≡ true
      → Worth spaces mode owned rest
      → Worth spaces mode (n ∷ owned) rest
  unmortgaged :
      {n : ℕ} {owned : List ℕ} {worth rest : ℕ} {space : BoardSpace} {o : SpaceOwnership}
      → get_board_space n mode ≡ ok space
      → space_at spaces n ≡ ok o
      → IsFreeAt space o worth
      → Worth spaces mode owned rest
      → Worth spaces mode (n ∷ owned) (worth + rest)

-- The net worth that a player keeps is the balance and what the properties are worth.
abbrev pub HasWorth : List SpaceOwnership → GameMode → PlayerState → Type 0
HasWorth spaces mode p =
    (worth : ℕ) × Worth spaces mode p.owned_positions worth × (p.net_worth ≡ p.balance +ℤ pos worth)

or_zero-cases :
    (price : Option ℕ) → (price ≡ some (or_zero price)) ⊎ ((price ≡ none) × (or_zero price ≡ 0))
or_zero-cases none = inr (refl, refl)
or_zero-cases (some n) = inl refl

position_worth-cases :
    (space : BoardSpace) (o : SpaceOwnership)
    → ((o.is_mortgaged ≡ true) × (position_worth space o ≡ 0))
      ⊎ IsFreeAt space o (position_worth space o)
unfolding position_worth
position_worth-cases space o = elim (Bool-cases o.is_mortgaged) [
  | inl taken ↦ inl (taken, rw taken refl)
  | inr free ↦ inr (elim (Bool-cases o.has_hotel) [
    | inl hotel ↦ record {
      free = free;
      price = or_zero space.price;
      house_cost = or_zero space.house_cost;
      houses = 5;
      price_of = or_zero-cases space.price;
      cost_of = or_zero-cases space.house_cost;
      houses_of = inl (hotel, refl);
      total = rw (free, hotel) refl;
    }
    | inr none_built ↦ record {
      free = free;
      price = or_zero space.price;
      house_cost = or_zero space.house_cost;
      houses = o.houses;
      price_of = or_zero-cases space.price;
      cost_of = or_zero-cases space.house_cost;
      houses_of = inr (none_built, refl);
      total = rw (free, none_built) refl;
    }
  ])
]

worth_of_positions-Worth :
    (owned : List ℕ) (spaces : List SpaceOwnership) (mode : GameMode) (start : ℤ) {total : ℤ}
    → worth_of_positions owned spaces mode start ≡ ok total
    → (worth : ℕ) × Worth spaces mode owned worth × (total ≡ start +ℤ pos worth)
unfolding worth_of_positions
worth_of_positions-Worth [] spaces mode start {total} h =
    (0, no_property, sym (ok-injective h) ∙ omega int_laws)
worth_of_positions-Worth (n ∷ owned) spaces mode start {total} h =
    let (space, at, k) = >>=-eq-ok (get_board_space n mode) _ h in
    let (o, held, k1) = >>=-eq-ok (space_at spaces n) _ k in
    let (rest, worth, e) =
      worth_of_positions-Worth owned spaces mode (start +ℤ pos (position_worth space o)) k1 in
    elim (position_worth-cases space o) [
      | inl (taken, nothing) ↦ (rest, mortgaged held taken worth, e ∙ (rw nothing (omega int_laws)))
      | inr free ↦
          (position_worth space o + rest, unmortgaged at held free worth, e ∙ omega int_laws)
    ]

abbrev pub IsRefreshed : GameState → Type 0
IsRefreshed s = All (HasWorth s.spaces s.game_mode) s.players

refresh-HasWorth :
    (players : List PlayerState) (spaces : List SpaceOwnership) (mode : GameMode)
    {players' : List PlayerState}
    → refresh_all_net_worth players spaces mode ≡ ok players'
    → All (HasWorth spaces mode) players'
unfolding refresh_all_net_worth compute_net_worth
refresh-HasWorth [] spaces mode h = subst (All (HasWorth spaces mode)) (ok-injective h) tt
refresh-HasWorth (p ∷ players) spaces mode h =
    let (q, e, k) = >>=-eq-ok (update_player_net_worth p spaces mode) _ h in
    let (rest, e', k') = >>=-eq-ok (refresh_all_net_worth players spaces mode) _ k in
    let (n, worth, shape) = update-eq-ok p spaces mode e in
    let head : HasWorth spaces mode q =
      subst (HasWorth spaces mode) (sym shape)
        (worth_of_positions-Worth p.owned_positions spaces mode p.balance worth) in
    subst (All (HasWorth spaces mode)) (ok-injective k')
      (head, refresh-HasWorth players spaces mode e')

rewrite_space-IsRefreshed :
    (s : GameState) (i n : ℕ) (change : SpaceOwnership → SpaceOwnership)
    (balance : PlayerState → BoardSpace → ℤ) {o : SpaceOwnership} {s' : GameState}
    → rewrite_space s i n change balance ≡ ok (o, s')
    → IsRefreshed s'
unfolding rewrite_space pay_and_write
rewrite_space-IsRefreshed s i n change balance {o} {s'} h =
    let (p, _, k) = >>=-eq-ok (get_player_by_id_from_state s i) _ h in
    let (r, _, k1) = >>=-eq-ok (space_at s.spaces n) _ k in
    let (space, _, k2) = >>=-eq-ok (get_board_space n s.game_mode) _ k1 in
    let (spaces, _, k3) = >>=-eq-ok (replace_space s.spaces n (change r)) _ k2 in
    let (paid, e, k4) = >>=-eq-ok (pay_and_write s p i (balance p space) spaces) _ k3 in
    let (updated, _, e1) =
      >>=-eq-ok
        (update_player_net_worth (record p { balance = balance p space }) spaces s.game_mode) _ e in
    let (players, _, e2) = >>=-eq-ok (replace_player s.players i updated) _ e1 in
    let (refreshed, done, e3) = >>=-eq-ok (refresh_all_net_worth players spaces s.game_mode) _ e2 in
    subst IsRefreshed (ok-injective e3 ∙ ap (λ x. x.1) (ok-injective k4))
      (refresh-HasWorth players spaces s.game_mode done)

take_building-IsRefreshed :
    (o : SpaceOwnership) (s : GameState) → IsRefreshed s → IsRefreshed (take_building o s)
unfolding take_building
take_building-IsRefreshed o s v = elim (Bool-cases (o.houses == 4)) [
  | inl e ↦ rw e v
  | inr e ↦ rw e v
]

return_building-IsRefreshed :
    (o : SpaceOwnership) (s : GameState) → IsRefreshed s → IsRefreshed (return_building o s)
unfolding return_building
return_building-IsRefreshed o s v = elim (Bool-cases o.has_hotel) [
  | inl e ↦ rw e v
  | inr e ↦ rw e v
]

-- Whichever of the four building operations returns, the net worth that each player keeps afterwards is the one that
-- the balance and the unmortgaged properties make, each with its price and the cost of its houses, where a hotel is
-- five, whatever it was before.
pub building-IsRefreshed :
    (s : GameState) (i n : ℕ) {s' : GameState}
    → (build_house s i n ≡ ok s')
      ⊎ (sell_house s i n ≡ ok s')
      ⊎ (mortgage_property s i n ≡ ok s')
      ⊎ (unmortgage_property s i n ≡ ok s')
    → IsRefreshed s'
unfolding build_house sell_house mortgage_property unmortgage_property
building-IsRefreshed s i n (inl h) =
    let (_, k) = guarded-eq-ok (can_build_on s i n) _ _ h in
    let ((o, paid), e, k') = >>=-eq-ok (rewrite_space s i n built cost_of_house) _ k in
    subst IsRefreshed (ok-injective k')
      (take_building-IsRefreshed o paid (rewrite_space-IsRefreshed s i n built cost_of_house e))
building-IsRefreshed s i n (inr (inl h)) =
    let (_, k) = guarded-eq-ok (can_sell_on s i n) _ _ h in
    let ((o, paid), e, k') = >>=-eq-ok (rewrite_space s i n sold sale_of_house) _ k in
    subst IsRefreshed (ok-injective k')
      (return_building-IsRefreshed o paid (rewrite_space-IsRefreshed s i n sold sale_of_house e))
building-IsRefreshed s i n (inr (inr (inl h))) =
    let (_, k) = guarded-eq-ok (can_mortgage s i n) _ _ h in
    let ((o, paid), e, k') =
      >>=-eq-ok (rewrite_space s i n (λ x. record x { is_mortgaged = true }) loan) _ k in
    subst IsRefreshed (ok-injective k')
      (rewrite_space-IsRefreshed s i n (λ x. record x { is_mortgaged = true }) loan e)
building-IsRefreshed s i n (inr (inr (inr h))) =
    let (_, k) = guarded-eq-ok (can_unmortgage s i n) _ _ h in
    let ((o, paid), e, k') =
      >>=-eq-ok (rewrite_space s i n (λ x. record x { is_mortgaged = false }) repayment) _ k in
    subst IsRefreshed (ok-injective k')
      (rewrite_space-IsRefreshed s i n (λ x. record x { is_mortgaged = false }) repayment e)
