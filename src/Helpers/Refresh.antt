-- ===== src/Helpers/Refresh.antt =====
-- The net worths of helpers.py: computing them anew changes no other field, and raises nothing where
-- every owned position has a board space and an ownership record.
use monopoly_be.Prelude.{
  ℕ, ◌≡◌, refl, ap, ◌∙◌, List, [], ◌∷◌, map, All, ℤ, pos, ◌+ℤ◌, ok, >>=-eq-ok,
}
use monopoly_be.Schema.{GameMode, PlayerState, SpaceOwnership}
use monopoly_be.Board.{BoardSpace, get_board_space}
use monopoly_be.Helpers.Spaces.{space_at}
use monopoly_be.Helpers.Worth.{
  position_worth, worth_of_positions, compute_net_worth, update_player_net_worth,
  refresh_all_net_worth,
}
use monopoly_be.Helpers.Writes.{sum_by}

pub update-eq-ok :
    (p : PlayerState) (spaces : List SpaceOwnership) (mode : GameMode) {q : PlayerState}
    → update_player_net_worth p spaces mode ≡ ok q
    → (n : ℤ) × (compute_net_worth p spaces mode ≡ ok n) × (q ≡ record p { net_worth = n })
unfolding update_player_net_worth
update-eq-ok p spaces mode h =
    let (n, e, k) =
      >>=-eq-ok (compute_net_worth p spaces mode) (λ (n : ℤ). ok (record p { net_worth = n })) h in
    (n, e, cc k)

-- A value of a player that does not depend on the net worth.
abbrev pub IgnoresWorth {ℓ} : {A : Type ℓ} → (PlayerState → A) → Type ℓ
IgnoresWorth f = (p : PlayerState) (n : ℤ) → f (record p { net_worth = n }) ≡ f p

pub update-IgnoresWorth {ℓ} :
    {A : Type ℓ} (f : PlayerState → A) (p : PlayerState) (spaces : List SpaceOwnership)
    (mode : GameMode) {q : PlayerState}
    → IgnoresWorth f
    → update_player_net_worth p spaces mode ≡ ok q
    → f q ≡ f p
update-IgnoresWorth f p spaces mode ig h =
    let (n, _, e) = update-eq-ok p spaces mode h in ap f e ∙ ig p n

-- Every such value is as it was for each player, in order.
pub map-refresh {ℓ} :
    {A : Type ℓ} (f : PlayerState → A) (players : List PlayerState) (spaces : List SpaceOwnership)
    (mode : GameMode) {players' : List PlayerState}
    → IgnoresWorth f
    → refresh_all_net_worth players spaces mode ≡ ok players'
    → map f players' ≡ map f players
unfolding refresh_all_net_worth
map-refresh f [] spaces mode ig h = cc
map-refresh f (p ∷ players) spaces mode {players'} ig h =
    let (q, e, k) = >>=-eq-ok (update_player_net_worth p spaces mode) _ h in
    let (rest, e', k') = >>=-eq-ok (refresh_all_net_worth players spaces mode) _ k in
    let head : f q ≡ f p = update-IgnoresWorth f p spaces mode ig e in
    let tail : map f rest ≡ map f players = map-refresh f players spaces mode ig e' in
    let shape : players' ≡ q ∷ rest = cc k' in rw (shape, head, tail)

sum_by-map :
    (w : PlayerState → ℤ) (xs ys : List PlayerState)
    → map w xs ≡ map w ys
    → sum_by w xs ≡ sum_by w ys
unfolding sum_by
sum_by-map w [] [] e = refl
sum_by-map w [] (y ∷ ys) e = cc
sum_by-map w (x ∷ xs) [] e = cc
sum_by-map w (x ∷ xs) (y ∷ ys) e =
    let head : w x ≡ w y = cc in
    let tail : map w xs ≡ map w ys = cc in rw (head, sum_by-map w xs ys tail)

pub sum_by-refresh :
    (w : PlayerState → ℤ) (players : List PlayerState) (spaces : List SpaceOwnership)
    (mode : GameMode) {players' : List PlayerState}
    → IgnoresWorth w
    → refresh_all_net_worth players spaces mode ≡ ok players'
    → sum_by w players' ≡ sum_by w players
sum_by-refresh w players spaces mode {players'} ig h =
    sum_by-map w players' players (map-refresh w players spaces mode ig h)

-- The position is on the board, and has an ownership record.
abbrev pub HasSpace : List SpaceOwnership → GameMode → ℕ → Type 0
HasSpace spaces mode n =
    (s : BoardSpace) × (o : SpaceOwnership) × (get_board_space n mode ≡ ok s)
    × (space_at spaces n ≡ ok o)

abbrev pub IsPlaced : List SpaceOwnership → GameMode → PlayerState → Type 0
IsPlaced spaces mode p = All (HasSpace spaces mode) p.owned_positions

worth-total :
    (positions : List ℕ) (spaces : List SpaceOwnership) (mode : GameMode) (total : ℤ)
    → All (HasSpace spaces mode) positions
    → (n : ℤ) × (worth_of_positions positions spaces mode total ≡ ok n)
unfolding worth_of_positions
worth-total [] spaces mode total h = (total, refl)
worth-total (p ∷ positions) spaces mode total ((s, o, es, eo), h) =
    let (n, e) = worth-total positions spaces mode (total +ℤ pos (position_worth s o)) h in
    (n, rw (es, eo, e))

pub update-total :
    (p : PlayerState) (spaces : List SpaceOwnership) (mode : GameMode)
    → IsPlaced spaces mode p
    → (q : PlayerState) × (update_player_net_worth p spaces mode ≡ ok q)
unfolding update_player_net_worth compute_net_worth
update-total p spaces mode h =
    let (n, e) = worth-total p.owned_positions spaces mode p.balance h in
    (record p { net_worth = n }, rw e)

pub refresh-total :
    (players : List PlayerState) (spaces : List SpaceOwnership) (mode : GameMode)
    → All (IsPlaced spaces mode) players
    → (rest : List PlayerState) × (refresh_all_net_worth players spaces mode ≡ ok rest)
unfolding refresh_all_net_worth
refresh-total [] spaces mode h = ([], refl)
refresh-total (p ∷ players) spaces mode h =
    let (q, e) = update-total p spaces mode h.0 in
    let (rest, e') = refresh-total players spaces mode h.1 in (q ∷ rest, rw (e, e'))
