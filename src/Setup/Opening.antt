-- ===== src/Setup/Opening.antt =====
-- setup.py (`new_game`): what holds when a game starts.
use mathlib.Core.List.{Perm}
use mathlib.Core.List.Perm
use native.Mathlib.Nat.{mod-lt}
use monopoly_be.Prelude.{
  String, All-map, get_elem?-lt, ℕ, ◌+◌, ◌%◌, ◌≡◌, ◌≢◌, refl, ap, sym, subst, false, none, some,
  List, [], ◌∷◌, map, All, arith, length, get_elem?, ℤ, pos, int_laws, ok,
}
use monopoly_be.Cards.{initial_deck}
use monopoly_be.Schema.{CardKind, GameState, PlayerState, TurnPhase}
use monopoly_be.Board.{GameConfig, BoardSpace, token_colors, get_game_config}
use monopoly_be.Building.Supply.{IsRegular, IsSupplied, houses_on, hotels_on}
use monopoly_be.Payments.Money.{AllPlaced}
use monopoly_be.Timer.{or_default}
use monopoly_be.Helpers.{IsPlaced}
use monopoly_be.Random.{Random, IsRandom}
use monopoly_be.Setup.{
  GameMember, NewGame, seat, seat_members, free_spaces, opening_state, new_game,
}

free_spaces-IsRegular : (board : List BoardSpace) → All IsRegular (free_spaces board)
unfolding free_spaces
free_spaces-IsRegular [] = tt
free_spaces-IsRegular (space ∷ board) = ((omega arith, λ h. refl), free_spaces-IsRegular board)

houses_on-free_spaces :
    (board : List BoardSpace)
    → (houses_on (free_spaces board) ≡ 0) × (hotels_on (free_spaces board) ≡ 0)
unfolding free_spaces houses_on hotels_on
houses_on-free_spaces [] = (refl, refl)
houses_on-free_spaces (space ∷ board) =
    let (houses, hotels) = houses_on-free_spaces board in
    (omega (arith, houses), omega (arith, hotels))

-- A seat as the game starts: the balance, the start position, no property and not out.
abbrev pub IsSeated : GameConfig → ℤ → PlayerState → Type 0
IsSeated config balance p =
    (p.balance ≡ balance)
    × (p.position ≡ config.start_position)
    × (p.owned_positions ≡ [])
    × (p.is_bankrupt ≡ false)

abbrev pub player_user : PlayerState → String
player_user p = p.user_id

abbrev pub member_user : GameMember → String
member_user m = m.user_id

-- The loop returns, with a seat for each member in order.
seat_members-total :
    (config : GameConfig) (balance : ℤ) (player_id : ℕ → ℕ) (members : List GameMember) (n : ℕ)
    → (players : List PlayerState) × (seat_members config balance player_id members n ≡ ok players)
      × All (IsSeated config balance) players
      × (map player_user players ≡ map member_user members)
unfolding seat_members
seat_members-total config balance player_id [] n = ([], refl, tt, refl)
seat_members-total config balance player_id (member ∷ members) n =
    let (token, found) =
      get_elem?-lt token_colors (n % length token_colors) (mod-lt n (omega arith)) in
    let (players, e, seated, users) = seat_members-total config balance player_id members (n + 1) in
    (
      seat config balance player_id member n token ∷ players,
      rw (found, e) refl,
      ((refl, refl, refl, refl), seated),
      ap (λ x. member.user_id ∷ x) users,
    )

seated-IsPlaced :
    (config : GameConfig) (balance : ℤ) (s : GameState) (players : List PlayerState)
    → All (IsSeated config balance) players
    → All (IsPlaced s.spaces s.game_mode) players
seated-IsPlaced config balance s players =
    All-map (IsSeated config balance) (IsPlaced s.spaces s.game_mode) players
      (λ p (_, _, none_owned, _). subst (All _) (sym none_owned) tt)

-- Somebody sits where the members are some.
first_seat :
    (players : List PlayerState) (ordered members : List GameMember)
    → map player_user players ≡ map member_user ordered
    → Perm ordered members
    → members ≢ []
    → (first : PlayerState) × (get_elem? players 0 ≡ some first)
first_seat (p ∷ players) ordered members users perm ne = (p, refl)
first_seat [] [] members users perm ne = absurd (ne (sym (Perm.nil-eq perm)))
first_seat [] (m ∷ ordered) members users perm ne = absurd cc

-- What holds of a state in which a game starts.
pub record IsOpening (setup : NewGame) (s : GameState) : Type 0 where
  pub supplied : IsSupplied (pos 32) (pos 12) s
  pub bank : (s.bank_houses ≡ pos 32) × (s.bank_hotels ≡ pos 12)
  pub unbuilt : (houses_on s.spaces ≡ 0) × (hotels_on s.spaces ≡ 0)
  pub placed : AllPlaced s
  pub seated :
      All
        (IsSeated
          (get_game_config setup.game_mode)
          (or_default (get_game_config setup.game_mode).starting_balance setup.starting_balance))
        s.players
  pub users : Perm (map player_user s.players) (map member_user setup.members)
  pub no_debt : s.bankruptcy ≡ none
  pub first_player :
      (first : PlayerState) × (get_elem? s.players 0 ≡ some first)
      × (s.turn.current_player_id ≡ first.id)
      × (s.turn.phase ≡ TurnPhase.pre_roll)

module _ (R : Random) (v : IsRandom R) where
  -- With some member and a generator whose shuffle permutes, a new game starts: each member has one seat, with the starting balance
  -- of the mode or the one given, on the start position, with no property and not out; all 32 houses and 12 hotels are in the bank and none on the board; no debt is
  -- open; and the first player is to roll.
  pub new_game-IsOpening :
      (setup : NewGame) (rng : R.State)
      → setup.members ≢ []
      → (s : GameState) × (rng' : R.State) × (new_game R setup rng ≡ ok (s, rng'))
        × IsOpening setup s
  unfolding new_game opening_state
  new_game-IsOpening setup rng ne =
      let config = get_game_config setup.game_mode in
      let balance = or_default config.starting_balance setup.starting_balance in
      let ordered = R.shuffle setup.members rng in
      let perm = v.shuffle_perm GameMember setup.members rng in
      let (players, e, seated, users) =
        seat_members-total config balance setup.player_id (ordered.0) 0 in
      let (first, at) = first_seat players (ordered.0) setup.members users perm ne in
      let (houses, hotels) = houses_on-free_spaces config.board in
      let chance = initial_deck R CardKind.chance setup.game_mode (ordered.1) in
      let chest = initial_deck R CardKind.community_chest setup.game_mode (chance.1) in
      let s = opening_state setup players first (chance.0) (chest.0) in
      (
        s,
        chest.1,
        rw (e, at) refl,
        record {
          supplied = record {
            regular = free_spaces-IsRegular config.board;
            all_houses = omega (int_laws, houses);
            all_hotels = omega (int_laws, hotels);
          };
          bank = (refl, refl);
          unbuilt = (houses, hotels);
          placed = seated-IsPlaced config balance s players seated;
          seated = seated;
          users =
              subst (λ x. Perm x (map member_user setup.members)) (sym users)
                (Perm.map member_user perm);
          no_debt = refl;
          first_player = (first, at, refl, refl);
        },
      )
