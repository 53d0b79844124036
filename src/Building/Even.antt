-- ===== src/Building/Even.antt =====
-- building.py (`build_house`): houses are built evenly over a colour group.
use monopoly_be.Prelude.{
  ==_refl, All-map, ℕ, ◌+◌, ◌≤◌, ◌≡◌, ap, ◌∙◌, sym, subst, inl, inr, true, false, not, ◌||◌, some,
  List, [], ◌∷◌, All, ◌==◌, ltb, Bool-cases, arith, ok, >>=-eq-ok, ok-injective,
}
use monopoly_be.Schema.{GameState, PlayerState, SpaceOwnership, PropertyColor}
use monopoly_be.Board.{BoardSpace, get_board_space}
use monopoly_be.Helpers.{
  owned_by, space_at, write_space, space_at-write, space_at-position, positions_in_color_group,
  get_player_by_id_from_state,
}
use monopoly_be.Building.{
  player_owns_monopoly, build_house, built, building_level, levels_of, min_of, street_color,
  can_build_on, build_checks, rewrite_space, take_building, cost_of_house,
}
use monopoly_be.Building.Supply.{guarded-eq-ok, rewrite_space-eq-ok}

-- The levels at the positions are `low` or one above it.
abbrev pub IsEven : List SpaceOwnership → List ℕ → (low : ℕ) → Type 0
IsEven spaces positions low =
    All
      (λ n.
        (o : SpaceOwnership)
        → space_at spaces n ≡ ok o
        → (low ≤ building_level o) × (building_level o ≤ low + 1))
      positions

-- The levels at the positions are `low` or above it.
abbrev AreAbove : List SpaceOwnership → List ℕ → (low : ℕ) → Type 0
AreAbove spaces positions low =
    All (λ n. (o : SpaceOwnership) → space_at spaces n ≡ ok o → low ≤ building_level o) positions

min_of-le : (ns : List ℕ) {least : ℕ} → min_of ns ≡ ok least → All (λ n. least ≤ n) ns
unfolding min_of
min_of-le [] h = cc
min_of-le (n ∷ []) h = let same = ok-injective h in (omega (arith, same), tt)
min_of-le (n ∷ m ∷ ns) h =
    let (rest, e, k) = >>=-eq-ok (min_of (m ∷ ns)) _ h in
    let same = ok-injective k in
    (
      omega (arith, same),
      All-map (λ x. rest ≤ x) _ (m ∷ ns) (λ x le. omega (arith, same, le)) (min_of-le (m ∷ ns) e),
    )

levels_of-AreAbove :
    (positions : List ℕ) (spaces : List SpaceOwnership) (low : ℕ) {levels : List ℕ}
    → levels_of positions spaces ≡ ok levels
    → All (λ n. low ≤ n) levels
    → AreAbove spaces positions low
unfolding levels_of
levels_of-AreAbove [] spaces low h le = tt
levels_of-AreAbove (n ∷ positions) spaces low h le =
    let (o, found, k) = >>=-eq-ok (space_at spaces n) _ h in
    let (rest, e, k') = >>=-eq-ok (levels_of positions spaces) _ k in
    let (head, tail) = subst (λ ns. All (λ x. low ≤ x) ns) (sym (ok-injective k')) le in
    (
      λ q at. subst (λ x. low ≤ building_level x) (ok-injective (sym found ∙ at)) head,
      levels_of-AreAbove positions spaces low e tail,
    )

built-building_level :
    (o : SpaceOwnership) → o.has_hotel ≡ false → building_level (built o) ≡ building_level o + 1
unfolding built building_level
built-building_level o h = ground arith

built-position : (o : SpaceOwnership) → (built o).position ≡ o.position
unfolding built
built-position o = ground arith

-- What the checks in a colour group say of its levels.
IsLowest : GameState → PropertyColor → SpaceOwnership → Type 0
IsLowest s color o =
    (o.has_hotel ≡ false)
    × ((levels : List ℕ) × (least : ℕ) × (levels_of (positions_in_color_group color s.game_mode)
            s.spaces
          ≡ ok levels)
        × (min_of levels ≡ ok least)
        × (building_level o ≤ least))

build_checks-IsLowest :
    (s : GameState) (p : PlayerState) (o : SpaceOwnership) (space : BoardSpace)
    (color : PropertyColor)
    → build_checks s p o space (some color) ≡ ok true
    → IsLowest s color o
unfolding build_checks IsLowest
build_checks-IsLowest s p o space color h = elim (Bool-cases (o.is_mortgaged || o.has_hotel)) [
  | inl e ↦ absurd (cc (rw e at h))
  | inr e ↦
      let (monopoly, _, k) =
        >>=-eq-ok (player_owns_monopoly p color s.spaces s.game_mode) _ (rw e at h) in
      elim (Bool-cases (not monopoly)) [
        | inl e1 ↦ absurd (cc (rw e1 at k))
        | inr e1 ↦
            let (levels, at, k1) =
              >>=-eq-ok (levels_of (positions_in_color_group color s.game_mode) s.spaces) _
                (rw e1 at k) in
            let (least, lowest, k2) = >>=-eq-ok (min_of levels) _ k1 in
            elim (Bool-cases (ltb least (building_level o))) [
              | inl e2 ↦ absurd (cc (rw e2 at k2))
              | inr e2 ↦ (ground arith, (levels, least, at, lowest, ground (arith, e2)))
            ]
      ]
]

can_build_on-IsLowest :
    (s : GameState) (i n : ℕ) {o : SpaceOwnership} {space : BoardSpace} {color : PropertyColor}
    → space_at s.spaces n ≡ ok o
    → get_board_space n s.game_mode ≡ ok space
    → street_color space ≡ some color
    → can_build_on s i n ≡ ok true
    → IsLowest s color o
unfolding can_build_on
can_build_on-IsLowest s i n {o} {space} {color} found board street h =
    let (p, _, k) = >>=-eq-ok (get_player_by_id_from_state s i) _ h in
    elim (Bool-cases (not (owned_by o.owner_id p.id))) [
      | inl e ↦ absurd (cc (rw (found, e) at k))
      | inr e ↦ build_checks-IsLowest s p o space color (rw (found, e, board, street) at k)
    ]

-- The levels after the lowest record is built on.
built-IsEven :
    (spaces : List SpaceOwnership) (n low : ℕ) (positions : List ℕ) {o : SpaceOwnership}
    → space_at spaces n ≡ ok o
    → o.has_hotel ≡ false
    → low ≤ building_level o
    → AreAbove spaces positions (building_level o)
    → IsEven spaces positions low
    → IsEven (write_space spaces n (built o)) positions (building_level o)
built-IsEven spaces n low [] found no_hotel le above even = tt
built-IsEven spaces n low (m ∷ positions) {o} found no_hotel le (high, above) (even, evens) =
    let after =
      space_at-write spaces n m (built o) (built-position o ∙ space_at-position spaces n found)
        found in
    (
      λ q at. elim (Bool-cases (n == m)) [
        | inl e ↦
            let same : built o ≡ q = ok-injective (sym (rw e at after) ∙ at) in
            subst
              (λ x.
                (building_level o ≤ building_level x) × (building_level x ≤ building_level o + 1))
              same
              (
                omega (arith, built-building_level o no_hotel),
                omega (arith, built-building_level o no_hotel),
              )
        | inr e ↦
            let here : space_at spaces m ≡ ok q = sym (rw e at after) ∙ at in
            (high q here, omega (arith, (even q here).1))
      ],
      built-IsEven spaces n low positions found no_hotel le above evens,
    )

take_building-spaces : (o : SpaceOwnership) (s : GameState) → (take_building o s).spaces ≡ s.spaces
unfolding take_building
take_building-spaces o s = ground arith

-- On a street of a colour group whose levels, a hotel counting as five, are all some `low` or one above it, a house that is built makes
-- them all the level that the street had or one above that: the group stays even.
pub build_house-IsEven :
    (s : GameState) (i n low : ℕ) {o : SpaceOwnership} {space : BoardSpace} {color : PropertyColor}
    {s' : GameState}
    → get_board_space n s.game_mode ≡ ok space
    → street_color space ≡ some color
    → space_at s.spaces n ≡ ok o
    → low ≤ building_level o
    → IsEven s.spaces (positions_in_color_group color s.game_mode) low
    → build_house s i n ≡ ok s'
    → ((q : SpaceOwnership) × (space_at s'.spaces n ≡ ok q)
        × (building_level q ≡ building_level o + 1))
      × IsEven s'.spaces (positions_in_color_group color s.game_mode) (building_level o)
unfolding build_house IsLowest
build_house-IsEven s i n low {o} {space} {color} {s'} board street found le even h =
    let (allowed, k) = guarded-eq-ok (can_build_on s i n) _ _ h in
    let (no_hotel, (levels, least, at, lowest, under)) =
      can_build_on-IsLowest s i n found board street allowed in
    let ((r, paid), e, k') = >>=-eq-ok (rewrite_space s i n built cost_of_house) _ k in
    let (found', (written, _, _)) = rewrite_space-eq-ok s i n built cost_of_house e in
    let same : r ≡ o = ok-injective (sym found' ∙ found) in
    let spaces : s'.spaces ≡ write_space s.spaces n (built o) =
      ap (λ x. x.spaces) (sym (ok-injective k'))
      ∙ take_building-spaces r paid
      ∙ written
      ∙ ap (λ x. write_space s.spaces n (built x)) same in
    let above =
      levels_of-AreAbove (positions_in_color_group color s.game_mode) s.spaces (building_level o) at
        (All-map (λ x. least ≤ x) _ levels (λ x l. omega (arith, under, l))
          (min_of-le levels lowest)) in
    let there =
      space_at-write s.spaces n n (built o) (built-position o ∙ space_at-position s.spaces n found)
        found in
    let itself : (n == n) ≡ true = ==_refl n in
    (
      (
        built o,
        ap (λ x. space_at x n) spaces ∙ rw itself at there,
        built-building_level o no_hotel,
      ),
      subst (λ x. IsEven x (positions_in_color_group color s.game_mode) (building_level o))
          (sym spaces)
          (built-IsEven s.spaces n low (positions_in_color_group color s.game_mode) found no_hotel
            le above even),
    )
