-- ===== src/Building/Supply.antt =====
-- The houses and hotels of building.py: those in the bank and those on the board are always the 32 and
-- 12 of the box.
use monopoly_be.Prelude.{
  subst, Bool-cases, ℕ, ◌≤◌, ◌≡◌, refl, ap, ◌∙◌, ◌==◌, ◌⊎◌, inl, inr, ◌<◌, Bool-cases, Bool, true,
  false, List, if◌then◌else◌, All, arith, ℤ, pos, ◌+ℤ◌, int_laws, same_parts, Result, ok, err,
  >>=-eq-ok,
}
use monopoly_be.Schema.{PlayerState, SpaceOwnership, GameState}
use monopoly_be.Board.{BoardSpace, get_board_space}
use monopoly_be.Helpers.{
  space_at, replace_space, write_space, replace_space-eq-ok, sum_spaces, sum_spaces-write,
  All-write_space, All-space_at, get_player_by_id_from_state,
}
use monopoly_be.Building.{
  repayment, can_unmortgage, loan, can_mortgage, sale_of_house, Error, cost_of_house, rewrite_space,
  guarded, can_build_on, build_house, built, take_building, can_sell_on, sell_house, sold,
  return_building, pay_and_write, mortgage_property, unmortgage_property,
}

abbrev pub hotel_of : SpaceOwnership → ℕ
hotel_of o = if o.has_hotel then 1 else 0

-- The houses and the hotels on the board.
unfoldable pub houses_on : List SpaceOwnership → ℕ
unfolding sum_spaces
houses_on = sum_spaces (λ o. o.houses)

unfoldable pub hotels_on : List SpaceOwnership → ℕ
unfolding sum_spaces
hotels_on = sum_spaces hotel_of

-- At most four houses, and none beside a hotel.
abbrev pub IsRegular : SpaceOwnership → Type 0
IsRegular o = (o.houses ≤ 4) × (o.has_hotel ≡ true → o.houses ≡ 0)

pub record IsSupplied (houses hotels : ℤ) (s : GameState) : Type 0 where
  pub regular : All IsRegular s.spaces
  pub all_houses : s.bank_houses +ℤ pos (houses_on s.spaces) ≡ houses
  pub all_hotels : s.bank_hotels +ℤ pos (hotels_on s.spaces) ≡ hotels

pub pay_and_write-eq-ok :
    (s : GameState) (p : PlayerState) (i : ℕ) (b : ℤ) (spaces : List SpaceOwnership)
    {s' : GameState}
    → pay_and_write s p i b spaces ≡ ok s'
    → (s'.spaces ≡ spaces) × (s'.bank_houses ≡ s.bank_houses) × (s'.bank_hotels ≡ s.bank_hotels)
unfolding pay_and_write
pay_and_write-eq-ok s p i b spaces h = ground arith

-- A state with one record of `s` rewritten and the bank of `s`.
abbrev pub Rewritten : GameState → ℕ → SpaceOwnership → GameState → Type 0
Rewritten s n q paid =
    (paid.spaces ≡ write_space s.spaces n q)
    × (paid.bank_houses ≡ s.bank_houses)
    × (paid.bank_hotels ≡ s.bank_hotels)

-- The state after `rewrite_space`: one record written, the bank as it was.
pub rewrite_space-eq-ok :
    (s : GameState) (i n : ℕ) (change : SpaceOwnership → SpaceOwnership)
    (balance : PlayerState → BoardSpace → ℤ) {o : SpaceOwnership} {s' : GameState}
    → rewrite_space s i n change balance ≡ ok (o, s')
    → (space_at s.spaces n ≡ ok o) × Rewritten s n (change o) s'
unfolding rewrite_space
rewrite_space-eq-ok s i n change balance {o} {s'} h =
    let (p, _, k) = >>=-eq-ok (get_player_by_id_from_state s i) _ h in
    let (r, found, k') = >>=-eq-ok (space_at s.spaces n) _ k in
    let (space, _, k2) = >>=-eq-ok (get_board_space n s.game_mode) _ k' in
    let (spaces, written, k3) = >>=-eq-ok (replace_space s.spaces n (change r)) _ k2 in
    let (paid, e, k4) = >>=-eq-ok (pay_and_write s p i (balance p space) spaces) _ k3 in
    let (at, houses, hotels) = pay_and_write-eq-ok s p i (balance p space) spaces e in
    let same : r ≡ o = cc k4 in
    let same' : paid ≡ s' = cc k4 in
    (cc, (cc (replace_space-eq-ok s.spaces n (change r) written), cc, cc))

pub guarded-eq-ok :
    {A : Type 0} (test : Result Bool) (e : Error) (m : Result A) {a : A}
    → guarded test e m ≡ ok a
    → (test ≡ ok true) × (m ≡ ok a)
unfolding guarded
guarded-eq-ok (ok true) e m h = (refl, h)
guarded-eq-ok (ok false) e m h = cc
guarded-eq-ok (err x) e m h = cc

can_build_on-no_hotel :
    (s : GameState) (i n : ℕ) {o : SpaceOwnership}
    → can_build_on s i n ≡ ok true
    → space_at s.spaces n ≡ ok o
    → o.has_hotel ≡ false
unfolding can_build_on
can_build_on-no_hotel s i n h k = ground arith

-- One record changes, and the counts of the bank: the totals are as they were where the changes cancel.
supply_step :
    (s s' : GameState) (n : ℕ) {o : SpaceOwnership} (q : SpaceOwnership) {hs ht : ℤ}
    → IsSupplied hs ht s
    → space_at s.spaces n ≡ ok o
    → s'.spaces ≡ write_space s.spaces n q
    → IsRegular q
    → s'.bank_houses +ℤ pos q.houses ≡ s.bank_houses +ℤ pos o.houses
    → s'.bank_hotels +ℤ pos (hotel_of q) ≡ s.bank_hotels +ℤ pos (hotel_of o)
    → IsSupplied hs ht s'
unfolding houses_on hotels_on
supply_step s s' n {o} q v found written regular houses hotels = record {
  regular = rw written (All-write_space IsRegular s.spaces n q v.regular regular);
  all_houses = rw written (
      omega (
        int_laws,
        same_parts v.all_houses,
        same_parts houses,
        sum_spaces-write (λ o. o.houses) s.spaces n q found,
      ));
  all_hotels = rw written (
      omega (
        int_laws,
        same_parts v.all_hotels,
        same_parts hotels,
        sum_spaces-write hotel_of s.spaces n q found,
      ));
}

-- What a building takes from the bank it adds to the board.
take_building-houses :
    (o : SpaceOwnership) (s : GameState)
    → (take_building o s).bank_houses +ℤ pos ((built o).houses) ≡ s.bank_houses +ℤ pos o.houses
unfolding built take_building
take_building-houses o s = elim (Bool-cases (o.houses == 4)) [
  | inl e ↦ let four : o.houses ≡ 4 = ground arith in rw (e, four) (omega int_laws)
  | inr e ↦ rw e (omega int_laws)
]

take_building-hotels :
    (o : SpaceOwnership) (s : GameState)
    → o.has_hotel ≡ false
    → (take_building o s).bank_hotels +ℤ pos (hotel_of (built o))
      ≡ s.bank_hotels +ℤ pos (hotel_of o)
unfolding built take_building
take_building-hotels o s h = elim (Bool-cases (o.houses == 4)) [
  | inl e ↦ rw (e, h) (omega int_laws)
  | inr e ↦ rw (e, h) refl
]

take_building-IsSupplied :
    (s paid : GameState) (n : ℕ) (o : SpaceOwnership) {hs ht : ℤ}
    → IsSupplied hs ht s
    → space_at s.spaces n ≡ ok o
    → o.has_hotel ≡ false
    → Rewritten s n (built o) paid
    → IsSupplied hs ht (take_building o paid)
unfolding built take_building
take_building-IsSupplied s paid n o v found no_hotel (written, houses, hotels) =
    let few : IsRegular o = All-space_at IsRegular s.spaces n found v.regular in
    supply_step s (take_building o paid) n (built o) v found (ground arith) (ground arith)
      (take_building-houses o paid ∙ ap (λ x. x +ℤ pos o.houses) houses)
      (take_building-hotels o paid no_hotel ∙ ap (λ x. x +ℤ pos (hotel_of o)) hotels)

build_house-IsSupplied :
    (s : GameState) (i n : ℕ) (hs ht : ℤ) {s' : GameState}
    → IsSupplied hs ht s
    → build_house s i n ≡ ok s'
    → IsSupplied hs ht s'
unfolding build_house
build_house-IsSupplied s i n hs ht {s'} v h =
    let (allowed, k) = guarded-eq-ok (can_build_on s i n) _ _ h in
    let ((o, paid), e, k') = >>=-eq-ok (rewrite_space s i n built cost_of_house) _ k in
    let (found, rewritten) = rewrite_space-eq-ok s i n built cost_of_house e in
    let shape : take_building o paid ≡ s' = cc k' in
    rw (← shape) (
      take_building-IsSupplied s paid n o v found (can_build_on-no_hotel s i n allowed found)
        rewritten)

-- The other way round: a hotel that is sold goes back and four houses come out, unless it was a house.
return_building-houses :
    (o : SpaceOwnership) (s : GameState)
    → IsRegular o
    → (0 < o.houses) ⊎ (o.has_hotel ≡ true)
    → (return_building o s).bank_houses +ℤ pos ((sold o).houses) ≡ s.bank_houses +ℤ pos o.houses
unfolding sold return_building
return_building-houses o s few some_building = elim (Bool-cases o.has_hotel) [
  | inl e ↦ let none_left : o.houses ≡ 0 = few.1 e in rw (e, none_left) (omega int_laws)
  | inr e ↦ let left : 0 < o.houses = ground arith in rw e (omega int_laws)
]

return_building-hotels :
    (o : SpaceOwnership) (s : GameState)
    → (return_building o s).bank_hotels +ℤ pos (hotel_of (sold o))
      ≡ s.bank_hotels +ℤ pos (hotel_of o)
unfolding sold return_building
return_building-hotels o s = elim (Bool-cases o.has_hotel) [
  | inl e ↦ rw e (omega int_laws)
  | inr e ↦ rw e refl
]

can_sell_on-building :
    (s : GameState) (i n : ℕ) {o : SpaceOwnership}
    → can_sell_on s i n ≡ ok true
    → space_at s.spaces n ≡ ok o
    → (0 < o.houses) ⊎ (o.has_hotel ≡ true)
unfolding can_sell_on
can_sell_on-building s i n h k = ground arith

return_building-IsSupplied :
    (s paid : GameState) (n : ℕ) (o : SpaceOwnership) {hs ht : ℤ}
    → IsSupplied hs ht s
    → space_at s.spaces n ≡ ok o
    → (0 < o.houses) ⊎ (o.has_hotel ≡ true)
    → Rewritten s n (sold o) paid
    → IsSupplied hs ht (return_building o paid)
unfolding sold return_building
return_building-IsSupplied s paid n o v found some_building (written, houses, hotels) =
    let few : IsRegular o = All-space_at IsRegular s.spaces n found v.regular in
    supply_step s (return_building o paid) n (sold o) v found (ground arith) (ground arith)
      (return_building-houses o paid few some_building ∙ ap (λ x. x +ℤ pos o.houses) houses)
      (return_building-hotels o paid ∙ ap (λ x. x +ℤ pos (hotel_of o)) hotels)

sell_house-IsSupplied :
    (s : GameState) (i n : ℕ) (hs ht : ℤ) {s' : GameState}
    → IsSupplied hs ht s
    → sell_house s i n ≡ ok s'
    → IsSupplied hs ht s'
unfolding sell_house
sell_house-IsSupplied s i n hs ht {s'} v h =
    let (allowed, k) = guarded-eq-ok (can_sell_on s i n) _ _ h in
    let ((o, paid), e, k') = >>=-eq-ok (rewrite_space s i n sold sale_of_house) _ k in
    let (found, rewritten) = rewrite_space-eq-ok s i n sold sale_of_house e in
    let shape : return_building o paid ≡ s' = cc k' in
    rw (← shape) (
      return_building-IsSupplied s paid n o v found (can_sell_on-building s i n allowed found)
        rewritten)

-- A change of the record that keeps its buildings.
flag-IsSupplied :
    (s : GameState) (i n : ℕ) (change : SpaceOwnership → SpaceOwnership)
    (balance : PlayerState → BoardSpace → ℤ) {hs ht : ℤ} {o : SpaceOwnership} {s' : GameState}
    → ((x : SpaceOwnership) → ((change x).houses ≡ x.houses) × ((change x).has_hotel ≡ x.has_hotel))
    → IsSupplied hs ht s
    → rewrite_space s i n change balance ≡ ok (o, s')
    → IsSupplied hs ht s'
flag-IsSupplied s i n change balance {o = o} {s' = s'} same v e =
    let (found, (written, houses, hotels)) = rewrite_space-eq-ok s i n change balance e in
    let few : IsRegular o = All-space_at IsRegular s.spaces n found v.regular in
    let (same_houses, same_hotel) = same o in
    supply_step s s' n (change o) v found written (rw (same_houses, same_hotel) few)
      (rw (houses, same_houses)) (rw (hotels, same_hotel))

abbrev mortgaged : Bool → SpaceOwnership → SpaceOwnership
mortgaged b o = record o { is_mortgaged = b }

mortgage_property-IsSupplied :
    (s : GameState) (i n : ℕ) (hs ht : ℤ) {s' : GameState}
    → IsSupplied hs ht s
    → (mortgage_property s i n ≡ ok s') ⊎ (unmortgage_property s i n ≡ ok s')
    → IsSupplied hs ht s'
unfolding mortgage_property unmortgage_property
mortgage_property-IsSupplied s i n hs ht v (inl h) =
    let (_, k) = guarded-eq-ok (can_mortgage s i n) _ _ h in
    let ((o, paid), e, k') = >>=-eq-ok (rewrite_space s i n (mortgaged true) loan) _ k in
    subst (IsSupplied hs ht) (cc k')
      (flag-IsSupplied s i n (mortgaged true) loan (λ x. (refl, refl)) v e)
mortgage_property-IsSupplied s i n hs ht v (inr h) =
    let (_, k) = guarded-eq-ok (can_unmortgage s i n) _ _ h in
    let ((o, paid), e, k') = >>=-eq-ok (rewrite_space s i n (mortgaged false) repayment) _ k in
    subst (IsSupplied hs ht) (cc k')
      (flag-IsSupplied s i n (mortgaged false) repayment (λ x. (refl, refl)) v e)

-- Whichever of the four building operations returns, the houses of the bank and of the board together
-- stay `hs` and the hotels `ht`, and each space keeps at most four houses, and none beside a hotel.
pub building-IsSupplied :
    (s : GameState) (i n : ℕ) (hs ht : ℤ) {s' : GameState}
    → IsSupplied hs ht s
    → (build_house s i n ≡ ok s')
      ⊎ (sell_house s i n ≡ ok s')
      ⊎ (mortgage_property s i n ≡ ok s')
      ⊎ (unmortgage_property s i n ≡ ok s')
    → IsSupplied hs ht s'
building-IsSupplied s i n hs ht v (inl h) = build_house-IsSupplied s i n hs ht v h
building-IsSupplied s i n hs ht v (inr (inl h)) = sell_house-IsSupplied s i n hs ht v h
building-IsSupplied s i n hs ht v (inr (inr h)) = mortgage_property-IsSupplied s i n hs ht v h
