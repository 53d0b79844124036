-- ===== src/Surrender/Supply.antt =====
-- surrender.py: the buildings of the player who quits go back to the bank.
use monopoly_be.Prelude.{
  ok-injective, subst, ℕ, ◌≡◌, refl, List, [], ◌∷◌, if◌then◌else◌, Bool-cases, inl, inr, All, arith,
  ℤ, pos, ◌+ℤ◌, int_laws, same_parts, ok, >>=-eq-ok,
}
use monopoly_be.Schema.{PlayerState, SpaceOwnership, GameState}
use monopoly_be.Helpers.{
  refresh_all_net_worth, replace_player, get_player_by_id_from_state, space_at, replace_space,
  write_space, replace_space-eq-ok, sum_spaces-write, All-space_at, All-write_space,
}
use monopoly_be.Building.Supply.{IsRegular, IsSupplied, houses_on, hotels_on, hotel_of}
use monopoly_be.Turns.Frame.{SameAssets}
use monopoly_be.Surrender.{
  eliminate, recipients, split_cash, Returned, cleared, return_positions, resolve_surrender, quit,
}
use monopoly_be.Surrender.Money.{pass_turn-SameAssets}

-- The invariant of the loop over the positions.
record IsCounted (hs ht : ℤ) (r : Returned) : Type 0 where
  regular : All IsRegular r.spaces
  all_houses : r.bank_houses +ℤ pos (houses_on r.spaces) ≡ hs
  all_hotels : r.bank_hotels +ℤ pos (hotels_on r.spaces) ≡ ht

-- One step of the loop.
returned_step : Returned → SpaceOwnership → List SpaceOwnership → Returned
returned_step r o spaces = record {
  spaces = spaces;
  bank_houses = if o.has_hotel then r.bank_houses else r.bank_houses +ℤ pos o.houses;
  bank_hotels = if o.has_hotel then r.bank_hotels +ℤ pos 1 else r.bank_hotels;
}

returned_step-IsCounted :
    (r : Returned) (n : ℕ) (o : SpaceOwnership) (hs ht : ℤ)
    → IsCounted hs ht r
    → space_at r.spaces n ≡ ok o
    → IsCounted hs ht (returned_step r o (write_space r.spaces n (cleared o)))
unfolding returned_step cleared houses_on hotels_on
returned_step-IsCounted r n o hs ht v found =
    let few : IsRegular o = All-space_at IsRegular r.spaces n found v.regular in
    let houses = sum_spaces-write (λ x. x.houses) r.spaces n (cleared o) found in
    let hotels = sum_spaces-write hotel_of r.spaces n (cleared o) found in
    let regular' =
      All-write_space IsRegular r.spaces n (cleared o) v.regular (omega arith, λ h. refl) in
    elim (Bool-cases o.has_hotel) [
      | inl e ↦
          let no_houses : o.houses ≡ 0 = few.1 e in
          let hotel : hotel_of o ≡ 1 = rw e refl in
          rw e (record {
            regular = regular';
            all_houses = omega (int_laws, same_parts v.all_houses);
            all_hotels = omega (int_laws, same_parts v.all_hotels);
          })
      | inr e ↦
          let no_hotel : hotel_of o ≡ 0 = rw e refl in
          rw e (record {
            regular = regular';
            all_houses = omega (int_laws, same_parts v.all_houses);
            all_hotels = omega (int_laws, same_parts v.all_hotels);
          })
    ]

return_positions-IsCounted :
    (positions : List ℕ) (r : Returned) (hs ht : ℤ) {r' : Returned}
    → IsCounted hs ht r
    → return_positions positions r ≡ ok r'
    → IsCounted hs ht r'
unfolding return_positions returned_step
return_positions-IsCounted [] r hs ht v h = subst (IsCounted hs ht) (ok-injective h) v
return_positions-IsCounted (n ∷ positions) r hs ht v h =
    let (o, found, k) = >>=-eq-ok (space_at r.spaces n) _ h in
    let (spaces, e, k') = >>=-eq-ok (replace_space r.spaces n (cleared o)) _ k in
    return_positions-IsCounted positions (returned_step r o spaces) hs ht
      (rw (replace_space-eq-ok r.spaces n (cleared o) e)
        (returned_step-IsCounted r n o hs ht v found))
      k'

quit-IsSupplied :
    (s : GameState) (p : PlayerState) (i : ℕ) (hs ht : ℤ) {s' : GameState}
    → IsSupplied hs ht s
    → quit s p i ≡ ok s'
    → IsSupplied hs ht s'
unfolding quit
quit-IsSupplied s p i hs ht v h =
    let start : Returned = record {
      spaces = s.spaces;
      bank_houses = s.bank_houses;
      bank_hotels = s.bank_hotels;
    } in
    let (r, e, k) = >>=-eq-ok (return_positions p.owned_positions start) _ h in
    let (shared, _, k2) =
      >>=-eq-ok (split_cash s.players (recipients s.players i 0) p.balance) _ k in
    let (players, _, k3) = >>=-eq-ok (replace_player shared i (eliminate s p)) _ k2 in
    let (refreshed, _, k4) = >>=-eq-ok (refresh_all_net_worth players r.spaces s.game_mode) _ k3 in
    let counted =
      return_positions-IsCounted p.owned_positions start hs ht
        (record { regular = v.regular; all_houses = v.all_houses; all_hotels = v.all_hotels }) e in
    subst (IsSupplied hs ht) (ok-injective k4) (record {
      regular = counted.regular;
      all_houses = counted.all_houses;
      all_hotels = counted.all_hotels;
    })

pub SameAssets-IsSupplied :
    (s s' : GameState) (hs ht : ℤ) → SameAssets s s' → IsSupplied hs ht s → IsSupplied hs ht s'
SameAssets-IsSupplied s s' hs ht same v = record {
  regular = rw same.spaces v.regular;
  all_houses = rw (same.bank_houses, same.spaces) v.all_houses;
  all_hotels = rw (same.bank_hotels, same.spaces) v.all_hotels;
}

-- After a surrender that returns, the houses of the bank and of the board together are as many as
-- before, and so are the hotels, and each space has at most four houses, and none beside a hotel.
pub resolve_surrender-IsSupplied :
    (s : GameState) (i : ℕ) (hs ht : ℤ) {s' : GameState}
    → IsSupplied hs ht s
    → resolve_surrender s i ≡ ok s'
    → IsSupplied hs ht s'
unfolding resolve_surrender
resolve_surrender-IsSupplied s i hs ht {s'} v h =
    let (p, found, k) = >>=-eq-ok (get_player_by_id_from_state s i) _ h in
    elim (Bool-cases p.is_bankrupt) [
      | inl out ↦ subst (IsSupplied hs ht) (ok-injective (rw out at k)) v
      | inr playing ↦
          let (gone, e, k') = >>=-eq-ok (quit s p i) _ (rw playing at k) in
          SameAssets-IsSupplied gone s' hs ht (pass_turn-SameAssets gone i k')
            (quit-IsSupplied s p i hs ht v e)
    ]
