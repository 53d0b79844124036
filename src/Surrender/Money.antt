-- ===== src/Surrender/Money.antt =====
-- surrender.py: the cash of the player who quits is shared out to the last unit.
use monopoly_be.Turns.Frame.{
  SameAssets, SameAssets-trans, check_win_condition-SameAssets, advance_turn_off_player-SameAssets,
}
use native.Mathlib.Nat.{mod-lt, div-add-mod}
use monopoly_be.Prelude.{
  subst, ok-injective, inr, sym, inl, ◌&&◌, ◌==◌, not, Bool-cases, All-map, ap, ◌∙◌, set, ℕ, zero,
  suc, ◌+◌, ◌*◌, ◌/◌, ◌%◌, min, ◌≡◌, ◌≢◌, refl, some, List, [], ◌∷◌, if◌then◌else◌, ltb, All,
  get_elem?, length, arith, ℤ, pos, negsuc, ◌+ℤ◌, ◌≤ℤ◌, int_laws, same_parts, ok, >>=-eq-ok,
}
use monopoly_be.Schema.{is_finished, SpaceOwnership, PlayerState, GameState}
use monopoly_be.Helpers.{
  sum_by-refresh, sum_by-write, get_player_by_id, replace_player-found, write_player,
  get_player_by_id_from_state, refresh_all_net_worth, replace_player, find_player, cash, sum_by-set,
  Elsewhere, Elsewhere-set, find_player-set,
}
use monopoly_be.Surrender.{
  check_win_condition, pass_turn, resolve_surrender, eliminate, return_positions, Returned, quit,
  recipients, distribute, split_cash,
}

-- What the loop adds, from the n-th recipient on.
handed_out : (count n share remainder : ℕ) → ℕ
handed_out zero n share remainder = 0
handed_out (suc count) n share remainder =
    share + (if ltb n remainder then 1 else 0) + handed_out count (n + 1) share remainder

handed_out_lem :
    (count n share remainder : ℕ)
    → handed_out count n share remainder + min n remainder
      ≡ count * share + min (n + count) remainder
unfolding handed_out
handed_out_lem zero n share remainder = omega arith
handed_out_lem (suc count) n share remainder =
    ground (arith, handed_out_lem count (n + 1) share remainder)

-- The loop adds that to the money of all, and the player of an id that no index holds stays.
distribute-cash :
    (players : List PlayerState) (indices : List ℕ) (i n share remainder : ℕ)
    {players' : List PlayerState}
    → All (Elsewhere players i) indices
    → distribute players indices n share remainder ≡ ok players'
    → (cash players' ≡ cash players +ℤ pos (handed_out (length indices) n share remainder))
      × (find_player players' i ≡ find_player players i)
unfolding distribute handed_out cash
distribute-cash players [] i n share remainder {players'} at h =
    let same : players' ≡ players = cc in rw same (omega int_laws, refl)
distribute-cash players (k ∷ indices) i n share remainder ((p, found, ne), at) h =
    let extra : ℕ = if ltb n remainder then 1 else 0 in
    let q = record p { balance = p.balance +ℤ pos share +ℤ pos extra } in
    let (total, kept) =
      distribute-cash (set players k q) indices i (n + 1) share remainder
        (All-map (Elsewhere players i) (Elsewhere (set players k q) i) indices
          (λ j. Elsewhere-set players i j k q found refl) at)
        (rw found at h) in
    (
      omega
          (int_laws, same_parts total, same_parts (sum_by-set (λ x. x.balance) players k q found)),
      kept ∙ find_player-set players i k q found ne refl,
    )

-- The recipients are players of other ids.
recipients-Elsewhere :
    (whole players : List PlayerState) (i n : ℕ)
    → ((j : ℕ) → get_elem? whole (n + j) ≡ get_elem? players j)
    → All (Elsewhere whole i) (recipients players i n)
unfolding recipients
recipients-Elsewhere whole [] i n tail = tt
recipients-Elsewhere whole (p ∷ players) i n tail =
    let rest =
      recipients-Elsewhere whole players i (n + 1)
        (λ j. let e : n + 1 + j ≡ n + suc j = omega arith in rw e (tail (suc j))) in
    let head : get_elem? whole n ≡ some p =
      let e : n ≡ n + 0 = omega arith in ap (get_elem? whole) e ∙ tail 0 in
    elim (Bool-cases (not (p.id == i) && not p.is_bankrupt)) [
      | inl e ↦ rw e ((p, head, ground arith), rest)
      | inr e ↦ rw e rest
    ]

-- The division shares out everything.
split_cash-cash :
    (players : List PlayerState) (indices : List ℕ) (i : ℕ) (total : ℤ)
    {players' : List PlayerState}
    → All (Elsewhere players i) indices
    → indices ≢ []
    → pos 0 ≤ℤ total
    → split_cash players indices total ≡ ok players'
    → (cash players' ≡ cash players +ℤ total) × (find_player players' i ≡ find_player players i)
unfolding split_cash
split_cash-cash players [] i total at ne le h = absurd (ne refl)
split_cash-cash players (k ∷ indices) i (negsuc n) at ne le h = absurd (omega arith)
split_cash-cash players (k ∷ indices) i (pos zero) {players'} at ne le h =
    let same : players' ≡ players = cc in rw same (omega int_laws, refl)
split_cash-cash players (k ∷ indices) i (pos (suc n)) at ne le h =
    let count = suc (length indices) in
    let (total, kept) =
      distribute-cash players (k ∷ indices) i 0 (suc n / count) (suc n % count) at h in
    let sum = handed_out_lem count 0 (suc n / count) (suc n % count) in
    let all_of_it : handed_out count 0 (suc n / count) (suc n % count) ≡ suc n =
      omega (arith, sum, mod-lt (suc n) {m = count} (omega arith), div-add-mod (suc n) count) in
    (total ∙ ap (λ x. cash players +ℤ pos x) all_of_it, kept)

-- The player who quits leaves with nothing.
eliminate-cash :
    (s : GameState) (shared : List PlayerState) (i : ℕ) (spaces : List SpaceOwnership)
    {p : PlayerState} {players refreshed : List PlayerState}
    → find_player shared i ≡ some p
    → replace_player shared i (eliminate s p) ≡ ok players
    → refresh_all_net_worth players spaces s.game_mode ≡ ok refreshed
    → cash refreshed +ℤ p.balance ≡ cash shared
unfolding eliminate cash
eliminate-cash s shared i spaces {p} {players} found e r =
    let written : players ≡ write_player shared i (eliminate s p) =
      cc (replace_player-found shared i (eliminate s p) found) in
    let out = sum_by-write (λ x. x.balance) shared i (eliminate s p) found in
    let same = sum_by-refresh (λ x. x.balance) players spaces s.game_mode (λ x n. refl) r in
    rw (same, written) (omega (int_laws, same_parts out))

-- The money after `quit`, where somebody is left to take it.
quit-cash :
    (s : GameState) (i : ℕ) {p : PlayerState} {s' : GameState}
    → find_player s.players i ≡ some p
    → pos 0 ≤ℤ p.balance
    → recipients s.players i 0 ≢ []
    → quit s p i ≡ ok s'
    → cash s'.players ≡ cash s.players
unfolding quit
quit-cash s i {p} {s'} found le ne h =
    let start : Returned = record {
      spaces = s.spaces;
      bank_houses = s.bank_houses;
      bank_hotels = s.bank_hotels;
    } in
    let (returned, _, k) = >>=-eq-ok (return_positions p.owned_positions start) _ h in
    let (shared, split, k2) =
      >>=-eq-ok (split_cash s.players (recipients s.players i 0) p.balance) _ k in
    let (players, e, k3) = >>=-eq-ok (replace_player shared i (eliminate s p)) _ k2 in
    let (refreshed, r, k4) =
      >>=-eq-ok (refresh_all_net_worth players returned.spaces s.game_mode) _ k3 in
    let at =
      recipients-Elsewhere s.players s.players i 0 (λ j. ap (get_elem? s.players) (omega arith)) in
    let (total, kept) =
      split_cash-cash s.players (recipients s.players i 0) i p.balance at ne le split in
    let out = eliminate-cash s shared i returned.spaces (kept ∙ found) e r in
    let same : s'.players ≡ refreshed = cc k4 in
    rw same (omega (int_laws, same_parts out, same_parts total))

pub pass_turn-SameAssets :
    (gone : GameState) (i : ℕ) {s' : GameState} → pass_turn gone i ≡ ok s' → SameAssets gone s'
unfolding pass_turn
pass_turn-SameAssets gone i {s'} h =
    let resolved = check_win_condition gone in
    let won = check_win_condition-SameAssets gone in
    elim (Bool-cases (is_finished resolved.status)) [
      | inl e ↦ subst (SameAssets gone) (ok-injective (rw e at h)) won
      | inr e ↦ elim (Bool-cases (resolved.turn.current_player_id == i)) [
        | inl e' ↦
            SameAssets-trans gone resolved s' won
              (advance_turn_off_player-SameAssets resolved i (rw (e, e') at h))
        | inr e' ↦ subst (SameAssets gone) (ok-injective (rw (e, e') at h)) won
      ]
    ]

-- A player with a balance of zero or more who surrenders while another solvent player is left takes no
-- money out of the game: after any surrender that returns the players hold in total what they held
-- before, the odd units of the division included.
pub resolve_surrender-cash :
    (s : GameState) (i : ℕ) {p : PlayerState} {s' : GameState}
    → find_player s.players i ≡ some p
    → pos 0 ≤ℤ p.balance
    → recipients s.players i 0 ≢ []
    → resolve_surrender s i ≡ ok s'
    → cash s'.players ≡ cash s.players
unfolding resolve_surrender get_player_by_id_from_state get_player_by_id
resolve_surrender-cash s i {p} {s'} found le ne h = elim (Bool-cases p.is_bankrupt) [
  | inl out ↦ let same : s' ≡ s = sym (ok-injective (rw (found, out) at h)) in rw same refl
  | inr playing ↦
      let (gone, e, k) = >>=-eq-ok (quit s p i) _ (rw (found, playing) at h) in
      ap cash (pass_turn-SameAssets gone i k).players ∙ quit-cash s i found le ne e
]
