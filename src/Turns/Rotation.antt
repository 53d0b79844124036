-- ===== src/Turns/Rotation.antt =====
-- bankruptcy.py (`advance_turn_off_player`): whose turn comes next.
use native.Mathlib.Nat.{mod-lt}
use monopoly_be.Prelude.{
  none, is_some, subst, ℕ, zero, suc, ◌+◌, ◌%◌, ◌≤◌, ◌<◌, ◌≡◌, true, false, some, List, ltb, leb,
  if◌then◌else◌, Bool-cases, inl, inr, length, get_elem?, get_elem?-lt, lt-get_elem?, arith, ok,
}
use monopoly_be.Schema.{PlayerState, GameState, TurnPhase}
use monopoly_be.Helpers.{find_index, next_index}
use monopoly_be.Turns.{scan_players, hand_over, turn_of, opening_phase, advance_turn_off_player}

-- The player at an offset from the start, round the table.
abbrev pub At : List PlayerState → (start k : ℕ) → PlayerState → Type 0
At players start k p = get_elem? players ((start + k) % length players) ≡ some p

-- The k-th player from the start is the first, from the offset on, who is not bankrupt.
abbrev pub IsNext : List PlayerState → (start offset k : ℕ) → PlayerState → Type 0
IsNext players start offset k p =
    (offset ≤ k)
    × At players start k p
    × (p.is_bankrupt ≡ false)
    × ((j : ℕ)
        → offset ≤ j
        → j < k
        → (q : PlayerState) × At players start j q × (q.is_bankrupt ≡ true))

-- An offset with a bankrupt player is not the one of an active player.
past :
    (players : List PlayerState) (start offset m : ℕ) {c q : PlayerState}
    → offset ≤ m
    → At players start offset c
    → c.is_bankrupt ≡ true
    → At players start m q
    → q.is_bankrupt ≡ false
    → offset + 1 ≤ m
past players start offset m {c} {q} lo here out at active = elim (Bool-cases (ltb offset m)) [
  | inl less ↦ ground (arith, less)
  | inr same ↦
      let e : m ≡ offset = ground (arith, same, lo) in
      let there : At players start offset q = subst (λ j. At players start j q) e at in
      absurd (cc (here, there, out, active))
]

-- The bankrupt player at an offset joins those after it.
joined :
    (players : List PlayerState) (start offset k : ℕ) {c : PlayerState}
    → At players start offset c
    → c.is_bankrupt ≡ true
    → ((j : ℕ)
        → offset + 1 ≤ j
        → j < k
        → (q : PlayerState) × At players start j q × (q.is_bankrupt ≡ true))
    → (j : ℕ) → offset ≤ j
    → j < k
    → (q : PlayerState) × At players start j q × (q.is_bankrupt ≡ true)
joined players start offset k {c} here out after j lo hi = elim (Bool-cases (ltb offset j)) [
  | inl less ↦ after j (ground (arith, less)) hi
  | inr same ↦
      let e : offset ≡ j = ground (arith, same, lo) in
      (c, subst (λ i. At players start i c) e here, out)
]

module _ (players : List PlayerState) (start : ℕ) where
  someone : (k : ℕ) → 0 < length players → (q : PlayerState) × At players start k q
  someone k h = get_elem?-lt players ((start + k) % length players) (mod-lt (start + k) h)

  -- A player within the rounds who is not bankrupt makes the loop find the first such.
  scan_players-total :
      (rounds offset m : ℕ) {q : PlayerState}
      → offset ≤ m
      → m < offset + rounds
      → At players start m q
      → q.is_bankrupt ≡ false
      → (k : ℕ) × (p : PlayerState) × (scan_players rounds players start offset
          ≡ ok (some (p, leb (length players) (start + k))))
        × (k ≤ m)
        × IsNext players start offset k p
  unfolding scan_players
  scan_players-total zero offset m lo hi at active = absurd (omega arith)
  scan_players-total (suc rounds) offset m {q} lo hi at active =
      let nonempty : 0 < length players =
        omega (arith, lt-get_elem? players ((start + m) % length players) at) in
      let (c, here) = someone offset nonempty in
      elim (Bool-cases c.is_bankrupt) [
        | inl out ↦
            let later : offset + 1 ≤ m = past players start offset m lo here out at active in
            let (k, p, e, le, (lo', at', active', between)) =
              scan_players-total rounds (offset + 1) m later (omega arith) at active in
            (
              k,
              p,
              rw (here, out, e),
              le,
              (omega arith, at', active', joined players start offset k here out between),
            )
        | inr playing ↦ (
          offset,
          c,
          rw (here, playing),
          lo,
          (omega arith, here, playing, λ j lj hj. absurd (omega arith)),
        )
      ]

-- Where some player round the table is still in, the turn goes over to the first such after the
-- one who leaves: the turn then names that player, who has to decide about jail or to roll, the turn
-- number grows by one, the round number grows by one where the order passed the last index and stays
-- otherwise, the dice, the doubles, the offers made and the pending purchase are reset, and nothing
-- else of the state changes.
pub advance_turn_off_player-IsNext :
    (s : GameState) (leaver start m : ℕ) {q : PlayerState}
    → find_index s.players leaver ≡ some start
    → 1 ≤ m
    → m ≤ length s.players
    → At s.players start m q
    → q.is_bankrupt ≡ false
    → (k : ℕ) × (p : PlayerState) × IsNext s.players start 1 k p
      × (advance_turn_off_player s leaver
          ≡ ok (record s {
            turn = record (s.turn) {
              phase =
                  (if is_some p.jail_status then TurnPhase.jail_decision else TurnPhase.pre_roll);
              current_player_id = p.id;
              turn_number = s.turn.turn_number + 1;
              round_number =
                  s.turn.round_number + (if leb (length s.players) (start + k) then 1 else 0);
              dice_roll = none;
              doubles_streak = 0;
              trade_offers_made = 0;
              pending_buy_position = none;
            };
          }))
unfolding advance_turn_off_player hand_over next_index turn_of opening_phase
advance_turn_off_player-IsNext s leaver start m found lo hi at active =
    let (k, p, e, le, next) =
      scan_players-total s.players start (length s.players) 1 m lo (omega (arith, hi)) at active in
    (k, p, next, rw (found, e))
