-- ===== src/Landing/Charged.antt =====
-- movement.py and payments.py: what a charge does to the money, and what `_finalize` keeps of it.
use monopoly_be.Prelude.{
  ℕ, Bool, Bool-cases, true, false, not, ◌==◌, ◌≡◌, refl, ap, ◌∙◌, sym, subst, inl, inr, Option,
  none, some, is_some, List, [], ◌∷◌, arith, if◌then◌else◌, ℤ, pos, ◌+ℤ◌, ◌-ℤ◌, ◌≤ℤ◌, ◌<ℤ◌, ok,
  >>=-eq-ok, ok-injective,
}
use monopoly_be.Schema.{GameMode, TurnPhase, PlayerState, SpaceOwnership, TurnState, GameState}
use monopoly_be.Helpers.{
  refresh_all_net_worth, update_player_net_worth, update-eq-ok, sum_by-refresh, find_player,
  balance_of, cash,
}
use monopoly_be.Movement.{finalize}
use monopoly_be.Payments.Money.{to_bank, is_self, Outcome, nothing_due, debt_opened}

balance_of-cons :
    (p : PlayerState) (n : ℤ) (rest players : List PlayerState) (i : ℕ)
    → balance_of rest i ≡ balance_of players i
    → balance_of (record p { net_worth = n } ∷ rest) i ≡ balance_of (p ∷ players) i
unfolding balance_of find_player
balance_of-cons p n rest players i h = elim (Bool-cases (p.id == i)) [
  | inl same ↦ ground (arith, same)
  | inr other ↦ ground (arith, other, h)
]

refresh-balance_of :
    (players : List PlayerState) (spaces : List SpaceOwnership) (mode : GameMode) (i : ℕ)
    {players' : List PlayerState}
    → refresh_all_net_worth players spaces mode ≡ ok players'
    → balance_of players' i ≡ balance_of players i
unfolding refresh_all_net_worth
refresh-balance_of [] spaces mode i h = ap (λ x. balance_of x i) (sym (ok-injective h))
refresh-balance_of (p ∷ players) spaces mode i h =
    let (q, e, k) = >>=-eq-ok (update_player_net_worth p spaces mode) _ h in
    let (rest, e', k') = >>=-eq-ok (refresh_all_net_worth players spaces mode) _ k in
    let (n, _, shape) = update-eq-ok p spaces mode e in
    subst (λ x. balance_of x i ≡ balance_of (p ∷ players) i) (ok-injective k')
      (subst (λ x. balance_of (x ∷ rest) i ≡ balance_of (p ∷ players) i) (sym shape)
        (balance_of-cons p n rest players i (refresh-balance_of players spaces mode i e')))

-- What `_finalize` keeps.
pub record IsKept (s s' : GameState) : Type 0 where
  pub total : cash s'.players ≡ cash s.players
  pub balances : (i : ℕ) → balance_of s'.players i ≡ balance_of s.players i
  pub debt : s'.bankruptcy ≡ s.bankruptcy

pub finalize-IsKept :
    (s : GameState) (turn : TurnState) {s' : GameState}
    → finalize s s.players s.spaces turn ≡ ok s'
    → IsKept s s'
unfolding finalize cash
finalize-IsKept s turn h =
    let (players, e, k) = >>=-eq-ok (refresh_all_net_worth s.players s.spaces s.game_mode) _ h in
    let shape = ok-injective k in
    record {
      total =
          ap (λ x. cash x.players) (sym shape)
          ∙ sum_by-refresh (λ x. x.balance) s.players s.spaces s.game_mode (λ x n. refl) e;
      balances = λ i.
          ap (λ x. balance_of x.players i) (sym shape)
          ∙ refresh-balance_of s.players s.spaces s.game_mode i e;
      debt = ap (λ x. x.bankruptcy) (sym shape);
    }

-- What a charge of an amount does to a player: it is paid, with a receipt, or it opens a debt.
pub data Charged (s : GameState) (i n : ℕ) (c : Option ℕ) : GameState → Bool → Type 0 where
  nothing :
      {s' : GameState}
      → n ≡ 0
      → cash s'.players ≡ cash s.players
      → s'.bankruptcy ≡ none
      → Charged s i n c s' true
  paid :
      {s' : GameState} {b : ℤ}
      → balance_of s.players i ≡ some b
      → pos n ≤ℤ b
      → balance_of s'.players i ≡ some (if is_self c i then b else b -ℤ pos n)
      → cash s'.players +ℤ to_bank c (pos n) ≡ cash s.players
      → s'.bankruptcy ≡ none
      → Charged s i n c s' true
  owed :
      {s' : GameState} {b : ℤ}
      → balance_of s.players i ≡ some b
      → b <ℤ pos n
      → cash s'.players ≡ cash s.players
      → s'.bankruptcy ≡ some (record { debtor_id = i; creditor_id = c; amount_owed = pos n })
      → s'.turn.phase ≡ TurnPhase.bankrupt_resolution
      → Charged s i n c s' false

has_balance :
    (players : List PlayerState) (i : ℕ) {p : PlayerState}
    → find_player players i ≡ some p
    → balance_of players i ≡ some p.balance
unfolding balance_of
has_balance players i h =
    ap (λ (o : Option PlayerState). elim o [ none ↦ none | some x ↦ some x.balance ]) h

-- A payment between two states with the money of the first and of the last.
pub Outcome-Charged :
    (s start : GameState) (i n : ℕ) (c : Option ℕ) {middle : GameState}
    → IsKept s start
    → s.bankruptcy ≡ none
    → Outcome start i (pos n) c middle
    → Charged s i n c middle (not (is_some middle.bankruptcy))
Outcome-Charged s start i n c kept none_open (nothing_due due) =
    let no_debt = kept.debt ∙ none_open in
    subst (λ d. Charged s i n c start (not (is_some d))) (sym no_debt)
      (nothing (ground arith) kept.total no_debt)
Outcome-Charged s start i n c {middle} kept none_open
      (Outcome.paid positive found covered balance total no_debt) =
    subst (λ d. Charged s i n c middle (not (is_some d))) (sym no_debt)
      (Charged.paid (sym (kept.balances i) ∙ has_balance start.players i found) covered balance
        (total ∙ kept.total) no_debt)
Outcome-Charged s start i n c kept none_open (debt_opened positive found short) =
    owed (sym (kept.balances i) ∙ has_balance start.players i found) short kept.total refl refl

-- What comes after a payment keeps it.
pub Charged-IsKept :
    (s : GameState) (i n : ℕ) (c : Option ℕ) {s' s'' : GameState}
    → Charged s i n c s' true
    → IsKept s' s''
    → Charged s i n c s'' true
Charged-IsKept s i n c (nothing none_due total no_debt) kept =
    nothing none_due (kept.total ∙ total) (kept.debt ∙ no_debt)
Charged-IsKept s i n c (Charged.paid had covered balance total no_debt) kept =
    Charged.paid had covered (kept.balances i ∙ balance)
      (ap (λ x. x +ℤ to_bank c (pos n)) kept.total ∙ total) (kept.debt ∙ no_debt)

pub Charged-in_debt :
    (s : GameState) (i n : ℕ) (c : Option ℕ) {s' : GameState}
    → Charged s i n c s' false
    → Charged s i n c
        (record s' { turn = record (s'.turn) { phase = TurnPhase.bankrupt_resolution } })
        false
Charged-in_debt s i n c (owed had short total debt phase) = owed had short total debt refl
