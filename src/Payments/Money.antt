-- ===== src/Payments/Money.antt =====
-- Payments (src/domain/game/rules/payments.py): who pays, who is paid, and that no money is made.
use monopoly_be.Prelude.{
  ap, Bool, Bool-cases, inl, inr, ◌∙◌, sym, subst, ok-injective, ℕ, ◌≡◌, ◌≢◌, refl, ◌⊎◌, true,
  false, Option, none, some, List, All, ◌==◌, if◌then◌else◌, arith, ℤ, pos, ◌+ℤ◌, ◌-ℤ◌, ◌≤ℤ◌, ◌<ℤ◌,
  leb_ℤ, int_laws, same_parts, ok, >>=-eq-ok, or_raise-eq-ok,
}
use mathlib.Core.Option.{some-injective}
use monopoly_be.Schema.{TurnPhase, GameMode, PlayerState, SpaceOwnership, GameState}
use monopoly_be.Helpers.{
  find_player, get_player_by_id, get_player_by_id_from_state, next_player, update_player_net_worth,
  write_player, replace_player-found, find_player-id, find_player-write, All-write, All-found, cash,
  sum_by-write, balance_of, IsPlaced, update-total, update-eq-ok,
}
use monopoly_be.Payments.{set_balance, credit, transfer_funds, attempt_payment, enter_bankruptcy}

-- Every owned position of every player has its board space and its ownership record.
abbrev pub AllPlaced : GameState → Type 0
AllPlaced s = All (IsPlaced s.spaces s.game_mode) s.players

module _ (spaces : List SpaceOwnership) (mode : GameMode) (change : ℤ → ℤ) where
  -- A balance that moved, as a write of the player.
  pub set_balance-total :
      (players : List PlayerState) (i : ℕ) {p : PlayerState}
      → find_player players i ≡ some p
      → All (IsPlaced spaces mode) players
      → (n : ℤ) × (set_balance players i change spaces mode
          ≡ ok (write_player players i (record p { balance = change p.balance; net_worth = n })))
  unfolding set_balance next_player
  set_balance-total players i {p} h k =
      let moved = record p { balance = change p.balance } in
      let (q, e) =
        update-total moved spaces mode (All-found (IsPlaced spaces mode) players i h k) in
      let (n, _, shape) = update-eq-ok moved spaces mode e in
      (
        n,
        rw (
          h,
          e,
          shape,
          replace_player-found players i (record p { balance = change p.balance; net_worth = n }) h,
        ),
      )

-- The money of all players moves by what one balance moves.
set_balance-cash :
    (players : List PlayerState) (i : ℕ) (change : ℤ → ℤ) (spaces : List SpaceOwnership)
    (mode : GameMode) {players' : List PlayerState}
    → set_balance players i change spaces mode ≡ ok players'
    → (p : PlayerState) × (find_player players i ≡ some p)
      × (cash players' +ℤ p.balance ≡ cash players +ℤ change p.balance)
unfolding set_balance next_player cash
set_balance-cash players i change spaces mode {players'} h =
    let (p, found, k) = >>=-eq-ok (next_player players i) _ h in
    let found' : find_player players i ≡ some p = or_raise-eq-ok (find_player players i) _ found in
    let moved = record p { balance = change p.balance } in
    let (q, e, k') = >>=-eq-ok (update_player_net_worth moved spaces mode) _ k in
    let (n, _, shape) = update-eq-ok moved spaces mode e in
    let written : players' ≡ write_player players i q =
      cc (replace_player-found players i q found') in
    let same : q.balance ≡ change p.balance = cc in
    (p, found', rw written (rw (← same) (sum_by-write (λ x. x.balance) players i q found')))

-- What leaves the players' money when an amount is paid.
abbrev pub to_bank : Option ℕ → ℤ → ℤ
to_bank none amount = amount
to_bank (some creditor_id) amount = pos 0

credit-cash :
    (players : List PlayerState) (c : Option ℕ) (a : ℤ) (spaces : List SpaceOwnership)
    (mode : GameMode) {players' : List PlayerState}
    → credit players c a spaces mode ≡ ok players'
    → cash players' +ℤ to_bank c a ≡ cash players +ℤ a
unfolding credit
credit-cash players none a spaces mode h = cc
credit-cash players (some c) a spaces mode h =
    let (q, _, e) = set_balance-cash players c (λ b. b +ℤ a) spaces mode h in
    omega (int_laws, same_parts e)

pub transfer_funds-cash :
    (s : GameState) (i : ℕ) (c : Option ℕ) (a : ℤ) {s' : GameState}
    → transfer_funds s i c a ≡ ok s'
    → cash s'.players +ℤ to_bank c a ≡ cash s.players
unfolding transfer_funds
transfer_funds-cash s i c a {s'} h =
    let (paid, e, k) = >>=-eq-ok (set_balance s.players i (λ b. b -ℤ a) s.spaces s.game_mode) _ h in
    let (players, e', k') = >>=-eq-ok (credit paid c a s.spaces s.game_mode) _ k in
    let (p, _, out) = set_balance-cash s.players i (λ b. b -ℤ a) s.spaces s.game_mode e in
    let into = credit-cash paid c a s.spaces s.game_mode e' in
    let same : s'.players ≡ players = cc k' in
    rw same (omega (int_laws, same_parts out, same_parts into))

transfer_funds-cash_player :
    (s : GameState) (i c : ℕ) (a : ℤ) {s' : GameState}
    → transfer_funds s i (some c) a ≡ ok s'
    → cash s'.players ≡ cash s.players
transfer_funds-cash_player s i c a h =
    omega (int_laws, same_parts (transfer_funds-cash s i (some c) a h))

transfer_funds-bankruptcy :
    (s : GameState) (i : ℕ) (c : Option ℕ) (a : ℤ) {s' : GameState}
    → transfer_funds s i c a ≡ ok s'
    → s'.bankruptcy ≡ s.bankruptcy
unfolding transfer_funds
transfer_funds-bankruptcy s i c a h = ground arith

-- A payment that returns leaves the money of all players as it was, or lowers it by the whole amount,
-- which then went to the bank. In no case is money made.
pub attempt_payment-cash :
    (s : GameState) (i : ℕ) (a : ℤ) (c : Option ℕ) {s' : GameState}
    → attempt_payment s i a c ≡ ok s'
    → (cash s'.players ≡ cash s.players)
      ⊎ ((c ≡ none) × (pos 0 <ℤ a) × (cash s'.players +ℤ a ≡ cash s.players))
unfolding attempt_payment enter_bankruptcy
attempt_payment-cash s i a none {s'} h = ground (arith, transfer_funds-cash s i none a {s' = s'})
attempt_payment-cash s i a (some c) {s'} h =
    ground (arith, transfer_funds-cash_player s i c a {s' = s'})

-- The two writes of a transfer between two players.
module _ (s : GameState) (i c : ℕ) {p q : PlayerState} (ne : i ≢ c)
    (payer : find_player s.players i ≡ some p) (payee : find_player s.players c ≡ some q)
    (placed : AllPlaced s) (a : ℤ) where
  transfer_funds-pays :
      (s' : GameState) × (transfer_funds s i (some c) a ≡ ok s')
      × (s'.bankruptcy ≡ s.bankruptcy)
      × ((j : ℕ)
          → balance_of s'.players j ≡ (
              if i == j
              then some (p.balance -ℤ a)
              else if c == j
              then some (q.balance +ℤ a)
              else balance_of s.players j))
  unfolding transfer_funds credit balance_of
  transfer_funds-pays =
      let (n, e) = set_balance-total s.spaces s.game_mode (λ b. b -ℤ a) s.players i payer placed in
      let paid = record p { balance = p.balance -ℤ a; net_worth = n } in
      let ps = write_player s.players i paid in
      let id_p : p.id ≡ i = find_player-id s.players i payer in
      let found : find_player ps c ≡ some q =
        ground (arith, find_player-write s.players i c paid id_p payer) in
      let placed' : All (IsPlaced s.spaces s.game_mode) ps =
        All-write (IsPlaced s.spaces s.game_mode) s.players i paid placed
          (All-found (IsPlaced s.spaces s.game_mode) s.players i payer placed) in
      let (n', e') = set_balance-total s.spaces s.game_mode (λ b. b +ℤ a) ps c found placed' in
      let credited = record q { balance = q.balance +ℤ a; net_worth = n' } in
      let id_q : q.id ≡ c = find_player-id s.players c payee in
      (
        record s { players = write_player ps c credited },
        rw (e, e'),
        refl,
        λ j. ground (
          arith,
          find_player-write s.players i j paid id_p payer,
          find_player-write ps c j credited id_q found,
        ),
      )

  -- A positive amount that the payer covers goes from the payer's balance to another player's, and no
  -- other balance moves and no debt opens, where every owned position has its board space and its
  -- ownership record.
  pub attempt_payment-pays :
      pos 0 <ℤ a
      → a ≤ℤ p.balance
      → (s' : GameState) × (attempt_payment s i a (some c) ≡ ok s')
        × (s'.bankruptcy ≡ s.bankruptcy)
        × ((j : ℕ)
            → balance_of s'.players j ≡ (
                if i == j
                then some (p.balance -ℤ a)
                else if c == j
                then some (q.balance +ℤ a)
                else balance_of s.players j))
  unfolding attempt_payment get_player_by_id_from_state get_player_by_id
  attempt_payment-pays positive covered =
      let (s', paid, debt, balances) = transfer_funds-pays in
      let test : leb_ℤ a (pos 0) ≡ false = ground arith in
      let test' : leb_ℤ a p.balance ≡ true = ground arith in
      (s', rw (test, payer, test', paid), debt, balances)

set_balance-balance_of :
    (players : List PlayerState) (i : ℕ) (change : ℤ → ℤ) (spaces : List SpaceOwnership)
    (mode : GameMode) {players' : List PlayerState}
    → set_balance players i change spaces mode ≡ ok players'
    → (p : PlayerState) × (find_player players i ≡ some p)
      × ((j : ℕ)
          → balance_of players' j
            ≡ (if i == j then some (change p.balance) else balance_of players j))
unfolding set_balance next_player balance_of
set_balance-balance_of players i change spaces mode {players'} h =
    let (p, found, k) = >>=-eq-ok (next_player players i) _ h in
    let found' : find_player players i ≡ some p = or_raise-eq-ok (find_player players i) _ found in
    let moved = record p { balance = change p.balance } in
    let (q, e, k') = >>=-eq-ok (update_player_net_worth moved spaces mode) _ k in
    let (n, _, shape) = update-eq-ok moved spaces mode e in
    let written : players' ≡ write_player players i q =
      cc (replace_player-found players i q found') in
    let same : q.balance ≡ change p.balance = cc in
    let id_q : q.id ≡ i = cc (find_player-id players i found') in
    (p, found', λ j. rw written (ground (arith, find_player-write players i j q id_q found')))

-- Whether the payer is the creditor too.
abbrev pub is_self : Option ℕ → ℕ → Bool
is_self none i = false
is_self (some c) i = c == i

at_self : (i : ℕ) (x y : Option ℤ) → (if i == i then x else y) ≡ x
at_self i x y = ground arith

has_balance :
    (players : List PlayerState) (i : ℕ) {p : PlayerState}
    → find_player players i ≡ some p
    → balance_of players i ≡ some p.balance
unfolding balance_of
has_balance players i h =
    ap (λ (o : Option PlayerState). elim o [ none ↦ none | some x ↦ some x.balance ]) h

-- What was taken from the payer comes back where the payer is the creditor.
credited :
    (i c : ℕ) (p q a : ℤ) (old : Option ℤ) {kept : Option ℤ}
    → (if i == c then some (p -ℤ a) else old) ≡ some q
    → kept ≡ some (p -ℤ a)
    → (if c == i then some (q +ℤ a) else kept) ≡ some (if c == i then p else p -ℤ a)
credited i c p q a old {kept} taken other = elim (Bool-cases (c == i)) [
  | inl e ↦
      let e' : (i == c) ≡ true = ground (arith, e) in
      let same : p -ℤ a ≡ q = some-injective _ _ (rw e' at taken) in
      rw e (ap some (omega (int_laws, same_parts same)))
  | inr e ↦ rw e other
]

transfer_funds-payer :
    (s : GameState) (i : ℕ) (c : Option ℕ) (a : ℤ) {s' : GameState}
    → transfer_funds s i c a ≡ ok s'
    → (p : PlayerState) × (find_player s.players i ≡ some p)
      × (balance_of s'.players i ≡ some (if is_self c i then p.balance else p.balance -ℤ a))
unfolding transfer_funds credit
transfer_funds-payer s i none a {s'} h =
    let (paid, e, k) = >>=-eq-ok (set_balance s.players i (λ b. b -ℤ a) s.spaces s.game_mode) _ h in
    let (p, found, out) = set_balance-balance_of s.players i (λ b. b -ℤ a) s.spaces s.game_mode e in
    let same : s'.players ≡ paid = cc k in
    (p, found, ap (λ x. balance_of x i) same ∙ out i ∙ at_self i _ _)
transfer_funds-payer s i (some c) a {s'} h =
    let (paid, e, k) = >>=-eq-ok (set_balance s.players i (λ b. b -ℤ a) s.spaces s.game_mode) _ h in
    let (players, e', k') = >>=-eq-ok (set_balance paid c (λ b. b +ℤ a) s.spaces s.game_mode) _ k in
    let (p, found, out) = set_balance-balance_of s.players i (λ b. b -ℤ a) s.spaces s.game_mode e in
    let (q, found_q, into) = set_balance-balance_of paid c (λ b. b +ℤ a) s.spaces s.game_mode e' in
    let same : s'.players ≡ players = cc k' in
    let before : balance_of paid c ≡ some q.balance = has_balance paid c found_q in
    (
      p,
      found,
      ap (λ x. balance_of x i) same
          ∙ into i
          ∙ credited i c p.balance q.balance a (balance_of s.players c) (sym (out c) ∙ before)
              (out i ∙ at_self i _ _),
    )

-- What a payment does where no debt is open.
pub data Outcome (s : GameState) (i : ℕ) (a : ℤ) (c : Option ℕ) : GameState → Type 0 where
  nothing_due : a ≤ℤ pos 0 → Outcome s i a c s
  paid :
      {s' : GameState} {p : PlayerState}
      → pos 0 <ℤ a
      → find_player s.players i ≡ some p
      → a ≤ℤ p.balance
      → balance_of s'.players i ≡ some (if is_self c i then p.balance else p.balance -ℤ a)
      → cash s'.players +ℤ to_bank c a ≡ cash s.players
      → s'.bankruptcy ≡ none
      → Outcome s i a c s'
  debt_opened :
      {p : PlayerState}
      → pos 0 <ℤ a
      → find_player s.players i ≡ some p
      → p.balance <ℤ a
      → Outcome s i a c (record s {
        bankruptcy = some (record { debtor_id = i; creditor_id = c; amount_owed = a });
        turn = record (s.turn) { phase = TurnPhase.bankrupt_resolution };
      })

pub attempt_payment-Outcome :
    (s : GameState) (i : ℕ) (a : ℤ) (c : Option ℕ) {s' : GameState}
    → s.bankruptcy ≡ none
    → attempt_payment s i a c ≡ ok s'
    → Outcome s i a c s'
unfolding attempt_payment enter_bankruptcy get_player_by_id_from_state get_player_by_id
attempt_payment-Outcome s i a c {s'} none_open h = elim (Bool-cases (leb_ℤ a (pos 0))) [
  | inl small ↦ subst (Outcome s i a c) (ok-injective (rw small at h)) (nothing_due (ground arith))
  | inr due ↦
      let (p, found, k) = >>=-eq-ok (get_player_by_id_from_state s i) _ (rw due at h) in
      let found' : find_player s.players i ≡ some p =
        or_raise-eq-ok (find_player s.players i) _ found in
      elim (Bool-cases (leb_ℤ a p.balance)) [
        | inl covered ↦
            let moved = rw covered at k in
            let (p', found'', balance) = transfer_funds-payer s i c a moved in
            let same : p' ≡ p = some-injective _ _ (sym found'' ∙ found') in
            paid (ground arith) found' (ground arith)
              (subst
                (λ x.
                  balance_of s'.players i
                  ≡ some (if is_self c i then x.balance else x.balance -ℤ a))
                same balance)
              (transfer_funds-cash s i c a moved)
              (transfer_funds-bankruptcy s i c a moved ∙ none_open)
        | inr short ↦
            subst (Outcome s i a c) (ok-injective (rw (short, none_open) at k))
              (debt_opened (ground arith) found' (ground arith))
      ]
]
