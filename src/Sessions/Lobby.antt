-- ===== src/Sessions/Lobby.antt =====
-- src/infra/mongo/sessions/repository.py: the updates of a session keep its members distinct and no
-- more than its game takes, and sessions apart from one another.
use monopoly_be.Prelude.{
  String, ℕ, any, str_eq, str_eq_refl, eq_of_str_eq, length-append, suc, ◌≤◌, ◌≡◌, refl, ap, ◌∙◌,
  sym, inl, inr, Bool, true, false, not, List, [], ◌∷◌, ◌++◌, map, All, Bool-cases, arith, length,
  filterb, ℤ,
}
use monopoly_be.Board.{get_game_config}
use monopoly_be.Store.{All-snoc}
use monopoly_be.Sessions.{
  SessionStatus, SessionMemberDocument, SessionDocument, member_to_domain, to_domain,
  session_conflicts, is_member_of, takes_member, push_member, pull_member, put_status, put_host,
  rehosted,
}

abbrev pub IsDistinct : List SessionMemberDocument → Type 0
IsDistinct [] = Unit
IsDistinct (m ∷ members) = All (λ n. is_member_of m.user_id n ≡ false) members × IsDistinct members

pub record IsLobby (doc : SessionDocument) : Type 0 where
  pub bounded : length doc.members ≤ (get_game_config doc.game_mode).max_players
  pub distinct : IsDistinct doc.members

-- Each session is a lobby, and no two have an id or an invite code in common.
abbrev pub IsLobbies : List SessionDocument → Type 0
IsLobbies [] = Unit
IsLobbies (d ∷ docs) = IsLobby d × All (λ e. session_conflicts d e ≡ false) docs × IsLobbies docs

pub any-false {ℓ} :
    {A : Type ℓ} (p : A → Bool) (xs : List A) → any p xs ≡ false → All (λ x. p x ≡ false) xs
any-false p [] h = tt
any-false p (x ∷ xs) h = elim (Bool-cases (p x)) [
  | inl e ↦ let bad : true ≡ false = rw e at h in cc
  | inr e ↦ (e, any-false p xs (rw e at h))
]

pub All-filterb {ℓ κ} :
    {A : Type ℓ} (P : A → Type κ) (p : A → Bool) (xs : List A) → All P xs → All P (filterb p xs)
All-filterb P p [] h = tt
All-filterb P p (x ∷ xs) h = elim (Bool-cases (p x)) [
  | inl e ↦ rw e (h.0, All-filterb P p xs h.1)
  | inr e ↦ rw e (All-filterb P p xs h.1)
]

pub length-filterb {ℓ} :
    {A : Type ℓ} (p : A → Bool) (xs : List A) → length (filterb p xs) ≤ length xs
length-filterb p [] = omega arith
length-filterb p (x ∷ xs) = elim (Bool-cases (p x)) [
  | inl e ↦ rw e (omega (arith, length-filterb p xs))
  | inr e ↦ rw e (omega (arith, length-filterb p xs))
]

pub filterb-IsDistinct :
    (p : SessionMemberDocument → Bool) (ms : List SessionMemberDocument)
    → IsDistinct ms
    → IsDistinct (filterb p ms)
filterb-IsDistinct p [] h = tt
filterb-IsDistinct p (m ∷ ms) h = elim (Bool-cases (p m)) [
  | inl e ↦
      rw e
        (All-filterb (λ n. is_member_of m.user_id n ≡ false) p ms h.0, filterb-IsDistinct p ms h.1)
  | inr e ↦ rw e (filterb-IsDistinct p ms h.1)
]

str_eq_sym : (s t : String) → str_eq s t ≡ false → str_eq t s ≡ false
str_eq_sym s t h = elim (Bool-cases (str_eq t s)) [
  | inr e ↦ e
  | inl e ↦
      let same = eq_of_str_eq t s e in
      let bad : true ≡ false = (sym (str_eq_refl s)) ∙ (rw same at h) in cc
]

pub push-IsDistinct :
    (ms : List SessionMemberDocument) (m : SessionMemberDocument)
    → any (is_member_of m.user_id) ms ≡ false
    → IsDistinct ms
    → IsDistinct (ms ++ (m ∷ []))
push-IsDistinct [] m h d = (tt, tt)
push-IsDistinct (n ∷ ms) m h d = elim (Bool-cases (is_member_of m.user_id n)) [
  | inl e ↦ let bad : true ≡ false = rw e at h in cc
  | inr e ↦ (
    All-snoc (λ k. is_member_of n.user_id k ≡ false) ms m d.0 (str_eq_sym n.user_id m.user_id e),
    push-IsDistinct ms m (rw e at h) d.1,
  )
]

All-rehosted :
    (new user_id : String) (ms : List SessionMemberDocument)
    → All (λ n. is_member_of user_id n ≡ false) ms
    → All (λ n. is_member_of user_id n ≡ false) (map (rehosted new) (map member_to_domain ms))
unfolding rehosted member_to_domain
All-rehosted new user_id [] h = tt
All-rehosted new user_id (m ∷ ms) h = (h.0, All-rehosted new user_id ms h.1)

rehosted-IsDistinct :
    (new : String) (ms : List SessionMemberDocument)
    → IsDistinct ms
    → IsDistinct (map (rehosted new) (map member_to_domain ms))
unfolding rehosted member_to_domain
rehosted-IsDistinct new [] h = tt
rehosted-IsDistinct new (m ∷ ms) h =
    (All-rehosted new m.user_id ms h.0, rehosted-IsDistinct new ms h.1)

length-rehosted :
    (new : String) (ms : List SessionMemberDocument)
    → length (map (rehosted new) (map member_to_domain ms)) ≡ length ms
length-rehosted new [] = refl
length-rehosted new (m ∷ ms) = ap suc (length-rehosted new ms)

-- The updates, each at the session that its query matches.
pub push_member-IsLobby :
    (session_id : String) (member : SessionMemberDocument) (max_members : ℕ) (now : ℤ)
    (doc : SessionDocument)
    → (get_game_config doc.game_mode).max_players ≡ max_members
    → takes_member session_id member max_members doc ≡ true
    → IsLobby doc
    → IsLobby (push_member member now doc)
unfolding takes_member push_member
push_member-IsLobby session_id member max_members now doc mode h lobby = record {
  bounded = ground (arith, length-append doc.members (member ∷ []));
  distinct = push-IsDistinct doc.members member (ground arith) lobby.distinct;
}

pub pull_member-IsLobby :
    (user_id : String) (now : ℤ) (doc : SessionDocument)
    → IsLobby doc
    → IsLobby (pull_member user_id now doc)
unfolding pull_member
pull_member-IsLobby user_id now doc lobby = record {
  bounded =
      omega (arith, length-filterb (λ m. not (is_member_of user_id m)) doc.members, lobby.bounded);
  distinct = filterb-IsDistinct (λ m. not (is_member_of user_id m)) doc.members lobby.distinct;
}

pub put_status-IsLobby :
    (status : SessionStatus) (now : ℤ) (doc : SessionDocument)
    → IsLobby doc
    → IsLobby (put_status status now doc)
unfolding put_status
put_status-IsLobby status now doc lobby = record {
  bounded = lobby.bounded;
  distinct = lobby.distinct;
}

pub put_host-IsLobby :
    (new : String) (now : ℤ) (doc : SessionDocument)
    → IsLobby doc
    → IsLobby (put_host new (map (rehosted new) (to_domain doc).members) now doc)
unfolding put_host to_domain
put_host-IsLobby new now doc lobby = record {
  bounded = omega (arith, length-rehosted new doc.members, lobby.bounded);
  distinct = rehosted-IsDistinct new doc.members lobby.distinct;
}
