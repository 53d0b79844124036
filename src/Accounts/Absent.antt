-- ===== src/Accounts/Absent.antt =====
-- src/infra/mongo/refresh_tokens/repository.py: a hash that no document has.
use monopoly_be.Prelude.{
  String, str_eq, eq_of_str_eq, Bool, false, Bool-cases, none, some, List, [], ◌∷◌, ◌++◌, ℤ, ltb_ℤ,
  ◌≡◌, refl, sym, ◌∙◌, subst, inl, inr,
}
use monopoly_be.Store.{find_first, remove_first}
use monopoly_be.Accounts.{RefreshToken, is_usable}

abbrev pub IsAbsent : String → List RefreshToken → Type 0
IsAbsent i [] = Unit
IsAbsent i (d ∷ docs) = (str_eq d.token_hash i ≡ false) × IsAbsent i docs

-- No two documents have one hash.
abbrev pub IsDistinct : List RefreshToken → Type 0
IsDistinct [] = Unit
IsDistinct (d ∷ docs) = IsAbsent d.token_hash docs × IsDistinct docs

pub append-IsAbsent :
    (i : String) (docs : List RefreshToken) (d : RefreshToken)
    → IsAbsent i docs
    → str_eq d.token_hash i ≡ false
    → IsAbsent i (docs ++ (d ∷ []))
append-IsAbsent i [] d absent other = (other, tt)
append-IsAbsent i (x ∷ docs) d absent other = (absent.0, append-IsAbsent i docs d absent.1 other)

pub remove_first-IsAbsent :
    (i : String) (query : RefreshToken → Bool) (docs : List RefreshToken)
    → IsAbsent i docs
    → IsAbsent i (remove_first query docs)
remove_first-IsAbsent i query [] absent = tt
remove_first-IsAbsent i query (d ∷ docs) absent = elim (Bool-cases (query d)) [
  | inl e ↦ rw e absent.1
  | inr e ↦ rw e (absent.0, remove_first-IsAbsent i query docs absent.1)
]

pub find_first-absent :
    (i : String) (now : ℤ) (docs : List RefreshToken)
    → IsAbsent i docs
    → find_first (is_usable i now) docs ≡ none
unfolding is_usable
find_first-absent i now [] absent = refl
find_first-absent i now (d ∷ docs) absent = rw absent.0 (find_first-absent i now docs absent.1)

-- Once it is taken out, a hash is absent.
pub taken-IsAbsent :
    (i : String) (now : ℤ) (docs : List RefreshToken) (d : RefreshToken)
    → IsDistinct docs
    → find_first (is_usable i now) docs ≡ some d
    → IsAbsent i (remove_first (is_usable i now) docs)
unfolding is_usable
taken-IsAbsent i now [] d distinct found = cc
taken-IsAbsent i now (x ∷ docs) d distinct found = elim (Bool-cases (str_eq x.token_hash i)) [
  | inl same ↦ elim (Bool-cases (ltb_ℤ now x.expires_at)) [
    | inl lives ↦
        rw (same, lives)
          (subst (λ k. IsAbsent k docs) (eq_of_str_eq x.token_hash i same) distinct.0)
    | inr expired ↦
        let rest =
          find_first-absent i now docs
            (subst (λ k. IsAbsent k docs) (eq_of_str_eq x.token_hash i same) distinct.0) in
        let found_later = rw (same, expired) at found in
        let bad : none ≡ some d = sym rest ∙ found_later in cc
  ]
  | inr other ↦ rw other (other, taken-IsAbsent i now docs d distinct.1 (rw other at found))
]
