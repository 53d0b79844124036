-- ===== src/Games/Repository.antt =====
-- src/infra/mongo/games: the documents and the calls of `GameRepository`. A state is kept as it is, as
-- pydantic dumps and validates it, and so is the state of a generator. The flag `rated`, which is no
-- field of the class, is set in the database only.
use monopoly_be.Prelude.{
  duplicate_key, ℕ, String, str_eq, ◌+◌, Bool, true, false, not, ◌&&◌, ◌||◌, Option, ◌==◌,
  if◌then◌else◌, is_some, ℤ, err,
}
use monopoly_be.Schema.{GameState}
use monopoly_be.Store.{Collection, Step, give, lift, calling, ◌>>=◌}
use mathlib.Core.Option

pub record GameDocument (S : Type 0) : Type 0 where
  pub id : String
  pub session_id : String
  pub seed : ℕ
  pub rng_state : S
  pub version : ℕ
  pub state : GameState
  pub created_at : ℤ
  pub updated_at : ℤ
  pub rated : Bool

pub record StoredGame (S : Type 0) : Type 0 where
  pub game_id : String
  pub session_id : String
  pub seed : ℕ
  pub rng_state : S
  pub version : ℕ
  pub state : GameState

-- `to_document`, with the version 0 that `build_document` gives it.
unfoldable pub build_document :
    {S : Type 0} (game_id session_id : String) (seed : ℕ) → S → GameState → ℤ → GameDocument S
build_document game_id session_id seed rng_state state now = record {
  id = game_id;
  session_id = session_id;
  seed = seed;
  rng_state = rng_state;
  version = 0;
  state = state;
  created_at = now;
  updated_at = now;
  rated = false;
}

-- `StoredGame(…)` of a document.
unfoldable pub stored_game : {S : Type 0} → GameDocument S → StoredGame S
stored_game doc = record {
  game_id = doc.id;
  session_id = doc.session_id;
  seed = doc.seed;
  rng_state = doc.rng_state;
  version = doc.version;
  state = doc.state;
}

-- The unique keys: the id, and the session by infra/mongo/indexes.py.
unfoldable pub game_conflicts : {S : Type 0} → GameDocument S → GameDocument S → Bool
game_conflicts d e = str_eq d.id e.id || str_eq d.session_id e.session_id

abbrev pub of_session : {S : Type 0} → String → GameDocument S → Bool
of_session session_id doc = str_eq doc.session_id session_id

-- The query and the update of `update_with_version`.
abbrev pub at_version : {S : Type 0} → String → ℕ → GameDocument S → Bool
at_version game_id expected_version doc = str_eq doc.id game_id && (doc.version == expected_version)

unfoldable pub put_state : {S : Type 0} → GameState → S → ℤ → GameDocument S → GameDocument S
put_state state rng_state now doc = record doc {
  state = state;
  rng_state = rng_state;
  updated_at = now;
  version = doc.version + 1;
}

-- The query and the update of `claim_for_rating`.
abbrev pub unrated : {S : Type 0} → String → GameDocument S → Bool
unrated session_id doc = str_eq doc.session_id session_id && not doc.rated

unfoldable pub put_rated : {S : Type 0} → GameDocument S → GameDocument S
put_rated doc = record doc { rated = true }

module _ {S : Type 0} (G : Collection (GameDocument S)) where
  unfoldable pub insert_game : GameDocument S → Step G.State (StoredGame S)
  insert_game doc = calling (G.insert_one doc) >>= λ (inserted : Bool).
      if inserted then give (stored_game doc) else lift (err duplicate_key)

  unfoldable pub find_by_session_id : String → G.State → Option (StoredGame S)
  find_by_session_id session_id s = Option.map stored_game (G.find_one (of_session session_id) s)

  unfoldable pub update_with_version :
      String → GameState → ℕ → S → ℤ → Step G.State (Option (StoredGame S))
  update_with_version game_id state expected_version rng_state now =
      calling (
        G.find_one_and_update (at_version game_id expected_version) (put_state state rng_state now))
      >>= λ (raw : Option (GameDocument S)). give (Option.map stored_game raw)

  unfoldable pub claim_for_rating : String → G.State → Bool × G.State
  claim_for_rating session_id s =
      let r = G.find_one_and_update (unrated session_id) put_rated s in (is_some r.0, r.1)
