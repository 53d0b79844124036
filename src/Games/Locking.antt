-- ===== src/Games/Locking.antt =====
-- src/application/services/game_service.py: optimistic locking. An intent is read from one store and
-- committed to another, which others may have written in between.
use monopoly_be.Prelude.{
  app_error, AppError, Error, Option-cases, ℕ, String, ◌+◌, ◌≡◌, ◌≢◌, refl, ap, ◌∙◌, sym, subst,
  inl, inr, ◌⊎◌, Bool, Option, none, some, List, arith, Result, ok, err, ok-injective,
}
use monopoly_be.Schema.{GameState, GameCommand}
use monopoly_be.Random.{Random}
use monopoly_be.Animation.{AnimationInstruction, build_timeline}
use monopoly_be.Engine.{Call, Handled}
use monopoly_be.Store.{Collection, IsCollection, find_first}
use monopoly_be.Games.{
  GameDocument, StoredGame, stored_game, game_conflicts, at_version, put_state, update_with_version,
  engine_step, commit,
}
use monopoly_be.Games.Versions.{
  IsApart, game_at, update_first-none, update_first-version, update_first-IsApart,
}
use mathlib.Core.Option
use mathlib.Core.Option.{some-injective}

next_version-ne : (version : ℕ) → version + 1 ≢ version
next_version-ne version e = omega arith

pub Result-cases {ℓ} :
    {A : Type ℓ} (r : Result A) → ((e : Error) × (r ≡ err e)) ⊎ ((a : A) × (r ≡ ok a))
Result-cases (err e) = inl (e, refl)
Result-cases (ok a) = inr (a, refl)

module _ (R : Random) (G : Collection (GameDocument R.State))
    (law : IsCollection game_conflicts G) where
  open R use {State}

  -- The two ends of a commit: nothing was written, or the version that was read was still there.
  pub record Committed (stored : StoredGame State) (command : GameCommand) (call : Call)
      (s t : G.State) (shown : GameState × List AnimationInstruction) : Type 0 where
    pub handled : Handled State
    pub stepped : engine_step R G stored command call ≡ ok handled
    pub was :
        (state : GameState) × (game_at stored.game_id (law.documents s)
          ≡ some (stored.version, state))
    pub is : game_at stored.game_id (law.documents t) ≡ some (stored.version + 1, handled.state)
    pub reply : shown ≡ (handled.state, build_timeline command handled.state handled.events)

  module _ (session_id : String) (stored : StoredGame State) (command : GameCommand)
      (call : Call) where
    -- The store after the write of what the engine made.
    after_write : Handled State → G.State → G.State
    after_write handled s =
        (G.find_one_and_update (at_version stored.game_id stored.version)
          (put_state handled.state handled.rng call.now) s).1

    write-reply :
        (handled : Handled State) (s : G.State) (found : Option (GameDocument State))
        → find_first (at_version stored.game_id stored.version) (law.documents s) ≡ found
        → (G.find_one_and_update
            (at_version stored.game_id stored.version)
            (put_state handled.state handled.rng call.now)
            s).0
          ≡ Option.map (put_state handled.state handled.rng call.now) found
    write-reply handled s found e =
        law.update_reply (at_version stored.game_id stored.version)
          (put_state handled.state handled.rng call.now) s
        ∙ ap (Option.map (put_state handled.state handled.rng call.now)) e

    commit-refused :
        (s : G.State) (e : Error)
        → engine_step R G stored command call ≡ err e
        → commit R G session_id stored command call s ≡ (err e, s)
    unfolding commit
    commit-refused s e refused = rw refused

    commit-conflict :
        (s : G.State) (handled : Handled State)
        → engine_step R G stored command call ≡ ok handled
        → find_first (at_version stored.game_id stored.version) (law.documents s) ≡ none
        → commit R G session_id stored command call s
          ≡ (err (app_error (AppError.game_version_conflict session_id)), after_write handled s)
    unfolding commit update_with_version after_write
    commit-conflict s handled stepped none_found =
        rw (stepped, write-reply handled s none none_found)

    commit-written :
        (s : G.State) (handled : Handled State) (d : GameDocument State)
        → engine_step R G stored command call ≡ ok handled
        → find_first (at_version stored.game_id stored.version) (law.documents s) ≡ some d
        → commit R G session_id stored command call s ≡ (
          ok (handled.state, build_timeline command handled.state handled.events),
          after_write handled s,
        )
    unfolding commit update_with_version after_write stored_game put_state
    commit-written s handled d stepped found = rw (stepped, write-reply handled s (some d) found)

    Outcome : G.State → Result (GameState × List AnimationInstruction) × G.State → Type 0
    Outcome s r =
        ((shown : GameState × List AnimationInstruction)
          → r.0 ≡ ok shown
          → Committed stored command call s r.1 shown)
        × ((e : Error) → r.0 ≡ err e → law.documents r.1 ≡ law.documents s)

    commit-Outcome :
        (s : G.State)
        → IsApart (law.documents s)
        → Outcome s (commit R G session_id stored command call s)
    unfolding Outcome after_write
    commit-Outcome s apart = elim (Result-cases (engine_step R G stored command call)) [
      | inl (e, refused) ↦
          subst (Outcome s) (sym (commit-refused s e refused)) (λ shown h. cc, λ e' h. refl)
      | inr (handled, stepped) ↦
          let query : GameDocument State → Bool = at_version stored.game_id stored.version in
          let change : GameDocument State → GameDocument State =
            put_state handled.state handled.rng call.now in
          elim (Option-cases (find_first query (law.documents s))) [
            | inl none_found ↦
                subst (Outcome s) (sym (commit-conflict s handled stepped none_found)) (
                  λ shown h. cc,
                  λ e h.
                      law.update_documents query change s
                      ∙ update_first-none query change (law.documents s) none_found,
                )
            | inr (d, found) ↦
                let (was, is) =
                  update_first-version stored.game_id stored.version handled.state handled.rng
                    call.now (law.documents s) d apart found in
                subst (Outcome s) (sym (commit-written s handled d stepped found)) (
                  λ shown h. record {
                    handled = handled;
                    stepped = stepped;
                    was = (d.state, was);
                    is = ap (game_at stored.game_id) (law.update_documents query change s) ∙ is;
                    reply = sym (ok-injective h);
                  },
                  λ e h. cc,
                )
          ]
    ]

  -- A commit that returns found the game under the version that was read, and leaves it under the next
  -- one, with the state that the engine made, which it returns with its timeline. A commit that
  -- raises leaves every game as it was. No two games share an id or a session.
  pub commit-version :
      (session_id : String) (stored : StoredGame State) (command : GameCommand) (call : Call)
      (s : G.State)
      → IsApart (law.documents s)
      → ((shown : GameState × List AnimationInstruction)
          → (commit R G session_id stored command call s).0 ≡ ok shown
          → Committed stored command call s (commit R G session_id stored command call s).1 shown)
        × ((e : Error)
            → (commit R G session_id stored command call s).0 ≡ err e
            → law.documents (commit R G session_id stored command call s).1 ≡ law.documents s)
  unfolding Outcome
  commit-version session_id stored command call s apart =
      commit-Outcome session_id stored command call s apart

  commit-IsApart :
      (session_id : String) (stored : StoredGame State) (command : GameCommand) (call : Call)
      (s : G.State)
      → IsApart (law.documents s)
      → IsApart (law.documents (commit R G session_id stored command call s).1)
  unfolding after_write
  commit-IsApart session_id stored command call s apart =
      elim (Result-cases (engine_step R G stored command call)) [
        | inl (e, refused) ↦
            subst Kept (sym (commit-refused session_id stored command call s e refused)) apart
        | inr (handled, stepped) ↦
            let query : GameDocument State → Bool = at_version stored.game_id stored.version in
            let change : GameDocument State → GameDocument State =
              put_state handled.state handled.rng call.now in
            let kept : IsApart (law.documents (G.find_one_and_update query change s).1) =
              subst IsApart (sym (law.update_documents query change s)) (
                update_first-IsApart query handled.state handled.rng call.now (law.documents s)
                  apart) in
            elim (Option-cases (find_first query (law.documents s))) [
              | inl none_found ↦
                  subst Kept
                    (sym
                      (commit-conflict session_id stored command call s handled stepped none_found))
                    kept
              | inr (d, found) ↦
                  subst Kept
                    (sym (commit-written session_id stored command call s handled d stepped found))
                    kept
            ]
      ]
    where
      Kept : Result (GameState × List AnimationInstruction) × G.State → Type 0
      Kept r = IsApart (law.documents r.1)

  -- Of two commands that were read from one version of a game and are committed one after the other,
  -- the second does not return where the first did: no write is lost under another. No two games share
  -- an id or a session.
  pub commit-once :
      (session_id : String) (stored : StoredGame State) (first second : GameCommand)
      (first_call second_call : Call) (s : G.State) (shown : GameState × List AnimationInstruction)
      → IsApart (law.documents s)
      → (commit R G session_id stored first first_call s).0 ≡ ok shown
      → (again : GameState × List AnimationInstruction)
      → (commit R G session_id stored second second_call
          (commit R G session_id stored first first_call s).1).0
        ≢ ok again
  commit-once session_id stored first second first_call second_call s shown apart h again h' =
      let one = (commit-version session_id stored first first_call s apart).0 shown h in
      let two =
        (commit-version session_id stored second second_call _
            (commit-IsApart session_id stored first first_call s apart)).0
          again h' in
      let same : some (stored.version + 1, one.handled.state) ≡ some (stored.version, two.was.0) =
        sym one.is ∙ two.was.1 in
      let versions : stored.version + 1 ≡ stored.version =
        ap (λ (p : ℕ × GameState). p.0) (some-injective _ _ same) in
      next_version-ne stored.version versions
