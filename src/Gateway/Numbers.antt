-- ===== src/Gateway/Numbers.antt =====
-- src/gateway/backplane.py: the sequence numbers of the messages of a session.
use monopoly_be.Prelude.{
  eq_of_str_eq, ℕ, String, str_eq, suc, ◌+◌, ◌==◌, ◌≤◌, ◌<◌, ◌≡◌, refl, ap, ◌∙◌, sym, subst, inl,
  inr, Bool, true, false, List, [], ◌∷◌, ◌++◌, if◌then◌else◌, Bool-cases, arith, ◌&&◌,
}
use monopoly_be.Gateway.{Broker, IsBroker, publish_called, publish_done}

-- How often a number stands on the messages that were sent, and on those of a session still in flight.
unfoldable pub times : {Message : Type 0} → ℕ → List (ℕ × Message) → ℕ
times k [] = 0
times k ((seq, message) ∷ messages) = if seq == k then suc (times k messages) else times k messages

unfoldable pub waiting : {Message : Type 0} → String → ℕ → List (String × ℕ × Message) → ℕ
waiting j k [] = 0
waiting j k ((i, seq, message) ∷ flights) =
    if str_eq i j && (seq == k) then suc (waiting j k flights) else waiting j k flights

waiting-middle :
    {Message : Type 0} (j : String) (k : ℕ) (before : List (String × ℕ × Message)) (i : String)
    (seq : ℕ) (message : Message) (after : List (String × ℕ × Message))
    → waiting j k (before ++ ((i, seq, message) ∷ after)) ≡ (
        if str_eq i j && (seq == k)
        then suc (waiting j k (before ++ after))
        else waiting j k (before ++ after))
unfolding waiting
waiting-middle j k [] i seq message after = refl
waiting-middle j k ((i', seq', message') ∷ before) i seq message after =
    elim (Bool-cases (str_eq i' j && (seq' == k))) [
      | inl e ↦
          rw (e, waiting-middle j k before i seq message after)
            (through (str_eq i j && (seq == k)) _)
      | inr e ↦ rw (e, waiting-middle j k before i seq message after) refl
    ]
  where
    through : (b : Bool) (n : ℕ) → suc (if b then suc n else n) ≡ (if b then suc (suc n) else suc n)
    through true n = refl
    through false n = refl

shift : (t w : ℕ) → suc t + w ≡ t + suc w
shift t w = omega arith

shifted : (t w : ℕ) → t + suc w ≡ suc (t + w)
shifted t w = omega arith

at_most_one : (n : ℕ) → n ≡ 0 → suc n ≤ 1
at_most_one n h = omega arith

above : (c d k : ℕ) → c ≡ d → (c + 1 == k) ≡ true → d < k
above c d k h e = ground arith

beyond : (c d k : ℕ) → c ≡ d → c + 1 < k → ((c + 1 == k) ≡ false) × (d < k)
beyond c d k h e = ground arith

module _ {Message : Type 0} (B : Broker Message) (law : IsBroker B) where
  -- The calls of `publish` of any nodes and requests: each takes a number, and sends its message later,
  -- in whichever order.
  pub data Publishes
      : List (String × ℕ × Message) → B.State → List (String × ℕ × Message) → B.State → Type 0 where
    idle : {flights : List (String × ℕ × Message)} {s : B.State} → Publishes flights s flights s
    takes :
        {flights flights' : List (String × ℕ × Message)} {s s' : B.State} (i : String)
        (message : Message)
        → Publishes
            ((i, (publish_called B i s).0, message) ∷ flights)
            (publish_called B i s).1
            flights'
            s'
        → Publishes flights s flights' s'
    sends :
        {flights flights' : List (String × ℕ × Message)} {s s' : B.State}
        (before : List (String × ℕ × Message)) (i : String) (seq : ℕ) (message : Message)
        (after : List (String × ℕ × Message))
        → flights ≡ before ++ ((i, seq, message) ∷ after)
        → Publishes (before ++ after) (publish_done B i seq message s) flights' s'
        → Publishes flights s flights' s'

  abbrev pub uses : String → ℕ → List (String × ℕ × Message) → B.State → ℕ
  uses j k flights s = times k (law.published s j) + waiting j k flights

  -- No number of a session is used twice, and none above its counter is used.
  pub record IsNumbered (flights : List (String × ℕ × Message)) (s : B.State) : Type 0 where
    pub once : (j : String) (k : ℕ) → uses j k flights s ≤ 1
    pub counted : (j : String) (k : ℕ) → B.current j s < k → uses j k flights s ≡ 0

  sent-uses :
      (before : List (String × ℕ × Message)) (i : String) (seq : ℕ) (message : Message)
      (after : List (String × ℕ × Message)) (s : B.State) (j : String) (k : ℕ)
      → uses j k (before ++ after) (publish_done B i seq message s)
        ≡ uses j k (before ++ ((i, seq, message) ∷ after)) s
  unfolding publish_done times
  sent-uses before i seq message after s j k = elim (Bool-cases (str_eq i j)) [
    | inr b ↦
        rw
          (
            law.publish_published i j (seq, message) s,
            waiting-middle j k before i seq message after,
            b,
          )
          refl
    | inl b ↦ elim (Bool-cases (seq == k)) [
      | inl e ↦
          rw
            (
              law.publish_published i j (seq, message) s,
              waiting-middle j k before i seq message after,
              b,
              e,
            )
            (shift (times k (law.published s j)) (waiting j k (before ++ after)))
      | inr e ↦
          rw
            (
              law.publish_published i j (seq, message) s,
              waiting-middle j k before i seq message after,
              b,
              e,
            )
            refl
    ]
  ]

  taken-uses :
      (flights : List (String × ℕ × Message)) (i : String) (message : Message) (s : B.State)
      (j : String) (k : ℕ)
      → uses j k ((i, (publish_called B i s).0, message) ∷ flights) (publish_called B i s).1 ≡ (
          if str_eq i j && (B.current i s + 1 == k)
          then suc (uses j k flights s)
          else uses j k flights s)
  unfolding publish_called waiting
  taken-uses flights i message s j k = elim (Bool-cases (str_eq i j && (B.current i s + 1 == k))) [
    | inl e ↦
        rw (law.incr_reply i s, law.incr_published i j s, e)
          (shifted (times k (law.published s j)) (waiting j k flights))
    | inr e ↦ rw (law.incr_reply i s, law.incr_published i j s, e) refl
  ]

  takes-IsNumbered :
      (flights : List (String × ℕ × Message)) (i : String) (message : Message) (s : B.State)
      → IsNumbered flights s
      → IsNumbered ((i, (publish_called B i s).0, message) ∷ flights) (publish_called B i s).1
  unfolding publish_called
  takes-IsNumbered flights i message s h = record {
    once = λ j k.
        subst (λ n. n ≤ 1) (sym (taken-uses flights i message s j k))
          (elim (Bool-cases (str_eq i j)) [
            | inr b ↦ rw b (h.once j k)
            | inl b ↦ elim (Bool-cases (B.current i s + 1 == k)) [
              | inr e ↦ rw (b, e) (h.once j k)
              | inl e ↦
                  rw (b, e)
                    (at_most_one (uses j k flights s) (
                      h.counted j k (
                        above (B.current i s) (B.current j s) k
                          (ap (λ x. B.current x s) (eq_of_str_eq i j b)) e)))
            ]
          ]);
    counted = λ j k hi. taken-uses flights i message s j k ∙ (elim (Bool-cases (str_eq i j)) [
      | inr b ↦ rw b (h.counted j k (rw (law.incr_current i j s, b) at hi))
      | inl b ↦
          let past = rw (law.incr_current i j s, b) at hi in
          let (other, high) =
            beyond (B.current i s) (B.current j s) k (ap (λ x. B.current x s) (eq_of_str_eq i j b))
              past in
          rw (b, other) (h.counted j k high)
    ]);
  }

  sends-IsNumbered :
      (before : List (String × ℕ × Message)) (i : String) (seq : ℕ) (message : Message)
      (after : List (String × ℕ × Message)) (s : B.State)
      → IsNumbered (before ++ ((i, seq, message) ∷ after)) s
      → IsNumbered (before ++ after) (publish_done B i seq message s)
  unfolding publish_done
  sends-IsNumbered before i seq message after s h = record {
    once =
        λ j k. subst (λ n. n ≤ 1) (sym (sent-uses before i seq message after s j k)) (h.once j k);
    counted = λ j k hi.
        sent-uses before i seq message after s j k
        ∙ h.counted j k (rw (law.publish_current i j (seq, message) s) at hi);
  }

  -- Whichever nodes and requests publish, and however the steps of their calls interleave: if that is so at
  -- first, then no two messages of a session, sent or still to be sent, carry the same number, and none
  -- carries one above the counter that a new client is told. They may arrive in another order.
  pub Publishes-IsNumbered :
      {flights flights' : List (String × ℕ × Message)} {s s' : B.State}
      → Publishes flights s flights' s'
      → IsNumbered flights s
      → IsNumbered flights' s'
  Publishes-IsNumbered idle h = h
  Publishes-IsNumbered {flights = flights} {s = s} (takes i message rest) h =
      Publishes-IsNumbered rest (takes-IsNumbered flights i message s h)
  Publishes-IsNumbered {s = s} (sends before i seq message after e rest) h =
      Publishes-IsNumbered rest
        (sends-IsNumbered before i seq message after s (subst (λ x. IsNumbered x s) e h))
