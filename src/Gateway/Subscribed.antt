-- ===== src/Gateway/Subscribed.antt =====
-- src/gateway/manager.py and backplane.py: what each of the four calls does to a session.
use monopoly_be.Prelude.{
  ℕ, String, str_eq, eq_of_str_eq, ◌+◌, ◌-◌, ◌≡◌, ap, ◌∙◌, sym, inl, inr, true, false, ◌∷◌, ◌==◌,
  ltb, leb, if◌then◌else◌, Bool-cases, arith,
}
use monopoly_be.Gateway.{
  Connection, Buckets, is_in, add, discard_connection, bucket_of, register, unregister, Broker,
  IsBroker, subscribers, Node, subscribe_called, subscribe_done, unsubscribe_called,
  unsubscribe_done,
}
use monopoly_be.Gateway.Lookups.{
  bucket_of-put_bucket, bucket_of-keep_bucket, subscribers-put_subscribers,
  subscribers-pop_subscribers,
}

module _ {Message : Type 0} (B : Broker Message) (law : IsBroker B) where
  pub bucket_of-register :
      (conn : Connection) (sessions : Buckets) (j : String)
      → is_in (bucket_of sessions conn.session_id) conn.connection_id ≡ false
      → bucket_of (register conn sessions) j ≡ (
          if str_eq conn.session_id j
          then conn ∷ bucket_of sessions conn.session_id
          else bucket_of sessions j)
  unfolding register add
  bucket_of-register conn sessions j fresh = rw (
    bucket_of-put_bucket sessions conn.session_id j (add conn (bucket_of sessions conn.session_id)),
    fresh,
  )

  positive : (n : ℕ) → (n == 0) ≡ false → ltb 0 n ≡ true
  positive n h = ground arith

  pub listening-subscribe_called :
      (node : Node B) (i j : String)
      → law.listening node.1 i ≡ ltb 0 (subscribers node.0 i)
      → law.listening (subscribe_called B i node).1.1 j
        ≡ (if str_eq i j then true else law.listening node.1 j)
  unfolding subscribe_called
  listening-subscribe_called node i j heard = elim (Bool-cases (subscribers node.0 i == 0)) [
    | inl z ↦ rw z (law.subscribe_listening i j node.1)
    | inr z ↦ elim (Bool-cases (str_eq i j)) [
      | inr b ↦ rw (z, b)
      | inl b ↦
          rw (z, b)
            (ap (law.listening node.1) (sym (eq_of_str_eq i j b))
              ∙ heard
              ∙ positive (subscribers node.0 i) z)
    ]
  ]

  few : (n : ℕ) → leb n 1 ≡ true → 0 ≡ n - 1
  few n h = ground arith

  many : (n : ℕ) → leb n 1 ≡ false → (ltb 0 n ≡ true) × (ltb 0 (n - 1) ≡ true)
  many n h = ground arith

  pub listening-unsubscribe_called :
      (node : Node B) (i j : String)
      → law.listening node.1 i ≡ ltb 0 (subscribers node.0 i)
      → law.listening (unsubscribe_called B i node).1.1 j
        ≡ (if str_eq i j then ltb 0 (subscribers node.0 i - 1) else law.listening node.1 j)
  unfolding unsubscribe_called
  listening-unsubscribe_called node i j heard = elim (Bool-cases (leb (subscribers node.0 i) 1)) [
    | inl z ↦ rw z (
        law.unsubscribe_listening i j node.1
        ∙ ap (λ n. if str_eq i j then ltb 0 n else law.listening node.1 j)
            (few (subscribers node.0 i) z))
    | inr z ↦ elim (Bool-cases (str_eq i j)) [
      | inr b ↦ rw (z, b)
      | inl b ↦
          let (before, after) = many (subscribers node.0 i) z in
          rw (z, b)
            (ap (law.listening node.1) (sym (eq_of_str_eq i j b)) ∙ heard ∙ before ∙ sym after)
    ]
  ]

  pub subscribers-unsubscribe_done :
      (node : Node B) (i j : String) (n : ℕ)
      → subscribers (unsubscribe_done B i n node).0 j
        ≡ (if str_eq i j then n - 1 else subscribers node.0 j)
  unfolding unsubscribe_done
  subscribers-unsubscribe_done node i j n = elim (Bool-cases (leb n 1)) [
    | inl z ↦ rw z (
        subscribers-pop_subscribers node.0 i j
        ∙ ap (λ m. if str_eq i j then m else subscribers node.0 j) (few n z))
    | inr z ↦ rw z (subscribers-put_subscribers node.0 i j (n - 1))
  ]

  pub subscribers-subscribe_done :
      (node : Node B) (i j : String) (n : ℕ)
      → subscribers (subscribe_done B i n node).0 j
        ≡ (if str_eq i j then n + 1 else subscribers node.0 j)
  unfolding subscribe_done
  subscribers-subscribe_done node i j n = subscribers-put_subscribers node.0 i j (n + 1)

  pub bucket_of-unregister :
      (conn : Connection) (sessions : Buckets) (j : String)
      → bucket_of (unregister conn sessions) j ≡ (
          if str_eq conn.session_id j
          then discard_connection conn (bucket_of sessions conn.session_id)
          else bucket_of sessions j)
  unfolding unregister
  bucket_of-unregister conn sessions j =
      bucket_of-keep_bucket sessions conn.session_id j
        (discard_connection conn (bucket_of sessions conn.session_id))
