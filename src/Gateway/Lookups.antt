-- ===== src/Gateway/Lookups.antt =====
-- src/gateway/manager.py and backplane.py: lookups after the changes of the two dictionaries.
use monopoly_be.Prelude.{
  ℕ, String, str_eq, eq_of_str_eq, str_eq_refl, ◌+◌, ◌≡◌, refl, ap, inl, inr, true, false, List, [],
  ◌∷◌, ◌==◌, if◌then◌else◌, Bool-cases, arith, length,
}
use monopoly_be.Gateway.{
  Connection, Buckets, is_in, discard_connection, bucket_of, put_bucket, del_bucket, keep_bucket,
  Subscriptions, subscribers, put_subscribers, pop_subscribers,
}

-- Two keys that equal a third are equal.
keys_apart : (s i j : String) → str_eq s i ≡ false → str_eq s j ≡ true → str_eq i j ≡ false
keys_apart s i j a c = elim (Bool-cases (str_eq i j)) [
  | inr b ↦ b
  | inl b ↦
      let same_j = eq_of_str_eq s j c in
      let same_i = eq_of_str_eq i j b in
      let bad : true ≡ false = rw (same_j, same_i, str_eq_refl j) at a in cc
]

keys_same : (s i j : String) → str_eq s i ≡ true → str_eq s j ≡ str_eq i j
keys_same s i j a = ap (λ k. str_eq k j) (eq_of_str_eq s i a)

pub bucket_of-put_bucket :
    (sessions : Buckets) (i j : String) (bucket : List Connection)
    → bucket_of (put_bucket sessions i bucket) j
      ≡ (if str_eq i j then bucket else bucket_of sessions j)
unfolding bucket_of put_bucket
bucket_of-put_bucket [] i j bucket = refl
bucket_of-put_bucket ((s, old) ∷ sessions) i j bucket = elim (Bool-cases (str_eq s i)) [
  | inl a ↦ elim (Bool-cases (str_eq i j)) [
    | inl b ↦ rw (a, keys_same s i j a, b)
    | inr b ↦ rw (a, keys_same s i j a, b)
  ]
  | inr a ↦ elim (Bool-cases (str_eq s j)) [
    | inl c ↦ rw (a, c, keys_apart s i j a c)
    | inr c ↦ rw (a, c) (bucket_of-put_bucket sessions i j bucket)
  ]
]

pub bucket_of-del_bucket :
    (sessions : Buckets) (i j : String)
    → bucket_of (del_bucket sessions i) j ≡ (if str_eq i j then [] else bucket_of sessions j)
unfolding bucket_of del_bucket
bucket_of-del_bucket [] i j = elim (Bool-cases (str_eq i j)) [ inl b ↦ rw b | inr b ↦ rw b ]
bucket_of-del_bucket ((s, old) ∷ sessions) i j = elim (Bool-cases (str_eq s i)) [
  | inl a ↦ elim (Bool-cases (str_eq i j)) [
    | inl b ↦ rw (a, b) (rw b at (bucket_of-del_bucket sessions i j))
    | inr b ↦ rw (a, keys_same s i j a, b) (rw b at (bucket_of-del_bucket sessions i j))
  ]
  | inr a ↦ elim (Bool-cases (str_eq s j)) [
    | inl c ↦ rw (a, c, keys_apart s i j a c)
    | inr c ↦ rw (a, c) (bucket_of-del_bucket sessions i j)
  ]
]

pub bucket_of-keep_bucket :
    (sessions : Buckets) (i j : String) (bucket : List Connection)
    → bucket_of (keep_bucket sessions i bucket) j
      ≡ (if str_eq i j then bucket else bucket_of sessions j)
unfolding keep_bucket
bucket_of-keep_bucket sessions i j [] = bucket_of-del_bucket sessions i j
bucket_of-keep_bucket sessions i j (c ∷ bucket) = bucket_of-put_bucket sessions i j (c ∷ bucket)

pub subscribers-put_subscribers :
    (subscriptions : Subscriptions) (i j : String) (n : ℕ)
    → subscribers (put_subscribers subscriptions i n) j
      ≡ (if str_eq i j then n else subscribers subscriptions j)
unfolding subscribers put_subscribers
subscribers-put_subscribers [] i j n = refl
subscribers-put_subscribers ((s, m) ∷ subscriptions) i j n = elim (Bool-cases (str_eq s i)) [
  | inl a ↦ elim (Bool-cases (str_eq i j)) [
    | inl b ↦ rw (a, keys_same s i j a, b)
    | inr b ↦ rw (a, keys_same s i j a, b)
  ]
  | inr a ↦ elim (Bool-cases (str_eq s j)) [
    | inl c ↦ rw (a, c, keys_apart s i j a c)
    | inr c ↦ rw (a, c) (subscribers-put_subscribers subscriptions i j n)
  ]
]

pub subscribers-pop_subscribers :
    (subscriptions : Subscriptions) (i j : String)
    → subscribers (pop_subscribers subscriptions i) j
      ≡ (if str_eq i j then 0 else subscribers subscriptions j)
unfolding subscribers pop_subscribers
subscribers-pop_subscribers [] i j = elim (Bool-cases (str_eq i j)) [ inl b ↦ rw b | inr b ↦ rw b ]
subscribers-pop_subscribers ((s, m) ∷ subscriptions) i j = elim (Bool-cases (str_eq s i)) [
  | inl a ↦ elim (Bool-cases (str_eq i j)) [
    | inl b ↦ rw (a, b) (rw b at (subscribers-pop_subscribers subscriptions i j))
    | inr b ↦ rw (a, keys_same s i j a, b) (rw b at (subscribers-pop_subscribers subscriptions i j))
  ]
  | inr a ↦ elim (Bool-cases (str_eq s j)) [
    | inl c ↦ rw (a, c, keys_apart s i j a c)
    | inr c ↦ rw (a, c) (subscribers-pop_subscribers subscriptions i j)
  ]
]

-- A bucket has each connection once.
abbrev pub IsBucket : List Connection → Type 0
IsBucket [] = Unit
IsBucket (c ∷ bucket) = (is_in bucket c.connection_id ≡ false) × IsBucket bucket

pub discard_connection-absent :
    (conn : Connection) (bucket : List Connection)
    → is_in bucket conn.connection_id ≡ false
    → discard_connection conn bucket ≡ bucket
unfolding is_in discard_connection
discard_connection-absent conn [] h = refl
discard_connection-absent conn (c ∷ bucket) h =
    elim (Bool-cases (c.connection_id == conn.connection_id)) [
      | inl e ↦ let bad : true ≡ false = rw e at h in cc
      | inr e ↦ rw e (ap (λ rest. c ∷ rest) (discard_connection-absent conn bucket (rw e at h)))
    ]

pub length-discard_connection :
    (conn : Connection) (bucket : List Connection)
    → IsBucket bucket
    → is_in bucket conn.connection_id ≡ true
    → length (discard_connection conn bucket) + 1 ≡ length bucket
unfolding is_in discard_connection
length-discard_connection conn [] set h = cc
length-discard_connection conn (c ∷ bucket) set h =
    elim (Bool-cases (c.connection_id == conn.connection_id)) [
      | inl e ↦
          let same : c.connection_id ≡ conn.connection_id = ground (arith, e) in
          let gone = discard_connection-absent conn bucket (rw same at set.0) in
          rw e (omega (arith, ap (λ (b : List Connection). length b) gone))
      | inr e ↦ rw e (omega (arith, length-discard_connection conn bucket set.1 (rw e at h)))
    ]

is_in-discard :
    (conn : Connection) (bucket : List Connection) (id : ℕ)
    → is_in bucket id ≡ false
    → is_in (discard_connection conn bucket) id ≡ false
unfolding is_in discard_connection
is_in-discard conn [] id h = refl
is_in-discard conn (c ∷ bucket) id h = elim (Bool-cases (c.connection_id == id)) [
  | inl f ↦ let bad : true ≡ false = rw f at h in cc
  | inr f ↦ elim (Bool-cases (c.connection_id == conn.connection_id)) [
    | inl e ↦ rw e (is_in-discard conn bucket id (rw f at h))
    | inr e ↦ rw (e, f) (is_in-discard conn bucket id (rw f at h))
  ]
]

pub discard_connection-IsBucket :
    (conn : Connection) (bucket : List Connection)
    → IsBucket bucket
    → IsBucket (discard_connection conn bucket)
unfolding discard_connection
discard_connection-IsBucket conn [] set = tt
discard_connection-IsBucket conn (c ∷ bucket) set =
    elim (Bool-cases (c.connection_id == conn.connection_id)) [
      | inl e ↦ rw e (discard_connection-IsBucket conn bucket set.1)
      | inr e ↦ rw e (
        is_in-discard conn bucket c.connection_id set.0,
        discard_connection-IsBucket conn bucket set.1,
      )
    ]
