-- ===== src/RateLimit/Window.antt =====
-- How many requests of one key the sliding window of noema/api/rate_limit.py lets through.
use Prim.Native.String.{String}
use text.Mathlib.Text.{◌==◌ as str_eq}
use text.Mathlib.TextEquality.{eq_iff}
use text.Mathlib.TextPositions.{eq_refl}
use noema.Prelude.{
  ℕ, ◌+◌, ◌≤◌, ◌<◌, ◌≡◌, ◌⊎◌, refl, sym, ap, ◌∙◌, arith, Bool, true, false, ◌&&◌, Bool-cases, inl,
  inr, List, [], ◌∷◌, ◌++◌, if◌then◌else◌, length, length-append, append_assoc, append-nil, leb,
  ltb, subst, Result, ok, raise,
}
use noema.RateLimit.{Counter, Headers, Error, hits_of, recent, prune, refuse, allow}
use noema.RateLimit.Store.{
  hits_of-put, hits_of-put-other, hits_of-prune, hits_of-prune-other, window-prune,
  max_requests-prune,
}

abbrev pub was_allowed : Result Error (Bool × Headers) → Bool
was_allowed (ok r) = r.0
was_allowed (raise e) = false

abbrev pub fresh : ℕ → ℕ → Counter
fresh window max_requests = record { window = window; max_requests = max_requests; hits = [] }

-- The times at which requests of this key are let through, out of a sequence of requests.
unfoldable pub granted : String → List (ℕ × String) → Counter → List ℕ
granted key [] c = []
granted key ((now, k) ∷ rs) c =
    let rest = granted key rs (allow now k c).0 in
    if str_eq key k && was_allowed (allow now k c).1 then now ∷ rest else rest

-- The requests come in the order of time, from the time given on.
unfoldable pub AreOrdered : ℕ → List (ℕ × String) → Type 0
AreOrdered from [] = Unit
AreOrdered from ((now, k) ∷ rs) = (from ≤ now) × AreOrdered now rs

unfoldable pub last_time : ℕ → List (ℕ × String) → ℕ
last_time from [] = from
last_time from ((now, k) ∷ rs) = last_time now rs

recent-append : (w n : ℕ) (ts us : List ℕ) → recent w n (ts ++ us) ≡ recent w n ts ++ recent w n us
unfolding recent
recent-append w n [] us = refl
recent-append w n (t ∷ ts) us = elim (Bool-cases (ltb n (t + w))) [
  | inl y ↦ rw (y) (ap (◌∷◌ t) (recent-append w n ts us))
  | inr z ↦ rw (z) (recent-append w n ts us)
]

-- What has left the window by now has left it later.
recent-recent : (w now n : ℕ) (ts : List ℕ) → now ≤ n → recent w n (recent w now ts) ≡ recent w n ts
unfolding recent
recent-recent w now n [] h = refl
recent-recent w now n (t ∷ ts) h = elim (Bool-cases (ltb now (t + w))) [
  | inl y ↦ elim (Bool-cases (ltb n (t + w))) [
    | inl y' ↦ rw (y, recent, y') (ap (◌∷◌ t) (recent-recent w now n ts h))
    | inr z' ↦ rw (y, recent, z') (recent-recent w now n ts h)
  ]
  | inr z ↦
      let gone : ltb n (t + w) ≡ false = ground (arith, h, z) in
      rw (z, gone) (recent-recent w now n ts h)
]

length-recent : (w n : ℕ) (ts : List ℕ) → length (recent w n ts) ≤ length ts
unfolding recent
length-recent w n [] = omega arith
length-recent w n (t ∷ ts) = ground (arith, length-recent w n ts)

was_allowed-refuse : (now : ℕ) (ts : List ℕ) (c : Counter) → was_allowed (refuse now ts c) ≡ false
unfolding refuse
was_allowed-refuse now [] c = refl
was_allowed-refuse now (t ∷ ts) c = refl

-- What `allow` answers a request of a key, and the hits that it leaves it.
allow-same :
    (now : ℕ) (key : String) (c : Counter)
    → let r = allow now key c in
      let ts = recent c.window now (hits_of key c.hits) in
      ((was_allowed r.1 ≡ true)
        × (hits_of key r.0.hits ≡ ts ++ now ∷ [])
        × (length ts < c.max_requests))
      ⊎ ((was_allowed r.1 ≡ false) × (hits_of key r.0.hits ≡ ts))
unfolding allow
allow-same now key c =
    let c' = prune key now c in
    let pruned = hits_of-prune key now c in
    elim (Bool-cases (leb c'.max_requests (length (hits_of key c'.hits)))) [
      | inl full ↦ inr (rw (allow, full) (was_allowed-refuse now _ c'), rw (allow, full) pruned)
      | inr room ↦ inl (
        rw (allow, room) refl,
        rw (allow, room) (hits_of-put key _ c'.hits ∙ ap (λ ts. ts ++ now ∷ []) pruned),
        ground (arith, room, ap length pruned, max_requests-prune key now c),
      )
    ]

allow-other :
    (now : ℕ) (key k : String) (c : Counter)
    → str_eq key k ≡ false
    → hits_of key (allow now k c).0.hits ≡ hits_of key c.hits
unfolding allow
allow-other now key k c h =
    let c' = prune k now c in
    elim (Bool-cases (leb c'.max_requests (length (hits_of k c'.hits)))) [
      | inl full ↦ rw (allow, full) (hits_of-prune-other key k now c h)
      | inr room ↦
          rw (allow, room) (hits_of-put-other key k _ c'.hits h ∙ hits_of-prune-other key k now c h)
    ]

allow-configuration :
    (now : ℕ) (key : String) (c : Counter)
    → ((allow now key c).0.window ≡ c.window) × ((allow now key c).0.max_requests ≡ c.max_requests)
unfolding allow
allow-configuration now key c =
    let c' = prune key now c in
    elim (Bool-cases (leb c'.max_requests (length (hits_of key c'.hits)))) [
      | inl full ↦ rw (allow, full) (window-prune key now c, max_requests-prune key now c)
      | inr room ↦ rw (allow, room) (window-prune key now c, max_requests-prune key now c)
    ]

-- The counter's hits of the key are those of the log that the window still holds, at any time from
-- the last request on, and no more than are allowed.
record Tracks (key : String) (w max from : ℕ) (log : List ℕ) (c : Counter) : Type 0 where
  window_kept : c.window ≡ w
  max_kept : c.max_requests ≡ max
  bounded : length (hits_of key c.hits) ≤ max
  same : (n : ℕ) → from ≤ n → recent w n log ≡ recent w n (hits_of key c.hits)

module _ (key : String) (w max : ℕ) where
  Tracks-pruned :
      (from now n : ℕ) (log : List ℕ) (c : Counter)
      → Tracks key w max from log c
      → from ≤ now
      → now ≤ n
      → recent w n log ≡ recent w n (recent c.window now (hits_of key c.hits))
  Tracks-pruned from now n log c t h later =
      t.same n (omega (arith, h, later))
      ∙ sym (recent-recent w now n (hits_of key c.hits) later)
      ∙ ap (λ v. recent w n (recent v now (hits_of key c.hits))) (sym t.window_kept)

  Tracks-other :
      (from now : ℕ) (k : String) (log : List ℕ) (c : Counter)
      → Tracks key w max from log c
      → from ≤ now
      → str_eq key k ≡ false
      → Tracks key w max now log (allow now k c).0
  Tracks-other from now k log c t h other = record {
    window_kept = (allow-configuration now k c).0 ∙ t.window_kept;
    max_kept = (allow-configuration now k c).1 ∙ t.max_kept;
    bounded = omega (arith, t.bounded, ap length (allow-other now key k c other));
    same = λ n later.
        t.same n (omega (arith, h, later)) ∙ ap (recent w n) (sym (allow-other now key k c other));
  }

  Tracks-refused :
      (from now : ℕ) (log : List ℕ) (c : Counter)
      → Tracks key w max from log c
      → from ≤ now
      → hits_of key (allow now key c).0.hits ≡ recent c.window now (hits_of key c.hits)
      → Tracks key w max now log (allow now key c).0
  Tracks-refused from now log c t h left = record {
    window_kept = (allow-configuration now key c).0 ∙ t.window_kept;
    max_kept = (allow-configuration now key c).1 ∙ t.max_kept;
    bounded =
        omega (arith, t.bounded, ap length left, length-recent c.window now (hits_of key c.hits));
    same = λ n later. Tracks-pruned from now n log c t h later ∙ ap (recent w n) (sym left);
  }

  Tracks-granted :
      (from now : ℕ) (log : List ℕ) (c : Counter)
      → Tracks key w max from log c
      → from ≤ now
      → hits_of key (allow now key c).0.hits ≡ recent c.window now (hits_of key c.hits) ++ now ∷ []
      → length (recent c.window now (hits_of key c.hits)) < c.max_requests
      → Tracks key w max now (log ++ now ∷ []) (allow now key c).0
  Tracks-granted from now log c t h left room =
      let ts = recent c.window now (hits_of key c.hits) in
      record {
        window_kept = (allow-configuration now key c).0 ∙ t.window_kept;
        max_kept = (allow-configuration now key c).1 ∙ t.max_kept;
        bounded = omega (arith, t.max_kept, room, ap length left, length-append ts (now ∷ []));
        same = λ n later.
            recent-append w n log (now ∷ [])
            ∙ ap (λ us. us ++ recent w n (now ∷ [])) (Tracks-pruned from now n log c t h later)
            ∙ sym (recent-append w n ts (now ∷ []))
            ∙ ap (recent w n) (sym left);
      }

  tracked :
      (from : ℕ) (rs : List (ℕ × String)) (log : List ℕ) (c : Counter) (n : ℕ)
      → Tracks key w max from log c
      → AreOrdered from rs
      → last_time from rs ≤ n
      → length (recent w n (log ++ granted key rs c)) ≤ max
  unfolding granted AreOrdered last_time
  tracked from [] log c n t ordered over = omega (
    arith,
    t.bounded,
    ap (λ us. length (recent w n us)) (append-nil log),
    ap length (t.same n over),
    length-recent w n (hits_of key c.hits),
  )
  tracked from ((now, k) ∷ rs) log c n t ordered over = elim (Bool-cases (str_eq key k)) [
    | inr other ↦
        rw (granted, other)
          (tracked now rs log (allow now k c).0 n (Tracks-other from now k log c t ordered.0 other)
            ordered.1 over)
    | inl mine ↦
        subst (λ k'. length (recent w n (log ++ granted key ((now, k') ∷ rs) c)) ≤ max)
          ((eq_iff key k).0 mine)
          (elim (allow-same now key c) [
            | inl (served, left, room) ↦
                rw (granted, eq_refl key, served)
                  (subst (λ us. length (recent w n us) ≤ max)
                    (append_assoc log (now ∷ []) (granted key rs (allow now key c).0))
                    (tracked now rs (log ++ now ∷ []) (allow now key c).0 n
                      (Tracks-granted from now log c t ordered.0 left room) ordered.1 over))
            | inr (refused, left) ↦
                rw (granted, eq_refl key, refused)
                  (tracked now rs log (allow now key c).0 n
                    (Tracks-refused from now log c t ordered.0 left) ordered.1 over)
          ])
  ]

-- Out of requests of any keys that come in the order of time at a fresh counter, those of one key
-- that are let through within the window's length before any time from the last request on are
-- at most `max_requests`.
pub granted-le-max_requests :
    (window max_requests : ℕ) (key : String) (rs : List (ℕ × String)) (now : ℕ)
    → AreOrdered 0 rs
    → last_time 0 rs ≤ now
    → length (recent window now (granted key rs (fresh window max_requests))) ≤ max_requests
unfolding hits_of
granted-le-max_requests window max_requests key rs now ordered over =
    tracked key window max_requests 0 rs [] (fresh window max_requests) now
      (record {
        window_kept = refl;
        max_kept = refl;
        bounded = omega arith;
        same = λ n later. refl;
      })
      ordered over
