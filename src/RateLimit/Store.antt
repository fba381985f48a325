-- ===== src/RateLimit/Store.antt =====
-- What the operations on the dictionary of hits leave for each key.
use Prim.Native.String.{String}
use text.Mathlib.Text.{◌==◌ as str_eq}
use text.Mathlib.TextEquality.{eq_iff}
use text.Mathlib.TextPositions.{eq_refl}
use noema.Prelude.{
  ℕ, ◌≡◌, refl, sym, ap, ◌∙◌, false, Bool-cases, List-cases, inl, inr, List, [], ◌∷◌,
}
use noema.RateLimit.{Hits, Counter, hits_of, put, delete, put_or_delete, recent, prune}

pub hits_of-put : (key : String) (ts : List ℕ) (hits : Hits) → hits_of key (put key ts hits) ≡ ts
unfolding hits_of put
hits_of-put key ts [] = rw (eq_refl key) refl
hits_of-put key ts ((k, us) ∷ hits) = elim (Bool-cases (str_eq key k)) [
  | inl y ↦ rw (y, hits_of, eq_refl key) refl
  | inr n ↦ rw (n, hits_of, n) (hits_of-put key ts hits)
]

pub hits_of-put-other :
    (key k : String) (ts : List ℕ) (hits : Hits)
    → str_eq key k ≡ false
    → hits_of key (put k ts hits) ≡ hits_of key hits
unfolding hits_of put
hits_of-put-other key k ts [] h = rw (h) refl
hits_of-put-other key k ts ((k', us) ∷ hits) h = elim (Bool-cases (str_eq k k')) [
  | inl y ↦
      let same : str_eq key k' ≡ false = ap (str_eq key) (sym ((eq_iff k k').0 y)) ∙ h in
      rw (y, hits_of, h, same) refl
  | inr n ↦ elim (Bool-cases (str_eq key k')) [
    | inl y ↦ rw (n, hits_of, y) refl
    | inr z ↦ rw (n, hits_of, z) (hits_of-put-other key k ts hits h)
  ]
]

hits_of-delete : (key : String) (hits : Hits) → hits_of key (delete key hits) ≡ []
unfolding hits_of delete
hits_of-delete key [] = refl
hits_of-delete key ((k, us) ∷ hits) = elim (Bool-cases (str_eq key k)) [
  | inl y ↦ rw (y) (hits_of-delete key hits)
  | inr n ↦ rw (n, hits_of, n) (hits_of-delete key hits)
]

hits_of-delete-other :
    (key k : String) (hits : Hits)
    → str_eq key k ≡ false
    → hits_of key (delete k hits) ≡ hits_of key hits
unfolding hits_of delete
hits_of-delete-other key k [] h = refl
hits_of-delete-other key k ((k', us) ∷ hits) h = elim (Bool-cases (str_eq k k')) [
  | inl y ↦
      let same : str_eq key k' ≡ false = ap (str_eq key) (sym ((eq_iff k k').0 y)) ∙ h in
      rw (y, same) (hits_of-delete-other key k hits h)
  | inr n ↦ elim (Bool-cases (str_eq key k')) [
    | inl y ↦ rw (n, hits_of, y) refl
    | inr z ↦ rw (n, hits_of, z) (hits_of-delete-other key k hits h)
  ]
]

hits_of-put_or_delete :
    (key : String) (ts : List ℕ) (hits : Hits) → hits_of key (put_or_delete key ts hits) ≡ ts
unfolding put_or_delete
hits_of-put_or_delete key [] hits = hits_of-delete key hits
hits_of-put_or_delete key (t ∷ ts) hits = hits_of-put key (t ∷ ts) hits

hits_of-put_or_delete-other :
    (key k : String) (ts : List ℕ) (hits : Hits)
    → str_eq key k ≡ false
    → hits_of key (put_or_delete k ts hits) ≡ hits_of key hits
unfolding put_or_delete
hits_of-put_or_delete-other key k [] hits h = hits_of-delete-other key k hits h
hits_of-put_or_delete-other key k (t ∷ ts) hits h = hits_of-put-other key k (t ∷ ts) hits h

pub hits_of-prune :
    (key : String) (now : ℕ) (c : Counter)
    → hits_of key (prune key now c).hits ≡ recent c.window now (hits_of key c.hits)
unfolding prune
hits_of-prune key now c = elim (List-cases (hits_of key c.hits)) [
  | inl e ↦ rw (prune, e) (unfold recent in e)
  | inr (u, us, e) ↦ rw (prune, e) (hits_of-put_or_delete key (recent c.window now (u ∷ us)) c.hits)
]

pub hits_of-prune-other :
    (key k : String) (now : ℕ) (c : Counter)
    → str_eq key k ≡ false
    → hits_of key (prune k now c).hits ≡ hits_of key c.hits
unfolding prune
hits_of-prune-other key k now c h = elim (List-cases (hits_of k c.hits)) [
  | inl e ↦ rw (prune, e) refl
  | inr (u, us, e) ↦
      rw (prune, e) (hits_of-put_or_delete-other key k (recent c.window now (u ∷ us)) c.hits h)
]

pub window-prune : (key : String) (now : ℕ) (c : Counter) → (prune key now c).window ≡ c.window
unfolding prune
window-prune key now c = elim (List-cases (hits_of key c.hits)) [
  | inl e ↦ rw (prune, e) refl
  | inr (u, us, e) ↦ rw (prune, e) refl
]

pub max_requests-prune :
    (key : String) (now : ℕ) (c : Counter) → (prune key now c).max_requests ≡ c.max_requests
unfolding prune
max_requests-prune key now c = elim (List-cases (hits_of key c.hits)) [
  | inl e ↦ rw (prune, e) refl
  | inr (u, us, e) ↦ rw (prune, e) refl
]
