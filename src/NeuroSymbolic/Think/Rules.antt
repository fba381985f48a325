-- ===== src/NeuroSymbolic/Think/Rules.antt =====
-- Two rules for reasoning about a stream step by step: what it keeps true and what its value then
-- satisfies, and by how much it raises a measure of the state.
use noema.Prelude.{
  ℕ, ◌+◌, ◌≤◌, ◌≡◌, refl, Bool, true, false, Result, ok, raise, arith, if◌then◌else◌,
}
use noema.NeuroSymbolic.Think.State.{Stream, after, ◌>>=◌, handle, try_except}

module _ {S E : Type 0} where
  -- From a state with `P`, the stream ends in one with `P`, and a value that it returns has `Q`.
  abbrev pub Triple : {A : Type 0} → (S → Type 0) → Stream S E A → (A → Type 0) → Type 0
  Triple {A} P m Q = (s : S) → P s → P (m s).0 × ((a : A) → (m s).1 ≡ ok a → Q a)

  abbrev pub Keeps : {A : Type 0} → (S → Type 0) → Stream S E A → Type 0
  Keeps P m = (s : S) → P s → P (m s).0

  after_triple :
      {A B : Type 0} (P : S → Type 0) (Q : A → Type 0) (R : B → Type 0) (f : A → Stream S E B)
      (r : S × Result E A)
      → P r.0 × ((a : A) → r.1 ≡ ok a → Q a)
      → ((a : A) → Q a → Triple P (f a) R)
      → P (after f r).0 × ((b : B) → (after f r).1 ≡ ok b → R b)
  unfolding after
  after_triple P Q R f (s, ok a) h k = k a (h.1 a refl) s h.0
  after_triple P Q R f (s, raise e) h k = (h.0, λ b q. cc)

  pub triple_bind :
      {A B : Type 0} (P : S → Type 0) (Q : A → Type 0) (R : B → Type 0) (m : Stream S E A)
      (f : A → Stream S E B)
      → Triple P m Q
      → ((a : A) → Q a → Triple P (f a) R)
      → Triple P (m >>= f) R
  triple_bind P Q R m f h k s p = after_triple P Q R f (m s) (h s p) k

  pub triple_then :
      {A B : Type 0} (P : S → Type 0) (R : B → Type 0) (m : Stream S E A) (f : A → Stream S E B)
      → Keeps P m
      → ((a : A) → Triple P (f a) R)
      → Triple P (m >>= f) R
  triple_then P R m f h k =
      triple_bind P (λ _. Unit {0}) R m f (λ s p. (h s p, λ a e. tt)) (λ a _. k a)

  pub Keeps-bind :
      {A B : Type 0} (P : S → Type 0) (Q : A → Type 0) (m : Stream S E A) (f : A → Stream S E B)
      → Triple P m Q
      → ((a : A) → Q a → Keeps P (f a))
      → Keeps P (m >>= f)
  Keeps-bind P Q m f h k s p =
      (triple_bind P Q (λ _. Unit {0}) m f h (λ a q s' p'. (k a q s' p', λ b e. tt)) s p).0

  pub Keeps-then :
      {A B : Type 0} (P : S → Type 0) (m : Stream S E A) (f : A → Stream S E B)
      → Keeps P m
      → ((a : A) → Keeps P (f a))
      → Keeps P (m >>= f)
  Keeps-then P m f h k = Keeps-bind P (λ _. Unit {0}) m f (λ s p. (h s p, λ a e. tt)) (λ a _. k a)

  pub Keeps-if :
      {A : Type 0} (P : S → Type 0) (b : Bool) (m n : Stream S E A)
      → (b ≡ true → Keeps P m)
      → Keeps P n
      → Keeps P (if b then m else n)
  Keeps-if P true m n h k = h refl
  Keeps-if P false m n h k = k

  handle_keeps :
      {A : Type 0} (P : S → Type 0) (handler : E → Stream S E (Unit {0})) (r : S × Result E A)
      → P r.0
      → ((e : E) → Keeps P (handler e))
      → P (handle handler r).0
  unfolding handle
  handle_keeps P handler (s, ok a) p k = p
  handle_keeps P handler (s, raise e) p k =
      Keeps-then P (handler e) (λ _ s'. (s', raise e)) (k e) (λ a s' p'. p') s p

  pub Keeps-try :
      {A : Type 0} (P : S → Type 0) (m : Stream S E A) (handler : E → Stream S E (Unit {0}))
      → Keeps P m
      → ((e : E) → Keeps P (handler e))
      → Keeps P (try_except m handler)
  unfolding try_except
  Keeps-try P m handler h k s p = handle_keeps P handler (m s) (h s p) k

  -- The stream raises the measure by at most `k`.
  abbrev pub Grows : {A : Type 0} → (S → ℕ) → ℕ → Stream S E A → Type 0
  Grows μ k m = (s : S) → μ (m s).0 ≤ μ s + k

  Grows-after :
      {A B : Type 0} (μ : S → ℕ) (k : ℕ) (f : A → Stream S E B) (r : S × Result E A)
      → ((a : A) → Grows μ k (f a))
      → μ (after f r).0 ≤ μ r.0 + k
  unfolding after
  Grows-after μ k f (s, ok a) h = h a s
  Grows-after μ k f (s, raise e) h = omega arith

  pub Grows-bind :
      {A B : Type 0} (μ : S → ℕ) (j k n : ℕ) (m : Stream S E A) (f : A → Stream S E B)
      → j + k ≤ n
      → Grows μ j m
      → ((a : A) → Grows μ k (f a))
      → Grows μ n (m >>= f)
  Grows-bind μ j k n m f le h g s = omega (arith, Grows-after μ k f (m s) g, h s)

  -- A step that leaves the measure alone.
  pub Grows-then :
      {A B : Type 0} (μ : S → ℕ) (k : ℕ) (m : Stream S E A) (f : A → Stream S E B)
      → Grows μ 0 m
      → ((a : A) → Grows μ k (f a))
      → Grows μ k (m >>= f)
  Grows-then μ k m f h g = Grows-bind μ 0 k k m f (omega arith) h g

  pub Grows-if :
      {A : Type 0} (μ : S → ℕ) (k : ℕ) (b : Bool) (m n : Stream S E A)
      → Grows μ k m
      → Grows μ k n
      → Grows μ k (if b then m else n)
  Grows-if μ k true m n h g = h
  Grows-if μ k false m n h g = g

  Grows-handle :
      {A : Type 0} (μ : S → ℕ) (k : ℕ) (handler : E → Stream S E (Unit {0})) (r : S × Result E A)
      → ((e : E) → Grows μ k (handler e))
      → μ (handle handler r).0 ≤ μ r.0 + k
  unfolding handle
  Grows-handle μ k handler (s, ok a) h = omega arith
  Grows-handle μ k handler (s, raise e) h = omega (
    arith,
    Grows-bind μ k 0 k (handler e) (λ _ s'. (s', raise e)) (omega arith) (h e) (λ a s'. omega arith)
        s,
  )

  pub Grows-try :
      {A : Type 0} (μ : S → ℕ) (j k n : ℕ) (m : Stream S E A) (handler : E → Stream S E (Unit {0}))
      → j + k ≤ n
      → Grows μ j m
      → ((e : E) → Grows μ k (handler e))
      → Grows μ n (try_except m handler)
  unfolding try_except
  Grows-try μ j k n m handler le h g s = omega (arith, Grows-handle μ k handler (m s) g, h s)
