-- ===== src/Audit/Chain/Log/Valid.antt =====
-- What `verify_chain` decides, and the operations that keep it true.
use noema.Prelude.{
  ℕ, suc, ◌+◌, ◌≡◌, ◌↔◌, refl, sym, ap, ◌∙◌, Bool, true, false, List, [], ◌∷◌, ◌++◌, if◌then◌else◌,
  length, Result, ok, raise, ◌>>=◌, arith,
}
use noema.Audit.Bytes.{Bytes, compare_digest, compare_digest_self, compare_digest-eq}
use noema.Audit.Chain.{Error, AuditBlock, Chain, last, block_verify}
use noema.Audit.Chain.Log.{Codec, verify_after, verify_blocks, verify_chain}

module _ (hash : Bytes → Bytes) where
  abbrev pub IsSound : AuditBlock → Type 0
  IsSound b = block_verify hash b ≡ ok true

  -- Each block stores its own hash and, but for the first, the hash of the block before it.
  abbrev pub IsLinkedAfter : AuditBlock → List AuditBlock → Type 0
  IsLinkedAfter prev [] = Unit
  IsLinkedAfter prev (b ∷ bs) = IsSound b × (b.prev_hash ≡ prev.block_hash) × IsLinkedAfter b bs

  abbrev pub IsLinked : List AuditBlock → Type 0
  IsLinked [] = Unit
  IsLinked (b ∷ bs) = IsSound b × IsLinkedAfter b bs

passed :
    (r : Result Error Bool) (same : Bool) (rest : Result Error Bool)
    → (r >>= λ good. if good then (if same then rest else ok false) else ok false) ≡ ok true
    → (r ≡ ok true) × (same ≡ true) × (rest ≡ ok true)
passed (ok true) true rest h = (refl, refl, h)
passed (ok true) false rest h = cc
passed (ok false) same rest h = cc
passed (raise e) same rest h = cc

passed_first :
    (r : Result Error Bool) (rest : Result Error Bool)
    → (r >>= λ good. if good then rest else ok false) ≡ ok true
    → (r ≡ ok true) × (rest ≡ ok true)
passed_first (ok true) rest h = (refl, h)
passed_first (ok false) rest h = cc
passed_first (raise e) rest h = cc

-- Block `i` of a chain, counted from `n`, has the index `n + i`.
abbrev pub IsNumberedFrom : ℕ → List AuditBlock → Type 0
IsNumberedFrom n [] = Unit
IsNumberedFrom n (b ∷ bs) = (b.index ≡ n) × IsNumberedFrom (suc n) bs

pub last-append : {A : Type 0} (xs : List A) (x : A) → last (xs ++ x ∷ []) ≡ ok x
unfolding last
last-append [] x = refl
last-append (y ∷ []) x = refl
last-append (y ∷ z ∷ xs) x = last-append (z ∷ xs) x

pub numbered-append :
    (n : ℕ) (x : AuditBlock) (bs : List AuditBlock) (tip b : AuditBlock)
    → IsNumberedFrom n (x ∷ bs)
    → last (x ∷ bs) ≡ ok tip
    → b.index ≡ tip.index + 1
    → IsNumberedFrom n ((x ∷ bs) ++ b ∷ []) × (tip.index ≡ n + length bs)
unfolding last
numbered-append n x [] tip b h t e = ground arith
numbered-append n x (y ∷ bs) tip b h t e =
    let (nums, at_end) = numbered-append (suc n) y bs tip b h.1 t e in
    ((h.0, nums), omega (arith, at_end))

module _ {P : Type 0} (codec : Codec P) where
  open codec use {hash, serialize}

  verify_after_linked :
      (prev : AuditBlock) (bs : List AuditBlock)
      → IsLinkedAfter hash prev bs
      → verify_after codec prev bs ≡ ok true
  unfolding verify_after
  verify_after_linked prev [] h = refl
  verify_after_linked prev (b ∷ bs) h =
      let same = ap (compare_digest b.prev_hash) (sym h.1) ∙ compare_digest_self b.prev_hash in
      rw (h.0, same) (verify_after_linked b bs h.2)

  linked_of_verify_after :
      (prev : AuditBlock) (bs : List AuditBlock)
      → verify_after codec prev bs ≡ ok true
      → IsLinkedAfter hash prev bs
  unfolding verify_after
  linked_of_verify_after prev [] h = tt
  linked_of_verify_after prev (b ∷ bs) h =
      let (sound, same, rest) =
        passed (block_verify hash b) (compare_digest b.prev_hash prev.block_hash)
          (verify_after codec b bs) h in
      (sound, compare_digest-eq b.prev_hash prev.block_hash same, linked_of_verify_after b bs rest)

  -- `verify_chain` answers true exactly when every block stores the hash of its own contents and
  -- every block but the first stores the hash of the block before it.
  pub verify_chain_iff : (c : Chain) → (verify_chain codec c ≡ ok true) ↔ IsLinked hash c.blocks
  unfolding verify_chain verify_blocks
  verify_chain_iff c = (from c.blocks, to c.blocks)
    where
      from : (bs : List AuditBlock) → verify_blocks codec bs ≡ ok true → IsLinked hash bs
      from [] h = tt
      from (b ∷ bs) h =
          let (sound, rest) = passed_first (block_verify hash b) (verify_after codec b bs) h in
          (sound, linked_of_verify_after b bs rest)

      to : (bs : List AuditBlock) → IsLinked hash bs → verify_blocks codec bs ≡ ok true
      to [] h = refl
      to (b ∷ bs) h = rw h.0 (verify_after_linked b bs h.1)

  pub linked-append :
      (prev : AuditBlock) (bs : List AuditBlock) (tip b : AuditBlock)
      → IsLinkedAfter hash prev bs
      → last (prev ∷ bs) ≡ ok tip
      → IsSound hash b
      → b.prev_hash ≡ tip.block_hash
      → IsLinkedAfter hash prev (bs ++ b ∷ [])
  unfolding last
  linked-append prev [] tip b h t s e = (s, e ∙ cc, tt)
  linked-append prev (x ∷ bs) tip b h t s e = (h.0, h.1, linked-append x bs tip b h.2 t s e)
