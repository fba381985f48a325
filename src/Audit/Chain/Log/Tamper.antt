-- ===== src/Audit/Chain/Log/Tamper.antt =====
-- What a chain that verifies says of its history: the tip's hash fixes every block whose digests
-- have their proper length, but for the timestamp below a microsecond.
use native.Mathlib.Decide.{ℕ_discrete}
use noema.Prelude.{
  ℕ, ◌<◌, ◌^◌, ◌≡◌, ◌≢◌, refl, sym, ap, ap₂, ◌∙◌, true, List, [], ◌∷◌, length, map, ok, arith, ◌⊎◌,
  inl, inr, ltb, ltb→lt, Bool-cases,
}
use noema.Audit.Bytes.{
  Bytes, compare_digest, compare_digest-eq, to_bytes, length-to_bytes, append-injective,
  to_bytes-injective,
}
use noema.Audit.Chain.{
  AuditBlock, Chain, last, micros, block_data, compute_block_hash, to_bytes8, block_verify,
}
use noema.Audit.Chain.Log.{Codec, verify_chain}
use noema.Audit.Chain.Log.Valid.{IsSound, IsLinked, IsLinkedAfter, verify_chain_iff}

-- Two inputs that a digest does not tell apart.
abbrev pub Collision : (Bytes → Bytes) → Type 0
Collision hash = (x : Bytes) × (y : Bytes) × (x ≢ y) × (hash x ≡ hash y)

Bytes-discrete : Discrete Bytes
Bytes-discrete = hlevel ℕ_discrete

pub same_or_Collision :
    (hash : Bytes → Bytes) (x y : Bytes) → hash x ≡ hash y → (x ≡ y) ⊎ Collision hash
same_or_Collision hash x y h = elim (Bytes-discrete x y) [ yes e ↦ inl e | no d ↦ inr (x, y, d, h) ]

-- The lengths of a block's two digests.
abbrev pub HasDigests : AuditBlock → Type 0
HasDigests b = (length b.prev_hash ≡ 32) × (length b.commitment ≡ 32)

abbrev pub AllDigests : List AuditBlock → Type 0
AllDigests [] = Unit
AllDigests (b ∷ bs) = HasDigests b × AllDigests bs

abbrev pub data_of : AuditBlock → Bytes
data_of b = block_data b.index b.prev_hash b.commitment b.timestamp b.metadata

-- A block but for what its timestamp has below a microsecond.
abbrev pub truncated : AuditBlock → AuditBlock
truncated b = record b { timestamp = micros b.timestamp }

pub sound_inv :
    (hash : Bytes → Bytes) (b : AuditBlock)
    → IsSound hash b
    → (b.index < 256 ^ 8) × (micros b.timestamp < 256 ^ 8) × (b.block_hash ≡ hash (data_of b))
unfolding block_verify compute_block_hash to_bytes8
sound_inv hash b h = elim (Bool-cases (ltb b.index (256 ^ 8))) [
  | inr e ↦ let h' = rw e at h in cc
  | inl e ↦ elim (Bool-cases (ltb (micros b.timestamp) (256 ^ 8))) [
    | inr e' ↦ let h' = rw (e, e') at h in cc
    | inl e' ↦
        let h' = rw (e, e') at h in
        let same : compare_digest (hash (data_of b)) b.block_hash ≡ true = cc in
        (
          ltb→lt b.index (256 ^ 8) e,
          ltb→lt (micros b.timestamp) (256 ^ 8) e',
          sym (compare_digest-eq (hash (data_of b)) b.block_hash same),
        )
  ]
]

same_data :
    (b b' : AuditBlock)
    → HasDigests b
    → HasDigests b'
    → b.index < 256 ^ 8
    → b'.index < 256 ^ 8
    → micros b.timestamp < 256 ^ 8
    → micros b'.timestamp < 256 ^ 8
    → b.block_hash ≡ b'.block_hash
    → data_of b ≡ data_of b'
    → truncated b ≡ truncated b'
same_data b b' d d' i i' t t' h e =
    let widths = λ (n m : ℕ). length-to_bytes 8 n ∙ sym (length-to_bytes 8 m) in
    let (index8, e₁) =
      append-injective (to_bytes 8 b.index) (to_bytes 8 b'.index) (widths b.index b'.index) e in
    let (prev, e₂) = append-injective b.prev_hash b'.prev_hash (d.0 ∙ sym d'.0) e₁ in
    let (commitment, e₃) = append-injective b.commitment b'.commitment (d.1 ∙ sym d'.1) e₂ in
    let (time8, metadata) =
      append-injective (to_bytes 8 (micros b.timestamp)) (to_bytes 8 (micros b'.timestamp))
        (widths (micros b.timestamp) (micros b'.timestamp)) e₃ in
    let index = to_bytes-injective 8 b.index b'.index i i' index8 in
    let time = to_bytes-injective 8 (micros b.timestamp) (micros b'.timestamp) t t' time8 in
    λ k. record {
      index = index k;
      prev_hash = prev k;
      timestamp = time k;
      commitment = commitment k;
      metadata = metadata k;
      block_hash = h k;
    }

-- Two sound blocks with one hash are one block, up to the microsecond.
same_block :
    (hash : Bytes → Bytes) (b b' : AuditBlock)
    → IsSound hash b
    → IsSound hash b'
    → HasDigests b
    → HasDigests b'
    → b.block_hash ≡ b'.block_hash
    → (truncated b ≡ truncated b') ⊎ Collision hash
same_block hash b b' s s' d d' h =
    let (i, t, e) = sound_inv hash b s in
    let (i', t', e') = sound_inv hash b' s' in
    elim (same_or_Collision hash (data_of b) (data_of b') (sym e ∙ h ∙ e')) [
      | inl same ↦ inl (same_data b b' d d' i i' t t' h same)
      | inr c ↦ inr c
    ]

module _ (hash : Bytes → Bytes) where
  same_after :
      (prev prev' : AuditBlock) (bs bs' : List AuditBlock) {tip tip' : AuditBlock}
      → IsLinkedAfter hash prev bs
      → IsLinkedAfter hash prev' bs'
      → AllDigests bs
      → AllDigests bs'
      → length bs ≡ length bs'
      → last (prev ∷ bs) ≡ ok tip
      → last (prev' ∷ bs') ≡ ok tip'
      → tip.block_hash ≡ tip'.block_hash
      → ((map truncated bs ≡ map truncated bs') × (prev.block_hash ≡ prev'.block_hash))
        ⊎ Collision hash
  unfolding last
  same_after prev prev' [] [] l l' d d' n t t' h = inl (refl, cc)
  same_after prev prev' [] (b' ∷ bs') l l' d d' n t t' h = absurd (omega arith)
  same_after prev prev' (b ∷ bs) [] l l' d d' n t t' h = absurd (omega arith)
  same_after prev prev' (b ∷ bs) (b' ∷ bs') l l' d d' n t t' h =
      elim (same_after b b' bs bs' l.2 l'.2 d.1 d'.1 (omega arith) t t' h) [
        | inr c ↦ inr c
        | inl (rest, hashes) ↦ elim (same_block hash b b' l.0 l'.0 d.0 d'.0 hashes) [
          | inr c ↦ inr c
          | inl e ↦ inl (ap₂ ◌∷◌ e rest, sym l.1 ∙ ap (λ (x : AuditBlock). x.prev_hash) e ∙ l'.1)
        ]
      ]

  same_linked :
      (bs bs' : List AuditBlock) {tip tip' : AuditBlock}
      → IsLinked hash bs
      → IsLinked hash bs'
      → AllDigests bs
      → AllDigests bs'
      → length bs ≡ length bs'
      → last bs ≡ ok tip
      → last bs' ≡ ok tip'
      → tip.block_hash ≡ tip'.block_hash
      → (map truncated bs ≡ map truncated bs') ⊎ Collision hash
  same_linked [] bs' l l' d d' n t t' h = unfold last in cc
  same_linked (b ∷ bs) [] l l' d d' n t t' h = absurd (omega arith)
  same_linked (b ∷ bs) (b' ∷ bs') l l' d d' n t t' h =
      elim (same_after b b' bs bs' l.1 l'.1 d.1 d'.1 (omega arith) t t' h) [
        | inr c ↦ inr c
        | inl (rest, hashes) ↦ elim (same_block hash b b' l.0 l'.0 d.0 d'.0 hashes) [
          | inr c ↦ inr c
          | inl e ↦ inl (ap₂ ◌∷◌ e rest)
        ]
      ]

-- If two chains of one length verify, the hashes of their last blocks agree, and every block has
-- digests of 32 bytes, then the blocks of the chains agree one by one in index, previous hash,
-- commitment, metadata and hash, and in the timestamps up to the microsecond, or else two inputs are at hand that the digest does not tell apart.
pub same_tip-same_blocks :
    {P : Type 0} (codec : Codec P) (c c' : Chain) {tip tip' : AuditBlock}
    → verify_chain codec c ≡ ok true
    → verify_chain codec c' ≡ ok true
    → AllDigests c.blocks
    → AllDigests c'.blocks
    → length c.blocks ≡ length c'.blocks
    → last c.blocks ≡ ok tip
    → last c'.blocks ≡ ok tip'
    → tip.block_hash ≡ tip'.block_hash
    → (map truncated c.blocks ≡ map truncated c'.blocks) ⊎ Collision codec.hash
same_tip-same_blocks codec c c' v v' d d' n t t' h =
    same_linked codec.hash c.blocks c'.blocks ((verify_chain_iff codec c).0 v)
      ((verify_chain_iff codec c').0 v') d d' n t t' h
