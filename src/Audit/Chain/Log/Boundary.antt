-- ===== src/Audit/Chain/Log/Boundary.antt =====
-- What the hash of a block leaves open: its parts are concatenated with no mark of their lengths.
use noema.Prelude.{
  ℕ, zero, suc, ◌*◌, ◌/◌, ◌%◌, ◌<◌, ◌^◌, ◌≡◌, ◌≢◌, refl, sym, ap, subst, ◌∙◌, true, List, [], ◌∷◌,
  ◌++◌, append_assoc, length, length-append, ok, arith,
}
use noema.Audit.Bytes.{Bytes, to_bytes}
use noema.Audit.Chain.{AuditBlock, Chain, micros}
use noema.Audit.Chain.Log.{Codec, verify_chain}
use noema.Audit.Chain.Log.Valid.{IsSound, IsLinked, IsLinkedAfter, verify_chain_iff}
use noema.Audit.Chain.Log.Growth.{hashed, IsSound-of_hash}
use noema.Audit.Chain.Log.Tamper.{data_of, sound_inv}
use native.Mathlib.Nat.{pow-suc}

to_bytes-leading_zero :
    (width n : ℕ) → n < 256 ^ width → to_bytes (suc width) n ≡ 0 ∷ to_bytes width n
unfolding to_bytes
to_bytes-leading_zero zero n h = let e : n ≡ 0 = omega arith in rw e
to_bytes-leading_zero (suc width) n h =
    rw (to_bytes-leading_zero width (n / 256) (omega (arith, pow-suc 256 width)))

-- The block with the last byte of its commitment moved into the timestamp, and the last byte of the
-- timestamp moved into the metadata.
abbrev pub shift : Bytes → AuditBlock → AuditBlock
shift commitment b = record b {
  commitment = commitment;
  timestamp = (micros b.timestamp / 256) * 1000;
  metadata = micros b.timestamp % 256 ∷ b.metadata;
}

data_of-shift :
    (commitment : Bytes) (b : AuditBlock)
    → b.commitment ≡ commitment ++ 0 ∷ []
    → micros b.timestamp < 256 ^ 8
    → data_of (shift commitment b) ≡ data_of b
unfolding to_bytes
data_of-shift commitment b e t =
    let after = to_bytes 8 (micros b.timestamp) ++ b.metadata in
    let whole : micros ((micros b.timestamp / 256) * 1000) ≡ micros b.timestamp / 256 =
      omega arith in
    let zero_first : to_bytes 8 (micros ((micros b.timestamp / 256) * 1000))
          ++ (micros b.timestamp % 256 ∷ b.metadata)
        ≡ 0 ∷ after =
      ap (λ x. x ++ (micros b.timestamp % 256 ∷ b.metadata))
        (ap (to_bytes 8) whole
          ∙ to_bytes-leading_zero 7 (micros b.timestamp / 256) (omega arith)) in
    let regrouped : commitment ++ (0 ∷ after) ≡ b.commitment ++ after =
      sym (append_assoc commitment (0 ∷ []) after) ∙ ap (λ x. x ++ after) (sym e) in
    ap (λ x. to_bytes 8 b.index ++ (b.prev_hash ++ x))
      (ap (λ x. commitment ++ x) zero_first ∙ regrouped)

shift-IsSound :
    (hash : Bytes → Bytes) (commitment : Bytes) (b : AuditBlock)
    → b.commitment ≡ commitment ++ 0 ∷ []
    → IsSound hash b
    → IsSound hash (shift commitment b)
shift-IsSound hash commitment b e s =
    let (i, t, h) = sound_inv hash b s in
    let b' = shift commitment b in
    let made =
      hashed hash b'.index b'.prev_hash b'.commitment b'.timestamp b'.metadata i (omega arith) in
    IsSound-of_hash hash b'
      (made ∙ ap (λ d. ok (hash d)) (data_of-shift commitment b e t) ∙ ap ok (sym h))

module _ (hash : Bytes → Bytes) (b b' : AuditBlock) (prev : b'.prev_hash ≡ b.prev_hash)
    (kept : b'.block_hash ≡ b.block_hash) (sound : IsSound hash b → IsSound hash b') where
  linked_rest : (rest : List AuditBlock) → IsLinkedAfter hash b rest → IsLinkedAfter hash b' rest
  linked_rest [] l = tt
  linked_rest (x ∷ rest) l = (l.0, l.1 ∙ sym kept, l.2)

  IsLinkedAfter-replace :
      (first : AuditBlock) (front rest : List AuditBlock)
      → IsLinkedAfter hash first (front ++ b ∷ rest)
      → IsLinkedAfter hash first (front ++ b' ∷ rest)
  IsLinkedAfter-replace first [] rest l = (sound l.0, prev ∙ l.1, linked_rest rest l.2)
  IsLinkedAfter-replace first (x ∷ front) rest l =
      (l.0, l.1, IsLinkedAfter-replace x front rest l.2)

  IsLinked-replace :
      (front rest : List AuditBlock)
      → IsLinked hash (front ++ b ∷ rest)
      → IsLinked hash (front ++ b' ∷ rest)
  IsLinked-replace [] rest l = (sound l.0, linked_rest rest l.1)
  IsLinked-replace (x ∷ front) rest l = (l.0, IsLinkedAfter-replace x front rest l.1)

-- Let a block of a chain that verifies have a commitment that ends in a zero byte. The chain with
-- that byte moved from the commitment to the timestamp, and the timestamp's last byte moved to the
-- metadata, verifies too, though the commitment is another.
pub verify_chain-shift :
    {P : Type 0} (codec : Codec P) (c : Chain) (front rest : List AuditBlock) (b : AuditBlock)
    (commitment : Bytes)
    → c.blocks ≡ front ++ b ∷ rest
    → b.commitment ≡ commitment ++ 0 ∷ []
    → verify_chain codec c ≡ ok true
    → (verify_chain codec (record c { blocks = front ++ shift commitment b ∷ rest }) ≡ ok true)
      × ((shift commitment b).commitment ≢ b.commitment)
verify_chain-shift codec c front rest b commitment e z v =
    let sound = shift-IsSound codec.hash commitment b z in
    let linked = subst (IsLinked codec.hash) e ((verify_chain_iff codec c).0 v) in
    let replaced =
      IsLinked-replace codec.hash b (shift commitment b) refl refl sound front rest linked in
    (
      (verify_chain_iff codec (record c { blocks = front ++ shift commitment b ∷ rest })).1
          replaced,
      λ same. absurd (omega (arith, ap length (same ∙ z), length-append commitment (0 ∷ []))),
    )
