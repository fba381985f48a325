-- ===== src/Audit/Chain/Tree/Complete.antt =====
-- Every block of a chain has an inclusion proof, and the chain accepts it.
use noema.Prelude.{
  ℕ, zero, suc, ◌+◌, ◌*◌, ◌/◌, ◌≤◌, ◌<◌, ◌≡◌, refl, ◌∙◌, Bool, true, false, none, some, List, [],
  ◌∷◌, ◌++◌, map, ltb, ◌==◌, if◌then◌else◌, length, get_elem?, get_elem?-lt, ok, arith, ◌⊎◌, inl,
  inr, Bool-cases,
}
use noema.Audit.Bytes.{Bytes, compare_digest_self}
use noema.Audit.Chain.{Chain, AuditBlock, at, last}
use noema.Audit.Chain.Tree.{
  MerkleProof, all_but_last, sibling, siblings_from, climb, proof_verify, next_level, levels_from,
  leaves, build_levels, root, prove_inclusion, verify_proof,
}

sibling_shift :
    (a b : Bytes) (level : List Bytes) (i : ℕ)
    → sibling (suc (suc i)) (a ∷ b ∷ level) ≡ sibling i level
unfolding sibling
sibling_shift a b level zero = ground arith
sibling_shift a b level (suc i) = ground arith

siblings_from-cons :
    (i : ℕ) (level next : List Bytes) {levels more : List (List Bytes)}
    {ss ts : List (Bytes × Bool)}
    → levels ≡ next ∷ more
    → sibling i level ≡ ok ss
    → siblings_from (i / 2) (all_but_last levels) ≡ ok ts
    → siblings_from i (all_but_last (level ∷ levels)) ≡ ok (ss ++ ts)
unfolding siblings_from all_but_last
siblings_from-cons i level next {levels} {more} e p q =
    let q' : siblings_from (i / 2) (all_but_last (next ∷ more)) ≡ ok _ = rw e at q in
    rw e (rw (p, q'))

last-cons : {A : Type 0} (x y : A) {xs more : List A} → xs ≡ y ∷ more → last (x ∷ xs) ≡ last xs
unfolding last
last-cons x y e = rw e

abbrev proof_of : ℕ → AuditBlock → List (Bytes × Bool) → MerkleProof
proof_of i b siblings = record { block_index = i; block_hash = b.block_hash; siblings = siblings }

module _ (hash : Bytes → Bytes) where
  -- What a level adds to a proof leads from an element of the level to one of the next.
  sibling-next_level :
      (level : List Bytes) (i : ℕ) (x : Bytes)
      → get_elem? level i ≡ some x
      → (ss : List (Bytes × Bool)) × (sibling i level ≡ ok ss)
        × (get_elem? (next_level hash level) (i / 2) ≡ some (climb hash x ss))
  unfolding sibling next_level climb
  sibling-next_level [] i x h = absurd (cc)
  sibling-next_level (a ∷ []) zero x h = ([], ground arith, h)
  sibling-next_level (a ∷ []) (suc i) x h = absurd (cc)
  sibling-next_level (a ∷ b ∷ level) zero x h = ((b, false) ∷ [], ground arith, ground arith)
  sibling-next_level (a ∷ b ∷ level) (suc zero) x h = ((a, true) ∷ [], ground arith, ground arith)
  sibling-next_level (a ∷ b ∷ level) (suc (suc i)) x h =
      let (ss, found, up) = sibling-next_level level i x h in
      let half : suc (suc i) / 2 ≡ suc (i / 2) = omega arith in
      (ss, sibling_shift a b level i ∙ found, rw half up)

  climb-append :
      (x : Bytes) (ss ts : List (Bytes × Bool))
      → climb hash x (ss ++ ts) ≡ climb hash (climb hash x ss) ts
  unfolding climb
  climb-append x [] ts = refl
  climb-append x ((s, is_left) ∷ ss) ts =
      climb-append (if is_left then hash (s ++ x) else hash (x ++ s)) ss ts

  length-next_level : (level : List Bytes) → 2 * length (next_level hash level) ≤ length level + 1
  unfolding next_level
  length-next_level [] = omega arith
  length-next_level (x ∷ []) = omega arith
  length-next_level (x ∷ y ∷ level) = omega (arith, length-next_level level)

  levels_from-cons :
      (fuel : ℕ) (level : List Bytes)
      → (more : List (List Bytes)) × (levels_from hash fuel level ≡ level ∷ more)
  unfolding levels_from
  levels_from-cons zero level = ([], refl)
  levels_from-cons (suc fuel) level = elim (Bool-cases (ltb 1 (length level))) [
    | inl e ↦ (levels_from hash fuel (next_level hash level), rw e)
    | inr e ↦ ([], rw e)
  ]

  levels_from-next :
      (fuel : ℕ) (level : List Bytes)
      → 1 < length level
      → levels_from hash (suc fuel) level ≡ level ∷ levels_from hash fuel (next_level hash level)
  unfolding levels_from
  levels_from-next fuel level h = ground arith

  -- The proof that the levels give for an element climbs from it to the top of the last level.
  climb-levels_from :
      (fuel : ℕ) (level : List Bytes) (i : ℕ) (x : Bytes)
      → get_elem? level i ≡ some x
      → length level ≤ fuel
      → (ss : List (Bytes × Bool)) × (siblings_from i (all_but_last (levels_from hash fuel level))
          ≡ ok ss)
        × (top : List Bytes) × (last (levels_from hash fuel level) ≡ ok top)
        × (at top 0 ≡ ok (climb hash x ss))
  climb-levels_from fuel [] i x h l = absurd (cc)
  climb-levels_from zero (a ∷ level) i x h l = absurd (omega arith)
  climb-levels_from (suc fuel) (a ∷ []) zero x h l =
      unfold levels_from all_but_last siblings_from last at climb in
      ([], refl, a ∷ [], refl, ground arith)
  climb-levels_from (suc fuel) (a ∷ []) (suc i) x h l = absurd (cc)
  climb-levels_from (suc fuel) (a ∷ b ∷ level) i x h l =
      let (ss, found, up) = sibling-next_level (a ∷ b ∷ level) i x h in
      let next = next_level hash (a ∷ b ∷ level) in
      let shorter : length next ≤ fuel = omega (arith, length-next_level (a ∷ b ∷ level)) in
      let (ts, rest, top, tops, ends) =
        climb-levels_from fuel next (i / 2) (climb hash x ss) up shorter in
      let (more, shape) = levels_from-cons fuel next in
      (
        ss ++ ts,
        rw (levels_from-next fuel (a ∷ b ∷ level) (omega arith))
            (siblings_from-cons i (a ∷ b ∷ level) next shape found rest),
        top,
        rw (levels_from-next fuel (a ∷ b ∷ level) (omega arith))
            (last-cons (a ∷ b ∷ level) next shape ∙ tops),
        rw climb-append ends,
      )

  abbrev pub levels_of : Chain → List (List Bytes)
  levels_of c = levels_from hash (length (leaves hash c)) (leaves hash c)

  -- A chain remembers no tree, or the one of its blocks.
  abbrev pub IsFresh : Chain → Type 0
  IsFresh c = (c.tree_levels ≡ none) ⊎ (c.tree_levels ≡ some (levels_of c))

  remember : Chain → Chain
  remember c = record c { tree_levels = some (levels_of c) }

  build_levels-remember : (c : Chain) → IsFresh c → build_levels hash c ≡ (levels_of c, remember c)
  unfolding build_levels remember
  build_levels-remember c (inl e) = rw (e, build_levels)
  build_levels-remember c (inr e) =
      rw (e, build_levels) (λ i. (levels_of c, record c { tree_levels = e i }))

  no_siblings_alone :
      (fuel i : ℕ) (level : List Bytes)
      → (if length level == 1
          then ok []
          else siblings_from i (all_but_last (levels_from hash fuel level)))
        ≡ siblings_from i (all_but_last (levels_from hash fuel level))
  unfolding levels_from all_but_last siblings_from
  no_siblings_alone fuel i [] = ground arith
  no_siblings_alone zero i (x ∷ []) = ground arith
  no_siblings_alone (suc fuel) i (x ∷ []) = ground arith
  no_siblings_alone fuel i (x ∷ y ∷ level) = ground arith

  get_elem?-leaves :
      (bs : List AuditBlock) (i : ℕ) (b : AuditBlock)
      → get_elem? bs i ≡ some b
      → get_elem? (map (λ c. c.block_hash) bs) i ≡ some b.block_hash
  get_elem?-leaves [] i b h = absurd (cc)
  get_elem?-leaves (x ∷ bs) zero b h = ground arith
  get_elem?-leaves (x ∷ bs) (suc i) b h = get_elem?-leaves bs i b h

  lowest-leaves : (fuel : ℕ) (level : List Bytes) → at (levels_from hash fuel level) 0 ≡ ok level
  unfolding at
  lowest-leaves fuel level = let (more, e) = levels_from-cons fuel level in rw e

  made :
      (c : Chain) (i : ℕ) (b : AuditBlock) {ss : List (Bytes × Bool)}
      → get_elem? c.blocks i ≡ some b
      → IsFresh c
      → siblings_from i (all_but_last (levels_of c)) ≡ ok ss
      → prove_inclusion hash i c ≡ ok (some (proof_of i b ss), remember c)
  unfolding prove_inclusion
  made c i b found fresh sibs =
      let alone = no_siblings_alone (length (leaves hash c)) i (leaves hash c) ∙ sibs in
      rw (found, prove_inclusion)
        (rw (
          build_levels-remember c fresh,
          lowest-leaves (length (leaves hash c)) (leaves hash c),
          alone,
        ))

  rooted :
      (c : Chain) {top : List Bytes} {r : Bytes}
      → last (levels_of c) ≡ ok top
      → at top 0 ≡ ok r
      → root hash (remember c) ≡ ok (r, remember c)
  unfolding root remember leaves
  rooted c tops ends = rw (build_levels-remember (remember c) (inr refl), tops, ends)

  accepted :
      (c : Chain) (i : ℕ) (b : AuditBlock) (ss : List (Bytes × Bool))
      → get_elem? c.blocks i ≡ some b
      → root hash (remember c) ≡ ok (climb hash b.block_hash ss, remember c)
      → verify_proof hash (proof_of i b ss) (remember c) ≡ ok (true, remember c)
  unfolding verify_proof proof_verify remember
  accepted c i b ss found r =
      rw (found, verify_proof) (rw (compare_digest_self, r, compare_digest_self))

  -- In a chain that remembers no tree, or the tree of its blocks, every position has an inclusion
  -- proof for its index, which the chain accepts against the root that it reports; making the proof
  -- does not change the blocks.
  pub prove_inclusion-verify_proof :
      (c : Chain) (i : ℕ)
      → IsFresh c
      → i < length c.blocks
      → (p : MerkleProof) × (r : Bytes) × (c' : Chain) × (prove_inclusion hash i c
          ≡ ok (some p, c'))
        × (p.block_index ≡ i)
        × (c'.blocks ≡ c.blocks)
        × (root hash c' ≡ ok (r, c'))
        × (verify_proof hash p c' ≡ ok (true, c'))
  unfolding leaves remember
  prove_inclusion-verify_proof c i fresh h =
      let (b, found) = get_elem?-lt c.blocks i h in
      let leaf = get_elem?-leaves c.blocks i b found in
      let (ss, sibs, top, tops, ends) =
        climb-levels_from (length (leaves hash c)) (leaves hash c) i b.block_hash leaf
          (omega arith) in
      let r = rooted c tops ends in
      (
        proof_of i b ss,
        climb hash b.block_hash ss,
        remember c,
        made c i b found fresh sibs,
        refl,
        refl,
        r,
        accepted c i b ss found r,
      )
