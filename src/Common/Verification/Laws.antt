-- ===== src/Common/Verification/Laws.antt =====
-- The digest of a list of rows is the sum of its rows' hashes: it does not depend on their order,
-- and counts repeated rows as often as they occur.
use mathlib.Core.List.{Perm, Permᴰ}
use mathlib.Core.Logic.{∥∥₁_elim}
use airgap_sync.Base.{
  List, [], ap, arith, length, refl, sum_of, ℕ, ◌%◌, ◌++◌, ◌+◌, ◌<◌, ◌∙◌, ◌∷◌, ◌≡◌,
}
use airgap_sync.Common.Verification.{
  Bytes, Hashes, MultisetDigest, modulus, new_digest, summary, update, update_rows,
}

sum_of-perm : {A : Type 0} (f : A → ℕ) {xs ys : List A} → Permᴰ xs ys → sum_of f xs ≡ sum_of f ys
sum_of-perm f Permᴰ.nil = refl
sum_of-perm f (Permᴰ.cons e p) = ground (arith, sum_of-perm f p, ap f e)
sum_of-perm f (Permᴰ.swap e e') = ground (arith, ap f e, ap f e')
sum_of-perm f (Permᴰ.trans p q) = sum_of-perm f p ∙ sum_of-perm f q

length-eq-sum_of : {A : Type 0} (xs : List A) → length xs ≡ sum_of (λ _. 1) xs
length-eq-sum_of [] = refl
length-eq-sum_of (x ∷ xs) = omega (arith, length-eq-sum_of xs)

MultisetDigest-set : IsSet MultisetDigest
MultisetDigest-set = hlevel

module _ (h : Hashes) where
  -- Both sums are below the modulus.
  abbrev pub IsReduced : MultisetDigest → Type 0
  IsReduced d = (d.sum_a < modulus) × (d.sum_b < modulus)

  pub update-IsReduced : (row : Bytes) (d : MultisetDigest) → IsReduced (update h row d)
  unfolding update
  update-IsReduced row d = omega arith

  -- From a digest with both sums below 2^256, the digest of a list of rows has the sums of the hashes
  -- modulo 2^256 and the number of rows, added to what was there.
  pub update_rows-closed :
      (rows : List Bytes) (d : MultisetDigest)
      → IsReduced d
      → ((update_rows h rows d).sum_a ≡ (d.sum_a + sum_of h.hash_a rows) % modulus)
        × ((update_rows h rows d).sum_b ≡ (d.sum_b + sum_of h.hash_b rows) % modulus)
        × ((update_rows h rows d).row_count ≡ d.row_count + length rows)
  unfolding update_rows
  update_rows-closed [] d v = omega arith
  update_rows-closed (row ∷ rows) d v =
      omega (arith, update_rows-closed rows (update h row d) (update-IsReduced row d))

  pub update_rows-append :
      (xs ys : List Bytes) (d : MultisetDigest)
      → update_rows h (xs ++ ys) d ≡ update_rows h ys (update_rows h xs d)
  unfolding update_rows
  update_rows-append [] ys d = refl
  update_rows-append (x ∷ xs) ys d = update_rows-append xs ys (update h x d)

  update_rows-perm :
      {xs ys : List Bytes} → Permᴰ xs ys → update_rows h xs new_digest ≡ update_rows h ys new_digest
  update_rows-perm {xs} {ys} p =
      let start : IsReduced new_digest = omega arith in
      ground (
        arith,
        update_rows-closed xs new_digest start,
        update_rows-closed ys new_digest start,
        sum_of-perm h.hash_a p,
        sum_of-perm h.hash_b p,
        sum_of-perm (λ _. 1) p,
        length-eq-sum_of xs,
        length-eq-sum_of ys,
      )

  -- Two permuted lists of rows have the same summary.
  pub summary-perm :
      (xs ys : List Bytes)
      → Perm xs ys
      → summary (update_rows h xs new_digest) ≡ summary (update_rows h ys new_digest)
  summary-perm xs ys p = ap summary (∥∥₁_elim p (MultisetDigest-set _ _) update_rows-perm)
